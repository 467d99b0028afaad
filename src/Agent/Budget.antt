-- ===== src/Agent/Budget.antt =====
-- A budget on what an agent hands to the simulator: how many effects of a kind it may cause, for the
-- packets of a kind that it holds. The child modules show that a method stays within it.
pub mod Forward
pub mod Requests
pub mod Resolve
pub mod Reception
pub mod Reply
pub mod Answer
pub mod Trust
pub mod Timers
pub mod Events
use ns2_te_aomdv.Base.{
  ℕ, ◌+◌, ◌≤◌, ◌≡◌, refl, Bool, true, false, Option, none, some, List, [], ◌∷◌, count, update_first,
  if◌then◌else◌, arith, Outcome, done, crash, null_pointer, Fault, Yields,
}
use ns2_te_aomdv.Packet.{
  Packet, Header, hello, rreq, rrep, rerr, rcom, prob, pta, other, Request, pt_teaomdv,
}
use ns2_te_aomdv.Entry.{Entry}
use ns2_te_aomdv.Table.{rt_lookup}
use ns2_te_aomdv.Queue.{Reason}
use ns2_te_aomdv.Agent.State.{
  M, Agent, Effect, Timer, scheduled, dropped, delivered, freed, resched, BroadcastId, assert, when,
  lift, emit, entry,
}
use ns2_te_aomdv.Agent.Forward.{deref}

abbrev pub is_request : {D : Type 0} → Header D → Bool
is_request (rreq rq) = true
is_request (hello rp) = false
is_request (rrep rp) = false
is_request (rerr unreachable) = false
is_request (rcom rc) = false
is_request prob = false
is_request (pta re) = false
is_request (other t) = false

-- The packets that are watched, the effects that count, and what is held in reserve for a request
-- that is not known. Only an effect on a watched packet counts. The kind of a packet hangs on its type,
-- its id and its header; a control packet that the agent makes itself is of none.
pub record Watch (D : Type 0) : Type 0 where
  pub carries : Packet D → Bool
  pub counts : Effect D → Bool
  pub reserve : List (BroadcastId D) → ℕ
  pub is_foreign : ℕ → Bool
  pub sent : (p : Packet D) (t : D) → carries p ≡ false → counts (scheduled p t) ≡ false
  pub lost : (p : Packet D) (why : Reason) → carries p ≡ false → counts (dropped p why) ≡ false
  pub given : (p : Packet D) → carries p ≡ false → counts (delivered p) ≡ false
  pub released : (p : Packet D) → counts (freed p) ≡ false
  pub timed : (i : Timer) (t : D) → counts (resched i t) ≡ false
  pub same :
      (p q : Packet D)
      → p.ptype ≡ q.ptype
      → p.uid ≡ q.uid
      → p.header ≡ q.header
      → carries p ≡ carries q
  pub control :
      (p : Packet D) → p.ptype ≡ pt_teaomdv → is_request p.header ≡ false → carries p ≡ false
  pub own :
      (p : Packet D) (rq : Request D) (index : ℕ)
      → is_foreign index ≡ true
      → p.ptype ≡ pt_teaomdv
      → p.header ≡ rreq rq
      → rq.rq_src ≡ index
      → carries p ≡ false
  pub noted :
      (test : BroadcastId D → Bool) (f : BroadcastId D → BroadcastId D) (bs : List (BroadcastId D))
      → ((i : BroadcastId D) → ((f i).src ≡ i.src) × ((f i).id ≡ i.id))
      → reserve (update_first test f bs) ≡ reserve bs

module _ {D : Type 0} (w : Watch D) where
  abbrev pub weight : Packet D → ℕ
  weight p = if w.carries p then 1 else 0

  abbrev pub cost : Effect D → ℕ
  cost e = if w.counts e then 1 else 0

  pub record IsWithin (b index : ℕ) (items : List (Packet D)) (effects : List (Effect D))
      (bs : List (BroadcastId D)) : Type 0 where
    pub foreign : w.is_foreign index ≡ true
    pub within : count w.counts effects + count w.carries items + w.reserve bs ≤ b

  abbrev pub Within : ℕ → Agent D → Type 0
  Within b s = IsWithin b s.index s.rqueue.items s.effects s.bihead

-- The result of a method: it stops, or returns with the postcondition.
pub data Ends {D A : Type 0} (P : A → Agent D → Type 0) : Outcome (A × Agent D) → Type 0 where
  returns : {a : A} {s : Agent D} → P a s → Ends P (done (a, s))
  stops : {e : Fault} → Ends P (crash e)

Yields_lem : {A : Type 0} (o : Outcome A) → Yields (λ _. Unit {0}) o
Yields_lem (done a) = tt
Yields_lem (crash e) = tt

module _ {D : Type 0} (w : Watch D) (b : ℕ) where
  -- An outcome within the budget `b`, the result of which has the property `R`.
  abbrev pub Stays : {A : Type 0} → (A → Type 0) → Outcome (A × Agent D) → Type 0
  Stays R o = Ends (λ a s. Within w b s × R a) o

  abbrev pub Frugal : {A : Type 0} → Outcome (A × Agent D) → Type 0
  Frugal o = Stays (λ _. Unit {0}) o

module _ {D : Type 0} where
  pub then-Stays :
      {w : Watch D} {c : ℕ} {A B : Type 0} {Q : A → Type 0} {P : B → Agent D → Type 0}
      {o : Outcome (A × Agent D)} {f : A → Agent D → Outcome (B × Agent D)}
      → Stays w c Q o
      → ((a : A) (s : Agent D) → Within w c s → Q a → Ends P (f a s))
      → Ends P (elim o [ crash e ↦ crash e | done (a, s) ↦ f a s ])
  then-Stays (returns {a = a} {s = s} q) k = k a s q.0 q.1
  then-Stays stops k = stops

  pub if-Stays :
      {A : Type 0} {P : A → Agent D → Type 0} (c : Bool) (m k : M D A) (s : Agent D)
      → Ends P (m s)
      → Ends P (k s)
      → Ends P ((if c then m else k) s)
  if-Stays true m k s h h' = h
  if-Stays false m k s h h' = h'

module _ {D : Type 0} {w : Watch D} {b : ℕ} where
  pub done-Frugal : {s : Agent D} → Within w b s → Frugal w b (done (tt, s))
  done-Frugal v = returns (v, tt)

  pub when-Frugal :
      (c : Bool) (m : M D (Unit {0})) (s : Agent D)
      → Within w b s
      → Frugal w b (m s)
      → Frugal w b (when c m s)
  when-Frugal true m s v h = h
  when-Frugal false m s v h = done-Frugal v

  pub assert-Frugal : (c : Bool) (s : Agent D) → Within w b s → Frugal w b (assert c s)
  assert-Frugal true s v = done-Frugal v
  assert-Frugal false s v = stops

  pub lift-Stays :
      {A : Type 0} {R : A → Type 0} (o : Outcome A) (s : Agent D)
      → Within w b s
      → Yields R o
      → Stays w b R (lift o s)
  lift-Stays (done a) s v h = returns (v, h)
  lift-Stays (crash e) s v h = stops

  pub lift-Frugal :
      {A : Type 0} (o : Outcome A) (s : Agent D) → Within w b s → Frugal w b (lift o s)
  lift-Frugal o s v = lift-Stays o s v (Yields_lem o)

  pub deref-Frugal :
      {A : Type 0} (o : Option A) (s : Agent D) → Within w b s → Frugal w b (deref o s)
  deref-Frugal {A} none s v = stops
  deref-Frugal {A} (some a) s v = returns (v, tt)

  pub entry-Frugal : (dst : ℕ) (s : Agent D) → Within w b s → Frugal w b (entry dst s)
  entry-Frugal dst s v = go (rt_lookup s.rtable dst)
    where
      go :
          (o : Option (Entry D))
          → Frugal w b (elim o [ none ↦ crash null_pointer | some e ↦ done (e, s) ])
      go none = stops
      go (some e) = returns (v, tt)

  -- An effect that is paid for.
  pub emit-Stays :
      {c : ℕ} (e : Effect D) (s : Agent D) → Within w c s → c + cost w e ≤ b → Frugal w b (emit e s)
  emit-Stays e s v l =
      done-Frugal (let h = v.within in record { foreign = v.foreign; within = ground arith })

  -- An effect on a packet that is paid for.
  pub pay-Stays :
      {c : ℕ} (e : Effect D) (p : Packet D) (s : Agent D)
      → (w.carries p ≡ false → w.counts e ≡ false)
      → Within w c s
      → c + weight w p ≤ b
      → Frugal w b (emit e s)
  pay-Stays {c} e p s h v l = emit-Stays e s v (paid (w.carries p) (w.counts e) h l)
    where
      paid :
          (x y : Bool)
          → (x ≡ false → y ≡ false)
          → c + (if x then 1 else 0) ≤ b
          → c + (if y then 1 else 0) ≤ b
      paid true true h l = l
      paid true false h l = omega arith
      paid false true h l = ground (arith, h refl)
      paid false false h l = l

  -- An effect that does not count.
  pub emit-Frugal :
      {e : Effect D} {s : Agent D} → Within w b s → w.counts e ≡ false → Frugal w b (emit e s)
  emit-Frugal v h =
      done-Frugal (record { foreign = v.foreign; within = rw h (let k = v.within in omega arith) })

  pub weaken-Frugal :
      {c : ℕ} {A : Type 0} {o : Outcome (A × Agent D)} → c ≤ b → Frugal w c o → Frugal w b o
  weaken-Frugal l (returns {s = s} h) =
      let k = h.0.within in returns (record { foreign = h.0.foreign; within = omega arith }, tt)
  weaken-Frugal l stops = stops

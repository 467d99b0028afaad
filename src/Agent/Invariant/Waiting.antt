-- ===== src/Agent/Invariant/Waiting.antt =====
-- The loops over the packets that wait for a route end, and keep the agent valid.
pub mod Dropped
use ns2_te_aomdv.Base.{
  ◌∙◌, List, [], any, keep, keep-all, not, keep-remove_first, keep-remove_first-keep, keep-find,
  keep-nil, Outcome, ℕ, zero, suc, ◌<◌, ◌≡◌, refl, sym, subst, Bool, true, false, Option, none,
  some, ◌∷◌, length, length-keep-le, length-remove_first, find-any, remove_first-none, arith,
  Double, ◌⊕◌,
}
use ns2_te_aomdv.Packet.{Packet}
use ns2_te_aomdv.Entry.{Entry, is_up}
use ns2_te_aomdv.Queue.{Queue, Reason, is_for}
use ns2_te_aomdv.Queue.Purge.{is_fresh}
use ns2_te_aomdv.Queue.Laws.{served, waiting, deque_lem}
use ns2_te_aomdv.Agent.State.{
  M, Env, Agent, pure, ◌>>=◌, ◌>>◌, skip, entry, set_entry, when, emit, dropped,
}
use ns2_te_aomdv.Agent.Forward.{forward, no_delay}
use ns2_te_aomdv.Agent.Request.{drop_waiting, drop_all_waiting}
use ns2_te_aomdv.Agent.Resolve.{forward_waiting}
use ns2_te_aomdv.Agent.RecvRequest.Answer.{serve_waiting, route_is_up, reset_soft_state}
use ns2_te_aomdv.Agent.Invariant.{
  IsGood, IsBounded, IsValid, Keeps, Post, returns, then-Post, weaken-Post, entry-Post,
}
use ns2_te_aomdv.Agent.Invariant.Forward.{forward-Post}
use ns2_te_aomdv.Agent.Invariant.Deletion.{set_entry-Keeps}

module _ {D : Type 0} where
  pub valid-Keeps : (s : Agent D) → IsValid s → Keeps s.rqueue s
  valid-Keeps s v = record { good = v.good; same = refl }

  pub Keeps-IsValid : (q : Queue D) (s : Agent D) → IsBounded q → Keeps q s → IsValid s
  Keeps-IsValid q s b k = record { good = k.good; bounded = subst IsBounded (sym k.same) b }

module _ {D : Type 0} ⦃fl : Double D⦄ (env : Env D) (dst : ℕ) where
  pub served-IsBounded : (q : Queue D) → IsBounded q → IsBounded (served env.now dst q).1
  served-IsBounded q b = record {
    counted = refl;
    within = ground (
      arith,
      b,
      length-keep-le (is_fresh env.now) q.items,
      length-remove_first (is_for dst) (waiting env.now q),
      remove_first-none (is_for dst) (waiting env.now q),
    );
    positive = b.positive;
  }

  -- The packets in the queue that have not timed out: those for other destinations, and those for this
  -- one.
  abbrev pub others : Queue D → List (Packet D)
  others q = keep (λ p. not (is_for dst p)) (waiting env.now q)

  abbrev pub mine : Queue D → List (Packet D)
  mine q = keep (is_for dst) (waiting env.now q)

  pub served-others : (q : Queue D) → others (served env.now dst q).1 ≡ others q
  served-others q =
      rw (keep-remove_first-keep (is_fresh env.now) (is_for dst) q.items)
        (keep-remove_first (is_for dst) (waiting env.now q))

  pub served-none :
      (q : Queue D)
      → (served env.now dst q).0 ≡ none
      → ((served env.now dst q).1.items ≡ others q) × (mine q ≡ [])
  served-none q h =
      let absent : any (is_for dst) (waiting env.now q) ≡ false =
        cc (find-any (is_for dst) (waiting env.now q), h) in
      (
        remove_first-none (is_for dst) (waiting env.now q) absent
            ∙ sym (keep-all (is_for dst) (waiting env.now q) absent),
        keep-nil (is_for dst) (waiting env.now q) h,
      )

  pub served-some :
      (q : Queue D) (p : Packet D)
      → (served env.now dst q).0 ≡ some p
      → mine q ≡ p ∷ mine (served env.now dst q).1
  served-some q p h =
      rw (keep-remove_first-keep (is_fresh env.now) (is_for dst) q.items)
        (keep-find (is_for dst) (waiting env.now q) p h)

  -- A packet that is taken out makes the queue shorter.
  pub served-lt :
      (q : Queue D) (p : Packet D)
      → (served env.now dst q).0 ≡ some p
      → length (served env.now dst q).1.items < length q.items
  served-lt q p h = ground (
    arith,
    length-keep-le (is_fresh env.now) q.items,
    length-remove_first (is_for dst) (waiting env.now q),
    find-any (is_for dst) (waiting env.now q),
  )

  abbrev pub rest : Agent D → Agent D
  rest s = record s { rqueue = (served env.now dst s.rqueue).1 }

  rest-IsValid : (s : Agent D) → IsValid s → IsValid (rest s)
  rest-IsValid s v = record { good = v.good; bounded = served-IsBounded s.rqueue v.bounded }

  forward_kept :
      (p : Packet D) (delay : D) (b : Bool) (q : Queue D) (s : Agent D)
      → Keeps q s
      → Post (λ _. Keeps q) (when b (forward env (some dst) p delay) s)
  forward_kept p delay true q s k = forward-Post env q (some dst) p delay s k
  forward_kept p delay false q s k = returns k

  -- What is known of the state after a packet was taken out and something was done with it.
  abbrev IsShorter : Agent D → Agent D → Type 0
  IsShorter s s' =
      IsValid s'
      × (length s'.rqueue.items < length s.rqueue.items)
      × (others s'.rqueue ≡ others s.rqueue)

  -- The agent is valid, and of the packets in the queue those for other destinations are left.
  abbrev pub IsServed : {A : Type 0} → Agent D → A → Agent D → Type 0
  IsServed s _ s' = IsValid s' × (s'.rqueue.items ≡ others s.rqueue)

  shorter :
      (s : Agent D) (p : Packet D)
      → IsValid s
      → (served env.now dst s.rqueue).0 ≡ some p
      → (s' : Agent D) → Keeps (rest s).rqueue s'
      → IsShorter s s'
  shorter s p v q s' k = (
    Keeps-IsValid (rest s).rqueue s' (rest-IsValid s v).bounded k,
    rw (k.same) (served-lt s.rqueue p q),
    rw (k.same) (served-others s.rqueue),
  )

  then-IsServed :
      {A : Type 0} (s s' : Agent D) {o : Outcome (A × Agent D)}
      → IsShorter s s'
      → Post (IsServed s') o
      → Post (IsServed s) o
  then-IsServed s s' w h = weaken-Post (λ _ _ d. (d.0, d.1 ∙ w.2)) h

  -- With more fuel than packets in the queue, the loop that sends the buffered packets ends, keeps
  -- the agent valid, and leaves just the packets for other destinations that have not timed out.
  pub serve_waiting-Post :
      (fuel : ℕ) (s : Agent D)
      → IsValid s
      → length s.rqueue.items < fuel
      → Post (IsServed s) (serve_waiting env fuel dst s)
  unfolding serve_waiting
  serve_waiting-Post zero s v h = elim h [ ]
  serve_waiting-Post (suc fuel) s v h =
      rw (deque_lem env.now dst s.rqueue v.bounded.counted) (
        go _ refl
          λ s' w. then-IsServed s s' w (serve_waiting-Post fuel s' w.0 (omega (arith, w.1))))
    where
      v1 : IsValid (rest s)
      v1 = rest-IsValid s v

      go :
          (o : Option (Packet D))
          → (served env.now dst s.rqueue).0 ≡ o
          → ((s' : Agent D) → IsShorter s s' → Post (IsServed s) (serve_waiting env fuel dst s'))
          → Post (IsServed s) (
              (elim o as (λ _. M D (Unit {0})) [
                | none ↦ skip
                | some p ↦ (do
                  e ← entry dst
                  when (is_up e.flags) (forward env (some dst) p no_delay)
                  serve_waiting env fuel dst)
              ])
                (rest s))
      go none q next = returns (v1, (served-none s.rqueue q).0)
      go (some p) q next =
          then-Post (entry dst) _ (rest s) (entry-Post dst (rest s) v1.good) λ e s2 h2.
            then-Post (when (is_up e.flags) (forward env (some dst) p no_delay)) _ s2
              (forward_kept p no_delay (is_up e.flags) (rest s).rqueue s2
                (subst (Keeps (rest s).rqueue) (sym h2.0) (valid-Keeps (rest s) v1)))
              λ _ s3 k3. next s3 (shorter s p v q s3 k3)

  -- With more fuel than packets in the queue, the loop of the route cache timer over the packets that
  -- wait for a destination ends, keeps the agent valid, and leaves
  -- just the packets for other destinations that have not timed out.
  pub forward_waiting-Post :
      (fuel : ℕ) (delay : D) (s : Agent D)
      → IsValid s
      → length s.rqueue.items < fuel
      → Post (IsServed s) (forward_waiting env fuel dst delay s)
  unfolding forward_waiting
  forward_waiting-Post zero delay s v h = elim h [ ]
  forward_waiting-Post (suc fuel) delay s v h =
      rw (deque_lem env.now dst s.rqueue v.bounded.counted) (
        go _ refl λ s' w.
          then-IsServed s s' w
            (forward_waiting-Post fuel (delay ⊕ fl.lit 1 100) s' w.0 (omega (arith, w.1))))
    where
      v1 : IsValid (rest s)
      v1 = rest-IsValid s v

      go :
          (o : Option (Packet D))
          → (served env.now dst s.rqueue).0 ≡ o
          → ((s' : Agent D)
              → IsShorter s s'
              → Post (IsServed s) (forward_waiting env fuel dst (delay ⊕ fl.lit 1 100) s'))
          → Post (IsServed s) (
              (elim o as (λ _. M D D) [
                | none ↦ pure delay
                | some p ↦ (do
                  forward env (some dst) p delay
                  forward_waiting env fuel dst (delay ⊕ fl.lit 1 100))
              ])
                (rest s))
      go none q next = returns (v1, (served-none s.rqueue q).0)
      go (some p) q next =
          then-Post (forward env (some dst) p delay) _ (rest s)
            (forward-Post env (rest s).rqueue (some dst) p delay (rest s) (valid-Keeps (rest s) v1))
            λ _ s3 k3. next s3 (shorter s p v q s3 k3)

-- ===== src/Agent/Flooding/Run.antt =====
-- Over a run of an agent: a request of another node is passed on at most once while its record lasts.
use ns2_te_aomdv.Base.{
  ℕ, ◌+◌, ◌≤◌, ◌≡◌, refl, ◌≢◌, Bool, true, false, All, any, count, keep, List, [], ◌∷◌,
  if◌then◌else◌, arith, Double, done,
}
use ns2_te_aomdv.Packet.{Packet}
use ns2_te_aomdv.Agent.State.{Env, Agent, BroadcastId, has_id}
use ns2_te_aomdv.Agent.Ids.{id_lookup, id_purge, is_current}
use ns2_te_aomdv.Agent.Forward.{is_teaomdv}
use ns2_te_aomdv.Agent.Timers.{broadcast_timer}
use ns2_te_aomdv.Agent.Run.{
  Event, handle, started, received, overheard, broadcast_expired, hello_expired, neighbor_expired,
  cache_expired, probe_expired, trust_expired, repair_expired, link_failed,
}
use ns2_te_aomdv.Agent.Budget.{Within, Frugal, done-Frugal, weight}
use ns2_te_aomdv.Agent.Budget.Events.{price, handle-Frugal, Ends-done}
use ns2_te_aomdv.Agent.Budget.Timers.{IsFree}
use ns2_te_aomdv.Agent.Flooding.{IsPlain, is_copy, copies, allowance, request_watch}
use ns2_te_aomdv.Agent.Flooding.Once.{recv_request-Frugal}

module _ {D : Type 0} (src id : ℕ) where
  -- A packet that is received and is no packet of this protocol carries no copy of the request.
  abbrev pub IsFair : Event D → Type 0
  IsFair (received p) = is_teaomdv p.ptype ≡ false → IsPlain src id p
  IsFair started = Unit {0}
  IsFair (overheard p) = Unit {0}
  IsFair broadcast_expired = Unit {0}
  IsFair hello_expired = Unit {0}
  IsFair neighbor_expired = Unit {0}
  IsFair cache_expired = Unit {0}
  IsFair probe_expired = Unit {0}
  IsFair trust_expired = Unit {0}
  IsFair (repair_expired p) = Unit {0}
  IsFair (link_failed p) = Unit {0}

module _ {D : Type 0} ⦃fl : Double D⦄ (env : Env D) (src id : ℕ) where
  -- No record of the request has timed out.
  abbrev pub IsRecent : List (BroadcastId D) → Type 0
  IsRecent bs = All (λ i. has_id src id i ≡ true → is_current env i ≡ true) bs

  -- The data among the packets of the interface queue carry no copy of the request.
  abbrev pub IsClean : Type 0
  IsClean = (a : ℕ) → All (λ q. env.is_data q.ptype ≡ true → IsPlain src id q) (env.ifq_filter a)

  any-keep :
      (bs : List (BroadcastId D))
      → IsRecent bs
      → any (has_id src id) (keep (is_current env) bs) ≡ any (has_id src id) bs
  any-keep [] h = refl
  any-keep (i ∷ bs) h = ground (arith, h.0, any-keep bs h.1)

module _ {D : Type 0} ⦃fl : Double D⦄ (env : Env D) (src id b : ℕ) where
  broadcast_timer-Frugal :
      (s : Agent D)
      → IsRecent env src id s.bihead
      → Within (request_watch src id) b s
      → Frugal (request_watch src id) b (broadcast_timer env s)
  unfolding broadcast_timer id_purge
  broadcast_timer-Frugal s r w = done-Frugal (record {
    foreign = w.foreign;
    within = rw (any-keep env src id s.bihead r) (let l = w.within in omega arith);
  })

module _ {D : Type 0} ⦃fl : Double D⦄ (src id : ℕ) where
  -- The states that the agent comes to from `s` while no record of the request times out, where only
  -- packets of this protocol carry a copy of it.
  pub data Follows (s : Agent D) : Agent D → Type 0 where
    here : Follows s s
    on :
        {s1 s2 : Agent D} (env : Env D) (ev : Event D)
        → Follows s s1
        → IsFair src id ev
        → IsClean env src id
        → IsRecent env src id s1.bihead
        → handle env ev s1 ≡ done (tt, s2)
        → Follows s s2

  free-event : (ev : Event D) → IsFair src id ev → price (request_watch src id) ev ≡ 0
  free-event (received p) f = go (is_teaomdv p.ptype) f
    where
      go :
          (x : Bool)
          → (x ≡ false → IsPlain src id p)
          → (if x then 0 else weight (request_watch src id) p) ≡ 0
      go true f = refl
      go false f = rw (f refl) refl
  free-event (link_failed p) f = refl
  free-event started f = refl
  free-event (overheard p) f = refl
  free-event broadcast_expired f = refl
  free-event hello_expired f = refl
  free-event neighbor_expired f = refl
  free-event cache_expired f = refl
  free-event probe_expired f = refl
  free-event trust_expired f = refl
  free-event (repair_expired p) f = refl

  clean-All :
      (env : Env D) (ps : List (Packet D))
      → All (λ q. env.is_data q.ptype ≡ true → IsPlain src id q) ps
      → All (IsFree env (request_watch src id)) ps
  clean-All env [] h = tt
  clean-All env (p ∷ ps) h = ((h.0, (λ _. refl)), clean-All env ps h.1)

  Follows-Within :
      (b : ℕ) (s s' : Agent D)
      → Within (request_watch src id) b s
      → Follows s s'
      → Within (request_watch src id) b s'
  Follows-Within b s s' w here = w
  Follows-Within b s s' w (on {s1 = s1} env ev r f h n e) =
      let w1 = Follows-Within b s s1 w r in
      (Ends-done tt s'
        (handle-Frugal env (request_watch src id) b b ev s1
          (λ p rq s t v. recv_request-Frugal env src id b p rq s t v)
          (λ a. clean-All env (env.ifq_filter a) (h a))
          (broadcast_timer-Frugal env src id b s1 n w1) (rw (free-event ev f) (omega arith)) w1)
        e).0

  count-plain :
      (ps : List (Packet D)) → All (IsPlain src id) ps → count (λ p. is_copy src id p.header) ps ≡ 0
  count-plain [] h = refl
  count-plain (p ∷ ps) h = rw (h.0) (let e = count-plain ps h.1 in omega arith)

  -- A request of another node, of which no waiting packet carries a copy, is passed on at most once
  -- while its record lasts, whatever else happens: in every state that the agent comes to by the events of
  -- `Run` before a record of the request times out, the agent has scheduled at most one copy of it
  -- more than at first, and none more if the request was known. The packets that are not of this
  -- protocol carry no copy, those received as well as the data of the interface queue.
  pub requests_once :
      (s s' : Agent D)
      → s.index ≢ src
      → All (IsPlain src id) s.rqueue.items
      → Follows s s'
      → copies src id s'.effects ≤ copies src id s.effects + (if id_lookup src id s then 0 else 1)
  unfolding id_lookup
  requests_once s s' h k r =
      let none_wait = count-plain s.rqueue.items k in
      let w =
        (Follows-Within (copies src id s.effects + allowance src id s.bihead) s s'
          (record { foreign = ground (arith, h); within = omega arith }) r).within in
      omega arith

-- ===== src/Agent/Invariant/Run.antt =====
-- Every state that an agent comes to is valid, and no loop of an event handler runs out of fuel.
use ns2_te_aomdv.Base.{
  ◌∙◌, ℕ, ◌+◌, ◌≡◌, refl, subst, ◌≢◌, not, Option, none, some, ◌∷◌, arith, Double, ◌≼◌, Outcome,
  done, crash, no_fuel,
}
use ns2_te_aomdv.Packet.{Packet}
use ns2_te_aomdv.Entry.{Entry, is_up}
use ns2_te_aomdv.Table.{rt_lookup, rt_has_active_route}
use ns2_te_aomdv.Queue.{new_queue}
use ns2_te_aomdv.Agent.State.{Env, Agent, when, assert, set_entry, new_agent}
use ns2_te_aomdv.Agent.Ids.{id_purge}
use ns2_te_aomdv.Agent.Send.{send_hello, send_prob}
use ns2_te_aomdv.Agent.Routes.{rt_down}
use ns2_te_aomdv.Agent.Repair.{rt_ll_failed}
use ns2_te_aomdv.Agent.Resolve.{rt_purge}
use ns2_te_aomdv.Agent.Timers.{
  start, broadcast_timer, hello_timer, neighbor_timer, route_cache_timer, probe_timer,
  local_repair_timer, repair_failed, nb_purge,
}
use ns2_te_aomdv.Agent.Run.{
  Event, handle, Reaches, fresh, next, started, received, overheard, broadcast_expired,
  hello_expired, neighbor_expired, cache_expired, probe_expired, trust_expired, repair_expired,
  link_failed,
}
use ns2_te_aomdv.Agent.Invariant.{IsValid, Post, returns, stops, then-Post}
use ns2_te_aomdv.Agent.Invariant.Entries.{rt_down-IsGood, rt_down-dst}
use ns2_te_aomdv.Agent.Invariant.Reception.{recv-Post}
use ns2_te_aomdv.Agent.Invariant.Expiry.{rt_purge-Post}
use ns2_te_aomdv.Agent.Invariant.Timers.{nb_purge-Post}
use ns2_te_aomdv.Agent.Invariant.Rules.{Valid, when-Post, assert-Valid, set_entry-IsValid}
use ns2_te_aomdv.Agent.Invariant.Trust.{tap-Post, trust_timer-Post}

module _ {D : Type 0} ⦃fl : Double D⦄ where
  new_agent-IsValid : (id : ℕ) → IsValid {D = D} (new_agent id)
  unfolding new_agent new_queue
  new_agent-IsValid id = record {
    good = record { entries = tt; unique = tt; sound = tt; once = tt; limit = refl };
    bounded = record { counted = refl; within = omega arith; positive = omega arith };
  }

module _ {D : Type 0} ⦃fl : Double D⦄ (env : Env D) where
  send_hello-Post : (s : Agent D) → IsValid s → Post Valid (send_hello env s)
  unfolding send_hello
  send_hello-Post s v = returns (record { good = v.good; bounded = v.bounded })

  hello_timer-Post : (s : Agent D) → IsValid s → Post Valid (hello_timer env s)
  unfolding hello_timer
  hello_timer-Post s v =
      then-Post (when (rt_has_active_route s.rtable) (send_hello env)) _ s
        (when-Post _ (send_hello env) s v (send_hello-Post s v))
        λ _ s1 v1.
          then-Post (assert (fl.lit 0 1 ≼ _)) _ (record s1 { draws = s1.draws + 1 })
            (assert-Valid _ _ (record { good = v1.good; bounded = v1.bounded }))
            λ _ s2 v2. returns (record { good = v2.good; bounded = v2.bounded })

  broadcast_timer-Post : (s : Agent D) → IsValid s → Post Valid (broadcast_timer env s)
  unfolding broadcast_timer id_purge
  broadcast_timer-Post s v = returns (record { good = v.good; bounded = v.bounded })

  probe_timer-Post : (s : Agent D) → IsValid s → Post Valid (probe_timer env s)
  unfolding probe_timer send_prob
  probe_timer-Post s v = returns (record { good = v.good; bounded = v.bounded })

  neighbor_timer-Post : (s : Agent D) → IsValid s → Post Valid (neighbor_timer env s)
  unfolding neighbor_timer
  neighbor_timer-Post s v =
      then-Post (nb_purge env) _ s (nb_purge-Post env s v)
        λ _ s1 v1. returns (record { good = v1.good; bounded = v1.bounded })

  route_cache_timer-Post : (s : Agent D) → IsValid s → Post Valid (route_cache_timer env s)
  unfolding route_cache_timer
  route_cache_timer-Post s v =
      then-Post (rt_purge env) _ s (rt_purge-Post env s v)
        λ _ s1 v1. returns (record { good = v1.good; bounded = v1.bounded })

  repair_failed-Post :
      (dst : ℕ) (o : Option (Entry D)) (s : Agent D)
      → IsValid s
      → Post Valid (repair_failed env dst o s)
  unfolding repair_failed
  repair_failed-Post dst none s v = returns v
  repair_failed-Post dst (some e) s v =
      when-Post (not (is_up e.flags)) (set_entry dst (rt_down env)) s v (
        returns (
          set_entry-IsValid dst (rt_down env) s
            (λ e g. rt_down-IsGood env e g.counted g.disjoint g.few) (λ e d. rt_down-dst env e ∙ d)
            v))

  local_repair_timer-Post :
      (p : Packet D) (s : Agent D) → IsValid s → Post Valid (local_repair_timer env p s)
  unfolding local_repair_timer
  local_repair_timer-Post p s v =
      then-Post (repair_failed env p.daddr (rt_lookup s.rtable p.daddr)) _ s
        (repair_failed-Post p.daddr _ s v)
        λ _ s1 v1. returns (record { good = v1.good; bounded = v1.bounded })

  pub start-Post : (s : Agent D) → IsValid s → Post Valid (start env s)
  unfolding start
  start-Post s v = then-Post (broadcast_timer env) _ s (broadcast_timer-Post s v) λ _ s1 v1.
      then-Post (hello_timer env) _ s1 (hello_timer-Post s1 v1) λ _ s2 v2.
        then-Post (neighbor_timer env) _ s2 (neighbor_timer-Post s2 v2) λ _ s3 v3.
          then-Post (probe_timer env) _ (record s3 { effects = _ ∷ s3.effects })
            (probe_timer-Post _ (record { good = v3.good; bounded = v3.bounded }))
            λ _ s4 v4. route_cache_timer-Post s4 v4

  rt_ll_failed-Post : (p : Packet D) (s : Agent D) → IsValid s → Post Valid (rt_ll_failed p s)
  unfolding rt_ll_failed
  rt_ll_failed-Post p s v = returns (record { good = v.good; bounded = v.bounded })

  handle-Post : (ev : Event D) (s : Agent D) → IsValid s → Post Valid (handle env ev s)
  unfolding handle
  handle-Post started s v = start-Post s v
  handle-Post (received p) s v = recv-Post env p s v
  handle-Post (overheard p) s v = tap-Post p s v
  handle-Post broadcast_expired s v = broadcast_timer-Post s v
  handle-Post hello_expired s v = hello_timer-Post s v
  handle-Post neighbor_expired s v = neighbor_timer-Post s v
  handle-Post cache_expired s v = route_cache_timer-Post s v
  handle-Post probe_expired s v = probe_timer-Post s v
  handle-Post trust_expired s v = trust_timer-Post env s v
  handle-Post (repair_expired p) s v = local_repair_timer-Post p s v
  handle-Post (link_failed p) s v = rt_ll_failed-Post p s v

module _ {D A : Type 0} {P : A → Agent D → Type 0} where
  Post-done : {o : Outcome (A × Agent D)} (a : A) (s : Agent D) → Post P o → o ≡ done (a, s) → P a s
  Post-done a s (returns {a = b} {s = s'} h) e =
      let same_a : b ≡ a = cc in
      let same_s : s' ≡ s = cc in subst (λ x. P x s) same_a (subst (P b) same_s h)
  Post-done a s (stops n) e = cc

  Post-fuel : {o : Outcome (A × Agent D)} → Post P o → o ≢ crash no_fuel
  Post-fuel (returns h) e = cc
  Post-fuel (stops {e = f} n) e = n cc

module _ {D : Type 0} ⦃fl : Double D⦄ where
  Reaches-IsValid : (id : ℕ) (s : Agent D) → Reaches id s → IsValid s
  Reaches-IsValid id s fresh = new_agent-IsValid id
  Reaches-IsValid id s (next {s = s0} env ev r e) =
      Post-done tt s (handle-Post env ev s0 (Reaches-IsValid id s0 r)) e

  -- In every state that an agent comes to from its construction, by whatever events of `Run`, what it
  -- stores is valid. No destination stands twice in the routing table; every entry counts its paths
  -- right, its paths share no next hop and no last hop, they are at most three, and there is one if the
  -- entry is up. No neighbour stands twice, none has more correct packets than packets, and the records
  -- of its packets stay within their arrays. The length of the queue is right and at most its limit. And
  -- whatever event comes next, its handler ends: it returns, or stops at an assertion or a bad pointer
  -- of the code, but no loop of it runs out of fuel.
  pub reaches_lem :
      (id : ℕ) (s : Agent D) (env : Env D) (ev : Event D)
      → Reaches id s
      → IsValid s × (handle env ev s ≢ crash no_fuel)
  reaches_lem id s env ev r =
      let v = Reaches-IsValid id s r in (v, Post-fuel (handle-Post env ev s v))

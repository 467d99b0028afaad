-- ===== src/Agent/Invariant/Timers.antt =====
-- The loss of a neighbour and the handlers of the timers keep the agent valid.
use ns2_te_aomdv.Base.{
  All-remove_first, remove_first-IsDistinct, ℕ, ◌+◌, not, Option, none, some, List, [], ◌∷◌, map,
  remove_first, Double, ◌≼◌,
}
use ns2_te_aomdv.Packet.{Packet, u32}
use ns2_te_aomdv.Table.{rt_lookup}
use ns2_te_aomdv.Queue.{hello_loss}
use ns2_te_aomdv.Neighbor.{Neighbor}
use ns2_te_aomdv.Neighbor.Evidence.{IsSound}
use ns2_te_aomdv.Agent.State.{Env, Agent, emit, dropped, assert, nb_lookup, has_addr}
use ns2_te_aomdv.Agent.Routes.{is_even, handle_link_failure}
use ns2_te_aomdv.Agent.Forward.{forward, no_delay}
use ns2_te_aomdv.Agent.Timers.{
  can_salvage, salvage, salvage_all, nb_delete, purge_nb, purge_nbs, nb_purge,
}
use ns2_te_aomdv.Agent.Invariant.{IsValid, addr_of, Post, returns, then-Post, weaken-Post}
use ns2_te_aomdv.Agent.Invariant.Forward.{forward-Post}
use ns2_te_aomdv.Agent.Invariant.RouteError.{handle_link_failure-Post}
use ns2_te_aomdv.Agent.Invariant.Waiting.{valid-Keeps}
use ns2_te_aomdv.Agent.Invariant.Rules.{Valid, stay, if-Post, when-Post, assert-Valid}

module _ {D : Type 0} ⦃fl : Double D⦄ (env : Env D) where
  salvage-Post : (p : Packet D) (s : Agent D) → IsValid s → Post Valid (salvage env p s)
  unfolding salvage
  salvage-Post p s v =
      if-Post Valid (not (env.is_data p.ptype)) (emit (dropped p hello_loss)) _ s
        (returns (record { good = v.good; bounded = v.bounded }))
        (if-Post Valid (can_salvage env p (rt_lookup s.rtable p.daddr)) (forward env _ _ _)
          (emit (dropped p hello_loss)) s
          (stay s v (forward-Post env s.rqueue (some p.daddr) _ no_delay s (valid-Keeps s v)))
          (returns (record { good = v.good; bounded = v.bounded })))

  salvage_all-Post :
      (ps : List (Packet D)) (s : Agent D) → IsValid s → Post Valid (salvage_all env ps s)
  unfolding salvage_all
  salvage_all-Post [] s v = returns v
  salvage_all-Post (p ∷ ps) s v =
      then-Post (salvage env p) _ s (salvage-Post p s v) λ _ s1 v1. salvage_all-Post ps s1 v1

  nb_delete-Post : (id : ℕ) (s : Agent D) → IsValid s → Post Valid (nb_delete env id s)
  unfolding nb_delete
  nb_delete-Post id s v =
      then-Post (assert (is_even (u32 (s.seqno + 2)))) _ (record s { seqno = u32 (s.seqno + 2) })
        (assert-Valid _ _ (record { good = v.good; bounded = v.bounded }))
        λ _ s1 v1.
          let s2 : Agent D = record s1 { nbhead = remove_first (has_addr id) s1.nbhead } in
          let v2 : IsValid s2 = record {
            good = record {
              entries = v1.good.entries;
              unique = v1.good.unique;
              sound = All-remove_first IsSound (has_addr id) s1.nbhead v1.good.sound;
              once = remove_first-IsDistinct addr_of id s1.nbhead v1.good.once;
              limit = v1.good.limit;
            };
            bounded = v1.bounded;
          } in
          then-Post (handle_link_failure env id) _ s2
            (stay s2 v2 (
              weaken-Post (λ _ _ h. h.0)
                (handle_link_failure-Post env s2.rqueue id s2 (valid-Keeps s2 v2))))
            λ _ s3 v3. salvage_all-Post (env.ifq_filter id) s3 v3

  purge_nb-Post :
      (id : ℕ) (o : Option (Neighbor D)) (s : Agent D)
      → IsValid s
      → Post Valid (purge_nb env id o s)
  unfolding purge_nb
  purge_nb-Post id none s v = returns v
  purge_nb-Post id (some nb) s v =
      when-Post (nb.expire ≼ env.now) (nb_delete env id) s v (nb_delete-Post id s v)

  purge_nbs-Post : (ids : List ℕ) (s : Agent D) → IsValid s → Post Valid (purge_nbs env ids s)
  unfolding purge_nbs
  purge_nbs-Post [] s v = returns v
  purge_nbs-Post (id ∷ ids) s v =
      then-Post (purge_nb env id (nb_lookup id s)) _ s (purge_nb-Post id (nb_lookup id s) s v)
        λ _ s1 v1. purge_nbs-Post ids s1 v1

  -- `nb_purge`, which deletes the neighbours that have expired and salvages their packets, keeps the
  -- agent valid.
  pub nb_purge-Post : (s : Agent D) → IsValid s → Post Valid (nb_purge env s)
  unfolding nb_purge
  nb_purge-Post s v = purge_nbs-Post (map (λ nb. nb.addr) s.nbhead) s v

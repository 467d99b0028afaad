-- ===== src/Agent/Invariant/Trust.antt =====
-- `tap` and the trust timer keep the agent valid.
use ns2_te_aomdv.Base.{
  ap, map, All, false, SameKeys, SameKeys-IsDistinct, ℕ, ◌≡◌, refl, not, ◌&&◌, List, [], ◌∷◌,
  length, ◌==◌, Double,
}
use ns2_te_aomdv.Packet.{Packet, Recommen, max_nb, ip_broadcast}
use ns2_te_aomdv.Agent.Forward.{is_cbr, is_teaomdv}
use ns2_te_aomdv.Neighbor.{Neighbor, tv_init, set_direct_trust}
use ns2_te_aomdv.Neighbor.Rating.{
  set_tv, set_recommen_trust, set_delivery_ratio, set_activity_degree,
}
use ns2_te_aomdv.Neighbor.Evidence.{IsSound, neighbor-IsSound}
use ns2_te_aomdv.Agent.State.{Env, Agent, pure, skip, when, set_neighbor}
use ns2_te_aomdv.Agent.Send.{send_rcom}
use ns2_te_aomdv.Agent.Trust.{
  tap, mark_data, mark_control, set_trust, refresh_all, flush_full, add_nb, empty_rcom, refreshed,
}
use ns2_te_aomdv.Agent.Timers.{trust_timer}
use ns2_te_aomdv.Agent.Invariant.{IsValid, addr_of, Post, returns, then-Post}
use ns2_te_aomdv.Agent.Invariant.Rules.{Valid, if-Post, when-Post, set_neighbor-IsValid}

module _ {D : Type 0} ⦃fl : Double D⦄ where
  pub tap-Post : (p : Packet D) (s : Agent D) → IsValid s → Post Valid (tap p s)
  unfolding tap
  tap-Post p s v =
      if-Post Valid (is_cbr p.ptype) _ _ s
        (when-Post (s.index == p.pprev_hop) (set_neighbor p.prev_hop (mark_data p.uid)) s v (
          returns (
            set_neighbor-IsValid p.prev_hop (mark_data p.uid) s
              (λ nb h. (neighbor-IsSound (fl.lit 0 1) p.uid false nb h).3) (λ _ d. d) v)))
        (if-Post Valid (is_teaomdv p.ptype && not (p.daddr == ip_broadcast)) _ skip s
          (when-Post (s.index == p.pprev_hop) (set_neighbor p.prev_hop (mark_control p.uid)) s v (
            returns (
              set_neighbor-IsValid p.prev_hop (mark_control p.uid) s
                (λ nb h. (neighbor-IsSound (fl.lit 0 1) p.uid false nb h).4) (λ _ d. d) v)))
          (returns v))

module _ {D : Type 0} ⦃fl : Double D⦄ (env : Env D) where
  send_rcom-Post : (rc : Recommen D) (s : Agent D) → IsValid s → Post Valid (send_rcom env rc s)
  unfolding send_rcom
  send_rcom-Post rc s v = returns (record { good = v.good; bounded = v.bounded })

  flush_full-Post : (rc : Recommen D) (s : Agent D) → IsValid s → Post Valid (flush_full env rc s)
  unfolding flush_full
  flush_full-Post rc s v =
      if-Post Valid (length rc.nbs == max_nb) _ (pure rc) s
        (then-Post (send_rcom env rc) _ s (send_rcom-Post rc s v) λ _ s1 v1. returns v1) (returns v)

  refresh_all-Post :
      (nbs : List (Neighbor D)) (rc : Recommen D) (s : Agent D)
      → IsValid s
      → Post (λ nbs' s'. IsValid s' × (nbs' ≡ map (refreshed env) nbs)) (refresh_all env nbs rc s)
  unfolding refresh_all
  refresh_all-Post [] rc s v =
      then-Post (when (not (length rc.nbs == 0)) (send_rcom env rc)) _ s
        (when-Post _ (send_rcom env rc) s v (send_rcom-Post rc s v)) λ _ s1 v1. returns (v1, refl)
  refresh_all-Post (nb ∷ nbs) rc s v =
      then-Post (flush_full env (add_nb env (refreshed env nb) rc)) _ s
        (flush_full-Post (add_nb env (refreshed env nb) rc) s v)
        λ rc' s1 v1.
          then-Post (refresh_all env nbs rc') _ s1 (refresh_all-Post nbs rc' s1 v1)
            λ nbs' s2 h2. returns (h2.0, ap (λ l. refreshed env nb ∷ l) h2.1)

  refreshed-IsSound :
      (nbs : List (Neighbor D)) → All IsSound nbs → All IsSound (map (refreshed env) nbs)
  refreshed-IsSound [] h = tt
  refreshed-IsSound (nb ∷ nbs) h =
      ((neighbor-IsSound env.now 0 false nb h.0).0, refreshed-IsSound nbs h.1)

  refreshed-SameKeys : (nbs : List (Neighbor D)) → SameKeys addr_of nbs (map (refreshed env) nbs)
  unfolding tv_init set_tv set_direct_trust set_recommen_trust set_delivery_ratio
      set_activity_degree
  refreshed-SameKeys [] = refl
  refreshed-SameKeys (nb ∷ nbs) = ap (λ (l : List ℕ). nb.addr ∷ l) (refreshed-SameKeys nbs)

  set_trust-Post : (s : Agent D) → IsValid s → Post Valid (set_trust env s)
  unfolding set_trust
  set_trust-Post s v =
      then-Post (refresh_all env s.nbhead (empty_rcom env)) _ s
        (refresh_all-Post s.nbhead (empty_rcom env) s v)
        λ nbs s1 h1. returns (record {
          good = record {
            entries = h1.0.good.entries;
            unique = h1.0.good.unique;
            sound = rw (h1.1) (refreshed-IsSound s.nbhead v.good.sound);
            once =
                rw (h1.1) (
                  SameKeys-IsDistinct addr_of s.nbhead _ (refreshed-SameKeys s.nbhead) v.good.once);
            limit = h1.0.good.limit;
          };
          bounded = h1.0.bounded;
        })

  pub trust_timer-Post : (s : Agent D) → IsValid s → Post Valid (trust_timer env s)
  unfolding trust_timer
  trust_timer-Post s v =
      then-Post (set_trust env) _ s (set_trust-Post s v)
        λ _ s1 v1. returns (record { good = v1.good; bounded = v1.bounded })

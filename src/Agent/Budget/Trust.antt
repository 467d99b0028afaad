-- ===== src/Agent/Budget/Trust.antt =====
-- `tap` and the trust timer pass on no request.
use ns2_te_aomdv.Base.{ℕ, List, [], ◌∷◌, length, ◌==◌, not, ◌&&◌, Double}
use ns2_te_aomdv.Packet.{Packet, Recommen, max_nb, ip_broadcast}
use ns2_te_aomdv.Neighbor.{Neighbor}
use ns2_te_aomdv.Agent.State.{Env, Agent, set_neighbor}
use ns2_te_aomdv.Agent.Forward.{is_cbr, is_teaomdv}
use ns2_te_aomdv.Agent.Send.{send_rcom}
use ns2_te_aomdv.Agent.Trust.{
  tap, mark_data, mark_control, set_trust, refresh_all, flush_full, add_nb, empty_rcom, refreshed,
}
use ns2_te_aomdv.Agent.Timers.{trust_timer}
use ns2_te_aomdv.Agent.Budget.{
  Watch, Within, Frugal, returns, then-Stays, done-Frugal, if-Stays, when-Frugal, emit-Frugal,
}
use ns2_te_aomdv.Agent.Budget.Forward.{send_rcom-Frugal}

module _ {D : Type 0} ⦃fl : Double D⦄ (env : Env D) (w : Watch D) (b : ℕ) where
  pub tap-Frugal : (p : Packet D) (s : Agent D) → Within w b s → Frugal w b (tap p s)
  unfolding tap
  tap-Frugal p s v =
      if-Stays (is_cbr p.ptype) _ _ s
        (when-Frugal (s.index == p.pprev_hop) (set_neighbor p.prev_hop (mark_data p.uid)) s v
          (done-Frugal v))
        (if-Stays (is_teaomdv p.ptype && not (p.daddr == ip_broadcast)) _ _ s
          (when-Frugal (s.index == p.pprev_hop) (set_neighbor p.prev_hop (mark_control p.uid)) s v
            (done-Frugal v))
          (done-Frugal v))

  flush_full-Frugal :
      (rc : Recommen D) (s : Agent D) → Within w b s → Frugal w b (flush_full env rc s)
  unfolding flush_full
  flush_full-Frugal rc s v =
      if-Stays (length rc.nbs == max_nb) _ _ s
        (then-Stays (send_rcom-Frugal env w b rc s v) λ _ s1 v1 _. returns (v1, tt))
        (returns (v, tt))

  refresh_all-Frugal :
      (nbs : List (Neighbor D)) (rc : Recommen D) (s : Agent D)
      → Within w b s
      → Frugal w b (refresh_all env nbs rc s)
  unfolding refresh_all
  refresh_all-Frugal [] rc s v =
      then-Stays
        (when-Frugal (not (length rc.nbs == 0)) (send_rcom env rc) s v
          (send_rcom-Frugal env w b rc s v))
        λ _ s1 v1 _. returns (v1, tt)
  refresh_all-Frugal (nb ∷ nbs) rc s v =
      then-Stays (flush_full-Frugal (add_nb env (refreshed env nb) rc) s v) λ rc' s1 v1 _.
        then-Stays (refresh_all-Frugal nbs rc' s1 v1) λ nbs' s2 v2 _. returns (v2, tt)

  set_trust-Frugal : (s : Agent D) → Within w b s → Frugal w b (set_trust env s)
  unfolding set_trust
  set_trust-Frugal s v =
      then-Stays (refresh_all-Frugal s.nbhead (empty_rcom env) s v) λ nbs s1 v1 _. done-Frugal v1

  pub trust_timer-Frugal : (s : Agent D) → Within w b s → Frugal w b (trust_timer env s)
  unfolding trust_timer
  trust_timer-Frugal s v =
      then-Stays (set_trust-Frugal s v) λ _ s1 v1 _. emit-Frugal v1 (w.timed _ _)

-- ===== src/Agent/Trust.antt =====
-- teaomdv/teaomdv.cc: `tap`, which overhears whether a neighbour passes packets on, and `set_trust`,
-- which computes the trust in every neighbour and recommends them.
pub mod Batches
use ns2_te_aomdv.Base.{
  ℕ, ◌+◌, ◌&&◌, List, [], ◌∷◌, ◌++◌, length, ◌==◌, if◌then◌else◌, not, Double, ◌≺◌,
}
use ns2_te_aomdv.Packet.{Packet, Recommen, max_nb, ip_broadcast}
use ns2_te_aomdv.Neighbor.{Neighbor, tv_init}
use ns2_te_aomdv.Neighbor.Rating.{set_tv, mark}
use ns2_te_aomdv.Agent.State.{M, Env, pure, ◌>>=◌, ◌>>◌, skip, get, modify, when, set_neighbor}
use ns2_te_aomdv.Agent.Send.{send_rcom}
use ns2_te_aomdv.Agent.Forward.{is_cbr, is_teaomdv}

module _ {D : Type 0} where
  abbrev pub mark_data : ℕ → Neighbor D → Neighbor D
  mark_data uid nb = record nb { cbr_f = mark uid nb.cbr_f }

  abbrev pub mark_control : ℕ → Neighbor D → Neighbor D
  mark_control uid nb = record nb { ptteaomdv_f = mark uid nb.ptteaomdv_f }

  -- The packet comes from `prev_hop`, which had it from me.
  unfoldable pub tap : Packet D → M D (Unit {0})
  tap p = do
    s ← get
    if is_cbr p.ptype
        then when (s.index == p.pprev_hop) (set_neighbor p.prev_hop (mark_data p.uid))
        else if is_teaomdv p.ptype && not (p.daddr == ip_broadcast)
        then when (s.index == p.pprev_hop) (set_neighbor p.prev_hop (mark_control p.uid))
        else skip

module _ {D : Type 0} ⦃fl : Double D⦄ (env : Env D) where
  -- A neighbour with its trust computed, and its evidence for the next round.
  abbrev pub refreshed : Neighbor D → Neighbor D
  refreshed nb = tv_init env.now (set_tv env.now nb)

  abbrev pub empty_rcom : Recommen D
  empty_rcom = record { nbs = []; it_num = 0 }

  -- One more neighbour in the recommendation.
  pub add_nb : Neighbor D → Recommen D → Recommen D
  add_nb nb rc = record {
    nbs = rc.nbs ++ ((nb.addr, nb.direct_trust) ∷ []);
    it_num = if fl.lit 5 10 ≺ nb.delivery_ratio then rc.it_num + 1 else rc.it_num;
  }

  -- A full recommendation goes out, and a new one begins.
  unfoldable pub flush_full : Recommen D → M D (Recommen D)
  flush_full rc =
      if length rc.nbs == max_nb then (do send_rcom env rc; pure empty_rcom) else pure rc

  -- The loop of `set_trust`: the neighbours as they are after it.
  unfoldable pub refresh_all : List (Neighbor D) → Recommen D → M D (List (Neighbor D))
  refresh_all [] rc = do when (not (length rc.nbs == 0)) (send_rcom env rc); pure []
  refresh_all (nb ∷ nbs) rc = do
    let nb' = refreshed nb
    rc' ← flush_full (add_nb nb' rc)
    nbs' ← refresh_all nbs rc'
    pure (nb' ∷ nbs')

  unfoldable pub set_trust : M D (Unit {0})
  set_trust = do
    s ← get
    nbs ← refresh_all s.nbhead empty_rcom
    modify λ s. record s { nbhead = nbs }

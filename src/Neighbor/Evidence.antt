-- ===== src/Neighbor/Evidence.antt =====
-- The evidence is neither lost nor counted twice, and the arrays stay within their bounds.
use mathlib.Core.List.{append_assoc, append-nil}
use ns2_te_aomdv.Base.{
  ℕ, ◌+◌, ◌≤◌, ◌≡◌, sym, ap, Bool, not, ◌&&◌, List, [], ◌∷◌, ◌++◌, length, length-append,
  length-update_first, keep, arith, Double,
}
use ns2_te_aomdv.Neighbor.{
  Neighbor, Node1, Tally, settle, tally_step, is_late, set_direct_trust, tv_init,
}
use ns2_te_aomdv.Neighbor.Rating.{
  set_recommen_trust, set_delivery_ratio, set_activity_degree, set_tv, mark, count_data,
  count_control, has_uid, heard, sent,
}

module _ {D : Type 0} where
  -- No more correct packets than packets, and no array beyond its bound.
  pub record IsSound (nb : Neighbor D) : Type 0 where
    pub data_le : nb.data_forward_corrects ≤ nb.data_forward_alls
    pub control_le : nb.control_forward_corrects ≤ nb.control_forward_alls
    pub cbr_bound : length nb.cbr_f ≤ 1000
    pub ptteaomdv_bound : length nb.ptteaomdv_f ≤ 100

module _ {D : Type 0} ⦃fl : Double D⦄ where
  -- Neither heard nor late.
  abbrev pub is_pending : D → Node1 D → Bool
  is_pending now f = not f.ok && not (is_late now f)

  abbrev pub is_heard : Node1 D → Bool
  is_heard f = f.ok

  settle_lem :
      (now : D) (t : Tally D) (fs : List (Node1 D))
      → let s = settle now t fs in
        (s.corrects ≡ t.corrects + length (keep is_heard fs))
        × (s.alls + length (keep (is_pending now) fs) ≡ t.alls + length fs)
        × (s.pending ≡ t.pending ++ keep (is_pending now) fs)
  unfolding settle
  settle_lem now t [] = (omega arith, omega arith, sym (append-nil t.pending))
  settle_lem now t (f ∷ fs) = ground (
    arith,
    settle_lem now (tally_step now t f) fs,
    append_assoc t.pending (f ∷ []) (keep (is_pending now) fs),
  )

  -- Each kind of packet is settled alike: every record that was heard adds one to the correct ones,
  -- every record that was heard or is late adds one to all, and just the others stay, in their order.
  pub set_direct_trust_lem :
      (now : D) (nb : Neighbor D)
      → let nb' = set_direct_trust now nb in
        (nb'.data_forward_corrects ≡ nb.data_forward_corrects + length (keep is_heard nb.cbr_f))
        × (nb'.data_forward_alls + length nb'.cbr_f ≡ nb.data_forward_alls + length nb.cbr_f)
        × (nb'.cbr_f ≡ keep (is_pending now) nb.cbr_f)
        × (nb'.control_forward_corrects
            ≡ nb.control_forward_corrects + length (keep is_heard nb.ptteaomdv_f))
        × (nb'.control_forward_alls + length nb'.ptteaomdv_f
            ≡ nb.control_forward_alls + length nb.ptteaomdv_f)
        × (nb'.ptteaomdv_f ≡ keep (is_pending now) nb.ptteaomdv_f)
  unfolding set_direct_trust
  set_direct_trust_lem now nb = ground (
    arith,
    settle_lem now
        (record { corrects = nb.data_forward_corrects; alls = nb.data_forward_alls; pending = [] })
        nb.cbr_f,
    settle_lem now
        (record {
          corrects = nb.control_forward_corrects;
          alls = nb.control_forward_alls;
          pending = [];
        })
        nb.ptteaomdv_f,
  )

  heard_pending_le :
      (now : D) (fs : List (Node1 D))
      → length (keep is_heard fs) + length (keep (is_pending now) fs) ≤ length fs
  heard_pending_le now [] = omega arith
  heard_pending_le now (f ∷ fs) = ground (arith, heard_pending_le now fs)

  set_direct_trust-IsSound :
      (now : D) (nb : Neighbor D) → IsSound nb → IsSound (set_direct_trust now nb)
  set_direct_trust-IsSound now nb s = ground (
    arith,
    set_direct_trust_lem now nb,
    heard_pending_le now nb.cbr_f,
    heard_pending_le now nb.ptteaomdv_f,
    ap length (set_direct_trust_lem now nb).2,
    ap length (set_direct_trust_lem now nb).5,
  )

  set_tv-IsSound : (now : D) (nb : Neighbor D) → IsSound nb → IsSound (set_tv now nb)
  unfolding set_tv set_recommen_trust set_delivery_ratio set_activity_degree
  set_tv-IsSound now nb s = let s' = set_direct_trust-IsSound now nb s in ground (arith, s')

  tv_init-IsSound : (now : D) (nb : Neighbor D) → IsSound nb → IsSound (tv_init now nb)
  unfolding tv_init
  tv_init-IsSound now nb s = ground arith

  -- A neighbour's counters never show more correct packets than packets, and the two arrays never
  -- grow beyond their 1000 and 100 places: in a round of the trust timer, when a packet is counted,
  -- and when one is heard.
  pub neighbor-IsSound :
      (now : D) (uid : ℕ) (last : Bool) (nb : Neighbor D)
      → IsSound nb
      → IsSound (tv_init now (set_tv now nb))
        × IsSound (count_data now uid last nb)
        × IsSound (count_control now uid last nb)
        × IsSound (record nb { cbr_f = mark uid nb.cbr_f })
        × IsSound (record nb { ptteaomdv_f = mark uid nb.ptteaomdv_f })
  unfolding count_data count_control mark
  neighbor-IsSound now uid last nb s = (
    tv_init-IsSound now _ (set_tv-IsSound now nb s),
    ground (arith, length-append nb.cbr_f (sent now uid ∷ [])),
    ground (arith, length-append nb.ptteaomdv_f (sent now uid ∷ [])),
    ground (arith, length-update_first (has_uid uid) heard nb.cbr_f),
    ground (arith, length-update_first (has_uid uid) heard nb.ptteaomdv_f),
  )

-- ===== src/Neighbor/Rating.antt =====
-- teaomdv/teaomdv_rtable.cc and teaomdv.cc: the ratings that make up the trust of a neighbour, and the counting of what it should pass on.
use ns2_te_aomdv.Base.{
  ℕ, ◌+◌, Bool, true, false, List, [], ◌∷◌, ◌++◌, length, update_first, ltb, ◌==◌, if◌then◌else◌,
  Double, ◌⊕◌, ◌⊖◌, ◌⊗◌, ◌⊘◌, ◌≺◌, ◌≼◌,
}
use ns2_te_aomdv.Neighbor.{Node1, Neighbor, of_int, a_constant, prob_t, set_direct_trust}

module _ {D : Type 0} ⦃fl : Double D⦄ where
  unfoldable pub set_recommen_trust : Neighbor D → Neighbor D
  set_recommen_trust nb = record nb {
    recommen_trust = if fl.lit 1 10 ≼ fl.fabs nb.fenmu then nb.fenzi ⊘ nb.fenmu else fl.lit 8 10;
  }

  unfoldable pub set_delivery_ratio : D → Neighbor D → Neighbor D
  set_delivery_ratio now nb = record nb {
    delivery_ratio =
        if fl.lit 15 10 ≺ (now ⊖ nb.prob_stime)
        then nb.prob_recvs ⊘ ((now ⊖ nb.prob_stime) ⊘ prob_t)
        else fl.lit 8 10;
  }

  unfoldable pub set_activity_degree : Neighbor D → Neighbor D
  set_activity_degree nb = record nb {
    activity_degree =
        fl.lit 5 10 ⊗ (of_int 1 ⊖ (of_int 1 ⊘ nb.trusted_nbs ⊕ a_constant))
        ⊕ fl.lit 5 10 ⊗ (of_int 1 ⊖ (of_int 1 ⊘ nb.interact_nbs ⊕ a_constant));
  }

  unfoldable pub set_tv : D → Neighbor D → Neighbor D
  unfolding set_direct_trust set_recommen_trust set_delivery_ratio set_activity_degree
  set_tv now nb =
      let nb' : Neighbor D =
        set_activity_degree
          (set_delivery_ratio now (set_recommen_trust (set_direct_trust now nb))) in
      record nb' {
        tv =
            fl.lit 35 100 ⊗ nb'.direct_trust
            ⊕ fl.lit 1 10 ⊗ nb'.recommen_trust
            ⊕ fl.lit 2 10 ⊗ nb'.tv
            ⊕ fl.lit 225 1000 ⊗ nb'.delivery_ratio
            ⊕ fl.lit 125 1000 ⊗ nb'.activity_degree;
      }

  -- `forward`: the statistics of a packet that goes to the neighbour, whose destination is `last` or
  -- not. A full array takes no more records.
  pub sent : D → ℕ → Node1 D
  sent now uid = record { uid = uid; time = now; ok = false }

  unfoldable pub count_data : D → ℕ → Bool → Neighbor D → Neighbor D
  unfolding sent
  count_data now uid last nb =
      if last
      then record nb {
        data_forward_corrects = nb.data_forward_corrects + 1;
        data_forward_alls = nb.data_forward_alls + 1;
      }
      else if ltb (length nb.cbr_f) 1000
      then record nb { cbr_f = nb.cbr_f ++ (sent now uid ∷ []) }
      else nb

  unfoldable pub count_control : D → ℕ → Bool → Neighbor D → Neighbor D
  unfolding sent
  count_control now uid last nb =
      if last
      then record nb {
        control_forward_corrects = nb.control_forward_corrects + 1;
        control_forward_alls = nb.control_forward_alls + 1;
      }
      else if ltb (length nb.ptteaomdv_f) 100
      then record nb { ptteaomdv_f = nb.ptteaomdv_f ++ (sent now uid ∷ []) }
      else nb

module _ {D : Type 0} where
  -- `tap`: the first record with the packet's id is marked.
  abbrev pub has_uid : ℕ → Node1 D → Bool
  has_uid uid f = f.uid == uid

  abbrev pub heard : Node1 D → Node1 D
  heard f = record f { ok = true }

  unfoldable pub mark : ℕ → List (Node1 D) → List (Node1 D)
  mark uid fs = update_first (has_uid uid) heard fs

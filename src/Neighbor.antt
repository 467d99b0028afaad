-- ===== src/Neighbor.antt =====
-- teaomdv/teaomdv_rtable.h and the end of teaomdv_rtable.cc: a neighbour with the evidence from which
-- its trust value is computed. The arrays `cbr_f` and `ptteaomdv_f` are the lists of their first
-- `cbr_num` and `ptteaomdv_num` records.
pub mod Rating
pub mod Evidence
use ns2_te_aomdv.Base.{
  ℕ, suc, ◌+◌, Bool, true, false, List, [], ◌∷◌, ◌++◌, length, update_first, leb, ltb, ◌==◌,
  if◌then◌else◌, Double, ◌⊕◌, ◌⊖◌, ◌⊗◌, ◌⊘◌, ◌≺◌, ◌≼◌,
}

-- A packet handed to the neighbour: its id, when, and whether it was heard going on.
pub record Node1 (D : Type 0) : Type 0 where
  pub uid : ℕ
  pub time : D
  pub ok : Bool

pub record Neighbor (D : Type 0) : Type 0 where
  pub addr : ℕ
  pub expire : D
  pub black_list : Bool
  pub tv : D
  pub direct_trust : D
  pub control_forward_rate : D
  pub control_forward_corrects : ℕ
  pub control_forward_alls : ℕ
  pub data_forward_rate : D
  pub data_forward_corrects : ℕ
  pub data_forward_alls : ℕ
  pub cbr_f : List (Node1 D)
  pub ptteaomdv_f : List (Node1 D)
  pub recommen_trust : D
  pub fenzi : D
  pub fenmu : D
  pub delivery_ratio : D
  pub prob_recvs : D
  pub prob_stime : D
  pub activity_degree : D
  pub trusted_nbs : D
  pub interact_nbs : D

-- The counters of one kind of packet, and the records that stay in its array.
pub record Tally (D : Type 0) : Type 0 where
  pub corrects : ℕ
  pub alls : ℕ
  pub pending : List (Node1 D)

module _ {D : Type 0} ⦃fl : Double D⦄ where
  -- An `int` as a `double`.
  abbrev pub of_int : ℕ → D
  of_int n = fl.lit n 1

  -- `TrustThreshold` and `a_constant`.
  abbrev pub trust_threshold : D
  trust_threshold = fl.lit 70 100

  abbrev pub a_constant : D
  a_constant = fl.lit 1 10

  abbrev pub prob_t : D
  prob_t = fl.lit 2 10

  unfoldable pub tv_init : D → Neighbor D → Neighbor D
  tv_init now nb = record nb {
    control_forward_corrects = 0;
    control_forward_alls = 0;
    data_forward_corrects = if leb 5 nb.data_forward_alls then 0 else nb.data_forward_corrects;
    data_forward_alls = if leb 5 nb.data_forward_alls then 0 else nb.data_forward_alls;
    fenzi = of_int 0;
    fenmu = of_int 0;
    prob_recvs = of_int 0;
    prob_stime = now;
    trusted_nbs = of_int 2;
    interact_nbs = of_int 2;
  }

  -- The constructor. It leaves the expiry and the computed trust values unset: `garbage` stands for
  -- what they hold.
  unfoldable pub new_neighbor : D → D → ℕ → Neighbor D
  unfolding tv_init
  new_neighbor garbage now a = tv_init now raw
    where
      raw : Neighbor D
      raw = record {
        addr = a;
        expire = garbage;
        black_list = false;
        tv = of_int 1;
        direct_trust = garbage;
        control_forward_rate = garbage;
        control_forward_corrects = 0;
        control_forward_alls = 0;
        data_forward_rate = garbage;
        data_forward_corrects = 0;
        data_forward_alls = 0;
        cbr_f = [];
        ptteaomdv_f = [];
        recommen_trust = garbage;
        fenzi = of_int 0;
        fenmu = of_int 0;
        delivery_ratio = garbage;
        prob_recvs = of_int 0;
        prob_stime = now;
        activity_degree = garbage;
        trusted_nbs = of_int 2;
        interact_nbs = of_int 2;
      }

  -- `f[i].time+1.5<CURRENT_TIME`.
  abbrev pub is_late : D → Node1 D → Bool
  is_late now f = f.time ⊕ fl.lit 15 10 ≺ now

  -- The loops of `set_direct_trust`: a record that was heard counts as correct, one that is late
  -- counts as failed, and the others move down in the array.
  tally_step : D → Tally D → Node1 D → Tally D
  tally_step now t f =
      if f.ok
      then record t { corrects = t.corrects + 1; alls = t.alls + 1 }
      else if is_late now f
      then record t { alls = t.alls + 1 }
      else record t { pending = t.pending ++ (record f { ok = false } ∷ []) }

  settle : D → Tally D → List (Node1 D) → Tally D
  unfolding tally_step
  settle now t [] = t
  settle now t (f ∷ fs) = settle now (tally_step now t f) fs

  -- The rate over enough packets, and 0.9 below that.
  rate : ℕ → ℕ → ℕ → D
  rate enough corrects alls =
      if leb enough alls then of_int 1 ⊗ of_int corrects ⊘ of_int alls else fl.lit 9 10

  unfoldable pub set_direct_trust : D → Neighbor D → Neighbor D
  unfolding settle rate
  set_direct_trust now nb = record nb {
    ptteaomdv_f = control_tally.pending;
    control_forward_corrects = control_tally.corrects;
    control_forward_alls = control_tally.alls;
    control_forward_rate = control_rate;
    cbr_f = data_tally.pending;
    data_forward_corrects = data_tally.corrects;
    data_forward_alls = data_tally.alls;
    data_forward_rate = data_rate;
    direct_trust = fl.lit 2 10 ⊗ control_rate ⊕ fl.lit 8 10 ⊗ data_rate;
  }
    where
      control_tally : Tally D
      control_tally =
          settle now
            (record {
              corrects = nb.control_forward_corrects;
              alls = nb.control_forward_alls;
              pending = [];
            })
            nb.ptteaomdv_f

      data_tally : Tally D
      data_tally =
          settle now
            (record {
              corrects = nb.data_forward_corrects;
              alls = nb.data_forward_alls;
              pending = [];
            })
            nb.cbr_f

      control_rate : D
      control_rate = rate 2 control_tally.corrects control_tally.alls

      data_rate : D
      data_rate = rate 5 data_tally.corrects data_tally.alls

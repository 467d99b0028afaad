-- ===== src/Agent/Trust/Batches.antt =====
-- `set_trust` recommends every neighbour, in packets of at most MAX_NB.
use ns2_te_aomdv.Base.{
  ℕ, ◌+◌, ◌<◌, ◌≤◌, ◌≡◌, refl, sym, ap, ◌∙◌, true, false, List, [], ◌∷◌, ◌++◌, map, length,
  length-append, All, ◌==◌, arith, Bool-cases, inl, inr, Double, ◌⊗◌, Outcome, done,
}
use ns2_te_aomdv.Packet.{Recommen, rcom, max_nb, ip_broadcast}
use ns2_te_aomdv.Neighbor.{Neighbor}
use ns2_te_aomdv.Agent.State.{Env, Agent, Effect, scheduled, ◌>>=◌}
use ns2_te_aomdv.Agent.Send.{control_packet, send_rcom, send_beacon}
use ns2_te_aomdv.Agent.Trust.{refreshed, empty_rcom, add_nb, flush_full, refresh_all, set_trust}

abbrev pub concat : {A : Type 0} → List (List A) → List A
concat [] = []
concat (xs ∷ xss) = xs ++ concat xss

append_assoc : {A : Type 0} (xs ys zs : List A) → (xs ++ ys) ++ zs ≡ xs ++ (ys ++ zs)
append_assoc [] ys zs = refl
append_assoc (x ∷ xs) ys zs = ap (λ t. x ∷ t) (append_assoc xs ys zs)

nil_of_length : {A : Type 0} (xs : List A) → (length xs == 0) ≡ true → xs ≡ []
nil_of_length [] h = refl
nil_of_length (x ∷ xs) h = ground arith

append_nil : {A : Type 0} (xs : List A) → xs ++ [] ≡ xs
append_nil [] = refl
append_nil (x ∷ xs) = ap (λ t. x ∷ t) (append_nil xs)

module _ {D : Type 0} ⦃fl : Double D⦄ (env : Env D) where
  -- A neighbour's line in a recommendation, and the recommendation as it goes out with the n-th random
  -- number.
  abbrev pub line : Neighbor D → ℕ × D
  line nb = (nb.addr, nb.direct_trust)

  abbrev pub beacon : ℕ → ℕ → Recommen D → Effect D
  beacon index n rc =
      scheduled
        (record (control_packet env env.blank (rcom rc) index) { daddr = ip_broadcast; ttl = 1 })
        (fl.lit 1 10 ⊗ env.uniform n)

  -- The effects after recommendations, the newest first.
  abbrev pub beacons : ℕ → ℕ → List (Recommen D) → List (Effect D) → List (Effect D)
  beacons index n [] es = es
  beacons index n (rc ∷ rcs) es = beacons index (n + 1) rcs (beacon index n rc ∷ es)

  abbrev pub IsBatch : Recommen D → Type 0
  IsBatch rc = (0 < length rc.nbs) × (length rc.nbs ≤ max_nb)

  record Batches (nbs : List (Neighbor D)) (rc : Recommen D) (s : Agent D)
      (run : Outcome (List (Neighbor D) × Agent D)) : Type 0 where
    batches : List (Recommen D)
    after : Agent D
    ends : run ≡ done (map (refreshed env) nbs, after)
    same_table : after.rtable ≡ s.rtable
    sends : after.effects ≡ beacons s.index s.draws batches s.effects
    complete : concat (map (λ r. r.nbs) batches) ≡ rc.nbs ++ map line (map (refreshed env) nbs)
    sizes : All IsBatch batches

  -- What `set_trust` does.
  pub record Recommends (s : Agent D) (run : Outcome (Unit {0} × Agent D)) : Type 0 where
    batches : List (Recommen D)
    after : Agent D
    returns : run ≡ done (tt, after)
    computed : after.nbhead ≡ map (refreshed env) s.nbhead
    same_table : after.rtable ≡ s.rtable
    sends : after.effects ≡ beacons s.index s.draws batches s.effects
    complete : concat (map (λ r. r.nbs) batches) ≡ map line (map (refreshed env) s.nbhead)
    sizes : All IsBatch batches

  length-add_nb :
      (nb : Neighbor D) (rc : Recommen D) → length (add_nb env nb rc).nbs ≡ length rc.nbs + 1
  unfolding add_nb
  length-add_nb nb rc = length-append rc.nbs (line nb ∷ [])

  abbrev sent : Recommen D → Agent D → Agent D
  sent rc s = record s { draws = s.draws + 1; effects = beacon s.index s.draws rc ∷ s.effects }

  send_rcom_lem : (rc : Recommen D) (s : Agent D) → send_rcom env rc s ≡ done (tt, sent rc s)
  unfolding send_rcom send_beacon control_packet
  send_rcom_lem rc s = refl

  -- A full recommendation and what comes after it.
  batch-Batches :
      (nb : Neighbor D) (nbs : List (Neighbor D)) (rc : Recommen D) (s : Agent D)
      → length (add_nb env (refreshed env nb) rc).nbs ≡ max_nb
      → Batches nbs
          (empty_rcom env)
          (sent (add_nb env (refreshed env nb) rc) s)
          (refresh_all env nbs (empty_rcom env) (sent (add_nb env (refreshed env nb) rc) s))
      → Batches (nb ∷ nbs) rc s (refresh_all env (nb ∷ nbs) rc s)
  unfolding refresh_all flush_full add_nb
  batch-Batches nb nbs rc s full r = record {
    batches = add_nb env (refreshed env nb) rc ∷ r.batches;
    after = r.after;
    ends = rw (full, ◌>>=◌, send_rcom_lem) (rw (◌>>=◌, r.ends) refl);
    same_table = r.same_table;
    sends = r.sends;
    complete =
        ap (λ t. (add_nb env (refreshed env nb) rc).nbs ++ t) r.complete
        ∙ append_assoc rc.nbs (line (refreshed env nb) ∷ []) (map line (map (refreshed env) nbs));
    sizes = ((omega arith, omega arith), r.sizes);
  }

  more-Batches :
      (nb : Neighbor D) (nbs : List (Neighbor D)) (rc : Recommen D) (s : Agent D)
      → (length (add_nb env (refreshed env nb) rc).nbs == max_nb) ≡ false
      → Batches nbs
          (add_nb env (refreshed env nb) rc)
          s
          (refresh_all env nbs (add_nb env (refreshed env nb) rc) s)
      → Batches (nb ∷ nbs) rc s (refresh_all env (nb ∷ nbs) rc s)
  unfolding refresh_all flush_full add_nb
  more-Batches nb nbs rc s some_room r = record {
    batches = r.batches;
    after = r.after;
    ends = rw (some_room, ◌>>=◌) (rw (◌>>=◌, r.ends) refl);
    same_table = r.same_table;
    sends = r.sends;
    complete =
        r.complete
        ∙ append_assoc rc.nbs (line (refreshed env nb) ∷ []) (map line (map (refreshed env) nbs));
    sizes = r.sizes;
  }

  refresh_all_lem :
      (nbs : List (Neighbor D)) (rc : Recommen D) (s : Agent D)
      → length rc.nbs < max_nb
      → Batches nbs rc s (refresh_all env nbs rc s)
  unfolding refresh_all
  refresh_all_lem [] rc s l = elim (Bool-cases (length rc.nbs == 0)) [
    | inl none_left ↦ record {
      batches = [];
      after = s;
      ends = ground arith;
      same_table = refl;
      sends = refl;
      complete = sym (append_nil rc.nbs ∙ nil_of_length rc.nbs none_left);
      sizes = tt;
    }
    | inr some_left ↦ record {
      batches = rc ∷ [];
      after = sent rc s;
      ends = ground (arith, send_rcom_lem rc s);
      same_table = refl;
      sends = refl;
      complete = refl;
      sizes = ((ground arith, omega arith), tt);
    }
  ]
  refresh_all_lem (nb ∷ nbs) rc s l =
      let rc1 : Recommen D = add_nb env (refreshed env nb) rc in
      elim (Bool-cases (length rc1.nbs == max_nb)) [
        | inl full ↦
            batch-Batches nb nbs rc s (ground arith)
              (refresh_all_lem nbs (empty_rcom env) (sent rc1 s) (omega arith))
        | inr some_room ↦
            more-Batches nb nbs rc s some_room
              (refresh_all_lem nbs rc1 s (ground (arith, length-add_nb (refreshed env nb) rc)))
      ]

  -- `set_trust` returns, with the trust of every neighbour computed, the table as it was, and
  -- recommendations sent, each of at least 1 and at most MAX_NB neighbours: one after the other they
  -- hold each neighbour once, with its direct trust, in the order of the list.
  pub set_trust-Recommends : (s : Agent D) → Recommends s (set_trust env s)
  unfolding set_trust
  set_trust-Recommends s =
      let r : Batches s.nbhead (empty_rcom env) s (refresh_all env s.nbhead (empty_rcom env) s) =
        refresh_all_lem s.nbhead (empty_rcom env) s (omega arith) in
      record {
        batches = r.batches;
        after = record (r.after) { nbhead = map (refreshed env) s.nbhead };
        returns = rw (◌>>=◌, r.ends) refl;
        computed = refl;
        same_table = r.same_table;
        sends = r.sends;
        complete = r.complete;
        sizes = r.sizes;
      }

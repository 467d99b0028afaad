-- ===== src/Agent/Neighbors.antt =====
-- teaomdv/teaomdv.cc, "Neighbor Management Functions": `nb_insert`, and the reception of hello
-- packets, probes and recommendations.
use ns2_te_aomdv.Base.{ℕ, Option, none, some, List, [], ◌∷◌, Double, ◌⊕◌, ◌⊗◌, ◌≼◌, if◌then◌else◌}
use ns2_te_aomdv.Packet.{Packet, Reply, Recommen}
use ns2_te_aomdv.Neighbor.{Neighbor, new_neighbor, trust_threshold, of_int}
use ns2_te_aomdv.Agent.State.{
  M, Env, ◌>>=◌, ◌>>◌, get, modify, skip, emit, freed, set_neighbor, nb_lookup,
}

module _ {D : Type 0} ⦃fl : Double D⦄ (env : Env D) where
  -- HELLO_INTERVAL * ALLOWED_HELLO_LOSS is 6.
  abbrev pub set_expire : D → Neighbor D → Neighbor D
  set_expire t nb = record nb { expire = env.now ⊕ t }

  abbrev pub insert_looked_up : ℕ → Option (Neighbor D) → M D (Unit {0})
  insert_looked_up id none = modify λ s. record s {
    nbhead = set_expire (fl.lit 6 1) (new_neighbor env.garbage env.now id) ∷ s.nbhead;
  }
  insert_looked_up id (some nb) = set_neighbor id (set_expire (fl.lit 6 1))

  unfoldable pub nb_insert : ℕ → M D (Unit {0})
  nb_insert id = do s ← get; insert_looked_up id (nb_lookup id s)

  -- 1.5 * ALLOWED_HELLO_LOSS * HELLO_INTERVAL is computed as 1.5 * 3 * 2.
  unfoldable pub greet : ℕ → Option (Neighbor D) → M D (Unit {0})
  greet id none = nb_insert id
  greet id (some nb) = set_neighbor id (set_expire (fl.lit 15 10 ⊗ of_int 3 ⊗ of_int 2))

  -- What `recvHello` writes into the packet is lost when it is freed.
  unfoldable pub recv_hello : Packet D → Reply D → M D (Unit {0})
  recv_hello p rp = do s ← get; greet rp.rp_dst (nb_lookup rp.rp_dst s); emit (freed p)

  abbrev pub probed : Neighbor D → Neighbor D
  probed nb = set_expire (of_int 2) (record nb { prob_recvs = nb.prob_recvs ⊕ of_int 1 })

  unfoldable pub count_probe : ℕ → Option (Neighbor D) → M D (Unit {0})
  count_probe id none = skip
  count_probe id (some nb) = set_neighbor id probed

  unfoldable pub recv_prob : Packet D → M D (Unit {0})
  recv_prob p = do s ← get; count_probe p.saddr (nb_lookup p.saddr s); emit (freed p)

  -- The neighbour that a recommendation is about, with the recommender's direct trust `weight`.
  abbrev pub recommended : D → D → Neighbor D → Neighbor D
  recommended weight dt nb = record nb {
    fenzi = nb.fenzi ⊕ weight ⊗ dt;
    fenmu = nb.fenmu ⊕ weight;
    trusted_nbs = if trust_threshold ≼ dt then nb.trusted_nbs ⊕ of_int 1 else nb.trusted_nbs;
  }

  -- The loop of `recvRcom`; nothing that it writes is the recommender's direct trust.
  unfoldable pub recommend : D → List (ℕ × D) → M D (Unit {0})
  recommend weight [] = skip
  recommend weight ((addr, dt) ∷ nbs) = do
    set_neighbor addr (recommended weight dt)
    recommend weight nbs

  abbrev pub interacted : ℕ → Neighbor D → Neighbor D
  interacted n nb = record nb { interact_nbs = nb.interact_nbs ⊕ of_int n }

  -- A recommendation counts if its sender is trusted.
  unfoldable pub heed : ℕ → Recommen D → Option (Neighbor D) → M D (Unit {0})
  heed id rc none = skip
  heed id rc (some nb) =
      if trust_threshold ≼ nb.tv
      then (do set_neighbor id (interacted rc.it_num); recommend nb.direct_trust rc.nbs)
      else skip

  unfoldable pub recv_rcom : Packet D → Recommen D → M D (Unit {0})
  recv_rcom p rc = do s ← get; heed p.saddr rc (nb_lookup p.saddr s); emit (freed p)

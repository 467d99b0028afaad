-- ===== src/Agent/Invariant/Evidence.antt =====
-- The operations on the neighbours keep the evidence sound, and no neighbour stands twice.
use ns2_te_aomdv.Base.{
  ℕ, ◌≡◌, ◌≢◌, refl, sym, subst, done, ◌⊕◌, List, ◌∷◌, update_first, All, ne_of_none, ◌==◌, Double,
  Bool-cases, inl, inr, Option-cases, arith,
}
use ns2_te_aomdv.Packet.{Packet}
use ns2_te_aomdv.Neighbor.{Neighbor, new_neighbor, tv_init}
use ns2_te_aomdv.Neighbor.Rating.{count_data, count_control}
use ns2_te_aomdv.Neighbor.Evidence.{IsSound, neighbor-IsSound}
use ns2_te_aomdv.Agent.State.{Env, Agent, has_addr, nb_lookup}
use ns2_te_aomdv.Agent.Neighbors.{nb_insert, set_expire}
use ns2_te_aomdv.Agent.Forward.{count_sent, is_cbr, is_teaomdv}
use ns2_te_aomdv.Agent.Invariant.{IsStored, IsStored-neighbor, HasStored, addr_of}

module _ {D : Type 0} ⦃fl : Double D⦄ (env : Env D) where
  pub count_sent-IsSound :
      (p : Packet D) (nb : Neighbor D) → IsSound nb → IsSound (count_sent env p nb)
  unfolding count_sent
  count_sent-IsSound p nb s =
      let sound = neighbor-IsSound env.now p.uid (p.next_hop == p.daddr) nb s in
      elim (Bool-cases (is_cbr p.ptype)) [
        | inl data_packet ↦ rw data_packet sound.1
        | inr other ↦ elim (Bool-cases (is_teaomdv p.ptype)) [
          | inl control ↦ rw (other, control) sound.2
          | inr neither ↦ rw (other, neither) s
        ]
      ]

  pub count_sent-addr : (p : Packet D) (nb : Neighbor D) → (count_sent env p nb).addr ≡ nb.addr
  unfolding count_sent count_data count_control
  count_sent-addr p nb = ground arith

  -- A record that only the expiry or the trust of was written.
  pub new_neighbor-IsSound :
      (garbage now t : D) (id : ℕ) → IsSound (record (new_neighbor garbage now id) { expire = t })
  unfolding new_neighbor tv_init
  new_neighbor-IsSound garbage now t id = omega arith

  new_neighbor-addr : (garbage now : D) (id : ℕ) → (new_neighbor garbage now id).addr ≡ id
  unfolding new_neighbor tv_init
  new_neighbor-addr garbage now id = refl

  -- The neighbour is added if it is not known yet, and its expiry is written.
  pub nb_insert-HasStored :
      (id : ℕ) (s : Agent D)
      → HasStored s
      → (nbs : List (Neighbor D)) × (nb_insert env id s ≡ done (tt, record s { nbhead = nbs }))
        × IsStored s.rtable nbs s.max_paths
  unfolding nb_insert nb_lookup
  nb_insert-HasStored id s k = elim (Option-cases (nb_lookup id s)) [
    | inl new ↦ (
      record (new_neighbor env.garbage env.now id) { expire = env.now ⊕ fl.lit 6 1 } ∷ s.nbhead,
      rw (new, nb_insert) refl,
      record {
        entries = k.entries;
        unique = k.unique;
        sound = (new_neighbor-IsSound env.garbage env.now _ id, k.sound);
        once = (
          subst (λ a. All (λ nb. nb.addr ≢ a) s.nbhead)
              (sym (new_neighbor-addr env.garbage env.now id)) (ne_of_none addr_of id s.nbhead new),
          k.once,
        );
        limit = k.limit;
      },
    )
    | inr known ↦ (
      update_first (has_addr id) (set_expire env (fl.lit 6 1)) s.nbhead,
      rw (known.1, nb_insert) refl,
      IsStored-neighbor id (set_expire env (fl.lit 6 1)) s.rtable s.nbhead s.max_paths
          (λ nb h. omega arith) (λ nb d. d) k,
    )
  ]

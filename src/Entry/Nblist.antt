-- ===== src/Entry/Nblist.antt =====
-- teaomdv/teaomdv_rtable.cc: the neighbour list of an entry, which nothing calls in this build.
use ns2_te_aomdv.Base.{ℕ, Option, ◌∷◌, find, ◌==◌, Double}
use ns2_te_aomdv.Neighbor.{Neighbor, new_neighbor}
use ns2_te_aomdv.Entry.{Entry}

module _ {D : Type 0} ⦃fl : Double D⦄ where
  -- `teaomdv_rt_entry::nb_insert`; `garbage` is what the constructor leaves unset.
  pub entry_nb_insert : D → D → ℕ → Entry D → Entry D
  entry_nb_insert garbage now id e = record e {
    nblist = record (new_neighbor garbage now id) { expire = fl.lit 0 1 } ∷ e.nblist;
  }

  -- `teaomdv_rt_entry::nb_lookup`.
  pub entry_nb_lookup : ℕ → Entry D → Option (Neighbor D)
  entry_nb_lookup id e = find (λ nb. nb.addr == id) e.nblist

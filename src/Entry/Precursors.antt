-- ===== src/Entry/Precursors.antt =====
-- teaomdv/teaomdv_rtable.cc: the precursors of an entry.
use ns2_te_aomdv.Base.{ℕ, Bool, true, false, Option, none, some, [], ◌∷◌, find, remove_first}
use ns2_te_aomdv.Entry.{Entry, is_pc}

module _ {D : Type 0} where
  pub pc_lookup : Entry D → ℕ → Option ℕ
  pc_lookup e id = find (is_pc id) e.pclist

  unfoldable pub pc_insert : ℕ → Entry D → Entry D
  unfolding pc_lookup
  pc_insert id e = elim (pc_lookup e id) [ none ↦ record e { pclist = id ∷ e.pclist } | some a ↦ e ]

  pub pc_delete : ℕ → Entry D → Entry D
  pc_delete id e = record e { pclist = remove_first (is_pc id) e.pclist }

  pub pc_delete_all : Entry D → Entry D
  pc_delete_all e = record e { pclist = [] }

  pub pc_empty : Entry D → Bool
  pc_empty e = elim e.pclist [ [] ↦ true | a ∷ rest ↦ false ]

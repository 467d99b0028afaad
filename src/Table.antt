-- ===== src/Table.antt =====
-- teaomdv/teaomdv_rtable.cc, class `teaomdv_rtable`: the list of entries, the newest first. An
-- entry's pointer is its destination, which no other entry has.
pub mod Unique
use ns2_te_aomdv.Base.{
  ℕ, Bool, Option, none, some, List, [], ◌∷◌, find, remove_first, any, is_some, ◌==◌, if◌then◌else◌,
  Double, Outcome, asserting, not,
}
use ns2_te_aomdv.Entry.{Entry, is_up, new_entry}

module _ {D : Type 0} where
  abbrev pub has_dst : ℕ → Entry D → Bool
  has_dst id e = e.dst == id

  unfoldable pub rt_lookup : List (Entry D) → ℕ → Option (Entry D)
  rt_lookup table id = find (has_dst id) table

  pub rt_delete : ℕ → List (Entry D) → List (Entry D)
  rt_delete id table = remove_first (has_dst id) table

  abbrev entry_is_up : Entry D → Bool
  entry_is_up e = is_up e.flags

  pub rt_has_active_route : List (Entry D) → Bool
  rt_has_active_route table = any entry_is_up table

module _ {D : Type 0} ⦃fl : Double D⦄ where
  -- The new entry stands at the head of the result.
  unfoldable pub rt_add : ℕ → ℕ → List (Entry D) → Outcome (List (Entry D))
  rt_add garbage id table =
      asserting (not (is_some (rt_lookup table id)))
        (record (new_entry garbage) { dst = id } ∷ table)

-- ===== src/Table/Unique.antt =====
-- Destinations are unique in the routing table, and lookups see what was added or deleted.
use ns2_te_aomdv.Base.{
  ℕ, ◌≡◌, refl, ◌≢◌, ◌↔◌, false, none, some, List, [], ◌∷◌, find, remove_first, any, arith, All,
  Double, ◌==◌, if◌then◌else◌, done, crash, assert_failed, IsDistinct, none_of_ne, ne_of_none,
  remove_first-IsDistinct,
}
use ns2_te_aomdv.Entry.{Entry, rtf_up, new_entry}
use ns2_te_aomdv.Table.{has_dst, rt_lookup, rt_delete, rt_add, rt_has_active_route, entry_is_up}

module _ {D : Type 0} where
  abbrev pub key : Entry D → ℕ
  key e = e.dst

  abbrev pub IsUnique : List (Entry D) → Type 0
  IsUnique es = IsDistinct key es

  find-remove_first :
      (id k : ℕ) (es : List (Entry D))
      → IsUnique es
      → find (has_dst k) (remove_first (has_dst id) es)
        ≡ (if id == k then none else find (has_dst k) es)
  find-remove_first id k [] u = ground arith
  find-remove_first id k (e ∷ es) u =
      ground (arith, find-remove_first id k es u.1, none_of_ne key e.dst es u.0)

  -- On a table without a destination twice, `rt_delete` keeps it so; after it a lookup finds nothing
  -- for the deleted destination, and for every other what it found before.
  pub rt_delete_lem :
      (id k : ℕ) (table : List (Entry D))
      → IsUnique table
      → IsUnique (rt_delete id table)
        × (rt_lookup (rt_delete id table) k ≡ (if id == k then none else rt_lookup table k))
  unfolding rt_delete rt_lookup
  rt_delete_lem id k table u =
      (remove_first-IsDistinct key id table u, find-remove_first id k table u)

  any-up :
      (table : List (Entry D)) → any entry_is_up table ≡ false → All (λ e. e.flags ≢ rtf_up) table
  any-up [] h = tt
  any-up (e ∷ es) h = ground (arith, any-up es)

  up-any :
      (table : List (Entry D)) → All (λ e. e.flags ≢ rtf_up) table → any entry_is_up table ≡ false
  up-any [] h = refl
  up-any (e ∷ es) h = ground (arith, up-any es h.1)

  -- `rt_has_active_route` is false exactly when no entry is up.
  pub rt_has_active_route_iff :
      (table : List (Entry D))
      → (rt_has_active_route table ≡ false) ↔ All (λ e. e.flags ≢ rtf_up) table
  unfolding rt_has_active_route
  rt_has_active_route_iff table = (any-up table, up-any table)

module _ {D : Type 0} ⦃fl : Double D⦄ where
  -- On a table without a destination twice, in which a lookup of `id` finds nothing, `rt_add` meets its
  -- assertion and gives a table without a destination twice, in which a lookup of `id` finds the new
  -- entry and every other lookup what it found before.
  pub rt_add_lem :
      (garbage id k : ℕ) (table : List (Entry D))
      → IsUnique table
      → rt_lookup table id ≡ none
      → (new : List (Entry D)) × (rt_add garbage id table ≡ done new)
        × IsUnique new
        × (rt_lookup new k ≡ (
            if id == k then some (record (new_entry garbage) { dst = id }) else rt_lookup table k))
  unfolding rt_add rt_lookup
  rt_add_lem garbage id k table u h = (
    record (new_entry garbage) { dst = id } ∷ table,
    rw h,
    (ne_of_none key id table h, u),
    ground arith,
  )

  pub rt_add_twice :
      (garbage id : ℕ) (table : List (Entry D)) (e : Entry D)
      → rt_lookup table id ≡ some e
      → rt_add garbage id table ≡ crash assert_failed
  unfolding rt_add
  rt_add_twice garbage id table e h = rw h

-- ===== src/Entry/Counted.antt =====
-- `rt_num_paths_` is the number of paths, after every operation that writes either.
use ns2_te_aomdv.Base.{
  ℕ, zero, suc, ◌+◌, ◌≡◌, refl, ap, subst, Option, none, some, List, [], ◌∷◌, length, length-append,
  length-remove_first, ◌==◌, arith, Double, Outcome, done, crash, on_done, ◌<◌,
}
use ns2_te_aomdv.Entry.{
  Entry, RoutePath, path_insert, path_delete, path_delete_longest, path_empty, longest_from,
  remove_at, remove_found,
}

abbrev pub IsCounted : {D : Type 0} → Entry D → Type 0
IsCounted e = e.num_paths ≡ length e.paths

-- The place is one of the first `n`.
abbrev InRange : ℕ → Option ℕ → Type 0
InRange n none = Unit
InRange n (some i) = i < n

module _ {D : Type 0} where
  pub path_delete-IsCounted : (id : ℕ) (e : Entry D) → IsCounted e → IsCounted (path_delete id e)
  unfolding path_delete
  path_delete-IsCounted id e c = ground (arith, length-remove_first (λ p. p.nexthop == id) e.paths)

  -- With the count right, the assertions of `path_empty` hold, and it tells whether there is a path.
  pub path_empty_lem : (e : Entry D) → IsCounted e → path_empty e ≡ done (length e.paths == 0)
  unfolding path_empty
  path_empty_lem e c = ground arith

  length-remove_at :
      (i : ℕ) (ps : List (RoutePath D)) → i < length ps → suc (length (remove_at i ps)) ≡ length ps
  unfolding remove_at
  length-remove_at i [] h = elim h [ ]
  length-remove_at zero (p ∷ ps) h = refl
  length-remove_at (suc i) (p ∷ ps) h = ap suc (length-remove_at i ps (omega arith))

  -- The place that the loop finds is one of the list.
  longest_from-InRange :
      (i : ℕ) (best : Option ℕ) (m : ℕ) (ps : List (RoutePath D)) (n : ℕ) (r : Option ℕ)
      → i + length ps ≡ n
      → InRange n best
      → longest_from i best m ps ≡ done r
      → InRange n r
  unfolding longest_from
  longest_from-InRange i best m [] n r e b h = let same : best ≡ r = cc in subst (InRange n) same b
  longest_from-InRange i best m (p ∷ ps) n r e b h = ground (
    arith,
    longest_from-InRange (i + 1) (some i) p.hopcount ps n r,
    longest_from-InRange (i + 1) best m ps n r,
  )

  remove_found-IsCounted :
      (e : Entry D) (r : Option ℕ)
      → IsCounted e
      → InRange (length e.paths) r
      → IsCounted (remove_found e r)
  unfolding remove_found
  remove_found-IsCounted e none c h = c
  remove_found-IsCounted e (some i) c h = omega (arith, length-remove_at i e.paths h)

  -- Where `path_delete_longest` does not stop at its assertion, the count stays right.
  pub path_delete_longest-IsCounted :
      (e e' : Entry D) → IsCounted e → path_delete_longest e ≡ done e' → IsCounted e'
  unfolding path_delete_longest
  path_delete_longest-IsCounted e e' c h = cases (longest_from 0 none 0 e.paths) refl h
    where
      cases :
          (o : Outcome (Option ℕ))
          → longest_from 0 none 0 e.paths ≡ o
          → on_done (remove_found e) o ≡ done e'
          → IsCounted e'
      cases (done r) q k =
          let same : remove_found e r ≡ e' = cc in
          subst IsCounted same (
            remove_found-IsCounted e r c
              (longest_from-InRange 0 none 0 e.paths (length e.paths) r (omega arith) tt q))
      cases (crash f) q k = cc

module _ {D : Type 0} ⦃fl : Double D⦄ where
  pub path_insert-IsCounted :
      (now : D) (e : Entry D) (nexthop hopcount : ℕ) (expire : D) (lasthop : ℕ) (fpt rpt : D)
      → IsCounted e
      → IsCounted (path_insert now e nexthop hopcount expire lasthop fpt rpt)
  unfolding path_insert
  path_insert-IsCounted now e nexthop hopcount expire lasthop fpt rpt c =
      grind (arith, length-append)

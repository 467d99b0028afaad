-- ===== src/Entry/Hops.antt =====
-- The least and the greatest hop count over the paths.
use ns2_te_aomdv.Base.{
  ℕ, ◌≤◌, ◌<◌, ◌≡◌, refl, ◌⊎◌, inl, inr, Bool, true, Option, none, some, List, [], ◌∷◌, any, ltb,
  ◌==◌, arith, All, if◌then◌else◌, Bool-cases, Option-cases,
}
use ns2_te_aomdv.Entry.{Entry, RoutePath, infinity2}
use ns2_te_aomdv.Entry.Choice.{
  path_get_min_hopcount, path_get_max_hopcount, path_find_min_hop, min_hopcount_from,
  max_hopcount_from, min_hop_from,
}

module _ {D : Type 0} where
  abbrev pub has_hopcount : ℕ → RoutePath D → Bool
  has_hopcount h p = p.hopcount == h

  All-mono :
      (a b : ℕ) (ps : List (RoutePath D))
      → a ≤ b
      → All (λ p. p.hopcount ≤ a) ps
      → All (λ p. p.hopcount ≤ b) ps
  All-mono a b [] h k = tt
  All-mono a b (p ∷ ps) h k = (omega arith, All-mono a b ps h k.1)

  min_hopcount_from_lem :
      (m : ℕ) (ps : List (RoutePath D))
      → let r = min_hopcount_from m ps in
        (r ≤ m) × All (λ p. r ≤ p.hopcount) ps × ((r ≡ m) ⊎ (any (has_hopcount r) ps ≡ true))
  unfolding min_hopcount_from
  min_hopcount_from_lem m [] = (omega arith, tt, inl refl)
  min_hopcount_from_lem m (p ∷ ps) =
      ground (arith, min_hopcount_from_lem (if ltb p.hopcount m then p.hopcount else m) ps)

  -- `path_get_min_hopcount` is at most every path's hop count and at most 255, and it is one of these
  -- numbers.
  pub path_get_min_hopcount_lem :
      (e : Entry D)
      → let r = path_get_min_hopcount e in
        (r ≤ infinity2)
        × All (λ p. r ≤ p.hopcount) e.paths
        × ((r ≡ infinity2) ⊎ (any (has_hopcount r) e.paths ≡ true))
  unfolding path_get_min_hopcount
  path_get_min_hopcount_lem e = min_hopcount_from_lem infinity2 e.paths

  max_hopcount_from_lem :
      (m : ℕ) (ps : List (RoutePath D))
      → let r = max_hopcount_from m ps in
        (m ≤ r) × All (λ p. p.hopcount ≤ r) ps × ((r ≡ m) ⊎ (any (has_hopcount r) ps ≡ true))
  unfolding max_hopcount_from
  max_hopcount_from_lem m [] = (omega arith, tt, inl refl)
  max_hopcount_from_lem m (p ∷ ps) =
      ground (arith, max_hopcount_from_lem (if ltb m p.hopcount then p.hopcount else m) ps)

  -- Of an entry with paths, `path_get_max_hopcount` is at least every path's hop count, and it is
  -- one of these, unless all are 0; then it is 255.
  pub path_get_max_hopcount_lem :
      (e : Entry D)
      → let r = path_get_max_hopcount e in
        All (λ p. p.hopcount ≤ r) e.paths
        × ((r ≡ infinity2) × All (λ p. p.hopcount ≤ 0) e.paths
            ⊎ any (has_hopcount r) e.paths ≡ true)
  unfolding path_get_max_hopcount
  path_get_max_hopcount_lem e =
      ground (arith, max_hopcount_from_lem 0 e.paths, All-mono 0 infinity2 e.paths (omega arith))

  -- What the loop of `path_findMinHop` knows: the best path so far has the least hop count so far.
  abbrev Meets : Option (RoutePath D) → ℕ → Type 0
  Meets none m = Unit
  Meets (some q) m = q.hopcount ≡ m

  abbrev Least : Option (RoutePath D) → ℕ → List (RoutePath D) → Option (RoutePath D) → Type 0
  Least best m ps none = (best ≡ none) × All (λ p. m ≤ p.hopcount) ps
  Least best m ps (some q) =
      All (λ p. q.hopcount ≤ p.hopcount) ps
      × (q.hopcount ≤ m)
      × ((q.hopcount < m) ⊎ (best ≡ some q))

  min_hop_from-Least :
      (best : Option (RoutePath D)) (m : ℕ) (ps : List (RoutePath D))
      → Meets best m
      → Least best m ps (min_hop_from best m ps)
  unfolding min_hop_from
  min_hop_from-Least none m [] h = (refl, tt)
  min_hop_from-Least (some q) m [] h = (tt, omega arith, inr refl)
  min_hop_from-Least best m (p ∷ ps) h = elim (Bool-cases (ltb p.hopcount m)) [
    | inl less ↦ rw less (
        ground (
          arith,
          min_hop_from-Least (some p) p.hopcount ps refl,
          Option-cases (min_hop_from (some p) p.hopcount ps),
        ))
    | inr more ↦
        rw more
          (ground (arith, min_hop_from-Least best m ps h, Option-cases (min_hop_from best m ps)))
  ]

  -- The result of `path_findMinHop`: no path is shorter, or every path has at least 65535 hops.
  abbrev pub IsShortest : List (RoutePath D) → Option (RoutePath D) → Type 0
  IsShortest ps none = All (λ p. 0xffff ≤ p.hopcount) ps
  IsShortest ps (some q) = All (λ p. q.hopcount ≤ p.hopcount) ps × (q.hopcount < 0xffff)

  -- No path of the entry has fewer hops than the one that `path_findMinHop` finds; it finds none only
  -- if every path has at least 65535 hops.
  pub path_find_min_hop-IsShortest : (e : Entry D) → IsShortest e.paths (path_find_min_hop e)
  unfolding path_find_min_hop
  path_find_min_hop-IsShortest e = ground (
    arith,
    min_hop_from-Least none 0xffff e.paths tt,
    Option-cases (min_hop_from none 0xffff e.paths),
  )

-- ===== src/Entry/Choice.antt =====
-- teaomdv/teaomdv_rtable.cc: the path that a packet takes, and the least and greatest hop counts.
use ns2_te_aomdv.Base.{ℕ, Option, none, some, List, [], ◌∷◌, ltb, ◌==◌, if◌then◌else◌}
use ns2_te_aomdv.Entry.{infinity2, RoutePath, Entry}

module _ {D : Type 0} where
  unfoldable pub path_find : Entry D → Option (RoutePath D)
  path_find e = elim e.paths [ [] ↦ none | p ∷ ps ↦ some p ]

  unfoldable pub min_hop_from : Option (RoutePath D) → ℕ → List (RoutePath D) → Option (RoutePath D)
  min_hop_from best m [] = best
  min_hop_from best m (p ∷ ps) =
      min_hop_from (if ltb p.hopcount m then some p else best)
        (if ltb p.hopcount m then p.hopcount else m) ps

  unfoldable pub path_find_min_hop : Entry D → Option (RoutePath D)
  unfolding min_hop_from
  path_find_min_hop e = min_hop_from none 0xffff e.paths

  unfoldable pub max_hopcount_from : ℕ → List (RoutePath D) → ℕ
  max_hopcount_from m [] = m
  max_hopcount_from m (p ∷ ps) = max_hopcount_from (if ltb m p.hopcount then p.hopcount else m) ps

  unfoldable pub path_get_max_hopcount : Entry D → ℕ
  path_get_max_hopcount e = let m = max_hopcount_from 0 e.paths in if m == 0 then infinity2 else m

  unfoldable pub min_hopcount_from : ℕ → List (RoutePath D) → ℕ
  min_hopcount_from m [] = m
  min_hopcount_from m (p ∷ ps) = min_hopcount_from (if ltb p.hopcount m then p.hopcount else m) ps

  unfoldable pub path_get_min_hopcount : Entry D → ℕ
  path_get_min_hopcount e = min_hopcount_from infinity2 e.paths

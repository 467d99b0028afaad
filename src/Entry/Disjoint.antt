-- ===== src/Entry/Disjoint.antt =====
-- The paths of an entry share no next hop and no last hop.
use ns2_te_aomdv.Base.{
  ℕ, ◌≡◌, refl, ◌≢◌, ◌↔◌, Bool, true, false, List, [], ◌∷◌, ◌++◌, keep, remove_first, any,
  update_first, All-update_first, Bool-cases, inl, inr, arith, All, All-append, All-keep,
  All-remove_first, Double,
}
use ns2_te_aomdv.Entry.{
  Entry, RoutePath, has_either, has_nexthop, new_disjoint_path, path_insert, path_delete,
}

module _ {D : Type 0} where
  -- The path has neither that next hop nor that last hop.
  abbrev pub IsApart : ℕ → ℕ → RoutePath D → Type 0
  IsApart nexthop lasthop q = (q.nexthop ≢ nexthop) × (q.lasthop ≢ lasthop)

  abbrev pub IsDisjoint : List (RoutePath D) → Type 0
  IsDisjoint [] = Unit
  IsDisjoint (p ∷ ps) = All (IsApart p.nexthop p.lasthop) ps × IsDisjoint ps

  any-has_either :
      (nh lh : ℕ) (ps : List (RoutePath D))
      → any (has_either nh lh) ps ≡ false
      → All (IsApart nh lh) ps
  any-has_either nh lh [] h = tt
  any-has_either nh lh (p ∷ ps) h = ground (arith, any-has_either nh lh ps)

  any-has_either_of :
      (nh lh : ℕ) (ps : List (RoutePath D))
      → All (IsApart nh lh) ps
      → any (has_either nh lh) ps ≡ false
  any-has_either_of nh lh [] h = refl
  any-has_either_of nh lh (p ∷ ps) h = ground (arith, any-has_either_of nh lh ps h.1)

  -- `new_disjoint_path` answers true exactly when no path has that next hop and none has that last
  -- hop.
  pub new_disjoint_path_iff :
      (e : Entry D) (nh lh : ℕ) → (new_disjoint_path e nh lh ≡ true) ↔ All (IsApart nh lh) e.paths
  unfolding new_disjoint_path
  new_disjoint_path_iff e nh lh = (
    λ h. any-has_either nh lh e.paths (ground arith),
    λ h. ground (arith, any-has_either_of nh lh e.paths h),
  )

  pub keep-IsDisjoint :
      (p : RoutePath D → Bool) (ps : List (RoutePath D)) → IsDisjoint ps → IsDisjoint (keep p ps)
  keep-IsDisjoint p [] d = tt
  keep-IsDisjoint p (x ∷ ps) d =
      ground (arith, keep-IsDisjoint p ps d.1, All-keep (IsApart x.nexthop x.lasthop) p ps d.0)

  pub remove_first-IsDisjoint :
      (p : RoutePath D → Bool) (ps : List (RoutePath D))
      → IsDisjoint ps
      → IsDisjoint (remove_first p ps)
  remove_first-IsDisjoint p [] d = tt
  remove_first-IsDisjoint p (x ∷ ps) d = ground (
    arith,
    remove_first-IsDisjoint p ps d.1,
    All-remove_first (IsApart x.nexthop x.lasthop) p ps d.0,
  )

  pub path_delete-IsDisjoint :
      (id : ℕ) (e : Entry D) → IsDisjoint e.paths → IsDisjoint (path_delete id e).paths
  unfolding path_delete
  path_delete-IsDisjoint id e d = ground (arith, remove_first-IsDisjoint (has_nexthop id) e.paths d)

  append-IsDisjoint :
      (ps : List (RoutePath D)) (p : RoutePath D)
      → IsDisjoint ps
      → All (IsApart p.nexthop p.lasthop) ps
      → IsDisjoint (ps ++ (p ∷ []))
  append-IsDisjoint [] p d a = (tt, tt)
  append-IsDisjoint (x ∷ ps) p d a = (
    All-append (IsApart x.nexthop x.lasthop) ps (p ∷ []) d.0
        (((λ e. a.0.0 (ground arith)), (λ e. a.0.1 (ground arith))), tt),
    append-IsDisjoint ps p d.1 a.1,
  )

module _ {D : Type 0} ⦃fl : Double D⦄ where
  -- If the paths share no next hop and no last hop, they still do not after the insertion of a path
  -- that `new_disjoint_path` admits.
  pub path_insert-IsDisjoint :
      (now : D) (e : Entry D) (nexthop hopcount : ℕ) (expire : D) (lasthop : ℕ) (fpt rpt : D)
      → IsDisjoint e.paths
      → new_disjoint_path e nexthop lasthop ≡ true
      → IsDisjoint (path_insert now e nexthop hopcount expire lasthop fpt rpt).paths
  unfolding path_insert
  path_insert-IsDisjoint now e nh hopcount expire lh fpt rpt d n =
      append-IsDisjoint e.paths _ d ((new_disjoint_path_iff e nh lh).0 n)

module _ {D : Type 0} (p : RoutePath D → Bool) (f : RoutePath D → RoutePath D) where
  module _ (nexthop_kept : (r : RoutePath D) → (f r).nexthop ≡ r.nexthop)
      (lasthop_kept : (r : RoutePath D) → (f r).lasthop ≡ r.lasthop) where
    update_first-IsApart :
        (nh lh : ℕ) (ps : List (RoutePath D))
        → All (IsApart nh lh) ps
        → All (IsApart nh lh) (update_first p f ps)
    update_first-IsApart nh lh ps a =
        All-update_first (IsApart nh lh) p f ps (λ r h. rw (nexthop_kept r, lasthop_kept r) h) a

    -- A write to a path's other fields keeps the paths disjoint.
    pub update_first-IsDisjoint :
        (ps : List (RoutePath D)) → IsDisjoint ps → IsDisjoint (update_first p f ps)
    update_first-IsDisjoint [] d = tt
    update_first-IsDisjoint (x ∷ ps) d = elim (Bool-cases (p x)) [
      | inl hit ↦ rw hit (rw (nexthop_kept x, lasthop_kept x) d.0, d.1)
      | inr miss ↦
          rw miss (update_first-IsApart x.nexthop x.lasthop ps d.0, update_first-IsDisjoint ps d.1)
    ]

-- ===== src/Agent/Invariant/Entries.antt =====
-- The operations on one entry keep it good.
use ns2_te_aomdv.Base.{
  ℕ, ◌≤◌, length, length-remove_first, remove_first-none, find-any, ◌≡◌, refl, List, [], ◌∷◌, arith,
  Double,
}
use ns2_te_aomdv.Entry.{Entry, RoutePath, new_entry, path_delete, has_nexthop, path_delete_all}
use ns2_te_aomdv.Entry.Precursors.{pc_insert}
use ns2_te_aomdv.Entry.Counted.{IsCounted}
use ns2_te_aomdv.Entry.Disjoint.{IsDisjoint}
use ns2_te_aomdv.Agent.State.{Env, set_head_path}
use ns2_te_aomdv.Agent.Routes.{rt_down}
use ns2_te_aomdv.Agent.Forward.{set_fpt, set_path_expire}
use ns2_te_aomdv.Agent.Invariant.{IsGood}

module _ {D : Type 0} ⦃fl : Double D⦄ (env : Env D) where
  pub rt_down-IsGood :
      (e : Entry D) → IsCounted e → IsDisjoint e.paths → length e.paths ≤ 3 → IsGood (rt_down env e)
  unfolding rt_down path_delete_all
  rt_down-IsGood e c d f = ground arith

  pub rt_down-dst : (e : Entry D) → (rt_down env e).dst ≡ e.dst
  unfolding rt_down path_delete_all
  rt_down-dst e = ground arith

  pub new_entry-IsGood :
      (garbage dst : ℕ) → IsGood {D = D} (record (new_entry garbage) { dst = dst })
  unfolding new_entry
  new_entry-IsGood garbage dst = record {
    counted = refl;
    disjoint = tt;
    live = λ u. cc;
    few = omega arith;
  }

module _ {D : Type 0} where
  -- What is left of the paths is no more than there was.
  pub path_delete-few :
      (nexthop : ℕ) (e : Entry D) → length e.paths ≤ 3 → length (path_delete nexthop e).paths ≤ 3
  unfolding path_delete
  path_delete-few nexthop e f = ground (
    arith,
    length-remove_first (has_nexthop nexthop) e.paths,
    remove_first-none (has_nexthop nexthop) e.paths,
    find-any (has_nexthop nexthop) e.paths,
  )

  pub path_delete-same : (nexthop : ℕ) (e : Entry D) → (path_delete nexthop e).dst ≡ e.dst
  unfolding path_delete
  path_delete-same nexthop e = ground arith

  pub pc_insert-dst : (a : ℕ) (e : Entry D) → (pc_insert a e).dst ≡ e.dst
  unfolding pc_insert
  pc_insert-dst a e = ground arith

  pub pc_insert-IsGood : (a : ℕ) (e : Entry D) → IsGood e → IsGood (pc_insert a e)
  unfolding pc_insert
  pc_insert-IsGood a e g = ground arith

  pub set_head_path-IsGood :
      (x : D) (e : Entry D)
      → IsGood e
      → IsGood (set_head_path (set_fpt x) e) × IsGood (set_head_path (set_path_expire x) e)
  set_head_path-IsGood x e g = go e.paths refl
    where
      go :
          (ps : List (RoutePath D))
          → e.paths ≡ ps
          → IsGood (set_head_path (set_fpt x) e) × IsGood (set_head_path (set_path_expire x) e)
      go [] q = ground arith
      go (p ∷ ps) q = ground arith

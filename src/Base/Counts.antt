-- ===== src/Base/Counts.antt =====
-- How many elements of a list pass a test.
use Prim.Native.Nat.{ℕ, ◌+◌, ◌≤◌}
use mathlib.Core.Path.{◌≡◌}
use mathlib.Core.Bool.{Bool}
use mathlib.Core.List.{List, [], ◌∷◌, ◌++◌}
use mathlib.Core.Option.{some}
use native.Mathlib.Omega.{arith}
use ns2_te_aomdv.Base.Tests.{if◌then◌else◌}
use ns2_te_aomdv.Base.Lists.{find, remove_first}

module _ {ℓ} {A : Type ℓ} (p : A → Bool) where
  abbrev pub count : List A → ℕ
  count [] = 0
  count (x ∷ xs) = (if p x then 1 else 0) + count xs

  pub count-append : (xs ys : List A) → count (xs ++ ys) ≡ count xs + count ys
  count-append [] ys = omega arith
  count-append (x ∷ xs) ys = omega (arith, count-append xs ys)

  pub count-remove_first : (q : A → Bool) (xs : List A) → count (remove_first q xs) ≤ count xs
  count-remove_first q [] = omega arith
  count-remove_first q (x ∷ xs) = ground (arith, count-remove_first q xs)

  -- An element that is found is counted once less when it is removed.
  pub count-find :
      (q : A → Bool) (xs : List A) (x : A)
      → find q xs ≡ some x
      → count (remove_first q xs) + (if p x then 1 else 0) ≡ count xs
  count-find q [] x h = cc
  count-find q (y ∷ xs) x h = ground (arith, count-find q xs x)

-- ===== src/Base/Lists.antt =====
-- Lists measured by native numbers, Boolean searches in them, and predicates by recursion.
use Prim.Native.Nat.{ℕ, suc, ◌+◌, ◌≤◌}
use mathlib.Core.Path.{◌≡◌, refl}
use mathlib.Core.Bool.{Bool, true, false, not}
use mathlib.Core.List.{List, [], ◌∷◌, ◌++◌}
use mathlib.Core.Option.{Option, none, some}
use native.Mathlib.Omega.{arith}
use ns2_te_aomdv.Base.Tests.{if◌then◌else◌, Bool-cases}
use mathlib.Core.Logic.{inl, inr}

module _ {ℓ} {A : Type ℓ} where
  abbrev pub length : List A → ℕ
  length [] = 0
  length (x ∷ xs) = suc (length xs)

  pub length-append : (xs ys : List A) → length (xs ++ ys) ≡ length xs + length ys
  length-append [] ys = omega arith
  length-append (x ∷ xs) ys = omega (arith, length-append xs ys)

  -- The first element that passes the test.
  abbrev pub find : (A → Bool) → List A → Option A
  find p [] = none
  find p (x ∷ xs) = if p x then some x else find p xs

  -- The elements that pass the test.
  abbrev pub keep : (A → Bool) → List A → List A
  keep p [] = []
  keep p (x ∷ xs) = if p x then x ∷ keep p xs else keep p xs

  -- The list without the first element that passes the test.
  abbrev pub remove_first : (A → Bool) → List A → List A
  remove_first p [] = []
  remove_first p (x ∷ xs) = if p x then xs else x ∷ remove_first p xs

  -- The list with the first element that passes the test replaced by its image.
  abbrev pub update_first : (A → Bool) → (A → A) → List A → List A
  update_first p f [] = []
  update_first p f (x ∷ xs) = if p x then f x ∷ xs else x ∷ update_first p f xs

  abbrev pub update_head : (A → A) → List A → List A
  update_head f [] = []
  update_head f (x ∷ xs) = f x ∷ xs

  abbrev pub any : (A → Bool) → List A → Bool
  any p [] = false
  any p (x ∷ xs) = if p x then true else any p xs

  abbrev pub is_some : Option A → Bool
  is_some none = false
  is_some (some a) = true

  abbrev pub All {κ} : (A → Type κ) → List A → Type κ
  All P [] = Unit
  All P (x ∷ xs) = P x × All P xs

  pub length-keep-le : (p : A → Bool) (xs : List A) → length (keep p xs) ≤ length xs
  length-keep-le p [] = omega arith
  length-keep-le p (x ∷ xs) = ground (arith, length-keep-le p xs)

  -- What a test removes, and what is left.
  pub length-remove_first :
      (p : A → Bool) (xs : List A) → any p xs ≡ true → suc (length (remove_first p xs)) ≡ length xs
  length-remove_first p [] h = cc
  length-remove_first p (x ∷ xs) h = ground (arith, length-remove_first p xs)

  pub remove_first-none : (p : A → Bool) (xs : List A) → any p xs ≡ false → remove_first p xs ≡ xs
  remove_first-none p [] h = refl
  remove_first-none p (x ∷ xs) h = ground (arith, remove_first-none p xs)

  pub keep-all : (p : A → Bool) (xs : List A) → any p xs ≡ false → keep (λ x. not (p x)) xs ≡ xs
  keep-all p [] h = refl
  keep-all p (x ∷ xs) h = ground (arith, keep-all p xs)

  keep-keep : (p : A → Bool) (xs : List A) → keep p (keep p xs) ≡ keep p xs
  keep-keep p [] = refl
  keep-keep p (x ∷ xs) = ground (arith, keep-keep p xs)

  pub keep-remove_first :
      (p : A → Bool) (xs : List A)
      → keep (λ x. not (p x)) (remove_first p xs) ≡ keep (λ x. not (p x)) xs
  keep-remove_first p [] = refl
  keep-remove_first p (x ∷ xs) = ground (arith, keep-remove_first p xs)

  -- What is kept by a test is kept again once an element was taken out.
  pub keep-remove_first-keep :
      (q p : A → Bool) (xs : List A)
      → keep q (remove_first p (keep q xs)) ≡ remove_first p (keep q xs)
  keep-remove_first-keep q p [] = refl
  keep-remove_first-keep q p (x ∷ xs) =
      ground (arith, keep-remove_first-keep q p xs, keep-keep q xs)

  -- The first element that is kept, and the rest.
  pub keep-find :
      (p : A → Bool) (xs : List A) (x : A)
      → find p xs ≡ some x
      → keep p xs ≡ x ∷ keep p (remove_first p xs)
  keep-find p [] x h = cc
  keep-find p (y ∷ xs) x h = ground (arith, keep-find p xs x)

  pub keep-nil : (p : A → Bool) (xs : List A) → find p xs ≡ none → keep p xs ≡ []
  keep-nil p [] h = refl
  keep-nil p (x ∷ xs) h = ground (arith, keep-nil p xs)

  pub find-any : (p : A → Bool) (xs : List A) → is_some (find p xs) ≡ any p xs
  find-any p [] = refl
  find-any p (x ∷ xs) = ground (arith, find-any p xs)

  pub find-passes : (p : A → Bool) (xs : List A) (x : A) → find p xs ≡ some x → p x ≡ true
  find-passes p [] x h = cc
  find-passes p (y ∷ xs) x h = ground (arith, find-passes p xs x)

  pub find-none : (p : A → Bool) (xs : List A) → any p xs ≡ false → find p xs ≡ none
  find-none p [] h = refl
  find-none p (x ∷ xs) h = ground (arith, find-none p xs)

  pub length-update_first :
      (p : A → Bool) (f : A → A) (xs : List A) → length (update_first p f xs) ≡ length xs
  length-update_first p f [] = refl
  length-update_first p f (x ∷ xs) = ground (arith, length-update_first p f xs)

module _ {ℓ κ} {A : Type ℓ} (P : A → Type κ) where
  pub All-append : (xs ys : List A) → All P xs → All P ys → All P (xs ++ ys)
  All-append [] ys h k = k
  All-append (x ∷ xs) ys h k = (h.0, All-append xs ys h.1 k)

  pub All-remove_first : (p : A → Bool) (xs : List A) → All P xs → All P (remove_first p xs)
  All-remove_first p [] h = tt
  All-remove_first p (x ∷ xs) h = ground (arith, All-remove_first p xs h.1)

  pub All-keep : (p : A → Bool) (xs : List A) → All P xs → All P (keep p xs)
  All-keep p [] h = tt
  All-keep p (x ∷ xs) h = ground (arith, All-keep p xs h.1)

  -- The first element that passes a test has what all have.
  pub All-find : (p : A → Bool) (xs : List A) (x : A) → All P xs → find p xs ≡ some x → P x
  All-find p [] x h e = cc
  All-find p (y ∷ xs) x h e = ground (arith, All-find p xs x h.1)

  pub All-update_first :
      (p : A → Bool) (f : A → A) (xs : List A)
      → ((x : A) → P x → P (f x))
      → All P xs
      → All P (update_first p f xs)
  All-update_first p f [] k h = tt
  All-update_first p f (x ∷ xs) k h = ground (arith, k x h.0, All-update_first p f xs k h.1)

  -- Only the element that is found has to be kept.
  pub All-update_found :
      (p : A → Bool) (f : A → A) (xs : List A)
      → ((x : A) → find p xs ≡ some x → P x → P (f x))
      → All P xs
      → All P (update_first p f xs)
  All-update_found p f [] k h = tt
  All-update_found p f (x ∷ xs) k h = elim (Bool-cases (p x)) [
    | inl hit ↦ rw hit (k x (rw hit) h.0, h.1)
    | inr miss ↦ rw miss (h.0, All-update_found p f xs (λ y e. k y (rw miss e)) h.1)
  ]

module _ {ℓ κ} {A : Type ℓ} {P Q : A → Type κ} where
  pub All-map : ((x : A) → P x → Q x) → (xs : List A) → All P xs → All Q xs
  All-map f [] h = tt
  All-map f (x ∷ xs) h = (f x h.0, All-map f xs h.1)

module _ {ℓ} {A : Type ℓ} where
  -- A second update of the same element, and the look at an updated one.
  pub update_first-update_first :
      (p : A → Bool) (f g : A → A) (xs : List A)
      → ((x : A) → p x ≡ true → p (f x) ≡ true)
      → update_first p g (update_first p f xs) ≡ update_first p (λ x. g (f x)) xs
  update_first-update_first p f g [] k = refl
  update_first-update_first p f g (x ∷ xs) k =
      ground (arith, k x, update_first-update_first p f g xs k)

  pub find-update_first :
      (p : A → Bool) (f : A → A) (xs : List A) (x : A)
      → ((x : A) → p x ≡ true → p (f x) ≡ true)
      → find p xs ≡ some x
      → find p (update_first p f xs) ≡ some (f x)
  find-update_first p f [] x k h = cc
  find-update_first p f (y ∷ xs) x k h = ground (arith, k y, find-update_first p f xs x k)

  pub find-update_none :
      (p : A → Bool) (f : A → A) (xs : List A)
      → find p xs ≡ none
      → find p (update_first p f xs) ≡ none
  find-update_none p f [] h = refl
  find-update_none p f (x ∷ xs) h = ground (arith, find-update_none p f xs)

-- ===== src/Base/Keys.antt =====
-- Lists in which no key stands twice.
use Prim.Native.Nat.{ℕ}
use mathlib.Core.Path.{◌≡◌, refl, sym, subst}
use mathlib.Core.Logic.{◌≢◌, inl, inr}
use mathlib.Core.Bool.{Bool}
use mathlib.Core.Option.{none, some}
use mathlib.Core.List.{List, [], ◌∷◌, map}
use native.Mathlib.Omega.{arith}
use ns2_te_aomdv.Base.Tests.{◌==◌, Bool-cases}
use ns2_te_aomdv.Base.Lists.{All, All-remove_first, find, update_first, remove_first}

module _ {ℓ} {A : Type ℓ} (key : A → ℕ) where
  abbrev pub has_key : ℕ → A → Bool
  has_key id x = key x == id

  abbrev pub IsDistinct : List A → Type 0
  IsDistinct [] = Unit
  IsDistinct (x ∷ xs) = All (λ y. key y ≢ key x) xs × IsDistinct xs

  -- A write that keeps the key of what is found by it.
  abbrev pub KeepsKey : ℕ → (A → A) → Type ℓ
  KeepsKey id f = (x : A) → key x ≡ id → key (f x) ≡ id

  pub ne_of_none : (id : ℕ) (xs : List A) → find (has_key id) xs ≡ none → All (λ y. key y ≢ id) xs
  ne_of_none id [] h = tt
  ne_of_none id (x ∷ xs) h = ground (arith, ne_of_none id xs)

  pub none_of_ne : (id : ℕ) (xs : List A) → All (λ y. key y ≢ id) xs → find (has_key id) xs ≡ none
  none_of_ne id [] h = refl
  none_of_ne id (x ∷ xs) h = ground (arith, none_of_ne id xs h.1)

  pub find-key : (id : ℕ) (xs : List A) (x : A) → find (has_key id) xs ≡ some x → key x ≡ id
  find-key id [] x h = cc
  find-key id (y ∷ xs) x h = ground (arith, find-key id xs x)

  update_first-ne :
      (id k : ℕ) (f : A → A) (xs : List A)
      → KeepsKey k f
      → All (λ y. key y ≢ id) xs
      → All (λ y. key y ≢ id) (update_first (has_key k) f xs)
  update_first-ne id k f [] keeps h = tt
  update_first-ne id k f (x ∷ xs) keeps h =
      ground (arith, keeps x, update_first-ne id k f xs keeps h.1)

  pub update_first-IsDistinct :
      (k : ℕ) (f : A → A) (xs : List A)
      → KeepsKey k f
      → IsDistinct xs
      → IsDistinct (update_first (has_key k) f xs)
  update_first-IsDistinct k f [] keeps u = tt
  update_first-IsDistinct k f (x ∷ xs) keeps u = elim (Bool-cases (has_key k x)) [
    | inl hit ↦
        let at : key x ≡ k = ground arith in
        let same : key (f x) ≡ key x = cc (keeps x at) in
        rw hit (subst (λ d. All (λ y. key y ≢ d) xs) (sym same) u.0, u.1)
    | inr miss ↦
        rw miss (update_first-ne (key x) k f xs keeps u.0, update_first-IsDistinct k f xs keeps u.1)
  ]

  pub remove_first-IsDistinct :
      (k : ℕ) (xs : List A) → IsDistinct xs → IsDistinct (remove_first (has_key k) xs)
  remove_first-IsDistinct k [] u = tt
  remove_first-IsDistinct k (x ∷ xs) u = ground (
    arith,
    remove_first-IsDistinct k xs u.1,
    All-remove_first (λ y. key y ≢ key x) (has_key k) xs u.0,
  )

  -- Two lists with the same keys in the same order.
  abbrev pub SameKeys : List A → List A → Type 0
  SameKeys xs ys = ◌≡◌ {A = List ℕ} (map key xs) (map key ys)

  keys-ne :
      (id : ℕ) (xs ys : List A)
      → SameKeys xs ys
      → All (λ y. key y ≢ id) xs
      → All (λ y. key y ≢ id) ys
  keys-ne id [] [] same h = tt
  keys-ne id [] (y ∷ ys) same h = cc
  keys-ne id (x ∷ xs) [] same h = cc
  keys-ne id (x ∷ xs) (y ∷ ys) same h = ground (arith, keys-ne id xs ys)

  pub SameKeys-IsDistinct : (xs ys : List A) → SameKeys xs ys → IsDistinct xs → IsDistinct ys
  SameKeys-IsDistinct [] [] same u = tt
  SameKeys-IsDistinct [] (y ∷ ys) same u = cc
  SameKeys-IsDistinct (x ∷ xs) [] same u = cc
  SameKeys-IsDistinct (x ∷ xs) (y ∷ ys) same u =
      let head : key x ≡ key y = cc in
      let tail : SameKeys xs ys = cc in
      (
        subst (λ d. All (λ z. key z ≢ d) ys) head (keys-ne (key x) xs ys tail u.0),
        SameKeys-IsDistinct xs ys tail u.1,
      )

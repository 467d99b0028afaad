-- ===== src/Base/Floats.antt =====
-- What the code does with a `double`: constants, arithmetic and comparisons. The type is a
-- parameter of the development; a decimal constant c is `lit n k`, the value n / k.
use Prim.Native.Nat.{ℕ, ◌+◌, ◌-◌, ◌*◌, ◌/◌}
use mathlib.Core.Bool.{Bool}
use ns2_te_aomdv.Base.Tests.{ltb, leb, if◌then◌else◌}

pub record Double (D : Type 0) : Type 0 where
  pub lit : ℕ → ℕ → D
  pub add : D → D → D
  pub sub : D → D → D
  pub mul : D → D → D
  pub div : D → D → D
  pub fabs : D → D
  pub lt : D → D → Bool
  pub le : D → D → Bool

module _ {D : Type 0} ⦃d : Double D⦄ where
  infixl 65 ◌⊕◌ ◌⊖◌
  infixl 70 ◌⊗◌ ◌⊘◌
  infix 50 ◌≺◌ ◌≼◌
  abbrev pub ◌⊕◌ : D → D → D
  x ⊕ y = d.add x y

  abbrev pub ◌⊖◌ : D → D → D
  x ⊖ y = d.sub x y

  abbrev pub ◌⊗◌ : D → D → D
  x ⊗ y = d.mul x y

  abbrev pub ◌⊘◌ : D → D → D
  x ⊘ y = d.div x y

  abbrev pub ◌≺◌ : D → D → Bool
  x ≺ y = d.lt x y

  abbrev pub ◌≼◌ : D → D → Bool
  x ≼ y = d.le x y

  -- `std::min`.
  abbrev pub min_d : D → D → D
  min_d a b = if b ≺ a then b else a

  -- The macro `max` of teaomdv.cc.
  abbrev pub max_d : D → D → D
  max_d a b = if b ≺ a then a else b

-- An instance for concrete inputs: ten-thousandths, with no negative values.
instance abbrev pub fixed_double : Double ℕ
fixed_double = record {
  lit = λ n k. n * 10_000 / k;
  add = λ x y. x + y;
  sub = λ x y. x - y;
  mul = λ x y. x * y / 10_000;
  div = λ x y. x * 10_000 / y;
  fabs = λ x. x;
  lt = ltb;
  le = leb;
}

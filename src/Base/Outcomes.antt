-- ===== src/Base/Outcomes.antt =====
-- Results of code that can stop the process: a value, or the reason for the stop.
use mathlib.Core.Bool.{Bool, true, false}

-- A failed `assert`, a use of a null pointer or of one to a freed object, a write outside an array,
-- `exit(1)`, and a loop of the model whose fuel ran out.
pub data Fault : Type 0 where
  assert_failed null_pointer dangling_pointer out_of_bounds exits no_fuel : Fault

pub data Outcome (A : Type 0) : Type 0 where
  done : A → Outcome A
  crash : Fault → Outcome A

abbrev pub and_then : {A B : Type 0} → Outcome A → (A → Outcome B) → Outcome B
and_then (done a) f = f a
and_then (crash e) f = crash e

abbrev pub on_done : {A B : Type 0} → (A → B) → Outcome A → Outcome B
on_done f (done a) = done (f a)
on_done f (crash e) = crash e

-- `assert (b)` before a value.
abbrev pub asserting : {A : Type 0} → Bool → A → Outcome A
asserting true a = done a
asserting false a = crash assert_failed

-- What is computed has the property `R`, unless it stops.
abbrev pub Yields : {A : Type 0} → (A → Type 0) → Outcome A → Type 0
Yields R (done a) = R a
Yields R (crash e) = Unit {0}

pub and_then-Yields :
    {A B : Type 0} (Q : A → Type 0) (R : B → Type 0) (o : Outcome A) (f : A → Outcome B)
    → Yields Q o
    → ((a : A) → Q a → Yields R (f a))
    → Yields R (and_then o f)
and_then-Yields Q R (done a) f h k = k a h
and_then-Yields Q R (crash e) f h k = tt

pub asserting-Yields :
    {A : Type 0} (R : A → Type 0) (b : Bool) (a : A) → R a → Yields R (asserting b a)
asserting-Yields R true a h = h
asserting-Yields R false a h = tt

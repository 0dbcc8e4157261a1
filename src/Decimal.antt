-- ===== src/Decimal.antt =====
-- Python's `decimal.Decimal`, as the execution code uses it, and `float`, as the backtests do. The
-- arithmetic of both rounds, the first to the precision of a context that the program leaves to the
-- interpreter, so it is an interface here: `Arith` has the operations, `Exact` the laws of exact
-- sums that single theorems assume, and Decimal/Float what relates floats to integers.
pub mod Fixed
pub mod Float
use q_backend.Prelude.{ℕ, ◌≡◌, Bool, ◌||◌, Option, none, some, if◌then◌else◌}
use q_backend.Prelude.Int.{ℤ, pos, ◌+ℤ◌, ◌-ℤ◌, ltb_ℤ, eqb_ℤ}

-- The operations on finite numbers of the carrier `D`; `lit n` is `Decimal("n")` or the float n.0.
pub record Arith (D : Type 0) : Type 0 where
  pub lit : ℕ → D
  pub add : D → D → D
  pub sub : D → D → D
  pub mul : D → D → D
  pub div : D → D → D
  pub rem : D → D → D
  pub neg : D → D
  pub is_lt : D → D → Bool
  pub is_eq : D → D → Bool

module _ {D : Type 0} ⦃a : Arith D⦄ where
  infixl 65 ◌⊕◌ ◌⊖◌
  infixl 70 ◌⊗◌ ◌⊘◌
  infix 50 ◌<?◌ ◌≤?◌ ◌=?◌
  abbrev pub ◌⊕◌ : D → D → D
  ◌⊕◌ = a.add

  abbrev pub ◌⊖◌ : D → D → D
  ◌⊖◌ = a.sub

  abbrev pub ◌⊗◌ : D → D → D
  ◌⊗◌ = a.mul

  abbrev pub ◌⊘◌ : D → D → D
  ◌⊘◌ = a.div

  abbrev pub ◌<?◌ : D → D → Bool
  ◌<?◌ = a.is_lt

  abbrev pub ◌=?◌ : D → D → Bool
  ◌=?◌ = a.is_eq

  abbrev pub ◌≤?◌ : D → D → Bool
  x ≤? y = a.is_lt x y || a.is_eq x y

  abbrev pub dec : ℕ → D
  dec = a.lit

  abbrev pub negate : D → D
  negate = a.neg

  -- Python's `min(x, y)` keeps the first of two equal values.
  abbrev pub dec_min : D → D → D
  dec_min x y = if y <? x then y else x

  -- Python's `max(x, y)` keeps the first of two equal values.
  abbrev pub dec_max : D → D → D
  dec_max x y = if x <? y then y else x

  -- `value or default`: `None` and zero are both false.
  abbrev pub or_default : Option D → D → D
  or_default none d = d
  or_default (some x) d = if x =? dec 0 then d else x

-- Sums, differences and comparisons are those of the integers that the decimals stand for, in units
-- of the last decimal place. It holds while no sum needs more digits than the context has.
pub record Exact {D : Type 0} (a : Arith D) : Type 0 where
  pub value : D → ℤ
  pub value-zero : value (a.lit 0) ≡ pos 0
  pub value-add : (x y : D) → value (a.add x y) ≡ value x +ℤ value y
  pub value-sub : (x y : D) → value (a.sub x y) ≡ value x -ℤ value y
  pub value-neg : (x : D) → value (a.neg x) ≡ pos 0 -ℤ value x
  pub lt-value : (x y : D) → a.is_lt x y ≡ ltb_ℤ (value x) (value y)
  pub eq-value : (x y : D) → a.is_eq x y ≡ eqb_ℤ (value x) (value y)

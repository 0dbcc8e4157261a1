-- ===== src/Decimal/Float.antt =====
-- Python's conversions between finite `float`s and integers, and what they promise.
use q_backend.Prelude.{ℕ, ◌≡◌, ◌^◌, ◌-◌, false}
use q_backend.Prelude.Int.{ℤ, pos, negsuc, ◌≤ℤ◌, ltb_ℤ, eqb_ℤ}
use q_backend.Decimal.{Arith}

-- `math.floor`, `int` (which cuts towards zero), `float`, and the `int` of compiled code, which is a
-- conversion to 64 bits.
pub record Rounding (D : Type 0) : Type 0 where
  pub floor : D → ℤ
  pub trunc : D → ℤ
  pub float : ℤ → D
  pub int64 : D → ℤ

-- Up to here every integer is a float.
abbrev pub exact_limit : ℕ
exact_limit = 2 ^ 53

abbrev pub int64_max : ℕ
int64_max = 2 ^ 63 - 1

abbrev pub IsInt64 : ℤ → Type 0
IsInt64 n = (negsuc int64_max ≤ℤ n) × (n ≤ℤ pos int64_max)

module _ {D : Type 0} ⦃r : Rounding D⦄ where
  abbrev pub floor : D → ℤ
  floor = r.floor

  abbrev pub trunc : D → ℤ
  trunc = r.trunc

  abbrev pub float : ℤ → D
  float = r.float

  abbrev pub int64 : D → ℤ
  int64 = r.int64

-- Finite floats are whole multiples of the smallest one, `value` of them, and compare as these do.
pub record Ordered {D : Type 0} (a : Arith D) : Type 0 where
  pub value : D → ℤ
  pub lt-value : (x y : D) → a.is_lt x y ≡ ltb_ℤ (value x) (value y)
  pub eq-value : (x y : D) → a.is_eq x y ≡ eqb_ℤ (value x) (value y)

-- The conversions: `float(n)` keeps the order and the sign of n and, where it is exact, is undone by
-- `int`; that of compiled code is the same as long as the result fits, and otherwise whatever the
-- machine makes of it; `floor` does not round up, and is `int` where the number is not negative. A product
-- with a factor from 0 to 1 is at most the other factor, where that is not negative.
pub record Rounded {D : Type 0} (a : Arith D) (r : Rounding D) (o : Ordered a) : Type 0 where
  pub float-zero : r.float (pos 0) ≡ a.lit 0
  pub float_mono : (m n : ℤ) → m ≤ℤ n → o.value (r.float m) ≤ℤ o.value (r.float n)
  pub float-positive : (n : ℤ) → a.is_lt (a.lit 0) (r.float n) ≡ ltb_ℤ (pos 0) n
  pub trunc-float : (n : ℤ) → pos 0 ≤ℤ n → n ≤ℤ pos exact_limit → r.trunc (r.float n) ≡ n
  pub int64-trunc : (x : D) → IsInt64 (r.trunc x) → r.int64 x ≡ r.trunc x
  pub floor_le : (x : D) → o.value (r.float (r.floor x)) ≤ℤ o.value x
  pub floor-trunc : (x : D) → a.is_lt x (a.lit 0) ≡ false → r.trunc x ≡ r.floor x
  pub mul_le :
      (x y : D)
      → o.value (a.lit 0) ≤ℤ o.value x
      → o.value (a.lit 0) ≤ℤ o.value y
      → o.value y ≤ℤ o.value (a.lit 1)
      → o.value (a.mul x y) ≤ℤ o.value x

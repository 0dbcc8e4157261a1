-- ===== src/Decimal/Fixed.antt =====
-- A concrete arithmetic for examples: decimals as whole numbers of units, with exact sums and
-- products and a quotient that is cut towards zero.
use q_backend.Prelude.{◌≡◌, ◌||◌, if◌then◌else◌, ℕ, zero, suc, arith, ◌+◌, ◌*◌, ◌/◌, ◌%◌, refl}
use q_backend.Prelude.Int.{
  ℤ, pos, negsuc, ◌≤ℤ◌, pos_part, neg_part, sub_ℕ, ◌+ℤ◌, ◌-ℤ◌, ltb_ℤ, eqb_ℤ,
}
use q_backend.Decimal.{Arith, Exact}
use q_backend.Decimal.Float.{int64_max, IsInt64, Rounding, Ordered, Rounded}

abbrev magnitude : ℤ → ℕ
magnitude a = pos_part a + neg_part a

abbrev mul : ℤ → ℤ → ℤ
mul a b =
    sub_ℕ (pos_part a * pos_part b + neg_part a * neg_part b)
      (pos_part a * neg_part b + neg_part a * pos_part b)

abbrev div : ℤ → ℤ → ℤ
div (pos n) (pos m) = pos (n / m)
div (pos n) m = sub_ℕ 0 (n / magnitude m)
div n (pos m) = sub_ℕ 0 (magnitude n / m)
div n m = pos (magnitude n / magnitude m)

abbrev rem : ℤ → ℤ → ℤ
rem (pos n) m = pos (n % magnitude m)
rem n m = sub_ℕ 0 (magnitude n % magnitude m)

abbrev pub fixed : Arith ℤ
fixed = record {
  lit = pos;
  add = ◌+ℤ◌;
  sub = ◌-ℤ◌;
  mul = mul;
  div = div;
  rem = rem;
  neg = λ a. pos 0 -ℤ a;
  is_lt = ltb_ℤ;
  is_eq = eqb_ℤ;
}

abbrev pub fixed-Exact : Exact fixed
fixed-Exact = record {
  value = λ a. a;
  value-zero = refl;
  value-add = λ a b. refl;
  value-sub = λ a b. refl;
  value-neg = λ a. refl;
  lt-value = λ a b. refl;
  eq-value = λ a b. refl;
}

-- What does not fit becomes the least integer, as on x86.
abbrev pub machine_int : ℤ → ℤ
machine_int a =
    if ltb_ℤ a (negsuc int64_max) || ltb_ℤ (pos int64_max) a then negsuc int64_max else a

pub machine_int-fits : (a : ℤ) → IsInt64 a → machine_int a ≡ a
machine_int-fits a (low, high) = ground (arith, low, high)

abbrev pub fixed_rounding : Rounding ℤ
fixed_rounding = record { floor = λ a. a; trunc = λ a. a; float = λ a. a; int64 = machine_int }

abbrev pub fixed-Ordered : Ordered fixed
fixed-Ordered = record { value = λ a. a; lt-value = λ a b. refl; eq-value = λ a b. refl }

pub mul_le_self : (x y : ℤ) → pos 0 ≤ℤ x → pos 0 ≤ℤ y → y ≤ℤ pos 1 → mul x y ≤ℤ x
mul_le_self x (pos zero) h f g = ground arith
mul_le_self x (pos (suc zero)) h f g = ground arith
mul_le_self x (pos (suc (suc n))) h f g = absurd (omega (arith, g))
mul_le_self x (negsuc n) h f g = absurd (omega (arith, f))

abbrev pub fixed-Rounded : Rounded fixed fixed_rounding fixed-Ordered
fixed-Rounded = record {
  float-zero = refl;
  float_mono = λ m n h. h;
  float-positive = λ n. refl;
  trunc-float = λ n h k. refl;
  int64-trunc = machine_int-fits;
  floor_le = λ x. omega arith;
  floor-trunc = λ x h. refl;
  mul_le = mul_le_self;
}

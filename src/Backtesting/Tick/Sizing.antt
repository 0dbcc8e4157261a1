-- ===== src/Backtesting/Tick/Sizing.antt =====
-- The kernel's quantity against that of the sizers of the candle engine.
use q_backend.Prelude.{
  ◌≡◌, ◌≢◌, ◌∙◌, ap, Bool, true, false, Option, none, some, Bool-cases, inl, inr, arith,
}
use q_backend.Prelude.Int.{ℤ, pos, ◌≤ℤ◌, ltb_ℤ, eq_of_parts}
use q_backend.Decimal.{Arith, dec, ◌⊘◌, ◌<?◌}
use q_backend.Decimal.Float.{Rounding, Ordered, Rounded, floor, float, int64, exact_limit, IsInt64}
use q_backend.Backtesting.PositionSizing.{FixedSafetyMarginSizer, capped, max_below_min}
use q_backend.Backtesting.PositionSizing.FixedSafetyMargin
use q_backend.Backtesting.PositionSizing.Bounds.{new-low}
use q_backend.Backtesting.PositionSizing.Build.{PositionSizingConfig}
use q_backend.Backtesting.Tick.Orders.{SizingParams, max_as_float, kernel_sizing_params}
use q_backend.Backtesting.Tick.Kernel.{compute_quantity, cap_contracts, at_least}

module _ {D : Type 0} ⦃a : Arith D⦄ ⦃r : Rounding D⦄ (o : Ordered a) (laws : Rounded a r o) where
  -- The kernel reads back the integers that it is handed as floats.
  int64-float : (n : ℤ) → pos 0 ≤ℤ n → n ≤ℤ pos exact_limit → int64 (float {D = D} n) ≡ n
  int64-float n h k =
      let back = laws.trunc-float n h k in
      laws.int64-trunc (float n) (rw back (omega arith, omega (arith, k))) ∙ back

  -- A maximum that is there is a float.
  abbrev pub IsExactMax : Option ℤ → Type 0
  IsExactMax none = Unit
  IsExactMax (some high) = high ≤ℤ pos exact_limit

  cap_contracts-capped :
      (high : Option ℤ) (low n : ℤ)
      → high ≢ some (pos 0)
      → IsExactMax high
      → ltb_ℤ low (pos 0) ≡ false
      → max_below_min high low ≡ false
      → cap_contracts {D = D} (max_as_float high) n ≡ capped high n
  unfolding max_below_min
  cap_contracts-capped none low n ne exact h m = ground (arith, o.lt-value (dec 0) (dec 0))
  cap_contracts-capped (some high) low n ne exact h m =
      let nonneg : pos 0 ≤ℤ high = ground arith in
      let positive : ltb_ℤ (pos 0) high ≡ true = elim (Bool-cases (ltb_ℤ (pos 0) high)) [
        | inl is_positive ↦ is_positive
        | inr not_positive ↦ absurd (ne (ap some (eq_of_parts high (pos 0) (ground arith))))
      ] in
      ground (arith, laws.float-positive high, int64-float high nonneg exact, positive)

  at_least-floored :
      (low n : ℤ) → ◌≡◌ {A = D} (at_least low n) (float (FixedSafetyMargin.floored low n))
  at_least-floored low n = ground (arith, laws.float-zero)

  new-fields :
      (margin : D) (high : Option ℤ) (low : ℤ) (scale : Bool) (s : FixedSafetyMarginSizer D)
      → FixedSafetyMargin.new margin high low scale ≡ inr s
      → (s.safety_margin_per_contract ≡ margin) × (s.max_contracts ≡ high) × (s.min_contracts ≡ low)
  unfolding FixedSafetyMargin.new
  new-fields margin high low scale s made = (ground arith, ground arith, ground arith)

  -- The arithmetic of the kernel and that of the sizer.
  at_least-target :
      (margin capital : D) (high : Option ℤ) (low : ℤ) (scale : Bool) (s : FixedSafetyMarginSizer D)
      → FixedSafetyMargin.new margin high low scale ≡ inr s
      → (capital ⊘ margin <? dec 0) ≡ false
      → IsInt64 (floor (capital ⊘ margin))
      → high ≢ some (pos 0)
      → IsExactMax high
      → low ≤ℤ pos exact_limit
      → ◌≡◌ {A = D}
          (at_least
            (int64 (float {D = D} low))
            (cap_contracts {D = D} (max_as_float high) (int64 (capital ⊘ margin))))
          (float (FixedSafetyMargin.target_contracts s capital))
  unfolding FixedSafetyMargin.target_contracts
  at_least-target margin capital high low scale s made sign fits ne exact exact_low =
      let (same_margin, same_high, same_low) = new-fields margin high low scale s made in
      let (sound_low, sound_high) = new-low margin high low scale s made in
      let affordable = floor (capital ⊘ margin) in
      let cut = laws.floor-trunc (capital ⊘ margin) sign in
      rw
        (
          int64-float low (ground arith) exact_low,
          laws.int64-trunc (capital ⊘ margin) (rw cut fits),
          cut,
          same_margin,
          same_high,
          same_low,
          cap_contracts-capped high low affordable ne exact (ground arith) (ground arith),
        )
        (at_least-floored low (capped high affordable))

  params-fields :
      (margin : D) (high : Option ℤ) (low : ℤ) (scale : Bool) (p : SizingParams D)
      → kernel_sizing_params (PositionSizingConfig.fixed_safety_margin margin low high scale)
        ≡ some p
      → (p.sizing_mode ≡ 1)
        × (p.sizing_a ≡ margin)
        × (p.sizing_b ≡ float low)
        × (p.sizing_c ≡ max_as_float high)
  unfolding kernel_sizing_params
  params-fields margin high low scale p reduced =
      (ground arith, ground arith, ground arith, ground arith)

  -- For a configuration of the safety margin, the kernel trades the contracts of the candle engine's
  -- sizer, where the capital is not negative in units of the margin and the contracts that it pays
  -- for fit into 64 bits, the minimum and the maximum are at most 2 ^ 53, the maximum, if there is
  -- one, is not 0, and floats keep their promises.
  pub compute_quantity-target_contracts :
      (margin capital : D) (high : Option ℤ) (low : ℤ) (scale : Bool) (s : FixedSafetyMarginSizer D)
      (p : SizingParams D)
      → FixedSafetyMargin.new margin high low scale ≡ inr s
      → kernel_sizing_params (PositionSizingConfig.fixed_safety_margin margin low high scale)
        ≡ some p
      → (capital ⊘ margin <? dec 0) ≡ false
      → IsInt64 (floor (capital ⊘ margin))
      → high ≢ some (pos 0)
      → IsExactMax high
      → low ≤ℤ pos exact_limit
      → compute_quantity capital p ≡ float (FixedSafetyMargin.target_contracts s capital)
  unfolding compute_quantity kernel_sizing_params
  compute_quantity-target_contracts margin capital high low scale s p made reduced sign fits ne
        exact exact_low =
      let (mode, margin_of, low_of, high_of) = params-fields margin high low scale p reduced in
      rw (mode, margin_of, low_of, high_of)
        (at_least-target margin capital high low scale s made sign fits ne exact exact_low)

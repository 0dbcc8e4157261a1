-- ===== src/Backtesting/PositionSizing/Bounds.antt =====
-- What the constructors refuse, and how many contracts a margin pays for.
use q_backend.Prelude.{
  ◌≡◌, refl, ap, inl, inr, ◌⊎◌, Bool, ◌&&◌, true, false, Bool-cases, Option, none, some, arith,
}
use q_backend.Prelude.Int.{ℤ, pos, ◌≤ℤ◌, ltb_ℤ, eqb_ℤ}
use q_backend.Decimal.{Arith, dec, ◌⊘◌, ◌<?◌, ◌≤?◌}
use q_backend.Decimal.Float.{Rounding, Ordered, floor}
use q_backend.Backtesting.PositionSizing.{
  FixedSafetyMarginSizer, InverseVolatilitySizer, PositionSizer, max_below_min, capped,
}
use q_backend.Backtesting.PositionSizing.FixedSafetyMargin
use q_backend.Backtesting.PositionSizing.InverseVolatility
use q_backend.Backtesting.PositionSizing.Build.{
  PositionSizingConfig, is_valid, max_gte_min, margin_sizer, volatility_sizer, of_margin,
  of_volatility, build_position_sizer,
}

-- A number of contracts, against the maximum and against what the capital pays for.
pub AtMost : Option ℤ → ℤ → Type 0
AtMost none n = Unit
AtMost (some high) n = n ≤ℤ high

-- `n` contracts are at least the minimum and at most the maximum, and the margin is there for all of
-- them, unless they are the minimum and the margin is there for none.
pub IsAllowed : {D : Type 0} → FixedSafetyMarginSizer D → ℤ → ℤ → Type 0
IsAllowed s affordable n =
    (ltb_ℤ (pos 0) n ≡ true)
    × (s.min_contracts ≤ℤ n)
    × AtMost s.max_contracts n
    × ((n ≤ℤ affordable) ⊎ ((n ≡ s.min_contracts) × (affordable ≡ pos 0)))

floored-cases :
    (low quantity : ℤ)
    → (FixedSafetyMargin.floored low quantity ≡ pos 0)
      ⊎ ((ltb_ℤ (pos 0) quantity ≡ true)
          × (low ≤ℤ quantity)
          × (FixedSafetyMargin.floored low quantity ≡ quantity))
      ⊎ ((ltb_ℤ (pos 0) low ≡ true)
          × (quantity ≡ pos 0)
          × (FixedSafetyMargin.floored low quantity ≡ low))
floored-cases low quantity = elim (Bool-cases (ltb_ℤ quantity low)) [
  | inl below ↦ elim (Bool-cases (ltb_ℤ (pos 0) low && eqb_ℤ quantity (pos 0))) [
    | inl both ↦ inr (inr (ground (arith, both), ground (arith, both), ground (arith, below, both)))
    | inr neither ↦ inl (ground (arith, below, neither))
  ]
  | inr above ↦ elim (Bool-cases (ltb_ℤ (pos 0) quantity)) [
    | inl some_ ↦ inr (inl (some_, ground (arith, above), ground (arith, above, some_)))
    | inr none_ ↦ inl (ground (arith, above, none_))
  ]
]

capped-AtMost : (high : Option ℤ) (n : ℤ) → AtMost high (capped high n)
unfolding AtMost
capped-AtMost none n = _
capped-AtMost (some high) n = ground arith

capped-le : (high : Option ℤ) (n : ℤ) → capped high n ≤ℤ n
capped-le none n = ground arith
capped-le (some high) n = ground arith

low-AtMost : (high : Option ℤ) (low : ℤ) → max_below_min high low ≡ false → AtMost high low
unfolding AtMost max_below_min
low-AtMost none low h = _
low-AtMost (some high) low h = ground arith

capped-zero :
    (high : Option ℤ) (low n : ℤ)
    → ltb_ℤ (pos 0) low ≡ true
    → AtMost high low
    → capped high n ≡ pos 0
    → n ≡ pos 0
unfolding AtMost
capped-zero none low n h m e = e
capped-zero (some high) low n h m e = ground arith

module _ {D : Type 0} ⦃a : Arith D⦄ ⦃r : Rounding D⦄ where
  floored-IsAllowed :
      (s : FixedSafetyMarginSizer D) (affordable : ℤ)
      → ltb_ℤ s.min_contracts (pos 0) ≡ false
      → max_below_min s.max_contracts s.min_contracts ≡ false
      → (FixedSafetyMargin.floored s.min_contracts (capped s.max_contracts affordable) ≡ pos 0)
        ⊎ IsAllowed s affordable
            (FixedSafetyMargin.floored s.min_contracts (capped s.max_contracts affordable))
  unfolding IsAllowed
  floored-IsAllowed s affordable h m =
      elim (floored-cases s.min_contracts (capped s.max_contracts affordable)) [
        | inl nothing ↦ inl nothing
        | inr (inl (positive, enough, same)) ↦ inr (
            rw same (
              positive,
              enough,
              capped-AtMost s.max_contracts affordable,
              inl (capped-le s.max_contracts affordable),
            ))
        | inr (inr (positive, empty, same)) ↦ inr (
            rw same (
              positive,
              ground arith,
              low-AtMost s.max_contracts s.min_contracts m,
              inr (
                refl,
                capped-zero s.max_contracts s.min_contracts affordable positive
                    (low-AtMost s.max_contracts s.min_contracts m) empty,
              ),
            ))
      ]

  pub new-low :
      (margin : D) (high : Option ℤ) (low : ℤ) (scale : Bool) (s : FixedSafetyMarginSizer D)
      → FixedSafetyMargin.new margin high low scale ≡ inr s
      → (ltb_ℤ s.min_contracts (pos 0) ≡ false)
        × (max_below_min s.max_contracts s.min_contracts ≡ false)
  unfolding FixedSafetyMargin.new
  new-low margin high low scale s e = (ground arith, ground arith)

  -- The contracts of a sizer that the constructor built are none, or a positive number that is at
  -- least the minimum and at most the maximum, where there is one, and that the capital divided by
  -- the margin, rounded down, pays for; or the minimum, where it pays for exactly none.
  pub target_contracts-IsAllowed :
      (margin capital : D) (high : Option ℤ) (low : ℤ) (scale : Bool) (s : FixedSafetyMarginSizer D)
      → FixedSafetyMargin.new margin high low scale ≡ inr s
      → (FixedSafetyMargin.target_contracts s capital ≡ pos 0)
        ⊎ IsAllowed s
            (floor (capital ⊘ s.safety_margin_per_contract))
            (FixedSafetyMargin.target_contracts s capital)
  unfolding FixedSafetyMargin.target_contracts
  target_contracts-IsAllowed margin capital high low scale s e =
      let (not_negative, ordered) = new-low margin high low scale s e in
      floored-IsAllowed s (floor (capital ⊘ s.safety_margin_per_contract)) not_negative ordered

module _ {D : Type 0} ⦃a : Arith D⦄ ⦃r : Rounding D⦄ (o : Ordered a) where
  lt-not_le : (x : D) → (dec 0 <? x) ≡ true → (x ≤? dec 0) ≡ false
  lt-not_le x h = ground (arith, o.lt-value (dec 0) x, o.lt-value x (dec 0), o.eq-value x (dec 0))

  gte-max_below_min :
      (high : Option ℤ) (low : ℤ) → max_gte_min high low ≡ true → max_below_min high low ≡ false
  unfolding max_below_min
  gte-max_below_min none low h = refl
  gte-max_below_min (some high) low h = ground arith

  margin-new :
      (margin : D) (low : ℤ) (high : Option ℤ) (scale : Bool)
      → is_valid (PositionSizingConfig.fixed_safety_margin margin low high scale) ≡ true
      → (s : FixedSafetyMarginSizer D) × (FixedSafetyMargin.new margin high low scale ≡ inr s)
  unfolding is_valid FixedSafetyMargin.new
  margin-new margin low high scale v = (
    record {
      safety_margin_per_contract = margin;
      max_contracts = high;
      min_contracts = low;
      scale_by_signal_strength = scale;
    },
    ground (arith, v, lt-not_le margin, gte-max_below_min high low),
  )

  volatility-new :
      (target : D) (high : Option ℤ) (low : ℤ) (scale : Bool) (point : D)
      → is_valid (PositionSizingConfig.inverse_volatility target high low scale) ≡ true
      → (dec 0 <? point) ≡ true
      → (s : InverseVolatilitySizer D) × (InverseVolatility.new target point high low scale ≡ inr s)
  unfolding is_valid InverseVolatility.new
  volatility-new target high low scale point v p = (
    record {
      target_volatility_pct = target;
      point_value = point;
      max_contracts = high;
      min_contracts = low;
      scale_by_signal_strength = scale;
    },
    ground (arith, v, lt-not_le target, lt-not_le point p, gte-max_below_min high low),
  )

  -- A valid configuration builds a sizer: no constructor raises, where the point value is positive.
  pub build_position_sizer-inr :
      (config : PositionSizingConfig D) (point : D)
      → is_valid config ≡ true
      → (dec 0 <? point) ≡ true
      → (sizer : PositionSizer D) × (build_position_sizer (some config) point ≡ inr sizer)
  unfolding build_position_sizer
  build_position_sizer-inr (PositionSizingConfig.fixed_quantity quantity scale) point v p =
      (_, refl)
  build_position_sizer-inr (PositionSizingConfig.fixed_safety_margin margin low high scale) point v
        p =
      let (s, made) = margin-new margin low high scale v in (margin_sizer s, ap of_margin made)
  build_position_sizer-inr (PositionSizingConfig.inverse_volatility target high low scale) point v
        p =
      let (s, made) = volatility-new target high low scale point v p in
      (volatility_sizer s, ap of_volatility made)

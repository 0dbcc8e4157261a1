-- ===== src/Backtesting/PositionSizing/Within.antt =====
-- The order that a sizer makes is within the largest position it permits.
use q_backend.Prelude.{
  ◌≡◌, refl, ap, ◌∙◌, subst, inl, inr, ◌⊎◌, Bool, true, false, Option, some, Option-cases, ℕ, arith,
}
use q_backend.Prelude.Int.{ℤ, pos, ◌≤ℤ◌, ltb_ℤ}
use q_backend.Decimal.{Arith, dec, ◌⊗◌, ◌⊘◌}
use q_backend.Decimal.Float.{Rounding, Ordered, Rounded, floor, float}
use q_backend.Backtesting.Models.{Signal, Order}
use q_backend.Backtesting.PositionSizing.{
  SizerError, FixedQuantitySizer, FixedSafetyMarginSizer, InverseVolatilitySizer, PositionSizer,
  max_below_min, positive_order, scaled_order,
}
use q_backend.Backtesting.PositionSizing.FixedQuantity
use q_backend.Backtesting.PositionSizing.FixedSafetyMargin
use q_backend.Backtesting.PositionSizing.InverseVolatility
use q_backend.Backtesting.PositionSizing.Build.{
  PositionSizingConfig, is_valid, of_quantity, margin_sizer, volatility_sizer, of_margin,
  of_volatility, build_position_sizer,
}

module _ {D : Type 0} ⦃a : Arith D⦄ ⦃r : Rounding D⦄ (o : Ordered a) (laws : Rounded a r o)
    (signal : Signal D) (id : ℕ) (strength_ge : o.value (dec 0) ≤ℤ o.value signal.strength)
    (strength_le : o.value signal.strength ≤ℤ o.value (dec 1)) where
  positive_order-quantity :
      (q : D) (order : Order D) → positive_order id signal q ≡ some order → order.quantity ≡ q
  positive_order-quantity q order e = ground arith

  floored_order-le :
      (q bound : D) (order : Order D)
      → o.value q ≤ℤ o.value bound
      → positive_order id signal (float (floor q)) ≡ some order
      → o.value order.quantity ≤ℤ o.value bound
  floored_order-le q bound order h e =
      ground (arith, positive_order-quantity (float (floor q)) order, laws.floor_le q)

  float_positive : (n : ℤ) → ltb_ℤ (pos 0) n ≡ true → o.value (dec 0) ≤ℤ o.value (float n)
  float_positive n h =
      subst (λ z. o.value z ≤ℤ o.value (float n)) laws.float-zero
        (laws.float_mono (pos 0) n (ground (arith, h)))

  scaled_order-le :
      (scale : Bool) (n : ℤ) (order : Order D)
      → ltb_ℤ (pos 0) n ≡ true
      → scaled_order scale id signal n ≡ some order
      → o.value order.quantity ≤ℤ o.value (float n)
  unfolding scaled_order
  scaled_order-le true n order h e =
      floored_order-le (float n ⊗ signal.strength) (float n) order
        (laws.mul_le (float n) signal.strength (float_positive n h) strength_ge strength_le) e
  scaled_order-le false n order h e = ground arith

  FixedQuantity-le :
      (s : FixedQuantitySizer D) (order : Order D) (price capital most : D) (volatility : Option D)
      → o.value (dec 0) ≤ℤ o.value s.quantity
      → FixedQuantity.size_signal s id signal price capital volatility ≡ some order
      → FixedQuantity.max_position_size s price capital ≡ some most
      → o.value order.quantity ≤ℤ o.value most
  unfolding FixedQuantity.size_signal FixedQuantity.max_position_size
  FixedQuantity-le s order price capital most volatility h e f = ground (
    arith,
    floored_order-le s.quantity s.quantity order,
    floored_order-le (s.quantity ⊗ signal.strength) s.quantity order,
    laws.mul_le s.quantity signal.strength h strength_ge strength_le,
  )

  FixedSafetyMargin-le :
      (s : FixedSafetyMarginSizer D) (order : Order D) (price capital most : D)
      (volatility : Option D)
      → FixedSafetyMargin.size_signal s id signal price capital volatility ≡ some order
      → FixedSafetyMargin.max_position_size s price capital ≡ some most
      → o.value order.quantity ≤ℤ o.value most
  unfolding FixedSafetyMargin.size_signal FixedSafetyMargin.max_position_size
  FixedSafetyMargin-le s order price capital most volatility e f = ground (
    arith,
    scaled_order-le s.scale_by_signal_strength (FixedSafetyMargin.target_contracts s capital) order,
  )

  -- The contracts of a model with a maximum are positive and at most the maximum.
  limited-le :
      (s : InverseVolatilitySizer D) (affordable n high : ℤ)
      → max_below_min s.max_contracts s.min_contracts ≡ false
      → s.max_contracts ≡ some high
      → InverseVolatility.limited s affordable ≡ some n
      → n ≤ℤ high
  unfolding max_below_min
  limited-le s affordable n high h m e = ground arith

  limited-positive :
      (s : InverseVolatilitySizer D) (affordable n : ℤ)
      → InverseVolatility.limited s affordable ≡ some n
      → ltb_ℤ (pos 0) n ≡ true
  limited-positive s affordable n e = ground arith

  contracts_at-limited :
      (s : InverseVolatilitySizer D) (price capital vol : D) (n : ℤ)
      → InverseVolatility.contracts_at s price capital vol ≡ some n
      → (affordable : ℤ) × (InverseVolatility.limited s affordable ≡ some n)
  contracts_at-limited s price capital vol n e = (
    floor ((s.target_volatility_pct ⊘ dec 100) ⊗ capital ⊘ (vol ⊗ price ⊗ s.point_value)),
    ground arith,
  )

  target_contracts-limited :
      (s : InverseVolatilitySizer D) (price capital : D) (row : Option D) (n : ℤ)
      → InverseVolatility.target_contracts s price capital row ≡ some n
      → (affordable : ℤ) × (InverseVolatility.limited s affordable ≡ some n)
  unfolding InverseVolatility.target_contracts
  target_contracts-limited s price capital row n e =
      elim (Option-cases (InverseVolatility.read_volatility row)) [
        | inl missing ↦ absurd (ground (arith, missing))
        | inr (vol, there) ↦ contracts_at-limited s price capital vol n (ground (arith, there))
      ]

  size_signal-contracts :
      (s : InverseVolatilitySizer D) (order : Order D) (price capital : D) (row : Option D)
      → InverseVolatility.size_signal s id signal price capital row ≡ some order
      → (n : ℤ) × (InverseVolatility.target_contracts s price capital row ≡ some n)
        × (scaled_order s.scale_by_signal_strength id signal n ≡ some order)
  unfolding InverseVolatility.size_signal
  size_signal-contracts s order price capital row e =
      elim (Option-cases (InverseVolatility.target_contracts s price capital row)) [
        | inl missing ↦ absurd (ground (arith, missing))
        | inr (n, there) ↦ (n, there, ground (arith, there))
      ]

  -- Without a row there is no volatility, so that the cap is the maximum.
  max_position_size-high :
      (s : InverseVolatilitySizer D) (price capital most : D)
      → InverseVolatility.max_position_size s price capital ≡ some most
      → (high : ℤ) × (s.max_contracts ≡ some high) × (most ≡ float high)
  unfolding InverseVolatility.max_position_size InverseVolatility.target_contracts
  max_position_size-high s price capital most e = elim (Option-cases s.max_contracts) [
    | inl unbounded ↦ absurd (ground (arith, unbounded))
    | inr (high, bounded) ↦ (high, bounded, ground (arith, bounded))
  ]

  InverseVolatility-le :
      (s : InverseVolatilitySizer D) (order : Order D) (price capital most : D)
      (volatility : Option D)
      → max_below_min s.max_contracts s.min_contracts ≡ false
      → InverseVolatility.size_signal s id signal price capital volatility ≡ some order
      → InverseVolatility.max_position_size s price capital ≡ some most
      → o.value order.quantity ≤ℤ o.value most
  InverseVolatility-le s order price capital most volatility h e f =
      let (n, target, made) = size_signal-contracts s order price capital volatility e in
      let (affordable, within) = target_contracts-limited s price capital volatility n target in
      let (high, bounded, is_cap) = max_position_size-high s price capital most f in
      let below = laws.float_mono n high (limited-le s affordable n high h bounded within) in
      let sized =
        scaled_order-le s.scale_by_signal_strength n order (limited-positive s affordable n within)
          made in
      ground (arith, below, sized, is_cap)

  -- A sizer keeps within its cap, where the orders and caps compared are those of `f` and `g`.
  quantity_le_transport :
      (x sizer : PositionSizer D) (price capital most : D) (row : Option D) (order : Order D)
      → ((order' : Order D) (most' : D)
          → x.size_signal id signal price capital row ≡ some order'
          → x.max_position_size price capital ≡ some most'
          → o.value order'.quantity ≤ℤ o.value most')
      → x ≡ sizer
      → sizer.size_signal id signal price capital row ≡ some order
      → sizer.max_position_size price capital ≡ some most
      → o.value order.quantity ≤ℤ o.value most
  quantity_le_transport x sizer price capital most row order h same e f =
      h order most (ap (λ z. z.size_signal id signal price capital row) same ∙ e)
        (ap (λ z. z.max_position_size price capital) same ∙ f)

  of_margin-inr :
      (built : SizerError ⊎ FixedSafetyMarginSizer D) (sizer : PositionSizer D)
      → of_margin built ≡ inr sizer
      → (s : FixedSafetyMarginSizer D) × (built ≡ inr s) × (margin_sizer s ≡ sizer)
  of_margin-inr (inl error) sizer e = absurd (ground arith)
  of_margin-inr (inr s) sizer e = (s, refl, ground arith)

  of_volatility-inr :
      (built : SizerError ⊎ InverseVolatilitySizer D) (sizer : PositionSizer D)
      → of_volatility built ≡ inr sizer
      → (s : InverseVolatilitySizer D) × (built ≡ inr s) × (volatility_sizer s ≡ sizer)
  of_volatility-inr (inl error) sizer e = absurd (ground arith)
  of_volatility-inr (inr s) sizer e = (s, refl, ground arith)

  new-max_below_min :
      (target point : D) (high : Option ℤ) (low : ℤ) (scale : Bool) (s : InverseVolatilitySizer D)
      → InverseVolatility.new target point high low scale ≡ inr s
      → max_below_min s.max_contracts s.min_contracts ≡ false
  unfolding InverseVolatility.new
  new-max_below_min target point high low scale s e = ground arith

  -- A sizer that a valid configuration builds makes no order above the largest position that it
  -- permits at the same price and capital, whatever the volatility, where the strength of the
  -- signal is from 0 to 1 and floats keep their promises.
  pub build_position_sizer-within :
      (config : PositionSizingConfig D) (point price capital most : D) (sizer : PositionSizer D)
      (volatility : Option D) (order : Order D)
      → is_valid config ≡ true
      → build_position_sizer (some config) point ≡ inr sizer
      → sizer.size_signal id signal price capital volatility ≡ some order
      → sizer.max_position_size price capital ≡ some most
      → o.value order.quantity ≤ℤ o.value most
  unfolding is_valid build_position_sizer
  build_position_sizer-within (PositionSizingConfig.fixed_quantity quantity scale) point price
        capital most sizer volatility order valid b e f =
      let s : FixedQuantitySizer D = record {
        quantity = quantity;
        scale_by_signal_strength = scale;
      } in
      quantity_le_transport (of_quantity s) sizer price capital most volatility order
        (λ order' most'.
          FixedQuantity-le s order' price capital most' volatility
            (ground (arith, valid, o.lt-value (dec 0) quantity)))
        (ground (arith, b)) e f
  build_position_sizer-within (PositionSizingConfig.fixed_safety_margin margin low high scale) point
        price capital most sizer volatility order valid b e f =
      let (s, made, same) = of_margin-inr (FixedSafetyMargin.new margin high low scale) sizer b in
      quantity_le_transport (margin_sizer s) sizer price capital most volatility order
        (λ order' most'. FixedSafetyMargin-le s order' price capital most' volatility) same e f
  build_position_sizer-within (PositionSizingConfig.inverse_volatility target high low scale) point
        price capital most sizer volatility order valid b e f =
      let (s, made, same) =
        of_volatility-inr (InverseVolatility.new target point high low scale) sizer b in
      let sound = new-max_below_min target point high low scale s made in
      quantity_le_transport (volatility_sizer s) sizer price capital most volatility order
        (λ order' most'. InverseVolatility-le s order' price capital most' volatility sound) same e
        f

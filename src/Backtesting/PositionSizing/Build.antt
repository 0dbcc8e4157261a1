-- ===== src/Backtesting/PositionSizing/Build.antt =====
-- `build_position_sizer`: the sizer of a configuration.
use q_backend.Prelude.{◌⊎◌, inl, inr, Bool, not, ◌&&◌, Option, none, some}
use q_backend.Prelude.Int.{ℤ, pos, ltb_ℤ}
use q_backend.Decimal.{Arith, dec, ◌<?◌}
use q_backend.Decimal.Float.{Rounding}
use q_backend.Backtesting.PositionSizing.{
  SizerError, FixedQuantitySizer, FixedSafetyMarginSizer, InverseVolatilitySizer, PositionSizer,
}
use q_backend.Backtesting.PositionSizing.FixedQuantity
use q_backend.Backtesting.PositionSizing.FixedSafetyMargin
use q_backend.Backtesting.PositionSizing.InverseVolatility

-- `PositionSizingConfig`; the fields are the constructors' arguments.
pub data PositionSizingConfig (D : Type 0) : Type 0 where
  fixed_quantity : D → Bool → PositionSizingConfig D
  fixed_safety_margin : D → ℤ → Option ℤ → Bool → PositionSizingConfig D
  inverse_volatility : D → Option ℤ → ℤ → Bool → PositionSizingConfig D

-- `max_gte_min`
abbrev pub max_gte_min : Option ℤ → ℤ → Bool
max_gte_min none low = Bool.true
max_gte_min (some high) low = not (ltb_ℤ high low)

abbrev pub is_none_or_at_least : ℤ → Option ℤ → Bool
is_none_or_at_least least none = Bool.true
is_none_or_at_least least (some high) = not (ltb_ℤ high least)

module _ {D : Type 0} ⦃a : Arith D⦄ ⦃r : Rounding D⦄ where
  -- What the fields' bounds and `max_gte_min` let through.
  unfoldable pub is_valid : PositionSizingConfig D → Bool
  is_valid (fixed_quantity quantity scale) = dec 0 <? quantity
  is_valid (fixed_safety_margin margin low high scale) =
      (dec 0 <? margin)
      && not (ltb_ℤ low (pos 0))
      && is_none_or_at_least (pos 0) high
      && max_gte_min high low
  is_valid (inverse_volatility target high low scale) =
      (dec 0 <? target)
      && not (ltb_ℤ low (pos 0))
      && is_none_or_at_least (pos 1) high
      && max_gte_min high low

  abbrev pub of_quantity : FixedQuantitySizer D → PositionSizer D
  of_quantity s = record {
    size_signal = FixedQuantity.size_signal s;
    max_position_size = FixedQuantity.max_position_size s;
  }

  abbrev pub margin_sizer : FixedSafetyMarginSizer D → PositionSizer D
  margin_sizer s = record {
    size_signal = FixedSafetyMargin.size_signal s;
    max_position_size = FixedSafetyMargin.max_position_size s;
  }

  abbrev pub volatility_sizer : InverseVolatilitySizer D → PositionSizer D
  volatility_sizer s = record {
    size_signal = InverseVolatility.size_signal s;
    max_position_size = InverseVolatility.max_position_size s;
  }

  abbrev pub of_margin : SizerError ⊎ FixedSafetyMarginSizer D → SizerError ⊎ PositionSizer D
  of_margin (inl e) = inl e
  of_margin (inr s) = inr (margin_sizer s)

  abbrev pub of_volatility : SizerError ⊎ InverseVolatilitySizer D → SizerError ⊎ PositionSizer D
  of_volatility (inl e) = inl e
  of_volatility (inr s) = inr (volatility_sizer s)

  abbrev pub built : D → PositionSizingConfig D → SizerError ⊎ PositionSizer D
  built point (fixed_quantity quantity scale) =
      inr (of_quantity (record { quantity = quantity; scale_by_signal_strength = scale }))
  built point (fixed_safety_margin margin low high scale) =
      of_margin (FixedSafetyMargin.new margin high low scale)
  built point (inverse_volatility target high low scale) =
      of_volatility (InverseVolatility.new target point high low scale)

  unfoldable pub build_position_sizer :
      Option (PositionSizingConfig D) → D → SizerError ⊎ PositionSizer D
  build_position_sizer none point =
      inr (of_quantity (record { quantity = dec 1; scale_by_signal_strength = Bool.false }))
  build_position_sizer (some config) point = built point config

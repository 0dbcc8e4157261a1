-- ===== src/Backtesting/PositionSizing/FixedSafetyMargin.antt =====
-- `FixedSafetyMarginSizer`: as many contracts as the capital has margin for.
use q_backend.Prelude.{◌⊎◌, inl, inr, Bool, ◌&&◌, Option, none, some, ℕ, if◌then◌else◌}
use q_backend.Prelude.Int.{ℤ, pos, ltb_ℤ, eqb_ℤ}
use q_backend.Decimal.{Arith, dec, ◌⊘◌, ◌≤?◌}
use q_backend.Decimal.Float.{Rounding, floor, float}
use q_backend.Backtesting.Models.{Signal, Order}
use q_backend.Backtesting.PositionSizing.{
  SizerError, FixedSafetyMarginSizer, capped, max_below_min, is_entry, scaled_order,
}

-- `_target_contracts` from the comparison with the minimum on.
abbrev pub floored : ℤ → ℤ → ℤ
floored low quantity =
    if ltb_ℤ quantity low
    then (if ltb_ℤ (pos 0) low && eqb_ℤ quantity (pos 0) then low else pos 0)
    else if ltb_ℤ (pos 0) quantity
    then quantity
    else pos 0

module _ {D : Type 0} ⦃a : Arith D⦄ ⦃r : Rounding D⦄ where
  unfoldable pub new : D → Option ℤ → ℤ → Bool → SizerError ⊎ FixedSafetyMarginSizer D
  unfolding max_below_min
  new margin high low scale =
      if margin ≤? dec 0
      then inl SizerError.safety_margin_not_positive
      else if ltb_ℤ low (pos 0)
      then inl SizerError.min_contracts_negative
      else if max_below_min high low
      then inl SizerError.max_contracts_below_min
      else inr (record {
        safety_margin_per_contract = margin;
        max_contracts = high;
        min_contracts = low;
        scale_by_signal_strength = scale;
      })

  unfoldable pub target_contracts : FixedSafetyMarginSizer D → D → ℤ
  target_contracts s capital =
      floored s.min_contracts
        (capped s.max_contracts (floor (capital ⊘ s.safety_margin_per_contract)))

  unfoldable pub size_signal :
      FixedSafetyMarginSizer D → ℕ → Signal D → D → D → Option D → Option (Order D)
  unfolding scaled_order
  size_signal s id signal price capital volatility =
      let contracts = target_contracts s capital in
      if is_entry signal.action
      then (if ltb_ℤ (pos 0) contracts
          then scaled_order s.scale_by_signal_strength id signal contracts
          else none)
      else none

  unfoldable pub max_position_size : FixedSafetyMarginSizer D → D → D → Option D
  max_position_size s price capital = some (float (target_contracts s capital))

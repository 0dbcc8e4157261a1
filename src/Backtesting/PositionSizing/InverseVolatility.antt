-- ===== src/Backtesting/PositionSizing/InverseVolatility.antt =====
-- `InverseVolatilitySizer`: fewer contracts the more volatile the bar.
use q_backend.Prelude.{◌⊎◌, inl, inr, Bool, ◌||◌, Option, none, some, ℕ, if◌then◌else◌}
use q_backend.Prelude.Int.{ℤ, pos, ltb_ℤ, max_ℤ}
use q_backend.Decimal.{Arith, dec, ◌⊗◌, ◌⊘◌, ◌≤?◌}
use q_backend.Decimal.Float.{Rounding, floor, float}
use q_backend.Backtesting.Models.{Signal, Order}
use q_backend.Backtesting.PositionSizing.{
  SizerError, InverseVolatilitySizer, capped, max_below_min, is_entry, scaled_order,
}

module _ {D : Type 0} ⦃a : Arith D⦄ ⦃r : Rounding D⦄ where
  unfoldable pub new : D → D → Option ℤ → ℤ → Bool → SizerError ⊎ InverseVolatilitySizer D
  unfolding max_below_min
  new target point high low scale =
      if target ≤? dec 0
      then inl SizerError.target_volatility_not_positive
      else if point ≤? dec 0
      then inl SizerError.point_value_not_positive
      else if ltb_ℤ low (pos 0)
      then inl SizerError.min_contracts_negative
      else if max_below_min high low
      then inl SizerError.max_contracts_below_min
      else inr (record {
        target_volatility_pct = target;
        point_value = point;
        max_contracts = high;
        min_contracts = low;
        scale_by_signal_strength = scale;
      })

  abbrev pub read_volatility : Option D → Option D
  read_volatility none = none
  read_volatility (some vol) = if vol ≤? dec 0 then none else some vol

  -- The end of `_target_contracts`, from the whole number of contracts that meets the target.
  abbrev pub limited : InverseVolatilitySizer D → ℤ → Option ℤ
  limited s affordable =
      let raw = max_ℤ (capped s.max_contracts affordable) s.min_contracts in
      if ltb_ℤ (pos 0) raw then some raw else none

  abbrev pub contracts_at : InverseVolatilitySizer D → D → D → D → Option ℤ
  contracts_at s price capital vol =
      let notional = vol ⊗ price ⊗ s.point_value in
      if (price ≤? dec 0) || (capital ≤? dec 0)
      then none
      else if notional ≤? dec 0
      then none
      else limited s (floor ((s.target_volatility_pct ⊘ dec 100) ⊗ capital ⊘ notional))

  abbrev pub with_volatility : InverseVolatilitySizer D → D → D → Option D → Option ℤ
  with_volatility s price capital none = none
  with_volatility s price capital (some vol) = contracts_at s price capital vol

  unfoldable pub target_contracts : InverseVolatilitySizer D → D → D → Option D → Option ℤ
  target_contracts s price capital row = with_volatility s price capital (read_volatility row)

  abbrev pub order_of : Bool → ℕ → Signal D → Option ℤ → Option (Order D)
  order_of scale id signal none = none
  order_of scale id signal (some contracts) = scaled_order scale id signal contracts

  unfoldable pub size_signal :
      InverseVolatilitySizer D → ℕ → Signal D → D → D → Option D → Option (Order D)
  size_signal s id signal price capital volatility =
      if is_entry signal.action
      then order_of s.scale_by_signal_strength id signal
          (target_contracts s price capital volatility)
      else none

  -- The cap: the contracts of the model, or the maximum where it has no data.
  abbrev pub cap_of : Option ℤ → Option ℤ → Option D
  cap_of (some contracts) high = some (float contracts)
  cap_of none (some high) = some (float high)
  cap_of none none = none

  unfoldable pub max_position_size : InverseVolatilitySizer D → D → D → Option D
  max_position_size s price capital = cap_of (target_contracts s price capital none) s.max_contracts

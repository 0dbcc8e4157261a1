-- ===== src/Backtesting/PositionSizing.antt =====
-- backtesting/position_sizing.py: what turns a signal into an order of a quantity, and the largest
-- position that a risk model permits.
pub mod FixedQuantity
pub mod FixedSafetyMargin
pub mod InverseVolatility
pub mod Build
pub mod Within
pub mod Bounds
use q_backend.Prelude.{
  ◌⊎◌, inl, inr, Bool, ◌&&◌, ◌||◌, Option, none, some, String, ℕ, if◌then◌else◌,
}
use q_backend.Prelude.Int.{ℤ, pos, ltb_ℤ, eqb_ℤ, min_ℤ, max_ℤ}
use q_backend.Decimal.{Arith, dec, ◌⊗◌, ◌⊘◌, ◌<?◌, ◌≤?◌}
use q_backend.Decimal.Float.{Rounding, floor, float}
use q_backend.Backtesting.Models.{OrderAction, OrderType, SignalAction, Signal, Order}

-- The `ValueError`s of the constructors.
pub data SizerError : Type 0 where
  safety_margin_not_positive : SizerError
  target_volatility_not_positive : SizerError
  point_value_not_positive : SizerError
  min_contracts_negative : SizerError
  max_contracts_below_min : SizerError

pub record FixedQuantitySizer (D : Type 0) : Type 0 where
  pub quantity : D
  pub scale_by_signal_strength : Bool

pub record FixedSafetyMarginSizer (D : Type 0) : Type 0 where
  pub safety_margin_per_contract : D
  pub max_contracts : Option ℤ
  pub min_contracts : ℤ
  pub scale_by_signal_strength : Bool

pub record InverseVolatilitySizer (D : Type 0) : Type 0 where
  pub target_volatility_pct : D
  pub point_value : D
  pub max_contracts : Option ℤ
  pub min_contracts : ℤ
  pub scale_by_signal_strength : Bool

-- `PositionSizer`: from the id of the new order, the signal, the price, the capital and the
-- volatility of the bar's row (`none` where the row, its value or a number in it is missing).
pub record PositionSizer (D : Type 0) : Type 0 where
  pub size_signal : ℕ → Signal D → D → D → Option D → Option (Order D)
  pub max_position_size : D → D → Option D

-- The tests on the limits that two constructors share.
unfoldable pub max_below_min : Option ℤ → ℤ → Bool
max_below_min none low = Bool.false
max_below_min (some high) low = ltb_ℤ high low

-- `min(quantity, max_contracts)`, where there is a maximum.
abbrev pub capped : Option ℤ → ℤ → ℤ
capped none quantity = quantity
capped (some high) quantity = min_ℤ quantity high

-- `BUY if signal.action == BUY else SELL`, of a signal that is neither HOLD nor CLOSE.
abbrev pub order_action : SignalAction → OrderAction
order_action SignalAction.buy = OrderAction.buy
order_action _ = OrderAction.sell

abbrev pub is_entry : SignalAction → Bool
is_entry SignalAction.hold = Bool.false
is_entry SignalAction.close = Bool.false
is_entry _ = Bool.true

module _ {D : Type 0} ⦃a : Arith D⦄ ⦃r : Rounding D⦄ where
  -- The market order of a quantity for a signal.
  abbrev pub market_order : ℕ → Signal D → D → Order D
  market_order id signal quantity = record {
    id = id;
    symbol = signal.symbol;
    action = order_action signal.action;
    order_type = OrderType.market;
    quantity = quantity;
  }

  abbrev pub positive_order : ℕ → Signal D → D → Option (Order D)
  positive_order id signal quantity =
      if quantity ≤? dec 0 then none else some (market_order id signal quantity)

  -- The order of a number of contracts, scaled by the strength of the signal if the sizer says so.
  unfoldable pub scaled_order : Bool → ℕ → Signal D → ℤ → Option (Order D)
  scaled_order scale id signal contracts =
      if scale
      then positive_order id signal (float (floor (float contracts ⊗ signal.strength)))
      else some (market_order id signal (float contracts))

-- ===== src/Backtesting/PositionSizing/FixedQuantity.antt =====
-- `FixedQuantitySizer`: the same quantity for every signal.
use q_backend.Prelude.{Option, none, some, ℕ, if◌then◌else◌}
use q_backend.Decimal.{Arith, ◌⊗◌}
use q_backend.Decimal.Float.{Rounding, floor, float}
use q_backend.Backtesting.Models.{Signal, Order}
use q_backend.Backtesting.PositionSizing.{FixedQuantitySizer, is_entry, positive_order}

module _ {D : Type 0} ⦃a : Arith D⦄ ⦃r : Rounding D⦄ where
  unfoldable pub size_signal :
      FixedQuantitySizer D → ℕ → Signal D → D → D → Option D → Option (Order D)
  size_signal s id signal price capital volatility =
      if is_entry signal.action
      then positive_order id signal (
          float (
            floor
              (if s.scale_by_signal_strength then s.quantity ⊗ signal.strength else s.quantity)))
      else none

  unfoldable pub max_position_size : FixedQuantitySizer D → D → D → Option D
  max_position_size s price capital = some s.quantity

-- ===== src/Backtesting/Tick/Orders.antt =====
-- backtesting/tick/orders.py: exit reasons, and a sizing configuration as numbers for the kernel.
use q_backend.Prelude.{ℕ, Option, none, some}
use q_backend.Prelude.Int.{ℤ}
use q_backend.Decimal.{Arith, dec}
use q_backend.Decimal.Float.{Rounding, float}
use q_backend.Backtesting.PositionSizing.Build.{PositionSizingConfig}

pub data ExitReason : Type 0 where
  stop_loss : ExitReason
  take_profit : ExitReason
  signal : ExitReason
  end_of_day : ExitReason

abbrev pub sizing_fixed_quantity : ℕ
sizing_fixed_quantity = 0

abbrev pub sizing_fixed_safety_margin : ℕ
sizing_fixed_safety_margin = 1

-- `(mode, a, b, c)`
pub record SizingParams (D : Type 0) : Type 0 where
  pub sizing_mode : ℕ
  pub sizing_a : D
  pub sizing_b : D
  pub sizing_c : D

module _ {D : Type 0} ⦃a : Arith D⦄ ⦃r : Rounding D⦄ where
  abbrev pub max_as_float : Option ℤ → D
  max_as_float none = dec 0
  max_as_float (some high) = float high

  -- `none` is the `AttributeError` of a configuration without a safety margin.
  unfoldable pub kernel_sizing_params : PositionSizingConfig D → Option (SizingParams D)
  kernel_sizing_params (PositionSizingConfig.fixed_quantity quantity scale) = some (record {
    sizing_mode = sizing_fixed_quantity;
    sizing_a = quantity;
    sizing_b = dec 0;
    sizing_c = dec 0;
  })
  kernel_sizing_params (PositionSizingConfig.fixed_safety_margin margin low high scale) =
      some (record {
        sizing_mode = sizing_fixed_safety_margin;
        sizing_a = margin;
        sizing_b = float low;
        sizing_c = max_as_float high;
      })
  kernel_sizing_params (PositionSizingConfig.inverse_volatility target high low scale) = none

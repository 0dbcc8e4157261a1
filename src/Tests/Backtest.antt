-- ===== src/Tests/Backtest.antt =====
-- Runs of the backtests' sizing and kernel, and of the walk-forward windows.
use q_backend.Prelude.{
  ℕ, ◌≤◌, ◌*◌, ◌≡◌, ◌⊎◌, inr, refl, List, [], ◌∷◌, length, true, none, some, arith,
}
use q_backend.Prelude.Int.{ℤ, pos, negsuc, ◌≤ℤ◌}
use q_backend.Decimal.Fixed.{fixed, fixed_rounding, fixed-Ordered, fixed-Rounded}
use q_backend.Backtesting.Models.{SignalAction, Signal, OrderAction, OrderType, Order}
use q_backend.Backtesting.PositionSizing.{
  FixedSafetyMarginSizer, PositionSizer, max_below_min, scaled_order,
}
use q_backend.Backtesting.PositionSizing.FixedSafetyMargin
use q_backend.Backtesting.PositionSizing.Build.{
  PositionSizingConfig, margin_sizer, is_valid, build_position_sizer,
}
use q_backend.Backtesting.PositionSizing.Within.{build_position_sizer-within}
use q_backend.Backtesting.PositionSizing.Bounds.{
  IsAllowed, target_contracts-IsAllowed, build_position_sizer-inr,
}
use q_backend.Backtesting.Tick.Orders.{SizingParams, kernel_sizing_params}
use q_backend.Backtesting.Tick.Kernel.{Tick, Simulation, compute_quantity, simulate}
use q_backend.Backtesting.Tick.Sizing.{compute_quantity-target_contracts}
use q_backend.Backtesting.Tick.Accounting.{IsAccounted, simulate-IsAccounted}
use q_backend.Backtesting.Tick.Sequence.{IsSequence, simulate-IsSequence, simulate-length}
use q_backend.Optimization.WalkForward.{
  WalkForwardMode, WalkForwardConfig, WalkForwardWindow, WindowError, one_day, window_at,
  windows_from, split_windows,
}
use q_backend.Optimization.WalkForward.Ending.{split_windows-some}
use q_backend.Optimization.WalkForward.Tiling.{Tiles, split_windows-Tiles}
use q_backend.Optimization.WalkForward.Training.{IsTrained, split_windows-IsTrained}

abbrev units : ℕ → ℤ
units = pos

-- Ten of margin for a contract, and one to three contracts.
abbrev config : PositionSizingConfig ℤ
config = PositionSizingConfig.fixed_safety_margin (units 10) (pos 1) (some (pos 3)) true

abbrev sizer : FixedSafetyMarginSizer ℤ
sizer = record {
  safety_margin_per_contract = units 10;
  max_contracts = some (pos 3);
  min_contracts = pos 1;
  scale_by_signal_strength = true;
}

abbrev buy : Signal ℤ
buy = record { symbol = "WIN"; action = SignalAction.buy; strength = units 1; exit_reason = none }

abbrev two_contracts : Order ℤ
two_contracts = record {
  id = 7;
  symbol = "WIN";
  action = OrderAction.buy;
  order_type = OrderType.market;
  quantity = units 2;
}

build_position_sizer-within_example : units 2 ≤ℤ units 2
unfolding build_position_sizer is_valid FixedSafetyMargin.new FixedSafetyMargin.size_signal
    FixedSafetyMargin.max_position_size FixedSafetyMargin.target_contracts scaled_order
    max_below_min
build_position_sizer-within_example =
    build_position_sizer-within ⦃a = fixed⦄ ⦃r = fixed_rounding⦄ fixed-Ordered fixed-Rounded buy 7
      (omega arith) (omega arith) config (units 1) (units 100) (units 25) (units 2)
      (margin_sizer ⦃a = fixed⦄ ⦃r = fixed_rounding⦄ sizer) none two_contracts refl refl refl refl

target_contracts-IsAllowed_example :
    (FixedSafetyMargin.target_contracts ⦃a = fixed⦄ ⦃r = fixed_rounding⦄ sizer (units 25) ≡ pos 0)
    ⊎ IsAllowed sizer
        (pos 2)
        (FixedSafetyMargin.target_contracts ⦃a = fixed⦄ ⦃r = fixed_rounding⦄ sizer (units 25))
unfolding FixedSafetyMargin.new max_below_min
target_contracts-IsAllowed_example =
    target_contracts-IsAllowed ⦃a = fixed⦄ ⦃r = fixed_rounding⦄ (units 10) (units 25) (some (pos 3))
      (pos 1) true sizer refl

build_position_sizer-inr_example :
    (built : PositionSizer ℤ) × (build_position_sizer ⦃a = fixed⦄ ⦃r = fixed_rounding⦄
        (some config)
        (units 1)
      ≡ inr built)
unfolding is_valid
build_position_sizer-inr_example =
    build_position_sizer-inr ⦃a = fixed⦄ ⦃r = fixed_rounding⦄ fixed-Ordered config (units 1) refl
      refl

abbrev params : SizingParams ℤ
params = record { sizing_mode = 1; sizing_a = units 10; sizing_b = units 1; sizing_c = units 3 }

compute_quantity-target_contracts_example :
    compute_quantity ⦃a = fixed⦄ ⦃r = fixed_rounding⦄ (units 25) params
    ≡ FixedSafetyMargin.target_contracts ⦃a = fixed⦄ ⦃r = fixed_rounding⦄ sizer (units 25)
unfolding FixedSafetyMargin.new kernel_sizing_params max_below_min
compute_quantity-target_contracts_example =
    compute_quantity-target_contracts ⦃a = fixed⦄ ⦃r = fixed_rounding⦄ fixed-Ordered fixed-Rounded
      (units 10) (units 25) (some (pos 3)) (pos 1) true sizer params refl refl refl
      (omega arith, omega arith) (λ e. ground (arith, e)) (omega arith) (omega arith)

-- Bought at 101 with a stop 5 below, stopped out at 95; then sold at 94 and open to the end.
abbrev ticks : List (Tick ℤ)
ticks =
    record {
      bid = units 100;
      ask = units 101;
      direction = pos 1;
      sl_points = some (units 5);
      tp_points = none;
    }
    ∷ record {
      bid = units 95;
      ask = units 96;
      direction = pos 0;
      sl_points = none;
      tp_points = none;
    }
    ∷ record {
      bid = units 94;
      ask = units 95;
      direction = negsuc 0;
      sl_points = none;
      tp_points = none;
    }
    ∷ record {
      bid = units 90;
      ask = units 91;
      direction = pos 0;
      sl_points = none;
      tp_points = none;
    }
    ∷ []

abbrev result : Simulation ℤ
result = simulate ⦃a = fixed⦄ ⦃r = fixed_rounding⦄ (units 25) (units 1) params ticks

simulate-IsAccounted_example :
    IsAccounted ⦃a = fixed⦄ ⦃r = fixed_rounding⦄ (units 1) (units 25) result
simulate-IsAccounted_example =
    simulate-IsAccounted ⦃a = fixed⦄ ⦃r = fixed_rounding⦄ (units 1) (units 25) params ticks

simulate-IsSequence_example : IsSequence 0 result.trades 4 × (result.position ≡ none)
simulate-IsSequence_example =
    simulate-IsSequence ⦃a = fixed⦄ ⦃r = fixed_rounding⦄ (units 25) (units 1) params ticks

simulate-length_example : length result.trades ≤ 4
simulate-length_example =
    simulate-length ⦃a = fixed⦄ ⦃r = fixed_rounding⦄ (units 25) (units 1) params ticks

-- Four days of training and two of test on a range of nine days: tests of two, two and one days.
abbrev wf : WalkForwardConfig
wf = record { train_days = 4; test_days = 2; mode = WalkForwardMode.rolling; min_windows = 2 }

abbrev window : ℕ → ℕ → ℕ → ℕ → WalkForwardWindow
window index from test to = record {
  index = index;
  train_start = from * one_day;
  train_end = test * one_day;
  test_start = test * one_day;
  test_end = to * one_day;
}

abbrev windows : List WalkForwardWindow
windows = window 0 0 4 6 ∷ window 1 2 6 8 ∷ window 2 4 8 9 ∷ []

split_windows-some_example :
    (found : WindowError ⊎ List WalkForwardWindow) × (split_windows 10 0 (9 * one_day) wf
      ≡ some found)
split_windows-some_example = split_windows-some 9 0 (9 * one_day) wf (omega arith) (omega arith)

split_windows-Tiles_example : (2 ≤ 3) × Tiles (4 * one_day) windows (9 * one_day)
unfolding split_windows windows_from window_at
split_windows-Tiles_example =
    split_windows-Tiles 10 0 (9 * one_day) wf windows (omega arith) (omega arith) refl

split_windows-IsTrained_example : IsTrained 0 wf 0 windows
unfolding split_windows windows_from window_at
split_windows-IsTrained_example =
    split_windows-IsTrained 10 0 (9 * one_day) wf windows (omega arith) (omega arith) refl

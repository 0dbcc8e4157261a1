-- ===== src/Tests/Candles.antt =====
-- Runs of the candle engine: a strategy that buys on every bar, two contracts at most.
use q_backend.Prelude.{
  List, length, ◌≤◌, ◌*◌, ℕ, ◌≡◌, refl, inr, [], ◌∷◌, true, false, none, some, same_key,
  if◌then◌else◌,
}
use q_backend.Prelude.Int.{ℤ, pos, negsuc, ◌+ℤ◌, ◌-ℤ◌}
use q_backend.Decimal.Fixed.{fixed, fixed-Exact, fixed-Ordered, fixed_rounding}
use q_backend.Backtesting.Models.{SignalAction, Signal, OrderAction, TradeStatus, Trade}
use q_backend.Backtesting.PositionSizing.FixedQuantity
use q_backend.Backtesting.PositionSizing.Build.{of_quantity}
use q_backend.Backtesting.Registry.{get_open_trades}
use q_backend.Backtesting.Metrics.{drawdown_from, max_drawdown_value}
use q_backend.Backtesting.Metrics.Drawdown.{curve, IsMaxDrawdown, max_drawdown_value-IsMaxDrawdown}
use q_backend.Backtesting.ExitRules.{ColumnNames, RuleState}
use q_backend.Backtesting.ExitRules.Stops.{time_on_bar}
use q_backend.Backtesting.ExitRules.Rule.{
  time_stop, rule_id, is_enabled, required_columns, on_bar, should_exit,
}
use q_backend.Backtesting.ExitRules.Extreme.{watch, IsWatermark, watch-IsWatermark}
use q_backend.Backtesting.ExitStrategy.{
  ExitStrategy, prune_stale_state, rule_state, set_rule_state, columns_ready, ask_rules, ask_trades,
  check_exits,
}
use q_backend.Backtesting.ExitStrategy.Pruned.{BelongTo, check_exits-BelongTo}
use q_backend.Backtesting.Engine.{Bar, Strategy, BacktestEngine, EngineState}
use q_backend.Backtesting.Engine.Fills.{execute_entries}
use q_backend.Backtesting.Engine.Walk.{process_bar, run_single_chunk}
use q_backend.Backtesting.Engine.Flat.{IsFlat, process_bar-IsFlat, run_single_chunk-flat}
use q_backend.Backtesting.Engine.Cap.{IsCapped, execute_entries-IsCapped}

abbrev names : ColumnNames
names = record {
  atr_col = λ n. "atr";
  donchian_high_col = λ n. "high";
  donchian_low_col = λ n. "low";
}

abbrev hour : ℕ
hour = 3600000000

abbrev buy : Signal ℤ
buy = record { symbol = "WIN"; action = SignalAction.buy; strength = pos 1; exit_reason = none }

abbrev buys : Strategy ℤ ℕ
buys = record {
  check_exits = λ s opened bar. ([], s);
  check_exit_conditions = λ s bar opened. ([], s);
  check_entry_conditions = λ s bar. (buy ∷ [], s);
}

abbrev engine : BacktestEngine ℤ ℕ
engine = record {
  strategy = buys;
  sizer =
      of_quantity ⦃a = fixed⦄ ⦃r = fixed_rounding⦄
        (record { quantity = pos 2; scale_by_signal_strength = false });
  initial_capital = pos 100;
  point_values = λ symbol. none;
  day_trade = true;
  start_t = 9 * hour;
  end_t = 16 * hour;
  close_t = 17 * hour;
  costs = none;
}

abbrev bar_at : ℕ → ℕ → Bar ℤ
bar_at time price = record {
  timestamp = time;
  column = λ name. if same_key name "close" then some (pos price) else none;
}

-- One contract is open, and a signal to buy waits.
abbrev one_open : EngineState ℤ ℕ
one_open = record {
  registry = record {
    orders = [];
    trades =
        record {
          id = 1;
          order_id = 0;
          symbol = "WIN";
          action = OrderAction.buy;
          quantity = pos 1;
          entry_time = 10 * hour;
          entry_price = pos 20;
          exit_time = none;
          exit_price = none;
          status = TradeStatus.opened;
          pnl = none;
          commission = pos 0;
          point_value = pos 1;
          exit_reason = none;
        }
        ∷ [];
  };
  current_capital = pos 100;
  pending_exits = [];
  pending_entries = buy ∷ [];
  next_id = 2;
  strategy_state = 0;
}

process_bar-IsFlat_example :
    IsFlat (process_bar ⦃a = fixed⦄ engine none true (bar_at (11 * hour) 25) one_open)
process_bar-IsFlat_example =
    process_bar-IsFlat ⦃a = fixed⦄ engine none (bar_at (11 * hour) 25) one_open refl refl

run_single_chunk-flat_example :
    get_open_trades (
      run_single_chunk ⦃a = fixed⦄ engine 0
        (bar_at (10 * hour) 20 ∷ bar_at (11 * hour) 25 ∷ bar_at (12 * hour) 30 ∷ [])
        false
        none)
    ≡ []
run_single_chunk-flat_example =
    run_single_chunk-flat ⦃a = fixed⦄ engine 0 (bar_at (10 * hour) 20) (bar_at (12 * hour) 30)
      (bar_at (11 * hour) 25 ∷ bar_at (12 * hour) 30 ∷ []) false none refl (inr (refl, refl))

execute_entries-IsCapped_example :
    IsCapped ⦃a = fixed⦄ fixed-Exact engine "WIN" (pos 2) one_open (
      execute_entries ⦃a = fixed⦄ engine (bar_at (11 * hour) 25) (pos 25) (buy ∷ buy ∷ []) one_open)
unfolding FixedQuantity.max_position_size
execute_entries-IsCapped_example =
    execute_entries-IsCapped ⦃a = fixed⦄ fixed-Exact engine (bar_at (11 * hour) 25) (pos 25) (pos 2)
      "WIN" (buy ∷ buy ∷ []) one_open refl

abbrev bought : Trade ℤ
bought = record {
  id = 1;
  order_id = 0;
  symbol = "WIN";
  action = OrderAction.buy;
  quantity = pos 1;
  entry_time = 10 * hour;
  entry_price = pos 20;
  exit_time = none;
  exit_price = none;
  status = TradeStatus.opened;
  pnl = none;
  commission = pos 0;
  point_value = pos 1;
  exit_reason = none;
}

-- A time stop after two bars, with the memory of this trade and of one that is closed.
abbrev exits : ExitStrategy ℤ
exits = record {
  params = λ name. if same_key name "max_bars_in_trade" then some (pos 2) else none;
  rules = time_stop ∷ [];
  rows =
      record { trade_id = 0; rule = "time_stop"; state = RuleState.bars 5 }
      ∷ record { trade_id = 1; rule = "time_stop"; state = RuleState.bars 1 }
      ∷ [];
}

abbrev asked : List (Signal ℤ) × ExitStrategy ℤ
asked =
    check_exits ⦃a = fixed⦄ ⦃r = fixed_rounding⦄ names exits (bought ∷ []) (bar_at (11 * hour) 25)

time_stop_run :
    asked.1.rows ≡ record { trade_id = 1; rule = "time_stop"; state = RuleState.bars 2 } ∷ []
unfolding check_exits ask_trades ask_rules prune_stale_state set_rule_state rule_state rule_id
    on_bar time_on_bar columns_ready required_columns should_exit is_enabled
time_stop_run = refl

check_exits-BelongTo_example : BelongTo (bought ∷ []) asked.1.rows × (length asked.0 ≤ 1)
check_exits-BelongTo_example =
    check_exits-BelongTo ⦃a = fixed⦄ ⦃r = fixed_rounding⦄ names exits (bought ∷ [])
      (bar_at (11 * hour) 25)

-- A trade bought at 20 that saw 25 and then 23.
watch-IsWatermark_example :
    (x : ℤ) × (watch ⦃a = fixed⦄ bought
        (bar_at (11 * hour) 25 ∷ bar_at (12 * hour) 23 ∷ [])
        RuleState.nothing
      ≡ RuleState.extreme x)
    × IsWatermark ⦃a = fixed⦄ bought fixed-Ordered
        (pos 20)
        (bar_at (11 * hour) 25 ∷ bar_at (12 * hour) 23 ∷ [])
        x
watch-IsWatermark_example =
    watch-IsWatermark ⦃a = fixed⦄ bought fixed-Ordered (bar_at (11 * hour) 25)
      (bar_at (12 * hour) 23 ∷ [])

abbrev ended : ℤ → Trade ℤ
ended profit = record {
  id = 1;
  order_id = 0;
  symbol = "WIN";
  action = OrderAction.buy;
  quantity = pos 1;
  entry_time = 10 * hour;
  entry_price = pos 20;
  exit_time = some (11 * hour);
  exit_price = some (pos 20 +ℤ profit);
  status = TradeStatus.closed;
  pnl = some profit;
  commission = pos 0;
  point_value = pos 1;
  exit_reason = none;
}

-- From 100 up to 110, down to 95, up to 120 and down to 112.
abbrev profits : List (Trade ℤ)
profits = ended (pos 10) ∷ ended (negsuc 14) ∷ ended (pos 25) ∷ ended (negsuc 7) ∷ []

max_drawdown_run : max_drawdown_value ⦃a = fixed⦄ (pos 100) profits ≡ pos 15
unfolding max_drawdown_value drawdown_from ◌+ℤ◌ ◌-ℤ◌
max_drawdown_run = refl

max_drawdown_value-IsMaxDrawdown_example :
    IsMaxDrawdown ⦃a = fixed⦄ fixed-Exact
      (curve ⦃a = fixed⦄ fixed-Exact (pos 100) profits (pos 100 ∷ []))
      (max_drawdown_value ⦃a = fixed⦄ (pos 100) profits)
max_drawdown_value-IsMaxDrawdown_example =
    max_drawdown_value-IsMaxDrawdown ⦃a = fixed⦄ fixed-Exact (pos 100) profits

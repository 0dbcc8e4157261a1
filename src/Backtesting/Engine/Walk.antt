-- ===== src/Backtesting/Engine/Walk.antt =====
-- The walk over the bars of a chunk.
use q_backend.Prelude.{
  ℕ, Bool, true, ◌&&◌, not, List, [], ◌∷◌, ◌++◌, Option, none, some, same_key, ltb, leb, any,
  select, if◌then◌else◌,
}
use q_backend.Decimal.{Arith, dec}
use q_backend.Backtesting.Registry.{TradeRegistry, get_open_trades}
use q_backend.Backtesting.Engine.{
  Bar, BacktestEngine, EngineState, time_of, get_or, is_warm_up, is_last_of_day, last_bar,
  fill_price_of,
}
use q_backend.Backtesting.Engine.Fills.{
  with_pending, close_each, close_day, execute_exits, execute_entries,
}

module _ {D S : Type 0} ⦃a : Arith D⦄ where
  -- Step D, where the bar is evaluated: exits of the exit strategy, those of the strategy for the
  -- other symbols' trades, and, where they are allowed, entries.
  unfoldable pub evaluate_bar :
      BacktestEngine D S → Bool → Bar D → EngineState D S → EngineState D S
  evaluate_bar e entries_allowed bar s =
      let opened = get_open_trades s.registry in
      let (exits, after_exits) = e.strategy.check_exits s.strategy_state opened bar in
      let kept = select (λ t. not (any (λ sig. same_key sig.symbol t.symbol) exits)) opened in
      let (more_exits, after_more) = e.strategy.check_exit_conditions after_exits bar kept in
      let (entries, after_entries) = e.strategy.check_entry_conditions after_more bar in
      if entries_allowed
      then with_pending (exits ++ more_exits) entries after_entries s
      else with_pending (exits ++ more_exits) [] after_more s

  -- Step D.
  unfoldable pub queue_signals :
      BacktestEngine D S → Bool → Bar D → EngineState D S → EngineState D S
  queue_signals e is_last_bar_of_day bar s =
      let time = time_of bar in
      let in_window = leb e.start_t time && leb time e.end_t in
      if e.day_trade
      then (if ltb time e.close_t && not is_last_bar_of_day
          then evaluate_bar e in_window bar s
          else with_pending [] [] s.strategy_state s)
      else evaluate_bar e true bar s

  -- Steps B to E.
  unfoldable pub trade_bar : BacktestEngine D S → Bool → Bar D → EngineState D S → EngineState D S
  trade_bar e is_last_bar_of_day bar s =
      let price = fill_price_of bar in
      let exited = execute_exits e bar.timestamp price s.pending_exits s in
      let entered = execute_entries e bar price s.pending_entries exited in
      let queued = queue_signals e is_last_bar_of_day bar entered in
      if e.day_trade && is_last_bar_of_day
      then close_day e bar.timestamp (get_or (bar.column "close") price) queued
      else queued

  -- One iteration of the loop.
  unfoldable pub process_bar :
      BacktestEngine D S → Option ℕ → Bool → Bar D → EngineState D S → EngineState D S
  process_bar e trade_start is_last_bar_of_day bar s =
      if is_warm_up trade_start bar
      then s
      else if e.day_trade && leb e.close_t (time_of bar)
      then close_day e bar.timestamp (fill_price_of bar) s
      else trade_bar e is_last_bar_of_day bar s

  unfoldable pub process_bars :
      BacktestEngine D S → Option ℕ → List (Bar D) → EngineState D S → EngineState D S
  process_bars e trade_start [] s = s
  process_bars e trade_start (bar ∷ bars) s =
      process_bars e trade_start bars (process_bar e trade_start (is_last_of_day bar bars) bar s)

  -- The end of the chunk; the capital is not used any more.
  abbrev pub force_close : BacktestEngine D S → Option (Bar D) → EngineState D S → EngineState D S
  force_close e none s = s
  force_close e (some bar) s =
      close_each e bar.timestamp (get_or (bar.column "close") (dec 0)) "FORCE_CLOSE"
        (get_open_trades s.registry) s

  unfoldable pub start_state : BacktestEngine D S → S → EngineState D S
  start_state e state = record {
    registry = record { orders = []; trades = [] };
    current_capital = e.initial_capital;
    pending_exits = [];
    pending_entries = [];
    next_id = 0;
    strategy_state = state;
  }

  unfoldable pub run_single_chunk :
      BacktestEngine D S → S → List (Bar D) → Bool → Option ℕ → TradeRegistry D
  run_single_chunk e state chunk force_close_at_end trade_start =
      let walked = process_bars e trade_start chunk (start_state e state) in
      if force_close_at_end
      then (force_close e (last_bar chunk) walked).registry
      else walked.registry

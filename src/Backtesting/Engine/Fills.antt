-- ===== src/Backtesting/Engine/Fills.antt =====
-- What fills at a bar's open: exits and entries that were queued on the bar before.
use q_backend.Prelude.{
  ℕ, suc, List, [], ◌∷◌, Option, none, some, String, same_key, select, if◌then◌else◌,
}
use q_backend.Decimal.{Arith, dec}
use q_backend.Backtesting.Models.{TradeStatus, Signal, Order, Trade}
use q_backend.Backtesting.Registry.{
  TradeRegistry, side_cost, get_open_trades, register_order, register_trade, close_trade_with_costs,
}
use q_backend.Backtesting.Engine.{
  Bar, BacktestEngine, EngineState, get_or, reason_of, is_close, booked, open_quantity, fitted,
}

module _ {D S : Type 0} ⦃a : Arith D⦄ where
  abbrev pub with_registry : TradeRegistry D → EngineState D S → EngineState D S
  with_registry registry s = record {
    registry = registry;
    current_capital = s.current_capital;
    pending_exits = s.pending_exits;
    pending_entries = s.pending_entries;
    next_id = s.next_id;
    strategy_state = s.strategy_state;
  }

  abbrev pub with_capital : D → EngineState D S → EngineState D S
  with_capital capital s = record {
    registry = s.registry;
    current_capital = capital;
    pending_exits = s.pending_exits;
    pending_entries = s.pending_entries;
    next_id = s.next_id;
    strategy_state = s.strategy_state;
  }

  abbrev pub with_pending :
      List (Signal D) → List (Signal D) → S → EngineState D S → EngineState D S
  with_pending exits entries state s = record {
    registry = s.registry;
    current_capital = s.current_capital;
    pending_exits = exits;
    pending_entries = entries;
    next_id = s.next_id;
    strategy_state = state;
  }

  -- Closes the trades one after the other and books their profits.
  unfoldable pub close_each :
      BacktestEngine D S → ℕ → D → String → List (Trade D) → EngineState D S → EngineState D S
  close_each e time price reason [] s = s
  close_each e time price reason (t ∷ ts) s =
      let (closed, registry) =
        close_trade_with_costs e.costs t.id time price (some reason) s.registry in
      close_each e time price reason ts
        (with_capital (booked s.current_capital closed) (with_registry registry s))

  -- Steps A and E: everything is closed, and nothing stays queued.
  unfoldable pub close_day : BacktestEngine D S → ℕ → D → EngineState D S → EngineState D S
  close_day e time price s =
      let done = close_each e time price "END_OF_DAY" (get_open_trades s.registry) s in
      with_pending [] [] done.strategy_state done

  -- Step B for one signal.
  unfoldable pub execute_exit :
      BacktestEngine D S → ℕ → D → Signal D → EngineState D S → EngineState D S
  execute_exit e time price sig s =
      let opened = select (λ t. same_key t.symbol sig.symbol) (get_open_trades s.registry) in
      if is_close sig.action
      then close_each e time price (reason_of sig.exit_reason) opened s
      else s

  unfoldable pub execute_exits :
      BacktestEngine D S → ℕ → D → List (Signal D) → EngineState D S → EngineState D S
  execute_exits e time price [] s = s
  execute_exits e time price (sig ∷ sigs) s =
      execute_exits e time price sigs (execute_exit e time price sig s)

  -- The trade of an order that is filled.
  abbrev pub opened_trade : BacktestEngine D S → ℕ → D → ℕ → Order D → Trade D
  opened_trade e time price id order =
      let point_val = get_or (e.point_values order.symbol) (dec 1) in
      record {
        id = id;
        order_id = order.id;
        symbol = order.symbol;
        action = order.action;
        quantity = order.quantity;
        entry_time = time;
        entry_price = price;
        exit_time = none;
        exit_price = none;
        status = TradeStatus.opened;
        pnl = none;
        commission = side_cost e.costs price order.quantity point_val;
        point_value = point_val;
        exit_reason = none;
      }

  abbrev pub place :
      BacktestEngine D S → ℕ → D → Option (Order D) → EngineState D S → EngineState D S
  place e time price none s = s
  place e time price (some order) s = record {
    registry =
        register_trade (opened_trade e time price (suc s.next_id) order)
          (register_order order s.registry);
    current_capital = s.current_capital;
    pending_exits = s.pending_exits;
    pending_entries = s.pending_entries;
    next_id = suc (suc s.next_id);
    strategy_state = s.strategy_state;
  }

  abbrev pub place_within_cap :
      BacktestEngine D S → ℕ → D → Option (Order D) → EngineState D S → EngineState D S
  place_within_cap e time price none s = s
  place_within_cap e time price (some order) s =
      let max_size = e.sizer.max_position_size price s.current_capital in
      place e time price (fitted max_size (open_quantity order.symbol s.registry) order) s

  -- Step C for one signal.
  unfoldable pub execute_entry :
      BacktestEngine D S → Bar D → D → Signal D → EngineState D S → EngineState D S
  execute_entry e bar price sig s =
      place_within_cap e bar.timestamp price
        (e.sizer.size_signal s.next_id sig price s.current_capital (bar.column "volatility")) s

  unfoldable pub execute_entries :
      BacktestEngine D S → Bar D → D → List (Signal D) → EngineState D S → EngineState D S
  execute_entries e bar price [] s = s
  execute_entries e bar price (sig ∷ sigs) s =
      execute_entries e bar price sigs (execute_entry e bar price sig s)

-- ===== src/Backtesting/Engine.antt =====
-- backtesting/engine.py: the candle engine's walk over the bars of one chunk. A strategy, with its
-- exit strategy, is a parameter with a state of its own; the bars have its indicators already.
pub mod Fills
pub mod Walk
pub mod Flat
pub mod Cap
use q_backend.Prelude.{
  ℕ, suc, ◌/◌, ◌%◌, ◌==◌, Bool, true, false, ◌&&◌, not, List, [], ◌∷◌, ◌++◌, Option, none, some,
  String, same_key, ltb, leb, any, select, if◌then◌else◌,
}
use q_backend.Decimal.{Arith, dec, ◌⊕◌, ◌⊖◌, ◌<?◌, ◌≤?◌}
use q_backend.Backtesting.Models.{SignalAction, TradeStatus, Signal, Order, Trade}
use q_backend.Backtesting.PositionSizing.{PositionSizer}
use q_backend.Backtesting.Registry.{
  TransactionCostConfig, TradeRegistry, side_cost, get_open_trades, register_order, register_trade,
  close_trade_with_costs,
}

-- A row of the data: its time, in microseconds, and its columns.
pub record Bar (D : Type 0) : Type 0 where
  pub timestamp : ℕ
  pub column : String → Option D

abbrev pub day : ℕ
day = 86400000000

abbrev pub date_of : {D : Type 0} → Bar D → ℕ
date_of bar = bar.timestamp / day

abbrev pub time_of : {D : Type 0} → Bar D → ℕ
time_of bar = bar.timestamp % day

-- `TradingStrategy`, and `check_exits` of its exit strategy, which returns nothing where there is none.
pub record Strategy (D S : Type 0) : Type 0 where
  pub check_exits : S → List (Trade D) → Bar D → List (Signal D) × S
  pub check_exit_conditions : S → Bar D → List (Trade D) → List (Signal D) × S
  pub check_entry_conditions : S → Bar D → List (Signal D) × S

-- The times of day are those that the texts of the configuration stand for.
pub record BacktestEngine (D S : Type 0) : Type 0 where
  pub strategy : Strategy D S
  pub sizer : PositionSizer D
  pub initial_capital : D
  pub point_values : String → Option D
  pub day_trade : Bool
  pub start_t : ℕ
  pub end_t : ℕ
  pub close_t : ℕ
  pub costs : Option (TransactionCostConfig D)

-- The variables of the walk, the next fresh id and the strategy's state.
pub record EngineState (D S : Type 0) : Type 0 where
  pub registry : TradeRegistry D
  pub current_capital : D
  pub pending_exits : List (Signal D)
  pub pending_entries : List (Signal D)
  pub next_id : ℕ
  pub strategy_state : S

abbrev pub get_or : {D : Type 0} → Option D → D → D
get_or none d = d
get_or (some x) d = x

-- `sig.exit_reason or "SIGNAL"`
abbrev pub reason_of : Option String → String
reason_of none = "SIGNAL"
reason_of (some reason) = if same_key reason "" then "SIGNAL" else reason

abbrev pub is_close : SignalAction → Bool
is_close SignalAction.close = true
is_close _ = false

module _ {D : Type 0} where
  abbrev pub is_warm_up : Option ℕ → Bar D → Bool
  is_warm_up none bar = false
  is_warm_up (some trade_start) bar = ltb bar.timestamp trade_start

  abbrev pub is_last_of_day : Bar D → List (Bar D) → Bool
  is_last_of_day bar [] = true
  is_last_of_day bar (next ∷ bars) = not (date_of next == date_of bar)

  abbrev pub last_bar : List (Bar D) → Option (Bar D)
  last_bar [] = none
  last_bar (bar ∷ []) = some bar
  last_bar (bar ∷ bars) = last_bar bars

module _ {D : Type 0} ⦃a : Arith D⦄ where
  -- `data.get("open", data.get("close", 0.0))`, where no `open` is NaN.
  abbrev pub fill_price_of : Bar D → D
  fill_price_of bar = get_or (bar.column "open") (get_or (bar.column "close") (dec 0))

  -- The profit that a closed trade, if there is one, adds to the capital.
  abbrev pub booked : D → Option (Trade D) → D
  booked capital none = capital
  booked capital (some t) = elim t.pnl [ none ↦ capital | some pnl ↦ capital ⊕ pnl ]

  abbrev pub sum_quantity : D → List (Trade D) → D
  sum_quantity total [] = total
  sum_quantity total (t ∷ ts) = sum_quantity (total ⊕ t.quantity) ts

  -- The open quantity of a symbol.
  unfoldable pub open_quantity : String → TradeRegistry D → D
  open_quantity symbol registry =
      sum_quantity (dec 0) (select (λ t. same_key t.symbol symbol) (get_open_trades registry))

  abbrev pub resized : D → Order D → Order D
  resized quantity order = record {
    id = order.id;
    symbol = order.symbol;
    action = order.action;
    order_type = order.order_type;
    quantity = quantity;
  }

  -- The order as far as the cap leaves room for it.
  unfoldable pub fitted : Option D → D → Order D → Option (Order D)
  fitted none open_qty order = some order
  fitted (some max_size) open_qty order =
      let remaining = max_size ⊖ open_qty in
      if remaining ≤? dec 0
      then none
      else if remaining <? order.quantity
      then some (resized remaining order)
      else some order

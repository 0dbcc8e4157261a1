-- ===== src/Backtesting/Registry.antt =====
-- backtesting/registry.py: the orders and trades of a backtest, as lists in the order in which they
-- were registered; and backtesting/costs.py.
use q_backend.Prelude.{
  ℕ, ◌==◌, Bool, true, false, List, [], ◌∷◌, ◌++◌, Option, none, some, String, find, select, update,
  if◌then◌else◌,
}
use q_backend.Decimal.{Arith, dec, ◌⊕◌, ◌⊖◌, ◌⊗◌, ◌⊘◌}
use q_backend.Backtesting.Models.{OrderAction, TradeStatus, Order, Trade}

pub record TransactionCostConfig (D : Type 0) : Type 0 where
  pub cost_per_contract : D
  pub cost_bps : D

pub record TradeRegistry (D : Type 0) : Type 0 where
  pub orders : List (Order D)
  pub trades : List (Trade D)

abbrev pub is_open : {D : Type 0} → Trade D → Bool
is_open t = elim t.status [ TradeStatus.opened ↦ true | TradeStatus.closed ↦ false ]

module _ {D : Type 0} where
  -- The trades that `get_open_trades` and `get_closed_trades` return.
  unfoldable pub get_open_trades : TradeRegistry D → List (Trade D)
  get_open_trades registry = select is_open registry.trades

  -- The ids of new orders and trades are fresh, so that the row is a new one.
  unfoldable pub register_order : Order D → TradeRegistry D → TradeRegistry D
  register_order order registry = record {
    orders = registry.orders ++ order ∷ [];
    trades = registry.trades;
  }

  unfoldable pub register_trade : Trade D → TradeRegistry D → TradeRegistry D
  register_trade trade registry = record {
    orders = registry.orders;
    trades = registry.trades ++ trade ∷ [];
  }

module _ {D : Type 0} ⦃a : Arith D⦄ where
  -- Price, quantity, point value.
  unfoldable pub side_cost : Option (TransactionCostConfig D) → D → D → D → D
  side_cost none price quantity point_value = dec 0
  side_cost (some costs) price quantity point_value =
      quantity ⊗ costs.cost_per_contract
      ⊕ (costs.cost_bps ⊘ dec 10000) ⊗ price ⊗ quantity ⊗ point_value

  abbrev gross_pnl : OrderAction → D → D → D → D → D
  gross_pnl OrderAction.buy entry exit quantity multiplier = (exit ⊖ entry) ⊗ quantity ⊗ multiplier
  gross_pnl OrderAction.sell entry exit quantity multiplier = (entry ⊖ exit) ⊗ quantity ⊗ multiplier

  -- An open trade once it is closed.
  abbrev pub closing : ℕ → D → Option String → Trade D → Trade D
  closing exit_time exit_price exit_reason t = record {
    id = t.id;
    order_id = t.order_id;
    symbol = t.symbol;
    action = t.action;
    quantity = t.quantity;
    entry_time = t.entry_time;
    entry_price = t.entry_price;
    exit_time = some exit_time;
    exit_price = some exit_price;
    status = TradeStatus.closed;
    pnl =
        some (gross_pnl t.action t.entry_price exit_price t.quantity t.point_value ⊖ t.commission);
    commission = t.commission;
    point_value = t.point_value;
    exit_reason = exit_reason;
  }

  abbrev with_commission : D → Trade D → Trade D
  with_commission more t = record {
    id = t.id;
    order_id = t.order_id;
    symbol = t.symbol;
    action = t.action;
    quantity = t.quantity;
    entry_time = t.entry_time;
    entry_price = t.entry_price;
    exit_time = t.exit_time;
    exit_price = t.exit_price;
    status = t.status;
    pnl = t.pnl;
    commission = t.commission ⊕ more;
    point_value = t.point_value;
    exit_reason = t.exit_reason;
  }

  abbrev pub is_trade : ℕ → Trade D → Bool
  is_trade id t = t.id == id

  abbrev pub close_if_open : ℕ → D → Option String → Trade D → Trade D
  close_if_open exit_time exit_price exit_reason t =
      if is_open t then closing exit_time exit_price exit_reason t else t

  -- The trade as it is afterwards, `none` where the id is unknown; and the registry.
  unfoldable pub close_trade :
      ℕ → ℕ → D → Option String → TradeRegistry D → Option (Trade D) × TradeRegistry D
  close_trade id exit_time exit_price exit_reason registry =
      let trades =
        update (is_trade id) (close_if_open exit_time exit_price exit_reason) registry.trades in
      (find (is_trade id) trades, record { orders = registry.orders; trades = trades })

  -- `_close_trade_with_costs` of the engine: an open trade pays for its exit first.
  abbrev pub pay_exit : Option (TransactionCostConfig D) → D → Trade D → Trade D
  pay_exit costs exit_price t =
      if is_open t
      then with_commission (side_cost costs exit_price t.quantity t.point_value) t
      else t

  unfoldable pub close_trade_with_costs :
      Option (TransactionCostConfig D)
      → ℕ
      → ℕ
      → D
      → Option String
      → TradeRegistry D
      → Option (Trade D) × TradeRegistry D
  close_trade_with_costs costs id exit_time exit_price exit_reason registry =
      close_trade id exit_time exit_price exit_reason (record {
        orders = registry.orders;
        trades = update (is_trade id) (pay_exit costs exit_price) registry.trades;
      })

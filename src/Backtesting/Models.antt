-- ===== src/Backtesting/Models.antt =====
-- backtesting/models.py: signals, orders and trades of a backtest.
use q_backend.Prelude.{ℕ, String, Option}

pub data OrderAction : Type 0 where
  buy : OrderAction
  sell : OrderAction

pub data OrderType : Type 0 where
  market : OrderType
  limit : OrderType
  stop : OrderType

pub data SignalAction : Type 0 where
  buy : SignalAction
  sell : SignalAction
  hold : SignalAction
  close : SignalAction

-- The time of creation, which no decision reads, is left out.
pub record Signal (D : Type 0) : Type 0 where
  pub symbol : String
  pub action : SignalAction
  pub strength : D
  pub exit_reason : Option String

-- Without the status, which stays PENDING, the limit price, which sized orders do not have, and the
-- time of creation. The id is a fresh uuid, the next number here, which the maker of the order is given.
pub record Order (D : Type 0) : Type 0 where
  pub id : ℕ
  pub symbol : String
  pub action : OrderAction
  pub order_type : OrderType
  pub quantity : D

pub data TradeStatus : Type 0 where
  opened : TradeStatus
  closed : TradeStatus

pub record Trade (D : Type 0) : Type 0 where
  pub id : ℕ
  pub order_id : ℕ
  pub symbol : String
  pub action : OrderAction
  pub quantity : D
  pub entry_time : ℕ
  pub entry_price : D
  pub exit_time : Option ℕ
  pub exit_price : Option D
  pub status : TradeStatus
  pub pnl : Option D
  pub commission : D
  pub point_value : D
  pub exit_reason : Option String

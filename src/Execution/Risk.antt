-- ===== src/Execution/Risk.antt =====
-- execution/risk.py: the tests that an order passes before it is sent.
pub mod Gate
use q_backend.Prelude.{
  ℕ, Bool, true, false, ◌&&◌, ◌||◌, not, any, Option, none, some, List, [], ◌∷◌, if◌then◌else◌,
}
use q_backend.Decimal.{Arith, ◌⊗◌, ◌<?◌, ◌≤?◌, dec, negate}
use q_backend.Execution.Domain.{
  DeploymentLifecycle, ExecutionSide, ExecutionOrderStatus, PositionSide, RiskRejectionCode,
  status_eq, is_deployment_evaluating,
}
use q_backend.Execution.Broker.{BrokerRejectionCode, PaperCostConfig, ExecutableQuote}
use q_backend.Execution.Broker.Paper.{older_than, validate_quote, validate_quantity}
use q_backend.Execution.Session.Rows.{ExecutionOrder}
use q_backend.Execution.Repositories.Books.{is_flat}
use q_backend.Execution.Ledger.Position.{is_reducing, is_same_side_add}

pub record RiskContext (D : Type 0) : Type 0 where
  pub lifecycle : DeploymentLifecycle
  pub bar_close_time : ℕ
  pub side : ExecutionSide
  pub quantity : D
  pub quote : Option (ExecutableQuote D)
  pub now : ℕ
  pub kill_switch_enabled : Bool
  pub lease_held : Bool
  pub has_unknown_orders : Bool
  pub position_side : PositionSide
  pub position_quantity : D
  pub cash_balance : D
  pub equity : D
  pub daily_realized_pnl : D
  pub max_daily_loss : Option D
  pub max_notional : Option D
  pub point_value : D
  pub cost_config : PaperCostConfig D
  pub max_bar_age : ℕ  -- in microseconds
  pub allow_lifecycle_bypass : Bool

-- `BUY` pays the ask, `SELL` gets the bid.
abbrev pub side_price : {D : Type 0} → ExecutionSide → ExecutableQuote D → D
side_price ExecutionSide.buy q = q.ask
side_price ExecutionSide.sell q = q.bid

abbrev reject_if : Bool → RiskRejectionCode → Option RiskRejectionCode
reject_if b code = if b then some code else none

-- The risk code of a quote that the broker's test refuses.
abbrev quote_code : BrokerRejectionCode → RiskRejectionCode
quote_code BrokerRejectionCode.invalid_quote = RiskRejectionCode.symbol_unavailable
quote_code _ = RiskRejectionCode.stale_quote

module _ {D : Type 0} where
  unfoldable pub check_kill_switch : RiskContext D → Option RiskRejectionCode
  check_kill_switch ctx =
      reject_if (ctx.kill_switch_enabled && not ctx.allow_lifecycle_bypass)
        RiskRejectionCode.kill_switch

  unfoldable pub check_lifecycle : RiskContext D → Option RiskRejectionCode
  unfolding is_deployment_evaluating
  check_lifecycle ctx =
      if ctx.allow_lifecycle_bypass
      then none
      else reject_if (not (is_deployment_evaluating ctx.lifecycle)) RiskRejectionCode.lifecycle

  unfoldable pub check_lease : RiskContext D → Option RiskRejectionCode
  check_lease ctx = reject_if (not ctx.lease_held) RiskRejectionCode.lease_lost

  unfoldable pub check_unknown_orders : RiskContext D → Option RiskRejectionCode
  check_unknown_orders ctx = reject_if ctx.has_unknown_orders RiskRejectionCode.unknown_prior_order

  unfoldable pub check_bar_freshness : RiskContext D → Option RiskRejectionCode
  check_bar_freshness ctx =
      reject_if (older_than ctx.now ctx.bar_close_time ctx.max_bar_age) RiskRejectionCode.stale_bar

  unfoldable pub check_one_position : RiskContext D → Option RiskRejectionCode
  check_one_position ctx =
      if is_flat ctx.position_side
      then none
      else if is_reducing ctx.position_side ctx.side || is_same_side_add ctx.position_side ctx.side
      then none
      else some RiskRejectionCode.one_position_violation

  unfoldable pub deployment_has_unknown_orders : List (ExecutionOrder D) → Bool
  deployment_has_unknown_orders = any (λ o. status_eq o.status ExecutionOrderStatus.unknown)

module _ {D : Type 0} ⦃a : Arith D⦄ where
  unfoldable pub check_symbol_quote : RiskContext D → Option RiskRejectionCode
  unfolding validate_quote
  check_symbol_quote ctx = elim ctx.quote [
    | none ↦ some RiskRejectionCode.symbol_unavailable
    | some q ↦ elim (validate_quote (some q) ctx.now ctx.cost_config.max_quote_age) [
      | none ↦ none
      | some code ↦ some (quote_code code)
    ]
  ]

  unfoldable pub check_quantity : RiskContext D → Option RiskRejectionCode
  unfolding validate_quantity
  check_quantity ctx =
      elim (validate_quantity ctx.quantity ctx.cost_config.volume_step ctx.cost_config.min_volume) [
        | none ↦ none
        | some code ↦ some RiskRejectionCode.invalid_quantity
      ]

  unfoldable pub check_notional : RiskContext D → Option RiskRejectionCode
  check_notional ctx = elim ctx.max_notional [
    | none ↦ none
    | some limit ↦ elim ctx.quote [
      | none ↦ none
      | some q ↦
          reject_if (limit <? side_price ctx.side q ⊗ ctx.quantity ⊗ ctx.point_value)
            RiskRejectionCode.notional_limit
    ]
  ]

  unfoldable pub check_equity : RiskContext D → Option RiskRejectionCode
  check_equity ctx = reject_if (ctx.equity ≤? dec 0) RiskRejectionCode.insufficient_equity

  unfoldable pub check_daily_loss : RiskContext D → Option RiskRejectionCode
  check_daily_loss ctx = elim ctx.max_daily_loss [
    | none ↦ none
    | some limit ↦
        reject_if (ctx.daily_realized_pnl ≤? negate limit) RiskRejectionCode.daily_loss_limit
  ]

  -- The tuple `checks` of `RiskGate.evaluate`, in its order.
  unfoldable pub checks : List (RiskContext D → Option RiskRejectionCode)
  checks =
      check_kill_switch ∷ check_lifecycle ∷ check_lease ∷ check_unknown_orders ∷ check_bar_freshness
      ∷ check_symbol_quote ∷ check_quantity ∷ check_notional ∷ check_one_position ∷ check_equity
      ∷ check_daily_loss ∷ []

  -- The loop of `evaluate`: the first rejection is the answer.
  unfoldable pub first_rejection :
      List (RiskContext D → Option RiskRejectionCode) → RiskContext D → Option RiskRejectionCode
  first_rejection [] ctx = none
  first_rejection (check ∷ rest) ctx = elim (check ctx) [
    | some code ↦ some code
    | none ↦ first_rejection rest ctx
  ]

  unfoldable pub evaluate : RiskContext D → Option RiskRejectionCode
  unfolding checks first_rejection
  evaluate = first_rejection checks

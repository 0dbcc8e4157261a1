-- ===== src/Execution/Service/Submit.antt =====
-- The order of a completed bar once the gate let it through (execution/service.py, the second half
-- of `process_completed_bar`).
use q_backend.Prelude.{ℕ, false, Option, none, some}
use q_backend.Decimal.{Arith}
use q_backend.Execution.Domain.{
  BrokerMode, DecisionOutcome, ExecutionSide, ExecutionOrderStatus, ExternalId, FillRecord,
}
use q_backend.Execution.Broker.{BrokerSubmissionOutcome, BrokerSubmissionResult, MarketOrderRequest}
use q_backend.Execution.Session.Rows.{Session}
use q_backend.Execution.Session.Monad.{
  Result, Action, crash, ok, err, ◌>>=◌, ◌>>◌, pure, raise, raise_if, get_now, commit, rollback,
  proceed,
}
use q_backend.Execution.Repositories.Deployments.{
  update_execution_decision_outcome, update_deployment_last_bar_close,
}
use q_backend.Execution.Repositories.Orders.{
  no_change, pending_change, create_execution_order_intent, transition_execution_order,
}
use q_backend.Execution.Ledger.Fill.{FillCall, apply_fill}
use q_backend.Execution.Service.Call.{Checkpoint, ExecutionService, BarCall, BarProcessResult}

module _ {D : Type 0} where
  -- `CrashInjector.maybe_raise`
  unfoldable pub maybe_raise : ExecutionService D → Checkpoint → Action D (Unit {0})
  maybe_raise service point = raise_if (service.crashes point) crash

  abbrev pub bar_result : BarCall D → Option ℕ → DecisionOutcome → Option ℕ → BarProcessResult
  bar_result c decision outcome order = record {
    deployment_id = c.deployment.id;
    bar_close_time = c.eval_result.bar_close_time;
    decision_id = decision;
    outcome = outcome;
    order_id = order;
    duplicate = false;
    rejection = none;
  }

  -- The decision's outcome and the bar's time are written, and the session is committed.
  unfoldable pub close_bar : BarCall D → ℕ → DecisionOutcome → Action D (Unit {0})
  close_bar c decision outcome = do
    update_execution_decision_outcome decision outcome
    update_deployment_last_bar_close c.deployment.id c.eval_result.bar_close_time
    commit

  -- The branch where the broker's outcome is unknown.
  unfoldable pub settle_unknown : BarCall D → ℕ → ℕ → Option ℕ → Action D BarProcessResult
  settle_unknown c decision order external = do
    transition_execution_order order ExecutionOrderStatus.unknown
        (record pending_change { external_order_id = external })
    close_bar c decision DecisionOutcome.order_unknown
    pure (bar_result c (some decision) DecisionOutcome.order_unknown (some order))

  -- The branch where the broker refused the order.
  unfoldable pub settle_rejected : BarCall D → ℕ → ℕ → ℕ → Action D BarProcessResult
  settle_rejected c decision order now = do
    transition_execution_order order ExecutionOrderStatus.rejected
        (record no_change { completed_at = some now })
    close_bar c decision DecisionOutcome.order_rejected
    pure (bar_result c (some decision) DecisionOutcome.order_rejected (some order))

  -- The handler of `except Exception`, before it raises again.
  unfoldable pub mark_unknown : ℕ → ℕ → Action D (Unit {0})
  mark_unknown decision order = do
    rollback
    transition_execution_order order ExecutionOrderStatus.unknown pending_change
    update_execution_decision_outcome decision DecisionOutcome.order_unknown
    commit

  -- `try: body except Exception: handler; raise`
  abbrev pub after_try :
      {A : Type 0} → Action D (Unit {0}) → Result A × Session D → Result A × Session D
  after_try handler (ok x, s) = (ok x, s)
  after_try handler (err e, s) = proceed (λ _. raise e) (handler s)

  unfoldable pub try_or : {A : Type 0} → Action D A → Action D (Unit {0}) → Action D A
  try_or body handler s = after_try handler (body s)

module _ {D : Type 0} ⦃a : Arith D⦄ where
  abbrev pub bar_fill_call : BarCall D → ℕ → ℕ → FillRecord D → FillCall D
  bar_fill_call c account order fill = record {
    paper_account_id = account;
    deployment_id = c.deployment.id;
    order_id = order;
    fill = fill;
    point_value = c.point_value;
    reconciling = false;
  }

  -- The body of the `try`.
  unfoldable pub persist_fill :
      ExecutionService D → BarCall D → ℕ → ℕ → ℕ → FillRecord D → Action D (Unit {0})
  persist_fill service c account decision order fill = do
    answer ← apply_fill (bar_fill_call c account order fill)
    maybe_raise service Checkpoint.before_fill_commit
    close_bar c decision DecisionOutcome.order_filled

  unfoldable pub settle_filled :
      ExecutionService D → BarCall D → ℕ → ℕ → ℕ → FillRecord D → Action D BarProcessResult
  settle_filled service c account decision order fill = do
    try_or (persist_fill service c account decision order fill) (mark_unknown decision order)
    pure (bar_result c (some decision) DecisionOutcome.order_filled (some order))

  -- The branches on the broker's answer.
  unfoldable pub settle_submission :
      ExecutionService D
      → BarCall D
      → ℕ
      → ℕ
      → ℕ
      → ℕ
      → BrokerSubmissionResult D
      → Action D BarProcessResult
  settle_submission service c account decision order now r = elim r.outcome [
    | BrokerSubmissionOutcome.unknown ↦ settle_unknown c decision order r.external_order_id
    | BrokerSubmissionOutcome.rejected ↦ settle_rejected c decision order now
    | BrokerSubmissionOutcome.filled ↦ elim r.fill [
      | none ↦ settle_rejected c decision order now
      | some fill ↦ settle_filled service c account decision order fill
    ]
  ]

  -- The request always carries the text `paper:<order id>`, whatever the mode of the deployment.
  unfoldable pub order_request : BarCall D → ℕ → ExecutionSide → D → MarketOrderRequest D
  order_request c order side quantity = record {
    deployment_id = c.deployment.id;
    order_id = order;
    symbol = c.deployment.symbol;
    side = side;
    quantity = quantity;
    external_fill_id = ExternalId.order_tag BrokerMode.paper order;
  }

  -- From the order's intent on: account, decision, side and quantity.
  unfoldable pub submit_order :
      ExecutionService D → BarCall D → ℕ → ℕ → ExecutionSide → D → Action D BarProcessResult
  submit_order service c account decision side quantity = do
    now ← get_now
    order ←
        create_execution_order_intent c.deployment.id (some decision) c.deployment.broker_mode side
          quantity
    maybe_raise service Checkpoint.before_intent_commit
    commit
    maybe_raise service Checkpoint.after_intent_commit
    let answer =
        service.broker.submit_market_order now (order_request c order side quantity) c.cost_config
    maybe_raise service Checkpoint.after_broker_response
    settle_submission service c account decision order now answer

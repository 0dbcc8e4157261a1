-- ===== src/Execution/Service/Bar.antt =====
-- `ExecutionService.process_completed_bar` and `flatten_deployment` (execution/service.py).
use q_backend.Prelude.{ℕ, ◌&&◌, ◌||◌, Bool, true, false, not, Option, none, some, if◌then◌else◌}
use q_backend.Decimal.{Arith}
use q_backend.Execution.Domain.{DecisionOutcome, SignalAction, ExecutionSide, RiskRejectionCode}
use q_backend.Execution.Broker.{PaperCostConfig}
use q_backend.Execution.Session.Rows.{
  Database, ExecutionDeployment, ExecutionDecision, ExecutionNetPosition, PaperAccount,
}
use q_backend.Execution.Session.Monad.{
  Action, not_found, ◌>>=◌, ◌>>◌, pure, or_raise, get_db, get_now, commit,
}
use q_backend.Execution.Repositories.Deployments.{
  at_or, get_decision_for_bar, create_execution_decision, update_execution_decision_outcome,
  update_deployment_last_bar_close, get_execution_control_state, record_risk_event,
}
use q_backend.Execution.Repositories.Orders.{list_orders_for_deployment}
use q_backend.Execution.Repositories.Books.{
  get_paper_account, get_open_net_position, sum_realized_pnl_since,
}
use q_backend.Execution.Repositories.Leases.{get_worker_lease}
use q_backend.Execution.Ledger.Fill.{side_of, quantity_of}
use q_backend.Execution.Ledger.Snapshot.{BrokerAccountSnapshot, account_snapshot}
use q_backend.Execution.Risk.{RiskContext, evaluate, deployment_has_unknown_orders}
use q_backend.Execution.Service.Call.{
  ExecutionService, BarCall, BarProcessResult, emits_decision, utc_day_start, is_hold, config_get,
  config_or, lease_held, map_signal_to_order,
}
use q_backend.Execution.Service.Submit.{bar_result, close_bar, submit_order}

module _ {D : Type 0} ⦃a : Arith D⦄ where
  abbrev pub position_now : BarCall D → Database D → Option (ExecutionNetPosition D)
  position_now c db = get_open_net_position c.deployment.id db

  -- The context that the gate judges: `db` is the state, `kill` the kill switch and `account` the
  -- account's row, all read before the order exists.
  unfoldable pub risk_context :
      ExecutionService D
      → BarCall D
      → ExecutionSide
      → D
      → ℕ
      → Bool
      → PaperAccount D
      → BrokerAccountSnapshot D
      → Database D
      → RiskContext D
  risk_context service c side quantity now kill account snapshot db =
      let config = config_or c.deployment.risk_config account.risk_config in
      record {
        lifecycle = c.deployment.lifecycle;
        bar_close_time = c.eval_result.bar_close_time;
        side = side;
        quantity = quantity;
        quote = service.quote_source now c.deployment.symbol;
        now = now;
        kill_switch_enabled = kill;
        lease_held = lease_held (get_worker_lease c.deployment.id db) c.worker_id c.lease_token;
        has_unknown_orders =
            deployment_has_unknown_orders (list_orders_for_deployment c.deployment.id db);
        position_side = side_of (position_now c db);
        position_quantity = quantity_of (position_now c db);
        cash_balance = account.cash_balance;
        equity = snapshot.equity;
        daily_realized_pnl = sum_realized_pnl_since account.id (utc_day_start now) db;
        max_daily_loss = config_get "max_daily_loss" config;
        max_notional = config_get "max_notional" config;
        point_value = c.point_value;
        cost_config = c.cost_config;
        max_bar_age = service.max_bar_age;
        allow_lifecycle_bypass = c.allow_lifecycle_bypass || c.flatten;
      }

  -- A rejection of the gate is recorded, and the bar is closed.
  unfoldable pub record_rejection : BarCall D → ℕ → RiskRejectionCode → Action D BarProcessResult
  record_rejection c decision code = do
    record_risk_event c.deployment.id code (some decision)
    close_bar c decision DecisionOutcome.risk_rejected
    pure (record (bar_result c (some decision) DecisionOutcome.risk_rejected none) {
      rejection = some code;
    })

  unfoldable pub act_on :
      Option RiskRejectionCode
      → ExecutionService D
      → BarCall D
      → ℕ
      → ℕ
      → ExecutionSide
      → D
      → Action D BarProcessResult
  act_on (some code) service c account decision side quantity = record_rejection c decision code
  act_on none service c account decision side quantity =
      submit_order service c account decision side quantity

  -- From the mapped order on: the gate, then the rejection or the order.
  unfoldable pub judge_order :
      ExecutionService D → BarCall D → ℕ → ExecutionSide → D → Action D BarProcessResult
  judge_order service c decision side quantity = do
    now ← get_now
    db ← get_db
    account ← or_raise (get_paper_account c.deployment.paper_account_id db) not_found
    kill ← get_execution_control_state
    snapshot ←
        account_snapshot account.id c.deployment.id (service.quote_source now c.deployment.symbol)
          c.point_value now
    act_on (evaluate (risk_context service c side quantity now kill account snapshot db)) service c
        account.id decision side quantity

  -- No order: a flatten leaves the bar's time alone.
  unfoldable pub hold_bar : BarCall D → ℕ → Action D BarProcessResult
  hold_bar c decision = do
    if c.flatten
        then (update_execution_decision_outcome decision DecisionOutcome.hold >> commit)
        else close_bar c decision DecisionOutcome.hold
    pure (bar_result c (some decision) DecisionOutcome.hold none)

  unfoldable pub act_on_mapped :
      Option (ExecutionSide × D) → ExecutionService D → BarCall D → ℕ → Action D BarProcessResult
  act_on_mapped none service c decision = hold_bar c decision
  act_on_mapped (some (side, quantity)) service c decision =
      judge_order service c decision side quantity

  -- The order that the call asks for, in the state `db`.
  unfoldable pub mapped_order : BarCall D → Database D → Option (ExecutionSide × D)
  mapped_order c db =
      map_signal_to_order (if c.flatten then SignalAction.close else c.eval_result.signal_action)
        (side_of (position_now c db)) (quantity_of (position_now c db))
        (if c.flatten then none else c.eval_result.requested_quantity)

  -- A decision to hold, outside a flatten.
  unfoldable pub close_held : BarCall D → ℕ → Action D BarProcessResult
  close_held c decision = do
    update_deployment_last_bar_close c.deployment.id c.eval_result.bar_close_time
    commit
    pure (bar_result c (some decision) DecisionOutcome.hold none)

  -- The first decision of a bar.
  unfoldable pub decide : ExecutionService D → BarCall D → Action D BarProcessResult
  decide service c = do
    decision ←
        create_execution_decision c.deployment.id c.eval_result.bar_close_time
          c.eval_result.signal_action
          (if is_hold c.eval_result.signal_action
            then DecisionOutcome.hold
            else DecisionOutcome.signal)
          c.eval_result.requested_quantity
    db ← get_db
    if is_hold c.eval_result.signal_action && not c.flatten
        then close_held c decision
        else act_on_mapped (mapped_order c db) service c decision

  -- A bar that has its decision is answered from it.
  unfoldable pub answer_or_decide :
      Option (ExecutionDecision D) → ExecutionService D → BarCall D → Action D BarProcessResult
  answer_or_decide none service c = decide service c
  answer_or_decide (some d) service c =
      pure (record (bar_result c (some d.id) d.outcome none) { duplicate = true })

  unfoldable pub process_completed_bar : ExecutionService D → BarCall D → Action D BarProcessResult
  process_completed_bar service c = do
    db ← get_db
    if emits_decision c.eval_result
        then answer_or_decide (get_decision_for_bar c.deployment.id c.eval_result.bar_close_time db)
            service c
        else pure (record (bar_result c none DecisionOutcome.hold none) {
          duplicate = c.eval_result.skipped_duplicate;
        })

  -- Deployment, lease token, worker, costs, point value and the bar, if one is named.
  unfoldable pub flatten_deployment :
      ExecutionService D
      → ExecutionDeployment D
      → ℕ
      → ℕ
      → PaperCostConfig D
      → D
      → Option ℕ
      → Action D BarProcessResult
  flatten_deployment service deployment token worker cost point bar = do
    now ← get_now
    process_completed_bar service (record {
      deployment = deployment;
      eval_result = record {
        bar_close_time = at_or bar now;
        signal_action = SignalAction.close;
        requested_quantity = none;
        replay = false;
        skipped_duplicate = false;
      };
      lease_token = token;
      worker_id = worker;
      cost_config = cost;
      point_value = point;
      allow_lifecycle_bypass = true;
      flatten = true;
    })

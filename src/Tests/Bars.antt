-- ===== src/Tests/Bars.antt =====
-- Runs of the processing of a completed bar.
use q_backend.Prelude.{ℕ, List, [], ◌∷◌, true, ◌≡◌, refl, some}
use q_backend.Prelude.Int.{ℤ, pos, ◌+ℤ◌, ◌-ℤ◌}
use q_backend.Decimal.Fixed.{fixed}
use q_backend.Execution.Domain.{
  ExecutionSide, RiskRejectionCode, DecisionOutcome, SignalAction, validate_order_transition,
  is_deployment_evaluating,
}
use q_backend.Execution.Broker.Paper.{
  validate_quote, validate_quantity, executable_fill_price, compute_commission, submit_market_order,
}
use q_backend.Execution.Session.Rows.{Database, ExecutionDecision, Session}
use q_backend.Execution.Session.Monad.{ok, ◌>>=◌}
use q_backend.Execution.Repositories.Deployments.{
  get_execution_deployment, get_decision_for_bar, create_execution_decision,
  update_execution_decision_outcome, update_deployment_last_bar_close, get_execution_control_state,
}
use q_backend.Execution.Repositories.Orders.{
  create_execution_order_intent, get_execution_order, with_status, transition_execution_order,
  list_orders_for_deployment,
}
use q_backend.Execution.Repositories.Books.{
  get_paper_account, update_paper_cash_balance, get_execution_fill_by_external_id,
  create_execution_fill, get_open_net_position, append_ledger_entry, upserted,
  upsert_open_net_position, sum_amounts, sum_realized_pnl_since,
}
use q_backend.Execution.Repositories.Leases.{get_worker_lease}
use q_backend.Execution.Ledger.Position.{transition_position}
use q_backend.Execution.Ledger.Fill.{
  apply_fill, apply_new, write_fill, append_unless_zero, complete_order, realized_by,
}
use q_backend.Execution.Ledger.Snapshot.{account_snapshot, ledger_totals, total_unrealized, marked}
use q_backend.Execution.Risk.{
  evaluate, checks, first_rejection, check_kill_switch, check_lifecycle, check_lease,
  check_unknown_orders, check_bar_freshness, check_symbol_quote, check_quantity, check_notional,
  check_one_position, check_equity, check_daily_loss, deployment_has_unknown_orders,
}
use q_backend.Execution.Service.Call.{
  ExecutionService, BarCall, BarProcessResult, emits_decision, utc_day_start, config_get, config_or,
  lease_held, map_signal_to_order,
}
use q_backend.Execution.Service.Submit.{
  maybe_raise, close_bar, try_or, persist_fill, settle_filled, settle_submission, order_request,
  submit_order, bar_result,
}
use q_backend.Execution.Service.Bar.{
  risk_context, act_on, act_on_mapped, answer_or_decide, decide, judge_order, mapped_order,
  process_completed_bar,
}
use q_backend.Execution.Service.Blocked.{IsRecorded, rejected_result, judge_order-IsRecorded}
use q_backend.Execution.Service.Once.Kept.{opened}
use q_backend.Execution.Service.Once.{answer_from, committed_after, process_completed_bar-once}
use q_backend.Execution.Service.Recovery.{Atomic, settle_filled-Atomic}
use q_backend.Tests.Scene.{
  at_rest, tables, service, bar_call, with_intent, with_unresolved, intended, decision, deployment,
  account, fill,
}

settle_filled-Atomic_example : Atomic ⦃a = fixed⦄ service bar_call 1 11 12 fill with_intent
unfolding get_execution_order
settle_filled-Atomic_example =
    settle_filled-Atomic ⦃a = fixed⦄ service bar_call 1 11 12 fill with_intent intended decision
      refl refl refl

-- The session after the buy signal of the scene.
abbrev bought : Session ℤ
bought = (process_completed_bar ⦃a = fixed⦄ service bar_call (at_rest tables)).1

abbrev filled_answer : BarProcessResult
filled_answer = bar_result bar_call (some 20) DecisionOutcome.order_filled (some 21)

-- The buy signal passes the gate, is filled by the paper broker and booked.
processed :
    process_completed_bar ⦃a = fixed⦄ service bar_call (at_rest tables) ≡ (ok filled_answer, bought)
unfolding process_completed_bar emits_decision get_decision_for_bar answer_or_decide decide
    create_execution_decision mapped_order map_signal_to_order act_on_mapped judge_order
    get_execution_control_state account_snapshot total_unrealized marked ledger_totals sum_amounts
    risk_context config_get config_or lease_held get_worker_lease sum_realized_pnl_since
    utc_day_start deployment_has_unknown_orders list_orders_for_deployment evaluate checks
    first_rejection check_kill_switch check_lifecycle check_lease check_unknown_orders
    check_bar_freshness check_symbol_quote check_quantity check_notional check_one_position
    check_equity check_daily_loss is_deployment_evaluating act_on submit_order
    create_execution_order_intent maybe_raise order_request submit_market_order validate_quote
    validate_quantity executable_fill_price compute_commission settle_submission settle_filled
    try_or persist_fill close_bar update_execution_decision_outcome update_deployment_last_bar_close
    get_execution_deployment apply_fill apply_new write_fill create_execution_fill
    append_unless_zero append_ledger_entry update_paper_cash_balance upsert_open_net_position
    upserted complete_order transition_execution_order transition_position realized_by
    get_paper_account get_execution_fill_by_external_id get_open_net_position get_execution_order
    with_status validate_order_transition ◌>>=◌ ◌+ℤ◌ ◌-ℤ◌
processed = refl

-- Another worker, with the opposite signal for the same bar.
abbrev other_call : BarCall ℤ
other_call = record bar_call {
  worker_id = 6;
  eval_result = record bar_call.eval_result { signal_action = SignalAction.sell };
}

-- In between, the same worker has a later bar, and the other worker asks twice.
abbrev later_call : BarCall ℤ
later_call = record bar_call { eval_result = record bar_call.eval_result { bar_close_time = 95 } }

abbrev between : List (ExecutionService ℤ × BarCall ℤ × ℕ)
between = (service, later_call, 105) ∷ (service, other_call, 110) ∷ []

abbrev committed_later : Database ℤ
committed_later = committed_after ⦃a = fixed⦄ between bought.committed

process_completed_bar-once_example :
    (d : ExecutionDecision ℤ) × (get_decision_for_bar 1 90 committed_later ≡ some d)
    × (process_completed_bar ⦃a = fixed⦄ service other_call (opened 120 committed_later)
        ≡ (ok (answer_from ⦃a = fixed⦄ other_call d), opened 120 committed_later))
unfolding emits_decision
process_completed_bar-once_example =
    process_completed_bar-once ⦃a = fixed⦄ service service bar_call other_call (at_rest tables)
      bought filled_answer between 120 refl refl processed refl refl refl

-- An order of the deployment is unknown: a flatten of two is refused.
judge_order-IsRecorded_example :
    (code : RiskRejectionCode) × (t : Session ℤ) × (judge_order ⦃a = fixed⦄ service
        (record bar_call { flatten = true })
        11
        ExecutionSide.sell
        (pos 2)
        with_unresolved
      ≡ (ok (rejected_result ⦃a = fixed⦄ (record bar_call { flatten = true }) 11 code), t))
    × IsRecorded with_unresolved t
unfolding deployment_has_unknown_orders list_orders_for_deployment get_paper_account
    get_execution_deployment
judge_order-IsRecorded_example =
    judge_order-IsRecorded ⦃a = fixed⦄ service (record bar_call { flatten = true }) 11
      ExecutionSide.sell (pos 2) with_unresolved account decision deployment refl refl refl refl

-- ===== src/Tests/Gate.antt =====
-- Runs of the risk gate and of the reconciliation.
use q_backend.Prelude.{◌≡◌, ◌≢◌, ◌↔◌, inl, inr, refl, true, false, none, some, [], ◌∷◌}
use q_backend.Prelude.Int.{ℤ, pos}
use q_backend.Decimal.Fixed.{fixed}
use q_backend.Execution.Domain.{DeploymentLifecycle, ExecutionSide, PositionSide, RiskRejectionCode}
use q_backend.Execution.Broker.{BrokerOrderLookupStatus, ExecutableQuote, ExecutionBroker}
use q_backend.Execution.Broker.Paper.{lookup_order}
use q_backend.Execution.Session.Rows.{Actor, ExecutionFill, Session}
use q_backend.Execution.Session.Monad.{ok}
use q_backend.Execution.Repositories.Books.{get_execution_fill_by_external_id, get_paper_account}
use q_backend.Execution.Repositories.Orders.{get_execution_order}
use q_backend.Execution.Risk.{RiskContext, evaluate}
use q_backend.Execution.Risk.Gate.{IsEntitled, IsSound, evaluate-none_iff, evaluate-one_position}
use q_backend.Execution.Reconciliation.{
  ReconciliationResolution, apply_filled_resolution, outcome_of, reconcile_order,
}
use q_backend.Execution.Reconciliation.Failed.{Failed}
use q_backend.Execution.Reconciliation.Outcome.{
  Waiting, Stuck, reconcile_order-refused, reconcile_order-unavailable,
  apply_filled_resolution-Stuck,
}
use q_backend.Tests.Scene.{
  account, broker, cost, decision, deployment, fill, quote, tables, at_rest, unresolved,
  with_unresolved,
}

abbrev context : RiskContext ℤ
context = record {
  lifecycle = DeploymentLifecycle.running;
  bar_close_time = 90;
  side = ExecutionSide.buy;
  quantity = pos 2;
  quote = some quote;
  now = 100;
  kill_switch_enabled = false;
  lease_held = true;
  has_unknown_orders = false;
  position_side = PositionSide.flat;
  position_quantity = pos 0;
  cash_balance = pos 1000;
  equity = pos 1000;
  daily_realized_pnl = pos 0;
  max_daily_loss = none;
  max_notional = some (pos 500);
  point_value = pos 1;
  cost_config = cost;
  max_bar_age = 50;
  allow_lifecycle_bypass = false;
}

evaluate-none_iff_example :
    (evaluate ⦃a = fixed⦄ context ≡ none)
    ↔ (IsEntitled ⦃a = fixed⦄ context × ((q : ExecutableQuote ℤ) × IsSound ⦃a = fixed⦄ context q))
evaluate-none_iff_example = evaluate-none_iff ⦃a = fixed⦄ context

evaluate-one_position_example :
    evaluate ⦃a = fixed⦄ (record context { position_side = PositionSide.short })
    ≢ some RiskRejectionCode.one_position_violation
evaluate-one_position_example =
    evaluate-one_position ⦃a = fixed⦄ (record context { position_side = PositionSide.short })

-- The paper broker knows no order of the past.
reconcile_order-refused_example :
    (s : Session ℤ) × (reconcile_order ⦃a = fixed⦄ broker
        (pos 1)
        unresolved
        deployment
        with_unresolved
      ≡ (ok (outcome_of ⦃a = fixed⦄ unresolved deployment ReconciliationResolution.failed), s))
    × Failed unresolved Actor.reconciler with_unresolved s
unfolding get_execution_order lookup_order
reconcile_order-refused_example =
    reconcile_order-refused ⦃a = fixed⦄ broker (pos 1) unresolved deployment with_unresolved refl
      refl (decision, refl) (inr refl)

-- A broker that cannot be reached.
abbrev unreachable : ExecutionBroker ℤ
unreachable = record broker {
  lookup_order = λ now request. record {
    status = BrokerOrderLookupStatus.unavailable;
    fill = none;
    external_order_id = none;
  };
}

reconcile_order-unavailable_example :
    (s : Session ℤ) × (reconcile_order ⦃a = fixed⦄ unreachable
        (pos 1)
        unresolved
        deployment
        with_unresolved
      ≡ (ok (outcome_of ⦃a = fixed⦄ unresolved deployment ReconciliationResolution.unavailable), s))
    × Waiting ⦃a = fixed⦄ unresolved with_unresolved s
unfolding get_execution_order
reconcile_order-unavailable_example =
    reconcile_order-unavailable ⦃a = fixed⦄ unreachable (pos 1) unresolved deployment
      with_unresolved refl (inl refl)

abbrev stored_row : ExecutionFill ℤ
stored_row = record { id = 15; deployment_id = 1; order_id = 12; fill = fill }

-- The fill of the unresolved order was written already.
abbrev written_before : Session ℤ
written_before =
    at_rest (record tables {
      decisions = decision ∷ [];
      orders = unresolved ∷ [];
      fills = stored_row ∷ [];
    })

apply_filled_resolution-Stuck_example :
    (s : Session ℤ) × (apply_filled_resolution ⦃a = fixed⦄ unresolved deployment fill
        (pos 1)
        Actor.reconciler
        (some 100)
        written_before
      ≡ (ok tt, s))
    × Stuck ⦃a = fixed⦄ unresolved written_before s
unfolding get_execution_order get_execution_fill_by_external_id get_paper_account
apply_filled_resolution-Stuck_example =
    apply_filled_resolution-Stuck ⦃a = fixed⦄ unresolved deployment fill (pos 1) Actor.reconciler
      100 written_before stored_row account refl (decision, refl) refl refl

-- ===== src/Execution/Reconciliation.antt =====
-- execution/reconciliation.py: the fate of orders whose outcome is unknown.
pub mod Failed
pub mod Outcome
use q_backend.Prelude.{ℕ, Bool, true, false, not, List, [], ◌∷◌, Option, none, some, if◌then◌else◌}
use q_backend.Decimal.{Arith}
use q_backend.Execution.Domain.{DecisionOutcome, ExecutionOrderStatus, FillRecord, ExternalId}
use q_backend.Execution.Broker.{
  BrokerOrderLookupStatus, BrokerOrderState, MarketOrderRequest, ExecutionBroker,
}
use q_backend.Execution.Session.Rows.{ExecutionDeployment, ExecutionOrder, Actor}
use q_backend.Execution.Session.Monad.{
  Action, not_pending, missing_fill, ◌>>=◌, ◌>>◌, pure, raise, raise_if, get_db, get_now,
}
use q_backend.Execution.Repositories.Deployments.{
  at_or, get_execution_deployment, update_execution_decision_outcome,
}
use q_backend.Execution.Repositories.Orders.{
  no_change, is_pending, transition_execution_order, finalize_order_reconciliation,
  record_reconciliation_attempt, list_pending_reconciliation_orders,
}
use q_backend.Execution.Ledger.Fill.{FillCall, apply_fill}

pub data ReconciliationResolution : Type 0 where
  filled failed unavailable : ReconciliationResolution

pub record ReconciliationOutcome : Type 0 where
  pub order_id : ℕ
  pub deployment_id : ℕ
  pub resolution : ReconciliationResolution

-- The `outcome` argument of a manual resolution: two values are known, any other raises.
pub data ManualOutcome : Type 0 where
  filled not_filled other : ManualOutcome

module _ {D : Type 0} where
  unfoldable pub lookup_request_for_order :
      ExecutionOrder D → ExecutionDeployment D → MarketOrderRequest D
  lookup_request_for_order order deployment = record {
    deployment_id = deployment.id;
    order_id = order.id;
    symbol = deployment.symbol;
    side = order.side;
    quantity = order.quantity;
    external_fill_id = ExternalId.order_tag order.broker_mode order.id;
  }

  -- `_assert_pending`
  unfoldable pub assert_pending : ExecutionOrder D → Action D (Unit {0})
  assert_pending order = raise_if (not (is_pending order)) not_pending

  -- The decision of the order, if it has one, gets the outcome.
  unfoldable pub settle_decision : Option ℕ → DecisionOutcome → Action D (Unit {0})
  settle_decision none outcome = pure tt
  settle_decision (some i) outcome = update_execution_decision_outcome i outcome

  unfoldable pub apply_failed_resolution : ExecutionOrder D → Actor → Option ℕ → Action D (Unit {0})
  apply_failed_resolution order actor at_time = do
    now ← get_now
    let ts = at_or at_time now
    transition_execution_order order.id ExecutionOrderStatus.rejected
        (record no_change { completed_at = some ts })
    finalize_order_reconciliation order.id actor (some ts)
    settle_decision order.decision_id DecisionOutcome.order_rejected

module _ {D : Type 0} ⦃a : Arith D⦄ where
  abbrev pub fill_call : ExecutionOrder D → ExecutionDeployment D → FillRecord D → D → FillCall D
  fill_call order deployment fill point = record {
    paper_account_id = deployment.paper_account_id;
    deployment_id = deployment.id;
    order_id = order.id;
    fill = fill;
    point_value = point;
    reconciling = true;
  }

  unfoldable pub apply_filled_resolution :
      ExecutionOrder D
      → ExecutionDeployment D
      → FillRecord D
      → D
      → Actor
      → Option ℕ
      → Action D (Unit {0})
  apply_filled_resolution order deployment fill point actor at_time = do
    now ← get_now
    let ts = at_or at_time now
    answer ← apply_fill (fill_call order deployment fill point)
    finalize_order_reconciliation order.id actor (some ts)
    settle_decision order.decision_id DecisionOutcome.order_filled

  abbrev pub outcome_of :
      ExecutionOrder D → ExecutionDeployment D → ReconciliationResolution → ReconciliationOutcome
  outcome_of order deployment resolution = record {
    order_id = order.id;
    deployment_id = deployment.id;
    resolution = resolution;
  }

  pub manual :
      ManualOutcome
      → ExecutionOrder D
      → ExecutionDeployment D
      → Actor
      → D
      → Option (FillRecord D)
      → Option ℕ
      → Action D ReconciliationOutcome
  manual ManualOutcome.filled order deployment actor point none at_time = raise missing_fill
  manual ManualOutcome.filled order deployment actor point (some fill) at_time =
      apply_filled_resolution order deployment fill point actor at_time
      >> pure (outcome_of order deployment ReconciliationResolution.filled)
  manual ManualOutcome.not_filled order deployment actor point fill at_time =
      apply_failed_resolution order actor at_time
      >> pure (outcome_of order deployment ReconciliationResolution.failed)
  manual ManualOutcome.other order deployment actor point fill at_time = raise missing_fill

  unfoldable pub resolve_order_manually :
      ManualOutcome
      → ExecutionOrder D
      → ExecutionDeployment D
      → Actor
      → D
      → Option (FillRecord D)
      → Option ℕ
      → Action D ReconciliationOutcome
  resolve_order_manually outcome order deployment actor point fill at_time =
      assert_pending order >> manual outcome order deployment actor point fill at_time

  -- The branches of `_reconcile_order` on the broker's answer.
  unfoldable pub settle :
      BrokerOrderState D
      → ExecutionOrder D
      → ExecutionDeployment D
      → D
      → ℕ
      → Action D ReconciliationOutcome
  settle state order deployment point now = elim state.status [
    | BrokerOrderLookupStatus.filled ↦ elim state.fill [
      | none ↦
          record_reconciliation_attempt order.id (some now) true
          >> pure (outcome_of order deployment ReconciliationResolution.unavailable)
      | some fill ↦
          apply_filled_resolution order deployment fill point Actor.reconciler (some now)
          >> pure (outcome_of order deployment ReconciliationResolution.filled)
    ]
    | BrokerOrderLookupStatus.rejected ↦
        apply_failed_resolution order Actor.reconciler (some now)
        >> pure (outcome_of order deployment ReconciliationResolution.failed)
    | BrokerOrderLookupStatus.not_found ↦
        apply_failed_resolution order Actor.reconciler (some now)
        >> pure (outcome_of order deployment ReconciliationResolution.failed)
    | BrokerOrderLookupStatus.unavailable ↦
        record_reconciliation_attempt order.id (some now) true
        >> pure (outcome_of order deployment ReconciliationResolution.unavailable)
  ]

  -- `OrderReconciler._reconcile_order`; its clock is the session's.
  unfoldable pub reconcile_order :
      ExecutionBroker D
      → D
      → ExecutionOrder D
      → ExecutionDeployment D
      → Action D ReconciliationOutcome
  unfolding settle
  reconcile_order broker point order deployment = do
    now ← get_now
    settle (broker.lookup_order now (lookup_request_for_order order deployment)) order deployment
        point now

  reconcile_each :
      ExecutionBroker D
      → D
      → List (ExecutionOrder D)
      → ExecutionDeployment D
      → Action D (List ReconciliationOutcome)
  reconcile_each broker point [] deployment = pure []
  reconcile_each broker point (order ∷ rest) deployment = do
    outcome ← reconcile_order broker point order deployment
    outcomes ← reconcile_each broker point rest deployment
    pure (outcome ∷ outcomes)

  unfoldable pub reconcile_deployment :
      ExecutionBroker D → D → ExecutionDeployment D → Action D (List ReconciliationOutcome)
  unfolding reconcile_each
  reconcile_deployment broker point deployment = do
    db ← get_db
    reconcile_each broker point (list_pending_reconciliation_orders (some deployment.id) db)
        deployment

  -- The loop of `reconcile_all_pending`. Its dictionary only saves the second lookup of a
  -- deployment; orders of a deployment that is gone are passed over.
  reconcile_found :
      ExecutionBroker D
      → D
      → ExecutionOrder D
      → Option (ExecutionDeployment D)
      → Action D (List ReconciliationOutcome)
      → Action D (List ReconciliationOutcome)
  reconcile_found broker point order none later = later
  reconcile_found broker point order (some deployment) later = do
    outcome ← reconcile_order broker point order deployment
    outcomes ← later
    pure (outcome ∷ outcomes)

  reconcile_list :
      ExecutionBroker D → D → List (ExecutionOrder D) → Action D (List ReconciliationOutcome)
  unfolding reconcile_found
  reconcile_list broker point [] = pure []
  reconcile_list broker point (order ∷ rest) =
      let later = reconcile_list broker point rest in
      do
        db ← get_db
        reconcile_found broker point order (get_execution_deployment order.deployment_id db) later

  unfoldable pub reconcile_all_pending :
      ExecutionBroker D → D → Action D (List ReconciliationOutcome)
  unfolding reconcile_list
  reconcile_all_pending broker point = do
    db ← get_db
    reconcile_list broker point (list_pending_reconciliation_orders none db)

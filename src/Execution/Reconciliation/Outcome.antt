-- ===== src/Execution/Reconciliation/Outcome.antt =====
-- What a resolution does to the order and to the books (execution/reconciliation.py).
use q_backend.Prelude.{ℕ, ◌≡◌, refl, ◌∙◌, true, none, some, ◌⊎◌, inl, inr, arith, ap}
use q_backend.Decimal.{Arith}
use q_backend.Execution.Domain.{DecisionOutcome, ReconciliationState, FillRecord}
use q_backend.Execution.Broker.{BrokerOrderLookupStatus, BrokerOrderState, ExecutionBroker}
use q_backend.Execution.Session.Rows.{
  ExecutionDeployment, ExecutionOrder, ExecutionFill, Actor, Session, PaperAccount,
}
use q_backend.Execution.Session.Monad.{Action, ok, >>=-ok, get_now, pure, ◌>>◌}
use q_backend.Execution.Repositories.Books.{get_paper_account}
use q_backend.Execution.Repositories.Orders.{
  get_execution_order, record_reconciliation_attempt, is_pending,
}
use q_backend.Execution.Repositories.Steps.{
  with_order, reconciled_row, finalize_order_reconciliation-eq, get_execution_order-with_order,
  record_reconciliation_attempt-eq, attempted_row,
}
use q_backend.Execution.Ledger.Fill.Cases.{stored}
use q_backend.Execution.Ledger.Fill.Once.{repeats}
use q_backend.Execution.Reconciliation.{
  ReconciliationOutcome, ReconciliationResolution, apply_failed_resolution, apply_filled_resolution,
  reconcile_order, settle, lookup_request_for_order, outcome_of, fill_call,
}
use q_backend.Execution.Reconciliation.Failed.{
  SameLedger, HasDecision, settled, settle_decision-eq, get_execution_order-settled,
  settled-SameLedger, failed_session, HasDecision-with_order, Failed, apply_failed_resolution-eq,
  failed_session-Failed, pending_unresolved,
}

-- The broker's answer says that the order was not executed.
abbrev pub IsRefusal : BrokerOrderLookupStatus → Type 0
IsRefusal st = (st ≡ BrokerOrderLookupStatus.rejected) ⊎ (st ≡ BrokerOrderLookupStatus.not_found)

module _ {D : Type 0} ⦃a : Arith D⦄ where
  settle_refusal :
      (st : BrokerOrderState D) (order : ExecutionOrder D) (deployment : ExecutionDeployment D)
      (point : D) (now : ℕ)
      → IsRefusal st.status
      → settle st order deployment point now ≡ (
          apply_failed_resolution order Actor.reconciler (some now)
          >> pure (outcome_of order deployment ReconciliationResolution.failed))
  unfolding settle
  settle_refusal st order deployment point now (inl e) = rw e
  settle_refusal st order deployment point now (inr e) = rw e

  -- An order that is stored as pending, its decision, if it has one, with it, and that the broker
  -- reports as rejected or does not know, is always resolved: the
  -- call returns `failed`, the stored order becomes REJECTED and RECONCILED by the reconciler, and
  -- cash, fills, positions and ledger entries stay as they were.
  pub reconcile_order-refused :
      (broker : ExecutionBroker D) (point : D) (order : ExecutionOrder D)
      (deployment : ExecutionDeployment D) (s : Session D)
      → get_execution_order order.id s.db ≡ some order
      → is_pending order ≡ true
      → HasDecision order.decision_id s
      → IsRefusal (broker.lookup_order s.now (lookup_request_for_order order deployment)).status
      → (s' : Session D) × (reconcile_order broker point order deployment s
          ≡ (ok (outcome_of order deployment ReconciliationResolution.failed), s'))
        × Failed order Actor.reconciler s s'
  unfolding reconcile_order
  reconcile_order-refused broker point order deployment s found pending decided refused =
      let may = pending_unresolved order pending in
      let e = apply_failed_resolution-eq order order Actor.reconciler s.now s found may decided in
      (
        failed_session order Actor.reconciler s.now s,
        >>=-ok get_now _ {s = s} refl
            ∙ ap (λ (m : Action D ReconciliationOutcome). m s)
                (settle_refusal
                  (broker.lookup_order s.now (lookup_request_for_order order deployment)) order
                  deployment point s.now refused)
            ∙ >>=-ok _ _ e,
        failed_session-Failed order order Actor.reconciler s.now s found may decided,
      )

  -- The order after an attempt that found nothing out: still pending, with the attempt noted.
  pub record Waiting (order : ExecutionOrder D) (s s' : Session D) : Type 0 where
    pub row : ExecutionOrder D
    pub found : get_execution_order order.id s'.db ≡ some row
    pub pending : is_pending row ≡ is_pending order
    pub noted : row.reconciliation_error ≡ true
    pub at : row.reconciliation_attempted_at ≡ some s.now
    pub ledger : SameLedger s s'

  -- The broker cannot say, or says "filled" without the fill.
  abbrev pub IsOpen : BrokerOrderState D → Type 0
  IsOpen st =
      (st.status ≡ BrokerOrderLookupStatus.unavailable)
      ⊎ ((st.status ≡ BrokerOrderLookupStatus.filled) × (st.fill ≡ none))

  settle_open :
      (st : BrokerOrderState D) (order : ExecutionOrder D) (deployment : ExecutionDeployment D)
      (point : D) (now : ℕ)
      → IsOpen st
      → settle st order deployment point now ≡ (
          record_reconciliation_attempt order.id (some now) true
          >> pure (outcome_of order deployment ReconciliationResolution.unavailable))
  unfolding settle
  settle_open st order deployment point now (inl e) = rw e
  settle_open st order deployment point now (inr (e, f)) = rw (e, f)

  -- Where the order is stored and the broker is unavailable, or reports a fill without its details,
  -- the call returns `unavailable`: the attempt is noted, the order is as pending as before, and
  -- cash, fills, positions and ledger entries stay as they were.
  pub reconcile_order-unavailable :
      (broker : ExecutionBroker D) (point : D) (order : ExecutionOrder D)
      (deployment : ExecutionDeployment D) (s : Session D)
      → get_execution_order order.id s.db ≡ some order
      → IsOpen (broker.lookup_order s.now (lookup_request_for_order order deployment))
      → (s' : Session D) × (reconcile_order broker point order deployment s
          ≡ (ok (outcome_of order deployment ReconciliationResolution.unavailable), s'))
        × Waiting order s s'
  unfolding reconcile_order
  reconcile_order-unavailable broker point order deployment s found unknown =
      let row = attempted_row s.now true in
      (
        with_order order.id row s,
        >>=-ok get_now _ {s = s} refl
            ∙ ap (λ (m : Action D ReconciliationOutcome). m s)
                (settle_open (broker.lookup_order s.now (lookup_request_for_order order deployment))
                  order deployment point s.now unknown)
            ∙ >>=-ok _ _ (record_reconciliation_attempt-eq order.id s.now true s order found),
        record {
          row = row order;
          found = get_execution_order-with_order order.id row s order (λ r. refl) found;
          pending = refl;
          noted = refl;
          at = refl;
          ledger = ground arith;
        },
      )

  -- What a fill that is stored already leaves of an order.
  pub record Stuck (order : ExecutionOrder D) (s s' : Session D) : Type 0 where
    pub row : ExecutionOrder D
    pub found : get_execution_order order.id s'.db ≡ some row
    pub status : row.status ≡ order.status
    pub reconciled : row.reconciliation_state ≡ ReconciliationState.reconciled
    pub ledger : SameLedger s s'

  -- If the fill is stored already, under any order, and so are the order, its decision, if it has
  -- one, and the account, a filled resolution succeeds without moving the
  -- order: it keeps its status, UNKNOWN where it was pending, but counts as RECONCILED.
  pub apply_filled_resolution-Stuck :
      (order : ExecutionOrder D) (deployment : ExecutionDeployment D) (fill : FillRecord D)
      (point : D) (actor : Actor) (ts : ℕ) (s : Session D) (existing : ExecutionFill D)
      (acc : PaperAccount D)
      → get_execution_order order.id s.db ≡ some order
      → HasDecision order.decision_id s
      → stored (fill_call order deployment fill point) s ≡ some existing
      → get_paper_account deployment.paper_account_id s.db ≡ some acc
      → (s' : Session D) × (apply_filled_resolution order deployment fill point actor (some ts) s
          ≡ (ok tt, s'))
        × Stuck order s s'
  unfolding apply_filled_resolution
  apply_filled_resolution-Stuck order deployment fill point actor ts s existing acc found decided
        old owner =
      let s1 = with_order order.id (reconciled_row actor ts) s in
      let e1 = repeats (fill_call order deployment fill point) s existing acc old owner in
      let e2 = finalize_order_reconciliation-eq order.id actor ts s order found in
      let e3 =
        settle_decision-eq order.decision_id DecisionOutcome.order_filled s1
          (HasDecision-with_order order.decision_id order.id _ s decided) in
      let same = settled-SameLedger order.decision_id DecisionOutcome.order_filled s1 in
      (
        settled order.decision_id DecisionOutcome.order_filled s1,
        >>=-ok get_now _ {s = s} refl ∙ >>=-ok _ _ e1 ∙ >>=-ok _ _ e2 ∙ e3,
        record {
          row = reconciled_row actor ts order;
          found =
              get_execution_order-settled order.id order.decision_id DecisionOutcome.order_filled s1
              ∙ get_execution_order-with_order order.id (reconciled_row actor ts) s order
                  (λ r. refl) found;
          status = refl;
          reconciled = refl;
          ledger = record {
            accounts = same.accounts;
            fills = same.fills;
            positions = same.positions;
            entries = same.entries;
            committed = same.committed;
          };
        },
      )

-- ===== src/Execution/Reconciliation/Failed.antt =====
-- The failure of an unknown order (execution/reconciliation.py, `apply_failed_resolution`).
use q_backend.Prelude.{ℕ, ◌≡◌, refl, ◌∙◌, true, Option, none, some, arith, find}
use q_backend.Execution.Domain.{
  DecisionOutcome, ExecutionOrderStatus, ReconciliationState, validate_order_transition,
}
use q_backend.Execution.Session.Rows.{ExecutionDecision, ExecutionOrder, Actor, Session}
use q_backend.Execution.Session.Monad.{ok, >>=-ok, get_now}
use q_backend.Execution.Repositories.Deployments.{decision_is}
use q_backend.Execution.Repositories.Orders.{
  no_change, get_execution_order, with_status, is_pending,
}
use q_backend.Execution.Repositories.Steps.{
  with_order, with_outcome, reconciled_row, transition_execution_order-eq,
  finalize_order_reconciliation-eq, update_execution_decision_outcome-eq,
  get_execution_order-with_order,
}
use q_backend.Execution.Reconciliation.{settle_decision, apply_failed_resolution}

module _ {D : Type 0} where
  -- Cash, fills, positions and ledger entries are as before, and so is the committed state.
  pub record SameLedger (s s' : Session D) : Type 0 where
    pub accounts : s'.db.accounts ≡ s.db.accounts
    pub fills : s'.db.fills ≡ s.db.fills
    pub positions : s'.db.positions ≡ s.db.positions
    pub entries : s'.db.entries ≡ s.db.entries
    pub committed : s'.committed ≡ s.committed

  -- The decision of an order is none or is stored.
  abbrev pub HasDecision : Option ℕ → Session D → Type 0
  HasDecision none s = Unit
  HasDecision (some i) s =
      (d : ExecutionDecision D) × (find (decision_is i) s.db.decisions ≡ some d)

  -- The session after the decision was settled.
  abbrev pub settled : Option ℕ → DecisionOutcome → Session D → Session D
  settled none outcome s = s
  settled (some i) outcome s = with_outcome i outcome s

  pub settle_decision-eq :
      (i : Option ℕ) (outcome : DecisionOutcome) (s : Session D)
      → HasDecision i s
      → settle_decision i outcome s ≡ (ok tt, settled i outcome s)
  unfolding settle_decision
  settle_decision-eq none outcome s h = refl
  settle_decision-eq (some i) outcome s h = update_execution_decision_outcome-eq i outcome s h.0 h.1

  pub get_execution_order-settled :
      (n : ℕ) (i : Option ℕ) (outcome : DecisionOutcome) (s : Session D)
      → get_execution_order n (settled i outcome s).db ≡ get_execution_order n s.db
  unfolding get_execution_order
  get_execution_order-settled n none outcome s = refl
  get_execution_order-settled n (some i) outcome s = refl

  pub settled-SameLedger :
      (i : Option ℕ) (outcome : DecisionOutcome) (s : Session D)
      → SameLedger s (settled i outcome s)
  settled-SameLedger none outcome s = ground arith
  settled-SameLedger (some i) outcome s = ground arith

  abbrev pub failed_row : Actor → ℕ → ExecutionOrder D → ExecutionOrder D
  failed_row actor ts o =
      reconciled_row actor ts
        (with_status ExecutionOrderStatus.rejected (record no_change { completed_at = some ts }) o)

  -- The session after an order was failed: `o` is the stored row of `order`.
  abbrev pub failed_session : ExecutionOrder D → Actor → ℕ → Session D → Session D
  failed_session order actor ts s =
      let s1 =
        with_order order.id
          (with_status ExecutionOrderStatus.rejected (record no_change { completed_at = some ts }))
          s in
      let s2 = with_order order.id (reconciled_row actor ts) s1 in
      settled order.decision_id DecisionOutcome.order_rejected s2

  pub HasDecision-with_order :
      (i : Option ℕ) (n : ℕ) (f : ExecutionOrder D → ExecutionOrder D) (s : Session D)
      → HasDecision i s
      → HasDecision i (with_order n f s)
  HasDecision-with_order none n f s h = tt
  HasDecision-with_order (some i) n f s h = h

  -- What the failure of an order amounts to.
  pub record Failed (order : ExecutionOrder D) (actor : Actor) (s s' : Session D) : Type 0 where
    pub row : ExecutionOrder D
    pub found : get_execution_order order.id s'.db ≡ some row
    pub rejected : row.status ≡ ExecutionOrderStatus.rejected
    pub reconciled : row.reconciliation_state ≡ ReconciliationState.reconciled
    pub by : row.reconciled_by ≡ some actor
    pub ledger : SameLedger s s'

  module _ (order o : ExecutionOrder D) (actor : Actor) (ts : ℕ) (s : Session D)
      (found : get_execution_order order.id s.db ≡ some o)
      (unresolved : validate_order_transition o.status ExecutionOrderStatus.rejected ≡ true)
      (decided : HasDecision order.decision_id s) where
    pub apply_failed_resolution-eq :
        apply_failed_resolution order actor (some ts) s ≡ (ok tt, failed_session order actor ts s)
    unfolding apply_failed_resolution
    apply_failed_resolution-eq =
        let ch = record no_change { completed_at = some ts } in
        let s1 = with_order order.id (with_status ExecutionOrderStatus.rejected ch) s in
        let s2 = with_order order.id (reconciled_row actor ts) s1 in
        let e1 =
          transition_execution_order-eq order.id ExecutionOrderStatus.rejected ch s o found
            unresolved in
        let f1 =
          get_execution_order-with_order order.id (with_status ExecutionOrderStatus.rejected ch) s o
            (λ r. unfold with_status in refl) found in
        let e2 =
          finalize_order_reconciliation-eq order.id actor ts s1
            (with_status ExecutionOrderStatus.rejected ch o) f1 in
        >>=-ok get_now _ {s = s} refl
        ∙ >>=-ok _ _ e1
        ∙ >>=-ok _ _ e2
        ∙ settle_decision-eq order.decision_id DecisionOutcome.order_rejected s2 (
            HasDecision-with_order order.decision_id order.id _ s1
              (HasDecision-with_order order.decision_id order.id _ s decided))

    pub failed_session-Failed : Failed order actor s (failed_session order actor ts s)
    failed_session-Failed =
        let ch = record no_change { completed_at = some ts } in
        let s1 = with_order order.id (with_status ExecutionOrderStatus.rejected ch) s in
        let f1 =
          get_execution_order-with_order order.id (with_status ExecutionOrderStatus.rejected ch) s o
            (λ r. unfold with_status in refl) found in
        let f2 =
          get_execution_order-with_order order.id (reconciled_row actor ts) s1 _ (λ r. refl) f1 in
        let same =
          settled-SameLedger order.decision_id DecisionOutcome.order_rejected
            (with_order order.id (reconciled_row actor ts) s1) in
        record {
          row = failed_row actor ts o;
          found =
              get_execution_order-settled order.id order.decision_id DecisionOutcome.order_rejected
                (with_order order.id (reconciled_row actor ts) s1)
              ∙ f2;
          rejected = unfold with_status in refl;
          reconciled = refl;
          by = refl;
          ledger = record {
            accounts = same.accounts;
            fills = same.fills;
            positions = same.positions;
            entries = same.entries;
            committed = same.committed;
          };
        }

pub pending_unresolved :
    {D : Type 0} (o : ExecutionOrder D)
    → is_pending o ≡ true
    → validate_order_transition o.status ExecutionOrderStatus.rejected ≡ true
unfolding validate_order_transition
pending_unresolved o h = ground arith

-- ===== src/Execution/Repositories/Steps.antt =====
-- The session after a repository call that succeeds, for proofs that keep the calls shut.
use q_backend.Prelude.{ℕ, ◌≡◌, true, false, some, Bool, find, update, find-update_self}
use q_backend.Execution.Domain.{
  DecisionOutcome, ExecutionOrderStatus, ReconciliationState, validate_order_transition,
}
use q_backend.Execution.Session.Rows.{
  Actor, ExecutionDecision, ExecutionDeployment, ExecutionOrder, Session,
}
use q_backend.Execution.Session.Monad.{ok, err, illegal_transition}
use q_backend.Execution.Repositories.Deployments.{
  decision_is, get_execution_deployment, update_deployment_last_bar_close,
  update_execution_decision_outcome, edit_deployment,
}
use q_backend.Execution.Repositories.Orders.{
  OrderChange, order_is, edit_order, get_execution_order, with_status, transition_execution_order,
  finalize_order_reconciliation, record_reconciliation_attempt,
}

module _ {D : Type 0} where
  abbrev pub with_order : ℕ → (ExecutionOrder D → ExecutionOrder D) → Session D → Session D
  with_order i f s = record s { db = edit_order i f s.db }

  abbrev pub with_outcome : ℕ → DecisionOutcome → Session D → Session D
  with_outcome i outcome s = record s {
    db = record s.db {
      decisions = update (decision_is i) (λ r. record r { outcome = outcome }) s.db.decisions;
    };
  }

  abbrev pub with_bar : ℕ → ℕ → Session D → Session D
  with_bar i bar s = record s {
    db = edit_deployment i (λ r. record r { last_bar_close_time = some bar }) s.db;
  }

  pub transition_execution_order-eq :
      (i : ℕ) (target : ExecutionOrderStatus) (c : OrderChange) (s : Session D)
      (o : ExecutionOrder D)
      → get_execution_order i s.db ≡ some o
      → validate_order_transition o.status target ≡ true
      → transition_execution_order i target c s ≡ (ok tt, with_order i (with_status target c) s)
  unfolding transition_execution_order
  transition_execution_order-eq i target c s o found allowed = rw (found, allowed)

  pub transition_execution_order-illegal :
      (i : ℕ) (target : ExecutionOrderStatus) (c : OrderChange) (s : Session D)
      (o : ExecutionOrder D)
      → get_execution_order i s.db ≡ some o
      → validate_order_transition o.status target ≡ false
      → transition_execution_order i target c s ≡ (err illegal_transition, s)
  unfolding transition_execution_order
  transition_execution_order-illegal i target c s o found refused = rw (found, refused)

  abbrev pub reconciled_row : Actor → ℕ → ExecutionOrder D → ExecutionOrder D
  reconciled_row actor ts r = record r {
    reconciliation_state = ReconciliationState.reconciled;
    reconciled_at = some ts;
    reconciled_by = some actor;
    reconciliation_error = false;
  }

  pub finalize_order_reconciliation-eq :
      (i : ℕ) (actor : Actor) (ts : ℕ) (s : Session D) (o : ExecutionOrder D)
      → get_execution_order i s.db ≡ some o
      → finalize_order_reconciliation i actor (some ts) s
        ≡ (ok tt, with_order i (reconciled_row actor ts) s)
  unfolding finalize_order_reconciliation
  finalize_order_reconciliation-eq i actor ts s o found = rw found

  abbrev pub attempted_row : ℕ → Bool → ExecutionOrder D → ExecutionOrder D
  attempted_row ts error r = record r {
    reconciliation_attempted_at = some ts;
    reconciliation_error = error;
  }

  pub record_reconciliation_attempt-eq :
      (i : ℕ) (ts : ℕ) (error : Bool) (s : Session D) (o : ExecutionOrder D)
      → get_execution_order i s.db ≡ some o
      → record_reconciliation_attempt i (some ts) error s
        ≡ (ok tt, with_order i (attempted_row ts error) s)
  unfolding record_reconciliation_attempt
  record_reconciliation_attempt-eq i ts error s o found = rw found

  pub update_execution_decision_outcome-eq :
      (i : ℕ) (outcome : DecisionOutcome) (s : Session D) (d : ExecutionDecision D)
      → find (decision_is i) s.db.decisions ≡ some d
      → update_execution_decision_outcome i outcome s ≡ (ok tt, with_outcome i outcome s)
  unfolding update_execution_decision_outcome
  update_execution_decision_outcome-eq i outcome s d found = rw found

  pub update_deployment_last_bar_close-eq :
      (i bar : ℕ) (s : Session D) (d : ExecutionDeployment D)
      → get_execution_deployment i s.db ≡ some d
      → update_deployment_last_bar_close i bar s ≡ (ok tt, with_bar i bar s)
  unfolding update_deployment_last_bar_close
  update_deployment_last_bar_close-eq i bar s d found = rw found

  -- An order is found after its own row was changed, if the change keeps its id.
  pub get_execution_order-with_order :
      (i : ℕ) (f : ExecutionOrder D → ExecutionOrder D) (s : Session D) (o : ExecutionOrder D)
      → ((r : ExecutionOrder D) → (f r).id ≡ r.id)
      → get_execution_order i s.db ≡ some o
      → get_execution_order i (with_order i f s).db ≡ some (f o)
  unfolding get_execution_order
  get_execution_order-with_order i f s o keeps found =
      find-update_self (order_is i) f s.db.orders o (λ y h. rw (keeps y) h) found

-- ===== src/Execution/Repositories/Orders.antt =====
-- Orders and their status, and the bookkeeping of reconciliation.
use q_backend.Prelude.{
  ℕ, suc, Bool, false, ◌&&◌, ◌||◌, ◌==◌, Option, none, some, List, [], ◌∷◌, ◌++◌, find, update,
  select, not,
}
use q_backend.Execution.Domain.{
  BrokerMode, ExecutionSide, ExecutionOrderStatus, ReconciliationState, status_eq, state_eq,
  validate_order_transition,
}
use q_backend.Execution.Session.Rows.{ExecutionOrder, Actor, Database}
use q_backend.Execution.Session.Monad.{
  Action, not_found, illegal_transition, ◌>>=◌, ◌>>◌, pure, get_db, get_now, modify, or_raise,
  raise_if,
}
use q_backend.Execution.Repositories.Deployments.{at_or}

-- A keyword argument that is `None` leaves the column alone.
abbrev pub keep_or : {A : Type 0} → Option A → A → A
keep_or none old = old
keep_or (some new) old = new

abbrev pub first_of_two : {A : Type 0} → Option A → Option A → Option A
first_of_two none old = old
first_of_two (some new) old = some new

-- The keyword arguments of `transition_execution_order`.
pub record OrderChange : Type 0 where
  pub reconciliation_state : Option ReconciliationState
  pub external_order_id : Option ℕ
  pub submitted_at : Option ℕ
  pub completed_at : Option ℕ

abbrev pub no_change : OrderChange
no_change = record {
  reconciliation_state = none;
  external_order_id = none;
  submitted_at = none;
  completed_at = none;
}

abbrev pub pending_change : OrderChange
pending_change = record no_change { reconciliation_state = some ReconciliationState.pending }

module _ {D : Type 0} where
  abbrev pub order_is : ℕ → ExecutionOrder D → Bool
  order_is i o = o.id == i

  abbrev pub edit_order : ℕ → (ExecutionOrder D → ExecutionOrder D) → Database D → Database D
  edit_order i f db = record db { orders = update (order_is i) f db.orders }

  unfoldable pub create_execution_order_intent :
      ℕ → Option ℕ → BrokerMode → ExecutionSide → D → Action D ℕ
  unfolding ◌>>=◌
  create_execution_order_intent i decision mode side quantity = do
    db ← get_db
    now ← get_now
    modify (λ d. record d {
      orders =
          d.orders
          ++ record {
            id = d.next_id;
            deployment_id = i;
            decision_id = decision;
            broker_mode = mode;
            side = side;
            quantity = quantity;
            status = ExecutionOrderStatus.intent;
            reconciliation_state = ReconciliationState.not_applicable;
            external_order_id = none;
            intent_committed_at = some now;
            submitted_at = none;
            completed_at = none;
            reconciliation_attempted_at = none;
            reconciliation_error = false;
            reconciled_at = none;
            reconciled_by = none;
          }
            ∷ [];
      next_id = suc d.next_id;
    })
    pure db.next_id

  unfoldable pub get_execution_order : ℕ → Database D → Option (ExecutionOrder D)
  get_execution_order i db = find (order_is i) db.orders

  unfoldable pub with_status :
      ExecutionOrderStatus → OrderChange → ExecutionOrder D → ExecutionOrder D
  with_status target c o = record o {
    status = target;
    reconciliation_state = keep_or c.reconciliation_state o.reconciliation_state;
    external_order_id = first_of_two c.external_order_id o.external_order_id;
    submitted_at = first_of_two c.submitted_at o.submitted_at;
    completed_at = first_of_two c.completed_at o.completed_at;
  }

  unfoldable pub transition_execution_order :
      ℕ → ExecutionOrderStatus → OrderChange → Action D (Unit {0})
  unfolding get_execution_order with_status validate_order_transition ◌>>=◌
  transition_execution_order i target c = do
    db ← get_db
    o ← or_raise (get_execution_order i db) not_found
    raise_if (not (validate_order_transition o.status target)) illegal_transition
    modify (edit_order i (with_status target c))

  -- Rows come in the order of creation, which is the order of the table.
  unfoldable pub list_orders_for_deployment : ℕ → Database D → List (ExecutionOrder D)
  list_orders_for_deployment i db = select (λ o. o.deployment_id == i) db.orders

  abbrev pub is_incomplete : ExecutionOrder D → Bool
  is_incomplete o =
      status_eq o.status ExecutionOrderStatus.intent
      || status_eq o.status ExecutionOrderStatus.submitted

  mark_each : List (ExecutionOrder D) → ℕ → Action D ℕ
  unfolding transition_execution_order ◌>>=◌
  mark_each [] marked = pure marked
  mark_each (o ∷ rest) marked =
      transition_execution_order o.id ExecutionOrderStatus.unknown pending_change
      >> mark_each rest (suc marked)

  unfoldable pub mark_incomplete_orders_unknown : ℕ → Action D ℕ
  unfolding mark_each ◌>>=◌
  mark_incomplete_orders_unknown i = do
    db ← get_db
    mark_each (select (λ o. o.deployment_id == i && is_incomplete o) db.orders) 0

  -- UNKNOWN and PENDING
  abbrev pub is_pending : ExecutionOrder D → Bool
  is_pending o =
      status_eq o.status ExecutionOrderStatus.unknown
      && state_eq o.reconciliation_state ReconciliationState.pending

  unfoldable pub list_pending_reconciliation_orders :
      Option ℕ → Database D → List (ExecutionOrder D)
  list_pending_reconciliation_orders none db = select is_pending db.orders
  list_pending_reconciliation_orders (some i) db =
      select (λ o. is_pending o && o.deployment_id == i) db.orders

  unfoldable pub record_reconciliation_attempt : ℕ → Option ℕ → Bool → Action D (Unit {0})
  unfolding get_execution_order ◌>>=◌
  record_reconciliation_attempt i at_time error = do
    db ← get_db
    o ← or_raise (get_execution_order i db) not_found
    now ← get_now
    modify (
        edit_order i (λ r. record r {
          reconciliation_attempted_at = some (at_or at_time now);
          reconciliation_error = error;
        }))

  unfoldable pub finalize_order_reconciliation : ℕ → Actor → Option ℕ → Action D (Unit {0})
  unfolding get_execution_order ◌>>=◌
  finalize_order_reconciliation i actor at_time = do
    db ← get_db
    o ← or_raise (get_execution_order i db) not_found
    now ← get_now
    modify (
        edit_order i (λ r. record r {
          reconciliation_state = ReconciliationState.reconciled;
          reconciled_at = some (at_or at_time now);
          reconciled_by = some actor;
          reconciliation_error = false;
        }))

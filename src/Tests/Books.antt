-- ===== src/Tests/Books.antt =====
-- Runs of the domain rules, the ledger and the paper broker.
use q_backend.Prelude.{◌+◌, ◌≤◌, ◌≡◌, ◌⊎◌, refl, true, false, none, some, arith}
use q_backend.Prelude.Int.{ℤ, pos, ◌+ℤ◌, ◌-ℤ◌}
use q_backend.Decimal.Fixed.{fixed, fixed-Exact}
use q_backend.Execution.Domain.{
  BrokerMode, DeploymentLifecycle, ExecutionSide, ExecutionOrderStatus, PositionSide,
  is_deployment_terminal, is_deployment_evaluating, validate_order_transition,
  validate_deployment_transition,
}
use q_backend.Execution.Domain.Lifecycle.{
  OrderPath, DeploymentPath, rank, OrderPath-bounded, OrderPath-unknown, DeploymentPath-terminal,
}
use q_backend.Execution.Broker.Paper.{submit_market_order}
use q_backend.Execution.Broker.Paper.Answer.{Answer, submit_market_order-answer}
use q_backend.Execution.Session.Rows.{Session}
use q_backend.Execution.Session.Monad.{ok, err, lease_conflict, token_mismatch, ◌>>=◌}
use q_backend.Execution.Repositories.Books.{
  get_paper_account, update_paper_cash_balance, get_execution_fill_by_external_id,
  create_execution_fill, get_open_net_position, append_ledger_entry, upserted,
  upsert_open_net_position,
}
use q_backend.Execution.Repositories.Books.OneOpen.{open_count, upsert_open_net_position-open_count}
use q_backend.Execution.Repositories.Orders.{
  transition_execution_order, get_execution_order, with_status,
}
use q_backend.Execution.Repositories.Leases.{
  acquire_worker_lease, heartbeat_worker_lease, release_worker_lease, get_worker_lease,
}
use q_backend.Execution.Repositories.Leases.Exclusion.{acquire_worker_lease-exclusive}
use q_backend.Execution.Ledger.Position.{PositionTransition, transition_position}
use q_backend.Execution.Ledger.Position.Net.{Accounts, transition_position-Accounts}
use q_backend.Execution.Ledger.Position.Close.{IsClosed}
use q_backend.Execution.Ledger.Fill.{
  LedgerApplyResult, apply_fill, apply_new, write_fill, append_unless_zero, complete_order,
  realized_by,
}
use q_backend.Execution.Ledger.Fill.Once.{apply_fill-apply_fill}
use q_backend.Execution.Ledger.Fill.Cash.{IsBalanced, apply_fill-IsBalanced}
use q_backend.Execution.Service.Call.{map_signal_to_order}
use q_backend.Execution.Service.Flatten.{map_signal_to_order-IsClosed}
use q_backend.Tests.Scene.{with_intent, call, quote, request, cost, tables, at_rest}

OrderPath-bounded_example :
    (rank ExecutionOrderStatus.intent + 2 ≤ rank ExecutionOrderStatus.filled) × (2 ≤ 3)
unfolding validate_order_transition
OrderPath-bounded_example =
    OrderPath-bounded ExecutionOrderStatus.intent ExecutionOrderStatus.filled 2 (
      OrderPath.next ExecutionOrderStatus.filled
        (OrderPath.next ExecutionOrderStatus.submitted OrderPath.here refl) refl)

OrderPath-unknown_example :
    (ExecutionOrderStatus.filled ≡ ExecutionOrderStatus.unknown)
    ⊎ (ExecutionOrderStatus.filled ≡ ExecutionOrderStatus.filled)
    ⊎ (ExecutionOrderStatus.filled ≡ ExecutionOrderStatus.rejected)
unfolding validate_order_transition
OrderPath-unknown_example =
    OrderPath-unknown ExecutionOrderStatus.filled 1
      (OrderPath.next ExecutionOrderStatus.filled OrderPath.here refl)

DeploymentPath-terminal_example :
    (is_deployment_terminal DeploymentLifecycle.stopped ≡ true)
    × (is_deployment_evaluating DeploymentLifecycle.stopped ≡ false)
unfolding validate_deployment_transition is_deployment_terminal
DeploymentPath-terminal_example =
    DeploymentPath-terminal DeploymentLifecycle.error DeploymentLifecycle.stopped refl
      (DeploymentPath.next DeploymentLifecycle.stopped DeploymentPath.here refl)

submit_market_order-answer_example :
    Answer ⦃a = fixed⦄ BrokerMode.paper
      (some quote)
      100
      request
      cost
      (submit_market_order ⦃a = fixed⦄ BrokerMode.paper (λ symbol. some quote) 100 request cost)
submit_market_order-answer_example =
    submit_market_order-answer ⦃a = fixed⦄ BrokerMode.paper (λ symbol. some quote) 100 request cost

-- Selling five against two long turns the position to three short.
transition_position-Accounts_example :
    (t : PositionTransition ℤ) × (transition_position ⦃a = fixed⦄ PositionSide.long
        (pos 2)
        (some (pos 100))
        ExecutionSide.sell
        (pos 5)
        (pos 90)
      ≡ some t)
    × Accounts ⦃a = fixed⦄ fixed-Exact PositionSide.long (pos 2) ExecutionSide.sell (pos 5) t
transition_position-Accounts_example =
    transition_position-Accounts ⦃a = fixed⦄ fixed-Exact PositionSide.long (pos 2) (some (pos 100))
      ExecutionSide.sell (pos 5) (pos 90) (omega arith) (omega arith)

abbrev closed : PositionTransition ℤ
closed = record {
  new_side = PositionSide.flat;
  new_quantity = pos 0;
  new_average_entry_price = none;
  close_quantity = pos 2;
  closing_side = some PositionSide.short;
  open_quantity = pos 0;
  opening_side = none;
}

map_signal_to_order-IsClosed_example : IsClosed ⦃a = fixed⦄ PositionSide.short (pos 2) closed
unfolding map_signal_to_order transition_position ◌-ℤ◌
map_signal_to_order-IsClosed_example =
    map_signal_to_order-IsClosed ⦃a = fixed⦄ fixed-Exact PositionSide.short (pos 2) none
      (some (pos 100)) ExecutionSide.buy (pos 2) (pos 90) closed refl refl

-- The fill of the scene, applied once.
abbrev after_fill : Session ℤ
after_fill = (apply_fill ⦃a = fixed⦄ call with_intent).1

abbrev first_answer : LedgerApplyResult ℤ
first_answer = record {
  fill_id = 20;
  cash_balance = pos 998;
  realized_pnl = pos 0;
  fee = pos 2;
  position_side = PositionSide.long;
  position_quantity = pos 2;
  average_entry_price = some (pos 101);
  idempotent = false;
}

applied : apply_fill ⦃a = fixed⦄ call with_intent ≡ (ok first_answer, after_fill)
unfolding apply_fill apply_new write_fill create_execution_fill append_unless_zero
    append_ledger_entry update_paper_cash_balance upsert_open_net_position upserted complete_order
    transition_execution_order transition_position realized_by get_paper_account
    get_execution_fill_by_external_id get_open_net_position get_execution_order with_status
    validate_order_transition ◌>>=◌ ◌+ℤ◌ ◌-ℤ◌
applied = refl

apply_fill-apply_fill_example :
    (r : LedgerApplyResult ℤ) × (apply_fill ⦃a = fixed⦄ call after_fill ≡ (ok r, after_fill))
    × (r.idempotent ≡ true)
    × (r.cash_balance ≡ pos 998)
apply_fill-apply_fill_example =
    apply_fill-apply_fill ⦃a = fixed⦄ call call with_intent after_fill first_answer
      (record { mode = refl; external = refl; account = refl }) applied

apply_fill-IsBalanced_example : IsBalanced ⦃a = fixed⦄ fixed-Exact 1 after_fill.db
unfolding get_paper_account ◌+ℤ◌
apply_fill-IsBalanced_example =
    apply_fill-IsBalanced ⦃a = fixed⦄ fixed-Exact 1 call with_intent after_fill first_answer
      (λ acc found. ground arith) applied

-- The lease that worker 6 acquires once the one of worker 5 has expired.
abbrev taken_over : Session ℤ
taken_over = (acquire_worker_lease 1 6 8 100 300 (at_rest tables)).1

acquire_worker_lease-exclusive_example :
    (acquire_worker_lease 1 5 9 100 350 taken_over ≡ (err lease_conflict, taken_over))
    × (heartbeat_worker_lease 1 5 9 100 350 taken_over ≡ (err token_mismatch, taken_over))
    × (release_worker_lease 1 5 9 taken_over ≡ (err token_mismatch, taken_over))
unfolding acquire_worker_lease get_worker_lease ◌>>=◌
acquire_worker_lease-exclusive_example =
    acquire_worker_lease-exclusive 1 6 8 100 300 5 9 100 350 (at_rest tables) taken_over refl
      (omega arith) (omega arith)

upsert_open_net_position-open_count_example :
    ((upsert_open_net_position ⦃a = fixed⦄ 1 PositionSide.short
        (pos 3)
        (some (pos 90))
        100
        after_fill).0
      ≡ ok tt)
    × (open_count 1
          (upsert_open_net_position ⦃a = fixed⦄ 1 PositionSide.short
            (pos 3)
            (some (pos 90))
            100
            after_fill).1.db
        ≤ 1)
unfolding apply_fill apply_new write_fill create_execution_fill append_unless_zero
    append_ledger_entry update_paper_cash_balance upsert_open_net_position upserted complete_order
    transition_execution_order transition_position realized_by get_paper_account
    get_execution_fill_by_external_id get_open_net_position get_execution_order with_status
    validate_order_transition ◌>>=◌ ◌+ℤ◌ ◌-ℤ◌
upsert_open_net_position-open_count_example =
    upsert_open_net_position-open_count ⦃a = fixed⦄ 1 1 PositionSide.short (pos 3) (some (pos 90))
      100 after_fill (omega arith)

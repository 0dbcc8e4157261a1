-- ===== src/Execution/Repositories/Deployments.antt =====
-- Deployments, decisions, risk events and the kill switch.
use q_backend.Prelude.{
  ℕ, suc, Bool, true, false, ◌&&◌, ◌||◌, ◌==◌, Option, none, some, [], ◌∷◌, ◌++◌, find, update, any,
  if◌then◌else◌, not,
}
use q_backend.Execution.Domain.{
  DeploymentLifecycle, DecisionOutcome, SignalAction, RiskRejectionCode, lifecycle_eq,
  validate_deployment_transition,
}
use q_backend.Execution.Session.Rows.{ExecutionDeployment, ExecutionDecision, Database}
use q_backend.Execution.Session.Monad.{
  Action, not_found, illegal_transition, integrity, ◌>>=◌, ◌>>◌, pure, get_db, get_now, modify,
  or_raise, raise_if,
}

-- `value or default` of an optional instant.
abbrev pub at_or : Option ℕ → ℕ → ℕ
at_or none d = d
at_or (some t) d = t

abbrev pub is_none : {A : Type 0} → Option A → Bool
is_none none = true
is_none (some x) = false

abbrev switch_or_off : Option Bool → Bool
switch_or_off none = false
switch_or_off (some b) = b

module _ {D : Type 0} where
  abbrev pub deployment_is : ℕ → ExecutionDeployment D → Bool
  deployment_is i d = d.id == i

  unfoldable pub get_execution_deployment : ℕ → Database D → Option (ExecutionDeployment D)
  get_execution_deployment i db = find (deployment_is i) db.deployments

  abbrev pub edit_deployment :
      ℕ → (ExecutionDeployment D → ExecutionDeployment D) → Database D → Database D
  edit_deployment i f db = record db { deployments = update (deployment_is i) f db.deployments }

  -- The new lifecycle and its stamps, as `transition_deployment_lifecycle` writes them.
  unfoldable pub with_lifecycle :
      DeploymentLifecycle → ℕ → ExecutionDeployment D → ExecutionDeployment D
  with_lifecycle target now d = record d {
    lifecycle = target;
    started_at =
        if lifecycle_eq target DeploymentLifecycle.running && is_none d.started_at
        then some now
        else d.started_at;
    stopped_at =
        if lifecycle_eq target DeploymentLifecycle.stopped
          || lifecycle_eq target DeploymentLifecycle.error
        then some now
        else d.stopped_at;
  }

  unfoldable pub transition_deployment_lifecycle :
      ℕ → DeploymentLifecycle → Option ℕ → Action D (Unit {0})
  unfolding get_execution_deployment with_lifecycle validate_deployment_transition ◌>>=◌
  transition_deployment_lifecycle i target at_time = do
    db ← get_db
    d ← or_raise (get_execution_deployment i db) not_found
    raise_if (not (validate_deployment_transition d.lifecycle target)) illegal_transition
    now ← get_now
    modify (edit_deployment i (with_lifecycle target (at_or at_time now)))

  -- execution/commands.py
  unfoldable pub start_deployment : ℕ → Action D (Unit {0})
  unfolding transition_deployment_lifecycle
  start_deployment i = transition_deployment_lifecycle i DeploymentLifecycle.running none

  unfoldable pub pause_deployment : ℕ → Action D (Unit {0})
  unfolding transition_deployment_lifecycle
  pause_deployment i = transition_deployment_lifecycle i DeploymentLifecycle.paused none

  unfoldable pub stop_deployment : ℕ → Action D (Unit {0})
  unfolding transition_deployment_lifecycle
  stop_deployment i = transition_deployment_lifecycle i DeploymentLifecycle.stopped none

  unfoldable pub update_deployment_last_bar_close : ℕ → ℕ → Action D (Unit {0})
  unfolding get_execution_deployment ◌>>=◌
  update_deployment_last_bar_close i bar = do
    db ← get_db
    d ← or_raise (get_execution_deployment i db) not_found
    modify (edit_deployment i (λ r. record r { last_bar_close_time = some bar }))

  abbrev pub decision_is : ℕ → ExecutionDecision D → Bool
  decision_is i d = d.id == i

  abbrev pub decision_for : ℕ → ℕ → ExecutionDecision D → Bool
  decision_for i bar d = d.deployment_id == i && d.bar_close_time == bar

  unfoldable pub get_decision_for_bar : ℕ → ℕ → Database D → Option (ExecutionDecision D)
  get_decision_for_bar i bar db = find (decision_for i bar) db.decisions

  -- The unique index on deployment and bar close refuses a second decision.
  unfoldable pub create_execution_decision :
      ℕ → ℕ → SignalAction → DecisionOutcome → Option D → Action D ℕ
  unfolding ◌>>=◌
  create_execution_decision i bar signal outcome requested = do
    db ← get_db
    raise_if (any (decision_for i bar) db.decisions) integrity
    modify (λ d. record d {
      decisions =
          d.decisions
          ++ record {
            id = d.next_id;
            deployment_id = i;
            bar_close_time = bar;
            signal_action = signal;
            outcome = outcome;
            requested_quantity = requested;
          }
            ∷ [];
      next_id = suc d.next_id;
    })
    pure db.next_id

  unfoldable pub update_execution_decision_outcome : ℕ → DecisionOutcome → Action D (Unit {0})
  unfolding ◌>>=◌
  update_execution_decision_outcome i outcome = do
    db ← get_db
    d ← or_raise (find (decision_is i) db.decisions) not_found
    modify (λ b. record b {
      decisions = update (decision_is i) (λ r. record r { outcome = outcome }) b.decisions;
    })

  unfoldable pub record_risk_event : ℕ → RiskRejectionCode → Option ℕ → Action D (Unit {0})
  record_risk_event i code decision = modify (λ d. record d {
    risk_events =
        d.risk_events
        ++ record {
          deployment_id = i;
          decision_id = decision;
          order_id = none;
          rejection_code = code;
        }
          ∷ [];
  })

  -- `get_execution_control_state`: the row is created, switched off, where it is missing.
  unfoldable pub get_execution_control_state : Action D Bool
  unfolding ◌>>=◌
  get_execution_control_state = do
    modify (λ d. record d { kill_switch = some (switch_or_off d.kill_switch) })
    db ← get_db
    pure (switch_or_off db.kill_switch)

  unfoldable pub set_kill_switch : Bool → Action D (Unit {0})
  unfolding get_execution_control_state ◌>>=◌
  set_kill_switch enabled = do
    s ← get_execution_control_state
    modify (λ d. record d { kill_switch = some enabled })

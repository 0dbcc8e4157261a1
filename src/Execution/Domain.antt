-- ===== src/Execution/Domain.antt =====
-- execution/domain.py: the enumerations, and the status changes that deployments and orders may
-- make. An enumeration member keeps its name; a comparison `==` of members is a function by
-- clauses.
pub mod Lifecycle
use q_backend.Prelude.{ℕ, Bool, true, false, List, [], ◌∷◌, Option, any, ◌==◌, ◌&&◌, ◌||◌}

pub data BrokerMode : Type 0 where
  paper mt5_live : BrokerMode

pub data DeploymentLifecycle : Type 0 where
  draft running paused stopped error : DeploymentLifecycle

pub data DecisionOutcome : Type 0 where
  hold signal risk_rejected order_intent order_filled order_rejected order_unknown error :
      DecisionOutcome

pub data SignalAction : Type 0 where
  buy sell hold close : SignalAction

pub data ExecutionSide : Type 0 where
  buy sell : ExecutionSide

pub data ExecutionOrderStatus : Type 0 where
  intent submitted filled rejected unknown cancelled : ExecutionOrderStatus

pub data PositionSide : Type 0 where
  long short flat : PositionSide

pub data ReconciliationState : Type 0 where
  not_applicable pending reconciled ambiguous : ReconciliationState

pub data RiskRejectionCode : Type 0 where
  kill_switch lifecycle lease_lost stale_bar stale_quote symbol_unavailable invalid_quantity :
      RiskRejectionCode
  notional_limit one_position_violation insufficient_equity daily_loss_limit : RiskRejectionCode
  database_unavailable broker_unavailable unknown_prior_order : RiskRejectionCode

pub data LedgerEntryType : Type 0 where
  initial_balance fill_cash realized_pnl fee adjustment : LedgerEntryType

abbrev pub mode_eq : BrokerMode → BrokerMode → Bool
mode_eq BrokerMode.paper BrokerMode.paper = true
mode_eq BrokerMode.mt5_live BrokerMode.mt5_live = true
mode_eq _ _ = false

abbrev pub lifecycle_eq : DeploymentLifecycle → DeploymentLifecycle → Bool
lifecycle_eq DeploymentLifecycle.draft DeploymentLifecycle.draft = true
lifecycle_eq DeploymentLifecycle.running DeploymentLifecycle.running = true
lifecycle_eq DeploymentLifecycle.paused DeploymentLifecycle.paused = true
lifecycle_eq DeploymentLifecycle.stopped DeploymentLifecycle.stopped = true
lifecycle_eq DeploymentLifecycle.error DeploymentLifecycle.error = true
lifecycle_eq _ _ = false

abbrev pub status_eq : ExecutionOrderStatus → ExecutionOrderStatus → Bool
status_eq ExecutionOrderStatus.intent ExecutionOrderStatus.intent = true
status_eq ExecutionOrderStatus.submitted ExecutionOrderStatus.submitted = true
status_eq ExecutionOrderStatus.filled ExecutionOrderStatus.filled = true
status_eq ExecutionOrderStatus.rejected ExecutionOrderStatus.rejected = true
status_eq ExecutionOrderStatus.unknown ExecutionOrderStatus.unknown = true
status_eq ExecutionOrderStatus.cancelled ExecutionOrderStatus.cancelled = true
status_eq _ _ = false

abbrev pub state_eq : ReconciliationState → ReconciliationState → Bool
state_eq ReconciliationState.not_applicable ReconciliationState.not_applicable = true
state_eq ReconciliationState.pending ReconciliationState.pending = true
state_eq ReconciliationState.reconciled ReconciliationState.reconciled = true
state_eq ReconciliationState.ambiguous ReconciliationState.ambiguous = true
state_eq _ _ = false

-- `_DEPLOYMENT_TRANSITIONS`
unfoldable pub deployment_transitions : DeploymentLifecycle → List DeploymentLifecycle
deployment_transitions DeploymentLifecycle.draft =
    DeploymentLifecycle.running ∷ DeploymentLifecycle.stopped ∷ []
deployment_transitions DeploymentLifecycle.running =
    DeploymentLifecycle.paused ∷ DeploymentLifecycle.stopped ∷ DeploymentLifecycle.error ∷ []
deployment_transitions DeploymentLifecycle.paused =
    DeploymentLifecycle.running ∷ DeploymentLifecycle.stopped ∷ DeploymentLifecycle.error ∷ []
deployment_transitions DeploymentLifecycle.stopped = []
deployment_transitions DeploymentLifecycle.error = DeploymentLifecycle.stopped ∷ []

-- `_ORDER_TRANSITIONS`
unfoldable pub order_transitions : ExecutionOrderStatus → List ExecutionOrderStatus
order_transitions ExecutionOrderStatus.intent =
    ExecutionOrderStatus.submitted ∷ ExecutionOrderStatus.rejected ∷ ExecutionOrderStatus.unknown
    ∷ ExecutionOrderStatus.cancelled ∷ []
order_transitions ExecutionOrderStatus.submitted =
    ExecutionOrderStatus.filled ∷ ExecutionOrderStatus.rejected ∷ ExecutionOrderStatus.unknown ∷ []
order_transitions ExecutionOrderStatus.unknown =
    ExecutionOrderStatus.filled ∷ ExecutionOrderStatus.rejected ∷ []
order_transitions ExecutionOrderStatus.filled = []
order_transitions ExecutionOrderStatus.rejected = []
order_transitions ExecutionOrderStatus.cancelled = []

-- The test of `validate_deployment_transition`; where it fails the function raises
-- `IllegalLifecycleTransition`.
unfoldable pub validate_deployment_transition : DeploymentLifecycle → DeploymentLifecycle → Bool
unfolding deployment_transitions
validate_deployment_transition current target =
    any (lifecycle_eq target) (deployment_transitions current)

unfoldable pub validate_order_transition : ExecutionOrderStatus → ExecutionOrderStatus → Bool
unfolding order_transitions
validate_order_transition current target = any (status_eq target) (order_transitions current)

unfoldable pub is_deployment_evaluating : DeploymentLifecycle → Bool
is_deployment_evaluating current = lifecycle_eq current DeploymentLifecycle.running

unfoldable pub is_deployment_terminal : DeploymentLifecycle → Bool
is_deployment_terminal current =
    lifecycle_eq current DeploymentLifecycle.stopped
    || lifecycle_eq current DeploymentLifecycle.error

-- The text of an external fill id: `f"{mode}:{order.id}"`, or any other text, numbered.
pub data ExternalId : Type 0 where
  order_tag : BrokerMode → ℕ → ExternalId
  other : ℕ → ExternalId

abbrev pub external_eq : ExternalId → ExternalId → Bool
external_eq (order_tag m n) (order_tag m' n') = mode_eq m m' && (n == n')
external_eq (other n) (other n') = n == n'
external_eq _ _ = false

-- A fill as the broker reports it; the free-form `metadata` is left out.
pub record FillRecord (D : Type 0) : Type 0 where
  pub broker_mode : BrokerMode
  pub external_fill_id : ExternalId
  pub side : ExecutionSide
  pub quantity : D
  pub price : D
  pub fee : D
  pub slippage : D
  pub quote_bid : Option D
  pub quote_ask : Option D
  pub quote_timestamp : Option ℕ
  pub filled_at : ℕ

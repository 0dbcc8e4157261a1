-- ===== src/Execution/Session/Rows.antt =====
-- The rows of the execution tables, and the database as the record of the tables.
use q_backend.Prelude.{ℕ, Bool, List, Option, String}
use q_backend.Execution.Domain.{
  BrokerMode, DeploymentLifecycle, DecisionOutcome, SignalAction, ExecutionSide,
  ExecutionOrderStatus, PositionSide, ReconciliationState, RiskRejectionCode, LedgerEntryType,
  FillRecord,
}

-- A JSON object of decimals, such as a risk configuration.
abbrev pub Config : Type 0 → Type 0
Config D = List (String × D)

pub record PaperAccount (D : Type 0) : Type 0 where
  pub id : ℕ
  pub initial_balance : D
  pub cash_balance : D
  pub risk_config : Config D

pub record ExecutionDeployment (D : Type 0) : Type 0 where
  pub id : ℕ
  pub paper_account_id : ℕ
  pub broker_mode : BrokerMode
  pub lifecycle : DeploymentLifecycle
  pub symbol : ℕ
  pub risk_config : Config D
  pub last_bar_close_time : Option ℕ
  pub started_at : Option ℕ
  pub stopped_at : Option ℕ

pub record ExecutionDecision (D : Type 0) : Type 0 where
  pub id : ℕ
  pub deployment_id : ℕ
  pub bar_close_time : ℕ
  pub signal_action : SignalAction
  pub outcome : DecisionOutcome
  pub requested_quantity : Option D

-- Who resolved an order: the reconciler (`AUTO_ACTOR`) or an operator.
pub data Actor : Type 0 where
  reconciler : Actor
  operator : ℕ → Actor

pub record ExecutionOrder (D : Type 0) : Type 0 where
  pub id : ℕ
  pub deployment_id : ℕ
  pub decision_id : Option ℕ
  pub broker_mode : BrokerMode
  pub side : ExecutionSide
  pub quantity : D
  pub status : ExecutionOrderStatus
  pub reconciliation_state : ReconciliationState
  pub external_order_id : Option ℕ
  pub intent_committed_at : Option ℕ
  pub submitted_at : Option ℕ
  pub completed_at : Option ℕ
  pub reconciliation_attempted_at : Option ℕ
  pub reconciliation_error : Bool  -- whether a text is stored
  pub reconciled_at : Option ℕ
  pub reconciled_by : Option Actor

pub record ExecutionFill (D : Type 0) : Type 0 where
  pub id : ℕ
  pub deployment_id : ℕ
  pub order_id : ℕ
  pub fill : FillRecord D

pub record ExecutionNetPosition (D : Type 0) : Type 0 where
  pub id : ℕ
  pub deployment_id : ℕ
  pub side : PositionSide
  pub quantity : D
  pub average_entry_price : Option D
  pub is_open : Bool
  pub opened_at : Option ℕ
  pub closed_at : Option ℕ

pub record ExecutionLedgerEntry (D : Type 0) : Type 0 where
  pub id : ℕ
  pub paper_account_id : ℕ
  pub deployment_id : ℕ
  pub fill_id : Option ℕ
  pub entry_type : LedgerEntryType
  pub amount : D
  pub balance_after : D
  pub created_at : ℕ

pub record ExecutionRiskEvent : Type 0 where
  pub deployment_id : ℕ
  pub decision_id : Option ℕ
  pub order_id : Option ℕ
  pub rejection_code : RiskRejectionCode

pub record ExecutionWorkerLease : Type 0 where
  pub deployment_id : ℕ
  pub worker_id : ℕ
  pub lease_token : ℕ
  pub acquired_at : ℕ
  pub expires_at : ℕ
  pub heartbeat_at : ℕ

pub record Database (D : Type 0) : Type 0 where
  pub accounts : List (PaperAccount D)
  pub deployments : List (ExecutionDeployment D)
  pub decisions : List (ExecutionDecision D)
  pub orders : List (ExecutionOrder D)
  pub fills : List (ExecutionFill D)
  pub positions : List (ExecutionNetPosition D)
  pub entries : List (ExecutionLedgerEntry D)
  pub risk_events : List ExecutionRiskEvent
  pub leases : List ExecutionWorkerLease
  pub kill_switch : Option Bool  -- the one row of `execution_control_state`
  pub next_id : ℕ

-- `db` is what the session sees, `committed` what a rollback returns to; `now` is the wall clock,
-- which stands still during one action.
pub record Session (D : Type 0) : Type 0 where
  pub db : Database D
  pub committed : Database D
  pub now : ℕ

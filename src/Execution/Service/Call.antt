-- ===== src/Execution/Service/Call.antt =====
-- What one call of `process_completed_bar` is given and what it answers (execution/service.py,
-- execution/results.py). Timings, log lines, messages and the strategy's own description, which a
-- decision row only stores, are left out.
use q_backend.Prelude.{
  ℕ, ◌-◌, ◌%◌, ◌&&◌, Bool, true, false, not, Option, none, some, [], ◌∷◌, String, same_key,
  if◌then◌else◌,
}
use q_backend.Decimal.{Arith, ◌<?◌, ◌≤?◌, dec}
use q_backend.Execution.Domain.{
  DecisionOutcome, SignalAction, ExecutionSide, PositionSide, RiskRejectionCode,
}
use q_backend.Execution.Broker.{ExecutableQuote, ExecutionBroker, PaperCostConfig}
use q_backend.Execution.Session.Rows.{Config, ExecutionDeployment, ExecutionWorkerLease}
use q_backend.Execution.Repositories.Leases.{is_holder}

-- The names at which `CrashInjector.maybe_raise` is called.
pub data Checkpoint : Type 0 where
  before_intent_commit after_intent_commit after_broker_response before_fill_commit : Checkpoint

-- The collaborators of an `ExecutionService`; its clock is the session's.
pub record ExecutionService (D : Type 0) : Type 0 where
  pub broker : ExecutionBroker D
  pub quote_source : ℕ → ℕ → Option (ExecutableQuote D)  -- instant and symbol
  pub crashes : Checkpoint → Bool
  pub max_bar_age : ℕ  -- in microseconds

pub record ForwardDecisionResult (D : Type 0) : Type 0 where
  pub bar_close_time : ℕ
  pub signal_action : SignalAction
  pub requested_quantity : Option D
  pub replay : Bool
  pub skipped_duplicate : Bool

-- The keyword arguments of `process_completed_bar`; `deployment` is the row the caller holds.
pub record BarCall (D : Type 0) : Type 0 where
  pub deployment : ExecutionDeployment D
  pub eval_result : ForwardDecisionResult D
  pub lease_token : ℕ
  pub worker_id : ℕ
  pub cost_config : PaperCostConfig D
  pub point_value : D
  pub allow_lifecycle_bypass : Bool
  pub flatten : Bool

pub record BarProcessResult : Type 0 where
  pub deployment_id : ℕ
  pub bar_close_time : ℕ
  pub decision_id : Option ℕ
  pub outcome : DecisionOutcome
  pub order_id : Option ℕ
  pub duplicate : Bool
  pub rejection : Option RiskRejectionCode

unfoldable pub emits_decision : {D : Type 0} → ForwardDecisionResult D → Bool
emits_decision r = not r.replay && not r.skipped_duplicate

-- `_utc_day_start`: a day has 86,400 seconds.
unfoldable pub utc_day_start : ℕ → ℕ
utc_day_start now = now - now % 86400000000

abbrev pub is_hold : SignalAction → Bool
is_hold SignalAction.hold = true
is_hold _ = false

-- `risk_cfg.get(key)`
unfoldable pub config_get : {D : Type 0} → String → Config D → Option D
config_get key [] = none
config_get key ((k, v) ∷ rest) =
    let later = config_get key rest in if same_key k key then some v else later

-- `deployment.risk_config or account.risk_config or {}`: an empty object counts as false.
unfoldable pub config_or : {D : Type 0} → Config D → Config D → Config D
config_or [] other = other
config_or (entry ∷ rest) other = entry ∷ rest

unfoldable pub lease_held : Option ExecutionWorkerLease → ℕ → ℕ → Bool
lease_held none worker token = false
lease_held (some l) worker token = is_holder l worker token

module _ {D : Type 0} ⦃a : Arith D⦄ where
  -- A signal to buy or sell, for the quantity that was asked for.
  abbrev entry_order : ExecutionSide → Option D → Option (ExecutionSide × D)
  entry_order side none = none
  entry_order side (some q) = if q ≤? dec 0 then none else some (side, q)

  unfoldable pub map_signal_to_order :
      SignalAction → PositionSide → D → Option D → Option (ExecutionSide × D)
  map_signal_to_order SignalAction.hold side quantity requested = none
  map_signal_to_order SignalAction.buy side quantity requested =
      entry_order ExecutionSide.buy requested
  map_signal_to_order SignalAction.sell side quantity requested =
      entry_order ExecutionSide.sell requested
  map_signal_to_order SignalAction.close PositionSide.long quantity requested =
      if dec 0 <? quantity then some (ExecutionSide.sell, quantity) else none
  map_signal_to_order SignalAction.close PositionSide.short quantity requested =
      if dec 0 <? quantity then some (ExecutionSide.buy, quantity) else none
  map_signal_to_order SignalAction.close PositionSide.flat quantity requested = none

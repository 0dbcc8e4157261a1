-- ===== src/Execution/Broker.antt =====
-- execution/brokers/base.py: what a broker is asked and what it answers. Instants are whole
-- microseconds of UTC, so `_as_utc` has nothing left to do; symbols are only compared and are
-- numbers; the free text of messages and the raw request and response bodies are left out.
pub mod Paper
use q_backend.Prelude.{ℕ, Bool, true, false, Option}
use q_backend.Execution.Domain.{ExecutionSide, FillRecord, ExternalId}

pub data BrokerRejectionCode : Type 0 where
  quote_unavailable stale_quote invalid_quote invalid_quantity symbol_unavailable :
      BrokerRejectionCode
  broker_unavailable live_locked account_not_allowlisted trading_disabled : BrokerRejectionCode
  unsupported_fill_policy order_check_failed order_send_failed : BrokerRejectionCode

pub data BrokerSubmissionOutcome : Type 0 where
  filled rejected unknown : BrokerSubmissionOutcome

pub data BrokerOrderLookupStatus : Type 0 where
  filled rejected not_found unavailable : BrokerOrderLookupStatus

pub record PaperCostConfig (D : Type 0) : Type 0 where
  pub point_value : D
  pub slippage_points : D
  pub cost_per_contract : D
  pub cost_bps : D
  pub max_quote_age : ℕ  -- in microseconds
  pub volume_step : D
  pub min_volume : D

pub record ExecutableQuote (D : Type 0) : Type 0 where
  pub symbol : ℕ
  pub bid : D
  pub ask : D
  pub timestamp : ℕ

pub record MarketOrderRequest (D : Type 0) : Type 0 where
  pub deployment_id : ℕ
  pub order_id : ℕ
  pub symbol : ℕ
  pub side : ExecutionSide
  pub quantity : D
  pub external_fill_id : ExternalId

pub record BrokerSubmissionResult (D : Type 0) : Type 0 where
  pub outcome : BrokerSubmissionOutcome
  pub fill : Option (FillRecord D)
  pub rejection : Option BrokerRejectionCode
  pub external_order_id : Option ℕ

-- `BrokerSubmissionResult.accepted`
unfoldable pub accepted : {D : Type 0} → BrokerSubmissionResult D → Bool
accepted r = elim r.outcome [ BrokerSubmissionOutcome.filled ↦ true | _ ↦ false ]

pub record BrokerOrderState (D : Type 0) : Type 0 where
  pub status : BrokerOrderLookupStatus
  pub fill : Option (FillRecord D)
  pub external_order_id : Option ℕ

-- `ExecutionBroker`: the two calls that the program makes of a broker, at an instant.
pub record ExecutionBroker (D : Type 0) : Type 0 where
  pub submit_market_order : ℕ → MarketOrderRequest D → PaperCostConfig D → BrokerSubmissionResult D
  pub lookup_order : ℕ → MarketOrderRequest D → BrokerOrderState D

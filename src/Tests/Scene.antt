-- ===== src/Tests/Scene.antt =====
-- The scene: account 1 with 1,000 units of cash, deployment 1 on symbol 7, worker 5 with token 9.
use q_backend.Prelude.{false, none, some, [], ◌∷◌}
use q_backend.Prelude.Int.{ℤ, pos}
use q_backend.Decimal.Fixed.{fixed}
use q_backend.Execution.Domain.{
  BrokerMode, DeploymentLifecycle, DecisionOutcome, SignalAction, ExecutionSide,
  ExecutionOrderStatus, ReconciliationState, FillRecord, ExternalId,
}
use q_backend.Execution.Broker.{
  PaperCostConfig, ExecutableQuote, MarketOrderRequest, ExecutionBroker,
}
use q_backend.Execution.Broker.Paper.{paper_broker}
use q_backend.Execution.Session.Rows.{
  PaperAccount, ExecutionDeployment, ExecutionDecision, ExecutionOrder, Database, Session,
}
use q_backend.Execution.Ledger.Fill.{FillCall}
use q_backend.Execution.Service.Call.{ExecutionService, BarCall}

abbrev pub account : PaperAccount ℤ
account = record { id = 1; initial_balance = pos 1000; cash_balance = pos 1000; risk_config = [] }

abbrev pub deployment : ExecutionDeployment ℤ
deployment = record {
  id = 1;
  paper_account_id = 1;
  broker_mode = BrokerMode.paper;
  lifecycle = DeploymentLifecycle.running;
  symbol = 7;
  risk_config = [];
  last_bar_close_time = none;
  started_at = some 10;
  stopped_at = none;
}

abbrev pub decision : ExecutionDecision ℤ
decision = record {
  id = 11;
  deployment_id = 1;
  bar_close_time = 80;
  signal_action = SignalAction.buy;
  outcome = DecisionOutcome.signal;
  requested_quantity = some (pos 2);
}

-- An order to buy two, as its intent is stored.
abbrev pub intended : ExecutionOrder ℤ
intended = record {
  id = 12;
  deployment_id = 1;
  decision_id = some 11;
  broker_mode = BrokerMode.paper;
  side = ExecutionSide.buy;
  quantity = pos 2;
  status = ExecutionOrderStatus.intent;
  reconciliation_state = ReconciliationState.not_applicable;
  external_order_id = none;
  intent_committed_at = some 81;
  submitted_at = none;
  completed_at = none;
  reconciliation_attempted_at = none;
  reconciliation_error = false;
  reconciled_at = none;
  reconciled_by = none;
}

-- The same order with an unknown outcome.
abbrev pub unresolved : ExecutionOrder ℤ
unresolved = record intended {
  status = ExecutionOrderStatus.unknown;
  reconciliation_state = ReconciliationState.pending;
}

abbrev pub tables : Database ℤ
tables = record {
  accounts = account ∷ [];
  deployments = deployment ∷ [];
  decisions = [];
  orders = [];
  fills = [];
  positions = [];
  entries = [];
  risk_events = [];
  leases =
      record {
        deployment_id = 1;
        worker_id = 5;
        lease_token = 9;
        acquired_at = 50;
        expires_at = 200;
        heartbeat_at = 90;
      }
      ∷ [];
  kill_switch = some false;
  next_id = 20;
}

abbrev pub at_rest : Database ℤ → Session ℤ
at_rest db = record { db = db; committed = db; now = 100 }

abbrev pub with_intent : Session ℤ
with_intent = at_rest (record tables { decisions = decision ∷ []; orders = intended ∷ [] })

abbrev pub with_unresolved : Session ℤ
with_unresolved = at_rest (record tables { decisions = decision ∷ []; orders = unresolved ∷ [] })

abbrev pub cost : PaperCostConfig ℤ
cost = record {
  point_value = pos 1;
  slippage_points = pos 1;
  cost_per_contract = pos 1;
  cost_bps = pos 0;
  max_quote_age = 60;
  volume_step = pos 1;
  min_volume = pos 1;
}

abbrev pub quote : ExecutableQuote ℤ
quote = record { symbol = 7; bid = pos 99; ask = pos 100; timestamp = 95 }

abbrev pub broker : ExecutionBroker ℤ
broker = paper_broker ⦃a = fixed⦄ BrokerMode.paper (λ symbol. some quote)

abbrev pub request : MarketOrderRequest ℤ
request = record {
  deployment_id = 1;
  order_id = 12;
  symbol = 7;
  side = ExecutionSide.buy;
  quantity = pos 2;
  external_fill_id = ExternalId.order_tag BrokerMode.paper 12;
}

abbrev pub fill : FillRecord ℤ
fill = record {
  broker_mode = BrokerMode.paper;
  external_fill_id = ExternalId.order_tag BrokerMode.paper 12;
  side = ExecutionSide.buy;
  quantity = pos 2;
  price = pos 101;
  fee = pos 2;
  slippage = pos 1;
  quote_bid = some (pos 99);
  quote_ask = some (pos 100);
  quote_timestamp = some 95;
  filled_at = 100;
}

abbrev pub call : FillCall ℤ
call = record {
  paper_account_id = 1;
  deployment_id = 1;
  order_id = 12;
  fill = fill;
  point_value = pos 1;
  reconciling = false;
}

abbrev pub service : ExecutionService ℤ
service = record {
  broker = broker;
  quote_source = λ now symbol. some quote;
  crashes = λ point. false;
  max_bar_age = 50;
}

abbrev pub bar_call : BarCall ℤ
bar_call = record {
  deployment = deployment;
  eval_result = record {
    bar_close_time = 90;
    signal_action = SignalAction.buy;
    requested_quantity = some (pos 2);
    replay = false;
    skipped_duplicate = false;
  };
  lease_token = 9;
  worker_id = 5;
  cost_config = cost;
  point_value = pos 1;
  allow_lifecycle_bypass = false;
  flatten = false;
}

-- ===== src/Execution/Broker/Paper.antt =====
-- execution/brokers/paper.py: the simulated broker.
pub mod Answer
use q_backend.Prelude.{ℕ, ◌+◌, Bool, ◌||◌, not, Option, none, some, ltb, if◌then◌else◌}
use q_backend.Decimal.{Arith, ◌⊕◌, ◌⊖◌, ◌⊗◌, ◌⊘◌, ◌<?◌, ◌≤?◌, ◌=?◌, dec}
use q_backend.Execution.Domain.{ExecutionSide, BrokerMode, FillRecord}
use q_backend.Execution.Broker.{
  BrokerRejectionCode, BrokerSubmissionOutcome, BrokerOrderLookupStatus, PaperCostConfig,
  ExecutableQuote, MarketOrderRequest, BrokerSubmissionResult, BrokerOrderState, ExecutionBroker,
}

-- `(now - then) > limit`, where the difference of the instants may be negative.
abbrev pub older_than : ℕ → ℕ → ℕ → Bool
older_than now stamp limit = ltb (stamp + limit) now

module _ {D : Type 0} ⦃a : Arith D⦄ where
  unfoldable pub validate_quote : Option (ExecutableQuote D) → ℕ → ℕ → Option BrokerRejectionCode
  validate_quote none now max_age = some BrokerRejectionCode.quote_unavailable
  validate_quote (some q) now max_age =
      if q.bid ≤? dec 0 || q.ask ≤? dec 0
      then some BrokerRejectionCode.invalid_quote
      else if q.ask ≤? q.bid
      then some BrokerRejectionCode.invalid_quote
      else if older_than now q.timestamp max_age
      then some BrokerRejectionCode.stale_quote
      else none

  unfoldable pub validate_quantity : D → D → D → Option BrokerRejectionCode
  validate_quantity quantity volume_step min_volume =
      if quantity ≤? dec 0
      then some BrokerRejectionCode.invalid_quantity
      else if quantity <? min_volume
      then some BrokerRejectionCode.invalid_quantity
      else if not (a.rem quantity volume_step =? dec 0)
      then some BrokerRejectionCode.invalid_quantity
      else none

  unfoldable pub executable_fill_price : ExecutionSide → ExecutableQuote D → D → D
  executable_fill_price ExecutionSide.buy q slippage = q.ask ⊕ slippage
  executable_fill_price ExecutionSide.sell q slippage = q.bid ⊖ slippage

  unfoldable pub compute_commission : PaperCostConfig D → D → D → D
  compute_commission cost price quantity =
      let per_contract = cost.cost_per_contract ⊗ quantity in
      let notional = price ⊗ quantity ⊗ cost.point_value in
      let bps_part = cost.cost_bps ⊘ dec 10000 ⊗ notional in per_contract ⊕ bps_part

  abbrev refused : BrokerRejectionCode → BrokerSubmissionResult D
  refused code = record {
    outcome = BrokerSubmissionOutcome.rejected;
    fill = none;
    rejection = some code;
    external_order_id = none;
  }

  paper_fill :
      BrokerMode → ℕ → ExecutableQuote D → MarketOrderRequest D → PaperCostConfig D → FillRecord D
  unfolding executable_fill_price compute_commission
  paper_fill mode now quote request cost =
      let price = executable_fill_price request.side quote cost.slippage_points in
      record {
        broker_mode = mode;
        external_fill_id = request.external_fill_id;
        side = request.side;
        quantity = request.quantity;
        price = price;
        fee = compute_commission cost price request.quantity;
        slippage = cost.slippage_points;
        quote_bid = some quote.bid;
        quote_ask = some quote.ask;
        quote_timestamp = some quote.timestamp;
        filled_at = now;
      }

  -- The end of `submit_market_order`, after the tests; the `assert` there cannot fail, since
  -- `validate_quote` refuses a missing quote.
  submit_checked :
      BrokerMode
      → ℕ
      → Option (ExecutableQuote D)
      → MarketOrderRequest D
      → PaperCostConfig D
      → BrokerSubmissionResult D
  unfolding paper_fill
  submit_checked mode now none request cost = refused BrokerRejectionCode.quote_unavailable
  submit_checked mode now (some quote) request cost = record {
    outcome = BrokerSubmissionOutcome.filled;
    fill = some (paper_fill mode now quote request cost);
    rejection = none;
    external_order_id = none;
  }

  -- `PaperBroker.submit_market_order`, with the quote source as a function.
  unfoldable pub submit_market_order :
      BrokerMode
      → (ℕ → Option (ExecutableQuote D))
      → ℕ
      → MarketOrderRequest D
      → PaperCostConfig D
      → BrokerSubmissionResult D
  unfolding submit_checked validate_quote validate_quantity
  submit_market_order mode get_quote now request cost =
      let quote = get_quote request.symbol in
      elim (validate_quote quote now cost.max_quote_age) [
        | some code ↦ refused code
        | none ↦ elim (validate_quantity request.quantity cost.volume_step cost.min_volume) [
          | some code ↦ refused code
          | none ↦ submit_checked mode now quote request cost
        ]
      ]

  -- `PaperBroker.lookup_order`
  unfoldable pub lookup_order : MarketOrderRequest D → BrokerOrderState D
  lookup_order request = record {
    status = BrokerOrderLookupStatus.not_found;
    fill = none;
    external_order_id = none;
  }

  abbrev pub paper_broker : BrokerMode → (ℕ → Option (ExecutableQuote D)) → ExecutionBroker D
  paper_broker mode get_quote = record {
    submit_market_order = submit_market_order mode get_quote;
    lookup_order = λ now. lookup_order;
  }

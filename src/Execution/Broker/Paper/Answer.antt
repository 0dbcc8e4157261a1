-- ===== src/Execution/Broker/Paper/Answer.antt =====
-- What the paper broker answers (execution/brokers/paper.py).
use q_backend.Prelude.{
  ℕ, ◌+◌, ◌≤◌, ◌<◌, ◌≡◌, ◌⊎◌, inl, inr, true, false, Option, none, some, refl, arith,
}
use q_backend.Decimal.{Arith, ◌⊕◌, ◌⊖◌, ◌⊗◌, ◌⊘◌, ◌<?◌, ◌≤?◌, ◌=?◌, dec}
use q_backend.Execution.Domain.{BrokerMode, ExecutionSide, FillRecord}
use q_backend.Execution.Broker.{
  BrokerRejectionCode, BrokerSubmissionOutcome, PaperCostConfig, ExecutableQuote,
  MarketOrderRequest, BrokerSubmissionResult,
}
use q_backend.Execution.Broker.Paper.{
  validate_quote, validate_quantity, executable_fill_price, compute_commission, submit_market_order,
  submit_checked, paper_fill,
}

unquoted :
    {D : Type 0} (a : Arith D) (now age : ℕ)
    → validate_quote ⦃a = a⦄ none now age ≡ some BrokerRejectionCode.quote_unavailable
unfolding validate_quote
unquoted a now age = refl

module _ {D : Type 0} ⦃a : Arith D⦄ where
  -- Both prices are positive, and the ask is above the bid.
  abbrev pub IsSound : ExecutableQuote D → Type 0
  IsSound q = ((q.bid ≤? dec 0) ≡ false) × ((q.ask ≤? dec 0) ≡ false) × ((q.ask ≤? q.bid) ≡ false)

  abbrev pub IsUnsound : ExecutableQuote D → Type 0
  IsUnsound q = ((q.bid ≤? dec 0) ≡ true) ⊎ ((q.ask ≤? dec 0) ≡ true) ⊎ ((q.ask ≤? q.bid) ≡ true)

  -- A positive quantity of at least the smallest volume, in whole volume steps.
  abbrev pub IsTradable : D → PaperCostConfig D → Type 0
  IsTradable n cost =
      ((n ≤? dec 0) ≡ false)
      × ((n <? cost.min_volume) ≡ false)
      × ((a.rem n cost.volume_step =? dec 0) ≡ true)

  abbrev pub IsUntradable : D → PaperCostConfig D → Type 0
  IsUntradable n cost =
      ((n ≤? dec 0) ≡ true)
      ⊎ ((n <? cost.min_volume) ≡ true)
      ⊎ ((a.rem n cost.volume_step =? dec 0) ≡ false)

  -- What each code of a rejection stands for; the paper broker has no other codes.
  abbrev pub IsReason :
      Option (ExecutableQuote D)
      → ℕ
      → MarketOrderRequest D
      → PaperCostConfig D
      → BrokerRejectionCode
      → Type 0
  IsReason quote now request cost BrokerRejectionCode.quote_unavailable = quote ≡ none
  IsReason quote now request cost BrokerRejectionCode.invalid_quote =
      (q : ExecutableQuote D) × (quote ≡ some q) × IsUnsound q
  IsReason quote now request cost BrokerRejectionCode.stale_quote =
      (q : ExecutableQuote D) × (quote ≡ some q)
      × IsSound q
      × (q.timestamp + cost.max_quote_age < now)
  IsReason quote now request cost BrokerRejectionCode.invalid_quantity =
      (q : ExecutableQuote D) × (quote ≡ some q)
      × IsSound q
      × (now ≤ q.timestamp + cost.max_quote_age)
      × IsUntradable request.quantity cost
  IsReason quote now request cost _ = ⊥

  -- A buy pays the slippage on top of the ask, a sell receives the bid less the slippage.
  abbrev pub IsPriced : ExecutionSide → ExecutableQuote D → D → D → Type 0
  IsPriced side q slippage price =
      ((side ≡ ExecutionSide.buy) × (price ≡ q.ask ⊕ slippage))
      ⊎ ((side ≡ ExecutionSide.sell) × (price ≡ q.bid ⊖ slippage))

  -- The order passed every test and was filled on the quote `q`, in full.
  pub record IsFilled (mode : BrokerMode) (q : ExecutableQuote D) (now : ℕ)
      (request : MarketOrderRequest D) (cost : PaperCostConfig D) (r : BrokerSubmissionResult D)
      : Type 0 where
    pub fill : FillRecord D
    pub sound : IsSound q
    pub fresh : now ≤ q.timestamp + cost.max_quote_age
    pub tradable : IsTradable request.quantity cost
    pub filled : r.outcome ≡ BrokerSubmissionOutcome.filled
    pub unrejected : r.rejection ≡ none
    pub stored : r.fill ≡ some fill
    pub price : IsPriced request.side q cost.slippage_points fill.price
    pub fee :
        fill.fee
        ≡ (cost.cost_per_contract ⊗ request.quantity)
          ⊕ ((cost.cost_bps ⊘ dec 10000) ⊗ ((fill.price ⊗ request.quantity) ⊗ cost.point_value))
    pub side : fill.side ≡ request.side
    pub quantity : fill.quantity ≡ request.quantity
    pub traded_in : fill.broker_mode ≡ mode
    pub identity : fill.external_fill_id ≡ request.external_fill_id
    pub quoted :
        (fill.quote_bid ≡ some q.bid)
        × (fill.quote_ask ≡ some q.ask)
        × (fill.quote_timestamp ≡ some q.timestamp)
    pub at : fill.filled_at ≡ now

  -- The order failed a test, and was rejected with that test's code and no fill.
  pub record IsRejected (quote : Option (ExecutableQuote D)) (now : ℕ)
      (request : MarketOrderRequest D) (cost : PaperCostConfig D) (r : BrokerSubmissionResult D)
      : Type 0 where
    pub code : BrokerRejectionCode
    pub reason : IsReason quote now request cost code
    pub rejected : r.outcome ≡ BrokerSubmissionOutcome.rejected
    pub coded : r.rejection ≡ some code
    pub unfilled : r.fill ≡ none

  abbrev pub Answer :
      BrokerMode
      → Option (ExecutableQuote D)
      → ℕ
      → MarketOrderRequest D
      → PaperCostConfig D
      → BrokerSubmissionResult D
      → Type 0
  Answer mode quote now request cost r =
      IsRejected quote now request cost r
      ⊎ ((q : ExecutableQuote D) × (quote ≡ some q) × IsFilled mode q now request cost r)

  quote_cases :
      (q : ExecutableQuote D) (now age : ℕ)
      → ((validate_quote (some q) now age ≡ none) × IsSound q × (now ≤ q.timestamp + age))
        ⊎ ((validate_quote (some q) now age ≡ some BrokerRejectionCode.invalid_quote) × IsUnsound q)
        ⊎ ((validate_quote (some q) now age ≡ some BrokerRejectionCode.stale_quote)
            × IsSound q
            × (q.timestamp + age < now))
  unfolding validate_quote
  quote_cases q now age = ground arith

  quantity_cases :
      (n : D) (cost : PaperCostConfig D)
      → ((validate_quantity n cost.volume_step cost.min_volume ≡ none) × IsTradable n cost)
        ⊎ ((validate_quantity n cost.volume_step cost.min_volume
              ≡ some BrokerRejectionCode.invalid_quantity)
            × IsUntradable n cost)
  unfolding validate_quantity
  quantity_cases n cost = ground arith

  fill-IsPriced :
      (mode : BrokerMode) (now : ℕ) (q : ExecutableQuote D) (request : MarketOrderRequest D)
      (cost : PaperCostConfig D)
      → IsPriced request.side q cost.slippage_points (paper_fill mode now q request cost).price
  unfolding paper_fill executable_fill_price
  fill-IsPriced mode now q request cost = go request.side
    where
      go :
          (side : ExecutionSide)
          → IsPriced side q cost.slippage_points (executable_fill_price side q cost.slippage_points)
      go ExecutionSide.buy = inl (refl, refl)
      go ExecutionSide.sell = inr (refl, refl)

  answer :
      (mode : BrokerMode) (now : ℕ) (request : MarketOrderRequest D) (cost : PaperCostConfig D)
      (quote : Option (ExecutableQuote D))
      → Answer mode quote now request cost
          (submit_market_order mode (λ symbol. quote) now request cost)
  unfolding submit_market_order submit_checked paper_fill compute_commission
  answer mode now request cost none =
      rw (submit_market_order, unquoted a now cost.max_quote_age)
        (inl (record {
          code = BrokerRejectionCode.quote_unavailable;
          reason = refl;
          rejected = refl;
          coded = refl;
          unfilled = refl;
        }))
  answer mode now request cost (some q) = elim (quote_cases q now cost.max_quote_age) [
    | inl (valid, sound, fresh) ↦ elim (quantity_cases request.quantity cost) [
      | inl (whole, tradable) ↦
          rw (submit_market_order, valid, whole)
            (inr (
              q,
              refl,
              record {
                fill = paper_fill mode now q request cost;
                sound = sound;
                fresh = fresh;
                tradable = tradable;
                filled = refl;
                unrejected = refl;
                stored = refl;
                price = fill-IsPriced mode now q request cost;
                fee = refl;
                side = refl;
                quantity = refl;
                traded_in = refl;
                identity = refl;
                quoted = (refl, refl, refl);
                at = refl;
              },
            ))
      | inr (refused, why) ↦
          rw (submit_market_order, valid, refused)
            (inl (record {
              code = BrokerRejectionCode.invalid_quantity;
              reason = (q, refl, sound, fresh, why);
              rejected = refl;
              coded = refl;
              unfilled = refl;
            }))
    ]
    | inr (inl (refused, why)) ↦
        rw (submit_market_order, refused)
          (inl (record {
            code = BrokerRejectionCode.invalid_quote;
            reason = (q, refl, why);
            rejected = refl;
            coded = refl;
            unfilled = refl;
          }))
    | inr (inr (refused, sound, late)) ↦
        rw (submit_market_order, refused)
          (inl (record {
            code = BrokerRejectionCode.stale_quote;
            reason = (q, refl, sound, late);
            rejected = refl;
            coded = refl;
            unfilled = refl;
          }))
  ]

  -- The paper broker answers every order. It rejects the order, without a fill, with the code that
  -- says why: there is no quote; a price of the quote is not positive, or its ask is not above its
  -- bid; a sound quote is too old; or, at a sound and fresh quote, the quantity is not positive, too
  -- small or not a whole number of steps. Or none of these is so, and it fills the order in full,
  -- with the request's side, quantity and external id: a buy at the ask with the slippage on top, a
  -- sell at the bid less the slippage, for a fee per contract and the basis points of the notional.
  pub submit_market_order-answer :
      (mode : BrokerMode) (get_quote : ℕ → Option (ExecutableQuote D)) (now : ℕ)
      (request : MarketOrderRequest D) (cost : PaperCostConfig D)
      → Answer mode
          (get_quote request.symbol)
          now
          request
          cost
          (submit_market_order mode get_quote now request cost)
  unfolding submit_market_order
  submit_market_order-answer mode get_quote now request cost =
      answer mode now request cost (get_quote request.symbol)

-- ===== src/Execution/Risk/Gate.antt =====
-- What an order that passes the gate has, and what the gate's order of tests decides.
use q_backend.Prelude.{
  ◌+◌, ◌≤◌, ◌≡◌, ◌≢◌, ◌⊎◌, ◌↔◌, inl, inr, true, false, none, some, arith, Option-cases, Option,
  List, [], ◌∷◌, All,
}
use q_backend.Decimal.{Arith, ◌⊗◌, ◌<?◌, ◌≤?◌, ◌=?◌, dec, negate}
use q_backend.Execution.Domain.{DeploymentLifecycle, RiskRejectionCode}
use q_backend.Execution.Broker.{ExecutableQuote}
use q_backend.Execution.Risk.{
  RiskContext, side_price, check_kill_switch, check_lifecycle, check_lease, check_unknown_orders,
  check_bar_freshness, check_symbol_quote, check_quantity, check_notional, check_one_position,
  check_equity, check_daily_loss, checks, first_rejection, evaluate,
}

module _ {D : Type 0} ⦃a : Arith D⦄ where
  -- The conditions on the deployment and the worker.
  pub record IsEntitled (ctx : RiskContext D) : Type 0 where
    pub leased : ctx.lease_held ≡ true
    pub resolved : ctx.has_unknown_orders ≡ false
    pub fresh : ctx.now ≤ ctx.bar_close_time + ctx.max_bar_age
    pub switched_on :
        (ctx.allow_lifecycle_bypass ≡ true)
        ⊎ ((ctx.kill_switch_enabled ≡ false) × (ctx.lifecycle ≡ DeploymentLifecycle.running))

  -- The conditions on the order, its quote `q` and the account.
  pub record IsSound (ctx : RiskContext D) (q : ExecutableQuote D) : Type 0 where
    pub quoted : ctx.quote ≡ some q
    pub bid_positive : (q.bid ≤? dec 0) ≡ false
    pub ask_positive : (q.ask ≤? dec 0) ≡ false
    pub uncrossed : (q.ask ≤? q.bid) ≡ false
    pub recent : ctx.now ≤ q.timestamp + ctx.cost_config.max_quote_age
    pub positive : (ctx.quantity ≤? dec 0) ≡ false
    pub enough : (ctx.quantity <? ctx.cost_config.min_volume) ≡ false
    pub aligned : (a.rem ctx.quantity ctx.cost_config.volume_step =? dec 0) ≡ true
    pub funded : (ctx.equity ≤? dec 0) ≡ false
    pub within_notional :
        (ctx.max_notional ≡ none)
        ⊎ ((limit : D) × (ctx.max_notional ≡ some limit)
            × ((limit <? side_price ctx.side q ⊗ ctx.quantity ⊗ ctx.point_value) ≡ false))
    pub within_loss :
        (ctx.max_daily_loss ≡ none)
        ⊎ ((limit : D) × (ctx.max_daily_loss ≡ some limit)
            × ((ctx.daily_realized_pnl ≤? negate limit) ≡ false))

  entitled :
      (ctx : RiskContext D)
      → check_kill_switch ctx ≡ none
      → check_lifecycle ctx ≡ none
      → check_lease ctx ≡ none
      → check_unknown_orders ctx ≡ none
      → check_bar_freshness ctx ≡ none
      → IsEntitled ctx
  unfolding check_kill_switch check_lifecycle check_lease check_unknown_orders check_bar_freshness
  entitled ctx h1 h2 h3 h4 h5 = ground arith

  pub evaluate-none :
      (ctx : RiskContext D)
      → evaluate ctx ≡ none
      → (check_kill_switch ctx ≡ none)
        × (check_lifecycle ctx ≡ none)
        × (check_lease ctx ≡ none)
        × (check_unknown_orders ctx ≡ none)
        × (check_bar_freshness ctx ≡ none)
        × (check_symbol_quote ctx ≡ none)
        × (check_quantity ctx ≡ none)
        × (check_notional ctx ≡ none)
        × (check_equity ctx ≡ none)
        × (check_daily_loss ctx ≡ none)
  unfolding evaluate checks first_rejection
  evaluate-none ctx h = ground arith

  pub check_one_position-none : (ctx : RiskContext D) → check_one_position ctx ≡ none
  unfolding check_one_position
  check_one_position-none ctx = ground arith

  entitled_pass :
      (ctx : RiskContext D)
      → IsEntitled ctx
      → (check_kill_switch ctx ≡ none)
        × (check_lifecycle ctx ≡ none)
        × (check_lease ctx ≡ none)
        × (check_unknown_orders ctx ≡ none)
        × (check_bar_freshness ctx ≡ none)
  unfolding check_kill_switch check_lifecycle check_lease check_unknown_orders check_bar_freshness
  entitled_pass ctx h = ground arith

  quote_present :
      (ctx : RiskContext D)
      → check_symbol_quote ctx ≡ none
      → (q : ExecutableQuote D) × (ctx.quote ≡ some q)
  unfolding check_symbol_quote
  quote_present ctx h = elim (Option-cases ctx.quote) [
    | inl missing ↦ absurd (ground arith)
    | inr (q, e) ↦ (q, e)
  ]

  sound :
      (ctx : RiskContext D) (q : ExecutableQuote D)
      → ctx.quote ≡ some q
      → check_symbol_quote ctx ≡ none
      → check_quantity ctx ≡ none
      → check_notional ctx ≡ none
      → check_equity ctx ≡ none
      → check_daily_loss ctx ≡ none
      → IsSound ctx q
  unfolding check_symbol_quote check_quantity check_notional check_equity check_daily_loss
  sound ctx q e h1 h2 h3 h4 h5 = record {
    quoted = e;
    bid_positive = ground arith;
    ask_positive = ground arith;
    uncrossed = ground arith;
    recent = ground arith;
    positive = ground arith;
    enough = ground arith;
    aligned = ground arith;
    funded = ground arith;
    within_notional = elim (Option-cases ctx.max_notional) [
      | inl missing ↦ inl missing
      | inr (limit, set) ↦ inr (limit, set, ground arith)
    ];
    within_loss = elim (Option-cases ctx.max_daily_loss) [
      | inl missing ↦ inl missing
      | inr (limit, set) ↦ inr (limit, set, ground arith)
    ];
  }

  sound_pass :
      (ctx : RiskContext D) (q : ExecutableQuote D)
      → IsSound ctx q
      → (check_symbol_quote ctx ≡ none)
        × (check_quantity ctx ≡ none)
        × (check_notional ctx ≡ none)
        × (check_equity ctx ≡ none)
        × (check_daily_loss ctx ≡ none)
  unfolding check_symbol_quote check_quantity check_notional check_equity check_daily_loss
  sound_pass ctx q h = ground arith

  none-evaluate :
      (ctx : RiskContext D)
      → (check_kill_switch ctx ≡ none)
        × (check_lifecycle ctx ≡ none)
        × (check_lease ctx ≡ none)
        × (check_unknown_orders ctx ≡ none)
        × (check_bar_freshness ctx ≡ none)
      → (check_symbol_quote ctx ≡ none)
        × (check_quantity ctx ≡ none)
        × (check_notional ctx ≡ none)
        × (check_equity ctx ≡ none)
        × (check_daily_loss ctx ≡ none)
      → evaluate ctx ≡ none
  unfolding evaluate checks first_rejection
  none-evaluate ctx h k = ground (arith, check_one_position-none ctx)

  -- The gate lets an order through exactly when the worker is entitled to trade (it holds the
  -- lease, no earlier order is unresolved, the bar is fresh, and the kill switch and lifecycle
  -- allow it or are bypassed) and the order is sound at a quote that is present.
  pub evaluate-none_iff :
      (ctx : RiskContext D)
      → (evaluate ctx ≡ none) ↔ (IsEntitled ctx × ((q : ExecutableQuote D) × IsSound ctx q))
  evaluate-none_iff ctx =
      (to, λ h. none-evaluate ctx (entitled_pass ctx h.0) (sound_pass ctx h.1.0 h.1.1))
    where
      to : evaluate ctx ≡ none → IsEntitled ctx × ((q : ExecutableQuote D) × IsSound ctx q)
      to h =
          let (h1, h2, h3, h4, h5, h6, h7, h8, h9, h10) = evaluate-none ctx h in
          let (q, e) = quote_present ctx h6 in
          (entitled ctx h1 h2 h3 h4 h5, (q, sound ctx q e h6 h7 h8 h9 h10))

  -- A test of the gate does not answer with the one-position code.
  abbrev Other : RiskContext D → (RiskContext D → Option RiskRejectionCode) → Type 0
  Other ctx check = check ctx ≢ some RiskRejectionCode.one_position_violation

  others : (ctx : RiskContext D) → All (Other ctx) checks
  unfolding checks check_kill_switch check_lifecycle check_lease check_unknown_orders
      check_bar_freshness check_symbol_quote check_quantity check_notional check_equity
      check_daily_loss check_one_position
  others ctx = (
    ground arith,
    (
      ground arith,
      (
        ground arith,
        (
          ground arith,
          (
            ground arith,
            (
              ground arith,
              (ground arith, (ground arith, (ground arith, (ground arith, (ground arith, tt))))),
            ),
          ),
        ),
      ),
    ),
  )

  first_rejection-Other :
      (ctx : RiskContext D) (l : List (RiskContext D → Option RiskRejectionCode))
      → All (Other ctx) l
      → Other ctx (first_rejection l)
  unfolding first_rejection
  first_rejection-Other ctx [] h e = cc
  first_rejection-Other ctx (check ∷ rest) h e =
      ground (arith, h.0, first_rejection-Other ctx rest h.1)

  -- The gate never answers that the order would break the one-position rule: an open position is
  -- long or short, and each side of an order then adds to it or reduces it.
  pub evaluate-one_position :
      (ctx : RiskContext D) → evaluate ctx ≢ some RiskRejectionCode.one_position_violation
  unfolding evaluate
  evaluate-one_position ctx = first_rejection-Other ctx checks (others ctx)

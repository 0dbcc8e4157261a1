-- ===== src/Backtesting/ExitStrategy/Pruned.antt =====
-- What the exit strategy keeps and says.
use q_backend.Prelude.{
  ℕ, suc, ◌≤◌, ◌==◌, ◌≡◌, refl, if_elim, ◌&&◌, inl, inr, Bool, true, Bool-cases, ==_refl, List, [],
  ◌∷◌, Option, none, some, String, All, All-append, any, update, length, arith,
}
use q_backend.Decimal.{Arith}
use q_backend.Decimal.Float.{Rounding}
use q_backend.Backtesting.Models.{Signal, Trade}
use q_backend.Backtesting.Engine.{Bar}
use q_backend.Backtesting.ExitRules.{Params, ColumnNames, RuleState}
use q_backend.Backtesting.ExitRules.Rule.{ExitRule, rule_id, on_bar, should_exit}
use q_backend.Backtesting.ExitStrategy.{
  StateRow, ExitStrategy, prune_stale_state, is_row, new_row, rule_state, columns_ready,
  set_rule_state, signals_with, ask_rules, ask_trades, check_exits,
}

abbrev is_active : {D : Type 0} → List (Trade D) → ℕ → Bool
is_active ts id = any (λ t. t.id == id) ts

-- Every row belongs to one of the trades.
pub BelongTo : {D : Type 0} → List (Trade D) → List (StateRow D) → Type 0
BelongTo ts rows = All (λ row. is_active ts row.trade_id ≡ true) rows

module _ {D : Type 0} (ts : List (Trade D)) where
  prune-BelongTo : (rows : List (StateRow D)) → BelongTo ts (prune_stale_state ts rows)
  unfolding prune_stale_state BelongTo
  prune-BelongTo [] = _
  prune-BelongTo (row ∷ rows) = elim (Bool-cases (is_active ts row.trade_id)) [
    | inl active ↦ rw active (active, prune-BelongTo rows)
    | inr stale ↦ rw stale (prune-BelongTo rows)
  ]

  update-BelongTo :
      (id : ℕ) (rule : String) (state : RuleState D) (rows : List (StateRow D))
      → is_active ts id ≡ true
      → BelongTo ts rows
      → BelongTo ts (update (is_row id rule) (λ row. new_row id rule state) rows)
  unfolding BelongTo
  update-BelongTo id rule state [] active h = _
  update-BelongTo id rule state (row ∷ rows) active h = (
    elim (Bool-cases (is_row id rule row)) [ inl same ↦ rw same active | inr other ↦ rw other h.0 ],
    update-BelongTo id rule state rows active h.1,
  )

  set_rule_state-BelongTo :
      (id : ℕ) (rule : String) (state : RuleState D) (rows : List (StateRow D))
      → is_active ts id ≡ true
      → BelongTo ts rows
      → BelongTo ts (set_rule_state id rule state rows)
  unfolding set_rule_state BelongTo
  set_rule_state-BelongTo id rule state rows active h =
      elim (Bool-cases (any (is_row id rule) rows)) [
        | inl there ↦ rw there (update-BelongTo id rule state rows active h)
        | inr missing ↦ rw missing (All-append _ rows _ h (active, _))
      ]

  module _ ⦃a : Arith D⦄ ⦃r : Rounding D⦄ (names : ColumnNames) (params : Params D)
      (bar : Bar D) where
    ask_rules-BelongTo :
        (t : Trade D) (rules : List ExitRule) (rows : List (StateRow D))
        → is_active ts t.id ≡ true
        → BelongTo ts rows
        → BelongTo ts (ask_rules names params t bar rules rows).1
    unfolding ask_rules
    ask_rules-BelongTo t [] rows active h = h
    ask_rules-BelongTo t (rule ∷ rules) rows active h =
        let state = on_bar names params rule t bar (rule_state t.id (rule_id rule) rows) in
        let changed = set_rule_state t.id (rule_id rule) state rows in
        let kept = set_rule_state-BelongTo t.id (rule_id rule) state rows active h in
        if_elim (λ answer. BelongTo ts answer.1)
          (columns_ready names params rule bar && should_exit names params rule t bar state)
          (some rule, changed) (ask_rules names params t bar rules changed) kept
          (ask_rules-BelongTo t rules changed active kept)

    signals_with-length :
        (leaves : Option ExitRule) (t : Trade D) (signals : List (Signal D)) (n : ℕ)
        → length signals ≤ n
        → length (signals_with names leaves t signals) ≤ suc n
    signals_with-length none t signals n h = omega (arith, h)
    signals_with-length (some rule) t signals n h = omega (arith, h)

    ask_trades-BelongTo :
        (rules : List ExitRule) (us : List (Trade D)) (rows : List (StateRow D))
        → All (λ t. is_active ts t.id ≡ true) us
        → BelongTo ts rows
        → BelongTo ts (ask_trades names params rules bar us rows).1
          × (length (ask_trades names params rules bar us rows).0 ≤ length us)
    unfolding ask_trades
    ask_trades-BelongTo rules [] rows active h = (h, omega arith)
    ask_trades-BelongTo rules (u ∷ us) rows active h =
        let (leaves, changed) = ask_rules names params u bar rules rows in
        let (kept, few) =
          ask_trades-BelongTo rules us changed active.1
            (ask_rules-BelongTo u rules rows active.0 h) in
        (
          kept,
          signals_with-length leaves u (ask_trades names params rules bar us changed).0 (length us)
              few,
        )

active-cons :
    {D : Type 0} (t u : Trade D) (us : List (Trade D))
    → is_active us t.id ≡ true
    → is_active (u ∷ us) t.id ≡ true
active-cons t u us h = ground (arith, h)

All-active-cons :
    {D : Type 0} (u : Trade D) (us xs : List (Trade D))
    → All (λ t. is_active us t.id ≡ true) xs
    → All (λ t. is_active (u ∷ us) t.id ≡ true) xs
All-active-cons u us [] h = _
All-active-cons u us (x ∷ xs) h = (active-cons x u us h.0, All-active-cons u us xs h.1)

All-active : {D : Type 0} (xs : List (Trade D)) → All (λ t. is_active xs t.id ≡ true) xs
All-active [] = _
All-active (x ∷ xs) = (rw (==_refl x.id) refl, All-active-cons x xs xs (All-active xs))

-- After a call of `check_exits`, what is kept belongs to the open trades alone: the memory of a
-- closed trade is gone. And there is at most one signal for each open trade.
pub check_exits-BelongTo :
    {D : Type 0} ⦃a : Arith D⦄ ⦃r : Rounding D⦄ (names : ColumnNames) (x : ExitStrategy D)
    (open_trades : List (Trade D)) (bar : Bar D)
    → BelongTo open_trades (check_exits names x open_trades bar).1.rows
      × (length (check_exits names x open_trades bar).0 ≤ length open_trades)
unfolding check_exits
check_exits-BelongTo names x open_trades bar =
    ask_trades-BelongTo open_trades names x.params bar x.rules open_trades
      (prune_stale_state open_trades x.rows) (All-active open_trades)
      (prune-BelongTo open_trades x.rows)

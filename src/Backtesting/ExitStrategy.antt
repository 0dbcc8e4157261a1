-- ===== src/Backtesting/ExitStrategy.antt =====
-- backtesting/exit_strategy.py: asks the enabled rules about every open trade. The nested dictionary
-- of states is a list of rows, one for each trade and rule.
pub mod Pruned
use q_backend.Prelude.{
  ℕ, ◌==◌, Bool, true, false, ◌&&◌, not, List, [], ◌∷◌, ◌++◌, Option, none, some, String, same_key,
  any, find, select, update, if◌then◌else◌,
}
use q_backend.Decimal.{Arith, dec}
use q_backend.Decimal.Float.{Rounding}
use q_backend.Backtesting.Models.{SignalAction, Signal, Trade}
use q_backend.Backtesting.Engine.{Bar}
use q_backend.Backtesting.ExitRules.{Params, ColumnNames, RuleState}
use q_backend.Backtesting.ExitRules.Rule.{
  ExitRule, rule_id, enabled_rules, required_columns, on_bar, should_exit,
}

pub record StateRow (D : Type 0) : Type 0 where
  pub trade_id : ℕ
  pub rule : String
  pub state : RuleState D

-- The exit strategy: its parameters, its rules, and its state.
pub record ExitStrategy (D : Type 0) : Type 0 where
  pub params : Params D
  pub rules : List ExitRule
  pub rows : List (StateRow D)

module _ {D : Type 0} where
  unfoldable pub prune_stale_state : List (Trade D) → List (StateRow D) → List (StateRow D)
  prune_stale_state open_trades rows =
      select (λ row. any (λ t. t.id == row.trade_id) open_trades) rows

  abbrev pub is_row : ℕ → String → StateRow D → Bool
  is_row trade_id rule row = (row.trade_id == trade_id) && same_key row.rule rule

  abbrev state_in : Option (StateRow D) → RuleState D
  state_in none = RuleState.nothing
  state_in (some row) = row.state

  -- `_rule_state`, an empty one where there is none.
  unfoldable pub rule_state : ℕ → String → List (StateRow D) → RuleState D
  rule_state trade_id rule rows = state_in (find (is_row trade_id rule) rows)

  abbrev pub new_row : ℕ → String → RuleState D → StateRow D
  new_row trade_id rule state = record { trade_id = trade_id; rule = rule; state = state }

  -- The state that the rule has changed, in its place, or added.
  unfoldable pub set_rule_state : ℕ → String → RuleState D → List (StateRow D) → List (StateRow D)
  set_rule_state trade_id rule state rows =
      if any (is_row trade_id rule) rows
      then update (is_row trade_id rule) (λ row. new_row trade_id rule state) rows
      else rows ++ new_row trade_id rule state ∷ []

  abbrev is_there : Option D → Bool
  is_there none = false
  is_there (some x) = true

  abbrev all_there : Bar D → List String → Bool
  all_there bar [] = true
  all_there bar (col ∷ cols) = is_there (bar.column col) && all_there bar cols

  abbrev pub close_signal : Trade D → D → ExitRule → Signal D
  close_signal t strength rule = record {
    symbol = t.symbol;
    action = SignalAction.close;
    strength = strength;
    exit_reason = some (rule_id rule);
  }

module _ {D : Type 0} ⦃a : Arith D⦄ ⦃r : Rounding D⦄ (names : ColumnNames) where
  unfoldable pub columns_ready : Params D → ExitRule → Bar D → Bool
  columns_ready params rule bar = all_there bar (required_columns names params rule)

  -- The rules for one trade, in order, up to the first that wants to leave.
  unfoldable pub ask_rules :
      Params D
      → Trade D
      → Bar D
      → List ExitRule
      → List (StateRow D)
      → Option ExitRule × List (StateRow D)
  ask_rules params t bar [] rows = (none, rows)
  ask_rules params t bar (rule ∷ rules) rows =
      let state = on_bar names params rule t bar (rule_state t.id (rule_id rule) rows) in
      let changed = set_rule_state t.id (rule_id rule) state rows in
      let later = ask_rules params t bar rules changed in
      if columns_ready params rule bar && should_exit names params rule t bar state
      then (some rule, changed)
      else later

  abbrev pub signals_with : Option ExitRule → Trade D → List (Signal D) → List (Signal D)
  signals_with none t later = later
  signals_with (some rule) t later = close_signal t (dec 1) rule ∷ later

  unfoldable pub ask_trades :
      Params D
      → List ExitRule
      → Bar D
      → List (Trade D)
      → List (StateRow D)
      → List (Signal D) × List (StateRow D)
  ask_trades params rules bar [] rows = ([], rows)
  ask_trades params rules bar (t ∷ ts) rows =
      let (leaves, changed) = ask_rules params t bar rules rows in
      let (signals, final) = ask_trades params rules bar ts changed in
      (signals_with leaves t signals, final)

  unfoldable pub new_strategy : Params D → ExitStrategy D
  new_strategy params = record { params = params; rules = enabled_rules params; rows = [] }

  unfoldable pub check_exits :
      ExitStrategy D → List (Trade D) → Bar D → List (Signal D) × ExitStrategy D
  check_exits x open_trades bar =
      let (signals, rows) =
        ask_trades x.params x.rules bar open_trades (prune_stale_state open_trades x.rows) in
      (signals, record { params = x.params; rules = x.rules; rows = rows })

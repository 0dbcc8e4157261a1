-- ===== src/Backtesting/ExitRules/Rule.antt =====
-- The rules by name: exit_rules/registry.py and the methods of the rules.
use q_backend.Prelude.{
  Bool, false, not, ℕ, List, [], ◌∷◌, Option, none, some, String, select, if◌then◌else◌,
}
use q_backend.Prelude.Int.{ℤ, pos, ltb_ℤ}
use q_backend.Decimal.{Arith, dec, ◌⊕◌, ◌⊖◌, ◌⊗◌, ◌⊘◌, ◌<?◌}
use q_backend.Decimal.Float.{Rounding}
use q_backend.Backtesting.Models.{Trade}
use q_backend.Backtesting.Engine.{Bar}
use q_backend.Backtesting.ExitRules.{
  Params, ColumnNames, RuleState, is_long, high_of, low_of, param, hits_stop, hits_target,
  int_param, atr_of,
}
use q_backend.Backtesting.ExitRules.Stops.{
  trailing_on_bar, chandelier_on_bar, breakeven_on_bar, ratchet_on_bar, update_psar_long,
  update_psar_short, time_on_bar,
}

pub data ExitRule : Type 0 where
  fixed_sl : ExitRule
  atr_sl : ExitRule
  fixed_tp : ExitRule
  atr_tp : ExitRule
  trailing : ExitRule
  chandelier : ExitRule
  breakeven : ExitRule
  psar : ExitRule
  profit_target_ratchet : ExitRule
  time_stop : ExitRule
  donchian_stop : ExitRule

-- `EXIT_RULES`, in the order in which they are asked.
abbrev pub exit_rules : List ExitRule
exit_rules =
    fixed_sl ∷ atr_sl ∷ fixed_tp ∷ atr_tp ∷ trailing ∷ chandelier ∷ breakeven ∷ psar
    ∷ profit_target_ratchet ∷ time_stop ∷ donchian_stop ∷ []

-- `rule.id`
unfoldable pub rule_id : ExitRule → String
rule_id fixed_sl = "fixed_sl"
rule_id atr_sl = "atr_sl"
rule_id fixed_tp = "fixed_tp"
rule_id atr_tp = "atr_tp"
rule_id trailing = "trailing"
rule_id chandelier = "chandelier"
rule_id breakeven = "breakeven"
rule_id psar = "psar"
rule_id profit_target_ratchet = "profit_target_ratchet"
rule_id time_stop = "time_stop"
rule_id donchian_stop = "donchian_stop"

module _ {D : Type 0} ⦃a : Arith D⦄ ⦃r : Rounding D⦄ where
  unfoldable pub is_enabled : Params D → ExitRule → Bool
  is_enabled params fixed_sl = dec 0 <? param params "stop_loss_pct"
  is_enabled params atr_sl = dec 0 <? param params "stop_loss_atr"
  is_enabled params fixed_tp = dec 0 <? param params "take_profit_pct"
  is_enabled params atr_tp = dec 0 <? param params "take_profit_atr"
  is_enabled params trailing = dec 0 <? param params "trailing_stop_pct"
  is_enabled params chandelier = dec 0 <? param params "chandelier_atr_mult"
  is_enabled params breakeven = dec 0 <? param params "breakeven_trigger_pct"
  is_enabled params psar = dec 0 <? param params "psar_af_start"
  is_enabled params profit_target_ratchet = dec 0 <? param params "target_ratchet_atr"
  is_enabled params time_stop = ltb_ℤ (pos 0) (int_param params "max_bars_in_trade" 0)
  is_enabled params donchian_stop = ltb_ℤ (pos 0) (int_param params "donchian_exit_period" 0)

  unfoldable pub enabled_rules : Params D → List ExitRule
  enabled_rules params = select (λ rule. is_enabled params rule) exit_rules

  abbrev atr_columns : ColumnNames → Params D → List String
  atr_columns names params = names.atr_col (int_param params "atr_period" 14) ∷ []

  -- Of a rule that is enabled.
  abbrev columns_of : ColumnNames → Params D → ExitRule → List String
  columns_of names params atr_sl = atr_columns names params
  columns_of names params atr_tp = atr_columns names params
  columns_of names params chandelier = atr_columns names params
  columns_of names params profit_target_ratchet = atr_columns names params
  columns_of names params donchian_stop =
      let period = int_param params "donchian_exit_period" 0 in
      names.donchian_high_col period ∷ names.donchian_low_col period ∷ []
  columns_of names params _ = []

  unfoldable pub required_columns : ColumnNames → Params D → ExitRule → List String
  required_columns names params rule =
      if is_enabled params rule then columns_of names params rule else []

  abbrev ratchet_with : Option D → D → Trade D → Bar D → RuleState D → RuleState D
  ratchet_with none mult t bar s = s
  ratchet_with (some atr) mult t bar s = ratchet_on_bar (mult ⊗ atr) t bar s

  -- `params.get(name, 0.02)` and the like: hundredths.
  abbrev hundredths : Params D → String → ℕ → D
  hundredths params name n = elim (params name) [ none ↦ dec n ⊘ dec 100 | some x ↦ x ]

  unfoldable pub on_bar :
      ColumnNames → Params D → ExitRule → Trade D → Bar D → RuleState D → RuleState D
  on_bar names params trailing t bar s = trailing_on_bar t bar s
  on_bar names params chandelier t bar s = chandelier_on_bar t bar s
  on_bar names params breakeven t bar s =
      breakeven_on_bar (param params "breakeven_trigger_pct") t bar s
  on_bar names params psar t bar s =
      let af_start = param params "psar_af_start" in
      let af_step = hundredths params "psar_af_step" 2 in
      let af_max = hundredths params "psar_af_max" 20 in
      if is_long t
      then update_psar_long s (high_of bar) (low_of bar) af_start af_step af_max t.entry_price
      else update_psar_short s (high_of bar) (low_of bar) af_start af_step af_max t.entry_price
  on_bar names params profit_target_ratchet t bar s =
      ratchet_with (atr_of names params bar) (param params "target_ratchet_atr") t bar s
  on_bar names params time_stop t bar s = time_on_bar s
  on_bar names params _ t bar s = s

  -- A price so many times the range, or the fraction, away from another: below it for the stop of a
  -- long trade.
  abbrev stop_at : Trade D → D → D → D
  stop_at t from distance = if is_long t then from ⊖ distance else from ⊕ distance

  abbrev target_at : Trade D → D → D → D
  target_at t from distance = if is_long t then from ⊕ distance else from ⊖ distance

  abbrev stop_fraction : Trade D → D → D → D
  stop_fraction t from pct = from ⊗ stop_at t (dec 1) pct

  abbrev target_fraction : Trade D → D → D → D
  target_fraction t from pct = from ⊗ target_at t (dec 1) pct

  abbrev exit_with_atr : Option D → (D → Bool) → Bool
  exit_with_atr none test = false
  exit_with_atr (some atr) test = test atr

  abbrev extreme_of : Trade D → RuleState D → D
  extreme_of t (RuleState.extreme x) = x
  extreme_of t _ = t.entry_price

  abbrev peak_of : Trade D → RuleState D → D
  peak_of t (RuleState.peak x) = x
  peak_of t _ = t.entry_price

  abbrev breakeven_exit : Params D → Trade D → Bar D → RuleState D → Bool
  breakeven_exit params t bar RuleState.armed =
      hits_stop t bar (target_fraction t t.entry_price (param params "breakeven_offset_pct"))
  breakeven_exit params t bar _ = false

  abbrev psar_exit : Trade D → Bar D → RuleState D → Bool
  psar_exit t bar (RuleState.psar p) = hits_stop t bar p.sar
  psar_exit t bar _ = false

  abbrev ratchet_exit : Trade D → Bar D → RuleState D → Bool
  ratchet_exit t bar (RuleState.ratchet x) = hits_stop t bar x
  ratchet_exit t bar _ = false

  abbrev bars_of : RuleState D → ℤ
  bars_of (RuleState.bars n) = pos n
  bars_of _ = pos 0

  abbrev outside_channel : Trade D → Bar D → Option D → Option D → Bool
  outside_channel t bar (some high) (some low) = hits_stop t bar (if is_long t then low else high)
  outside_channel t bar _ _ = false

  fixed_sl_exit : Params D → Trade D → Bar D → Bool
  fixed_sl_exit params t bar =
      hits_stop t bar (stop_fraction t t.entry_price (param params "stop_loss_pct"))

  atr_sl_exit : ColumnNames → Params D → Trade D → Bar D → Bool
  atr_sl_exit names params t bar =
      exit_with_atr (atr_of names params bar)
        (λ atr. hits_stop t bar (stop_at t t.entry_price (param params "stop_loss_atr" ⊗ atr)))

  fixed_tp_exit : Params D → Trade D → Bar D → Bool
  fixed_tp_exit params t bar =
      hits_target t bar (target_fraction t t.entry_price (param params "take_profit_pct"))

  atr_tp_exit : ColumnNames → Params D → Trade D → Bar D → Bool
  atr_tp_exit names params t bar =
      exit_with_atr (atr_of names params bar) (λ atr.
        hits_target t bar (target_at t t.entry_price (param params "take_profit_atr" ⊗ atr)))

  trailing_exit : Params D → Trade D → Bar D → RuleState D → Bool
  trailing_exit params t bar s =
      hits_stop t bar (stop_fraction t (extreme_of t s) (param params "trailing_stop_pct"))

  chandelier_exit : ColumnNames → Params D → Trade D → Bar D → RuleState D → Bool
  chandelier_exit names params t bar s =
      exit_with_atr (atr_of names params bar) (λ atr.
        hits_stop t bar (stop_at t (peak_of t s) (param params "chandelier_atr_mult" ⊗ atr)))

  time_exit : Params D → RuleState D → Bool
  time_exit params s = not (ltb_ℤ (bars_of s) (int_param params "max_bars_in_trade" 0))

  donchian_exit : ColumnNames → Params D → Trade D → Bar D → Bool
  donchian_exit names params t bar =
      let period = int_param params "donchian_exit_period" 0 in
      outside_channel t bar (bar.column (names.donchian_high_col period))
        (bar.column (names.donchian_low_col period))

  unfoldable pub should_exit :
      ColumnNames → Params D → ExitRule → Trade D → Bar D → RuleState D → Bool
  unfolding fixed_sl_exit atr_sl_exit fixed_tp_exit atr_tp_exit trailing_exit chandelier_exit
      time_exit donchian_exit
  should_exit names params fixed_sl t bar s = fixed_sl_exit params t bar
  should_exit names params atr_sl t bar s = atr_sl_exit names params t bar
  should_exit names params fixed_tp t bar s = fixed_tp_exit params t bar
  should_exit names params atr_tp t bar s = atr_tp_exit names params t bar
  should_exit names params trailing t bar s = trailing_exit params t bar s
  should_exit names params chandelier t bar s = chandelier_exit names params t bar s
  should_exit names params breakeven t bar s = breakeven_exit params t bar s
  should_exit names params psar t bar s = psar_exit t bar s
  should_exit names params profit_target_ratchet t bar s = ratchet_exit t bar s
  should_exit names params time_stop t bar s = time_exit params s
  should_exit names params donchian_stop t bar s = donchian_exit names params t bar

-- ===== src/Backtesting/ExitRules/Stops.antt =====
-- What the trailing rules make of a bar.
use q_backend.Prelude.{Option, none, some, suc, if◌then◌else◌}
use q_backend.Decimal.{Arith, dec_min, dec_max, ◌⊕◌, ◌⊖◌, ◌⊗◌, ◌⊘◌, ◌<?◌, ◌≤?◌}
use q_backend.Backtesting.Models.{Trade}
use q_backend.Backtesting.Engine.{Bar}
use q_backend.Backtesting.ExitRules.{RuleState, is_long, high_of, low_of}

module _ {D : Type 0} ⦃a : Arith D⦄ where
  -- `TrailingStopRule.on_bar`
  unfoldable pub trailing_on_bar : Trade D → Bar D → RuleState D → RuleState D
  trailing_on_bar t bar (RuleState.extreme x) =
      RuleState.extreme (if is_long t then dec_max x (high_of bar) else dec_min x (low_of bar))
  trailing_on_bar t bar _ = RuleState.extreme (
      if is_long t then dec_max t.entry_price (high_of bar) else dec_min t.entry_price (low_of bar))

  -- `ChandelierExitRule.on_bar`
  abbrev peak_from : Trade D → Bar D → D → RuleState D
  peak_from t bar x =
      RuleState.peak (if is_long t then dec_max x (high_of bar) else dec_min x (low_of bar))

  unfoldable pub chandelier_on_bar : Trade D → Bar D → RuleState D → RuleState D
  chandelier_on_bar t bar (RuleState.peak x) = peak_from t bar x
  chandelier_on_bar t bar _ = peak_from t bar t.entry_price

  -- `BreakevenStopRule.on_bar`, with the trigger.
  unfoldable pub breakeven_on_bar : D → Trade D → Bar D → RuleState D → RuleState D
  breakeven_on_bar trigger t bar RuleState.armed = RuleState.armed
  breakeven_on_bar trigger t bar s =
      let gain =
        if is_long t
        then (high_of bar ⊖ t.entry_price) ⊘ t.entry_price
        else (t.entry_price ⊖ low_of bar) ⊘ t.entry_price in
      if trigger ≤? gain then RuleState.armed else s

  -- `ProfitTargetRatchetRule.on_bar`, where the range is there: the multiple of it.
  unfoldable pub ratchet_on_bar : D → Trade D → Bar D → RuleState D → RuleState D
  ratchet_on_bar range t bar (RuleState.ratchet x) =
      RuleState.ratchet
        (if is_long t then dec_max x (high_of bar ⊖ range) else dec_min x (low_of bar ⊕ range))
  ratchet_on_bar range t bar s =
      if is_long t
      then (if t.entry_price ⊕ range ≤? high_of bar
          then RuleState.ratchet (high_of bar ⊖ range)
          else s)
      else if low_of bar ≤? t.entry_price ⊖ range
      then RuleState.ratchet (low_of bar ⊕ range)
      else s

  abbrev min_with : D → Option D → D
  min_with x none = x
  min_with x (some y) = dec_min x y

  abbrev max_with : D → Option D → D
  max_with x none = x
  max_with x (some y) = dec_max x y

  -- `_clamp_psar_long` and `_clamp_psar_short`
  unfoldable pub clamp_psar_long : D → Option D → Option D → D
  clamp_psar_long sar prior_low prior_prior_low = min_with (min_with sar prior_low) prior_prior_low

  unfoldable pub clamp_psar_short : D → Option D → Option D → D
  clamp_psar_short sar prior_high prior_prior_high =
      max_with (max_with sar prior_high) prior_prior_high

  -- The acceleration, on a new extreme point.
  abbrev next_af : D → D → D → D
  next_af af af_step af_max = dec_min (af ⊕ af_step) af_max

  -- `update_psar_long`: start, step and maximum of the acceleration, and the entry price.
  unfoldable pub update_psar_long : RuleState D → D → D → D → D → D → D → RuleState D
  update_psar_long (RuleState.psar p) high low af_start af_step af_max entry =
      let moved = clamp_psar_long (p.sar ⊕ p.af ⊗ (p.ep ⊖ p.sar)) p.prior p.prior_prior in
      RuleState.psar (record {
        sar = moved;
        ep = if p.ep <? high then high else p.ep;
        af = if p.ep <? high then next_af p.af af_step af_max else p.af;
        prior = some low;
        prior_prior = p.prior;
      })
  update_psar_long _ high low af_start af_step af_max entry = RuleState.psar (record {
    sar = dec_min entry low;
    ep = dec_max entry high;
    af = af_start;
    prior = some low;
    prior_prior = none;
  })

  unfoldable pub update_psar_short : RuleState D → D → D → D → D → D → D → RuleState D
  update_psar_short (RuleState.psar p) high low af_start af_step af_max entry =
      let moved = clamp_psar_short (p.sar ⊕ p.af ⊗ (p.ep ⊖ p.sar)) p.prior p.prior_prior in
      RuleState.psar (record {
        sar = moved;
        ep = if low <? p.ep then low else p.ep;
        af = if low <? p.ep then next_af p.af af_step af_max else p.af;
        prior = some high;
        prior_prior = p.prior;
      })
  update_psar_short _ high low af_start af_step af_max entry = RuleState.psar (record {
    sar = dec_max entry high;
    ep = dec_min entry low;
    af = af_start;
    prior = some high;
    prior_prior = none;
  })

  -- `TimeStopRule.on_bar`
  unfoldable pub time_on_bar : RuleState D → RuleState D
  time_on_bar (RuleState.bars n) = RuleState.bars (suc n)
  time_on_bar _ = RuleState.bars 1

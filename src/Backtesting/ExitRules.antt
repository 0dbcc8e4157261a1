-- ===== src/Backtesting/ExitRules.antt =====
-- backtesting/exit_rules/: the rules that close a trade, and what each remembers of it. Prices of a
-- bar are there as numbers; an indicator is `none` where its column is missing or NaN.
pub mod Stops
pub mod Rule
pub mod Extreme
use q_backend.Prelude.{Bool, true, false, ℕ, Option, none, some, String, if◌then◌else◌}
use q_backend.Prelude.Int.{ℤ, pos}
use q_backend.Decimal.{Arith, dec, ◌≤?◌}
use q_backend.Decimal.Float.{Rounding, trunc}
use q_backend.Backtesting.Models.{OrderAction, Trade}
use q_backend.Backtesting.Engine.{Bar, get_or}

-- The values of the configuration, by name.
abbrev pub Params : Type 0 → Type 0
Params D = String → Option D

-- The names of indicator columns, which are made of a prefix and a printed number.
pub record ColumnNames : Type 0 where
  pub atr_col : ℤ → String
  pub donchian_high_col : ℤ → String
  pub donchian_low_col : ℤ → String

-- The memory of the parabolic rule: the lows before for a long trade, the highs for a short one.
pub record Psar (D : Type 0) : Type 0 where
  pub sar : D
  pub ep : D
  pub af : D
  pub prior : Option D
  pub prior_prior : Option D

-- What a rule keeps for a trade: nothing yet, or its own entries of the dictionary. `ratchet` stands
-- for the two entries that are always set together.
pub data RuleState (D : Type 0) : Type 0 where
  nothing : RuleState D
  extreme : D → RuleState D
  peak : D → RuleState D
  armed : RuleState D
  ratchet : D → RuleState D
  psar : Psar D → RuleState D
  bars : ℕ → RuleState D

abbrev pub is_long : {D : Type 0} → Trade D → Bool
is_long t = elim t.action [ OrderAction.buy ↦ true | OrderAction.sell ↦ false ]

module _ {D : Type 0} ⦃a : Arith D⦄ where
  -- `_bar_prices`
  abbrev pub close_of : Bar D → D
  close_of bar = get_or (bar.column "close") (dec 0)

  abbrev pub high_of : Bar D → D
  high_of bar = get_or (bar.column "high") (close_of bar)

  abbrev pub low_of : Bar D → D
  low_of bar = get_or (bar.column "low") (close_of bar)

  abbrev pub param : Params D → String → D
  param params name = get_or (params name) (dec 0)

  -- A stop on the losing side of a trade, and a target on the winning side.
  abbrev pub hits_stop : Trade D → Bar D → D → Bool
  hits_stop t bar level = if is_long t then low_of bar ≤? level else level ≤? high_of bar

  abbrev pub hits_target : Trade D → Bar D → D → Bool
  hits_target t bar level = if is_long t then level ≤? high_of bar else low_of bar ≤? level

  module _ ⦃r : Rounding D⦄ where
    -- `int(params.get(name, default))`
    abbrev pub int_param : Params D → String → ℕ → ℤ
    int_param params name default = elim (params name) [ none ↦ pos default | some x ↦ trunc x ]

    abbrev pub atr_of : ColumnNames → Params D → Bar D → Option D
    atr_of names params bar = bar.column (names.atr_col (int_param params "atr_period" 14))

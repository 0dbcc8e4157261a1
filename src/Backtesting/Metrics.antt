-- ===== src/Backtesting/Metrics.antt =====
-- The drawdown of a backtest: get_performance_metrics of backtesting/registry.py, on the trades in
-- the order of their exits.
pub mod Drawdown
use q_backend.Prelude.{List, [], ◌∷◌, Option, if◌then◌else◌}
use q_backend.Decimal.{Arith, dec, dec_max, ◌⊕◌, ◌⊖◌, ◌<?◌}
use q_backend.Backtesting.Models.{Trade}
use q_backend.Backtesting.Engine.{get_or}

module _ {D : Type 0} ⦃a : Arith D⦄ where
  -- `t.pnl or 0.0`
  abbrev pub pnl_of : Trade D → D
  pnl_of t = get_or t.pnl (dec 0)

  abbrev pub next_peak : D → D → D
  next_peak peak equity = if peak <? equity then equity else peak

  -- The loop's equity, peak and largest drop.
  unfoldable pub drawdown_from : D → D → D → List (Trade D) → D
  drawdown_from equity peak max_dd [] = max_dd
  drawdown_from equity peak max_dd (t ∷ ts) =
      let next = equity ⊕ pnl_of t in
      let high = next_peak peak next in drawdown_from next high (dec_max max_dd (high ⊖ next)) ts

  unfoldable pub max_drawdown_value : D → List (Trade D) → D
  max_drawdown_value initial_capital ts = drawdown_from initial_capital initial_capital (dec 0) ts

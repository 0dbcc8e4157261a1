-- ===== src/Backtesting/Tick/Kernel.antt =====
-- backtesting/tick/kernel.py: the simulation loop. The parallel arrays of ticks are one list of rows,
-- and so are those of closed trades, as far as they are filled: their number is `trade_count`. Left
-- out is `block_reentry`, which nothing reads but its own reset.
use q_backend.Prelude.{
  ℕ, suc, ◌-◌, ◌==◌, Bool, true, false, ◌&&◌, Option, none, some, List, [], ◌∷◌, ◌++◌, length,
  if◌then◌else◌,
}
use q_backend.Prelude.Int.{ℤ, pos, ltb_ℤ, eqb_ℤ}
use q_backend.Decimal.{Arith, dec, ◌⊕◌, ◌⊖◌, ◌⊗◌, ◌⊘◌, ◌<?◌, ◌≤?◌}
use q_backend.Decimal.Float.{Rounding, int64, float}
use q_backend.Backtesting.Tick.Orders.{ExitReason, SizingParams, sizing_fixed_quantity}

-- A tick with the strategy's signal on it; the points are `none` where they are NaN.
pub record Tick (D : Type 0) : Type 0 where
  pub bid : D
  pub ask : D
  pub direction : ℤ
  pub sl_points : Option D
  pub tp_points : Option D

-- The open position: `position_dir` is 1 for a long one, and a price is `none` where its flag
-- `has_sl` or `has_tp` is not set.
pub record Position (D : Type 0) : Type 0 where
  pub is_long : Bool
  pub entry_idx : ℕ
  pub entry_price : D
  pub quantity : D
  pub sl_price : Option D
  pub tp_price : Option D

-- A row of the arrays of closed trades.
pub record ClosedTrade (D : Type 0) : Type 0 where
  pub entry_idx : ℕ
  pub exit_idx : ℕ
  pub entry_price : D
  pub exit_price : D
  pub is_long : Bool
  pub quantity : D
  pub exit_reason : ExitReason

-- The variables of the loop.
pub record Simulation (D : Type 0) : Type 0 where
  pub capital : D
  pub position : Option (Position D)
  pub trades : List (ClosedTrade D)

module _ {D : Type 0} ⦃a : Arith D⦄ ⦃r : Rounding D⦄ where
  abbrev pub cap_contracts : D → ℤ → ℤ
  cap_contracts high quantity =
      if dec 0 <? high
      then (if ltb_ℤ (int64 high) quantity then int64 high else quantity)
      else quantity

  abbrev pub positive_quantity : ℤ → D
  positive_quantity quantity = if ltb_ℤ (pos 0) quantity then float quantity else dec 0

  abbrev pub at_least : ℤ → ℤ → D
  at_least low quantity =
      if ltb_ℤ quantity low
      then (if ltb_ℤ (pos 0) low && eqb_ℤ quantity (pos 0) then positive_quantity low else dec 0)
      else positive_quantity quantity

  unfoldable pub compute_quantity : D → SizingParams D → D
  compute_quantity capital p =
      if p.sizing_mode == sizing_fixed_quantity
      then p.sizing_a
      else at_least (int64 p.sizing_b) (cap_contracts p.sizing_c (int64 (capital ⊘ p.sizing_a)))

  -- `entry - points` for the stop of a long position and the target of a short one.
  abbrev pub level_below : D → Option D → Option D
  level_below price none = none
  level_below price (some points) = some (price ⊖ points)

  abbrev pub level_above : D → Option D → Option D
  level_above price none = none
  level_above price (some points) = some (price ⊕ points)

  abbrev pub open_position : ℕ → Tick D → Bool → D → Position D
  open_position i t true quantity = record {
    is_long = true;
    entry_idx = i;
    entry_price = t.ask;
    quantity = quantity;
    sl_price = level_below t.ask t.sl_points;
    tp_price = level_above t.ask t.tp_points;
  }
  open_position i t false quantity = record {
    is_long = false;
    entry_idx = i;
    entry_price = t.bid;
    quantity = quantity;
    sl_price = level_above t.bid t.sl_points;
    tp_price = level_below t.bid t.tp_points;
  }

  -- `price <= level`, of a level that is there.
  abbrev pub reaches_down : D → Option D → Bool
  reaches_down price none = false
  reaches_down price (some level) = price ≤? level

  abbrev pub reaches_up : D → Option D → Bool
  reaches_up price none = false
  reaches_up price (some level) = level ≤? price

  -- The reason to leave a position on this tick.
  unfoldable pub exit_on : Position D → Tick D → Option ExitReason
  exit_on p t =
      if p.is_long
      then (if reaches_down t.bid p.sl_price
          then some ExitReason.stop_loss
          else if reaches_up t.bid p.tp_price
          then some ExitReason.take_profit
          else if ltb_ℤ t.direction (pos 0)
          then some ExitReason.signal
          else none)
      else if reaches_up t.ask p.sl_price
      then some ExitReason.stop_loss
      else if reaches_down t.ask p.tp_price
      then some ExitReason.take_profit
      else if ltb_ℤ (pos 0) t.direction
      then some ExitReason.signal
      else none

  -- The side of the quote that a position is left at.
  abbrev pub fill_price : Bool → Tick D → D
  fill_price is_long t = if is_long then t.bid else t.ask

  abbrev pub trade_pnl : D → Bool → D → D → D → D
  trade_pnl point_value is_long entry exit quantity =
      if is_long
      then (exit ⊖ entry) ⊗ quantity ⊗ point_value
      else (entry ⊖ exit) ⊗ quantity ⊗ point_value

  abbrev pub closed_trade : ℕ → D → ExitReason → Position D → ClosedTrade D
  closed_trade i price reason p = record {
    entry_idx = p.entry_idx;
    exit_idx = i;
    entry_price = p.entry_price;
    exit_price = price;
    is_long = p.is_long;
    quantity = p.quantity;
    exit_reason = reason;
  }

  -- Books the profit and fills the next row of the arrays.
  abbrev pub close : D → ℕ → Tick D → ExitReason → Position D → Simulation D → Simulation D
  close point_value i t reason p s =
      let price = fill_price p.is_long t in
      record {
        capital = s.capital ⊕ trade_pnl point_value p.is_long p.entry_price price p.quantity;
        position = none;
        trades = s.trades ++ closed_trade i price reason p ∷ [];
      }

  abbrev pub enter : SizingParams D → ℕ → Tick D → Simulation D → Simulation D
  enter sizing i t s =
      let quantity = compute_quantity s.capital sizing in
      if eqb_ℤ t.direction (pos 0)
      then s
      else if dec 0 <? quantity
      then record {
        capital = s.capital;
        position = some (open_position i t (ltb_ℤ (pos 0) t.direction) quantity);
        trades = s.trades;
      }
      else s

  abbrev pub leave_for :
      Option ExitReason → D → ℕ → Tick D → Position D → Simulation D → Simulation D
  leave_for none point_value i t p s = s
  leave_for (some reason) point_value i t p s = close point_value i t reason p s

  -- One iteration of the loop.
  abbrev pub step_with :
      Option (Position D) → D → SizingParams D → ℕ → Tick D → Simulation D → Simulation D
  step_with none point_value sizing i t s = enter sizing i t s
  step_with (some p) point_value sizing i t s = leave_for (exit_on p t) point_value i t p s

  unfoldable pub step : D → SizingParams D → ℕ → Tick D → Simulation D → Simulation D
  step point_value sizing i t s = step_with s.position point_value sizing i t s

  -- From tick `i` on.
  unfoldable pub run : D → SizingParams D → ℕ → List (Tick D) → Simulation D → Simulation D
  run point_value sizing i [] s = s
  run point_value sizing i (t ∷ ts) s =
      run point_value sizing (suc i) ts (step point_value sizing i t s)

  abbrev pub last : List (Tick D) → Option (Tick D)
  last [] = none
  last (t ∷ []) = some t
  last (t ∷ ts) = last ts

  -- Closes what is open on the last of `n` ticks; without ticks nothing is.
  abbrev pub finish_with :
      Option (Position D) → Option (Tick D) → D → ℕ → Simulation D → Simulation D
  finish_with (some p) (some t) point_value n s =
      close point_value (n - 1) t ExitReason.end_of_day p s
  finish_with _ _ point_value n s = s

  unfoldable pub finish : D → List (Tick D) → Simulation D → Simulation D
  finish point_value ticks s = finish_with s.position (last ticks) point_value (length ticks) s

  unfoldable pub start : D → Simulation D
  start initial_capital = record { capital = initial_capital; position = none; trades = [] }

  unfoldable pub simulate : D → D → SizingParams D → List (Tick D) → Simulation D
  simulate initial_capital point_value sizing ticks =
      finish point_value ticks (run point_value sizing 0 ticks (start initial_capital))

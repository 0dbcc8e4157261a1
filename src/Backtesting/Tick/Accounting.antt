-- ===== src/Backtesting/Tick/Accounting.antt =====
-- The capital of a simulation is accounted for by its trades.
use q_backend.Prelude.{
  ℕ, length, ◌-◌, suc, ◌≡◌, refl, sym, ap, ◌∙◌, List, [], ◌∷◌, ◌++◌, Option, none, some, arith,
}
use q_backend.Decimal.{Arith, ◌⊕◌}
use q_backend.Decimal.Float.{Rounding}
use q_backend.Backtesting.Tick.Orders.{ExitReason, SizingParams}
use q_backend.Backtesting.Tick.Kernel.{
  Tick, Position, ClosedTrade, Simulation, trade_pnl, closed_trade, close, fill_price, leave_for,
  step_with, exit_on, finish_with, last, step, run, finish, start, simulate,
}

module _ {D : Type 0} ⦃a : Arith D⦄ ⦃r : Rounding D⦄ (point_value : D) where
  -- A capital with the profits of the trades added in their order.
  pub capital_after : D → List (ClosedTrade D) → D
  capital_after capital [] = capital
  capital_after capital (t ∷ ts) =
      capital_after
        (capital ⊕ trade_pnl point_value t.is_long t.entry_price t.exit_price t.quantity) ts

  capital_after-append :
      (capital : D) (ts : List (ClosedTrade D)) (t : ClosedTrade D)
      → capital_after capital (ts ++ t ∷ [])
        ≡ capital_after capital ts
          ⊕ trade_pnl point_value t.is_long t.entry_price t.exit_price t.quantity
  unfolding capital_after
  capital_after-append capital [] t = refl
  capital_after-append capital (u ∷ us) t =
      capital_after-append
        (capital ⊕ trade_pnl point_value u.is_long u.entry_price u.exit_price u.quantity) us t

  -- The capital is the initial one with the profits so far.
  pub IsAccounted : D → Simulation D → Type 0
  IsAccounted initial s = s.capital ≡ capital_after initial s.trades

  close-IsAccounted :
      (initial : D) (i : ℕ) (t : Tick D) (reason : ExitReason) (p : Position D) (s : Simulation D)
      → IsAccounted initial s
      → IsAccounted initial (close point_value i t reason p s)
  unfolding IsAccounted
  close-IsAccounted initial i t reason p s h =
      ap
        (λ c. c ⊕ trade_pnl point_value p.is_long p.entry_price (fill_price p.is_long t) p.quantity)
        h
      ∙ sym
          (capital_after-append initial s.trades (closed_trade i (fill_price p.is_long t) reason p))

  leave_for-IsAccounted :
      (reason : Option ExitReason) (initial : D) (i : ℕ) (t : Tick D) (p : Position D)
      (s : Simulation D)
      → IsAccounted initial s
      → IsAccounted initial (leave_for reason point_value i t p s)
  leave_for-IsAccounted none initial i t p s h = h
  leave_for-IsAccounted (some reason) initial i t p s h = close-IsAccounted initial i t reason p s h

  step_with-IsAccounted :
      (held : Option (Position D)) (initial : D) (sizing : SizingParams D) (i : ℕ) (t : Tick D)
      (s : Simulation D)
      → IsAccounted initial s
      → IsAccounted initial (step_with held point_value sizing i t s)
  unfolding IsAccounted
  step_with-IsAccounted none initial sizing i t s h = ground (arith, h)
  step_with-IsAccounted (some p) initial sizing i t s h =
      leave_for-IsAccounted (exit_on p t) initial i t p s h

  step-IsAccounted :
      (initial : D) (sizing : SizingParams D) (i : ℕ) (t : Tick D) (s : Simulation D)
      → IsAccounted initial s
      → IsAccounted initial (step point_value sizing i t s)
  unfolding step
  step-IsAccounted initial sizing i t s = step_with-IsAccounted s.position initial sizing i t s

  run-IsAccounted :
      (initial : D) (sizing : SizingParams D) (i : ℕ) (ts : List (Tick D)) (s : Simulation D)
      → IsAccounted initial s
      → IsAccounted initial (run point_value sizing i ts s)
  unfolding run
  run-IsAccounted initial sizing i [] s h = h
  run-IsAccounted initial sizing i (t ∷ ts) s h =
      run-IsAccounted initial sizing (suc i) ts (step point_value sizing i t s)
        (step-IsAccounted initial sizing i t s h)

  finish_with-IsAccounted :
      (held : Option (Position D)) (on : Option (Tick D)) (initial : D) (n : ℕ) (s : Simulation D)
      → IsAccounted initial s
      → IsAccounted initial (finish_with held on point_value n s)
  finish_with-IsAccounted none on initial n s h = h
  finish_with-IsAccounted (some p) none initial n s h = h
  finish_with-IsAccounted (some p) (some t) initial n s h =
      close-IsAccounted initial (n - 1) t ExitReason.end_of_day p s h

  -- The final capital is the initial one with the profits of the closed trades, each rounded as it
  -- was added, in their order: no profit is lost or counted twice.
  pub simulate-IsAccounted :
      (initial : D) (sizing : SizingParams D) (ticks : List (Tick D))
      → IsAccounted initial (simulate initial point_value sizing ticks)
  unfolding simulate finish start IsAccounted capital_after
  simulate-IsAccounted initial sizing ticks =
      let s = run point_value sizing 0 ticks (start initial) in
      finish_with-IsAccounted s.position (last ticks) initial (length ticks) s
        (run-IsAccounted initial sizing 0 ticks (start initial) refl)

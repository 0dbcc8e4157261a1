-- ===== src/Backtesting/Engine/Flat.antt =====
-- What is closed at the end of a day or of a chunk.
use q_backend.Prelude.{
  ℕ, ◌==◌, ◌≡◌, refl, sym, subst, if_true, if_false, if◌then◌else◌, ap, ◌∙◌, inl, inr, ◌⊎◌, Bool,
  true, false, ◌&&◌, ◌||◌, not, Bool-cases, List, [], ◌∷◌, Option, some, String, All, any, select,
  update, leb, arith,
}
use q_backend.Decimal.{Arith, dec}
use q_backend.Backtesting.Models.{Trade}
use q_backend.Backtesting.Registry.{
  TransactionCostConfig, is_open, is_trade, close_if_open, pay_exit, get_open_trades, close_trade,
  close_trade_with_costs,
}
use q_backend.Backtesting.Engine.{
  Bar, BacktestEngine, EngineState, is_warm_up, is_last_of_day, last_bar, fill_price_of, time_of,
  get_or,
}
use q_backend.Backtesting.Engine.Fills.{close_each, close_day, execute_exits, execute_entries}
use q_backend.Backtesting.Engine.Walk.{
  queue_signals, trade_bar, process_bar, process_bars, force_close, start_state, run_single_chunk,
}

-- The trade is closed, or one of the list has its id.
abbrev is_covered : {D : Type 0} → List (Trade D) → Trade D → Bool
is_covered ts x = not (is_open x) || any (λ t. t.id == x.id) ts

Covers : {D : Type 0} → List (Trade D) → List (Trade D) → Type 0
Covers ts xs = All (λ x. is_covered ts x ≡ true) xs

module _ {D : Type 0} where
  covered-cons :
      (t : Trade D) (ts : List (Trade D)) (x : Trade D)
      → is_covered ts x ≡ true
      → is_covered (t ∷ ts) x ≡ true
  covered-cons t ts x h = ground (arith, h)

  Covers-cons : (t : Trade D) (ts xs : List (Trade D)) → Covers ts xs → Covers (t ∷ ts) xs
  unfolding Covers
  Covers-cons t ts [] h = _
  Covers-cons t ts (x ∷ xs) h = (covered-cons t ts x h.0, Covers-cons t ts xs h.1)

  Covers-select : (xs : List (Trade D)) → Covers (select is_open xs) xs
  unfolding Covers
  Covers-select [] = _
  Covers-select (x ∷ xs) = elim (Bool-cases (is_open x)) [
    | inl opened ↦
        let same : select is_open (x ∷ xs) ≡ x ∷ select is_open xs = rw opened refl in
        subst (λ ys. Covers ys (x ∷ xs)) (sym same)
          (ground arith, Covers-cons x (select is_open xs) xs (Covers-select xs))
    | inr closed ↦
        let same : select is_open (x ∷ xs) ≡ select is_open xs = rw closed refl in
        subst (λ ys. Covers ys (x ∷ xs)) (sym same) (ground (arith, closed), Covers-select xs)
  ]

  Covers-[] : (xs : List (Trade D)) → Covers [] xs → select is_open xs ≡ []
  unfolding Covers
  Covers-[] [] h = refl
  Covers-[] (x ∷ xs) h = ground (arith, h.0, Covers-[] xs h.1)

module _ {D : Type 0} ⦃a : Arith D⦄ (costs : Option (TransactionCostConfig D)) (time : ℕ)
    (price : D) (reason : Option String) where
  close_if_open-closed : (x : Trade D) → is_open (close_if_open time price reason x) ≡ false
  close_if_open-closed x = elim (Bool-cases (is_open x)) [
    | inl opened ↦ rw opened refl
    | inr closed ↦ rw (closed, closed) refl
  ]

  -- A row after a trade was paid and closed.
  abbrev row_closed : ℕ → Trade D → Trade D
  row_closed id x =
      let y = if is_trade id x then pay_exit costs price x else x in
      if is_trade id y then close_if_open time price reason y else y

  pay_exit-id : (x : Trade D) → (pay_exit costs price x).id ≡ x.id
  pay_exit-id x = elim (Bool-cases (is_open x)) [
    | inl opened ↦ rw opened refl
    | inr closed ↦ rw closed refl
  ]

  row_closed_same :
      (id : ℕ) (x : Trade D)
      → is_trade id x ≡ true
      → is_trade id (pay_exit costs price x) ≡ true
      → row_closed id x ≡ close_if_open time price reason (pay_exit costs price x)
  row_closed_same id x same paid =
      ap
        (λ b.
          let y = if b then pay_exit costs price x else x in
          if is_trade id y then close_if_open time price reason y else y)
        same
      ∙ ap
          (λ b.
            if b
            then close_if_open time price reason (pay_exit costs price x)
            else pay_exit costs price x)
          paid

  row_closed_other : (id : ℕ) (x : Trade D) → is_trade id x ≡ false → row_closed id x ≡ x
  row_closed_other id x other =
      ap
        (λ b.
          let y = if b then pay_exit costs price x else x in
          if is_trade id y then close_if_open time price reason y else y)
        other
      ∙ ap (λ b. if b then close_if_open time price reason x else x) other

  row_closed-covered :
      (t : Trade D) (ts : List (Trade D)) (x : Trade D)
      → is_covered (t ∷ ts) x ≡ true
      → is_covered ts (row_closed t.id x) ≡ true
  row_closed-covered t ts x h = elim (Bool-cases (is_trade t.id x)) [
    | inl same ↦
        let closed = close_if_open-closed (pay_exit costs price x) in
        let paid : (is_trade t.id (pay_exit costs price x)) ≡ true = rw (pay_exit-id x) same in
        ap (λ y. is_covered ts y) (row_closed_same t.id x same paid) ∙ ground (arith, closed)
    | inr other ↦
        ap (λ y. is_covered ts y) (row_closed_other t.id x other) ∙ ground (arith, h, other)
  ]

  Covers-closed :
      (t : Trade D) (ts xs : List (Trade D))
      → Covers (t ∷ ts) xs
      → Covers ts (
          update
            (is_trade t.id)
            (close_if_open time price reason)
            (update (is_trade t.id) (pay_exit costs price) xs))
  unfolding Covers
  Covers-closed t ts [] h = _
  Covers-closed t ts (x ∷ xs) h = (row_closed-covered t ts x h.0, Covers-closed t ts xs h.1)

-- Nothing is open, and nothing waits for the next bar.
pub IsFlat : {D S : Type 0} → EngineState D S → Type 0
IsFlat s = (get_open_trades s.registry ≡ []) × (s.pending_exits ≡ []) × (s.pending_entries ≡ [])

module _ {D S : Type 0} ⦃a : Arith D⦄ (e : BacktestEngine D S) where
  close_each_flat :
      (time : ℕ) (price : D) (reason : String) (ts : List (Trade D)) (s : EngineState D S)
      → Covers ts s.registry.trades
      → get_open_trades (close_each e time price reason ts s).registry ≡ []
  unfolding close_each get_open_trades close_trade_with_costs close_trade
  close_each_flat time price reason [] s h = Covers-[] s.registry.trades h
  close_each_flat time price reason (t ∷ ts) s h =
      close_each_flat time price reason ts _
        (Covers-closed e.costs time price (some reason) t ts s.registry.trades h)

  close_open_flat :
      (time : ℕ) (price : D) (reason : String) (s : EngineState D S)
      → get_open_trades (close_each e time price reason (get_open_trades s.registry) s).registry
        ≡ []
  unfolding get_open_trades
  close_open_flat time price reason s =
      close_each_flat time price reason (select is_open s.registry.trades) s
        (Covers-select s.registry.trades)

  close_day-IsFlat :
      (time : ℕ) (price : D) (s : EngineState D S) → IsFlat (close_day e time price s)
  unfolding close_day IsFlat
  close_day-IsFlat time price s = (close_open_flat time price "END_OF_DAY" s, refl, refl)

  trade_bar-IsFlat :
      (bar : Bar D) (s : EngineState D S) → e.day_trade ≡ true → IsFlat (trade_bar e true bar s)
  unfolding trade_bar
  trade_bar-IsFlat bar s day =
      let price = fill_price_of bar in
      let exited = execute_exits e bar.timestamp price s.pending_exits s in
      let queued =
        queue_signals e true bar (execute_entries e bar price s.pending_entries exited) in
      let ended = close_day e bar.timestamp (get_or (bar.column "close") price) queued in
      subst IsFlat (sym (if_true (e.day_trade && true) ended queued (rw day refl)))
        (close_day-IsFlat bar.timestamp (get_or (bar.column "close") price) queued)

  -- With `day_trade`, the last bar of a day, unless it lies before the start of trading, leaves no
  -- trade open and no signal queued, whatever the state before and whatever the strategy says:
  -- nothing is carried into the next day.
  pub process_bar-IsFlat :
      (trade_start : Option ℕ) (bar : Bar D) (s : EngineState D S)
      → e.day_trade ≡ true
      → is_warm_up trade_start bar ≡ false
      → IsFlat (process_bar e trade_start true bar s)
  unfolding process_bar
  process_bar-IsFlat trade_start bar s day warm =
      let late = e.day_trade && leb e.close_t (time_of bar) in
      let final = get_or (bar.column "close") (fill_price_of bar) in
      let bar_open = close_day e bar.timestamp (fill_price_of bar) s in
      let traded = trade_bar e true bar s in
      let past_warm_up =
        if_false (is_warm_up trade_start bar) s (if late then bar_open else traded) warm in
      elim (Bool-cases late) [
        | inl is_late ↦
            subst IsFlat (sym (past_warm_up ∙ if_true late bar_open traded is_late))
              (close_day-IsFlat bar.timestamp (fill_price_of bar) s)
        | inr is_early ↦
            subst IsFlat (sym (past_warm_up ∙ if_false late bar_open traded is_early))
              (trade_bar-IsFlat bar s day)
      ]

  process_bars-IsFlat :
      (trade_start : Option ℕ) (bar last : Bar D) (bars : List (Bar D)) (s : EngineState D S)
      → e.day_trade ≡ true
      → last_bar (bar ∷ bars) ≡ some last
      → is_warm_up trade_start last ≡ false
      → IsFlat (process_bars e trade_start (bar ∷ bars) s)
  unfolding process_bars
  process_bars-IsFlat trade_start bar last [] s day final warm =
      let same : bar ≡ last = ground arith in
      process_bar-IsFlat trade_start bar s day (ap (λ b. is_warm_up trade_start b) same ∙ warm)
  process_bars-IsFlat trade_start bar last (next ∷ bars) s day final warm =
      process_bars-IsFlat trade_start next last bars
        (process_bar e trade_start (is_last_of_day bar (next ∷ bars)) bar s) day final warm

  -- A chunk leaves no trade open in the end, if it is closed by force, or if the engine trades by the
  -- day and the last bar does not lie before the start of trading.
  pub run_single_chunk-flat :
      (state : S) (bar last : Bar D) (bars : List (Bar D)) (force : Bool) (trade_start : Option ℕ)
      → last_bar (bar ∷ bars) ≡ some last
      → (force ≡ true) ⊎ ((e.day_trade ≡ true) × (is_warm_up trade_start last ≡ false))
      → get_open_trades (run_single_chunk e state (bar ∷ bars) force trade_start) ≡ []
  unfolding run_single_chunk IsFlat
  run_single_chunk-flat state bar last bars true trade_start final h =
      let walked = process_bars e trade_start (bar ∷ bars) (start_state e state) in
      ap (λ o. get_open_trades (force_close e o walked).registry) final
      ∙ close_open_flat last.timestamp (get_or (last.column "close") (dec 0)) "FORCE_CLOSE" walked
  run_single_chunk-flat state bar last bars false trade_start final (inl forced) =
      absurd (ground arith)
  run_single_chunk-flat state bar last bars false trade_start final (inr (day, warm)) =
      (process_bars-IsFlat trade_start bar last bars (start_state e state) day final warm).0

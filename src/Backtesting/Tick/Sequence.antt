-- ===== src/Backtesting/Tick/Sequence.antt =====
-- The trades of a simulation follow one another and fit into the kernel's arrays.
use q_backend.Prelude.{
  ℕ, suc, ◌+◌, ◌-◌, ◌≤◌, ◌<◌, ◌≡◌, refl, subst, Bool, true, false, Bool-cases, inl, inr, List, [],
  ◌∷◌, ◌++◌, length, Option, none, some, arith,
}
use q_backend.Decimal.{Arith, dec, ◌<?◌}
use q_backend.Prelude.Int.{pos, ltb_ℤ, eqb_ℤ}
use q_backend.Decimal.Float.{Rounding}
use q_backend.Backtesting.Tick.Orders.{ExitReason, SizingParams}
use q_backend.Backtesting.Tick.Kernel.{
  Tick, Position, ClosedTrade, Simulation, closed_trade, close, fill_price, compute_quantity,
  open_position, enter, leave_for, step_with, exit_on, finish_with, last, step, run, finish, start,
  simulate,
}

-- From tick `low` on, below tick `high`: every trade is entered before the next, left at or after
-- its entry, and the next is entered on a later tick.
pub IsSequence : {D : Type 0} → ℕ → List (ClosedTrade D) → ℕ → Type 0
IsSequence low [] high = low ≤ high
IsSequence low (t ∷ ts) high =
    (low ≤ t.entry_idx) × (t.entry_idx ≤ t.exit_idx) × IsSequence (suc t.exit_idx) ts high

module _ {D : Type 0} ⦃a : Arith D⦄ ⦃r : Rounding D⦄ where
  IsSequence-append :
      (low high : ℕ) (ts : List (ClosedTrade D)) (t : ClosedTrade D)
      → IsSequence low ts t.entry_idx
      → t.entry_idx ≤ t.exit_idx
      → t.exit_idx < high
      → IsSequence low (ts ++ t ∷ []) high
  unfolding IsSequence
  IsSequence-append low high [] t h e f = (h, e, f)
  IsSequence-append low high (u ∷ us) t h e f =
      (h.0, h.1, IsSequence-append (suc u.exit_idx) high us t h.2 e f)

  IsSequence-mono :
      (low at high : ℕ) (ts : List (ClosedTrade D))
      → IsSequence low ts at
      → at ≤ high
      → IsSequence low ts high
  unfolding IsSequence
  IsSequence-mono low at high [] h e = omega arith
  IsSequence-mono low at high (u ∷ us) h e =
      (h.0, h.1, IsSequence-mono (suc u.exit_idx) at high us h.2 e)

  -- Before tick `i`: what is closed lies before the entry of what is open.
  IsUpTo : ℕ → Option (Position D) → List (ClosedTrade D) → Type 0
  IsUpTo i none ts = IsSequence 0 ts i
  IsUpTo i (some p) ts = IsSequence 0 ts p.entry_idx × (p.entry_idx < i)

  close-IsSequence :
      (point : D) (i high : ℕ) (t : Tick D) (reason : ExitReason) (p : Position D)
      (s : Simulation D)
      → IsSequence 0 s.trades p.entry_idx
      → p.entry_idx ≤ i
      → i < high
      → IsSequence 0 (close point i t reason p s).trades high
  close-IsSequence point i high t reason p s =
      IsSequence-append 0 high s.trades (closed_trade i (fill_price p.is_long t) reason p)

  open_entry : (i : ℕ) (t : Tick D) (b : Bool) (q : D) → (open_position i t b q).entry_idx ≡ i
  open_entry i t true q = refl
  open_entry i t false q = refl

  enter-IsUpTo :
      (sizing : SizingParams D) (i : ℕ) (t : Tick D) (s : Simulation D)
      → s.position ≡ none
      → IsSequence 0 s.trades i
      → IsUpTo (suc i) (enter sizing i t s).position (enter sizing i t s).trades
  unfolding IsUpTo
  enter-IsUpTo sizing i t s flat h =
      let quantity = compute_quantity s.capital sizing in
      let b = ltb_ℤ (pos 0) t.direction in
      let later = IsSequence-mono 0 i (suc i) s.trades h (omega arith) in
      elim (Bool-cases (eqb_ℤ t.direction (pos 0))) [
        | inl no_signal ↦ rw (no_signal, flat) later
        | inr signal ↦ elim (Bool-cases (dec 0 <? quantity)) [
          | inl positive ↦ rw (signal, positive, open_entry i t b quantity) (h, omega arith)
          | inr not_positive ↦ rw (signal, not_positive, flat) later
        ]
      ]

  leave_for-IsUpTo :
      (reason : Option ExitReason) (point : D) (i : ℕ) (t : Tick D) (p : Position D)
      (s : Simulation D)
      → s.position ≡ some p
      → IsUpTo i (some p) s.trades
      → IsUpTo
          (suc i)
          (leave_for reason point i t p s).position
          (leave_for reason point i t p s).trades
  unfolding IsUpTo
  leave_for-IsUpTo none point i t p s held h = rw held (h.0, omega (arith, h.1))
  leave_for-IsUpTo (some reason) point i t p s held h =
      close-IsSequence point i (suc i) t reason p s h.0 (omega (arith, h.1)) (omega arith)

  step_with-IsUpTo :
      (held : Option (Position D)) (point : D) (sizing : SizingParams D) (i : ℕ) (t : Tick D)
      (s : Simulation D)
      → s.position ≡ held
      → IsUpTo i held s.trades
      → IsUpTo
          (suc i)
          (step_with held point sizing i t s).position
          (step_with held point sizing i t s).trades
  unfolding IsUpTo
  step_with-IsUpTo none point sizing i t s e h = enter-IsUpTo sizing i t s e h
  step_with-IsUpTo (some p) point sizing i t s e h =
      leave_for-IsUpTo (exit_on p t) point i t p s e h

  run-IsUpTo :
      (point : D) (sizing : SizingParams D) (i : ℕ) (ts : List (Tick D)) (s : Simulation D)
      → IsUpTo i s.position s.trades
      → IsUpTo (i + length ts) (run point sizing i ts s).position (run point sizing i ts s).trades
  unfolding run step
  run-IsUpTo point sizing i [] s h = subst (λ n. IsUpTo n s.position s.trades) (omega arith) h
  run-IsUpTo point sizing i (t ∷ ts) s h =
      let s' = step point sizing i t s in
      let end = run point sizing (suc i) ts s' in
      subst (λ n. IsUpTo n end.position end.trades) (omega arith)
        (run-IsUpTo point sizing (suc i) ts s'
          (step_with-IsUpTo s.position point sizing i t s refl h))

  last-some : (t : Tick D) (ts : List (Tick D)) → (u : Tick D) × (last (t ∷ ts) ≡ some u)
  last-some t [] = (t, refl)
  last-some t (u ∷ us) = last-some u us

  finish_up_to :
      (held : Option (Position D)) (point : D) (ts : List (Tick D)) (s : Simulation D)
      → s.position ≡ held
      → IsUpTo (length ts) held s.trades
      → IsSequence 0 (finish_with held (last ts) point (length ts) s).trades (length ts)
        × ((finish_with held (last ts) point (length ts) s).position ≡ none)
  unfolding IsUpTo
  finish_up_to none point ts s e h = (h, e)
  finish_up_to (some p) point [] s e h = absurd (omega (arith, h.1))
  finish_up_to (some p) point (t ∷ ts) s e h =
      let (u, there) = last-some t ts in
      rw there (
        close-IsSequence point (suc (length ts) - 1) (suc (length ts)) u ExitReason.end_of_day p s
            h.0 (omega (arith, h.1)) (omega arith),
        refl,
      )

  -- The trades of a simulation follow one another, one position at a time: each is left at or after
  -- its entry, the next is entered on a later tick, and all lie on the ticks given. In the end no
  -- position is open.
  pub simulate-IsSequence :
      (initial point : D) (sizing : SizingParams D) (ticks : List (Tick D))
      → IsSequence 0 (simulate initial point sizing ticks).trades (length ticks)
        × ((simulate initial point sizing ticks).position ≡ none)
  unfolding simulate finish start IsUpTo IsSequence
  simulate-IsSequence initial point sizing ticks =
      let s = run point sizing 0 ticks (start initial) in
      let walked : IsUpTo (length ticks) s.position s.trades =
        subst (λ n. IsUpTo n s.position s.trades) (omega arith)
          (run-IsUpTo point sizing 0 ticks (start initial) (omega arith)) in
      finish_up_to s.position point ticks s refl walked

  sequence-length :
      (low high : ℕ) (ts : List (ClosedTrade D)) → IsSequence low ts high → low + length ts ≤ high
  unfolding IsSequence
  sequence-length low high [] h = omega (arith, h)
  sequence-length low high (t ∷ ts) h =
      omega (arith, h.0, h.1, sequence-length (suc t.exit_idx) high ts h.2)

  -- A simulation closes at most one trade for each tick, so that its rows fit into the arrays of
  -- that many entries that the kernel writes without a check.
  pub simulate-length :
      (initial point : D) (sizing : SizingParams D) (ticks : List (Tick D))
      → length (simulate initial point sizing ticks).trades ≤ length ticks
  simulate-length initial point sizing ticks =
      let trades = (simulate initial point sizing ticks).trades in
      omega (
        arith,
        sequence-length 0 (length ticks) trades (simulate-IsSequence initial point sizing ticks).0,
      )

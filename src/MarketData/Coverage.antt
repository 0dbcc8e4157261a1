-- ===== src/MarketData/Coverage.antt =====
-- market_data/coverage.py and routing.py: who serves a read of bars, and what has to be fetched.
-- Instants are microseconds; the stored range of a series is an argument.
use q_backend.Prelude.{
  ℕ, ◌≤◌, ◌⊎◌, inl, inr, ◌&&◌, Bool, false, Bool-cases, Option, none, some, List, [], ◌∷◌, ◌++◌,
  ltb, leb, if◌then◌else◌, arith,
}

-- `OhlcvAvailableRange` of the local store, and a segment of time.
pub record Range : Type 0 where
  pub start : ℕ
  pub end : ℕ

pub data ServeFrom : Type 0 where
  local : ServeFrom
  provider : ServeFrom

pub record CoveragePlan : Type 0 where
  pub serve_from : ServeFrom
  pub missing : List Range

abbrev pub contains : Range → ℕ → ℕ → Bool
contains range start end = leb range.start start && leb end range.end

unfoldable pub envelope_covers : Option Range → ℕ → ℕ → Bool
envelope_covers none start end = false
envelope_covers (some range) start end = contains range start end

-- The segments before and after the stored range.
abbrev pub head_segment : Range → ℕ → List Range
head_segment range start =
    if ltb start range.start then record { start = start; end = range.start } ∷ [] else []

abbrev pub tail_segment : Range → ℕ → List Range
tail_segment range end =
    if ltb range.end end then record { start = range.end; end = end } ∷ [] else []

unfoldable pub plan_ohlcv_read : Option Range → ℕ → ℕ → CoveragePlan
plan_ohlcv_read none start end = record {
  serve_from = ServeFrom.provider;
  missing = record { start = start; end = end } ∷ [];
}
plan_ohlcv_read (some range) start end =
    if contains range start end
    then record { serve_from = ServeFrom.local; missing = [] }
    else record {
      serve_from = ServeFrom.provider;
      missing = head_segment range start ++ tail_segment range end;
    }

-- The instant lies in the range, both ends included.
abbrev pub IsIn : ℕ → Range → Type 0
IsIn t range = (range.start ≤ t) × (t ≤ range.end)

-- The instant lies in one of the segments, or in what is stored.
pub IsServed : ℕ → Option Range → List Range → Type 0
IsServed t none [] = ⊥
IsServed t (some range) [] = IsIn t range
IsServed t stored (segment ∷ segments) = IsIn t segment ⊎ IsServed t stored segments

-- Every instant of a read lies in the stored range or in a segment that the plan has fetched:
-- stored and fetched bars together leave no gap.
pub plan_ohlcv_read-IsServed :
    (stored : Option Range) (start end t : ℕ)
    → start ≤ t
    → t ≤ end
    → IsServed t stored (plan_ohlcv_read stored start end).missing
unfolding plan_ohlcv_read IsServed
plan_ohlcv_read-IsServed none start end t from to = inl (from, to)
plan_ohlcv_read-IsServed (some range) start end t from to =
    elim (Bool-cases (contains range start end)) [
      | inl whole ↦ rw whole (ground (arith, whole))
      | inr lacking ↦ elim (Bool-cases (ltb start range.start)) [
        | inl before ↦ elim (Bool-cases (ltb range.end end)) [
          | inl after ↦ rw (lacking, before, after) (ground (arith, from, to))
          | inr within ↦ rw (lacking, before, within) (ground (arith, from, to, within))
        ]
        | inr inside ↦ elim (Bool-cases (ltb range.end end)) [
          | inl after ↦ rw (lacking, inside, after) (ground (arith, from, to, inside))
          | inr within ↦ rw (lacking, inside, within) (ground (arith, from, to, inside, within))
        ]
      ]
    ]

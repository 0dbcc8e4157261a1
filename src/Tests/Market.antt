-- ===== src/Tests/Market.antt =====
-- Runs of the reading of market data.
use q_backend.Prelude.{ℕ, ◌≡◌, refl, Option, none, some, List, [], ◌∷◌, find, arith}
use q_backend.Prelude.Int.{ℤ, pos}
use q_backend.MarketData.Coverage.{Range, IsServed, plan_ohlcv_read, plan_ohlcv_read-IsServed}
use q_backend.MarketData.Service.{
  Ohlcv, LocalStore, place, add_group, add_groups, merge_ohlcv_bars, fetch_missing,
  get_ohlcv_auto_remote,
}
use q_backend.MarketData.Coverage.{envelope_covers}
use q_backend.MarketData.Merge.{IsAscending, is_at, latest_of_groups, merge_ohlcv_bars-IsAscending}

abbrev stored_range : Range
stored_range = record { start = 20; end = 30 }

plan_ohlcv_read-IsServed_example :
    IsServed 35 (some stored_range) (plan_ohlcv_read (some stored_range) 10 40).missing
plan_ohlcv_read-IsServed_example =
    plan_ohlcv_read-IsServed (some stored_range) 10 40 35 (omega arith) (omega arith)

abbrev candle : ℕ → ℕ → Ohlcv ℤ
candle time price = record {
  time = time;
  open_price = pos price;
  high = pos price;
  low = pos price;
  close = pos price;
  tick_volume = 1;
  spread = none;
  real_volume = none;
}

abbrev groups : List (List (Ohlcv ℤ))
groups =
    (candle 20 1 ∷ candle 30 2 ∷ [])
    ∷ (candle 10 3 ∷ candle 20 4 ∷ [])
    ∷ (candle 30 5 ∷ candle 40 6 ∷ [])
    ∷ []

-- Fetched bars replace the stored ones of the same time; one lies outside of the range.
merge_ohlcv_bars_run : merge_ohlcv_bars 15 40 groups ≡ candle 20 4 ∷ candle 30 5 ∷ candle 40 6 ∷ []
unfolding merge_ohlcv_bars add_groups add_group place
merge_ohlcv_bars_run = refl

merge_ohlcv_bars-IsAscending_example :
    IsAscending 15 (merge_ohlcv_bars 15 40 groups) 40
    × (find (is_at 20) (merge_ohlcv_bars 15 40 groups) ≡ latest_of_groups 20 groups none)
merge_ohlcv_bars-IsAscending_example = merge_ohlcv_bars-IsAscending 15 40 20 groups refl

-- A store that holds its bars, and a gateway with a bar at the start of every segment.
abbrev store : LocalStore (Option Range) ℤ
store = record {
  available_range = λ range. range;
  read_ohlcv = λ range start end. candle start 7 ∷ [];
  write_ohlcv = λ range bars. some (some (record { start = 10; end = 40 }));
}

get_ohlcv_auto_remote_run :
    get_ohlcv_auto_remote store (λ start end. some (candle start 8 ∷ [])) 10 40 (some stored_range)
    ≡ (some (candle 10 7 ∷ []), some (record { start = 10; end = 40 }))
unfolding get_ohlcv_auto_remote plan_ohlcv_read fetch_missing envelope_covers
get_ohlcv_auto_remote_run = refl

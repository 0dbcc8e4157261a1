-- ===== src/MarketData/Service.antt =====
-- market_data/service.py: the read that goes through the remote gateway in the `auto` mode. The local
-- store and the gateway are parameters; the store is passed along.
use q_backend.Prelude.{
  ℕ, ◌==◌, ◌&&◌, Bool, true, false, Option, none, some, List, [], ◌∷◌, ◌++◌, ltb, leb,
  if◌then◌else◌,
}
use q_backend.MarketData.Coverage.{Range, ServeFrom, envelope_covers, plan_ohlcv_read}

pub record Ohlcv (D : Type 0) : Type 0 where
  pub time : ℕ
  pub open_price : D
  pub high : D
  pub low : D
  pub close : D
  pub tick_volume : ℕ
  pub spread : Option ℕ
  pub real_volume : Option ℕ

abbrev pub is_between : ℕ → ℕ → ℕ → Bool
is_between start end time = leb start time && leb time end

-- The store of one series and timeframe: `available_range`, `read_ohlcv`, and `write_ohlcv`, which is
-- `none` where it raises; the store is then as it was.
pub record LocalStore (L D : Type 0) : Type 0 where
  pub available_range : L → Option Range
  pub read_ohlcv : L → ℕ → ℕ → List (Ohlcv D)
  pub write_ohlcv : L → List (Ohlcv D) → Option L

module _ {D : Type 0} where
  -- `by_time[bar.time] = bar`, on the values of the dictionary in the order of their keys.
  unfoldable pub place : Ohlcv D → List (Ohlcv D) → List (Ohlcv D)
  place bar [] = bar ∷ []
  place bar (x ∷ xs) =
      let later = place bar xs in
      if bar.time == x.time
      then bar ∷ xs
      else if ltb bar.time x.time
      then bar ∷ x ∷ xs
      else x ∷ later

  unfoldable pub add_group : ℕ → ℕ → List (Ohlcv D) → List (Ohlcv D) → List (Ohlcv D)
  add_group start end [] by_time = by_time
  add_group start end (bar ∷ bars) by_time =
      add_group start end bars
        (if is_between start end bar.time then place bar by_time else by_time)

  unfoldable pub add_groups : ℕ → ℕ → List (List (Ohlcv D)) → List (Ohlcv D) → List (Ohlcv D)
  add_groups start end [] by_time = by_time
  add_groups start end (bars ∷ groups) by_time =
      add_groups start end groups (add_group start end bars by_time)

  unfoldable pub merge_ohlcv_bars : ℕ → ℕ → List (List (Ohlcv D)) → List (Ohlcv D)
  merge_ohlcv_bars start end groups = add_groups start end groups []

-- The loop's variables, and whether it ended with a `ConnectionError`.
pub record Fetched (L D : Type 0) : Type 0 where
  pub store : L
  pub fetched_segments : List (List (Ohlcv D))
  pub persist_ok : Bool
  pub disconnected : Bool

-- The gateway's bars of a segment; `none` is its `ConnectionError`.
module _ {L D : Type 0} (local : LocalStore L D) (remote : ℕ → ℕ → Option (List (Ohlcv D))) where
  abbrev covers : L → ℕ → ℕ → Bool
  covers store start end = envelope_covers (local.available_range store) start end

  -- `_fetch_through_ohlcv` of bars that were fetched.
  abbrev written : Option L → List (Ohlcv D) → Fetched L D → Fetched L D
  written none bars f = record {
    store = f.store;
    fetched_segments = f.fetched_segments ++ bars ∷ [];
    persist_ok = false;
    disconnected = f.disconnected;
  }
  written (some store) bars f = record {
    store = store;
    fetched_segments = f.fetched_segments ++ bars ∷ [];
    persist_ok = f.persist_ok;
    disconnected = f.disconnected;
  }

  abbrev keep_segment : List (Ohlcv D) → Fetched L D → Fetched L D
  keep_segment [] f = f
  keep_segment (bar ∷ bars) f = written (local.write_ohlcv f.store (bar ∷ bars)) (bar ∷ bars) f

  abbrev disconnect : Fetched L D → Fetched L D
  disconnect f = record {
    store = f.store;
    fetched_segments = f.fetched_segments;
    persist_ok = f.persist_ok;
    disconnected = true;
  }

  unfoldable pub fetch_missing : ℕ → ℕ → List Range → Fetched L D → Fetched L D
  fetch_missing start end [] f = f
  fetch_missing start end (segment ∷ segments) f =
      if covers f.store start end then f else elim (remote segment.start segment.end) [
        | none ↦ disconnect f
        | some bars ↦ fetch_missing start end segments (keep_segment bars f)
      ]

  -- The bars, `none` where a `ConnectionError` is raised, and the store.
  abbrev answer : ℕ → ℕ → Fetched L D → Option (List (Ohlcv D)) × L
  answer start end f =
      let stored = local.read_ohlcv f.store start end in
      let whole = covers f.store start end in
      if f.disconnected
      then (if whole then (some stored, f.store) else (none, f.store))
      else if f.persist_ok && whole
      then (some stored, f.store)
      else (some (merge_ohlcv_bars start end (stored ∷ f.fetched_segments)), f.store)

  abbrev serve : ServeFrom → ℕ → ℕ → List Range → L → Option (List (Ohlcv D)) × L
  serve ServeFrom.local start end missing store = (some (local.read_ohlcv store start end), store)
  serve ServeFrom.provider start end missing store = answer start end (
      fetch_missing start end missing
        (record { store = store; fetched_segments = []; persist_ok = true; disconnected = false }))

  unfoldable pub get_ohlcv_auto_remote : ℕ → ℕ → L → Option (List (Ohlcv D)) × L
  get_ohlcv_auto_remote start end store =
      let plan = plan_ohlcv_read (local.available_range store) start end in
      serve plan.serve_from start end plan.missing store

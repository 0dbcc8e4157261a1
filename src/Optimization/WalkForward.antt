-- ===== src/Optimization/WalkForward.antt =====
-- optimization/walkforward.py: the windows of a walk-forward analysis. Instants and durations are
-- microseconds, without the bounds of `datetime`.
pub mod Rounds
pub mod Tiling
pub mod Training
pub mod Ending
use q_backend.Prelude.{
  ℕ, zero, suc, ◌+◌, ◌-◌, ◌*◌, ◌⊎◌, inl, inr, List, [], ◌∷◌, Option, none, some, ltb, leb, length,
  if◌then◌else◌,
}

abbrev pub one_day : ℕ
one_day = 86400000000

pub data WalkForwardMode : Type 0 where
  rolling : WalkForwardMode
  anchored : WalkForwardMode

-- Without the number of workers, which the windows do not depend on.
pub record WalkForwardConfig : Type 0 where
  pub train_days : ℕ
  pub test_days : ℕ
  pub mode : WalkForwardMode
  pub min_windows : ℕ

pub record WalkForwardWindow : Type 0 where
  pub index : ℕ
  pub train_start : ℕ
  pub train_end : ℕ
  pub test_start : ℕ
  pub test_end : ℕ

-- The `ValueError`s; the second has the number of windows found.
pub data WindowError : Type 0 where
  start_not_before_end : WindowError
  too_few_windows : ℕ → WindowError

abbrev pub train_delta : WalkForwardConfig → ℕ
train_delta cfg = cfg.train_days * one_day

abbrev pub test_delta : WalkForwardConfig → ℕ
test_delta cfg = cfg.test_days * one_day

abbrev pub earlier : ℕ → ℕ → ℕ
earlier a b = if ltb b a then b else a

abbrev pub train_start_of : WalkForwardMode → ℕ → ℕ → ℕ → ℕ
train_start_of WalkForwardMode.rolling start test_start delta = test_start - delta
train_start_of WalkForwardMode.anchored start test_start delta = start

-- The window that is tested from `test_start` on.
unfoldable pub window_at : ℕ → ℕ → WalkForwardConfig → ℕ → ℕ → WalkForwardWindow
window_at start end cfg index test_start = record {
  index = index;
  train_start = train_start_of cfg.mode start test_start (train_delta cfg);
  train_end = test_start;
  test_start = test_start;
  test_end = earlier (test_start + test_delta cfg) end;
}

abbrev pub prepend :
    WalkForwardWindow → Option (List WalkForwardWindow) → Option (List WalkForwardWindow)
prepend w none = none
prepend w (some ws) = some (w ∷ ws)

-- The loop from an index on; `none` where the fuel is used up.
unfoldable pub windows_from : ℕ → ℕ → ℕ → WalkForwardConfig → ℕ → Option (List WalkForwardWindow)
windows_from zero start end cfg index = none
windows_from (suc fuel) start end cfg index =
    let rest = windows_from fuel start end cfg (suc index) in
    let test_start = start + train_delta cfg + index * test_delta cfg in
    let w = window_at start end cfg index test_start in
    if leb end test_start
    then some []
    else if ltb (w.test_end - w.test_start) one_day
    then some []
    else if ltb (w.train_end - w.train_start) one_day
    then some []
    else prepend w rest

abbrev pub checked :
    ℕ → Option (List WalkForwardWindow) → Option (WindowError ⊎ List WalkForwardWindow)
checked least none = none
checked least (some ws) =
    if ltb (length ws) least then some (inl (too_few_windows (length ws))) else some (inr ws)

unfoldable pub split_windows :
    ℕ → ℕ → ℕ → WalkForwardConfig → Option (WindowError ⊎ List WalkForwardWindow)
split_windows fuel start end cfg =
    if leb end start
    then some (inl start_not_before_end)
    else checked cfg.min_windows (windows_from fuel start end cfg 0)

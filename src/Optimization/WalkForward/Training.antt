-- ===== src/Optimization/WalkForward/Training.antt =====
-- Every window is trained on the past of its test only.
use q_backend.Prelude.{
  ℕ, zero, suc, ◌+◌, ◌≤◌, ◌≡◌, refl, subst, sym, inl, inr, List, [], ◌∷◌, some, arith,
}
use q_backend.Optimization.WalkForward.{
  WalkForwardMode, WalkForwardConfig, WalkForwardWindow, one_day, train_delta, train_start_of,
  window_at, windows_from, split_windows,
}
use q_backend.Optimization.WalkForward.Rounds.{
  test_start_at, train_long, IsRound, windows_from-IsRound, split_windows-inr,
}

-- The training of a window: it ends where the test begins, is a day long at least, and is as long
-- as configured or begins at the start of the range.
IsTraining : ℕ → WalkForwardConfig → WalkForwardMode → WalkForwardWindow → Type 0
IsTraining start cfg WalkForwardMode.rolling w = w.train_start + train_delta cfg ≡ w.train_end
IsTraining start cfg WalkForwardMode.anchored w = w.train_start ≡ start

-- The windows from an index on.
pub IsTrained : ℕ → WalkForwardConfig → ℕ → List WalkForwardWindow → Type 0
IsTrained start cfg index [] = Unit
IsTrained start cfg index (w ∷ ws) =
    (w.index ≡ index)
    × (w.train_end ≡ w.test_start)
    × (start ≤ w.train_start)
    × (w.train_start + one_day ≤ w.train_end)
    × IsTraining start cfg cfg.mode w
    × IsTrained start cfg (suc index) ws

window_at-IsTraining :
    (mode : WalkForwardMode) (start at : ℕ) (cfg : WalkForwardConfig) (w : WalkForwardWindow)
    → start + train_delta cfg ≤ at
    → w.train_start ≡ train_start_of mode start at (train_delta cfg)
    → w.train_end ≡ at
    → (start ≤ w.train_start) × IsTraining start cfg mode w
unfolding IsTraining
window_at-IsTraining WalkForwardMode.rolling start at cfg w far from to =
    (ground arith, ground arith)
window_at-IsTraining WalkForwardMode.anchored start at cfg w far from to = (ground arith, from)

no_windows : (start : ℕ) (cfg : WalkForwardConfig) (index : ℕ) → IsTrained start cfg index []
unfolding IsTrained
no_windows start cfg index = _

one_more :
    (start end : ℕ) (cfg : WalkForwardConfig) (index : ℕ) (ws : List WalkForwardWindow)
    → 1 ≤ cfg.train_days
    → IsTrained start cfg (suc index) ws
    → IsTrained start cfg index (window_at start end cfg index (test_start_at start cfg index) ∷ ws)
unfolding IsTrained window_at
one_more start end cfg index ws train h =
    let at = test_start_at start cfg index in
    let (from, length_of) =
      window_at-IsTraining cfg.mode start at cfg (window_at start end cfg index at) (omega arith)
        refl refl in
    (refl, refl, from, ground (arith, train_long start end index cfg train), length_of, h)

windows_from-IsTrained :
    (fuel start end : ℕ) (cfg : WalkForwardConfig) (index : ℕ) (ws : List WalkForwardWindow)
    → 1 ≤ cfg.train_days
    → 1 ≤ cfg.test_days
    → windows_from fuel start end cfg index ≡ some ws
    → IsTrained start cfg index ws
unfolding windows_from IsRound
windows_from-IsTrained zero start end cfg index ws train test e = absurd (ground arith)
windows_from-IsTrained (suc fuel) start end cfg index ws train test e =
    elim (windows_from-IsRound fuel start end cfg index ws train test e) [
      | inl (none_left, short) ↦
          subst (λ us. IsTrained start cfg index us) (sym none_left) (no_windows start cfg index)
      | inr (rest, more, made, long) ↦
          subst (λ us. IsTrained start cfg index us) (sym made)
            (one_more start end cfg index rest train
              (windows_from-IsTrained fuel start end cfg (suc index) rest train test more))
    ]

-- Where training and test last a day at least and `split_windows` returns windows, they are numbered
-- from 0, and each is trained within the range on what ends where its test begins, for a day at
-- least: for the configured time in the rolling mode, and from the start of the range in the
-- anchored one.
pub split_windows-IsTrained :
    (fuel start end : ℕ) (cfg : WalkForwardConfig) (ws : List WalkForwardWindow)
    → 1 ≤ cfg.train_days
    → 1 ≤ cfg.test_days
    → split_windows fuel start end cfg ≡ some (inr ws)
    → IsTrained start cfg 0 ws
split_windows-IsTrained fuel start end cfg ws train test e =
    windows_from-IsTrained fuel start end cfg 0 ws train test
      (split_windows-inr fuel start end cfg ws e).0

-- ===== src/Optimization/WalkForward/Tiling.antt =====
-- The tests follow one another without a gap.
use q_backend.Prelude.{
  ℕ, zero, suc, ◌+◌, ◌≤◌, ◌<◌, ◌≡◌, subst, sym, ◌⊎◌, inl, inr, List, [], ◌∷◌, some, length, arith,
}
use q_backend.Optimization.WalkForward.{
  WalkForwardConfig, WalkForwardWindow, one_day, train_delta, window_at, windows_from,
  split_windows,
}
use q_backend.Optimization.WalkForward.Rounds.{
  test_start_at, test_start_at-suc, IsRound, windows_from-IsRound, split_windows-inr,
}

-- From `at` on, each test begins where the one before ended, is a day long at least and ends by
-- `end`; less than a day is left untested.
pub Tiles : ℕ → List WalkForwardWindow → ℕ → Type 0
Tiles at [] end = end < at + one_day
Tiles at (w ∷ ws) end =
    (w.test_start ≡ at) × (at + one_day ≤ w.test_end) × (w.test_end ≤ end) × Tiles w.test_end ws end

-- Where a test begins, in the loop and where the last one ended.
IsNext : ℕ → ℕ → WalkForwardConfig → ℕ → ℕ → Type 0
IsNext start end cfg index at =
    (at ≡ test_start_at start cfg index) ⊎ ((at ≡ end) × (end ≤ test_start_at start cfg index))

end-Tiles :
    (start end : ℕ) (cfg : WalkForwardConfig) (index at : ℕ)
    → IsNext start end cfg index at
    → end < test_start_at start cfg index + one_day
    → Tiles at [] end
unfolding Tiles IsNext
end-Tiles start end cfg index at next short = ground (arith, next, short)

IsNext-of :
    (start end : ℕ) (cfg : WalkForwardConfig) (index : ℕ)
    → test_start_at start cfg index + one_day ≤ end
    → IsNext start end cfg
        (suc index)
        (window_at start end cfg index (test_start_at start cfg index)).test_end
unfolding IsNext window_at
IsNext-of start end cfg index long = ground (arith, test_start_at-suc start index cfg)

window-Tiles :
    (start end : ℕ) (cfg : WalkForwardConfig) (index at : ℕ) (ws : List WalkForwardWindow)
    → 1 ≤ cfg.test_days
    → IsNext start end cfg index at
    → test_start_at start cfg index + one_day ≤ end
    → Tiles (window_at start end cfg index (test_start_at start cfg index)).test_end ws end
    → Tiles at (window_at start end cfg index (test_start_at start cfg index) ∷ ws) end
unfolding Tiles IsNext window_at
window-Tiles start end cfg index at ws test next long h =
    (ground (arith, next), ground (arith, next), ground arith, h)

windows_from-Tiles :
    (fuel start end : ℕ) (cfg : WalkForwardConfig) (index at : ℕ) (ws : List WalkForwardWindow)
    → 1 ≤ cfg.train_days
    → 1 ≤ cfg.test_days
    → IsNext start end cfg index at
    → windows_from fuel start end cfg index ≡ some ws
    → Tiles at ws end
unfolding windows_from IsRound
windows_from-Tiles zero start end cfg index at ws train test next e = absurd (ground arith)
windows_from-Tiles (suc fuel) start end cfg index at ws train test next e =
    elim (windows_from-IsRound fuel start end cfg index ws train test e) [
      | inl (none_left, short) ↦
          subst (λ us. Tiles at us end) (sym none_left)
            (end-Tiles start end cfg index at next short)
      | inr (rest, more, made, long) ↦
          subst (λ us. Tiles at us end) (sym made)
            (window-Tiles start end cfg index at rest test next long (
              windows_from-Tiles fuel start end cfg (suc index)
                (window_at start end cfg index (test_start_at start cfg index)).test_end rest train
                test (IsNext-of start end cfg index long) more))
    ]

-- Where training and test last a day at least and `split_windows` returns windows, these are no
-- fewer than required, and their tests follow one another without gap or overlap from the end of the
-- first training on: each is a day long at least and within the range, and less than a day of it is
-- left after the last.
pub split_windows-Tiles :
    (fuel start end : ℕ) (cfg : WalkForwardConfig) (ws : List WalkForwardWindow)
    → 1 ≤ cfg.train_days
    → 1 ≤ cfg.test_days
    → split_windows fuel start end cfg ≡ some (inr ws)
    → (cfg.min_windows ≤ length ws) × Tiles (start + train_delta cfg) ws end
unfolding IsNext
split_windows-Tiles fuel start end cfg ws train test e =
    let (found, enough) = split_windows-inr fuel start end cfg ws e in
    (
      enough,
      windows_from-Tiles fuel start end cfg 0 (start + train_delta cfg) ws train test
          (inl (ground arith)) found,
    )

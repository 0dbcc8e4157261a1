-- ===== src/Optimization/WalkForward/Rounds.antt =====
-- One round of the search for windows.
use q_backend.Prelude.{
  ℕ, suc, ◌+◌, ◌-◌, ◌*◌, ◌≤◌, ◌<◌, ◌≡◌, ◌⊎◌, inl, inr, List, [], ◌∷◌, some, Option-cases,
  Bool-cases, false, true, ltb, leb, length, arith,
}
use q_backend.Optimization.WalkForward.{
  WalkForwardConfig, WalkForwardWindow, one_day, train_delta, test_delta, window_at, windows_from,
  split_windows,
}

-- The place of the test of an index.
abbrev pub test_start_at : ℕ → WalkForwardConfig → ℕ → ℕ
test_start_at start cfg index = start + train_delta cfg + index * test_delta cfg

pub test_start_at-suc :
    (start index : ℕ) (cfg : WalkForwardConfig)
    → test_start_at start cfg (suc index) ≡ test_start_at start cfg index + test_delta cfg
test_start_at-suc start index cfg = grind arith

-- The training of a window is a day long at least.
pub train_long :
    (start end index : ℕ) (cfg : WalkForwardConfig)
    → 1 ≤ cfg.train_days
    → let w = window_at start end cfg index (test_start_at start cfg index) in
      ltb (w.train_end - w.train_start) one_day ≡ false
unfolding window_at
train_long start end index cfg h = ground (arith, h)

-- Where a test is shorter than a day, the end is what cuts it off.
test_short :
    (start end index at : ℕ) (cfg : WalkForwardConfig)
    → 1 ≤ cfg.test_days
    → leb end at ≡ false
    → let w = window_at start end cfg index at in
      ltb (w.test_end - w.test_start) one_day ≡ true → end < at + one_day
unfolding window_at
test_short start end index at cfg t before short = ground (arith, t, before, short)

test_long :
    (start end index at : ℕ) (cfg : WalkForwardConfig)
    → leb end at ≡ false
    → let w = window_at start end cfg index at in
      ltb (w.test_end - w.test_start) one_day ≡ false → at + one_day ≤ end
unfolding window_at
test_long start end index at cfg before enough = ground (arith, before, enough)

-- What one more round of the loop returns.
unfoldable pub IsRound : ℕ → ℕ → ℕ → WalkForwardConfig → ℕ → List WalkForwardWindow → Type 0
IsRound fuel start end cfg index ws =
    ((ws ≡ []) × (end < test_start_at start cfg index + one_day))
    ⊎ ((rest : List WalkForwardWindow) × (windows_from fuel start end cfg (suc index) ≡ some rest)
        × (ws ≡ window_at start end cfg index (test_start_at start cfg index) ∷ rest)
        × (test_start_at start cfg index + one_day ≤ end))

pub windows_from-IsRound :
    (fuel start end : ℕ) (cfg : WalkForwardConfig) (index : ℕ) (ws : List WalkForwardWindow)
    → 1 ≤ cfg.train_days
    → 1 ≤ cfg.test_days
    → windows_from (suc fuel) start end cfg index ≡ some ws
    → IsRound fuel start end cfg index ws
unfolding windows_from IsRound
windows_from-IsRound fuel start end cfg index ws train test e =
    let at = test_start_at start cfg index in
    let w = window_at start end cfg index at in
    let long = train_long start end index cfg train in
    elim (Bool-cases (leb end at)) [
      | inl past ↦ inl (ground (arith, past), ground (arith, past))
      | inr before ↦ elim (Bool-cases (ltb (w.test_end - w.test_start) one_day)) [
        | inl short ↦
            inl (ground (arith, before, short), test_short start end index at cfg test before short)
        | inr enough ↦ elim (Option-cases (windows_from fuel start end cfg (suc index))) [
          | inl spent ↦ absurd (ground (arith, spent, before, enough, long))
          | inr (rest, more) ↦ inr (
            rest,
            more,
            ground (arith, more, before, enough, long),
            test_long start end index at cfg before enough,
          )
        ]
      ]
    ]

pub split_windows-inr :
    (fuel start end : ℕ) (cfg : WalkForwardConfig) (ws : List WalkForwardWindow)
    → split_windows fuel start end cfg ≡ some (inr ws)
    → (windows_from fuel start end cfg 0 ≡ some ws) × (cfg.min_windows ≤ length ws)
unfolding split_windows
split_windows-inr fuel start end cfg ws e =
    elim (Option-cases (windows_from fuel start end cfg 0)) [
      | inl spent ↦ absurd (ground (arith, spent))
      | inr (us, found) ↦ (ground (arith, found), ground (arith, found))
    ]

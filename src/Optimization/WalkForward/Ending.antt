-- ===== src/Optimization/WalkForward/Ending.antt =====
-- The search for windows ends.
use q_backend.Prelude.{
  ℕ, zero, suc, ◌+◌, ◌-◌, ◌*◌, ◌≤◌, ◌≡◌, refl, ◌⊎◌, inl, inr, List, [], ◌∷◌, some, Bool-cases, ltb,
  leb, length, arith,
}
use q_backend.Optimization.WalkForward.{
  WalkForwardConfig, WalkForwardWindow, WindowError, one_day, window_at, windows_from,
  split_windows,
}
use q_backend.Optimization.WalkForward.Rounds.{test_start_at, test_start_at-suc}

some_round :
    (fuel start end : ℕ) (cfg : WalkForwardConfig) (index : ℕ) (rest : List WalkForwardWindow)
    → windows_from fuel start end cfg (suc index) ≡ some rest
    → (ws : List WalkForwardWindow) × (windows_from (suc fuel) start end cfg index ≡ some ws)
unfolding windows_from
some_round fuel start end cfg index rest more =
    let w = window_at start end cfg index (test_start_at start cfg index) in
    elim (Bool-cases (leb end (test_start_at start cfg index))) [
      | inl past ↦ ([], ground (arith, past))
      | inr before ↦ elim (Bool-cases (ltb (w.test_end - w.test_start) one_day)) [
        | inl short ↦ ([], ground (arith, before, short))
        | inr enough ↦ elim (Bool-cases (ltb (w.train_end - w.train_start) one_day)) [
          | inl brief ↦ ([], ground (arith, before, enough, brief))
          | inr long ↦ (w ∷ rest, ground (arith, before, enough, long, more))
        ]
      ]
    ]

last_round :
    (start end : ℕ) (cfg : WalkForwardConfig) (index : ℕ)
    → end ≤ test_start_at start cfg index
    → windows_from (suc zero) start end cfg index ≡ some []
unfolding windows_from
last_round start end cfg index h = ground (arith, h)

-- The loop ends: a round for each day of the range, and one more, are enough.
windows_from-some :
    (fuel start end : ℕ) (cfg : WalkForwardConfig) (index : ℕ)
    → 1 ≤ cfg.test_days
    → end ≤ test_start_at start cfg index + fuel * one_day
    → (ws : List WalkForwardWindow) × (windows_from (suc fuel) start end cfg index ≡ some ws)
windows_from-some zero start end cfg index test h =
    ([], last_round start end cfg index (omega (arith, h)))
windows_from-some (suc fuel) start end cfg index test h =
    let (rest, more) =
      windows_from-some fuel start end cfg (suc index) test
        (omega (arith, h, test, test_start_at-suc start index cfg)) in
    some_round (suc fuel) start end cfg index rest more

-- Where a test lasts a day at least, the search for windows ends within as many rounds as the range
-- has days after its start, and one more, with windows or with an error.
pub split_windows-some :
    (fuel start end : ℕ) (cfg : WalkForwardConfig)
    → 1 ≤ cfg.test_days
    → end ≤ start + fuel * one_day
    → (result : WindowError ⊎ List WalkForwardWindow) × (split_windows (suc fuel) start end cfg
        ≡ some result)
unfolding split_windows
split_windows-some fuel start end cfg test h =
    let (ws, found) = windows_from-some fuel start end cfg 0 test (omega (arith, h)) in
    elim (Bool-cases (leb end start)) [
      | inl empty ↦ (inl WindowError.start_not_before_end, rw empty refl)
      | inr range ↦ elim (Bool-cases (ltb (length ws) cfg.min_windows)) [
        | inl few ↦ (inl (WindowError.too_few_windows (length ws)), rw (range, found, few) refl)
        | inr enough ↦ (inr ws, rw (range, found, enough) refl)
      ]
    ]

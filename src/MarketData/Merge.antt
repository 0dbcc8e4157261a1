-- ===== src/MarketData/Merge.antt =====
-- The merge of stored and fetched bars.
use q_backend.Prelude.{
  ℕ, suc, ◌≤◌, ◌==◌, ◌≡◌, refl, subst, ap, ◌∙◌, inl, inr, Bool, true, false, Bool-cases, Option,
  none, some, List, [], ◌∷◌, find, ltb, if◌then◌else◌, arith,
}
use q_backend.MarketData.Service.{Ohlcv, place, is_between, add_group, add_groups, merge_ohlcv_bars}

-- Strictly ascending times, from an instant on and up to another.
pub IsAscending : {D : Type 0} → ℕ → List (Ohlcv D) → ℕ → Type 0
IsAscending low [] high = Unit
IsAscending low (bar ∷ bars) high =
    (low ≤ bar.time) × (bar.time ≤ high) × IsAscending (suc bar.time) bars high

module _ {D : Type 0} where
  abbrev pub is_at : ℕ → Ohlcv D → Bool
  is_at t bar = bar.time == t

  -- The last bar of an instant, or what was known before.
  pub latest : ℕ → List (Ohlcv D) → Option (Ohlcv D) → Option (Ohlcv D)
  latest t [] known = known
  latest t (bar ∷ bars) known = latest t bars (if is_at t bar then some bar else known)

  -- The groups one after the other.
  pub latest_of_groups : ℕ → List (List (Ohlcv D)) → Option (Ohlcv D) → Option (Ohlcv D)
  latest_of_groups t [] known = known
  latest_of_groups t (bars ∷ groups) known = latest_of_groups t groups (latest t bars known)

  find-place :
      (t : ℕ) (bar : Ohlcv D) (xs : List (Ohlcv D))
      → find (is_at t) (place bar xs) ≡ (if is_at t bar then some bar else find (is_at t) xs)
  unfolding place
  find-place t bar [] = refl
  find-place t bar (x ∷ xs) = ground (arith, find-place t bar xs)

  place-IsAscending :
      (low high : ℕ) (bar : Ohlcv D) (xs : List (Ohlcv D))
      → low ≤ bar.time
      → bar.time ≤ high
      → IsAscending low xs high
      → IsAscending low (place bar xs) high
  unfolding place IsAscending
  place-IsAscending low high bar [] from to h = (from, to, _)
  place-IsAscending low high bar (x ∷ xs) from to h = elim (Bool-cases (bar.time == x.time)) [
    | inl same ↦ rw same (from, to, subst (λ n. IsAscending n xs high) (ground (arith, same)) h.2)
    | inr other ↦ elim (Bool-cases (ltb bar.time x.time)) [
      | inl before ↦ rw (other, before) (from, to, (ground (arith, before), h.1, h.2))
      | inr after ↦
          rw (other, after)
            (
              h.0,
              h.1,
              place-IsAscending (suc x.time) high bar xs (ground (arith, other, after)) to h.2,
            )
    ]
  ]

  add_group-IsAscending :
      (start end : ℕ) (bars by_time : List (Ohlcv D))
      → IsAscending start by_time end
      → IsAscending start (add_group start end bars by_time) end
  unfolding add_group
  add_group-IsAscending start end [] by_time h = h
  add_group-IsAscending start end (bar ∷ bars) by_time h =
      elim (Bool-cases (is_between start end bar.time)) [
        | inl inside ↦ rw inside (
            add_group-IsAscending start end bars (place bar by_time) (
              place-IsAscending start end bar by_time (ground (arith, inside))
                (ground (arith, inside)) h))
        | inr outside ↦ rw outside (add_group-IsAscending start end bars by_time h)
      ]

  add_groups-IsAscending :
      (start end : ℕ) (groups : List (List (Ohlcv D))) (by_time : List (Ohlcv D))
      → IsAscending start by_time end
      → IsAscending start (add_groups start end groups by_time) end
  unfolding add_groups
  add_groups-IsAscending start end [] by_time h = h
  add_groups-IsAscending start end (bars ∷ groups) by_time h =
      add_groups-IsAscending start end groups (add_group start end bars by_time)
        (add_group-IsAscending start end bars by_time h)

  module _ (start end t : ℕ) (inside : is_between start end t ≡ true) where
    step :
        (bar : Ohlcv D) (by_time : List (Ohlcv D))
        → find (is_at t) (if is_between start end bar.time then place bar by_time else by_time)
          ≡ (if is_at t bar then some bar else find (is_at t) by_time)
    step bar by_time = elim (Bool-cases (is_between start end bar.time)) [
      | inl within ↦ rw within (find-place t bar by_time)
      | inr outside ↦
          let other : is_at t bar ≡ false = ground (arith, inside, outside) in
          rw (outside, other) refl
    ]

    find-add_group :
        (bars by_time : List (Ohlcv D))
        → find (is_at t) (add_group start end bars by_time) ≡ latest t bars (find (is_at t) by_time)
    unfolding add_group latest
    find-add_group [] by_time = refl
    find-add_group (bar ∷ bars) by_time =
        find-add_group bars (if is_between start end bar.time then place bar by_time else by_time)
        ∙ ap (latest t bars) (step bar by_time)

    find-add_groups :
        (groups : List (List (Ohlcv D))) (by_time : List (Ohlcv D))
        → find (is_at t) (add_groups start end groups by_time)
          ≡ latest_of_groups t groups (find (is_at t) by_time)
    unfolding add_groups latest_of_groups
    find-add_groups [] by_time = refl
    find-add_groups (bars ∷ groups) by_time =
        find-add_groups groups (add_group start end bars by_time)
        ∙ ap (latest_of_groups t groups) (find-add_group bars by_time)

  -- The merged bars are in strictly ascending order of time and lie in the range that was asked for.
  -- At every instant of the range they have the last bar that the groups have for it, one group after
  -- the other: fetched bars replace stored ones, and none is lost.
  pub merge_ohlcv_bars-IsAscending :
      (start end t : ℕ) (groups : List (List (Ohlcv D)))
      → is_between start end t ≡ true
      → IsAscending start (merge_ohlcv_bars start end groups) end
        × (find (is_at t) (merge_ohlcv_bars start end groups) ≡ latest_of_groups t groups none)
  unfolding merge_ohlcv_bars IsAscending
  merge_ohlcv_bars-IsAscending start end t groups inside =
      (add_groups-IsAscending start end groups [] _, find-add_groups start end t inside groups [])

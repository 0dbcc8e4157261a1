-- ===== src/Backtesting/ExitRules/Extreme.antt =====
-- What the trailing stop remembers of a trade.
use q_backend.Prelude.{
  ◌≡◌, refl, if_elim, sym, ap, ◌∙◌, subst, inl, inr, ◌⊎◌, Bool-cases, List, [], ◌∷◌, All,
  if◌then◌else◌, arith,
}
use q_backend.Prelude.Int.{◌≤ℤ◌}
use q_backend.Decimal.{Arith, dec_min, dec_max, ◌<?◌}
use q_backend.Decimal.Float.{Ordered}
use q_backend.Backtesting.Models.{Trade}
use q_backend.Backtesting.Engine.{Bar}
use q_backend.Backtesting.ExitRules.{RuleState, is_long, high_of, low_of}
use q_backend.Backtesting.ExitRules.Stops.{trailing_on_bar}

module _ {D : Type 0} ⦃a : Arith D⦄ (t : Trade D) where
  -- The state after the bars.
  pub watch : List (Bar D) → RuleState D → RuleState D
  watch [] s = s
  watch (bar ∷ bars) s = watch bars (trailing_on_bar t bar s)

  -- The best price of a bar for the trade, and the better of two.
  abbrev pub best : Bar D → D
  best bar = if is_long t then high_of bar else low_of bar

  abbrev better : D → D → D
  better x y = if is_long t then dec_max x y else dec_min x y

  -- The price is the first one or the best of one of the bars.
  pub IsOneOf : D → D → List (Bar D) → Type 0
  IsOneOf first x [] = x ≡ first
  IsOneOf first x (bar ∷ bars) = (x ≡ best bar) ⊎ IsOneOf first x bars

  trailing_on_bar-extreme :
      (bar : Bar D) (x : D)
      → trailing_on_bar t bar (RuleState.extreme x) ≡ RuleState.extreme (better x (best bar))
  unfolding trailing_on_bar
  trailing_on_bar-extreme bar x = elim (Bool-cases (is_long t)) [
    | inl long ↦ rw long refl
    | inr short ↦ rw short refl
  ]

  trailing_on_bar-nothing :
      (bar : Bar D)
      → trailing_on_bar t bar RuleState.nothing
        ≡ RuleState.extreme (better t.entry_price (best bar))
  unfolding trailing_on_bar
  trailing_on_bar-nothing bar = elim (Bool-cases (is_long t)) [
    | inl long ↦ rw long refl
    | inr short ↦ rw short refl
  ]

  module _ (o : Ordered a) where
    -- The second price is at least as good for the trade as the first.
    pub IsBetter : D → D → Type 0
    IsBetter x y = if is_long t then o.value x ≤ℤ o.value y else o.value y ≤ℤ o.value x

    better-left : (x y : D) → IsBetter x (better x y)
    unfolding IsBetter
    better-left x y = elim (Bool-cases (is_long t)) [
      | inl long ↦ rw long (ground (arith, o.lt-value x y))
      | inr short ↦ rw short (ground (arith, o.lt-value y x))
    ]

    better-right : (x y : D) → IsBetter y (better x y)
    unfolding IsBetter
    better-right x y = elim (Bool-cases (is_long t)) [
      | inl long ↦ rw long (ground (arith, o.lt-value x y))
      | inr short ↦ rw short (ground (arith, o.lt-value y x))
    ]

    IsBetter-trans : (x y z : D) → IsBetter x y → IsBetter y z → IsBetter x z
    unfolding IsBetter
    IsBetter-trans x y z h k = ground (arith, h, k)

    better-cases : (x y : D) → (better x y ≡ x) ⊎ (better x y ≡ y)
    better-cases x y =
        let P = λ (z : D). (z ≡ x) ⊎ (z ≡ y) in
        if_elim P (is_long t) (dec_max x y) (dec_min x y)
          (if_elim P (x <? y) y x (inr refl) (inl refl))
          (if_elim P (y <? x) y x (inr refl) (inl refl))

    -- The price is at least as good for the trade as the first one and the best of every bar, and is
    -- one of these.
    pub IsWatermark : D → List (Bar D) → D → Type 0
    IsWatermark first bars x =
        IsBetter first x × All (λ bar. IsBetter (best bar) x) bars × IsOneOf first x bars

    IsBetter-refl : (x : D) → IsBetter x x
    unfolding IsBetter
    IsBetter-refl x =
        if_elim (λ P. P) (is_long t) (o.value x ≤ℤ o.value x) (o.value x ≤ℤ o.value x) (omega arith)
          (omega arith)

    IsOneOf-best :
        (bar : Bar D) (bars : List (Bar D)) (y x : D)
        → IsOneOf (best bar) x bars
        → (x ≡ best bar) ⊎ IsOneOf y x bars
    unfolding IsOneOf
    IsOneOf-best bar [] y x h = inl h
    IsOneOf-best bar (b ∷ bs) y x (inl e) = inr (inl e)
    IsOneOf-best bar (b ∷ bs) y x (inr h) = elim (IsOneOf-best bar bs y x h) [
      | inl e ↦ inl e
      | inr k ↦ inr (inr k)
    ]

    IsOneOf-next :
        (bar : Bar D) (bars : List (Bar D)) (y next x : D)
        → (next ≡ y) ⊎ (next ≡ best bar)
        → IsOneOf next x bars
        → (x ≡ best bar) ⊎ IsOneOf y x bars
    IsOneOf-next bar bars y next x (inl e) h = inr (subst (λ z. IsOneOf z x bars) e h)
    IsOneOf-next bar bars y next x (inr e) h =
        IsOneOf-best bar bars y x (subst (λ z. IsOneOf z x bars) e h)

    watch-extreme :
        (bars : List (Bar D)) (y : D)
        → (x : D) × (watch bars (RuleState.extreme y) ≡ RuleState.extreme x) × IsWatermark y bars x
    unfolding watch IsWatermark IsOneOf
    watch-extreme [] y = (y, refl, (IsBetter-refl y, _, refl))
    watch-extreme (bar ∷ bars) y =
        let next = better y (best bar) in
        let (x, there, (above, all, one)) = watch-extreme bars next in
        (
          x,
          ap (watch bars) (trailing_on_bar-extreme bar y) ∙ there,
          (
            IsBetter-trans y next x (better-left y (best bar)) above,
            (IsBetter-trans (best bar) next x (better-right y (best bar)) above, all),
            IsOneOf-next bar bars y next x (better-cases y (best bar)) one,
          ),
        )

    -- What the trailing stop remembers after one bar or more, where it remembered nothing before, is
    -- the best price for the trade since its entry: at least as good as the entry price and as the
    -- best price of every bar, and one of these, where comparisons are those of numbers.
    pub watch-IsWatermark :
        (bar : Bar D) (bars : List (Bar D))
        → (x : D) × (watch (bar ∷ bars) RuleState.nothing ≡ RuleState.extreme x)
          × IsWatermark t.entry_price (bar ∷ bars) x
    unfolding watch
    watch-IsWatermark bar bars =
        let (x, there, mark) = watch-extreme (bar ∷ bars) t.entry_price in
        (
          x,
          ap (watch bars)
                (trailing_on_bar-nothing bar ∙ sym (trailing_on_bar-extreme bar t.entry_price))
              ∙ there,
          mark,
        )

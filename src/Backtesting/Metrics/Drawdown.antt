-- ===== src/Backtesting/Metrics/Drawdown.antt =====
-- The largest drop of an equity curve.
use q_backend.Prelude.{
  ◌≡◌, refl, sym, ap, ◌∙◌, subst, inl, inr, ◌⊎◌, true, false, Bool-cases, List, [], ◌∷◌, All,
  if_true, if_false, arith,
}
use q_backend.Prelude.Int.{pos, ◌≤ℤ◌, ◌+ℤ◌, +ℤ_parts, -ℤ_parts, eq_of_parts}
use q_backend.Decimal.{Arith, Exact, dec, dec_max, ◌⊕◌, ◌⊖◌, ◌<?◌}
use q_backend.Backtesting.Models.{Trade}
use q_backend.Backtesting.Metrics.{pnl_of, next_peak, drawdown_from, max_drawdown_value}

module _ {D : Type 0} ⦃a : Arith D⦄ (x : Exact a) where
  -- The equities of the curve, the newest first, on top of what is there.
  pub curve : D → List (Trade D) → List D → List D
  curve equity [] seen = seen
  curve equity (t ∷ ts) seen = curve (equity ⊕ pnl_of t) ts ((equity ⊕ pnl_of t) ∷ seen)

  -- No fall from an earlier to a later equity is larger than the drop.
  pub IsBound : List D → D → Type 0
  IsBound [] drop = Unit
  IsBound (e ∷ es) drop = All (λ h. x.value h ≤ℤ (x.value e +ℤ x.value drop)) es × IsBound es drop

  -- An earlier equity from which the fall to `e` is the drop.
  IsFall : D → List D → D → Type 0
  IsFall e [] drop = ⊥
  IsFall e (h ∷ hs) drop = (x.value h ≡ x.value e +ℤ x.value drop) ⊎ IsFall e hs drop

  -- Some fall is the drop.
  pub IsAttained : List D → D → Type 0
  IsAttained [] drop = ⊥
  IsAttained (e ∷ es) drop = IsFall e es drop ⊎ IsAttained es drop

  pub IsMaxDrawdown : List D → D → Type 0
  IsMaxDrawdown es drop =
      IsBound es drop × (pos 0 ≤ℤ x.value drop) × ((x.value drop ≡ pos 0) ⊎ IsAttained es drop)

  -- The peak is the highest of the equities.
  IsPeak : List D → D → Type 0
  IsPeak es peak = All (λ h. x.value h ≤ℤ x.value peak) es

  IsPeak-trans : (es : List D) (p q : D) → x.value p ≤ℤ x.value q → IsPeak es p → IsPeak es q
  unfolding IsPeak
  IsPeak-trans [] p q h k = _
  IsPeak-trans (e ∷ es) p q h k = (omega (arith, h, k.0), IsPeak-trans es p q h k.1)

  bound_from_peak :
      (es : List D) (peak e drop : D)
      → x.value peak ≤ℤ (x.value e +ℤ x.value drop)
      → IsPeak es peak
      → All (λ h. x.value h ≤ℤ (x.value e +ℤ x.value drop)) es
  unfolding IsPeak
  bound_from_peak [] peak e drop h k = _
  bound_from_peak (u ∷ us) peak e drop h k =
      (omega (arith, h, k.0), bound_from_peak us peak e drop h k.1)

  wider :
      (e d d' : D) (es : List D)
      → x.value d ≤ℤ x.value d'
      → All (λ h. x.value h ≤ℤ (x.value e +ℤ x.value d)) es
      → All (λ h. x.value h ≤ℤ (x.value e +ℤ x.value d')) es
  wider e d d' [] h k = _
  wider e d d' (u ∷ us) h k = (
    ground (arith, h, k.0, +ℤ_parts (x.value e) (x.value d), +ℤ_parts (x.value e) (x.value d')),
    wider e d d' us h k.1,
  )

  IsBound-mono : (es : List D) (d d' : D) → x.value d ≤ℤ x.value d' → IsBound es d → IsBound es d'
  unfolding IsBound
  IsBound-mono [] d d' h k = _
  IsBound-mono (e ∷ es) d d' h k = (wider e d d' es h k.0, IsBound-mono es d d' h k.1)

  -- The peak is one of the equities.
  IsSeen : D → List D → Type 0
  IsSeen peak [] = ⊥
  IsSeen peak (e ∷ es) = (e ≡ peak) ⊎ IsSeen peak es

  IsFall-from_seen :
      (es : List D) (peak e drop : D)
      → x.value peak ≡ x.value e +ℤ x.value drop
      → IsSeen peak es
      → IsFall e es drop
  unfolding IsSeen IsFall
  IsFall-from_seen [] peak e drop h s = s
  IsFall-from_seen (u ∷ us) peak e drop h (inl same) = inl (ap (λ v. x.value v) same ∙ h)
  IsFall-from_seen (u ∷ us) peak e drop h (inr later) =
      inr (IsFall-from_seen us peak e drop h later)

  keep_drop :
      (es : List D) (peak e d : D)
      → IsMaxDrawdown es d
      → x.value peak ≤ℤ (x.value e +ℤ x.value d)
      → IsPeak es peak
      → IsMaxDrawdown (e ∷ es) d
  unfolding IsMaxDrawdown IsBound IsAttained
  keep_drop es peak e d (bound, positive, reached) h k = (
    (bound_from_peak es peak e d h k, bound),
    positive,
    elim reached [ inl zero_drop ↦ inl zero_drop | inr fall ↦ inr (inr fall) ],
  )

  grow_drop :
      (es : List D) (peak e d d' : D)
      → IsMaxDrawdown es d
      → x.value d ≤ℤ x.value d'
      → x.value peak ≡ x.value e +ℤ x.value d'
      → IsPeak es peak
      → IsSeen peak es
      → IsMaxDrawdown (e ∷ es) d'
  unfolding IsMaxDrawdown IsBound IsAttained
  grow_drop es peak e d d' (bound, positive, reached) more h k seen = (
    (bound_from_peak es peak e d' (ground (arith, h)) k, IsBound-mono es d d' more bound),
    omega (arith, positive, more),
    inr (inl (IsFall-from_seen es peak e d' h seen)),
  )

  -- What the loop knows of the curve so far.
  IsTracked : List D → D → D → Type 0
  IsTracked es peak d = IsPeak es peak × IsSeen peak es × IsMaxDrawdown es d

  drop_nonneg : (es : List D) (d : D) → IsMaxDrawdown es d → pos 0 ≤ℤ x.value d
  unfolding IsMaxDrawdown
  drop_nonneg es d (bound, positive, reached) = positive

  new_peak :
      (es : List D) (peak e d : D)
      → IsTracked es peak d
      → (peak <? e) ≡ true
      → IsTracked (e ∷ es) e (dec_max d (e ⊖ e))
  unfolding IsTracked IsPeak IsSeen
  new_peak es peak e d (top, seen, tracked) h =
      let positive = drop_nonneg es d tracked in
      let none_lost : (d <? e ⊖ e) ≡ false = ground (
        arith,
        positive,
        x.lt-value d (e ⊖ e),
        x.value-sub e e,
        -ℤ_parts (x.value e) (x.value e),
      ) in
      let above : x.value peak ≤ℤ x.value e = ground (arith, h, x.lt-value peak e) in
      (
        (omega arith, IsPeak-trans es peak e above top),
        inl refl,
        subst (IsMaxDrawdown (e ∷ es)) (sym (if_false (d <? e ⊖ e) (e ⊖ e) d none_lost)) (
            keep_drop es peak e d tracked
              (ground (arith, above, positive, +ℤ_parts (x.value e) (x.value d))) top),
      )

  same_peak :
      (es : List D) (peak e d : D)
      → IsTracked es peak d
      → (peak <? e) ≡ false
      → IsTracked (e ∷ es) peak (dec_max d (peak ⊖ e))
  unfolding IsTracked IsPeak IsSeen
  same_peak es peak e d (top, seen, tracked) h =
      let drop = peak ⊖ e in
      let below : x.value e ≤ℤ x.value peak = ground (arith, h, x.lt-value peak e) in
      (
        (below, top),
        inr seen,
        elim (Bool-cases (d <? drop)) [
          | inl larger ↦ subst (IsMaxDrawdown (e ∷ es)) (sym (if_true (d <? drop) drop d larger)) (
              grow_drop es peak e d drop tracked (ground (arith, larger, x.lt-value d drop))
                (eq_of_parts (x.value peak) (x.value e +ℤ x.value drop) (
                  ground (
                    arith,
                    x.value-sub peak e,
                    -ℤ_parts (x.value peak) (x.value e),
                    +ℤ_parts (x.value e) (x.value drop),
                  )))
                top seen)
          | inr smaller ↦
              subst (IsMaxDrawdown (e ∷ es)) (sym (if_false (d <? drop) drop d smaller)) (
                keep_drop es peak e d tracked
                  (ground (
                    arith,
                    smaller,
                    x.lt-value d drop,
                    x.value-sub peak e,
                    -ℤ_parts (x.value peak) (x.value e),
                    +ℤ_parts (x.value e) (x.value d),
                  ))
                  top)
        ],
      )

  IsTracked-step :
      (es : List D) (peak e d : D)
      → IsTracked es peak d
      → IsTracked (e ∷ es) (next_peak peak e) (dec_max d (next_peak peak e ⊖ e))
  IsTracked-step es peak e d h = elim (Bool-cases (peak <? e)) [
    | inl higher ↦
        subst (λ p. IsTracked (e ∷ es) p (dec_max d (p ⊖ e)))
          (sym (if_true (peak <? e) e peak higher)) (new_peak es peak e d h higher)
    | inr not_higher ↦
        subst (λ p. IsTracked (e ∷ es) p (dec_max d (p ⊖ e)))
          (sym (if_false (peak <? e) e peak not_higher)) (same_peak es peak e d h not_higher)
  ]

  drawdown_from-IsMaxDrawdown :
      (equity peak d : D) (ts : List (Trade D)) (es : List D)
      → IsTracked es peak d
      → IsMaxDrawdown (curve equity ts es) (drawdown_from equity peak d ts)
  unfolding drawdown_from curve IsTracked
  drawdown_from-IsMaxDrawdown equity peak d [] es (top, seen, tracked) = tracked
  drawdown_from-IsMaxDrawdown equity peak d (t ∷ ts) es h =
      let next = equity ⊕ pnl_of t in
      let high = next_peak peak next in
      drawdown_from-IsMaxDrawdown next high (dec_max d (high ⊖ next)) ts (next ∷ es)
        (IsTracked-step es peak next d h)

  -- The largest drawdown that the metrics report is that of the equity curve, which starts at the
  -- initial capital, where sums and comparisons are exact: no fall from an equity to a later one is
  -- larger, and it is 0 or one of these falls.
  pub max_drawdown_value-IsMaxDrawdown :
      (initial : D) (ts : List (Trade D))
      → IsMaxDrawdown (curve initial ts (initial ∷ [])) (max_drawdown_value initial ts)
  unfolding max_drawdown_value IsTracked IsPeak IsSeen IsMaxDrawdown IsBound
  max_drawdown_value-IsMaxDrawdown initial ts =
      drawdown_from-IsMaxDrawdown initial initial (dec 0) ts (initial ∷ [])
        ((omega arith, _), inl refl, ((_, _), ground (arith, x.value-zero), inl x.value-zero))

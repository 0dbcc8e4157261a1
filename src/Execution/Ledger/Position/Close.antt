-- ===== src/Execution/Ledger/Position/Close.antt =====
-- A fill against the whole position closes it.
use q_backend.Prelude.{◌≡◌, true, false, Option, none, some, arith, ap, ◌∙◌, sym}
use q_backend.Prelude.Int.{ℤ, pos, ◌-ℤ◌, eqb_ℤ, ltb_ℤ, -ℤ_parts}
use q_backend.Decimal.{Arith, Exact, ◌⊖◌, ◌=?◌, ◌<?◌, dec, dec_min}
use q_backend.Execution.Domain.{ExecutionSide, PositionSide}
use q_backend.Execution.Ledger.Position.{
  PositionTransition, transition_position, reduce, is_reducing,
}

eqb_minus_self : (v : ℤ) → eqb_ℤ (v -ℤ v) (pos 0) ≡ true
eqb_minus_self v = ground (arith, -ℤ_parts v v)

ltb_ne : (v : ℤ) → ltb_ℤ (pos 0) v ≡ true → eqb_ℤ v (pos 0) ≡ false
ltb_ne v h = ground arith

module _ {D : Type 0} ⦃a : Arith D⦄ where
  -- The transition that closes `quantity` on `side`.
  pub record IsClosed (side : PositionSide) (quantity : D) (t : PositionTransition D) : Type 0 where
    pub flat : t.new_side ≡ PositionSide.flat
    pub no_entry : t.new_average_entry_price ≡ none
    pub none_left : t.new_quantity ≡ dec 0
    pub all_closed : t.close_quantity ≡ quantity
    pub of_side : t.closing_side ≡ some side
    pub none_opened : t.opening_side ≡ none

module _ {D : Type 0} ⦃a : Arith D⦄ (x : Exact a) where
  minus_self : (q : D) → (q ⊖ q =? dec 0) ≡ true
  minus_self q =
      rw (x.eq-value (q ⊖ q) (dec 0), x.value-sub q q, x.value-zero) (eqb_minus_self (x.value q))

  positive_ne : (q : D) → (dec 0 <? q) ≡ true → (q =? dec 0) ≡ false
  positive_ne q h =
      rw (x.eq-value q (dec 0), x.value-zero)
        (ltb_ne (x.value q)
          (ap (λ z. ltb_ℤ z (x.value q)) (sym x.value-zero) ∙ sym (x.lt-value (dec 0) q) ∙ h))

  min_self : (q : D) → dec_min q q ≡ q
  min_self q = ground arith

  pub transition_position-IsClosed :
      (side : PositionSide) (os : ExecutionSide) (q : D) (entry : Option D) (price : D)
      (t : PositionTransition D)
      → is_reducing side os ≡ true
      → (dec 0 <? q) ≡ true
      → transition_position side q entry os q price ≡ some t
      → IsClosed side q t
  unfolding transition_position reduce
  transition_position-IsClosed side os q entry price t r p h =
      ground (arith, minus_self q, positive_ne q p, min_self q)

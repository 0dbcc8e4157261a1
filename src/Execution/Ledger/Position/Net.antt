-- ===== src/Execution/Ledger/Position/Net.antt =====
-- The net position as one signed quantity, to which every fill adds its own.
use q_backend.Prelude.{
  ◌≡◌, ◌≢◌, ◌⊎◌, inl, inr, true, false, Option, some, arith, ap, sym, ◌∙◌, refl, Bool-cases,
}
use q_backend.Prelude.Int.{
  eq_of_parts, +ℤ_parts, ℤ, pos, pos_part, neg_part, ◌+ℤ◌, ◌-ℤ◌, ◌≤ℤ◌, int_laws,
}
use q_backend.Decimal.{Arith, Exact, ◌⊕◌, ◌=?◌, dec, dec_min}
use q_backend.Execution.Domain.{ExecutionSide, PositionSide}
use q_backend.Execution.Repositories.Books.{is_flat}
use q_backend.Execution.Ledger.Position.{
  PositionTransition, opening_side_of, is_reducing, is_same_side_add, open_new, add_same_side,
  reduce, transition_position,
}

-- Long counts up and short counts down.
abbrev pub signed : PositionSide → ℤ → ℤ
signed PositionSide.long q = q
signed PositionSide.short q = pos 0 -ℤ q
signed PositionSide.flat q = pos 0

abbrev pub order_signed : ExecutionSide → ℤ → ℤ
order_signed ExecutionSide.buy q = q
order_signed ExecutionSide.sell q = pos 0 -ℤ q

-- On reducing sides: closing everything, closing a part, and turning the position round.
net_closed :
    (side : PositionSide) (os : ExecutionSide) (v w : ℤ)
    → is_reducing side os ≡ true
    → v ≡ w
    → pos 0 ≡ signed side v +ℤ order_signed os w
net_closed PositionSide.long ExecutionSide.sell v w r e =
    omega (int_laws, ap pos_part e, ap neg_part e)
net_closed PositionSide.short ExecutionSide.buy v w r e =
    omega (int_laws, ap pos_part e, ap neg_part e)
net_closed _ _ v w r e = cc

net_reduced :
    (side : PositionSide) (os : ExecutionSide) (v w : ℤ)
    → is_reducing side os ≡ true
    → signed side (v -ℤ w) ≡ signed side v +ℤ order_signed os w
net_reduced PositionSide.long ExecutionSide.sell v w r = omega int_laws
net_reduced PositionSide.short ExecutionSide.buy v w r = omega int_laws
net_reduced _ _ v w r = cc

net_turned :
    (side : PositionSide) (os : ExecutionSide) (v w : ℤ)
    → is_reducing side os ≡ true
    → signed (opening_side_of os) (w -ℤ v) ≡ signed side v +ℤ order_signed os w
net_turned PositionSide.long ExecutionSide.sell v w r = omega int_laws
net_turned PositionSide.short ExecutionSide.buy v w r = omega int_laws
net_turned _ _ v w r = cc

flat_zero : (side : PositionSide) (v : ℤ) → is_flat side ≡ true → signed side v ≡ pos 0
flat_zero side v h = ground arith

held_zero : (side : PositionSide) (v : ℤ) → v ≡ pos 0 → signed side v ≡ pos 0
held_zero PositionSide.long v e = e
held_zero PositionSide.short v e = rw e (omega int_laws)
held_zero PositionSide.flat v e = refl

reducing_of :
    (side : PositionSide) (os : ExecutionSide)
    → is_flat side ≡ false
    → is_same_side_add side os ≡ false
    → is_reducing side os ≡ true
reducing_of side os h k = ground arith

module _ {D : Type 0} ⦃a : Arith D⦄ (x : Exact a) where
  open x use {value}

  -- A transition keeps the account of the quantities: `q` was held on `side`, the order is for
  -- `oq`.
  pub record Accounts (side : PositionSide) (q : D) (os : ExecutionSide) (oq : D)
      (t : PositionTransition D) : Type 0 where
    pub net :
        signed t.new_side (value t.new_quantity)
        ≡ signed side (value q) +ℤ order_signed os (value oq)
    pub nonneg : pos 0 ≤ℤ value t.new_quantity
    pub split : value t.close_quantity +ℤ value t.open_quantity ≡ value oq

  zero_of_eq : (d : D) → (d =? dec 0) ≡ true → value d ≡ pos 0
  zero_of_eq d h = grind (arith, x.eq-value d (dec 0), x.value-zero)

  open_new-Accounts :
      (side : PositionSide) (q : D) (os : ExecutionSide) (oq price : D)
      → signed side (value q) ≡ pos 0
      → pos 0 ≤ℤ value oq
      → Accounts side q os oq (open_new os oq price)
  unfolding open_new
  open_new-Accounts side q ExecutionSide.buy oq price z h = record {
    net = rw z (omega int_laws);
    nonneg = h;
    split = rw x.value-zero (omega int_laws);
  }
  open_new-Accounts side q ExecutionSide.sell oq price z h = record {
    net = rw z (omega int_laws);
    nonneg = h;
    split = rw x.value-zero (omega int_laws);
  }

  add_same_side-Accounts :
      (side : PositionSide) (q : D) (entry : Option D) (os : ExecutionSide) (oq price : D)
      → is_same_side_add side os ≡ true
      → pos 0 ≤ℤ value q
      → pos 0 ≤ℤ value oq
      → Accounts side q os oq (add_same_side side q entry oq price)
  unfolding add_same_side
  add_same_side-Accounts PositionSide.long q entry ExecutionSide.buy oq price s h k = record {
    net = rw x.value-add (omega int_laws);
    nonneg = rw x.value-add (omega int_laws);
    split = rw x.value-zero (omega int_laws);
  }
  add_same_side-Accounts PositionSide.short q entry ExecutionSide.sell oq price s h k = record {
    net = rw x.value-add (omega int_laws);
    nonneg = rw x.value-add (omega int_laws);
    split = rw x.value-zero (omega int_laws);
  }
  add_same_side-Accounts _ q entry _ oq price s h k = cc

  nonzero_of_ne : (d : D) → (d =? dec 0) ≡ false → value d ≢ pos 0
  nonzero_of_ne d h e = grind (arith, x.eq-value d (dec 0), x.value-zero)

  -- The closed quantity is the smaller of the two.
  min_cases :
      (q oq : D)
      → let c = value (dec_min q oq) in
        (c ≤ℤ value q) × (c ≤ℤ value oq) × ((c ≡ value q) ⊎ (c ≡ value oq))
  min_cases q oq = ground (arith, x.lt-value oq q)

  eq_of_sub : (d e : D) → (a.sub d e =? dec 0) ≡ true → value d ≡ value e
  eq_of_sub d e h =
      let z = zero_of_eq (a.sub d e) h in
      let s = x.value-sub d e in
      omega (int_laws, ap pos_part z, ap neg_part z, ap pos_part s, ap neg_part s)

  ne_of_sub : (d e : D) → (a.sub d e =? dec 0) ≡ false → value d ≢ value e
  ne_of_sub d e h p = nonzero_of_ne (a.sub d e) h (rw (x.value-sub, p) (omega int_laws))

  reduce-Accounts :
      (side : PositionSide) (q : D) (entry : Option D) (os : ExecutionSide) (oq price : D)
      → is_reducing side os ≡ true
      → pos 0 ≤ℤ value q
      → pos 0 ≤ℤ value oq
      → Accounts side q os oq (reduce side q entry os oq price)
  unfolding reduce
  reduce-Accounts side q entry os oq price s h k =
      let c = dec_min q oq in
      let (lq, loq, either) = min_cases q oq in
      elim (Bool-cases (a.sub oq c =? dec 0)) [
        | inl full ↦ elim (Bool-cases (a.sub q c =? dec 0)) [
          | inl closed ↦
              rw (full, closed)
                (record {
                  net =
                      net_closed side os (value q) (value oq) s
                        (eq_of_sub q c closed ∙ sym (eq_of_sub oq c full));
                  nonneg = rw x.value-zero (omega arith);
                  split = rw (x.value-zero, ← eq_of_sub oq c full) (omega int_laws);
                })
          | inr left ↦
              rw (full, left)
                (record {
                  net =
                      rw (x.value-sub, ← eq_of_sub oq c full)
                        (net_reduced side os (value q) (value oq) s);
                  nonneg = rw x.value-sub (omega int_laws);
                  split = rw (x.value-zero, ← eq_of_sub oq c full) (omega int_laws);
                })
        ]
        | inr over ↦ elim either [
          | inl same ↦ rw over (record {
            net = rw (x.value-sub, same) (net_turned side os (value q) (value oq) s);
            nonneg = rw x.value-sub (omega int_laws);
            split = rw x.value-sub (omega int_laws);
          })
          | inr same ↦ absurd (ne_of_sub oq c over (sym same))
        ]
      ]

  -- The sum of a position and an order on its side is not zero.
  sum_not_zero :
      (q oq : D)
      → (q =? dec 0) ≡ false
      → pos 0 ≤ℤ value q
      → pos 0 ≤ℤ value oq
      → (q ⊕ oq =? dec 0) ≡ false
  sum_not_zero q oq ne h k = elim (Bool-cases (q ⊕ oq =? dec 0)) [
    | inl zero ↦
        let sum = sym (x.value-add q oq) ∙ zero_of_eq (q ⊕ oq) zero in
        absurd (
          nonzero_of_ne q ne (
            eq_of_parts (value q) (pos 0)
              (ground (arith, h, k, sum, +ℤ_parts (value q) (value oq)))))
    | inr other ↦ other
  ]

  -- Where decimals are exact, for a position and an order of quantities that are not negative, the
  -- transition does not raise: it adds the order's signed quantity to the signed position, leaves a
  -- quantity that is not negative, and splits the order exactly into what it closes and what it
  -- opens.
  pub transition_position-Accounts :
      (side : PositionSide) (q : D) (entry : Option D) (os : ExecutionSide) (oq price : D)
      → pos 0 ≤ℤ value q
      → pos 0 ≤ℤ value oq
      → (t : PositionTransition D) × (transition_position side q entry os oq price ≡ some t)
        × Accounts side q os oq t
  unfolding transition_position
  transition_position-Accounts side q entry os oq price h k = elim (Bool-cases (is_flat side)) [
    | inl flat ↦ (
      open_new os oq price,
      rw flat refl,
      open_new-Accounts side q os oq price (flat_zero side (value q) flat) k,
    )
    | inr held ↦ elim (Bool-cases (q =? dec 0)) [
      | inl empty ↦ (
        open_new os oq price,
        rw (held, empty) refl,
        open_new-Accounts side q os oq price (held_zero side (value q) (zero_of_eq q empty)) k,
      )
      | inr some_held ↦ elim (Bool-cases (is_same_side_add side os)) [
        | inl same ↦ (
          add_same_side side q entry oq price,
          rw (held, some_held, same, sum_not_zero q oq some_held h k) refl,
          add_same_side-Accounts side q entry os oq price same h k,
        )
        | inr other ↦
            let reducing = reducing_of side os held other in
            (
              reduce side q entry os oq price,
              rw (held, some_held, other, reducing) refl,
              reduce-Accounts side q entry os oq price reducing h k,
            )
      ]
    ]
  ]

-- ===== src/Execution/Ledger/Fill/Cash.antt =====
-- The cash of an account and the ledger agree: the balance is the initial balance and the sum of
-- the account's ledger entries.
use q_backend.Prelude.{
  ℕ, ◌≡◌, refl, sym, ◌∙◌, true, false, some, inl, inr, arith, List, [], ◌∷◌, ◌++◌, ◌==◌,
  if◌then◌else◌, ==→eq, Bool-cases, find-update_ne,
}
use q_backend.Prelude.Int.{ℤ, pos, ◌+ℤ◌, ◌-ℤ◌, int_laws}
use q_backend.Decimal.{Arith, Exact, ◌⊕◌, ◌⊖◌, ◌=?◌, dec, negate}
use q_backend.Execution.Domain.{LedgerEntryType}
use q_backend.Execution.Session.Rows.{PaperAccount, ExecutionLedgerEntry, Session, Database}
use q_backend.Execution.Session.Monad.{ok}
use q_backend.Execution.Repositories.Books.{account_is, get_paper_account, get_open_net_position}
use q_backend.Execution.Ledger.Fill.{LedgerApplyResult, FillCall, entry_of, apply_fill, realized_by}
use q_backend.Execution.Ledger.Fill.Effects.{
  cash_after, with_entries, with_entry, with_fill, Written, write_fill-Written,
}
use q_backend.Execution.Ledger.Fill.Cases.{apply_fill-cases}
use q_backend.Execution.Ledger.Fill.Once.{account_after}

module _ {D : Type 0} ⦃a : Arith D⦄ (x : Exact a) where
  open x use {value}

  -- The sum of the ledger entries of account `i`.
  abbrev pub entry_total : ℕ → List (ExecutionLedgerEntry D) → ℤ
  entry_total i [] = pos 0
  entry_total i (e ∷ es) =
      let rest = entry_total i es in
      if e.paper_account_id == i then value e.amount +ℤ rest else rest

  entry_total-append :
      (i : ℕ) (es : List (ExecutionLedgerEntry D)) (e : ExecutionLedgerEntry D)
      → entry_total i (es ++ e ∷ [])
        ≡ entry_total i es +ℤ (if e.paper_account_id == i then value e.amount else pos 0)
  entry_total-append i [] e = elim (Bool-cases (e.paper_account_id == i)) [
    | inl own ↦ rw own (omega int_laws)
    | inr other ↦ rw other (omega int_laws)
  ]
  entry_total-append i (d ∷ es) e =
      let ih = entry_total-append i es e in
      elim (Bool-cases (d.paper_account_id == i)) [
        | inl own ↦ rw (own, ih) (omega int_laws)
        | inr other ↦ rw (other, ih) (omega int_laws)
      ]

  value_of_zero : (d : D) → (d =? dec 0) ≡ true → value d ≡ pos 0
  value_of_zero d h = grind (arith, x.eq-value d (dec 0), x.value-zero)

  -- A written entry counts for the account of the call.
  entry_total-with_entry_own :
      (i : ℕ) (c : FillCall D) (kind : LedgerEntryType) (tested amount cash : D) (n : ℕ)
      (s : Session D)
      → (c.paper_account_id == i) ≡ true
      → ((tested =? dec 0) ≡ true → value amount ≡ pos 0)
      → entry_total i (with_entry c kind tested amount cash n s).db.entries
        ≡ entry_total i s.db.entries +ℤ value amount
  entry_total-with_entry_own i c kind tested amount cash n s own zero =
      elim (Bool-cases (tested =? dec 0)) [
        | inl skipped ↦ rw (skipped, zero skipped) (omega int_laws)
        | inr made ↦ rw (made, entry_total-append, own)
      ]

  entry_total-with_entry_other :
      (i : ℕ) (c : FillCall D) (kind : LedgerEntryType) (tested amount cash : D) (n : ℕ)
      (s : Session D)
      → (c.paper_account_id == i) ≡ false
      → entry_total i (with_entry c kind tested amount cash n s).db.entries
        ≡ entry_total i s.db.entries
  entry_total-with_entry_other i c kind tested amount cash n s other =
      elim (Bool-cases (tested =? dec 0)) [
        | inl skipped ↦ rw skipped
        | inr made ↦ rw (made, entry_total-append, other) (omega int_laws)
      ]

  module _ (i : ℕ) (c : FillCall D) (realized cash : D) (s : Session D) where
    entry_total-with_entries_own :
        (c.paper_account_id == i) ≡ true
        → entry_total i (with_entries c realized cash s).db.entries
          ≡ entry_total i s.db.entries +ℤ value realized -ℤ value c.fill.fee
    unfolding with_entries
    entry_total-with_entries_own own =
        let n = s.db.next_id in
        let s2 =
          with_entry c LedgerEntryType.realized_pnl realized realized cash n (with_fill c s) in
        let neg = x.value-neg c.fill.fee in
        let e1 =
          entry_total-with_entry_own i c LedgerEntryType.realized_pnl realized realized cash n
            (with_fill c s) own (value_of_zero realized) in
        let e2 =
          entry_total-with_entry_own i c LedgerEntryType.fee c.fill.fee (negate c.fill.fee) cash n
            s2 own (λ z. neg ∙ rw (value_of_zero c.fill.fee z) (omega int_laws)) in
        e2 ∙ rw (e1, neg) (omega int_laws)

    entry_total-with_entries_other :
        (c.paper_account_id == i) ≡ false
        → entry_total i (with_entries c realized cash s).db.entries ≡ entry_total i s.db.entries
    unfolding with_entries
    entry_total-with_entries_other other =
        entry_total-with_entry_other i c LedgerEntryType.fee c.fill.fee (negate c.fill.fee) cash
          s.db.next_id _ other
        ∙ entry_total-with_entry_other i c LedgerEntryType.realized_pnl realized realized cash
            s.db.next_id (with_fill c s) other

  -- The balance of account `i`, if it exists, is its initial balance and its entries.
  abbrev pub IsBalanced : ℕ → Database D → Type 0
  IsBalanced i db =
      (acc : PaperAccount D)
      → get_paper_account i db ≡ some acc
      → value acc.cash_balance ≡ value acc.initial_balance +ℤ entry_total i db.entries

  module _ (i : ℕ) (c : FillCall D) (realized : D) (acc : PaperAccount D) (s s' : Session D)
      (bal : IsBalanced i s.db)
      (w : Written c realized (acc.cash_balance ⊕ realized ⊖ c.fill.fee) s s') where
    IsBalanced-own :
        (c.paper_account_id == i) ≡ true
        → get_paper_account c.paper_account_id s.db ≡ some acc
        → IsBalanced i s'.db
    IsBalanced-own own owner row found =
        let cash = acc.cash_balance ⊕ realized ⊖ c.fill.fee in
        let same = ==→eq c.paper_account_id i own in
        let after = account_after c realized cash s s' acc owner w in
        let here : row ≡ record acc { cash_balance = cash } = cc (rw same at after) in
        let before = bal acc (rw same at owner) in
        rw
          (
            w.entries,
            here,
            entry_total-with_entries_own i c realized cash s own,
            x.value-sub,
            x.value-add,
            before,
          )
          (omega int_laws)

    IsBalanced-other : (c.paper_account_id == i) ≡ false → IsBalanced i s'.db
    unfolding get_paper_account
    IsBalanced-other other row found =
        let cash = acc.cash_balance ⊕ realized ⊖ c.fill.fee in
        let same =
          find-update_ne (account_is i) (account_is c.paper_account_id)
            (λ r. record r { cash_balance = cash }) s.db.accounts (λ y. refl)
            (λ y h. ground arith) in
        rw (w.entries, entry_total-with_entries_other i c realized cash s other)
          (bal row (sym same ∙ rw w.accounts at found))

  -- Where decimals are exact and the books of an account balance, they balance after every
  -- successful `apply_fill`, whichever account the fill belongs to: the realized profit and the fee
  -- reach the cash and the ledger alike.
  pub apply_fill-IsBalanced :
      (i : ℕ) (c : FillCall D) (s s' : Session D) (r : LedgerApplyResult D)
      → IsBalanced i s.db
      → apply_fill c s ≡ (ok r, s')
      → IsBalanced i s'.db
  apply_fill-IsBalanced i c s s' r bal h = elim (apply_fill-cases c s s' r h) [
    | inl old ↦ rw old.unchanged bal
    | inr new ↦
        let p = get_open_net_position c.deployment_id s.db in
        let realized = realized_by new.transition (entry_of p) c in
        let cash = cash_after c new.account (entry_of p) new.transition in
        let (w, answer) =
          write_fill-Written c new.account (entry_of p) new.transition s s' r new.missing new.owner
            new.written in
        elim (Bool-cases (c.paper_account_id == i)) [
          | inl own ↦ IsBalanced-own i c realized new.account s s' bal w own new.owner
          | inr other ↦ IsBalanced-other i c realized new.account s s' bal w other
        ]
  ]

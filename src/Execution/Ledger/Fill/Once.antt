-- ===== src/Execution/Ledger/Fill/Once.antt =====
-- A fill is booked once: a second call with its broker mode and external id changes nothing.
use q_backend.Prelude.{
  ◌≡◌, refl, ◌∙◌, true, none, some, inl, inr, arith, find-append_none, find-update_self, ==_refl,
}
use q_backend.Decimal.{Arith}
use q_backend.Execution.Domain.{BrokerMode, ExternalId, mode_eq, external_eq}
use q_backend.Execution.Session.Rows.{PaperAccount, ExecutionFill, Session}
use q_backend.Execution.Session.Monad.{ok, >>=-ok, or_raise-some, get_db}
use q_backend.Execution.Repositories.Books.{
  account_is, fill_is, get_paper_account, get_execution_fill_by_external_id, get_open_net_position,
}
use q_backend.Execution.Ledger.Fill.{
  LedgerApplyResult, FillCall, entry_of, repeated, dispatch, apply_fill, realized_by,
}
use q_backend.Execution.Ledger.Fill.Effects.{fill_row, cash_after, Written, write_fill-Written}
use q_backend.Execution.Ledger.Fill.Cases.{stored, apply_fill-eq, apply_fill-cases}

mode_eq_refl : (m : BrokerMode) → mode_eq m m ≡ true
mode_eq_refl m = ground arith

external_eq_refl : (e : ExternalId) → external_eq e e ≡ true
external_eq_refl (ExternalId.order_tag m n) = rw (mode_eq_refl, ==_refl)
external_eq_refl (ExternalId.other n) = ==_refl n

module _ {D : Type 0} ⦃a : Arith D⦄ where
  -- The two calls name one fill and one account.
  pub record SameFill (c c' : FillCall D) : Type 0 where
    pub mode : c'.fill.broker_mode ≡ c.fill.broker_mode
    pub external : c'.fill.external_fill_id ≡ c.fill.external_fill_id
    pub account : c'.paper_account_id ≡ c.paper_account_id

  pub repeats :
      (c : FillCall D) (s : Session D) (existing : ExecutionFill D) (acc : PaperAccount D)
      → stored c s ≡ some existing
      → get_paper_account c.paper_account_id s.db ≡ some acc
      → apply_fill c s
        ≡ (ok (repeated existing acc (get_open_net_position c.deployment_id s.db)), s)
  unfolding dispatch
  repeats c s existing acc found owner =
      apply_fill-eq c s
      ∙ (rw found (>>=-ok get_db _ {s = s} refl ∙ or_raise-some _ _ _ s acc owner))

  -- After a write the fill is found, and the account has the new cash.
  found_after :
      (c : FillCall D) (realized cash : D) (s s' : Session D)
      → stored c s ≡ none
      → Written c realized cash s s'
      → stored c s' ≡ some (fill_row c s.db.next_id)
  unfolding get_execution_fill_by_external_id
  found_after c realized cash s s' missing w = rw w.fills (
      find-append_none (fill_is c.fill.broker_mode c.fill.external_fill_id) s.db.fills
        (fill_row c s.db.next_id) missing
      ∙ rw (mode_eq_refl, external_eq_refl))

  pub account_after :
      (c : FillCall D) (realized cash : D) (s s' : Session D) (acc : PaperAccount D)
      → get_paper_account c.paper_account_id s.db ≡ some acc
      → Written c realized cash s s'
      → get_paper_account c.paper_account_id s'.db ≡ some (record acc { cash_balance = cash })
  unfolding get_paper_account
  account_after c realized cash s s' acc owner w = rw w.accounts (
      find-update_self (account_is c.paper_account_id) (λ row. record row { cash_balance = cash })
        s.db.accounts acc (λ y h. h) owner)

  -- Once a call of `apply_fill` has succeeded, every later call for the same fill and account
  -- succeeds too, reports the repetition and the cash that the first call reported, and leaves the
  -- session exactly as it was.
  pub apply_fill-apply_fill :
      (c c' : FillCall D) (s s' : Session D) (r : LedgerApplyResult D)
      → SameFill c c'
      → apply_fill c s ≡ (ok r, s')
      → (r' : LedgerApplyResult D) × (apply_fill c' s' ≡ (ok r', s'))
        × (r'.idempotent ≡ true)
        × (r'.cash_balance ≡ r.cash_balance)
  apply_fill-apply_fill c c' s s' r same h = elim (apply_fill-cases c s s' r h) [
    | inl old ↦ (
      repeated old.existing old.account (get_open_net_position c'.deployment_id s'.db),
      repeats c' s' old.existing old.account
          (rw (same.mode, same.external, old.unchanged) old.found)
          (rw (same.account, old.unchanged) old.owner),
      refl,
      rw old.answer,
    )
    | inr new ↦
        let p = get_open_net_position c.deployment_id s.db in
        let realized = realized_by new.transition (entry_of p) c in
        let cash = cash_after c new.account (entry_of p) new.transition in
        let (w, answer) =
          write_fill-Written c new.account (entry_of p) new.transition s s' r new.missing new.owner
            new.written in
        let acc = record new.account { cash_balance = cash } in
        (
          repeated (fill_row c s.db.next_id) acc (get_open_net_position c'.deployment_id s'.db),
          repeats c' s' (fill_row c s.db.next_id) acc
              (rw (same.mode, same.external) (found_after c realized cash s s' new.missing w))
              (rw same.account (account_after c realized cash s s' new.account new.owner w)),
          refl,
          rw answer,
        )
  ]

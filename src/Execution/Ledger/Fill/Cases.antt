-- ===== src/Execution/Ledger/Fill/Cases.antt =====
-- The two ways in which `apply_fill` succeeds: the fill is stored already, or it is written.
use q_backend.Prelude.{◌≡◌, ◌⊎◌, inl, inr, refl, sym, ◌∙◌, Option, none, some, Option-cases}
use q_backend.Decimal.{Arith}
use q_backend.Execution.Session.Rows.{PaperAccount, ExecutionFill, Session}
use q_backend.Execution.Session.Monad.{ok, >>=-ok, or_raise-eq-ok, get_db}
use q_backend.Execution.Repositories.Books.{
  get_paper_account, get_execution_fill_by_external_id, get_open_net_position,
}
use q_backend.Execution.Ledger.Position.{PositionTransition, transition_position}
use q_backend.Execution.Ledger.Fill.{
  LedgerApplyResult, FillCall, side_of, quantity_of, entry_of, repeated, dispatch, apply_new,
  write_fill, apply_fill,
}

module _ {D : Type 0} ⦃a : Arith D⦄ where
  abbrev pub stored : FillCall D → Session D → Option (ExecutionFill D)
  stored c s = get_execution_fill_by_external_id c.fill.broker_mode c.fill.external_fill_id s.db

  -- The call found its fill in the tables.
  pub record IsRepeat (c : FillCall D) (s s' : Session D) (r : LedgerApplyResult D) : Type 0 where
    pub existing : ExecutionFill D
    pub account : PaperAccount D
    pub found : stored c s ≡ some existing
    pub owner : get_paper_account c.paper_account_id s.db ≡ some account
    pub unchanged : s' ≡ s
    pub answer : r ≡ repeated existing account (get_open_net_position c.deployment_id s.db)

  -- The call wrote its fill.
  pub record IsNew (c : FillCall D) (s s' : Session D) (r : LedgerApplyResult D) : Type 0 where
    pub account : PaperAccount D
    pub transition : PositionTransition D
    pub missing : stored c s ≡ none
    pub owner : get_paper_account c.paper_account_id s.db ≡ some account
    pub moved :
        let p = get_open_net_position c.deployment_id s.db in
        transition_position
          (side_of p)
          (quantity_of p)
          (entry_of p)
          c.fill.side
          c.fill.quantity
          c.fill.price
        ≡ some transition
    pub written :
        write_fill c account (entry_of (get_open_net_position c.deployment_id s.db)) transition s
        ≡ (ok r, s')

  pub apply_fill-eq : (c : FillCall D) (s : Session D) → apply_fill c s ≡ dispatch (stored c s) c s
  unfolding apply_fill
  apply_fill-eq c s = >>=-ok get_db _ refl

  IsRepeat-case :
      (c : FillCall D) (existing : ExecutionFill D) (s s' : Session D) (r : LedgerApplyResult D)
      → stored c s ≡ some existing
      → dispatch (some existing) c s ≡ (ok r, s')
      → IsRepeat c s s' r
  unfolding dispatch
  IsRepeat-case c existing s s' r found h =
      let h1 = sym (>>=-ok get_db _ {s = s} refl) ∙ h in
      let (acc, owner, rest) = or_raise-eq-ok _ _ _ s s' r h1 in
      record {
        existing = existing;
        account = acc;
        found = found;
        owner = owner;
        unchanged = cc;
        answer = cc;
      }

  IsNew-case :
      (c : FillCall D) (s s' : Session D) (r : LedgerApplyResult D)
      → stored c s ≡ none
      → apply_new c s ≡ (ok r, s')
      → IsNew c s s' r
  unfolding apply_new
  IsNew-case c s s' r missing h =
      let h1 = sym (>>=-ok get_db _ {s = s} refl) ∙ h in
      let (acc, owner, rest) = or_raise-eq-ok _ _ _ s s' r h1 in
      let (t, moved, wrote) = or_raise-eq-ok _ _ _ s s' r rest in
      record {
        account = acc;
        transition = t;
        missing = missing;
        owner = owner;
        moved = moved;
        written = wrote;
      }

  pub apply_fill-cases :
      (c : FillCall D) (s s' : Session D) (r : LedgerApplyResult D)
      → apply_fill c s ≡ (ok r, s')
      → IsRepeat c s s' r ⊎ IsNew c s s' r
  unfolding dispatch
  apply_fill-cases c s s' r h = elim (Option-cases (stored c s)) [
    | inl missing ↦ inr (IsNew-case c s s' r missing (rw (apply_fill-eq, missing) at h))
    | inr (existing, found) ↦
        inl (IsRepeat-case c existing s s' r found (rw (apply_fill-eq, found) at h))
  ]

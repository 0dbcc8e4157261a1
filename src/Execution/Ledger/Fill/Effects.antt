-- ===== src/Execution/Ledger/Fill/Effects.antt =====
-- What a successful write of a fill leaves in each table.
use q_backend.Prelude.{
  sym, ◌∙◌, any-find-none, Option, none, some, refl, ℕ, suc, false, Option, some, [], ◌∷◌, ◌++◌,
  ◌≡◌, arith, update, if◌then◌else◌,
}
use mathlib.Core.Path.{subst}
use q_backend.Decimal.{Arith, ◌⊕◌, ◌⊖◌, ◌=?◌, dec, negate}
use q_backend.Execution.Domain.{PositionSide, ExecutionOrderStatus, LedgerEntryType}
use q_backend.Execution.Session.Rows.{PaperAccount, ExecutionFill, ExecutionLedgerEntry, Session}
use q_backend.Execution.Session.Monad.{>>=-ok, >>=-eq-ok, ◌>>◌, pure, ok}
use q_backend.Execution.Repositories.Books.{
  upserted, get_open_net_position, fill_is, get_execution_fill_by_external_id, get_paper_account,
  account_is, create_execution_fill, append_ledger_entry, update_paper_cash_balance,
  upsert_open_net_position,
}
use q_backend.Execution.Repositories.Orders.{OrderChange, transition_execution_order}
use q_backend.Execution.Ledger.Position.{PositionTransition}
use q_backend.Execution.Ledger.Fill.{
  LedgerApplyResult, FillCall, write_fill, realized_by, append_unless_zero, complete_order,
}

module _ {D : Type 0} ⦃a : Arith D⦄ where
  abbrev pub fill_row : FillCall D → ℕ → ExecutionFill D
  fill_row c n = record {
    id = n;
    deployment_id = c.deployment_id;
    order_id = c.order_id;
    fill = c.fill;
  }

  abbrev pub entry_row :
      FillCall D → Session D → ℕ → LedgerEntryType → D → D → ExecutionLedgerEntry D
  entry_row c s fill_id kind amount cash = record {
    id = s.db.next_id;
    paper_account_id = c.paper_account_id;
    deployment_id = c.deployment_id;
    fill_id = some fill_id;
    entry_type = kind;
    amount = amount;
    balance_after = cash;
    created_at = s.now;
  }

  abbrev pub unless_zero : {A : Type 0} → D → A → A → A
  unless_zero d same other = if d =? dec 0 then same else other

  abbrev pub cash_after : FillCall D → PaperAccount D → Option D → PositionTransition D → D
  cash_after c acc entry t = acc.cash_balance ⊕ realized_by t entry c ⊖ c.fill.fee

  -- The session after each step of `write_fill`.
  abbrev pub with_fill : FillCall D → Session D → Session D
  with_fill c s = record s {
    db = record s.db {
      fills = s.db.fills ++ fill_row c s.db.next_id ∷ [];
      next_id = suc s.db.next_id;
    };
  }

  create_execution_fill-eq :
      (c : FillCall D) (s : Session D)
      → get_execution_fill_by_external_id c.fill.broker_mode c.fill.external_fill_id s.db ≡ none
      → create_execution_fill c.deployment_id c.order_id c.fill s ≡ (ok s.db.next_id, with_fill c s)
  unfolding create_execution_fill get_execution_fill_by_external_id
  create_execution_fill-eq c s h =
      let e = any-find-none (fill_is c.fill.broker_mode c.fill.external_fill_id) s.db.fills h in
      rw e

  abbrev pub with_entry : FillCall D → LedgerEntryType → D → D → D → ℕ → Session D → Session D
  with_entry c kind tested amount cash fill_id s = unless_zero tested s (record s {
    db = record s.db {
      entries = s.db.entries ++ entry_row c s fill_id kind amount cash ∷ [];
      next_id = suc s.db.next_id;
    };
  })

  append_unless_zero-eq :
      (c : FillCall D) (kind : LedgerEntryType) (tested amount cash : D) (fill_id : ℕ)
      (s : Session D)
      → append_unless_zero c kind tested amount cash fill_id s
        ≡ (ok tt, with_entry c kind tested amount cash fill_id s)
  unfolding append_unless_zero append_ledger_entry
  append_unless_zero-eq c kind tested amount cash fill_id s = ground arith

  abbrev with_cash : ℕ → D → Session D → Session D
  with_cash i cash s = record s {
    db = record s.db {
      accounts = update (account_is i) (λ row. record row { cash_balance = cash }) s.db.accounts;
    };
  }

  update_paper_cash_balance-eq :
      (i : ℕ) (cash : D) (s : Session D) (acc : PaperAccount D)
      → get_paper_account i s.db ≡ some acc
      → update_paper_cash_balance i cash s ≡ (ok tt, with_cash i cash s)
  unfolding update_paper_cash_balance
  update_paper_cash_balance-eq i cash s acc h = rw h

  -- What the last two steps leave alone.
  pub record SameBooks (s s1 : Session D) : Type 0 where
    pub fills : s1.db.fills ≡ s.db.fills
    pub accounts : s1.db.accounts ≡ s.db.accounts
    pub entries : s1.db.entries ≡ s.db.entries
    pub committed : s1.committed ≡ s.committed

  with_position : ℕ → PositionSide → D → Option D → ℕ → Session D → Session D
  with_position i side q entry now s = record s {
    db = upserted i side q entry now (get_open_net_position i s.db) s.db;
  }

  upsert_open_net_position-eq :
      (i : ℕ) (side : PositionSide) (q : D) (entry : Option D) (now : ℕ) (s : Session D)
      → upsert_open_net_position i side q entry now s ≡ (ok tt, with_position i side q entry now s)
  unfolding upsert_open_net_position with_position
  upsert_open_net_position-eq i side q entry now s = refl

  with_position-SameBooks :
      (i : ℕ) (side : PositionSide) (q : D) (entry : Option D) (now : ℕ) (s : Session D)
      → SameBooks s (with_position i side q entry now s)
  unfolding with_position upserted
  with_position-SameBooks i side q entry now s = ground arith

  transition_execution_order-SameBooks :
      (i : ℕ) (target : ExecutionOrderStatus) (ch : OrderChange) (s s1 : Session D)
      → transition_execution_order i target ch s ≡ (ok tt, s1)
      → SameBooks s s1
  unfolding transition_execution_order
  transition_execution_order-SameBooks i target ch s s1 h = ground arith

  SameBooks-trans : (s t u : Session D) → SameBooks s t → SameBooks t u → SameBooks s u
  SameBooks-trans s t u h k = ground arith

  complete_order-SameBooks :
      (c : FillCall D) (s s1 : Session D) → complete_order c s ≡ (ok tt, s1) → SameBooks s s1
  unfolding complete_order transition_execution_order
  complete_order-SameBooks c s s1 h = ground arith

  unfoldable pub with_entries : FillCall D → D → D → Session D → Session D
  with_entries c realized cash s =
      let s1 = with_fill c s in
      let s2 = with_entry c LedgerEntryType.realized_pnl realized realized cash s.db.next_id s1 in
      with_entry c LedgerEntryType.fee c.fill.fee (negate c.fill.fee) cash s.db.next_id s2

  booked : FillCall D → D → D → PositionTransition D → Session D → Session D
  booked c realized cash t s =
      let s4 = with_cash c.paper_account_id cash (with_entries c realized cash s) in
      with_position c.deployment_id t.new_side t.new_quantity t.new_average_entry_price
        c.fill.filled_at s4

  abbrev pub result_of : FillCall D → D → D → PositionTransition D → ℕ → LedgerApplyResult D
  result_of c realized cash t n = record {
    fill_id = n;
    cash_balance = cash;
    realized_pnl = realized;
    fee = c.fill.fee;
    position_side = t.new_side;
    position_quantity = t.new_quantity;
    average_entry_price = t.new_average_entry_price;
    idempotent = false;
  }

  with_entries-accounts :
      (c : FillCall D) (realized cash : D) (s : Session D)
      → (with_entries c realized cash s).db.accounts ≡ s.db.accounts
  unfolding with_entries
  with_entries-accounts c realized cash s = ground arith

  -- `write_fill` with all its steps but the last carried out.
  write_fill-eq :
      (c : FillCall D) (acc : PaperAccount D) (entry : Option D) (t : PositionTransition D)
      (s : Session D)
      → get_execution_fill_by_external_id c.fill.broker_mode c.fill.external_fill_id s.db ≡ none
      → get_paper_account c.paper_account_id s.db ≡ some acc
      → let realized = realized_by t entry c in
        let cash = cash_after c acc entry t in
        write_fill c acc entry t s
        ≡ (complete_order c >> pure (result_of c realized cash t s.db.next_id))
            (booked c realized cash t s)
  unfolding write_fill booked with_entries get_paper_account
  write_fill-eq c acc entry t s fresh found =
      let realized = realized_by t entry c in
      let cash = cash_after c acc entry t in
      let n = s.db.next_id in
      let e1 = create_execution_fill-eq c s fresh in
      let s1 = with_fill c s in
      let e2 = append_unless_zero-eq c LedgerEntryType.realized_pnl realized realized cash n s1 in
      let s2 = with_entry c LedgerEntryType.realized_pnl realized realized cash n s1 in
      let e3 =
        append_unless_zero-eq c LedgerEntryType.fee c.fill.fee (negate c.fill.fee) cash n s2 in
      let s3 = with_entry c LedgerEntryType.fee c.fill.fee (negate c.fill.fee) cash n s2 in
      let e4 =
        update_paper_cash_balance-eq c.paper_account_id cash s3 acc
          (rw (with_entries-accounts c realized cash s) found) in
      >>=-ok _ _ e1
      ∙ >>=-ok _ _ e2
      ∙ >>=-ok _ _ e3
      ∙ >>=-ok _ _ e4
      ∙ >>=-ok _ _ (upsert_open_net_position-eq _ _ _ _ _ _)

  -- The tables after a successful write: `s` before, `s'` after, `cash` and `realized` as booked.
  pub record Written (c : FillCall D) (realized cash : D) (s s' : Session D) : Type 0 where
    pub fills : s'.db.fills ≡ s.db.fills ++ fill_row c s.db.next_id ∷ []
    pub accounts :
        s'.db.accounts
        ≡ update
            (account_is c.paper_account_id)
            (λ row. record row { cash_balance = cash })
            s.db.accounts
    pub entries : s'.db.entries ≡ (with_entries c realized cash s).db.entries
    pub committed : s'.committed ≡ s.committed

  booked-Written :
      (c : FillCall D) (realized cash : D) (t : PositionTransition D) (s : Session D)
      → Written c realized cash s (booked c realized cash t s)
  unfolding booked with_entries
  booked-Written c realized cash t s =
      let same =
        with_position-SameBooks c.deployment_id t.new_side t.new_quantity t.new_average_entry_price
          c.fill.filled_at (with_cash c.paper_account_id cash (with_entries c realized cash s)) in
      record {
        fills = same.fills ∙ ground arith;
        accounts = same.accounts ∙ ground arith;
        entries = same.entries;
        committed = same.committed ∙ ground arith;
      }

  Written-SameBooks :
      (c : FillCall D) (realized cash : D) (s t u : Session D)
      → Written c realized cash s t
      → SameBooks t u
      → Written c realized cash s u
  Written-SameBooks c realized cash s t u w same = record {
    fills = same.fills ∙ w.fills;
    accounts = same.accounts ∙ w.accounts;
    entries = same.entries ∙ w.entries;
    committed = same.committed ∙ w.committed;
  }

  pub write_fill-Written :
      (c : FillCall D) (acc : PaperAccount D) (entry : Option D) (t : PositionTransition D)
      (s s' : Session D) (r : LedgerApplyResult D)
      → get_execution_fill_by_external_id c.fill.broker_mode c.fill.external_fill_id s.db ≡ none
      → get_paper_account c.paper_account_id s.db ≡ some acc
      → write_fill c acc entry t s ≡ (ok r, s')
      → Written c (realized_by t entry c) (cash_after c acc entry t) s s'
        × (r ≡ result_of c (realized_by t entry c) (cash_after c acc entry t) t s.db.next_id)
  write_fill-Written c acc entry t s s' r fresh found h =
      let realized = realized_by t entry c in
      let cash = cash_after c acc entry t in
      let s5 = booked c realized cash t s in
      let (_, s6, last, answer) =
        >>=-eq-ok (complete_order c) _ s5 s' r
          (sym (write_fill-eq c acc entry t s fresh found) ∙ h) in
      (
        Written-SameBooks c realized cash s s5 s' (booked-Written c realized cash t s)
            (subst (SameBooks s5) (cc) (complete_order-SameBooks c s5 s6 last)),
        cc,
      )

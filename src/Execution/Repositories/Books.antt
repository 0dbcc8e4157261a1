-- ===== src/Execution/Repositories/Books.antt =====
-- Accounts, fills, net positions and ledger entries.
pub mod OneOpen
use q_backend.Prelude.{
  ℕ, suc, Bool, true, false, ◌&&◌, ◌||◌, ◌==◌, leb, Option, none, some, List, [], ◌∷◌, ◌++◌, find,
  update, any, if◌then◌else◌,
}
use q_backend.Decimal.{Arith, ◌⊕◌, ◌=?◌, dec}
use q_backend.Execution.Domain.{
  BrokerMode, PositionSide, LedgerEntryType, FillRecord, ExternalId, mode_eq, external_eq,
}
use q_backend.Execution.Session.Rows.{
  PaperAccount, ExecutionFill, ExecutionNetPosition, ExecutionLedgerEntry, Database,
}
use q_backend.Execution.Session.Monad.{
  Action, not_found, integrity, ◌>>=◌, ◌>>◌, pure, get_db, get_now, modify, or_raise, raise_if,
}

abbrev pub is_flat : PositionSide → Bool
is_flat PositionSide.flat = true
is_flat _ = false

abbrev pub is_realized : LedgerEntryType → Bool
is_realized LedgerEntryType.realized_pnl = true
is_realized _ = false

module _ {D : Type 0} where
  abbrev pub account_is : ℕ → PaperAccount D → Bool
  account_is i r = r.id == i

  unfoldable pub get_paper_account : ℕ → Database D → Option (PaperAccount D)
  get_paper_account i db = find (account_is i) db.accounts

  unfoldable pub update_paper_cash_balance : ℕ → D → Action D (Unit {0})
  unfolding get_paper_account ◌>>=◌
  update_paper_cash_balance i cash = do
    db ← get_db
    acc ← or_raise (get_paper_account i db) not_found
    modify (λ d. record d {
      accounts = update (account_is i) (λ r. record r { cash_balance = cash }) d.accounts;
    })

  abbrev pub fill_is : BrokerMode → ExternalId → ExecutionFill D → Bool
  fill_is mode external f =
      mode_eq f.fill.broker_mode mode && external_eq f.fill.external_fill_id external

  unfoldable pub get_execution_fill_by_external_id :
      BrokerMode → ExternalId → Database D → Option (ExecutionFill D)
  get_execution_fill_by_external_id mode external db = find (fill_is mode external) db.fills

  -- The unique index on broker mode and external id refuses a second fill.
  unfoldable pub create_execution_fill : ℕ → ℕ → FillRecord D → Action D ℕ
  unfolding ◌>>=◌
  create_execution_fill deployment order fill = do
    db ← get_db
    raise_if (any (fill_is fill.broker_mode fill.external_fill_id) db.fills) integrity
    modify (λ d. record d {
      fills =
          d.fills
          ++ record { id = d.next_id; deployment_id = deployment; order_id = order; fill = fill }
            ∷ [];
      next_id = suc d.next_id;
    })
    pure db.next_id

  abbrev pub is_open_for : ℕ → ExecutionNetPosition D → Bool
  is_open_for i p = p.deployment_id == i && p.is_open

  unfoldable pub get_open_net_position : ℕ → Database D → Option (ExecutionNetPosition D)
  get_open_net_position i db = find (is_open_for i) db.positions

  unfoldable pub append_ledger_entry :
      ℕ → ℕ → LedgerEntryType → D → D → Option ℕ → Action D (Unit {0})
  unfolding ◌>>=◌
  append_ledger_entry account deployment kind amount balance fill = do
    now ← get_now
    modify (λ d. record d {
      entries =
          d.entries
          ++ record {
            id = d.next_id;
            paper_account_id = account;
            deployment_id = deployment;
            fill_id = fill;
            entry_type = kind;
            amount = amount;
            balance_after = balance;
            created_at = now;
          }
            ∷ [];
      next_id = suc d.next_id;
    })

module _ {D : Type 0} ⦃a : Arith D⦄ where
  abbrev edit_open_position :
      ℕ → (ExecutionNetPosition D → ExecutionNetPosition D) → Database D → Database D
  edit_open_position i f db = record db { positions = update (is_open_for i) f db.positions }

  abbrev add_position : ExecutionNetPosition D → Database D → Database D
  add_position p db = record db { positions = db.positions ++ p ∷ []; next_id = suc db.next_id }

  -- The row that a closing write leaves.
  abbrev closed_row : ℕ → ExecutionNetPosition D → ExecutionNetPosition D
  closed_row now p = record p {
    side = PositionSide.flat;
    quantity = dec 0;
    average_entry_price = none;
    is_open = false;
    closed_at = some now;
  }

  abbrev opened_row :
      PositionSide → D → Option D → ℕ → ExecutionNetPosition D → ExecutionNetPosition D
  opened_row side quantity entry now p = record p {
    side = side;
    quantity = quantity;
    average_entry_price = entry;
    is_open = true;
    opened_at = elim p.opened_at [ none ↦ some now | some t ↦ some t ];
    closed_at = none;
  }

  -- The new table of `upsert_open_net_position`, which is given `opened_at` by its caller.
  unfoldable pub upserted :
      ℕ
      → PositionSide
      → D
      → Option D
      → ℕ
      → Option (ExecutionNetPosition D)
      → Database D
      → Database D
  upserted i side quantity entry now (some p) db =
      if is_flat side || quantity =? dec 0
      then edit_open_position i (closed_row now) db
      else edit_open_position i (opened_row side quantity entry now) db
  upserted i side quantity entry now none db =
      if is_flat side || quantity =? dec 0
      then add_position
          (record {
            id = db.next_id;
            deployment_id = i;
            side = PositionSide.flat;
            quantity = dec 0;
            average_entry_price = none;
            is_open = false;
            opened_at = none;
            closed_at = some now;
          })
          db
      else add_position
          (record {
            id = db.next_id;
            deployment_id = i;
            side = side;
            quantity = quantity;
            average_entry_price = entry;
            is_open = true;
            opened_at = some now;
            closed_at = none;
          })
          db

  unfoldable pub upsert_open_net_position :
      ℕ → PositionSide → D → Option D → ℕ → Action D (Unit {0})
  unfolding upserted get_open_net_position ◌>>=◌
  upsert_open_net_position i side quantity entry now = do
    db ← get_db
    modify (upserted i side quantity entry now (get_open_net_position i db))

  -- `func.coalesce(func.sum(amount), 0)` over the rows that pass.
  unfoldable pub sum_amounts : (ExecutionLedgerEntry D → Bool) → List (ExecutionLedgerEntry D) → D
  sum_amounts p [] = dec 0
  sum_amounts p (e ∷ rest) =
      let total = sum_amounts p rest in if p e then e.amount ⊕ total else total

  unfoldable pub sum_realized_pnl_since : ℕ → ℕ → Database D → D
  unfolding sum_amounts
  sum_realized_pnl_since account since db =
      sum_amounts
        (λ e. e.paper_account_id == account && is_realized e.entry_type && leb since e.created_at)
        db.entries

-- ===== src/Execution/Ledger/Snapshot.antt =====
-- `ExecutionLedger.account_snapshot`: the account marked to a quote.
use q_backend.Prelude.{
  ℕ, ◌==◌, ◌&&◌, Bool, true, false, List, [], ◌∷◌, Option, none, some, if◌then◌else◌,
}
use q_backend.Decimal.{Arith, ◌⊕◌, ◌<?◌, dec, negate, or_default}
use q_backend.Execution.Domain.{PositionSide, LedgerEntryType}
use q_backend.Execution.Broker.{ExecutableQuote}
use q_backend.Execution.Session.Rows.{ExecutionNetPosition, Database}
use q_backend.Execution.Session.Monad.{Action, not_found, ◌>>=◌, pure, get_db, or_raise}
use q_backend.Execution.Repositories.Books.{
  get_paper_account, get_open_net_position, is_realized, sum_amounts,
}
use q_backend.Execution.Ledger.Position.{mark_price_for_position, unrealized_pnl}

pub record BrokerPositionSnapshot (D : Type 0) : Type 0 where
  pub deployment_id : ℕ
  pub side : PositionSide
  pub quantity : D
  pub average_entry_price : Option D
  pub unrealized_pnl : D
  pub mark_price : Option D

pub record BrokerAccountSnapshot (D : Type 0) : Type 0 where
  pub account_id : ℕ
  pub cash_balance : D
  pub equity : D
  pub unrealized_pnl : D
  pub realized_pnl : D
  pub total_fees : D
  pub positions : List (BrokerPositionSnapshot D)
  pub as_of : ℕ

abbrev is_fee : LedgerEntryType → Bool
is_fee LedgerEntryType.fee = true
is_fee _ = false

module _ {D : Type 0} ⦃a : Arith D⦄ where
  abbrev dec_abs : D → D
  dec_abs x = if x <? dec 0 then negate x else x

  -- `_ledger_totals`: the realized profit and the size of the fees.
  unfoldable pub ledger_totals : ℕ → Database D → D × D
  unfolding sum_amounts
  ledger_totals account db = (
    sum_amounts (λ e. e.paper_account_id == account && is_realized e.entry_type) db.entries,
    dec_abs (sum_amounts (λ e. e.paper_account_id == account && is_fee e.entry_type) db.entries),
  )

  -- The profit of the position at the quote; without a quote it counts as zero.
  unfoldable pub marked : Option (ExecutableQuote D) → D → ExecutionNetPosition D → D
  unfolding mark_price_for_position unrealized_pnl
  marked none point p = dec 0
  marked (some q) point p =
      unrealized_pnl p.side p.quantity (or_default p.average_entry_price (dec 0))
        (mark_price_for_position p.side q) point

  -- The position that is marked: open, and of a positive quantity.
  abbrev position_rows :
      Option (ExecutionNetPosition D)
      → Option (ExecutableQuote D)
      → D
      → List (BrokerPositionSnapshot D)
  position_rows none quote point = []
  position_rows (some p) quote point =
      if dec 0 <? p.quantity
      then record {
        deployment_id = p.deployment_id;
        side = p.side;
        quantity = p.quantity;
        average_entry_price = p.average_entry_price;
        unrealized_pnl = marked quote point p;
        mark_price = elim quote [ none ↦ none | some q ↦ some (mark_price_for_position p.side q) ];
      }
        ∷ []
      else []

  unfoldable pub total_unrealized : List (BrokerPositionSnapshot D) → D
  total_unrealized [] = dec 0
  total_unrealized (r ∷ rest) = dec 0 ⊕ r.unrealized_pnl

  -- Account, deployment, quote, point value and the instant.
  unfoldable pub account_snapshot :
      ℕ → ℕ → Option (ExecutableQuote D) → D → ℕ → Action D (BrokerAccountSnapshot D)
  unfolding ledger_totals marked total_unrealized
  account_snapshot account deployment quote point as_of = do
    db ← get_db
    acc ← or_raise (get_paper_account account db) not_found
    let rows = position_rows (get_open_net_position deployment db) quote point
    let unrealized = total_unrealized rows
    pure (record {
      account_id = account;
      cash_balance = acc.cash_balance;
      equity = acc.cash_balance ⊕ unrealized;
      unrealized_pnl = unrealized;
      realized_pnl = (ledger_totals account db).0;
      total_fees = (ledger_totals account db).1;
      positions = rows;
      as_of = as_of;
    })

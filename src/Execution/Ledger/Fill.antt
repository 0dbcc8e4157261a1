-- ===== src/Execution/Ledger/Fill.antt =====
-- `ExecutionLedger.apply_fill`, statement by statement.
pub mod Effects
pub mod Cases
pub mod Once
pub mod Cash
pub mod Steady
use q_backend.Prelude.{ℕ, Bool, true, false, Option, none, some, if◌then◌else◌}
use q_backend.Decimal.{Arith, ◌⊕◌, ◌⊖◌, ◌<?◌, ◌=?◌, dec, negate, or_default}
use q_backend.Execution.Domain.{ExecutionOrderStatus, PositionSide, LedgerEntryType, FillRecord}
use q_backend.Execution.Session.Rows.{PaperAccount, ExecutionFill, ExecutionNetPosition}
use q_backend.Execution.Session.Monad.{
  Action, not_found, one_position, ◌>>=◌, ◌>>◌, pure, get_db, or_raise,
}
use q_backend.Execution.Repositories.Orders.{no_change, transition_execution_order}
use q_backend.Execution.Repositories.Books.{
  get_paper_account, update_paper_cash_balance, get_execution_fill_by_external_id,
  create_execution_fill, get_open_net_position, upsert_open_net_position, append_ledger_entry,
}
use q_backend.Execution.Ledger.Position.{
  PositionTransition, transition_position, realized_pnl_for_close,
}

pub record LedgerApplyResult (D : Type 0) : Type 0 where
  pub fill_id : ℕ
  pub cash_balance : D
  pub realized_pnl : D
  pub fee : D
  pub position_side : PositionSide
  pub position_quantity : D
  pub average_entry_price : Option D
  pub idempotent : Bool

-- The keyword arguments of one `apply_fill` call.
pub record FillCall (D : Type 0) : Type 0 where
  pub paper_account_id : ℕ
  pub deployment_id : ℕ
  pub order_id : ℕ
  pub fill : FillRecord D
  pub point_value : D
  pub reconciling : Bool

module _ {D : Type 0} ⦃a : Arith D⦄ where
  -- The side, quantity and entry price of the open position, if there is one. A row that
  -- `get_open_net_position` returns is open, so the tests of `is_open` all pass.
  abbrev pub side_of : Option (ExecutionNetPosition D) → PositionSide
  side_of none = PositionSide.flat
  side_of (some p) = p.side

  abbrev pub quantity_of : Option (ExecutionNetPosition D) → D
  quantity_of none = dec 0
  quantity_of (some p) = p.quantity

  abbrev pub entry_of : Option (ExecutionNetPosition D) → Option D
  entry_of none = none
  entry_of (some p) = p.average_entry_price

  -- The profit that the transition realizes.
  unfoldable pub realized_by : PositionTransition D → Option D → FillCall D → D
  unfolding realized_pnl_for_close
  realized_by t entry c = elim t.closing_side [
    | none ↦ dec 0
    | some side ↦
        if dec 0 <? t.close_quantity
        then realized_pnl_for_close side t.close_quantity (or_default entry c.fill.price)
            c.fill.price c.point_value
        else dec 0
  ]

  unfoldable pub append_unless_zero :
      FillCall D → LedgerEntryType → D → D → D → ℕ → Action D (Unit {0})
  unfolding append_ledger_entry
  append_unless_zero c kind tested amount cash fill_id s =
      if tested =? dec 0
      then pure tt s
      else append_ledger_entry c.paper_account_id c.deployment_id kind amount cash (some fill_id) s

  unfoldable pub complete_order : FillCall D → Action D (Unit {0})
  unfolding transition_execution_order ◌>>=◌
  complete_order c s =
      if c.reconciling
      then transition_execution_order c.order_id ExecutionOrderStatus.filled
          (record no_change {
            submitted_at = some c.fill.filled_at;
            completed_at = some c.fill.filled_at;
          })
          s
      else (transition_execution_order c.order_id ExecutionOrderStatus.submitted
              (record no_change { submitted_at = some c.fill.filled_at })
            >> transition_execution_order c.order_id ExecutionOrderStatus.filled
                (record no_change { completed_at = some c.fill.filled_at }))
          s

  -- What `apply_fill` writes, once the transition is known.
  unfoldable pub write_fill :
      FillCall D → PaperAccount D → Option D → PositionTransition D → Action D (LedgerApplyResult D)
  write_fill c account entry t = do
    let realized = realized_by t entry c
    let cash = account.cash_balance ⊕ realized ⊖ c.fill.fee
    fill_id ← create_execution_fill c.deployment_id c.order_id c.fill
    append_unless_zero c LedgerEntryType.realized_pnl realized realized cash fill_id
    append_unless_zero c LedgerEntryType.fee c.fill.fee (negate c.fill.fee) cash fill_id
    update_paper_cash_balance c.paper_account_id cash
    upsert_open_net_position c.deployment_id t.new_side t.new_quantity t.new_average_entry_price
        c.fill.filled_at
    complete_order c
    pure (record {
      fill_id = fill_id;
      cash_balance = cash;
      realized_pnl = realized;
      fee = c.fill.fee;
      position_side = t.new_side;
      position_quantity = t.new_quantity;
      average_entry_price = t.new_average_entry_price;
      idempotent = false;
    })

  -- The answer to a fill that is already stored.
  abbrev repeated :
      ExecutionFill D → PaperAccount D → Option (ExecutionNetPosition D) → LedgerApplyResult D
  repeated existing account position = record {
    fill_id = existing.id;
    cash_balance = account.cash_balance;
    realized_pnl = dec 0;
    fee = existing.fill.fee;
    position_side = side_of position;
    position_quantity = quantity_of position;
    average_entry_price = entry_of position;
    idempotent = true;
  }

  unfoldable pub apply_new : FillCall D → Action D (LedgerApplyResult D)
  apply_new c = do
    db ← get_db
    account ← or_raise (get_paper_account c.paper_account_id db) not_found
    let position = get_open_net_position c.deployment_id db
    t ←
        or_raise
          (transition_position (side_of position) (quantity_of position) (entry_of position)
            c.fill.side c.fill.quantity c.fill.price)
          one_position
    write_fill c account (entry_of position) t

  pub dispatch : Option (ExecutionFill D) → FillCall D → Action D (LedgerApplyResult D)
  dispatch none c = apply_new c
  dispatch (some existing) c = do
    db ← get_db
    account ← or_raise (get_paper_account c.paper_account_id db) not_found
    pure (repeated existing account (get_open_net_position c.deployment_id db))

  unfoldable pub apply_fill : FillCall D → Action D (LedgerApplyResult D)
  unfolding dispatch
  apply_fill c = do
    db ← get_db
    dispatch (get_execution_fill_by_external_id c.fill.broker_mode c.fill.external_fill_id db) c

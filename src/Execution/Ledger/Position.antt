-- ===== src/Execution/Ledger/Position.antt =====
-- The arithmetic of one net position: marking, profit, and the transition that a fill makes.
pub mod Net
pub mod Close
use q_backend.Prelude.{Bool, true, false, Option, none, some, if◌then◌else◌}
use q_backend.Decimal.{Arith, ◌⊕◌, ◌⊖◌, ◌⊗◌, ◌⊘◌, ◌=?◌, dec, dec_min, or_default}
use q_backend.Execution.Domain.{ExecutionSide, PositionSide}
use q_backend.Execution.Broker.{ExecutableQuote}
use q_backend.Execution.Repositories.Books.{is_flat}

-- `LONG if order_side == BUY else SHORT`
abbrev pub opening_side_of : ExecutionSide → PositionSide
opening_side_of ExecutionSide.buy = PositionSide.long
opening_side_of ExecutionSide.sell = PositionSide.short

-- The tests `is_reducing` and `is_same_side_add`.
abbrev pub is_reducing : PositionSide → ExecutionSide → Bool
is_reducing PositionSide.long ExecutionSide.sell = true
is_reducing PositionSide.short ExecutionSide.buy = true
is_reducing _ _ = false

abbrev pub is_same_side_add : PositionSide → ExecutionSide → Bool
is_same_side_add PositionSide.long ExecutionSide.buy = true
is_same_side_add PositionSide.short ExecutionSide.sell = true
is_same_side_add _ _ = false

-- `_PositionTransition`
pub record PositionTransition (D : Type 0) : Type 0 where
  pub new_side : PositionSide
  pub new_quantity : D
  pub new_average_entry_price : Option D
  pub close_quantity : D
  pub closing_side : Option PositionSide
  pub open_quantity : D
  pub opening_side : Option PositionSide

module _ {D : Type 0} ⦃a : Arith D⦄ where
  unfoldable pub mark_price_for_position : PositionSide → ExecutableQuote D → D
  mark_price_for_position PositionSide.long q = q.bid
  mark_price_for_position PositionSide.short q = q.ask
  mark_price_for_position PositionSide.flat q = (q.bid ⊕ q.ask) ⊘ dec 2

  -- Side, quantity, entry price, mark price, point value.
  unfoldable pub unrealized_pnl : PositionSide → D → D → D → D → D
  unrealized_pnl PositionSide.long quantity entry mark point = (mark ⊖ entry) ⊗ quantity ⊗ point
  unrealized_pnl PositionSide.short quantity entry mark point = (entry ⊖ mark) ⊗ quantity ⊗ point
  unrealized_pnl PositionSide.flat quantity entry mark point = dec 0

  -- Closing side, quantity, entry price, exit price, point value.
  unfoldable pub realized_pnl_for_close : PositionSide → D → D → D → D → D
  realized_pnl_for_close PositionSide.long quantity entry exit point =
      (exit ⊖ entry) ⊗ quantity ⊗ point
  realized_pnl_for_close PositionSide.short quantity entry exit point =
      (entry ⊖ exit) ⊗ quantity ⊗ point
  realized_pnl_for_close PositionSide.flat quantity entry exit point = dec 0

  open_new : ExecutionSide → D → D → PositionTransition D
  open_new order_side order_quantity fill_price = record {
    new_side = opening_side_of order_side;
    new_quantity = order_quantity;
    new_average_entry_price = some fill_price;
    close_quantity = dec 0;
    closing_side = none;
    open_quantity = order_quantity;
    opening_side = some (opening_side_of order_side);
  }

  add_same_side : PositionSide → D → Option D → D → D → PositionTransition D
  add_same_side side quantity entry order_quantity fill_price =
      let new_qty = quantity ⊕ order_quantity in
      let base = or_default entry fill_price in
      record {
        new_side = side;
        new_quantity = new_qty;
        new_average_entry_price = some ((base ⊗ quantity ⊕ fill_price ⊗ order_quantity) ⊘ new_qty);
        close_quantity = dec 0;
        closing_side = none;
        open_quantity = order_quantity;
        opening_side = some side;
      }

  reduce : PositionSide → D → Option D → ExecutionSide → D → D → PositionTransition D
  reduce side quantity entry order_side order_quantity fill_price =
      let close_qty = dec_min quantity order_quantity in
      let remaining_order = order_quantity ⊖ close_qty in
      let new_qty = quantity ⊖ close_qty in
      if remaining_order =? dec 0
      then (if new_qty =? dec 0
          then record {
            new_side = PositionSide.flat;
            new_quantity = dec 0;
            new_average_entry_price = none;
            close_quantity = close_qty;
            closing_side = some side;
            open_quantity = dec 0;
            opening_side = none;
          }
          else record {
            new_side = side;
            new_quantity = new_qty;
            new_average_entry_price = some (or_default entry fill_price);
            close_quantity = close_qty;
            closing_side = some side;
            open_quantity = dec 0;
            opening_side = none;
          })
      else record {
        new_side = opening_side_of order_side;
        new_quantity = remaining_order;
        new_average_entry_price = some fill_price;
        close_quantity = close_qty;
        closing_side = some side;
        open_quantity = remaining_order;
        opening_side = some (opening_side_of order_side);
      }

  -- `_transition_position`; `none` is its `ValueError`, or the error of the division by `new_qty` where
  -- that is zero.
  unfoldable pub transition_position :
      PositionSide → D → Option D → ExecutionSide → D → D → Option (PositionTransition D)
  unfolding open_new add_same_side reduce
  transition_position side quantity entry order_side order_quantity fill_price =
      if is_flat side
      then some (open_new order_side order_quantity fill_price)
      else if quantity =? dec 0
      then some (open_new order_side order_quantity fill_price)
      else if is_same_side_add side order_side
      then (if quantity ⊕ order_quantity =? dec 0
          then none
          else some (add_same_side side quantity entry order_quantity fill_price))
      else if is_reducing side order_side
      then some (reduce side quantity entry order_side order_quantity fill_price)
      else none

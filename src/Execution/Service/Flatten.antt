-- ===== src/Execution/Service/Flatten.antt =====
-- The order of a close signal (execution/service.py, `map_signal_to_order`).
use q_backend.Prelude.{◌≡◌, true, Option, some, arith, subst}
use q_backend.Decimal.{Arith, Exact, ◌<?◌, dec}
use q_backend.Execution.Domain.{ExecutionSide, PositionSide, SignalAction}
use q_backend.Execution.Ledger.Position.{PositionTransition, transition_position, is_reducing}
use q_backend.Execution.Ledger.Position.Close.{IsClosed, transition_position-IsClosed}
use q_backend.Execution.Service.Call.{map_signal_to_order}

module _ {D : Type 0} ⦃a : Arith D⦄ where
  close_order :
      (side : PositionSide) (q : D) (requested : Option D) (os : ExecutionSide) (oq : D)
      → map_signal_to_order SignalAction.close side q requested ≡ some (os, oq)
      → (is_reducing side os ≡ true) × ((dec 0 <? q) ≡ true) × (oq ≡ q)
  unfolding map_signal_to_order
  close_order PositionSide.long q requested os oq h = ground arith
  close_order PositionSide.short q requested os oq h = ground arith
  close_order PositionSide.flat q requested os oq h = ground arith

  -- The order of a close signal closes the position that it was made for, where decimals are
  -- exact: filled at any price, it leaves a flat position without entry price and opens nothing,
  -- and the quantity it closes is the position's.
  pub map_signal_to_order-IsClosed :
      (x : Exact a) (side : PositionSide) (q : D) (requested entry : Option D) (os : ExecutionSide)
      (oq price : D) (t : PositionTransition D)
      → map_signal_to_order SignalAction.close side q requested ≡ some (os, oq)
      → transition_position side q entry os oq price ≡ some t
      → IsClosed side q t
  map_signal_to_order-IsClosed x side q requested entry os oq price t m h =
      let (reducing, held, whole) = close_order side q requested os oq m in
      transition_position-IsClosed x side os q entry price t reducing held
        (subst (λ n. transition_position side q entry os n price ≡ some t) whole h)

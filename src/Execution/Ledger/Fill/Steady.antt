-- ===== src/Execution/Ledger/Fill/Steady.antt =====
-- What a fill leaves alone, whether it is written or fails: the committed state and the decisions.
use q_backend.Prelude.{ℕ, ◌≡◌, ◌∙◌, Option, none, some, inl, inr, Bool-cases, arith, List}
use q_backend.Decimal.{Arith, ◌=?◌, dec}
use q_backend.Execution.Domain.{ExecutionOrderStatus, PositionSide, LedgerEntryType, FillRecord}
use q_backend.Execution.Session.Rows.{
  PaperAccount, ExecutionDecision, ExecutionFill, ExecutionNetPosition, Database, Session,
}
use q_backend.Execution.Session.Monad.{Action, ◌>>◌, get_db}
use q_backend.Execution.Session.Keeps.{Keeps, Keeps->>=, Keeps-or_raise}
use q_backend.Execution.Repositories.Orders.{OrderChange, no_change, transition_execution_order}
use q_backend.Execution.Repositories.Books.{
  update_paper_cash_balance, create_execution_fill, get_open_net_position, append_ledger_entry,
  upserted, upsert_open_net_position,
}
use q_backend.Execution.Ledger.Position.{PositionTransition}
use q_backend.Execution.Ledger.Fill.{
  FillCall, append_unless_zero, complete_order, write_fill, apply_new, dispatch, apply_fill,
}

module _ {D : Type 0} where
  -- The committed state and the decisions are these.
  pub record IsSteady (k : Database D) (l : List (ExecutionDecision D)) (s : Session D)
      : Type 0 where
    pub committed : s.committed ≡ k
    pub decisions : s.db.decisions ≡ l

  -- An action that keeps both, in every session.
  abbrev pub Steady : {A : Type 0} → Action D A → Type 0
  Steady m = (k : Database D) (l : List (ExecutionDecision D)) → Keeps (IsSteady k l) m

  pub transition_execution_order-Steady :
      (i : ℕ) (target : ExecutionOrderStatus) (c : OrderChange)
      → Steady (transition_execution_order i target c)
  unfolding transition_execution_order
  transition_execution_order-Steady i target c k l s p = ground arith

  cash-Steady : (i : ℕ) (cash : D) → Steady (update_paper_cash_balance i cash)
  unfolding update_paper_cash_balance
  cash-Steady i cash k l s p = ground arith

  create-Steady : (i o : ℕ) (fill : FillRecord D) → Steady (create_execution_fill i o fill)
  unfolding create_execution_fill
  create-Steady i o fill k l s p = ground arith

  append-Steady :
      (account i : ℕ) (kind : LedgerEntryType) (amount balance : D) (fill : Option ℕ)
      → Steady (append_ledger_entry account i kind amount balance fill)
  unfolding append_ledger_entry
  append-Steady account i kind amount balance fill k l s p = ground arith

module _ {D : Type 0} ⦃a : Arith D⦄ where
  upserted-decisions :
      (i : ℕ) (side : PositionSide) (quantity : D) (entry : Option D) (now : ℕ)
      (o : Option (ExecutionNetPosition D)) (d : Database D)
      → (upserted i side quantity entry now o d).decisions ≡ d.decisions
  unfolding upserted
  upserted-decisions i side quantity entry now none d = ground arith
  upserted-decisions i side quantity entry now (some p) d = ground arith

  upsert-Steady :
      (i : ℕ) (side : PositionSide) (quantity : D) (entry : Option D) (now : ℕ)
      → Steady (upsert_open_net_position i side quantity entry now)
  unfolding upsert_open_net_position
  upsert-Steady i side quantity entry now k l s p = record {
    committed = p.committed;
    decisions =
        upserted-decisions i side quantity entry now (get_open_net_position i s.db) s.db
        ∙ p.decisions;
  }

  unless-Steady :
      (c : FillCall D) (kind : LedgerEntryType) (tested amount cash : D) (fill : ℕ)
      → Steady (append_unless_zero c kind tested amount cash fill)
  unfolding append_unless_zero
  unless-Steady c kind tested amount cash fill k l s p = elim (Bool-cases (tested =? dec 0)) [
    | inl zero ↦ rw zero p
    | inr other ↦
        rw other
          (append-Steady c.paper_account_id c.deployment_id kind amount cash (some fill) k l s p)
  ]

  twice-Steady :
      (i : ℕ) (t t' : ExecutionOrderStatus) (c c' : OrderChange)
      → Steady {D = D} (transition_execution_order i t c >> transition_execution_order i t' c')
  twice-Steady i t t' c c' k l =
      Keeps->>= (IsSteady k l) (transition_execution_order i t c) _
        (transition_execution_order-Steady i t c k l)
        (λ u. transition_execution_order-Steady i t' c' k l)

  complete-Steady : (c : FillCall D) → Steady (complete_order c)
  unfolding complete_order
  complete-Steady c k l s p =
      let at = some c.fill.filled_at in
      elim (Bool-cases c.reconciling) [
        | inl late ↦ rw late (
            transition_execution_order-Steady c.order_id ExecutionOrderStatus.filled
              (record no_change { submitted_at = at; completed_at = at }) k l s p)
        | inr early ↦ rw early (
            twice-Steady c.order_id ExecutionOrderStatus.submitted ExecutionOrderStatus.filled
              (record no_change { submitted_at = at }) (record no_change { completed_at = at }) k l
              s p)
      ]

  write-Steady :
      (c : FillCall D) (account : PaperAccount D) (entry : Option D) (t : PositionTransition D)
      → Steady (write_fill c account entry t)
  unfolding write_fill
  write-Steady c account entry t k l =
      let P = IsSteady k l in
      Keeps->>= P _ _ (create-Steady _ _ _ k l) (λ fill.
        Keeps->>= P _ _ (unless-Steady c _ _ _ _ fill k l) (λ u1.
          Keeps->>= P _ _ (unless-Steady c _ _ _ _ fill k l) (λ u2.
            Keeps->>= P _ _ (cash-Steady _ _ k l) (λ u3.
              Keeps->>= P _ _ (upsert-Steady _ _ _ _ _ k l)
                (λ u4. Keeps->>= P _ _ (complete-Steady c k l) (λ u5 s p. p))))))

  apply_new-Steady : (c : FillCall D) → Steady (apply_new c)
  unfolding apply_new
  apply_new-Steady c k l =
      let P = IsSteady k l in
      Keeps->>= P get_db _ (λ s p. p)
        (λ db.
          Keeps->>= P _ _ (Keeps-or_raise P _ _)
            (λ acc. Keeps->>= P _ _ (Keeps-or_raise P _ _) (λ t. write-Steady c acc _ t k l)))

  dispatch-Steady : (o : Option (ExecutionFill D)) (c : FillCall D) → Steady (dispatch o c)
  unfolding dispatch
  dispatch-Steady none c k l = apply_new-Steady c k l
  dispatch-Steady (some existing) c k l =
      let P = IsSteady k l in
      Keeps->>= P get_db _ (λ s p. p) (λ db. Keeps->>= P _ _ (Keeps-or_raise P _ _) (λ acc s p. p))

  -- A fill, written or failed, changes neither the committed state nor a decision.
  pub apply_fill-Steady : (c : FillCall D) → Steady (apply_fill c)
  unfolding apply_fill
  apply_fill-Steady c k l =
      Keeps->>= (IsSteady k l) get_db _ (λ s p. p) (λ db. dispatch-Steady _ c k l)

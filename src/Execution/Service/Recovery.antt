-- ===== src/Execution/Service/Recovery.antt =====
-- The `try` around the persistence of a fill: it is stored in full, or undone.
use q_backend.Prelude.{
  ℕ, Bool, ◌≡◌, ◌⊎◌, inl, inr, refl, sym, ◌∙◌, ap, true, false, some, update, find, arith,
}
use q_backend.Decimal.{Arith}
use q_backend.Execution.Domain.{
  DecisionOutcome, ExecutionOrderStatus, FillRecord, validate_order_transition,
}
use q_backend.Execution.Session.Rows.{Database, ExecutionDecision, ExecutionOrder, Session}
use q_backend.Execution.Session.Monad.{
  Action, Error, Result, ok, err, ◌>>=◌, >>=-ok, >>=-err, proceed, rollback, raise, raise_if, crash,
}
use q_backend.Execution.Repositories.Deployments.{
  decision_is, update_execution_decision_outcome, update_deployment_last_bar_close,
}
use q_backend.Execution.Repositories.Orders.{
  order_is, get_execution_order, with_status, pending_change,
}
use q_backend.Execution.Repositories.Steps.{
  with_order, transition_execution_order-eq, update_execution_decision_outcome-eq,
}
use q_backend.Execution.Ledger.Fill.{LedgerApplyResult, apply_fill}
use q_backend.Execution.Ledger.Fill.Steady.{apply_fill-Steady}
use q_backend.Execution.Service.Call.{Checkpoint, ExecutionService, BarCall}
use q_backend.Execution.Service.Submit.{
  maybe_raise, close_bar, bar_result, bar_fill_call, persist_fill, mark_unknown, after_try, try_or,
  settle_filled,
}

module _ {D : Type 0} where
  -- The state `k` with the order UNKNOWN and PENDING and its decision ORDER_UNKNOWN.
  abbrev pub unsettled : ℕ → ℕ → Database D → Database D
  unsettled decision order k = record k {
    orders =
        update (order_is order) (with_status ExecutionOrderStatus.unknown pending_change) k.orders;
    decisions =
        update (decision_is decision) (λ r. record r { outcome = DecisionOutcome.order_unknown })
          k.decisions;
  }

  mark_unknown-eq :
      (decision order : ℕ) (t : Session D) (k : Database D) (o : ExecutionOrder D)
      (d : ExecutionDecision D)
      → t.committed ≡ k
      → get_execution_order order k ≡ some o
      → o.status ≡ ExecutionOrderStatus.intent
      → find (decision_is decision) k.decisions ≡ some d
      → mark_unknown decision order t ≡ (
        ok tt,
        record t { db = unsettled decision order k; committed = unsettled decision order k },
      )
  unfolding mark_unknown validate_order_transition
  mark_unknown-eq decision order t k o d e found fresh decided =
      let u = record t { db = k; committed = k } in
      let v = with_order order (with_status ExecutionOrderStatus.unknown pending_change) u in
      >>=-ok rollback _ {s = t} {t = u} (rw e refl)
      ∙ >>=-ok _ _ (
          transition_execution_order-eq order ExecutionOrderStatus.unknown pending_change u o found
            (rw fresh refl))
      ∙ >>=-ok _ _
          (update_execution_decision_outcome-eq decision DecisionOutcome.order_unknown v d decided)

  -- An action that returns ends in `Q`, one that raises is still in `P`.
  abbrev Ends :
      {A : Type 0} → (Session D → Type 0) → (A → Session D → Type 0) → Result A × Session D → Type 0
  Ends P Q (ok x, s) = Q x s
  Ends P Q (err e, s) = P s

  Ends->>= :
      {A B : Type 0} (P : Session D → Type 0) (R : A → Session D → Type 0)
      (Q : B → Session D → Type 0) (m : Action D A) (f : A → Action D B) (s : Session D)
      → Ends P R (m s)
      → ((x : A) (t : Session D) → R x t → Ends P Q (f x t))
      → Ends P Q ((m >>= f) s)
  unfolding ◌>>=◌
  Ends->>= {A} {B} P R Q m f s h next = go (m s) h
    where
      go : (r : Result A × Session D) → Ends P R r → Ends P Q (proceed f r)
      go (ok x, t) h = next x t h
      go (err e, t) h = h

  -- The end of an action, with the equation that says so.
  Ends-eq :
      {A : Type 0} (P : Session D → Type 0) (Q : A → Session D → Type 0) (m : Action D A)
      (s : Session D)
      → Ends P Q (m s)
      → Ends P (λ x t. (m s ≡ (ok x, t)) × Q x t) (m s)
  Ends-eq {A} P Q m s h = go (m s) refl h
    where
      go :
          (r : Result A × Session D)
          → m s ≡ r
          → Ends P Q r
          → Ends P (λ x t. (m s ≡ (ok x, t)) × Q x t) r
      go (ok x, t) e h = (e, h)
      go (err f, t) e h = h

  Ends-map :
      {A : Type 0} (P : Session D → Type 0) (Q R : A → Session D → Type 0)
      (r : Result A × Session D)
      → ((x : A) (t : Session D) → Q x t → R x t)
      → Ends P Q r
      → Ends P R r
  Ends-map P Q R (ok x, t) f h = f x t h
  Ends-map P Q R (err e, t) f h = h

  -- An action that leaves the committed state alone, however it ends.
  Ends-same :
      {A : Type 0} (m : Action D A) (k : Database D) (s : Session D)
      → (m s).1.committed ≡ k
      → Ends (λ t. t.committed ≡ k) (λ x t. t.committed ≡ k) (m s)
  Ends-same {A} m k s h = go (m s) h
    where
      go :
          (r : Result A × Session D)
          → r.1.committed ≡ k
          → Ends (λ t. t.committed ≡ k) (λ x t. t.committed ≡ k) r
      go (ok x, t) h = h
      go (err e, t) h = h

  outcome_same :
      (i : ℕ) (outcome : DecisionOutcome) (s : Session D)
      → (update_execution_decision_outcome i outcome s).1.committed ≡ s.committed
  unfolding update_execution_decision_outcome
  outcome_same i outcome s = ground arith

  bar_same :
      (i bar : ℕ) (s : Session D)
      → (update_deployment_last_bar_close i bar s).1.committed ≡ s.committed
  unfolding update_deployment_last_bar_close
  bar_same i bar s = ground arith

  close_bar-Ends :
      (c : BarCall D) (decision : ℕ) (outcome : DecisionOutcome) (k : Database D) (s : Session D)
      → s.committed ≡ k
      → Ends (λ t. t.committed ≡ k) (λ x t. t.committed ≡ t.db) (close_bar c decision outcome s)
  unfolding close_bar
  close_bar-Ends c decision outcome k s h =
      let P = λ (t : Session D). t.committed ≡ k in
      Ends->>= P (λ x. P) (λ x t. t.committed ≡ t.db) _ _ s
        (Ends-same (update_execution_decision_outcome decision outcome) k s
          (outcome_same decision outcome s ∙ h))
        (λ x t p.
          Ends->>= P (λ x. P) (λ x t. t.committed ≡ t.db) _ _ t
            (Ends-same
              (update_deployment_last_bar_close c.deployment.id c.eval_result.bar_close_time) k t
              (bar_same c.deployment.id c.eval_result.bar_close_time t ∙ p))
            (λ y u q. refl))

module _ {D : Type 0} ⦃a : Arith D⦄ where
  -- The fill was applied, the bar closed over it, and the result committed.
  pub record IsStored (c : BarCall D) (account decision order : ℕ) (fill : FillRecord D)
      (s t : Session D) : Type 0 where
    pub answer : LedgerApplyResult D
    pub applied_in : Session D
    pub applied : apply_fill (bar_fill_call c account order fill) s ≡ (ok answer, applied_in)
    pub closed : close_bar c decision DecisionOutcome.order_filled applied_in ≡ (ok tt, t)
    pub committed : t.committed ≡ t.db

  persist_fill-Ends :
      (service : ExecutionService D) (c : BarCall D) (account decision order : ℕ)
      (fill : FillRecord D) (s : Session D)
      → Ends
          (λ t. t.committed ≡ s.committed)
          (λ x. IsStored c account decision order fill s)
          (persist_fill service c account decision order fill s)
  unfolding persist_fill maybe_raise
  persist_fill-Ends service c account decision order fill s =
      let P = λ (t : Session D). t.committed ≡ s.committed in
      let Q = λ (x : Unit {0}). IsStored c account decision order fill s in
      let call = bar_fill_call c account order fill in
      let kept =
        apply_fill-Steady call s.committed s.db.decisions s
          (record { committed = refl; decisions = refl }) in
      Ends->>= P (λ x t. (apply_fill call s ≡ (ok x, t)) × P t) Q _ _ s
        (Ends-eq P (λ x. P) (apply_fill call) s
          (Ends-same (apply_fill call) s.committed s kept.committed))
        (λ x t p.
          Ends->>= P (λ y u. t ≡ u) Q _ _ t
            (raise_end (service.crashes Checkpoint.before_fill_commit) t p.1)
            (λ y u e. stored x t u p e))
    where
      raise_end :
          (b : Bool) (t : Session D)
          → t.committed ≡ s.committed
          → Ends (λ u. u.committed ≡ s.committed) (λ y u. t ≡ u) (raise_if b crash t)
      raise_end true t p = p
      raise_end false t p = refl

      stored :
          (x : LedgerApplyResult D) (t u : Session D)
          → (apply_fill (bar_fill_call c account order fill) s ≡ (ok x, t))
            × (t.committed ≡ s.committed)
          → t ≡ u
          → Ends
              (λ u. u.committed ≡ s.committed)
              (λ x. IsStored c account decision order fill s)
              (close_bar c decision DecisionOutcome.order_filled u)
      stored x t u p e =
          let P = λ (v : Session D). v.committed ≡ s.committed in
          let close = close_bar c decision DecisionOutcome.order_filled in
          Ends-map P _ _ (close u)
            (λ y v q. record {
              answer = x;
              applied_in = u;
              applied = rw (← e) p.0;
              closed = q.0;
              committed = q.1;
            })
            (Ends-eq P (λ y v. v.committed ≡ v.db) close u
              (close_bar-Ends c decision DecisionOutcome.order_filled s.committed u
                (ap (λ (v : Session D). v.committed) (sym e) ∙ p.1)))

  -- The two ends of `settle_filled`: the fill stored, or the fill undone.
  abbrev pub Atomic : ExecutionService D → BarCall D → ℕ → ℕ → ℕ → FillRecord D → Session D → Type 0
  Atomic service c account decision order fill s =
      ((t : Session D) × (settle_filled service c account decision order fill s
          ≡ (ok (bar_result c (some decision) DecisionOutcome.order_filled (some order)), t))
        × IsStored c account decision order fill s t)
      ⊎ ((e : Error) × (t : Session D) × (settle_filled service c account decision order fill s
            ≡ (err e, t))
          × (t.db ≡ unsettled decision order s.committed)
          × (t.committed ≡ unsettled decision order s.committed))

  -- A fill is persisted in full or not at all. For an order whose intent is committed, and its
  -- decision with it, either the call returns ORDER_FILLED and the state, which is committed, is
  -- the one that `apply_fill` and the closing of the bar led to; or, whatever raised on the way,
  -- the same call raises and the state, committed as well, is the one committed before but for the
  -- order, UNKNOWN and PENDING, and its decision, ORDER_UNKNOWN.
  pub settle_filled-Atomic :
      (service : ExecutionService D) (c : BarCall D) (account decision order : ℕ)
      (fill : FillRecord D) (s : Session D) (o : ExecutionOrder D) (d : ExecutionDecision D)
      → get_execution_order order s.committed ≡ some o
      → o.status ≡ ExecutionOrderStatus.intent
      → find (decision_is decision) s.committed.decisions ≡ some d
      → Atomic service c account decision order fill s
  unfolding settle_filled try_or
  settle_filled-Atomic service c account decision order fill s o d found fresh decided =
      go (persist_fill service c account decision order fill s) refl
        (persist_fill-Ends service c account decision order fill s)
    where
      go :
          (r : Result (Unit {0}) × Session D)
          → persist_fill service c account decision order fill s ≡ r
          → Ends (λ t. t.committed ≡ s.committed) (λ x. IsStored c account decision order fill s) r
          → Atomic service c account decision order fill s
      go (ok x, t) e h = inl (t, >>=-ok _ _ (ap (after_try (mark_unknown decision order)) e), h)
      go (err f, t) e h =
          let k = unsettled decision order s.committed in
          let w = record t { db = k; committed = k } in
          inr (
            f,
            w,
            >>=-err _ _ (
                ap (after_try (mark_unknown decision order)) e
                ∙ ap (proceed (λ (x : Unit {0}). raise f))
                    (mark_unknown-eq decision order t s.committed o d h found fresh decided)),
            refl,
            refl,
          )

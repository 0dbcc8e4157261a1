-- ===== src/Execution/Service/Once/Kept.antt =====
-- What the single calls leave of a stored decision (execution/service.py).
use q_backend.Prelude.{ℕ, ◌≡◌, refl, ◌∙◌, true, Option, List, arith, any, any-update}
use q_backend.Execution.Domain.{
  BrokerMode, DecisionOutcome, ExecutionOrderStatus, ExecutionSide, RiskRejectionCode,
}
use q_backend.Execution.Session.Rows.{Database, ExecutionDecision, Session}
use q_backend.Execution.Session.Monad.{
  Action, Result, Error, ok, err, commit, rollback, raise, proceed,
}
use q_backend.Execution.Session.Keeps.{Keeps, Keeps->>=, Settles, Settles->>=}
use q_backend.Execution.Repositories.Deployments.{
  decision_is, decision_for, update_execution_decision_outcome, update_deployment_last_bar_close,
  get_execution_control_state, record_risk_event,
}
use q_backend.Execution.Repositories.Orders.{
  create_execution_order_intent, pending_change, transition_execution_order,
}
use q_backend.Execution.Ledger.Fill.Steady.{Steady, transition_execution_order-Steady}
use q_backend.Execution.Service.Call.{Checkpoint, ExecutionService, BarCall}
use q_backend.Execution.Service.Submit.{maybe_raise, close_bar, mark_unknown, after_try, try_or}

module _ {D : Type 0} where
  -- A session that opens on the committed state `k` at the time `now`.
  abbrev pub opened : ℕ → Database D → Session D
  opened now k = record { db = k; committed = k; now = now }

  -- A decision of this deployment and bar is among the rows.
  abbrev pub Decided : ℕ → ℕ → List (ExecutionDecision D) → Type 0
  Decided i bar l = any (decision_for i bar) l ≡ true

  -- It is among the rows of both the session and the committed state.
  abbrev pub Safe : ℕ → ℕ → Session D → Type 0
  Safe i bar s = Decided i bar s.db.decisions × Decided i bar s.committed.decisions

  pub Steady-Keeps :
      {A : Type 0} (m : Action D A) (F : List (ExecutionDecision D) → Database D → Type 0)
      → Steady m
      → Keeps (λ s. F s.db.decisions s.committed) m
  Steady-Keeps m F h s p =
      let e = h s.committed s.db.decisions s (record { committed = refl; decisions = refl }) in
      rw (e.committed, e.decisions) p

  pub bar-Steady : (i bar : ℕ) → Steady {D = D} (update_deployment_last_bar_close i bar)
  unfolding update_deployment_last_bar_close
  bar-Steady i bar k l s p = ground arith

  pub intent-Steady :
      (i : ℕ) (decision : Option ℕ) (mode : BrokerMode) (side : ExecutionSide) (q : D)
      → Steady (create_execution_order_intent i decision mode side q)
  unfolding create_execution_order_intent
  intent-Steady i decision mode side q k l s p = ground arith

  pub control-Steady : Steady {D = D} get_execution_control_state
  unfolding get_execution_control_state
  control-Steady k l s p = ground arith

  pub event-Steady :
      (i : ℕ) (code : RiskRejectionCode) (decision : Option ℕ)
      → Steady {D = D} (record_risk_event i code decision)
  unfolding record_risk_event
  event-Steady i code decision k l s p = ground arith

  pub maybe_raise-Steady :
      (service : ExecutionService D) (point : Checkpoint) → Steady (maybe_raise service point)
  unfolding maybe_raise
  maybe_raise-Steady service point k l s p = p

  -- The outcome of a decision may change: it stays the decision of its bar.
  pub outcome_db :
      (i bar n : ℕ) (outcome : DecisionOutcome) (s : Session D)
      → any (decision_for i bar) (update_execution_decision_outcome n outcome s).1.db.decisions
        ≡ any (decision_for i bar) s.db.decisions
  unfolding update_execution_decision_outcome
  outcome_db i bar n outcome s = ground (
    arith,
    any-update (decision_for i bar) (decision_is n)
        (λ (r : ExecutionDecision D). record r { outcome = outcome }) s.db.decisions (λ y. refl),
  )

  pub outcome_committed :
      (n : ℕ) (outcome : DecisionOutcome) (s : Session D)
      → (update_execution_decision_outcome n outcome s).1.committed ≡ s.committed
  unfolding update_execution_decision_outcome
  outcome_committed n outcome s = ground arith

  module _ (i bar : ℕ) where
    pub outcome-Safe :
        (n : ℕ) (outcome : DecisionOutcome)
        → Keeps (Safe i bar) (update_execution_decision_outcome n outcome)
    outcome-Safe n outcome s p =
        (outcome_db i bar n outcome s ∙ p.0, rw (outcome_committed n outcome s) p.1)

    pub Steady-Safe : {A : Type 0} (m : Action D A) → Steady m → Keeps (Safe i bar) m
    Steady-Safe m = Steady-Keeps m (λ l k. Decided i bar l × Decided i bar k.decisions)

    pub close_bar-Safe :
        (c : BarCall D) (n : ℕ) (outcome : DecisionOutcome)
        → Keeps (Safe i bar) (close_bar c n outcome)
    unfolding close_bar
    close_bar-Safe c n outcome =
        let P = Safe i bar in
        Keeps->>= P _ _ (outcome-Safe n outcome) (λ u.
          Keeps->>= P _ _
            (Steady-Safe
              (update_deployment_last_bar_close c.deployment.id c.eval_result.bar_close_time)
              (bar-Steady _ _))
            (λ v s p. (p.0, p.0)))

    pub mark_unknown-Safe : (n order : ℕ) → Keeps (Safe i bar) (mark_unknown n order)
    unfolding mark_unknown
    mark_unknown-Safe n order =
        let P = Safe i bar in
        Keeps->>= P rollback _ (λ s p. (p.1, p.1))
          (λ u.
            Keeps->>= P _ _
              (Steady-Safe
                (transition_execution_order order ExecutionOrderStatus.unknown pending_change)
                (transition_execution_order-Steady _ _ _))
              (λ v. Keeps->>= P _ _ (outcome-Safe n _) (λ w s p. (p.0, p.0))))

    pub try-Safe :
        {A : Type 0} (m : Action D A) (h : Action D (Unit {0}))
        → Keeps (Safe i bar) m
        → Keeps (Safe i bar) h
        → Keeps (Safe i bar) (try_or m h)
    unfolding try_or
    try-Safe {A} m h km kh s p = go (m s) (km s p)
      where
        raised :
            (e : Error) (r : Result (Unit {0}) × Session D)
            → Safe i bar r.1
            → Safe i bar (proceed (λ (x : Unit {0}). raise {A = A} e) r).1
        raised e (ok x, t) q = q
        raised e (err f, t) q = q

        go : (r : Result A × Session D) → Safe i bar r.1 → Safe i bar (after_try h r).1
        go (ok x, t) q = q
        go (err e, t) q = raised e (h t) (kh t q)

    -- Among the rows of the session, while `W` holds of the decisions that are committed.
    module _ (W : List (ExecutionDecision D) → Type 0)
        (weaken : (l : List (ExecutionDecision D)) → Decided i bar l → W l) where
      abbrev pub Held : Session D → Type 0
      Held s = Decided i bar s.db.decisions × W s.committed.decisions

      pub weaker : (s : Session D) → Safe i bar s → Held s
      weaker s p = (p.0, weaken s.committed.decisions p.1)

      pub outcome-Held :
          (n : ℕ) (outcome : DecisionOutcome)
          → Keeps Held (update_execution_decision_outcome n outcome)
      outcome-Held n outcome s p =
          (outcome_db i bar n outcome s ∙ p.0, rw (outcome_committed n outcome s) p.1)

      pub Steady-Held : {A : Type 0} (m : Action D A) → Steady m → Keeps Held m
      Steady-Held m = Steady-Keeps m (λ l k. Decided i bar l × W k.decisions)

      -- A commit makes it safe.
      pub commit-Settles : Settles Held (Safe i bar) commit
      commit-Settles s p = (p.0, p.0)

      pub close_bar-Settles :
          (c : BarCall D) (n : ℕ) (outcome : DecisionOutcome)
          → Settles Held (Safe i bar) (close_bar c n outcome)
      unfolding close_bar
      close_bar-Settles c n outcome =
          let S = Safe i bar in
          Settles->>= Held S _ _ (outcome-Held n outcome) (λ u.
            Settles->>= Held S _ _
              (Steady-Held
                (update_deployment_last_bar_close c.deployment.id c.eval_result.bar_close_time)
                (bar-Steady _ _))
              (λ v. commit-Settles))

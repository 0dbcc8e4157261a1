-- ===== src/Execution/Service/Once/Branches.antt =====
-- What the branches of `process_completed_bar` leave of a stored decision.
use q_backend.Prelude.{List, ℕ, ◌≡◌, refl, Option, none, some}
use q_backend.Decimal.{Arith}
use q_backend.Execution.Domain.{
  DecisionOutcome, ExecutionOrderStatus, ExecutionSide, FillRecord, RiskRejectionCode,
}
use q_backend.Execution.Broker.{ExecutableQuote, BrokerSubmissionOutcome, BrokerSubmissionResult}
use q_backend.Execution.Session.Monad.{Action, ◌>>◌, get_db, get_now, commit}
use q_backend.Execution.Session.Keeps.{
  Keeps, Keeps->>=, Keeps-or_raise, Settles, Settles->>=, Settles-then, Settles-if,
}
use q_backend.Execution.Session.Rows.{ExecutionDecision, Session}
use q_backend.Execution.Repositories.Deployments.{
  update_execution_decision_outcome, update_deployment_last_bar_close, get_execution_control_state,
  record_risk_event,
}
use q_backend.Execution.Repositories.Orders.{
  create_execution_order_intent, no_change, pending_change, transition_execution_order,
}
use q_backend.Execution.Ledger.Fill.{apply_fill}
use q_backend.Execution.Ledger.Fill.Steady.{
  Steady, IsSteady, apply_fill-Steady, transition_execution_order-Steady,
}
use q_backend.Execution.Ledger.Snapshot.{account_snapshot}
use q_backend.Execution.Service.Call.{Checkpoint, ExecutionService, BarCall}
use q_backend.Execution.Service.Submit.{
  close_bar, maybe_raise, persist_fill, mark_unknown, bar_fill_call, settle_filled, settle_unknown,
  settle_rejected, settle_submission, submit_order,
}
use q_backend.Execution.Service.Bar.{
  act_on, act_on_mapped, close_held, hold_bar, judge_order, record_rejection,
}
use q_backend.Execution.Service.Once.Kept.{
  Decided, Safe, Held, weaker, Steady-Held, commit-Settles, close_bar-Settles, outcome-Held,
  bar-Steady, intent-Steady, control-Steady, event-Steady, maybe_raise-Steady, Steady-Safe,
  close_bar-Safe, mark_unknown-Safe, try-Safe,
}

module _ {D : Type 0} ⦃a : Arith D⦄ where
  pub snapshot-Steady :
      (i n : ℕ) (quote : Option (ExecutableQuote D)) (point : D) (now : ℕ)
      → Steady (account_snapshot i n quote point now)
  unfolding account_snapshot
  snapshot-Steady i n quote point now k l =
      let P = IsSteady k l in
      Keeps->>= P get_db _ (λ s p. p) (λ db. Keeps->>= P _ _ (Keeps-or_raise P _ _) (λ x s p. p))

  module _ (i bar : ℕ) where
    pub persist-Safe :
        (service : ExecutionService D) (c : BarCall D) (account n order : ℕ) (fill : FillRecord D)
        → Keeps (Safe i bar) (persist_fill service c account n order fill)
    unfolding persist_fill
    persist-Safe service c account n order fill =
        let P = Safe i bar in
        Keeps->>= P _ _
          (Steady-Safe i bar (apply_fill (bar_fill_call c account order fill))
            (apply_fill-Steady _))
          (λ x.
            Keeps->>= P _ _
              (Steady-Safe i bar (maybe_raise service Checkpoint.before_fill_commit)
                (maybe_raise-Steady service _))
              (λ u. close_bar-Safe i bar c n DecisionOutcome.order_filled))

    pub unknown-Safe :
        (c : BarCall D) (n order : ℕ) (external : Option ℕ)
        → Keeps (Safe i bar) (settle_unknown c n order external)
    unfolding settle_unknown
    unknown-Safe c n order external =
        let P = Safe i bar in
        Keeps->>= P _ _
          (Steady-Safe i bar
            (transition_execution_order order ExecutionOrderStatus.unknown
              (record pending_change { external_order_id = external }))
            (transition_execution_order-Steady _ _ _))
          (λ u.
            Keeps->>= P _ _ (close_bar-Safe i bar c n DecisionOutcome.order_unknown) (λ v s p. p))

    pub rejected-Safe :
        (c : BarCall D) (n order now : ℕ) → Keeps (Safe i bar) (settle_rejected c n order now)
    unfolding settle_rejected
    rejected-Safe c n order now =
        let P = Safe i bar in
        Keeps->>= P _ _
          (Steady-Safe i bar
            (transition_execution_order order ExecutionOrderStatus.rejected
              (record no_change { completed_at = some now }))
            (transition_execution_order-Steady _ _ _))
          (λ u.
            Keeps->>= P _ _ (close_bar-Safe i bar c n DecisionOutcome.order_rejected) (λ v s p. p))

    pub filled-Safe :
        (service : ExecutionService D) (c : BarCall D) (account n order : ℕ) (fill : FillRecord D)
        → Keeps (Safe i bar) (settle_filled service c account n order fill)
    unfolding settle_filled
    filled-Safe service c account n order fill =
        let P = Safe i bar in
        Keeps->>= P _ _
          (try-Safe i bar (persist_fill service c account n order fill) (mark_unknown n order)
            (persist-Safe service c account n order fill) (mark_unknown-Safe i bar n order))
          (λ u s p. p)

    pub submission-Safe :
        (service : ExecutionService D) (c : BarCall D) (account n order now : ℕ)
        (r : BrokerSubmissionResult D)
        → Keeps (Safe i bar) (settle_submission service c account n order now r)
    unfolding settle_submission
    submission-Safe service c account n order now r = go r.outcome r.fill refl refl
      where
        go :
            (b : BrokerSubmissionOutcome) (f : Option (FillRecord D))
            → r.outcome ≡ b
            → r.fill ≡ f
            → Keeps (Safe i bar) (settle_submission service c account n order now r)
        go BrokerSubmissionOutcome.unknown f e e' =
            rw e (unknown-Safe c n order r.external_order_id)
        go BrokerSubmissionOutcome.rejected f e e' = rw e (rejected-Safe c n order now)
        go BrokerSubmissionOutcome.filled none e e' = rw (e, e') (rejected-Safe c n order now)
        go BrokerSubmissionOutcome.filled (some fill) e e' =
            rw (e, e') (filled-Safe service c account n order fill)

    module _ (W : List (ExecutionDecision D) → Type 0)
        (weaken : (l : List (ExecutionDecision D)) → Decided i bar l → W l) where
      abbrev P : Session D → Type 0
      P = Held i bar W weaken

      abbrev S : Session D → Type 0
      S = Safe i bar

      lower : (s : Session D) → S s → P s
      lower = weaker i bar W weaken

      steady : {A : Type 0} (m : Action D A) → Steady m → Keeps P m
      steady = Steady-Held i bar W weaken

      closing :
          (c : BarCall D) (n : ℕ) (outcome : DecisionOutcome) → Settles P S (close_bar c n outcome)
      closing = close_bar-Settles i bar W weaken

      -- What follows the commit of an order's intent.
      sent-Safe :
          (service : ExecutionService D) (c : BarCall D) (account n order now : ℕ)
          (r : BrokerSubmissionResult D)
          → Keeps S (
              maybe_raise service Checkpoint.after_intent_commit
              >> (maybe_raise service Checkpoint.after_broker_response
                  >> settle_submission service c account n order now r))
      sent-Safe service c account n order now r =
          Keeps->>= S _ _
            (Steady-Safe i bar (maybe_raise service Checkpoint.after_intent_commit)
              (maybe_raise-Steady service _))
            (λ v.
              Keeps->>= S _ _
                (Steady-Safe i bar (maybe_raise service Checkpoint.after_broker_response)
                  (maybe_raise-Steady service _))
                (λ w. submission-Safe service c account n order now r))

      submit-Settles :
          (service : ExecutionService D) (c : BarCall D) (account n : ℕ) (side : ExecutionSide)
          (q : D)
          → Settles P S (submit_order service c account n side q)
      unfolding submit_order
      submit-Settles service c account n side q =
          Settles->>= P S get_now _ (λ s p. p)
            (λ now.
              Settles->>= P S _ _
                (steady
                  (create_execution_order_intent c.deployment.id (some n) c.deployment.broker_mode
                    side q)
                  (intent-Steady _ _ _ _ _))
                (λ order.
                  Settles->>= P S _ _
                    (steady (maybe_raise service Checkpoint.before_intent_commit)
                      (maybe_raise-Steady service _))
                    (λ u.
                      Settles-then P S lower commit _ (commit-Settles i bar W weaken)
                        (λ v. sent-Safe service c account n order now _))))

      act-Settles :
          (o : Option RiskRejectionCode) (service : ExecutionService D) (c : BarCall D)
          (account n : ℕ) (side : ExecutionSide) (q : D)
          → Settles P S (act_on o service c account n side q)
      unfolding act_on record_rejection
      act-Settles none service c account n side q = submit-Settles service c account n side q
      act-Settles (some code) service c account n side q =
          Settles->>= P S _ _
            (steady (record_risk_event c.deployment.id code (some n)) (event-Steady _ _ _))
            (λ u.
              Settles-then P S lower _ _ (closing c n DecisionOutcome.risk_rejected) (λ v s p. p))

      judge-Settles :
          (service : ExecutionService D) (c : BarCall D) (n : ℕ) (side : ExecutionSide) (q : D)
          → Settles P S (judge_order service c n side q)
      unfolding judge_order
      judge-Settles service c n side q =
          Settles->>= P S get_now _ (λ s p. p)
            (λ now.
              Settles->>= P S get_db _ (λ s p. p)
                (λ db. Settles->>= P S _ _ (Keeps-or_raise P _ _) (λ account.
                  Settles->>= P S _ _ (steady get_execution_control_state control-Steady) (λ kill.
                    Settles->>= P S _ _
                      (steady
                        (account_snapshot account.id c.deployment.id
                          (service.quote_source now c.deployment.symbol) c.point_value now)
                        (snapshot-Steady _ _ _ _ _))
                      (λ x. act-Settles _ service c account.id n side q)))))

      hold-Settles : (c : BarCall D) (n : ℕ) → Settles P S (hold_bar c n)
      unfolding hold_bar
      hold-Settles c n =
          Settles-then P S lower _ _
            (Settles-if P S c.flatten _ _
              (Settles->>= P S (update_execution_decision_outcome n DecisionOutcome.hold) _
                (outcome-Held i bar W weaken n DecisionOutcome.hold)
                (λ u. commit-Settles i bar W weaken))
              (closing c n DecisionOutcome.hold))
            (λ u s p. p)

      pub mapped-Settles :
          (o : Option (ExecutionSide × D)) (service : ExecutionService D) (c : BarCall D) (n : ℕ)
          → Settles P S (act_on_mapped o service c n)
      unfolding act_on_mapped
      mapped-Settles none service c n = hold-Settles c n
      mapped-Settles (some (side, q)) service c n = judge-Settles service c n side q

      pub close_held-Settles : (c : BarCall D) (n : ℕ) → Settles P S (close_held c n)
      unfolding close_held
      close_held-Settles c n =
          Settles->>= P S _ _
            (steady (update_deployment_last_bar_close c.deployment.id c.eval_result.bar_close_time)
              (bar-Steady _ _))
            (λ u. Settles-then P S lower commit _ (commit-Settles i bar W weaken) (λ v s p. p))

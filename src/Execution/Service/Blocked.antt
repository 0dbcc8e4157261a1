-- ===== src/Execution/Service/Blocked.antt =====
-- An unresolved order stops the orders after it (execution/service.py with execution/risk.py).
use q_backend.Prelude.{
  ℕ, ◌≡◌, refl, ◌∙◌, ap, true, Bool, Option, none, some, find, find-true, ==→eq, Option-cases, inl,
  inr, arith,
}
use q_backend.Decimal.{Arith}
use q_backend.Execution.Domain.{DecisionOutcome, ExecutionSide, RiskRejectionCode}
use q_backend.Execution.Broker.{ExecutableQuote}
use q_backend.Execution.Session.Rows.{ExecutionDecision, ExecutionDeployment, PaperAccount, Session}
use q_backend.Execution.Session.Monad.{ok, >>=-ok, or_raise-some, get_db, get_now}
use q_backend.Execution.Repositories.Deployments.{
  decision_is, get_execution_deployment, get_execution_control_state, record_risk_event,
}
use q_backend.Execution.Repositories.Orders.{list_orders_for_deployment}
use q_backend.Execution.Repositories.Books.{get_paper_account}
use q_backend.Execution.Repositories.Steps.{
  with_outcome, with_bar, update_execution_decision_outcome-eq, update_deployment_last_bar_close-eq,
}
use q_backend.Execution.Ledger.Snapshot.{BrokerAccountSnapshot, account_snapshot}
use q_backend.Execution.Risk.{RiskContext, evaluate, deployment_has_unknown_orders}
use q_backend.Execution.Risk.Gate.{evaluate-none_iff}
use q_backend.Execution.Service.Call.{ExecutionService, BarCall, BarProcessResult}
use q_backend.Execution.Service.Submit.{bar_result, close_bar}
use q_backend.Execution.Service.Bar.{act_on, judge_order, record_rejection, risk_context}

module _ {D : Type 0} where
  -- The books, the orders and the leases are as before, and what is new is committed.
  pub record IsRecorded (s t : Session D) : Type 0 where
    pub orders : t.db.orders ≡ s.db.orders
    pub fills : t.db.fills ≡ s.db.fills
    pub accounts : t.db.accounts ≡ s.db.accounts
    pub positions : t.db.positions ≡ s.db.positions
    pub entries : t.db.entries ≡ s.db.entries
    pub committed : t.committed ≡ t.db

  control_read :
      (s : Session D)
      → (b : Bool) × (get_execution_control_state s
          ≡ (ok b, record s { db = record s.db { kill_switch = some b } }))
  unfolding get_execution_control_state
  control_read s = (_, refl)

module _ {D : Type 0} ⦃a : Arith D⦄ where
  abbrev pub rejected_result : BarCall D → ℕ → RiskRejectionCode → BarProcessResult
  rejected_result c n code = record (bar_result c (some n) DecisionOutcome.risk_rejected none) {
    rejection = some code;
  }

  IsRecorded-rejection :
      (c : BarCall D) (n : ℕ) (code : RiskRejectionCode) (s : Session D) (d : ExecutionDecision D)
      (p : ExecutionDeployment D)
      → find (decision_is n) s.db.decisions ≡ some d
      → get_execution_deployment c.deployment.id s.db ≡ some p
      → (t : Session D) × (record_rejection ⦃a = a⦄ c n code s ≡ (ok (rejected_result c n code), t))
        × IsRecorded s t
  unfolding record_rejection close_bar record_risk_event get_execution_deployment
  IsRecorded-rejection c n code s d p decided deployed =
      let bar = c.eval_result.bar_close_time in
      let s1 = (record_risk_event c.deployment.id code (some n) s).1 in
      let s2 = with_outcome n DecisionOutcome.risk_rejected s1 in
      let s3 = with_bar c.deployment.id bar s2 in
      let closed =
        >>=-ok _ _
          (update_execution_decision_outcome-eq n DecisionOutcome.risk_rejected s1 d decided)
        ∙ >>=-ok _ _ (update_deployment_last_bar_close-eq c.deployment.id bar s2 p deployed) in
      (
        record s3 { committed = s3.db },
        >>=-ok (record_risk_event c.deployment.id code (some n)) _ {s = s} {t = s1} refl
            ∙ >>=-ok (close_bar c n DecisionOutcome.risk_rejected) _ closed,
        record {
          orders = refl;
          fills = refl;
          accounts = refl;
          positions = refl;
          entries = refl;
          committed = refl;
        },
      )

  snapshot_found :
      (i n : ℕ) (quote : Option (ExecutableQuote D)) (point : D) (now : ℕ) (s : Session D)
      (acc : PaperAccount D)
      → get_paper_account i s.db ≡ some acc
      → (x : BrokerAccountSnapshot D) × (account_snapshot i n quote point now s ≡ (ok x, s))
  unfolding account_snapshot
  snapshot_found i n quote point now s acc found =
      (_, >>=-ok get_db _ {s = s} refl ∙ or_raise-some _ _ _ s acc found)

  stopped :
      (ctx : RiskContext D)
      → ctx.has_unknown_orders ≡ true
      → (code : RiskRejectionCode) × (evaluate ctx ≡ some code)
  stopped ctx h = elim (Option-cases (evaluate ctx)) [
    | inl passed ↦ let e = (evaluate-none_iff ctx).0 passed in absurd (ground (arith, e.0.resolved))
    | inr found ↦ found
  ]

  -- While an order of the deployment is UNKNOWN, no order of it is sent: whatever the side, the
  -- quantity, the bypass flags, the broker and the quote, if the account, the decision and the
  -- deployment are stored, the call returns RISK_REJECTED with a code, commits, and leaves orders,
  -- fills, cash, positions and ledger entries as they were.
  pub judge_order-IsRecorded :
      (service : ExecutionService D) (c : BarCall D) (n : ℕ) (side : ExecutionSide) (q : D)
      (s : Session D) (acc : PaperAccount D) (d : ExecutionDecision D) (p : ExecutionDeployment D)
      → deployment_has_unknown_orders (list_orders_for_deployment c.deployment.id s.db) ≡ true
      → get_paper_account c.deployment.paper_account_id s.db ≡ some acc
      → find (decision_is n) s.db.decisions ≡ some d
      → get_execution_deployment c.deployment.id s.db ≡ some p
      → (code : RiskRejectionCode) × (t : Session D) × (judge_order service c n side q s
          ≡ (ok (rejected_result c n code), t))
        × IsRecorded s t
  unfolding judge_order act_on get_paper_account get_execution_deployment risk_context
  judge_order-IsRecorded service c n side q s acc d p blocked owner decided deployed =
      let same = ==→eq acc.id c.deployment.paper_account_id (find-true _ s.db.accounts acc owner) in
      let own : get_paper_account acc.id s.db ≡ some acc =
        ap (λ i. get_paper_account i s.db) same ∙ owner in
      let (kill, read) = control_read s in
      let s1 = record s { db = record s.db { kill_switch = some kill } } in
      let (x, snapped) =
        snapshot_found acc.id c.deployment.id (service.quote_source s.now c.deployment.symbol)
          c.point_value s.now s1 acc own in
      let ctx = risk_context service c side q s.now kill acc x s.db in
      let (code, stop) = stopped ctx blocked in
      let (t, e, recorded) = IsRecorded-rejection c n code s1 d p decided deployed in
      (
        code,
        t,
        >>=-ok get_now _ {s = s} refl
            ∙ >>=-ok get_db _ {s = s} refl
            ∙ or_raise-some _ _ _ s acc owner
            ∙ >>=-ok _ _ read
            ∙ >>=-ok _ _ snapped
            ∙ ap (λ o. act_on o service c acc.id n side q s1) stop
            ∙ e,
        record {
          orders = recorded.orders;
          fills = recorded.fills;
          accounts = recorded.accounts;
          positions = recorded.positions;
          entries = recorded.entries;
          committed = recorded.committed;
        },
      )

-- ===== src/Execution/Service/Once/First.antt =====
-- The first decision of a bar, stored and committed (execution/service.py).
use q_backend.Prelude.{
  ℕ, ◌≡◌, inl, inr, subst, Option, List, [], ◌∷◌, arith, Bool-cases, if◌then◌else◌, ◌&&◌, not, any,
  any-append_self, any-append_kept,
}
use q_backend.Decimal.{Arith}
use q_backend.Execution.Domain.{SignalAction, DecisionOutcome}
use q_backend.Execution.Session.Rows.{ExecutionDecision, Session}
use q_backend.Execution.Session.Monad.{Result, ok, ◌>>=◌, >>=-eq-ok, get_db}
use q_backend.Execution.Session.Keeps.{
  Keeps, Keeps->>=, Settled, Settled-weaker, Settles, Settles->>=, Settles-if,
}
use q_backend.Execution.Repositories.Deployments.{decision_for, create_execution_decision}
use q_backend.Execution.Service.Call.{ExecutionService, BarCall, BarProcessResult, is_hold}
use q_backend.Execution.Service.Bar.{act_on_mapped, close_held, decide, mapped_order}
use q_backend.Execution.Service.Once.Kept.{Decided, Held, weaker, Safe}
use q_backend.Execution.Service.Once.Branches.{mapped-Settles, close_held-Settles}

module _ {D : Type 0} ⦃a : Arith D⦄ where
  -- The first decision of a bar is among the rows.
  create-Held :
      (i bar : ℕ) (W : List (ExecutionDecision D) → Type 0)
      (weaken : (l : List (ExecutionDecision D)) → Decided i bar l → W l) (signal : SignalAction)
      (outcome : DecisionOutcome) (q : Option D) (s t : Session D) (n : ℕ)
      → create_execution_decision i bar signal outcome q s ≡ (ok n, t)
      → W s.committed.decisions
      → Held i bar W weaken t
  unfolding create_execution_decision
  create-Held i bar W weaken signal outcome q s t n h w =
      elim (Bool-cases (any (decision_for i bar) s.db.decisions)) [
        | inl taken ↦ absurd (ground arith)
        | inr free ↦
            let row : ExecutionDecision D = record {
              id = s.db.next_id;
              deployment_id = i;
              bar_close_time = bar;
              signal_action = signal;
              outcome = outcome;
              requested_quantity = q;
            } in
            let added = any-append_self (decision_for i bar) s.db.decisions row (ground arith) in
            ground (arith, added, w)
      ]

  -- A decision that is stored is not lost to another one.
  create-Safe :
      (i bar j other : ℕ) (signal : SignalAction) (outcome : DecisionOutcome) (q : Option D)
      → Keeps (Safe i bar) (create_execution_decision j other signal outcome q)
  unfolding create_execution_decision
  create-Safe i bar j other signal outcome q s p =
      elim (Bool-cases (any (decision_for j other) s.db.decisions)) [
        | inl taken ↦ rw taken p
        | inr free ↦
            let row : ExecutionDecision D = record {
              id = s.db.next_id;
              deployment_id = j;
              bar_close_time = other;
              signal_action = signal;
              outcome = outcome;
              requested_quantity = q;
            } in
            let kept = any-append_kept (decision_for i bar) s.db.decisions (row ∷ []) p.0 in
            rw free (kept, p.1)
      ]

  -- What follows the decision, whatever call it is.
  acted-Settles :
      (i bar : ℕ) (W : List (ExecutionDecision D) → Type 0)
      (weaken : (l : List (ExecutionDecision D)) → Decided i bar l → W l)
      (service : ExecutionService D) (c : BarCall D) (n : ℕ)
      → Settles (Held i bar W weaken) (Safe i bar) (
          get_db >>= λ db.
          if is_hold c.eval_result.signal_action && not c.flatten
          then close_held c n
          else act_on_mapped (mapped_order c db) service c n)
  acted-Settles i bar W weaken service c n =
      let P = Held i bar W weaken in
      let S = Safe i bar in
      Settles->>= P S get_db _ (λ s p. p)
        (λ db.
          Settles-if P S (is_hold c.eval_result.signal_action && not c.flatten) _ _
            (close_held-Settles i bar W weaken c n) (mapped-Settles i bar W weaken _ service c n))

  -- A first decision that returns is stored, and committed.
  pub decide-Safe :
      (service : ExecutionService D) (c : BarCall D) (s s' : Session D) (r : BarProcessResult)
      → decide service c s ≡ (ok r, s')
      → Safe c.deployment.id c.eval_result.bar_close_time s'
  unfolding decide
  decide-Safe service c s s' r h =
      let i = c.deployment.id in
      let bar = c.eval_result.bar_close_time in
      let (n, t, created, rest) = >>=-eq-ok _ _ s s' r h in
      let end =
        acted-Settles i bar (λ l. Unit {0}) (λ l d. tt) service c n t
          (create-Held i bar (λ l. Unit {0}) (λ l d. tt) _ _ _ s t n created tt) in
      subst
        (λ (x : Result BarProcessResult × Session D).
          Settled (Held i bar (λ l. Unit {0}) (λ l d. tt)) (Safe i bar) x)
        rest end

  pub decide-Keeps :
      (i bar : ℕ) (service : ExecutionService D) (c : BarCall D)
      → Keeps (Safe i bar) (decide service c)
  unfolding decide
  decide-Keeps i bar service c =
      let W = Decided i bar in
      Keeps->>= (Safe i bar) _ _ (create-Safe i bar _ _ _ _ _) (λ n s p.
        Settled-weaker (Held i bar W (λ l d. d)) (Safe i bar) (weaker i bar W (λ l d. d)) _
          (acted-Settles i bar W (λ l d. d) service c n s p))

-- ===== src/Execution/Service/Once.antt =====
-- A completed bar is processed once (execution/service.py).
pub mod Kept
pub mod Branches
pub mod First
use q_backend.Prelude.{
  ℕ, ◌≡◌, inl, inr, refl, sym, subst, ◌∙◌, true, Option, none, some, List, [], ◌∷◌, Option-cases,
  any, any-find-some, any-of_find,
}
use q_backend.Decimal.{Arith}
use q_backend.Execution.Session.Rows.{Database, ExecutionDecision, Session}
use q_backend.Execution.Session.Monad.{Result, ok, ◌>>=◌, ◌>>◌, >>=-ok, get_db}
use q_backend.Execution.Session.Keeps.{Keeps, Keeps->>=, Keeps-if}
use q_backend.Execution.Repositories.Deployments.{decision_for, get_decision_for_bar}
use q_backend.Execution.Service.Call.{ExecutionService, BarCall, BarProcessResult, emits_decision}
use q_backend.Execution.Service.Submit.{bar_result}
use q_backend.Execution.Service.Bar.{answer_or_decide, process_completed_bar}
use q_backend.Execution.Service.Once.Kept.{opened, Decided, Safe}
use q_backend.Execution.Service.Once.First.{decide-Safe, decide-Keeps}

module _ {D : Type 0} ⦃a : Arith D⦄ where
  -- The answer to a bar that has its decision.
  abbrev pub answer_from : BarCall D → ExecutionDecision D → BarProcessResult
  answer_from c d = record (bar_result c (some d.id) d.outcome none) { duplicate = true }

  process_new :
      (service : ExecutionService D) (c : BarCall D) (s : Session D)
      → emits_decision c.eval_result ≡ true
      → process_completed_bar service c s
        ≡ answer_or_decide
            (get_decision_for_bar c.deployment.id c.eval_result.bar_close_time s.db)
            service
            c
            s
  unfolding process_completed_bar
  process_new service c s emits = >>=-ok get_db _ {s = s} refl ∙ rw emits refl

  answered :
      (service : ExecutionService D) (c : BarCall D) (s : Session D) (d : ExecutionDecision D)
      → emits_decision c.eval_result ≡ true
      → get_decision_for_bar c.deployment.id c.eval_result.bar_close_time s.db ≡ some d
      → process_completed_bar service c s ≡ (ok (answer_from c d), s)
  unfolding answer_or_decide
  answered service c s d emits found = process_new service c s emits ∙ rw found refl

  answer-Keeps :
      (i bar : ℕ) (o : Option (ExecutionDecision D)) (service : ExecutionService D) (c : BarCall D)
      → Keeps (Safe i bar) (answer_or_decide o service c)
  unfolding answer_or_decide
  answer-Keeps i bar none service c s p = decide-Keeps i bar service c s p
  answer-Keeps i bar (some d) service c s p = p

  -- No call loses a decision that is stored and committed, whichever bar it is for and however it
  -- ends.
  process-Keeps :
      (i bar : ℕ) (service : ExecutionService D) (c : BarCall D)
      → Keeps (Safe i bar) (process_completed_bar service c)
  unfolding process_completed_bar
  process-Keeps i bar service c =
      let P = Safe i bar in
      Keeps->>= P get_db _ (λ s p. p)
        (λ db.
          Keeps-if P (emits_decision c.eval_result) _ _ (answer-Keeps i bar _ service c) (λ s p. p))

  -- After a call that answered, the decision of its bar is stored and committed.
  process-Safe :
      (service : ExecutionService D) (c : BarCall D) (s s' : Session D) (r : BarProcessResult)
      → emits_decision c.eval_result ≡ true
      → s.db.decisions ≡ s.committed.decisions
      → process_completed_bar service c s ≡ (ok r, s')
      → Safe c.deployment.id c.eval_result.bar_close_time s'
  unfolding get_decision_for_bar answer_or_decide
  process-Safe service c s s' r emits new h =
      elim (Option-cases (get_decision_for_bar c.deployment.id c.eval_result.bar_close_time s.db)) [
        | inl missing ↦
            decide-Safe service c s s' r (sym (process_new service c s emits ∙ rw missing refl) ∙ h)
        | inr (d, found) ↦
            let e = sym (answered service c s d emits found) ∙ h in
            let held =
              any-of_find (decision_for c.deployment.id c.eval_result.bar_close_time) s.db.decisions
                d found in
            subst
              (λ (x : Result BarProcessResult × Session D).
                Safe c.deployment.id c.eval_result.bar_close_time x.1)
              e (held, rw (← new) held)
      ]

  -- The committed state after calls in sessions of their own, each with its service and its time;
  -- a call that raises leaves what it had committed.
  unfoldable pub committed_after :
      List (ExecutionService D × BarCall D × ℕ) → Database D → Database D
  committed_after [] k = k
  committed_after ((service, c, now) ∷ calls) k =
      committed_after calls (process_completed_bar service c (opened now k)).1.committed

  committed_after-Decided :
      (i bar : ℕ) (calls : List (ExecutionService D × BarCall D × ℕ)) (k : Database D)
      → Decided i bar k.decisions
      → Decided i bar (committed_after calls k).decisions
  unfolding committed_after
  committed_after-Decided i bar [] k p = p
  committed_after-Decided i bar ((service, c, now) ∷ calls) k p =
      committed_after-Decided i bar calls _ (process-Keeps i bar service c (opened now k) (p, p)).1

  -- A completed bar is processed once, for good. Let a call that emits a decision have returned, in a
  -- session that held no uncommitted decision. Then after any calls for whatever deployments and
  -- bars, by any workers, each in a session of its own and whether it returned or raised, a call
  -- for the same deployment and bar, in a new session, with any signal and collaborators, returns a
  -- duplicate answer with the id and outcome of the decision that is committed, and changes nothing.
  pub process_completed_bar-once :
      (service service' : ExecutionService D) (c c' : BarCall D) (s s' : Session D)
      (r : BarProcessResult) (between : List (ExecutionService D × BarCall D × ℕ)) (now : ℕ)
      → emits_decision c.eval_result ≡ true
      → s.db.decisions ≡ s.committed.decisions
      → process_completed_bar service c s ≡ (ok r, s')
      → c'.deployment.id ≡ c.deployment.id
      → c'.eval_result.bar_close_time ≡ c.eval_result.bar_close_time
      → emits_decision c'.eval_result ≡ true
      → let k = committed_after between s'.committed in
        (d : ExecutionDecision D) × (get_decision_for_bar c.deployment.id
            c.eval_result.bar_close_time k
          ≡ some d)
        × (process_completed_bar service' c' (opened now k) ≡ (ok (answer_from c' d), opened now k))
  unfolding get_decision_for_bar
  process_completed_bar-once service service' c c' s s' r between now emits new h same_id same_bar
        emits' =
      let i = c.deployment.id in
      let bar = c.eval_result.bar_close_time in
      let k = committed_after between s'.committed in
      let (d, found) = any-find-some (decision_for i bar) k.decisions (
        committed_after-Decided i bar between s'.committed
          (process-Safe service c s s' r emits new h).1) in
      (d, found, answered service' c' (opened now k) d emits' (rw (same_id, same_bar) found))

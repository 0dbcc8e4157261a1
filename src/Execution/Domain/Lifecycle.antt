-- ===== src/Execution/Domain/Lifecycle.antt =====
-- The status changes of orders and deployments, taken in sequence.
use q_backend.Prelude.{ℕ, suc, ◌+◌, ◌≤◌, ◌<◌, ◌≡◌, refl, false, true, ◌⊎◌, inl, inr, arith}
use q_backend.Execution.Domain.{
  DeploymentLifecycle, ExecutionOrderStatus, validate_deployment_transition,
  validate_order_transition, is_deployment_evaluating, is_deployment_terminal,
}

-- `n` permitted changes lead from the first status to the second.
pub data OrderPath (s : ExecutionOrderStatus) : ℕ → ExecutionOrderStatus → Type 0 where
  here : OrderPath s 0 s
  next :
      {n : ℕ} {t : ExecutionOrderStatus} (u : ExecutionOrderStatus)
      → OrderPath s n t
      → validate_order_transition t u ≡ true
      → OrderPath s (suc n) u

pub data DeploymentPath (s : DeploymentLifecycle) : DeploymentLifecycle → Type 0 where
  here : DeploymentPath s s
  next :
      {t : DeploymentLifecycle} (u : DeploymentLifecycle)
      → DeploymentPath s t
      → validate_deployment_transition t u ≡ true
      → DeploymentPath s u

-- How far an order has come.
abbrev pub rank : ExecutionOrderStatus → ℕ
rank ExecutionOrderStatus.intent = 0
rank ExecutionOrderStatus.submitted = 1
rank ExecutionOrderStatus.unknown = 2
rank _ = 3

rank-lt : (t u : ExecutionOrderStatus) → validate_order_transition t u ≡ true → rank t < rank u
unfolding validate_order_transition
rank-lt t u h = ground arith

-- Every permitted change raises the rank, so an order changes its status three times at most: a
-- path of n changes from s ends at a status whose rank is at least n more, and n is at most 3.
pub OrderPath-bounded :
    (s t : ExecutionOrderStatus) (n : ℕ) → OrderPath s n t → (rank s + n ≤ rank t) × (n ≤ 3)
OrderPath-bounded s t n p = let h = climb s n t p in (h, omega (arith, h, rank-le t))
  where
    rank-le : (t : ExecutionOrderStatus) → rank t ≤ 3
    rank-le t = ground arith

    climb :
        (s : ExecutionOrderStatus) (n : ℕ) (t : ExecutionOrderStatus)
        → OrderPath s n t
        → rank s + n ≤ rank t
    climb s n t here = omega arith
    climb s n t (next {t = r} u p h) = omega (arith, climb s _ r p, rank-lt r u h)

unknown_step :
    (t u : ExecutionOrderStatus)
    → (t ≡ ExecutionOrderStatus.unknown)
      ⊎ (t ≡ ExecutionOrderStatus.filled)
      ⊎ (t ≡ ExecutionOrderStatus.rejected)
    → validate_order_transition t u ≡ true
    → (u ≡ ExecutionOrderStatus.filled) ⊎ (u ≡ ExecutionOrderStatus.rejected)
unfolding validate_order_transition
unknown_step t u h k = ground arith

-- An order whose outcome is unknown stays unknown until it is filled or rejected; it is never sent
-- again (it becomes neither an intent nor submitted) and never cancelled.
pub OrderPath-unknown :
    (t : ExecutionOrderStatus) (n : ℕ)
    → OrderPath ExecutionOrderStatus.unknown n t
    → (t ≡ ExecutionOrderStatus.unknown)
      ⊎ (t ≡ ExecutionOrderStatus.filled)
      ⊎ (t ≡ ExecutionOrderStatus.rejected)
OrderPath-unknown t _ here = inl refl
OrderPath-unknown t _ (next {n} {t = r} u p h) = inr (unknown_step r u (OrderPath-unknown r n p) h)

terminal_step :
    (t u : DeploymentLifecycle)
    → is_deployment_terminal t ≡ true
    → validate_deployment_transition t u ≡ true
    → is_deployment_terminal u ≡ true
unfolding validate_deployment_transition is_deployment_terminal
terminal_step t u h k = ground arith

-- A deployment that is stopped or in error stays so, whatever changes follow, and is never
-- evaluated again.
pub DeploymentPath-terminal :
    (s t : DeploymentLifecycle)
    → is_deployment_terminal s ≡ true
    → DeploymentPath s t
    → (is_deployment_terminal t ≡ true) × (is_deployment_evaluating t ≡ false)
unfolding is_deployment_terminal is_deployment_evaluating
DeploymentPath-terminal s t h p = let k = stays s t p h in (k, ground arith)
  where
    stays :
        (s t : DeploymentLifecycle)
        → DeploymentPath s t
        → is_deployment_terminal s ≡ true
        → is_deployment_terminal t ≡ true
    stays s t here h = h
    stays s t (next {t = r} u p k) h = terminal_step r u (stays s r p h) k

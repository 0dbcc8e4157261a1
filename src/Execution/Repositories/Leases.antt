-- ===== src/Execution/Repositories/Leases.antt =====
-- The leases by which one worker at a time owns a deployment.
pub mod Exclusion
use q_backend.Prelude.{
  ℕ, ◌+◌, Bool, false, true, ◌&&◌, ◌==◌, ltb, leb, length, Option, none, some, [], ◌∷◌, ◌++◌, find,
  update, select, not,
}
use q_backend.Execution.Session.Rows.{ExecutionWorkerLease, Database}
use q_backend.Execution.Session.Monad.{
  Action, not_found, lease_conflict, token_mismatch, ◌>>=◌, ◌>>◌, pure, get_db, modify, or_raise,
  raise_if,
}

abbrev pub lease_is : ℕ → ExecutionWorkerLease → Bool
lease_is i l = l.deployment_id == i

-- The lease is another worker's and has not expired.
abbrev pub held_by_other : ExecutionWorkerLease → ℕ → ℕ → Bool
held_by_other l worker ts = ltb ts l.expires_at && not (l.worker_id == worker)

abbrev pub is_holder : ExecutionWorkerLease → ℕ → ℕ → Bool
is_holder l worker token = l.worker_id == worker && l.lease_token == token

module _ {D : Type 0} where
  unfoldable pub get_worker_lease : ℕ → Database D → Option ExecutionWorkerLease
  get_worker_lease i db = find (lease_is i) db.leases

  abbrev edit_lease : ℕ → (ExecutionWorkerLease → ExecutionWorkerLease) → Database D → Database D
  edit_lease i f db = record db { leases = update (lease_is i) f db.leases }

  acquire : Option ExecutionWorkerLease → ℕ → ℕ → ℕ → ℕ → ℕ → Action D (Unit {0})
  unfolding ◌>>=◌
  acquire (some current) i worker token ttl ts = do
    raise_if (held_by_other current worker ts) lease_conflict
    modify (
        edit_lease i (λ l. record l {
          worker_id = worker;
          lease_token = token;
          acquired_at = ts;
          expires_at = ts + ttl;
          heartbeat_at = ts;
        }))
  acquire none i worker token ttl ts = modify (λ db. record db {
    leases =
        db.leases
        ++ record {
          deployment_id = i;
          worker_id = worker;
          lease_token = token;
          acquired_at = ts;
          expires_at = ts + ttl;
          heartbeat_at = ts;
        }
          ∷ [];
  })

  -- Deployment, worker, token, time to live and the instant `ts`.
  unfoldable pub acquire_worker_lease : ℕ → ℕ → ℕ → ℕ → ℕ → Action D (Unit {0})
  unfolding acquire get_worker_lease ◌>>=◌
  acquire_worker_lease i worker token ttl ts = do
    db ← get_db
    acquire (get_worker_lease i db) i worker token ttl ts

  unfoldable pub heartbeat_worker_lease : ℕ → ℕ → ℕ → ℕ → ℕ → Action D (Unit {0})
  unfolding get_worker_lease ◌>>=◌
  heartbeat_worker_lease i worker token ttl ts = do
    db ← get_db
    l ← or_raise (get_worker_lease i db) not_found
    raise_if (not (is_holder l worker token)) token_mismatch
    modify (edit_lease i (λ r. record r { heartbeat_at = ts; expires_at = ts + ttl }))

  release : Option ExecutionWorkerLease → ℕ → ℕ → ℕ → Action D Bool
  unfolding ◌>>=◌
  release none i worker token = pure false
  release (some l) i worker token = do
    raise_if (not (is_holder l worker token)) token_mismatch
    modify (λ db. record db { leases = select (λ r. not (lease_is i r)) db.leases })
    pure true

  unfoldable pub release_worker_lease : ℕ → ℕ → ℕ → Action D Bool
  unfolding release get_worker_lease ◌>>=◌
  release_worker_lease i worker token = do
    db ← get_db
    release (get_worker_lease i db) i worker token

  -- Deletes the leases that expired, and counts them.
  unfoldable pub release_expired_leases : ℕ → Action D ℕ
  unfolding ◌>>=◌
  release_expired_leases ts = do
    db ← get_db
    modify (λ d. record d { leases = select (λ l. not (leb l.expires_at ts)) d.leases })
    pure (length (select (λ l. leb l.expires_at ts) db.leases))

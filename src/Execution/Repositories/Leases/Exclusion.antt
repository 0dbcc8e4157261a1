-- ===== src/Execution/Repositories/Leases/Exclusion.antt =====
-- A lease excludes the other workers until it expires.
use q_backend.Prelude.{
  ℕ, ◌+◌, ◌<◌, ◌≡◌, ◌≢◌, some, refl, arith, Option-cases, inl, inr, find, find-update_self,
  find-append_none,
}
use q_backend.Execution.Session.Rows.{ExecutionWorkerLease, Session}
use q_backend.Execution.Session.Monad.{ok, err, lease_conflict, token_mismatch}
use q_backend.Execution.Repositories.Leases.{
  lease_is, get_worker_lease, acquire_worker_lease, acquire, heartbeat_worker_lease,
  release_worker_lease, release,
}

module _ {D : Type 0} where
  -- The row that a successful call leaves.
  record IsHeld (i worker token until : ℕ) (t : Session D) : Type 0 where
    lease : ExecutionWorkerLease
    found : get_worker_lease i t.db ≡ some lease
    owner : lease.worker_id ≡ worker
    signed : lease.lease_token ≡ token
    expires : lease.expires_at ≡ until

  acquired :
      (i worker token ttl ts : ℕ) (s t : Session D)
      → acquire_worker_lease i worker token ttl ts s ≡ (ok tt, t)
      → IsHeld i worker token (ts + ttl) t
  unfolding acquire_worker_lease acquire get_worker_lease
  acquired i worker token ttl ts s t h = elim (Option-cases (find (lease_is i) s.db.leases)) [
    | inl missing ↦
        let row : ExecutionWorkerLease = record {
          deployment_id = i;
          worker_id = worker;
          lease_token = token;
          acquired_at = ts;
          expires_at = ts + ttl;
          heartbeat_at = ts;
        } in
        let e = find-append_none (lease_is i) s.db.leases row missing in
        record {
          lease = row;
          found = ground (arith, e);
          owner = refl;
          signed = refl;
          expires = refl;
        }
    | inr (l, found) ↦
        let f = λ (l : ExecutionWorkerLease). record l {
          worker_id = worker;
          lease_token = token;
          acquired_at = ts;
          expires_at = ts + ttl;
          heartbeat_at = ts;
        } in
        let e = find-update_self (lease_is i) f s.db.leases l (λ y p. p) found in
        record {
          lease = f l;
          found = ground (arith, e);
          owner = refl;
          signed = refl;
          expires = refl;
        }
  ]

  refused_call :
      (i worker token until worker' token' ttl' ts' : ℕ) (t : Session D)
      → IsHeld i worker token until t
      → worker ≢ worker'
      → ts' < until
      → (acquire_worker_lease i worker' token' ttl' ts' t ≡ (err lease_conflict, t))
        × (heartbeat_worker_lease i worker' token' ttl' ts' t ≡ (err token_mismatch, t))
        × (release_worker_lease i worker' token' t ≡ (err token_mismatch, t))
  unfolding acquire_worker_lease acquire heartbeat_worker_lease release_worker_lease release
      get_worker_lease
  refused_call i worker token until worker' token' ttl' ts' t h ne early = ground arith

  -- While a lease that `worker` acquired runs, another worker can neither acquire it, nor prolong
  -- it, nor release it: each call raises and changes nothing.
  pub acquire_worker_lease-exclusive :
      (i worker token ttl ts worker' token' ttl' ts' : ℕ) (s t : Session D)
      → acquire_worker_lease i worker token ttl ts s ≡ (ok tt, t)
      → worker ≢ worker'
      → ts' < ts + ttl
      → (acquire_worker_lease i worker' token' ttl' ts' t ≡ (err lease_conflict, t))
        × (heartbeat_worker_lease i worker' token' ttl' ts' t ≡ (err token_mismatch, t))
        × (release_worker_lease i worker' token' t ≡ (err token_mismatch, t))
  acquire_worker_lease-exclusive i worker token ttl ts worker' token' ttl' ts' s t h ne early =
      refused_call i worker token (ts + ttl) worker' token' ttl' ts' t
        (acquired i worker token ttl ts s t h) ne early

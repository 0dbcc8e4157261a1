-- ===== src/Execution/Session/Monad.antt =====
-- Actions of a session that may raise. What was written before a raise stays in the session.
use q_backend.Prelude.{refl, ap, ◌≡◌, ℕ, Bool, Option, none, some, if◌then◌else◌}
use q_backend.Execution.Session.Rows.{Database, Session}

pub data Error : Type 0 where
  not_found : Error  -- ValueError: the row is missing
  illegal_transition : Error  -- IllegalLifecycleTransition
  one_position : Error  -- ValueError or division by zero of `_transition_position`
  lease_conflict : Error  -- LeaseConflictError
  token_mismatch : Error  -- ValueError of the lease calls
  not_pending : Error  -- OrderNotPendingError
  missing_fill : Error  -- ValueError of `resolve_order_manually`
  integrity : Error  -- IntegrityError: a unique index refuses the row
  crash : Error  -- any other exception, injected by a test or raised by the platform

pub data Result (A : Type 0) : Type 0 where
  ok : A → Result A
  err : Error → Result A

abbrev pub Action : Type 0 → Type 0 → Type 0
Action D A = Session D → Result A × Session D

module _ {D : Type 0} where
  infixl 5 ◌>>=◌ ◌>>◌
  abbrev pub pure : {A : Type 0} → A → Action D A
  pure x s = (ok x, s)

  abbrev pub raise : {A : Type 0} → Error → Action D A
  raise e s = (err e, s)

  -- What follows an action that ended so.
  abbrev pub proceed :
      {A B : Type 0} → (A → Action D B) → Result A × Session D → Result B × Session D
  proceed f (ok x, s) = f x s
  proceed f (err e, s) = (err e, s)

  unfoldable pub ◌>>=◌ : {A B : Type 0} → Action D A → (A → Action D B) → Action D B
  ◌>>=◌ m f s = proceed f (m s)

  abbrev pub ◌>>◌ : {B : Type 0} → Action D (Unit {0}) → Action D B → Action D B
  m >> k = m >>= λ _. k

  -- A step that succeeds hands its value on; one that raises ends the action.
  pub >>=-ok :
      {A B : Type 0} (m : Action D A) (f : A → Action D B) {s t : Session D} {x : A}
      → m s ≡ (ok x, t)
      → (m >>= f) s ≡ f x t
  unfolding ◌>>=◌
  >>=-ok m f e = ap (proceed f) e

  pub >>=-err :
      {A B : Type 0} (m : Action D A) (f : A → Action D B) {s t : Session D} {e : Error}
      → m s ≡ (err e, t)
      → (m >>= f) s ≡ (err e, t)
  unfolding ◌>>=◌
  >>=-err m f h = ap (proceed f) h

  -- A bind that succeeds is two actions that succeed.
  pub >>=-eq-ok :
      {A B : Type 0} (m : Action D A) (f : A → Action D B) (s s' : Session D) (y : B)
      → (m >>= f) s ≡ (ok y, s')
      → (x : A) × (t : Session D) × (m s ≡ (ok x, t)) × (f x t ≡ (ok y, s'))
  unfolding ◌>>=◌
  >>=-eq-ok {A} {B} m f s s' y h = invert (m s) h
    where
      invert :
          (r : Result A × Session D)
          → proceed f r ≡ (ok y, s')
          → (x : A) × (t : Session D) × (r ≡ (ok x, t)) × (f x t ≡ (ok y, s'))
      invert (ok x, t) h = (x, t, refl, h)
      invert (err e, t) h = cc

  abbrev pub get_db : Action D (Database D)
  get_db s = (ok s.db, s)

  abbrev pub get_now : Action D ℕ
  get_now s = (ok s.now, s)

  abbrev pub modify : (Database D → Database D) → Action D (Unit {0})
  modify f s = (ok tt, record s { db = f s.db })

  -- `session.commit()` and `session.rollback()`
  abbrev pub commit : Action D (Unit {0})
  commit s = (ok tt, record s { committed = s.db })

  abbrev pub rollback : Action D (Unit {0})
  rollback s = (ok tt, record s { db = s.committed })

  abbrev pub or_raise : {A : Type 0} → Option A → Error → Action D A
  or_raise none e s = (err e, s)
  or_raise (some x) e s = (ok x, s)

  abbrev pub raise_if : Bool → Error → Action D (Unit {0})
  raise_if b e s = (if b then err e else ok tt, s)

  -- A bind on `or_raise` that succeeds found its value and left the session alone.
  pub or_raise-eq-ok :
      {A B : Type 0} (o : Option A) (e : Error) (f : A → Action D B) (s s' : Session D) (y : B)
      → (or_raise o e >>= f) s ≡ (ok y, s')
      → (x : A) × (o ≡ some x) × (f x s ≡ (ok y, s'))
  unfolding ◌>>=◌
  or_raise-eq-ok none e f s s' y h = cc
  or_raise-eq-ok (some x) e f s s' y h = (x, refl, h)

  pub or_raise-some :
      {A B : Type 0} (o : Option A) (e : Error) (f : A → Action D B) (s : Session D) (x : A)
      → o ≡ some x
      → (or_raise o e >>= f) s ≡ f x s
  unfolding ◌>>=◌
  or_raise-some o e f s x h = rw h

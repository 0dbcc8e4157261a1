-- ===== src/Execution/Session/Keeps.antt =====
-- Invariants of actions: what holds before an action holds after it, whether it returns or raises.
use q_backend.Prelude.{Bool, true, false, Option, none, some, if◌then◌else◌}
use q_backend.Execution.Session.Rows.{Database, Session}
use q_backend.Execution.Session.Monad.{
  Error, Result, Action, ok, err, ◌>>=◌, proceed, get_db, or_raise,
}

module _ {D : Type 0} where
  abbrev pub Keeps : {A : Type 0} → (Session D → Type 0) → Action D A → Type 0
  Keeps P m = (s : Session D) → P s → P (m s).1

  module _ (P : Session D → Type 0) where
    proceed_lem :
        {A B : Type 0} (f : A → Action D B)
        → ((x : A) → Keeps P (f x))
        → (r : Result A × Session D) → P r.1
        → P (proceed f r).1
    proceed_lem f h (ok x, s) p = h x s p
    proceed_lem f h (err e, s) p = p

    pub Keeps->>= :
        {A B : Type 0} (m : Action D A) (f : A → Action D B)
        → Keeps P m
        → ((x : A) → Keeps P (f x))
        → Keeps P (m >>= f)
    unfolding ◌>>=◌
    Keeps->>= m f first next s p = proceed_lem f next (m s) (first s p)

    pub Keeps-or_raise : {A : Type 0} (o : Option A) (e : Error) → Keeps P (or_raise o e)
    Keeps-or_raise none e s p = p
    Keeps-or_raise (some x) e s p = p

    pub Keeps-find :
        {A B : Type 0} (look : Database D → Option A) (e : Error) (f : A → Action D B)
        → ((x : A) → Keeps P (f x))
        → Keeps P (get_db >>= λ db. or_raise (look db) e >>= f)
    Keeps-find look e f next =
        Keeps->>= get_db _ (λ s p. p)
          (λ db. Keeps->>= (or_raise (look db) e) f (Keeps-or_raise (look db) e) next)

    pub Keeps-if :
        {A : Type 0} (b : Bool) (m k : Action D A)
        → Keeps P m
        → Keeps P k
        → Keeps P (if b then m else k)
    Keeps-if true m k h h' = h
    Keeps-if false m k h h' = h'

-- Actions that establish something: they return with `Q`, or raise with `P` as before.
module _ {D : Type 0} (P Q : Session D → Type 0) where
  abbrev pub Settled : {A : Type 0} → Result A × Session D → Type 0
  Settled (ok x, s) = Q s
  Settled (err e, s) = P s

  abbrev pub Settles : {A : Type 0} → Action D A → Type 0
  Settles m = (s : Session D) → P s → Settled (m s)

  -- The rest of an action whose beginning keeps `P`.
  pub Settles->>= :
      {A B : Type 0} (m : Action D A) (f : A → Action D B)
      → Keeps P m
      → ((x : A) → Settles (f x))
      → Settles (m >>= f)
  unfolding ◌>>=◌
  Settles->>= {A} {B} m f first next s p = go (m s) (first s p)
    where
      go : (r : Result A × Session D) → P r.1 → Settled (proceed f r)
      go (ok x, t) p = next x t p
      go (err e, t) p = p

  module _ (weaker : (s : Session D) → Q s → P s) where
    pub Settled-Keeps :
        {A : Type 0} (m : Action D A) → Keeps Q m → (s : Session D) → Q s → Settled (m s)
    Settled-Keeps {A} m kept s q = go (m s) (kept s q)
      where
        go : (r : Result A × Session D) → Q r.1 → Settled r
        go (ok x, t) q = q
        go (err e, t) q = weaker t q

    -- The beginning establishes `Q`, and the rest keeps it.
    pub Settles-then :
        {A B : Type 0} (m : Action D A) (f : A → Action D B)
        → Settles m
        → ((x : A) → Keeps Q (f x))
        → Settles (m >>= f)
    unfolding ◌>>=◌
    Settles-then {A} {B} m f first next s p = go (m s) (first s p)
      where
        go : (r : Result A × Session D) → Settled r → Settled (proceed f r)
        go (ok x, t) q = Settled-Keeps (f x) (next x) t q
        go (err e, t) p = p

    pub Settled-weaker : {A : Type 0} (r : Result A × Session D) → Settled r → P r.1
    Settled-weaker (ok x, t) q = weaker t q
    Settled-weaker (err e, t) p = p

  pub Settles-if :
      {A : Type 0} (b : Bool) (m k : Action D A)
      → Settles m
      → Settles k
      → Settles (if b then m else k)
  Settles-if true m k h h' = h
  Settles-if false m k h h' = h'

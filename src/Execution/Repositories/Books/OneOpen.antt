-- ===== src/Execution/Repositories/Books/OneOpen.antt =====
-- A deployment has one open position at most (storage/db/execution_repositories.py).
use q_backend.Prelude.{
  ℕ, ◌+◌, ◌≤◌, ◌≡◌, refl, Bool, true, Option, none, some, List, [], ◌∷◌, ◌++◌, find, update, select,
  length, arith, ◌==◌, ◌||◌, if◌then◌else◌, Bool-cases, inl, inr, ==→eq, ap, ◌∙◌, sym,
}
use q_backend.Execution.Session.Monad.{ok}
use q_backend.Decimal.{Arith, ◌=?◌, dec}
use q_backend.Execution.Domain.{PositionSide}
use q_backend.Execution.Session.Rows.{ExecutionNetPosition, Database, Session}
use q_backend.Execution.Repositories.Books.{
  is_flat, is_open_for, closed_row, opened_row, upserted, upsert_open_net_position,
  get_open_net_position,
}

module _ {A : Type 0} where
  -- How many rows pass the test.
  abbrev count : (A → Bool) → List A → ℕ
  count q xs = length (select q xs)

  count-update :
      (q p : A → Bool) (f : A → A) (xs : List A)
      → ((y : A) → p y ≡ true → q (f y) ≡ true → q y ≡ true)
      → count q (update p f xs) ≤ count q xs
  count-update q p f [] k = omega arith
  count-update q p f (y ∷ xs) k = ground (arith, k y, count-update q p f xs k)

  count-append :
      (q : A → Bool) (xs : List A) (x : A)
      → count q (xs ++ x ∷ []) ≡ count q xs + (if q x then 1 else 0)
  count-append q [] x = ground arith
  count-append q (y ∷ xs) x = ground (arith, count-append q xs x)

  count-none : (q : A → Bool) (xs : List A) → find q xs ≡ none → count q xs ≡ 0
  count-none q [] h = refl
  count-none q (y ∷ xs) h = ground (arith, count-none q xs)

module _ {D : Type 0} where
  -- The number of open positions of deployment `j`.
  abbrev pub open_count : ℕ → Database D → ℕ
  open_count j db = count (is_open_for j) db.positions

module _ {D : Type 0} ⦃a : Arith D⦄ where
  upserted-open_count :
      (i j : ℕ) (side : PositionSide) (quantity : D) (entry : Option D) (now : ℕ)
      (o : Option (ExecutionNetPosition D)) (db : Database D)
      → find (is_open_for i) db.positions ≡ o
      → open_count j db ≤ 1
      → open_count j (upserted i side quantity entry now o db) ≤ 1
  unfolding upserted
  upserted-open_count i j side quantity entry now (some p) db found h =
      elim (Bool-cases (is_flat side || quantity =? dec 0)) [
        | inl closing ↦ rw closing (
            omega (
              arith,
              h,
              count-update (is_open_for j) (is_open_for i) (closed_row now) db.positions
                  (λ y e e'. ground arith),
            ))
        | inr moving ↦ rw moving (
            omega (
              arith,
              h,
              count-update (is_open_for j) (is_open_for i) (opened_row side quantity entry now)
                  db.positions (λ y e e'. ground arith),
            ))
      ]
  upserted-open_count i j side quantity entry now none db found h =
      elim (Bool-cases (is_flat side || quantity =? dec 0)) [
        | inl closing ↦ rw (closing, count-append (is_open_for j) db.positions) (ground arith)
        | inr moving ↦
            rw (moving, count-append (is_open_for j) db.positions)
              (elim (Bool-cases (i == j)) [
                | inl same ↦
                    let e =
                      ap (λ n. find (is_open_for n) db.positions) (sym (==→eq i j same)) ∙ found in
                    ground (arith, count-none (is_open_for j) db.positions e)
                | inr other ↦ ground arith
              ])
      ]

  -- Where a deployment `j` has one open position at most, the call, for this or for another
  -- deployment, returns and leaves it one at most.
  pub upsert_open_net_position-open_count :
      (i j : ℕ) (side : PositionSide) (quantity : D) (entry : Option D) (now : ℕ) (s : Session D)
      → open_count j s.db ≤ 1
      → ((upsert_open_net_position i side quantity entry now s).0 ≡ ok tt)
        × (open_count j (upsert_open_net_position i side quantity entry now s).1.db ≤ 1)
  unfolding upsert_open_net_position get_open_net_position
  upsert_open_net_position-open_count i j side quantity entry now s h = (
    refl,
    upserted-open_count i j side quantity entry now (find (is_open_for i) s.db.positions) s.db refl
        h,
  )

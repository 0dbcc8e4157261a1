-- ===== src/Prelude/Table.antt =====
-- A database table as the list of its rows, in insertion order.
use Prim.Native.Nat.{ℕ, suc}
use mathlib.Core.Path.{◌≡◌, refl, ap}
use mathlib.Core.Bool.{Bool, true, false}
use mathlib.Core.Option.{Option, none, some}
use mathlib.Core.List.{List, [], ◌∷◌, ◌++◌}
use native.Mathlib.Omega.{arith}
use mathlib.Core.Logic.{inl, inr}
use q_backend.Prelude.Tests.{if◌then◌else◌, Bool-cases}

module _ {ℓ} {A : Type ℓ} where
  -- The first row that passes the test.
  abbrev pub find : (A → Bool) → List A → Option A
  find p [] = none
  find p (x ∷ xs) = if p x then some x else find p xs

  -- The rows that pass, in order.
  abbrev pub select : (A → Bool) → List A → List A
  select p [] = []
  select p (x ∷ xs) = let rest = select p xs in if p x then x ∷ rest else rest

  -- Changes every row that passes.
  abbrev pub update : (A → Bool) → (A → A) → List A → List A
  update p f [] = []
  update p f (x ∷ xs) = (if p x then f x else x) ∷ update p f xs

  abbrev pub any : (A → Bool) → List A → Bool
  any p [] = false
  any p (x ∷ xs) = if p x then true else any p xs

  abbrev pub length : List A → ℕ
  length [] = 0
  length (x ∷ xs) = suc (length xs)

  -- Every row satisfies the predicate.
  abbrev pub All {κ} : (A → Type κ) → List A → Type κ
  All P [] = Unit
  All P (x ∷ xs) = P x × All P xs

  pub find-append_none :
      (p : A → Bool) (xs : List A) (x : A)
      → find p xs ≡ none
      → find p (xs ++ x ∷ []) ≡ (if p x then some x else none)
  find-append_none p [] x h = refl
  find-append_none p (y ∷ xs) x h = ground (arith, find-append_none p xs x)

  pub find-append_some :
      (p : A → Bool) (xs : List A) (x y : A) → find p xs ≡ some y → find p (xs ++ x ∷ []) ≡ some y
  find-append_some p [] x y h = cc
  find-append_some p (z ∷ xs) x y h = ground (arith, find-append_some p xs x y)

  pub All-append {κ} : (P : A → Type κ) (xs ys : List A) → All P xs → All P ys → All P (xs ++ ys)
  All-append P [] ys hx hy = hy
  All-append P (x ∷ xs) ys hx hy = (hx.0, All-append P xs ys hx.1 hy)

  pub length-update : (p : A → Bool) (f : A → A) (xs : List A) → length (update p f xs) ≡ length xs
  length-update p f [] = refl
  length-update p f (x ∷ xs) = ap suc (length-update p f xs)

  -- An update that keeps the key changes the row that is found by it.
  pub find-update_self :
      (p : A → Bool) (f : A → A) (xs : List A) (x : A)
      → ((y : A) → p y ≡ true → p (f y) ≡ true)
      → find p xs ≡ some x
      → find p (update p f xs) ≡ some (f x)
  find-update_self p f [] x k h = cc
  find-update_self p f (y ∷ xs) x k h = ground (arith, k y, find-update_self p f xs x k)

  pub any-find-none : (p : A → Bool) (xs : List A) → find p xs ≡ none → any p xs ≡ false
  any-find-none p [] h = refl
  any-find-none p (x ∷ xs) h = ground (arith, any-find-none p xs)

  -- An update of rows that the search passes over does not change what it finds.
  pub find-update_ne :
      (q p : A → Bool) (f : A → A) (xs : List A)
      → ((y : A) → q (f y) ≡ q y)
      → ((y : A) → p y ≡ true → q y ≡ false)
      → find q (update p f xs) ≡ find q xs
  find-update_ne q p f [] k h = refl
  find-update_ne q p f (y ∷ xs) k h = ground (arith, k y, h y, find-update_ne q p f xs k h)

  -- An update that the test cannot see does not change whether a row passes.
  pub any-update :
      (q p : A → Bool) (f : A → A) (xs : List A)
      → ((y : A) → q (f y) ≡ q y)
      → any q (update p f xs) ≡ any q xs
  any-update q p f [] k = refl
  any-update q p f (y ∷ xs) k = ground (arith, k y, any-update q p f xs k)

  pub any-append_self :
      (p : A → Bool) (xs : List A) (x : A) → p x ≡ true → any p (xs ++ x ∷ []) ≡ true
  any-append_self p [] x h = rw h
  any-append_self p (y ∷ xs) x h = ground (arith, any-append_self p xs x h)

  pub any-find-some :
      (p : A → Bool) (xs : List A) → any p xs ≡ true → (x : A) × (find p xs ≡ some x)
  any-find-some p [] h = cc
  any-find-some p (x ∷ xs) h = elim (Bool-cases (p x)) [
    | inl passes ↦ (x, rw passes refl)
    | inr fails ↦ let (y, e) = any-find-some p xs (ground arith) in (y, rw fails e)
  ]

  pub any-append_kept : (p : A → Bool) (xs ys : List A) → any p xs ≡ true → any p (xs ++ ys) ≡ true
  any-append_kept p [] ys h = cc
  any-append_kept p (x ∷ xs) ys h = ground (arith, any-append_kept p xs ys)

  pub any-of_find : (p : A → Bool) (xs : List A) (x : A) → find p xs ≡ some x → any p xs ≡ true
  any-of_find p [] x h = cc
  any-of_find p (y ∷ xs) x h = ground (arith, any-of_find p xs x)

  pub find-true : (p : A → Bool) (xs : List A) (x : A) → find p xs ≡ some x → p x ≡ true
  find-true p [] x h = cc
  find-true p (y ∷ xs) x h = ground (arith, find-true p xs x)

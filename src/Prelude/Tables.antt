-- ===== src/Prelude/Tables.antt =====
-- SQL tables as lists of rows: `SELECT`, `UPDATE` and `DELETE` with a `WHERE` test, and the laws
-- that the handlers' proofs use.
use Prim.Native.Nat.{ℕ, suc, ◌+◌}
use mathlib.Core.Path.{◌≡◌, refl, ap, subst, ◌∙◌}
use mathlib.Core.Logic.{inl, inr}
use mathlib.Core.Bool.{Bool, true, false, ◌||◌}
use mathlib.Core.Option.{Option, none, some}
use mathlib.Core.Option
use mathlib.Core.List.{List, [], ◌∷◌, ◌++◌, map}
use native.Mathlib.Omega.{arith}
use fenxin.Prelude.Tests.{if◌then◌else◌, Bool-cases, if_cases}
use fenxin.Prelude.Lists.{length, All, In, has, IsDistinct}

module _ {ℓ} {A : Type ℓ} where
  -- `findOne`: the first row that passes.
  unfoldable pub find_one : (A → Bool) → List A → Option A
  find_one p [] = none
  find_one p (x ∷ xs) = if p x then some x else find_one p xs

  unfoldable pub select_where : (A → Bool) → List A → List A
  select_where p [] = []
  select_where p (x ∷ xs) = if p x then x ∷ select_where p xs else select_where p xs

  unfoldable pub update_where : (A → Bool) → (A → A) → List A → List A
  update_where p f [] = []
  update_where p f (x ∷ xs) = (if p x then f x else x) ∷ update_where p f xs

  unfoldable pub delete_where : (A → Bool) → List A → List A
  delete_where p [] = []
  delete_where p (x ∷ xs) = if p x then delete_where p xs else x ∷ delete_where p xs

  unfoldable pub exists_where : (A → Bool) → List A → Bool
  exists_where p [] = false
  exists_where p (x ∷ xs) = p x || exists_where p xs

  unfoldable pub count_where : (A → Bool) → List A → ℕ
  count_where p [] = 0
  count_where p (x ∷ xs) = (if p x then 1 else 0) + count_where p xs

  -- A stable insertion sort, `ORDER BY`: `before x y` tells that `x` may stand before `y`.
  unfoldable pub insert_by : (A → A → Bool) → A → List A → List A
  insert_by before x [] = x ∷ []
  insert_by before x (y ∷ ys) = if before x y then x ∷ y ∷ ys else y ∷ insert_by before x ys

  unfoldable pub order_by : (A → A → Bool) → List A → List A
  unfolding insert_by
  order_by before [] = []
  order_by before (x ∷ xs) = insert_by before x (order_by before xs)

  pub find_one-passes : (p : A → Bool) (xs : List A) (a : A) → find_one p xs ≡ some a → p a ≡ true
  unfolding find_one
  find_one-passes p [] a e = absurd (ground arith)
  find_one-passes p (x ∷ xs) a e = ground (arith, find_one-passes p xs a)

  pub find_one-delete : (p : A → Bool) (xs : List A) → find_one p (delete_where p xs) ≡ none
  unfolding find_one delete_where
  find_one-delete p [] = refl
  find_one-delete p (x ∷ xs) = ground (arith, find_one-delete p xs)

  pub exists-delete : (p : A → Bool) (xs : List A) → exists_where p (delete_where p xs) ≡ false
  unfolding exists_where delete_where
  exists-delete p [] = refl
  exists-delete p (x ∷ xs) = ground (arith, exists-delete p xs)

  pub All-select {κ} :
      (P : A → Type κ) (p : A → Bool) (xs : List A)
      → ((a : A) → p a ≡ true → P a)
      → All P (select_where p xs)
  unfolding select_where
  All-select P p [] h = tt
  All-select P p (x ∷ xs) h = elim (Bool-cases (p x)) [
    | inl e ↦ rw e (h x e, All-select P p xs h)
    | inr e ↦ rw e (All-select P p xs h)
  ]

  pub All-select_keep {κ} :
      (P : A → Type κ) (p : A → Bool) (xs : List A) → All P xs → All P (select_where p xs)
  unfolding select_where
  All-select_keep P p [] h = tt
  All-select_keep P p (x ∷ xs) h = elim (Bool-cases (p x)) [
    | inl e ↦ rw e (h.0, All-select_keep P p xs h.1)
    | inr e ↦ rw e (All-select_keep P p xs h.1)
  ]

  pub All-delete {κ} :
      (P : A → Type κ) (p : A → Bool) (xs : List A) → All P xs → All P (delete_where p xs)
  unfolding delete_where
  All-delete P p [] h = tt
  All-delete P p (x ∷ xs) h = elim (Bool-cases (p x)) [
    | inl e ↦ rw e (All-delete P p xs h.1)
    | inr e ↦ rw e (h.0, All-delete P p xs h.1)
  ]

  pub All-update {κ} :
      (P : A → Type κ) (p : A → Bool) (f : A → A) (xs : List A)
      → ((a : A) → p a ≡ true → P a → P (f a))
      → All P xs
      → All P (update_where p f xs)
  unfolding update_where
  All-update P p f [] h k = tt
  All-update P p f (x ∷ xs) h k = elim (Bool-cases (p x)) [
    | inl e ↦ rw e (h x e k.0, All-update P p f xs h k.1)
    | inr e ↦ rw e (k.0, All-update P p f xs h k.1)
  ]

  pub All-find {κ} :
      (P : A → Type κ) (p : A → Bool) (xs : List A) (a : A)
      → All P xs
      → find_one p xs ≡ some a
      → P a
  unfolding find_one
  All-find P p [] a h e = absurd (ground arith)
  All-find P p (x ∷ xs) a h e = elim (Bool-cases (p x)) [
    | inl t ↦ subst P (ground arith) h.0
    | inr t ↦ All-find P p xs a h.1 (ground arith)
  ]

-- An update that keeps the key of a search changes the row that the search finds.
pub find_one-update {ℓ} :
    {A : Type ℓ} (p q : A → Bool) (f : A → A) (xs : List A)
    → ((a : A) → p (f a) ≡ p a)
    → find_one p (update_where q f xs) ≡ Option.map (λ a. if q a then f a else a) (find_one p xs)
unfolding find_one update_where
find_one-update p q f [] h = refl
find_one-update p q f (x ∷ xs) h = ground (arith, h x, find_one-update p q f xs h)

pub length-update {ℓ} :
    {A : Type ℓ} (q : A → Bool) (f : A → A) (xs : List A) → length (update_where q f xs) ≡ length xs
unfolding update_where
length-update q f [] = refl
length-update q f (x ∷ xs) = ap suc (length-update q f xs)

-- A row that a search finds is among the rows of a wider selection.
pub find_one-In_select :
    {A : Type 0} (p q : A → Bool) (xs : List A) (a : A)
    → ((x : A) → p x ≡ true → q x ≡ true)
    → find_one p xs ≡ some a
    → In a (select_where q xs)
unfolding find_one select_where
find_one-In_select p q [] a h e = absurd (ground arith)
find_one-In_select p q (x ∷ xs) a h e = elim (Bool-cases (p x)) [
  | inl t ↦ rw (h x t) (inl (ground arith))
  | inr t ↦
      let rest = find_one-In_select p q xs a h (ground arith) in
      if_cases (In a) (q x) (x ∷ select_where q xs) (select_where q xs) (λ _. inr rest) (λ _. rest)
]

has-select :
    (a : ℕ) (p : ℕ → Bool) (xs : List ℕ) → has a xs ≡ false → has a (select_where p xs) ≡ false
unfolding has select_where
has-select a p [] h = refl
has-select a p (x ∷ xs) h = ground (arith, has-select a p xs)

pub select-IsDistinct :
    (p : ℕ → Bool) (xs : List ℕ) → IsDistinct xs → IsDistinct (select_where p xs)
unfolding select_where
select-IsDistinct p [] h = tt
select-IsDistinct p (x ∷ xs) h =
    if_cases IsDistinct (p x) _ _ (λ _. (has-select x p xs h.0, select-IsDistinct p xs h.1))
      (λ _. select-IsDistinct p xs h.1)

pub find_one-append {ℓ} :
    {A : Type ℓ} (p : A → Bool) (xs ys : List A)
    → find_one p xs ≡ none
    → find_one p (xs ++ ys) ≡ find_one p ys
unfolding find_one
find_one-append p [] ys e = refl
find_one-append p (x ∷ xs) ys e = ground (arith, find_one-append p xs ys)

-- The row that a search finds, after an update that keeps the search's test and applies to it.
pub find_one-update_found {ℓ} :
    {A : Type ℓ} (p q : A → Bool) (f : A → A) (xs : List A) (a : A)
    → ((x : A) → p (f x) ≡ p x)
    → find_one p xs ≡ some a
    → q a ≡ true
    → find_one p (update_where q f xs) ≡ some (f a)
find_one-update_found p q f xs a h e t = rw (find_one-update p q f xs h, e, t)

pub find_one-head {ℓ} :
    {A : Type ℓ} (p : A → Bool) (x : A) → p x ≡ true → find_one p (x ∷ []) ≡ some x
unfolding find_one
find_one-head p x e = rw e

has-find :
    {A : Type 0} (key : A → ℕ) (p : A → Bool) (xs : List A) (a : A)
    → find_one p xs ≡ some a
    → has (key a) (map key xs) ≡ true
unfolding find_one has
has-find key p [] a e = absurd (ground arith)
has-find key p (x ∷ xs) a e = elim (Bool-cases (p x)) [
  | inl t ↦ ground arith
  | inr t ↦ ground (arith, has-find key p xs a)
]

-- Under distinct keys, two searches that find the same key find the same row.
pub find_one-by_key :
    {A : Type 0} (key : A → ℕ) (p q : A → Bool) (xs : List A) (a b : A)
    → IsDistinct (map key xs)
    → find_one p xs ≡ some a
    → find_one q xs ≡ some b
    → key a ≡ key b
    → a ≡ b
unfolding find_one
find_one-by_key key p q [] a b h e f k = absurd (ground arith)
find_one-by_key key p q (x ∷ xs) a b h e f k =
    ground (arith, h, find_one-by_key key p q xs a b h.1, has-find key p xs a, has-find key q xs b)

-- `upsert` on a unique key: the test tells the rows with the new row's key.
unfoldable pub upsert_where {ℓ} : {A : Type ℓ} → (A → Bool) → A → List A → List A
unfolding exists_where update_where
upsert_where p row xs = if exists_where p xs then update_where p (λ _. row) xs else xs ++ row ∷ []

find_one-overwrite :
    {A : Type 0} (p : A → Bool) (row : A) (xs : List A)
    → p row ≡ true
    → exists_where p xs ≡ true
    → find_one p (update_where p (λ _. row) xs) ≡ some row
unfolding find_one update_where exists_where
find_one-overwrite p row [] h e = absurd (ground arith)
find_one-overwrite p row (x ∷ xs) h e = ground (arith, find_one-overwrite p row xs h)

pub find_one-absent {ℓ} :
    {A : Type ℓ} (p : A → Bool) (xs : List A) → exists_where p xs ≡ false → find_one p xs ≡ none
unfolding find_one exists_where
find_one-absent p [] e = refl
find_one-absent p (x ∷ xs) e = ground (arith, find_one-absent p xs)

pub find_one-upsert :
    {A : Type 0} (p : A → Bool) (row : A) (xs : List A)
    → p row ≡ true
    → find_one p (upsert_where p row xs) ≡ some row
unfolding upsert_where
find_one-upsert p row xs h = elim (Bool-cases (exists_where p xs)) [
  | inl e ↦ rw e (find_one-overwrite p row xs h e)
  | inr e ↦ rw e (find_one-append p xs _ (find_one-absent p xs e) ∙ find_one-head p row h)
]

-- Deleting other rows does not change what a search finds.
pub find_one-delete_other {ℓ} :
    {A : Type ℓ} (p q : A → Bool) (xs : List A)
    → ((x : A) → p x ≡ true → q x ≡ false)
    → find_one p (delete_where q xs) ≡ find_one p xs
unfolding find_one delete_where
find_one-delete_other p q [] h = refl
find_one-delete_other p q (x ∷ xs) h = ground (arith, h x, find_one-delete_other p q xs h)

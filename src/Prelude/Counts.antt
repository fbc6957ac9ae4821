-- ===== src/Prelude/Counts.antt =====
-- How many rows pass a test, through the writes of a table.
use Prim.Native.Nat.{◌+◌, ◌≤◌}
use mathlib.Core.Path.{◌≡◌, refl, subst}
use mathlib.Core.Bool.{Bool, true, false}
use mathlib.Core.Logic.{inl, inr}
use mathlib.Core.Option.{none, some}
use mathlib.Core.List.{List, [], ◌∷◌, ◌++◌, map}
use native.Mathlib.Omega.{arith}
use fenxin.Prelude.Tests.{Bool-cases}
use fenxin.Prelude.Tables.{
  find_one, update_where, delete_where, count_where, select_where, exists_where,
}

pub count-update :
    {A : Type 0} (p q : A → Bool) (f : A → A) (xs : List A)
    → ((a : A) → p (f a) ≡ p a)
    → count_where p (update_where q f xs) ≡ count_where p xs
unfolding count_where update_where
count-update p q f [] h = refl
count-update p q f (x ∷ xs) h = ground (arith, h x, count-update p q f xs h)

pub count-snoc :
    {A : Type 0} (p : A → Bool) (xs : List A) (a : A)
    → count_where p (xs ++ a ∷ []) ≡ count_where p xs + count_where p (a ∷ [])
unfolding count_where
count-snoc p [] a = omega arith
count-snoc p (x ∷ xs) a = ground (arith, count-snoc p xs a)

pub count-delete_le :
    {A : Type 0} (p q : A → Bool) (xs : List A)
    → count_where p (delete_where q xs) ≤ count_where p xs
unfolding count_where delete_where
count-delete_le p q [] = omega arith
count-delete_le p q (x ∷ xs) = ground (arith, count-delete_le p q xs)

pub count-absent :
    {A : Type 0} (p : A → Bool) (xs : List A) → find_one p xs ≡ none → count_where p xs ≡ 0
unfolding count_where find_one
count-absent p [] h = refl
count-absent p (x ∷ xs) h = ground (arith, count-absent p xs)

-- An update of deleted rows is not seen after the deletion.
pub delete-update :
    {A : Type 0} (p q : A → Bool) (f : A → A) (xs : List A)
    → ((a : A) → q a ≡ true → p a ≡ true)
    → ((a : A) → p (f a) ≡ p a)
    → delete_where p (update_where q f xs) ≡ delete_where p xs
unfolding delete_where update_where
delete-update p q f [] h k = refl
delete-update p q f (x ∷ xs) h k = ground (arith, h x, k x, delete-update p q f xs h k)

-- A column that an update keeps.
pub map-update_same :
    {A B : Type 0} (g : A → B) (q : A → Bool) (f : A → A) (xs : List A)
    → ((a : A) → g (f a) ≡ g a)
    → map g (update_where q f xs) ≡ map g xs
unfolding update_where
map-update_same g q f [] h = refl
map-update_same g q f (x ∷ xs) h = ground (arith, h x, map-update_same g q f xs h)

-- Rows that are not updated are selected as before.
pub select-update_other :
    {A : Type 0} (p q : A → Bool) (f : A → A) (xs : List A)
    → ((a : A) → q a ≡ true → p a ≡ false)
    → ((a : A) → p (f a) ≡ p a)
    → select_where p (update_where q f xs) ≡ select_where p xs
unfolding select_where update_where
select-update_other p q f [] h k = refl
select-update_other p q f (x ∷ xs) h k = ground (arith, h x, k x, select-update_other p q f xs h k)

-- After an update, no row passes a test that the updated rows fail and that stands for the update.
pub exists-update_none :
    {A : Type 0} (p q : A → Bool) (f : A → A) (xs : List A)
    → ((a : A) → q a ≡ true → p (f a) ≡ false)
    → ((a : A) → q a ≡ false → p a ≡ false)
    → exists_where p (update_where q f xs) ≡ false
unfolding exists_where update_where
exists-update_none p q f [] h k = refl
exists-update_none p q f (x ∷ xs) h k = elim (Bool-cases (q x)) [
  | inl t ↦ ground (arith, h x t, exists-update_none p q f xs h k)
  | inr t ↦ ground (arith, k x t, exists-update_none p q f xs h k)
]

pub exists-find_fails :
    {A : Type 0} (p q : A → Bool) (xs : List A) (a : A)
    → exists_where p xs ≡ false
    → find_one q xs ≡ some a
    → p a ≡ false
unfolding exists_where find_one
exists-find_fails p q [] a h e = absurd (ground arith)
exists-find_fails p q (x ∷ xs) a h e = elim (Bool-cases (q x)) [
  | inl t ↦
      let same : x ≡ a = ground (arith, t, e) in subst (λ y. p y ≡ false) same (ground (arith, h))
  | inr t ↦ exists-find_fails p q xs a (ground (arith, h)) (ground (arith, t, e))
]

-- ===== src/Prelude/Sorted.antt =====
-- Distinct keys and counts through selection, sorting and cutting, and the deletion of one row.
use Prim.Native.Nat.{ℕ, zero, suc, ◌+◌, ◌≤◌}
use mathlib.Core.Path.{◌≡◌, refl, ap, subst, ◌∙◌}
use mathlib.Core.Logic.{inl, inr}
use mathlib.Core.Bool.{Bool, true, false, not, ◌||◌}
use mathlib.Core.List.{List, [], ◌∷◌, map}
use native.Mathlib.Omega.{arith}
use fenxin.Prelude.Tests.{Bool-cases, if_cases, ◌==◌, if◌then◌else◌}
use fenxin.Prelude.Lists.{length, In, has, IsDistinct}
use fenxin.Prelude.Tables.{select_where, delete_where, count_where, insert_by, order_by}
use fenxin.Prelude.Pages.{drop}
use fenxin.Prelude.Counts.{count-delete_le}

module _ {A : Type 0} where
  pub length-select : (p : A → Bool) (xs : List A) → length (select_where p xs) ≡ count_where p xs
  unfolding select_where count_where
  length-select p [] = refl
  length-select p (x ∷ xs) = ground (arith, length-select p xs)

  count-insert :
      (p : A → Bool) (before : A → A → Bool) (x : A) (ys : List A)
      → count_where p (insert_by before x ys) ≡ count_where p (x ∷ ys)
  unfolding count_where insert_by
  count-insert p before x [] = refl
  count-insert p before x (y ∷ ys) = ground (arith, count-insert p before x ys)

  pub count-order_by :
      (p : A → Bool) (before : A → A → Bool) (xs : List A)
      → count_where p (order_by before xs) ≡ count_where p xs
  unfolding count_where order_by
  count-order_by p before [] = refl
  count-order_by p before (x ∷ xs) =
      count-insert p before x (order_by before xs)
      ∙ ap (λ n. (if p x then 1 else 0) + n) (count-order_by p before xs)

  -- The rows of a selection that pass another test, and those that do not.
  pub count-select_split :
      (p q : A → Bool) (xs : List A)
      → count_where q (select_where p xs) + count_where (λ x. not (q x)) (select_where p xs)
        ≡ count_where p xs
  unfolding count_where select_where
  count-select_split p q [] = omega arith
  count-select_split p q (x ∷ xs) = ground (arith, count-select_split p q xs)

  pub count-select_le :
      (p q : A → Bool) (xs : List A) → count_where q (select_where p xs) ≤ count_where q xs
  unfolding count_where select_where
  count-select_le p q [] = omega arith
  count-select_le p q (x ∷ xs) = ground (arith, count-select_le p q xs)

  pub length-drop_le : (n : ℕ) (xs : List A) → length xs ≤ n + length (drop n xs)
  length-drop_le zero xs = omega arith
  length-drop_le (suc n) [] = omega arith
  length-drop_le (suc n) (x ∷ xs) = omega (arith, length-drop_le n xs)

  pub In-delete :
      (q : A → Bool) (xs : List A) (a : A) → In a xs → q a ≡ false → In a (delete_where q xs)
  unfolding delete_where
  In-delete q [] a m h = absurd m
  In-delete q (x ∷ xs) a (inl e) h = rw (subst (λ y. q y ≡ false) e h) (inl e)
  In-delete q (x ∷ xs) a (inr m) h =
      if_cases (In a) (q x) (delete_where q xs) (x ∷ delete_where q xs) (λ _. In-delete q xs a m h)
        (λ _. inr (In-delete q xs a m h))

  -- A deletion that hits a row of the count lowers it.
  pub count-delete_lt :
      (p q : A → Bool) (xs : List A) (a : A)
      → In a xs
      → p a ≡ true
      → q a ≡ true
      → count_where p (delete_where q xs) + 1 ≤ count_where p xs
  unfolding count_where delete_where
  count-delete_lt p q [] a m h k = absurd m
  count-delete_lt p q (x ∷ xs) a (inl e) h k =
      let px : p x ≡ true = subst (λ y. p y ≡ true) e h in
      let qx : q x ≡ true = subst (λ y. q y ≡ true) e k in
      ground (arith, px, qx, count-delete_le p q xs)
  count-delete_lt p q (x ∷ xs) a (inr m) h k =
      ground (arith, count-delete_lt p q xs a m h k, count-delete_le p q xs)

  module _ (key : A → ℕ) where
    has-select_key :
        (k : ℕ) (p : A → Bool) (xs : List A)
        → has k (map key xs) ≡ false
        → has k (map key (select_where p xs)) ≡ false
    unfolding has select_where
    has-select_key k p [] h = refl
    has-select_key k p (x ∷ xs) h = ground (arith, has-select_key k p xs)

    pub select_keyed :
        (p : A → Bool) (xs : List A)
        → IsDistinct (map key xs)
        → IsDistinct (map key (select_where p xs))
    unfolding select_where
    select_keyed p [] h = tt
    select_keyed p (x ∷ xs) h =
        if_cases (λ (ys : List A). IsDistinct (map key ys)) (p x) (x ∷ select_where p xs)
          (select_where p xs) (λ _. (has-select_key (key x) p xs h.0, select_keyed p xs h.1))
          (λ _. select_keyed p xs h.1)

    has-insert :
        (k : ℕ) (before : A → A → Bool) (x : A) (ys : List A)
        → has k (map key (insert_by before x ys)) ≡ ((k == key x) || has k (map key ys))
    unfolding has insert_by
    has-insert k before x [] = refl
    has-insert k before x (y ∷ ys) = ground (arith, has-insert k before x ys)

    has-order_by :
        (k : ℕ) (before : A → A → Bool) (xs : List A)
        → has k (map key (order_by before xs)) ≡ has k (map key xs)
    unfolding has order_by
    has-order_by k before [] = refl
    has-order_by k before (x ∷ xs) =
        ground (arith, has-insert k before x (order_by before xs), has-order_by k before xs)

    insert_keyed :
        (before : A → A → Bool) (x : A) (ys : List A)
        → has (key x) (map key ys) ≡ false
        → IsDistinct (map key ys)
        → IsDistinct (map key (insert_by before x ys))
    unfolding insert_by has
    insert_keyed before x [] h d = (h, tt)
    insert_keyed before x (y ∷ ys) h d =
        if_cases (λ (zs : List A). IsDistinct (map key zs)) (before x y) (x ∷ y ∷ ys)
          (y ∷ insert_by before x ys) (λ _. (h, d))
          (λ _. (
            ground (arith, has-insert (key y) before x ys, d.0, h),
            insert_keyed before x ys (ground (arith, h)) d.1,
          ))

    pub order_by_keyed :
        (before : A → A → Bool) (xs : List A)
        → IsDistinct (map key xs)
        → IsDistinct (map key (order_by before xs))
    unfolding order_by
    order_by_keyed before [] h = tt
    order_by_keyed before (x ∷ xs) h =
        insert_keyed before x (order_by before xs) (has-order_by (key x) before xs ∙ h.0)
          (order_by_keyed before xs h.1)

    pub drop_keyed :
        (n : ℕ) (xs : List A) → IsDistinct (map key xs) → IsDistinct (map key (drop n xs))
    drop_keyed zero xs h = h
    drop_keyed (suc n) [] h = tt
    drop_keyed (suc n) (x ∷ xs) h = drop_keyed n xs h.1

    -- At most one row has a key.
    count_absent_key :
        (k : ℕ) (xs : List A) → has k (map key xs) ≡ false → count_where (λ x. key x == k) xs ≡ 0
    unfolding has count_where
    count_absent_key k [] h = refl
    count_absent_key k (x ∷ xs) h = ground (arith, count_absent_key k xs)

    pub count_key_le :
        (k : ℕ) (xs : List A) → IsDistinct (map key xs) → count_where (λ x. key x == k) xs ≤ 1
    unfolding count_where
    count_key_le k [] h = omega arith
    count_key_le k (x ∷ xs) h = elim (Bool-cases (key x == k)) [
      | inl e ↦
          let gone : has k (map key xs) ≡ false =
            subst (λ j. has j (map key xs) ≡ false) (ground arith) h.0 in
          ground (arith, e, count_absent_key k xs gone)
      | inr e ↦ ground (arith, e, count_key_le k xs h.1)
    ]

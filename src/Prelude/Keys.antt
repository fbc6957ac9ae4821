-- ===== src/Prelude/Keys.antt =====
-- Rows under distinct keys, and membership through selection, sorting and cutting.
use Prim.Native.Nat.{ℕ, zero, suc, ◌≤◌}
use mathlib.Core.Path.{◌≡◌, refl, ap, subst, ◌∙◌}
use mathlib.Core.Logic.{◌⊎◌, inl, inr}
use mathlib.Core.Bool.{Bool, true, false, ◌&&◌}
use mathlib.Core.Option.{some}
use mathlib.Core.List.{List, [], ◌∷◌, ◌++◌, map, reverse, reverse-cons}
use native.Mathlib.Omega.{arith}
use fenxin.Prelude.Tests.{Bool-cases, if_cases, ◌==◌}
use fenxin.Prelude.Lists.{length, take, In, has, IsDistinct, IsDistinct-snoc}
use fenxin.Prelude.Tables.{find_one, select_where, update_where, delete_where, insert_by, order_by}

module _ {A : Type 0} where
  pub In-take : (n : ℕ) (xs : List A) (a : A) → In a (take n xs) → In a xs
  In-take zero xs a m = absurd m
  In-take (suc n) [] a m = absurd m
  In-take (suc n) (x ∷ xs) a (inl e) = inl e
  In-take (suc n) (x ∷ xs) a (inr m) = inr (In-take n xs a m)

  pub take_all : (n : ℕ) (xs : List A) → length xs ≤ n → take n xs ≡ xs
  take_all zero [] h = refl
  take_all zero (x ∷ xs) h = absurd (omega arith)
  take_all (suc n) [] h = refl
  take_all (suc n) (x ∷ xs) h = ap (◌∷◌ x) (take_all n xs (omega arith))

  In-insert_back :
      (before : A → A → Bool) (x : A) (ys : List A) (a : A)
      → In a (insert_by before x ys)
      → (a ≡ x) ⊎ In a ys
  unfolding insert_by
  In-insert_back before x [] a m = m
  In-insert_back before x (y ∷ ys) a m = elim (Bool-cases (before x y)) [
    | inl e ↦ (let k : In a (x ∷ y ∷ ys) = rw e at m in k)
    | inr e ↦
        let k : In a (y ∷ insert_by before x ys) = rw e at m in
        elim k [
          | inl h ↦ inr (inl h)
          | inr h ↦ elim (In-insert_back before x ys a h) [ inl f ↦ inl f | inr f ↦ inr (inr f) ]
        ]
  ]

  In-insert :
      (before : A → A → Bool) (x : A) (ys : List A) (a : A)
      → (a ≡ x) ⊎ In a ys
      → In a (insert_by before x ys)
  unfolding insert_by
  In-insert before x [] a m = m
  In-insert before x (y ∷ ys) a m =
      if_cases (In a) (before x y) (x ∷ y ∷ ys) (y ∷ insert_by before x ys) (λ _. m)
        (λ _. elim m [
          | inl e ↦ inr (In-insert before x ys a (inl e))
          | inr k ↦ elim k [ inl e ↦ inl e | inr h ↦ inr (In-insert before x ys a (inr h)) ]
        ])

  pub In-order_by :
      (before : A → A → Bool) (xs : List A) (a : A) → In a xs → In a (order_by before xs)
  unfolding order_by
  In-order_by before [] a m = m
  In-order_by before (x ∷ xs) a m =
      In-insert before x (order_by before xs) a
        (elim m [ inl e ↦ inl e | inr k ↦ inr (In-order_by before xs a k) ])

  pub In-order_by_back :
      (before : A → A → Bool) (xs : List A) (a : A) → In a (order_by before xs) → In a xs
  unfolding order_by
  In-order_by_back before [] a m = m
  In-order_by_back before (x ∷ xs) a m = elim (In-insert_back before x (order_by before xs) a m) [
    | inl e ↦ inl e
    | inr k ↦ inr (In-order_by_back before xs a k)
  ]

  length-insert :
      (before : A → A → Bool) (x : A) (ys : List A)
      → length (insert_by before x ys) ≡ suc (length ys)
  unfolding insert_by
  length-insert before x [] = refl
  length-insert before x (y ∷ ys) =
      if_cases (λ (zs : List A). length zs ≡ suc (suc (length ys))) (before x y) (x ∷ y ∷ ys)
        (y ∷ insert_by before x ys) (λ _. refl) (λ _. ap suc (length-insert before x ys))

  pub length-order_by :
      (before : A → A → Bool) (xs : List A) → length (order_by before xs) ≡ length xs
  unfolding order_by
  length-order_by before [] = refl
  length-order_by before (x ∷ xs) =
      length-insert before x (order_by before xs) ∙ ap suc (length-order_by before xs)

  pub In-select :
      (p : A → Bool) (xs : List A) (a : A) → In a xs → p a ≡ true → In a (select_where p xs)
  unfolding select_where
  In-select p [] a m h = m
  In-select p (x ∷ xs) a (inl e) h = rw (subst (λ y. p y ≡ true) e h) (inl e)
  In-select p (x ∷ xs) a (inr m) h =
      if_cases (In a) (p x) (x ∷ select_where p xs) (select_where p xs)
        (λ _. inr (In-select p xs a m h)) (λ _. In-select p xs a m h)

  pub In-select_back :
      (p : A → Bool) (xs : List A) (a : A) → In a (select_where p xs) → In a xs × (p a ≡ true)
  unfolding select_where
  In-select_back p [] a m = absurd m
  In-select_back p (x ∷ xs) a m = elim (Bool-cases (p x)) [
    | inl t ↦
        let k : In a (x ∷ select_where p xs) = rw t at m in
        elim k [
          | inl e ↦ (inl e, ap p e ∙ t)
          | inr h ↦ let (i, j) = In-select_back p xs a h in (inr i, j)
        ]
    | inr t ↦
        let k : In a (select_where p xs) = rw t at m in
        let (i, j) = In-select_back p xs a k in (inr i, j)
  ]

  pub find_one-In : (p : A → Bool) (xs : List A) (a : A) → find_one p xs ≡ some a → In a xs
  unfolding find_one
  find_one-In p [] a e = absurd (ground arith)
  find_one-In p (x ∷ xs) a e = elim (Bool-cases (p x)) [
    | inl t ↦ inl (ground arith)
    | inr t ↦ inr (find_one-In p xs a (ground arith))
  ]

  module _ (key : A → ℕ) where
    pub has-map : (xs : List A) (a : A) → In a xs → has (key a) (map key xs) ≡ true
    unfolding has
    has-map [] a m = absurd m
    has-map (x ∷ xs) a (inl e) = ground (arith, ap key e)
    has-map (x ∷ xs) a (inr m) = ground (arith, has-map xs a m)

    pub has-map_back :
        (xs : List A) (k : ℕ) → has k (map key xs) ≡ true → (a : A) × In a xs × (key a ≡ k)
    unfolding has
    has-map_back [] k h = absurd (ground arith)
    has-map_back (x ∷ xs) k h = elim (Bool-cases (k == key x)) [
      | inl e ↦ (x, inl refl, ground arith)
      | inr e ↦ let (a, m, f) = has-map_back xs k (ground arith) in (a, inr m, f)
    ]

    pub In-by_key :
        (xs : List A) (a b : A)
        → IsDistinct (map key xs)
        → In a xs
        → In b xs
        → key a ≡ key b
        → a ≡ b
    In-by_key [] a b h m n k = absurd m
    In-by_key (x ∷ xs) a b h (inl e) (inl f) k = cc
    In-by_key (x ∷ xs) a b h (inl e) (inr n) k = ground (arith, h.0, has-map xs b n, ap key e)
    In-by_key (x ∷ xs) a b h (inr m) (inl f) k = ground (arith, h.0, has-map xs a m, ap key f)
    In-by_key (x ∷ xs) a b h (inr m) (inr n) k = In-by_key xs a b h.1 m n k

    pub map-update_key :
        (p : A → Bool) (f : A → A) (xs : List A)
        → ((a : A) → key (f a) ≡ key a)
        → map key (update_where p f xs) ≡ map key xs
    unfolding update_where
    map-update_key p f [] h = refl
    map-update_key p f (x ∷ xs) h =
        if_cases (λ y. key y ∷ map key (update_where p f xs) ≡ key x ∷ map key xs) (p x) (f x) x
          (λ _. cc (h x, map-update_key p f xs h)) (λ _. cc (map-update_key p f xs h))

    has-delete_key :
        (k : ℕ) (q : A → Bool) (xs : List A)
        → has k (map key xs) ≡ false
        → has k (map key (delete_where q xs)) ≡ false
    unfolding has delete_where
    has-delete_key k q [] h = refl
    has-delete_key k q (x ∷ xs) h = ground (arith, has-delete_key k q xs)

    pub delete-IsDistinct :
        (q : A → Bool) (xs : List A)
        → IsDistinct (map key xs)
        → IsDistinct (map key (delete_where q xs))
    unfolding delete_where
    delete-IsDistinct q [] h = tt
    delete-IsDistinct q (x ∷ xs) h =
        if_cases (λ (ys : List A). IsDistinct (map key ys)) (q x) (delete_where q xs)
          (x ∷ delete_where q xs) (λ _. delete-IsDistinct q xs h.1)
          (λ _. (has-delete_key (key x) q xs h.0, delete-IsDistinct q xs h.1))

    map-snoc : (xs : List A) (a : A) → map key (xs ++ a ∷ []) ≡ map key xs ++ key a ∷ []
    map-snoc [] a = refl
    map-snoc (x ∷ xs) a = ap (◌∷◌ (key x)) (map-snoc xs a)

    pub snoc-IsDistinct :
        (xs : List A) (a : A)
        → IsDistinct (map key xs)
        → has (key a) (map key xs) ≡ false
        → IsDistinct (map key (xs ++ a ∷ []))
    snoc-IsDistinct xs a d h = rw (map-snoc xs a) (IsDistinct-snoc (map key xs) (key a) d h)

-- Membership in a concatenation, an image and a reversed list.
pub In-append_back : {A : Type 0} (xs ys : List A) (a : A) → In a (xs ++ ys) → In a xs ⊎ In a ys
In-append_back [] ys a m = inr m
In-append_back (x ∷ xs) ys a (inl e) = inl (inl e)
In-append_back (x ∷ xs) ys a (inr m) = elim (In-append_back xs ys a m) [
  | inl h ↦ inl (inr h)
  | inr h ↦ inr h
]

pub In-append : {A : Type 0} (xs ys : List A) (a : A) → In a xs → In a (xs ++ ys)
In-append [] ys a m = absurd m
In-append (x ∷ xs) ys a (inl e) = inl e
In-append (x ∷ xs) ys a (inr m) = inr (In-append xs ys a m)

pub In-map_back :
    {A B : Type 0} (f : A → B) (xs : List A) (b : B)
    → In b (map f xs)
    → (a : A) × In a xs × (b ≡ f a)
In-map_back f [] b m = absurd m
In-map_back f (x ∷ xs) b (inl e) = (x, inl refl, e)
In-map_back f (x ∷ xs) b (inr m) = let (a, i, e) = In-map_back f xs b m in (a, inr i, e)

pub In-reverse_back : {A : Type 0} (xs : List A) (a : A) → In a (reverse xs) → In a xs
In-reverse_back [] a m = m
In-reverse_back (x ∷ xs) a m =
    let k : In a (reverse xs ++ x ∷ []) = subst (In a) (reverse-cons x xs) m in
    elim (In-append_back (reverse xs) (x ∷ []) a k) [
      | inl h ↦ inr (In-reverse_back xs a h)
      | inr h ↦ elim h [ inl e ↦ inl e | inr z ↦ absurd z ]
    ]

-- Membership in a selection.
pub has-select_and :
    (a : ℕ) (p : ℕ → Bool) (xs : List ℕ) → has a (select_where p xs) ≡ (has a xs && p a)
unfolding has select_where
has-select_and a p [] = refl
has-select_and a p (x ∷ xs) = elim (Bool-cases (a == x)) [
  | inl e ↦
      let same : a ≡ x = ground arith in
      let k : p a ≡ p x = ap p same in ground (arith, e, k, has-select_and a p xs)
  | inr e ↦ ground (arith, e, has-select_and a p xs)
]

-- ===== src/Prelude/Ordered.antt =====
-- What `ORDER BY` gives: each row may stand before the next one.
use Prim.Native.Nat.{ℕ, zero, suc}
use mathlib.Core.Path.{◌≡◌}
use mathlib.Core.Bool.{Bool, true, false}
use mathlib.Core.List.{List, [], ◌∷◌}
use fenxin.Prelude.Tests.{if_cases}
use fenxin.Prelude.Lists.{take}
use fenxin.Prelude.Tables.{insert_by, order_by}

module _ {A : Type 0} (before : A → A → Bool) where
  -- `x` may stand before the head of the list.
  abbrev pub MayPrecede : A → List A → Type 0
  MayPrecede x [] = Unit
  MayPrecede x (y ∷ ys) = before x y ≡ true

  abbrev pub IsOrdered : List A → Type 0
  IsOrdered [] = Unit
  IsOrdered (x ∷ xs) = MayPrecede x xs × IsOrdered xs

  MayPrecede-insert :
      (z x : A) (ys : List A)
      → before z x ≡ true
      → MayPrecede z ys
      → MayPrecede z (insert_by before x ys)
  unfolding insert_by
  MayPrecede-insert z x [] h k = h
  MayPrecede-insert z x (y ∷ ys) h k =
      if_cases (MayPrecede z) (before x y) (x ∷ y ∷ ys) (y ∷ insert_by before x ys) (λ _. h)
        (λ _. k)

  MayPrecede-take : (n : ℕ) (z : A) (xs : List A) → MayPrecede z xs → MayPrecede z (take n xs)
  MayPrecede-take zero z xs h = tt
  MayPrecede-take (suc n) z [] h = tt
  MayPrecede-take (suc n) z (x ∷ xs) h = h

  pub take-IsOrdered : (n : ℕ) (xs : List A) → IsOrdered xs → IsOrdered (take n xs)
  take-IsOrdered zero xs h = tt
  take-IsOrdered (suc n) [] h = tt
  take-IsOrdered (suc n) (x ∷ xs) h = (MayPrecede-take n x xs h.0, take-IsOrdered n xs h.1)

  module _ (total : (x y : A) → before x y ≡ false → before y x ≡ true) where
    insert-IsOrdered : (x : A) (ys : List A) → IsOrdered ys → IsOrdered (insert_by before x ys)
    unfolding insert_by
    insert-IsOrdered x [] h = (tt, tt)
    insert-IsOrdered x (y ∷ ys) h =
        if_cases IsOrdered (before x y) (x ∷ y ∷ ys) (y ∷ insert_by before x ys) (λ t. (t, h))
          (λ t. (MayPrecede-insert y x ys (total x y t) h.0, insert-IsOrdered x ys h.1))

    pub order_by-IsOrdered : (xs : List A) → IsOrdered (order_by before xs)
    unfolding order_by
    order_by-IsOrdered [] = tt
    order_by-IsOrdered (x ∷ xs) = insert-IsOrdered x (order_by before xs) (order_by-IsOrdered xs)

-- ===== src/Prelude/Pages.antt =====
-- Pages of a listing: `skip` and `take`, and a parameter that is absent or 0.
use Prim.Native.Nat.{ℕ, zero, suc}
use mathlib.Core.Bool.{Bool}
use mathlib.Core.Logic.{inr}
use mathlib.Core.Option.{Option, none, some}
use mathlib.Core.List.{List, [], ◌∷◌}
use fenxin.Prelude.Lists.{In}
use fenxin.Prelude.Ordered.{IsOrdered}

-- `params.page || 1`
abbrev pub or_default : Option ℕ → ℕ → ℕ
or_default none d = d
or_default (some zero) d = d
or_default (some (suc n)) d = suc n

abbrev pub drop {ℓ} : {A : Type ℓ} → ℕ → List A → List A
drop zero xs = xs
drop (suc n) [] = []
drop (suc n) (x ∷ xs) = drop n xs

pub In-drop : {A : Type 0} (n : ℕ) (xs : List A) (a : A) → In a (drop n xs) → In a xs
In-drop zero xs a m = m
In-drop (suc n) [] a m = absurd m
In-drop (suc n) (x ∷ xs) a m = inr (In-drop n xs a m)

pub drop-IsOrdered :
    {A : Type 0} (before : A → A → Bool) (n : ℕ) (xs : List A)
    → IsOrdered before xs
    → IsOrdered before (drop n xs)
drop-IsOrdered before zero xs h = h
drop-IsOrdered before (suc n) [] h = tt
drop-IsOrdered before (suc n) (x ∷ xs) h = drop-IsOrdered before n xs h.1

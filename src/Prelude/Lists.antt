-- ===== src/Prelude/Lists.antt =====
-- Lists measured by native numbers, membership by recursion, duplicates, and a stable sort.
use Prim.Native.Nat.{ℕ, zero, suc, ◌+◌, ◌≤◌}
use mathlib.Core.Path.{◌≡◌, refl, ap}
use mathlib.Core.Logic.{◌⊎◌, inl, inr}
use mathlib.Core.Bool.{Bool, true, false, not, ◌&&◌, ◌||◌}
use mathlib.Core.List.{List, [], ◌∷◌, ◌++◌, map}
use native.Mathlib.Omega.{arith}
use fenxin.Prelude.Tests.{◌==◌, if◌then◌else◌, Bool-cases}

module _ {ℓ} {A : Type ℓ} where
  abbrev pub length : List A → ℕ
  length [] = 0
  length (x ∷ xs) = suc (length xs)

  abbrev pub take : ℕ → List A → List A
  take zero xs = []
  take (suc n) [] = []
  take (suc n) (x ∷ xs) = x ∷ take n xs

  pub length-take_le : (n : ℕ) (xs : List A) → length (take n xs) ≤ n
  length-take_le zero xs = omega arith
  length-take_le (suc n) [] = omega arith
  length-take_le (suc n) (x ∷ xs) = omega (arith, length-take_le n xs)

  pub length-append : (xs ys : List A) → length (xs ++ ys) ≡ length xs + length ys
  length-append [] ys = omega arith
  length-append (x ∷ xs) ys = omega (arith, length-append xs ys)

pub length-map {ℓ κ} :
    {A : Type ℓ} {B : Type κ} (f : A → B) (xs : List A) → length (map f xs) ≡ length xs
length-map f [] = refl
length-map f (x ∷ xs) = ap suc (length-map f xs)

-- Every element satisfies `P`, and `a` is an element, by recursion.
abbrev pub All {ℓ κ} : {A : Type ℓ} → (A → Type κ) → List A → Type κ
All P [] = Unit
All P (x ∷ xs) = P x × All P xs

abbrev pub In : {A : Type 0} → A → List A → Type 0
In a [] = ⊥
In a (x ∷ xs) = (a ≡ x) ⊎ In a xs

pub All-In {κ} : {A : Type 0} (P : A → Type κ) (xs : List A) (a : A) → All P xs → In a xs → P a
All-In P [] a h m = absurd m
All-In P (x ∷ xs) a h (inl e) = rw e h.0
All-In P (x ∷ xs) a h (inr m) = All-In P xs a h.1 m

pub All-append {ℓ κ} :
    {A : Type ℓ} (P : A → Type κ) (xs ys : List A) → All P xs → All P ys → All P (xs ++ ys)
All-append P [] ys h k = k
All-append P (x ∷ xs) ys h k = (h.0, All-append P xs ys h.1 k)

pub All-imply :
    {A : Type 0} (P Q : A → Type 0) (xs : List A) → ((a : A) → P a → Q a) → All P xs → All Q xs
All-imply P Q [] h k = tt
All-imply P Q (x ∷ xs) h k = (h x k.0, All-imply P Q xs h k.1)

-- `set.has(id)`, and the first occurrences, `[...new Set(ids)]`.
unfoldable pub has : ℕ → List ℕ → Bool
has a [] = false
has a (x ∷ xs) = a == x || has a xs

pub has-In : (a : ℕ) (xs : List ℕ) → has a xs ≡ true → In a xs
unfolding has
has-In a [] h = absurd (ground arith)
has-In a (x ∷ xs) h = ground (arith, has-In a xs)

pub In-has : (a : ℕ) (xs : List ℕ) → In a xs → has a xs ≡ true
unfolding has
In-has a [] m = absurd m
In-has a (x ∷ xs) (inl e) = ground arith
In-has a (x ∷ xs) (inr m) = ground (arith, In-has a xs m)

pub has-append : (a : ℕ) (xs ys : List ℕ) → has a (xs ++ ys) ≡ (has a xs || has a ys)
unfolding has
has-append a [] ys = refl
has-append a (x ∷ xs) ys = ground (arith, has-append a xs ys)

-- The elements of the list that the accumulator does not hold, each once.
pub distinct_from : List ℕ → List ℕ → List ℕ
distinct_from seen [] = []
distinct_from seen (x ∷ xs) =
    let fresh = x ∷ distinct_from (x ∷ seen) xs in
    let rest = distinct_from seen xs in if has x seen then rest else fresh

unfoldable pub distinct : List ℕ → List ℕ
unfolding distinct_from has
distinct xs = distinct_from [] xs

-- No element stands twice.
abbrev pub IsDistinct : List ℕ → Type 0
IsDistinct [] = Unit {0}
IsDistinct (x ∷ xs) = (has x xs ≡ false) × IsDistinct xs

has_head : (x : ℕ) (xs : List ℕ) → has x (x ∷ xs) ≡ true
unfolding has
has_head x xs = ground arith

has-distinct_from :
    (a : ℕ) (seen xs : List ℕ) → has a (distinct_from seen xs) ≡ (has a xs && not (has a seen))
unfolding distinct_from has
has-distinct_from a seen [] = refl
has-distinct_from a seen (x ∷ xs) =
    ground (arith, has-distinct_from a seen xs, has-distinct_from a (x ∷ seen) xs)

pub has-distinct : (a : ℕ) (xs : List ℕ) → has a (distinct xs) ≡ has a xs
unfolding distinct
has-distinct a xs = ground (arith, has-distinct_from a [] xs)

distinct_from-IsDistinct : (seen xs : List ℕ) → IsDistinct (distinct_from seen xs)
unfolding distinct_from
distinct_from-IsDistinct seen [] = tt
distinct_from-IsDistinct seen (x ∷ xs) = elim (Bool-cases (has x seen)) [
  | inl e ↦ rw e (distinct_from-IsDistinct seen xs)
  | inr e ↦ rw e (
    rw (has-distinct_from x (x ∷ seen) xs) (ground (arith, has_head x seen)),
    distinct_from-IsDistinct (x ∷ seen) xs,
  )
]

pub distinct-IsDistinct : (xs : List ℕ) → IsDistinct (distinct xs)
unfolding distinct
distinct-IsDistinct xs = distinct_from-IsDistinct [] xs

distinct_from-same :
    (seen xs : List ℕ)
    → IsDistinct xs
    → ((a : ℕ) → has a xs ≡ true → has a seen ≡ false)
    → distinct_from seen xs ≡ xs
unfolding distinct_from has
distinct_from-same seen [] d h = refl
distinct_from-same seen (x ∷ xs) d h =
    let rest : distinct_from (x ∷ seen) xs ≡ xs =
      distinct_from-same (x ∷ seen) xs d.1 (λ a t. ground (arith, h a, d.0, t)) in
    let fresh : has x seen ≡ false = h x (has_head x xs) in rw fresh (ap (◌∷◌ x) rest)

pub distinct_same : (xs : List ℕ) → IsDistinct xs → distinct xs ≡ xs
unfolding distinct has
distinct_same xs d = distinct_from-same [] xs d (λ a t. refl)

pub IsDistinct-snoc :
    (xs : List ℕ) (u : ℕ) → IsDistinct xs → has u xs ≡ false → IsDistinct (xs ++ u ∷ [])
unfolding has
IsDistinct-snoc [] u d h = (refl, tt)
IsDistinct-snoc (x ∷ xs) u d h =
    (ground (arith, has-append x xs (u ∷ []), d.0, h), IsDistinct-snoc xs u d.1 (ground arith))

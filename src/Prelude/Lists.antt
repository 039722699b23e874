-- ===== src/Prelude/Lists.antt =====
-- Lists measured by native numbers, and the tests that Python makes on sequences.
use Prim.Native.Nat.{ℕ, zero, suc, ◌+◌, ◌≤◌}
use mathlib.Core.Path.{◌≡◌, refl, ap}
use mathlib.Core.Bool.{Bool, true, false, ◌&&◌, ◌||◌}
use mathlib.Core.List.{List, [], ◌∷◌, ◌++◌, map}
use native.Mathlib.Omega.{arith}
use ai_investment_manager.Prelude.Tests.{ltb, ◌==◌, if◌then◌else◌}

module _ {ℓ} {A : Type ℓ} where
  -- `len(xs)`
  abbrev pub length : List A → ℕ
  length [] = 0
  length (x ∷ xs) = suc (length xs)

  -- `xs[:n]`
  abbrev pub take : ℕ → List A → List A
  take zero xs = []
  take (suc n) [] = []
  take (suc n) (x ∷ xs) = x ∷ take n xs

  -- `bool(xs)`
  abbrev pub is_nonempty : List A → Bool
  is_nonempty [] = false
  is_nonempty (x ∷ xs) = true

  -- `any(test(x) for x in xs)`
  abbrev pub any : (A → Bool) → List A → Bool
  any test [] = false
  any test (x ∷ xs) = test x || any test xs

  -- `all(test(x) for x in xs)`
  abbrev pub all : (A → Bool) → List A → Bool
  all test [] = true
  all test (x ∷ xs) = test x && all test xs

  -- `[x for x in xs if test(x)]`
  abbrev pub select : (A → Bool) → List A → List A
  select test [] = []
  select test (x ∷ xs) = let rest = select test xs in if test x then x ∷ rest else rest

  pub length-select : (test : A → Bool) (xs : List A) → length (select test xs) ≤ length xs
  length-select test [] = omega arith
  length-select test (x ∷ xs) = ground (arith, length-select test xs)

  pub length-take : (n : ℕ) (xs : List A) → length (take n xs) ≤ n
  length-take zero xs = omega arith
  length-take (suc n) [] = omega arith
  length-take (suc n) (x ∷ xs) = omega (arith, length-take n xs)

  pub length-append : (xs ys : List A) → length (xs ++ ys) ≡ length xs + length ys
  length-append [] ys = omega arith
  length-append (x ∷ xs) ys = omega (arith, length-append xs ys)

pub length-map {ℓ κ} :
    {A : Type ℓ} {B : Type κ} (f : A → B) (xs : List A) → length (map f xs) ≡ length xs
length-map f [] = refl
length-map f (x ∷ xs) = ap suc (length-map f xs)

-- `a in xs`
abbrev pub contains : ℕ → List ℕ → Bool
contains a [] = false
contains a (x ∷ xs) = a == x || contains a xs

-- `set(xs)`, in the order of the first of each
abbrev pub dedup : List ℕ → List ℕ
dedup [] = []
dedup (x ∷ xs) = let rest = dedup xs in if contains x xs then rest else x ∷ rest

-- `len(set(xs)) == len(xs)`
abbrev pub is_unique : List ℕ → Bool
is_unique xs = length (dedup xs) == length xs

-- `xs == ys` on tuples of identities
abbrev pub same : List ℕ → List ℕ → Bool
same [] [] = true
same (x ∷ xs) (y ∷ ys) = x == y && same xs ys
same _ _ = false

-- `xs < ys` on tuples of numbers
abbrev pub tuple_less : List ℕ → List ℕ → Bool
tuple_less [] [] = false
tuple_less [] (y ∷ ys) = true
tuple_less (x ∷ xs) [] = false
tuple_less (x ∷ xs) (y ∷ ys) = ltb x y || x == y && tuple_less xs ys

-- `tuple(sorted(set(xs))) == xs` on tuples of numbers, which means that they ascend strictly
abbrev pub ascend : List (List ℕ) → Bool
ascend [] = true
ascend (x ∷ []) = true
ascend (x ∷ y ∷ ys) = tuple_less x y && ascend (y ∷ ys)

-- `sum(f(x) for x in xs)`
abbrev pub total {ℓ} : {A : Type ℓ} → (A → ℕ) → List A → ℕ
total f [] = 0
total f (x ∷ xs) = f x + total f xs

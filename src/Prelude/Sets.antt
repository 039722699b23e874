-- ===== src/Prelude/Sets.antt =====
-- Membership in a list of identities, through the operations that keep sets.
use Prim.Native.Nat.{ℕ}
use mathlib.Core.Path.{◌≡◌, refl}
use mathlib.Core.Bool.{Bool, not, ◌||◌}
use mathlib.Core.Logic.{◌≢◌}
use mathlib.Core.List.{List, [], ◌∷◌, ◌++◌}
use native.Mathlib.Omega.{arith}
use ai_investment_manager.Prelude.Tests.{◌==◌}
use ai_investment_manager.Prelude.Lists.{contains, select, dedup}
use ai_investment_manager.Prelude.Sorting.{place, sorted}

pub contains-select :
    (a x : ℕ) (xs : List ℕ) → a ≢ x → contains a (select (λ y. not (y == x)) xs) ≡ contains a xs
contains-select a x [] h = refl
contains-select a x (y ∷ ys) h = ground (arith, contains-select a x ys h)

pub contains-append :
    (a : ℕ) (xs ys : List ℕ) → contains a (xs ++ ys) ≡ (contains a xs || contains a ys)
contains-append a [] ys = refl
contains-append a (x ∷ xs) ys = ground (arith, contains-append a xs ys)

pub contains-dedup : (a : ℕ) (xs : List ℕ) → contains a (dedup xs) ≡ contains a xs
contains-dedup a [] = refl
contains-dedup a (x ∷ xs) = ground (arith, contains-dedup a xs)

module _ (before : ℕ → ℕ → Bool) (a : ℕ) where
  contains-place : (x : ℕ) (ys : List ℕ) → contains a (place before x ys) ≡ contains a (x ∷ ys)
  unfolding place
  contains-place x [] = refl
  contains-place x (y ∷ ys) = ground (arith, contains-place x ys)

  pub contains-sorted : (xs : List ℕ) → contains a (sorted before xs) ≡ contains a xs
  unfolding sorted
  contains-sorted [] = refl
  contains-sorted (x ∷ xs) = ground (arith, contains-place x (sorted before xs), contains-sorted xs)

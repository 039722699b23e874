-- ===== src/Prelude/Predicates.antt =====
-- Predicates on lists by recursion, which compute to tuples.
use Prim.Native.Nat.{ℕ, zero, suc}
use mathlib.Core.Path.{refl, ◌≡◌}
use mathlib.Core.Bool.{Bool, true}
use mathlib.Core.Logic.{◌⊎◌, inl, inr}
use mathlib.Core.List.{List, [], ◌∷◌, ◌++◌}
use native.Mathlib.Omega.{arith}
use ai_investment_manager.Prelude.Tests.{Bool-cases}
use ai_investment_manager.Prelude.Lists.{take, select, all}

abbrev pub All {ℓ κ} : {A : Type ℓ} → (A → Type κ) → List A → Type κ
All P [] = Unit
All P (x ∷ xs) = P x × All P xs

-- Two lists of the same length, related pair by pair.
abbrev pub Matched : {A B : Type 0} → (A → B → Type 0) → List A → List B → Type 0
Matched Q [] [] = Unit
Matched Q (x ∷ xs) (y ∷ ys) = Q x y × Matched Q xs ys
Matched Q _ _ = ⊥

pub Matched-append :
    {A B : Type 0} (Q : A → B → Type 0) (xs us : List A) (ys vs : List B)
    → Matched Q xs ys
    → Matched Q us vs
    → Matched Q (xs ++ us) (ys ++ vs)
Matched-append Q [] us [] vs h k = k
Matched-append Q [] us (y ∷ ys) vs h k = elim h [ ]
Matched-append Q (x ∷ xs) us [] vs h k = elim h [ ]
Matched-append Q (x ∷ xs) us (y ∷ ys) vs h k = (h.0, Matched-append Q xs us ys vs h.1 k)

-- Every element stands in the relation to every later one.
abbrev pub Pairs {ℓ κ} : {A : Type ℓ} → (A → A → Type κ) → List A → Type κ
Pairs R [] = Unit
Pairs R (x ∷ xs) = All (R x) xs × Pairs R xs

module _ {ℓ κ} {A : Type ℓ} where
  pub All-map : {P Q : A → Type κ} (f : (x : A) → P x → Q x) (xs : List A) → All P xs → All Q xs
  All-map f [] h = tt
  All-map f (x ∷ xs) h = (f x h.0, All-map f xs h.1)

  pub Pairs-map :
      {R S : A → A → Type κ} (f : (x y : A) → R x y → S x y) (xs : List A) → Pairs R xs → Pairs S xs
  Pairs-map f [] h = tt
  Pairs-map f (x ∷ xs) h = (All-map (f x) xs h.0, Pairs-map f xs h.1)

  pub All-append : (P : A → Type κ) (us vs : List A) → All P us → All P vs → All P (us ++ vs)
  All-append P [] vs hu hv = hv
  All-append P (u ∷ us) vs hu hv = let later = All-append P us vs hu.1 hv in (hu.0, later)

  pub All-take : (P : A → Type κ) (n : ℕ) (xs : List A) → All P xs → All P (take n xs)
  All-take P zero xs h = tt
  All-take P (suc n) [] h = tt
  All-take P (suc n) (x ∷ xs) h = (h.0, All-take P n xs h.1)

  pub Pairs-take : (R : A → A → Type κ) (n : ℕ) (xs : List A) → Pairs R xs → Pairs R (take n xs)
  Pairs-take R zero xs h = tt
  Pairs-take R (suc n) [] h = tt
  Pairs-take R (suc n) (x ∷ xs) h = (All-take (R x) n xs h.0, Pairs-take R n xs h.1)

module _ {ℓ} {A : Type ℓ} where
  -- What a comprehension keeps has passed its test, and keeps what held of the whole.
  pub All-select :
      (P : A → Type 0) (test : A → Bool) (xs : List A)
      → All P xs
      → All (λ x. P x × (test x ≡ true)) (select test xs)
  All-select P test [] h = tt
  All-select P test (x ∷ xs) h = elim (Bool-cases (test x)) [
    | inl e ↦ rw e ((h.0, e), All-select P test xs h.1)
    | inr e ↦ rw e (All-select P test xs h.1)
  ]

  pub All-Unit : (xs : List A) → All (λ _. Unit {0}) xs
  All-Unit [] = tt
  All-Unit (x ∷ xs) = (tt, All-Unit xs)

  pub all→All : (test : A → Bool) (xs : List A) → all test xs ≡ true → All (λ x. test x ≡ true) xs
  all→All test [] h = tt
  all→All test (x ∷ xs) h = (ground arith, all→All test xs (ground arith))

-- Some element, which is kept.
abbrev pub Any {ℓ} : {A : Type ℓ} → (A → Type 0) → List A → Type 0
Any P [] = ⊥
Any P (x ∷ xs) = P x ⊎ Any P xs

module _ {ℓ} {A : Type ℓ} where
  pub Any-map : {P Q : A → Type 0} (f : (x : A) → P x → Q x) (xs : List A) → Any P xs → Any Q xs
  Any-map f [] h = h
  Any-map f (x ∷ xs) (inl h) = inl (f x h)
  Any-map f (x ∷ xs) (inr h) = inr (Any-map f xs h)

  Any-of_select_cons :
      (P : A → Type 0) (test : A → Bool) (x : A) (xs : List A)
      → (Any P (select test xs) → Any (λ y. P y × (test y ≡ true)) xs)
      → Any P (select test (x ∷ xs))
      → Any (λ y. P y × (test y ≡ true)) (x ∷ xs)
  Any-of_select_cons P test x xs later h = elim (Bool-cases (test x)) [
    | inl e ↦
        let h' : P x ⊎ Any P (select test xs) = rw e at h in
        elim h' [ inl p ↦ inl (p, e) | inr k ↦ inr (later k) ]
    | inr e ↦ let h' : Any P (select test xs) = rw e at h in inr (later h')
  ]

  -- An element that is kept stands in the whole.
  pub Any-of_select :
      (P : A → Type 0) (test : A → Bool) (xs : List A)
      → Any P (select test xs)
      → Any (λ x. P x × (test x ≡ true)) xs
  Any-of_select P test [] h = h
  Any-of_select P test (x ∷ xs) h = Any-of_select_cons P test x xs (Any-of_select P test xs) h

  -- What holds of all that is kept holds of all that pass the test.
  pub All-of_select :
      (P : A → Type 0) (test : A → Bool) (xs : List A)
      → All P (select test xs)
      → All (λ x. test x ≡ true → P x) xs
  All-of_select P test [] h = tt
  All-of_select P test (x ∷ xs) h = elim (Bool-cases (test x)) [
    | inl e ↦
        let h' : All P (x ∷ select test xs) = rw e at h in
        ((λ _. h'.0), All-of_select P test xs h'.1)
    | inr e ↦ let h' : All P (select test xs) = rw e at h in ((λ k. cc), All-of_select P test xs h')
  ]

pub All-both {ℓ κ} :
    {A : Type ℓ} (P Q : A → Type κ) (xs : List A) → All P xs → All Q xs → All (λ x. P x × Q x) xs
All-both P Q [] h k = tt
All-both P Q (x ∷ xs) h k = ((h.0, k.0), All-both P Q xs h.1 k.1)

pub All-members : {A : Type 0} (xs : List A) → All (λ x. Any (λ a. a ≡ x) xs) xs
All-members [] = tt
All-members (x ∷ xs) = (inl refl, All-map (λ y h. inr h) xs (All-members xs))

-- ===== src/Prelude/Sorting.antt =====
-- Python's `sorted`: stable, by a strict order on the keys given as a test.
use mathlib.Core.Path.{◌≡◌, refl}
use mathlib.Core.Bool.{Bool, true, false}
use mathlib.Core.Logic.{inl, inr, ◌⊎◌}
use Prim.Native.Nat.{ℕ, zero, suc, ◌+◌, ◌≤◌}
use mathlib.Core.List.{List, [], ◌∷◌, ◌++◌, Perm}
use mathlib.Core.List.Perm
use native.Mathlib.Omega.{arith}
use ai_investment_manager.Prelude.Tests.{Bool-cases, ltb, ◌==◌, if◌then◌else◌}
use ai_investment_manager.Prelude.Lists.{length, is_nonempty, total}
use ai_investment_manager.Prelude.Predicates.{All, All-map, Pairs, Any}

nonempty_of_length {ℓ} :
    {A : Type ℓ} {n : ℕ} (xs : List A) → length xs ≡ suc n → is_nonempty xs ≡ true
nonempty_of_length [] h = ground arith
nonempty_of_length (x ∷ xs) h = refl

module _ {ℓ} {A : Type ℓ} (before : A → A → Bool) where
  -- Before the first element that is not strictly smaller, so equal keys keep their order.
  unfoldable pub place : A → List A → List A
  place x [] = x ∷ []
  place x (y ∷ ys) = let rest = y ∷ place x ys in if before y x then rest else x ∷ y ∷ ys

  unfoldable pub sorted : List A → List A
  unfolding place
  sorted [] = []
  sorted (x ∷ xs) = place x (sorted xs)

  pub place-perm : (x : A) (ys : List A) → Perm (place x ys) (x ∷ ys)
  unfolding place
  place-perm x [] = Perm.refl (x ∷ [])
  place-perm x (y ∷ ys) = elim (Bool-cases (before y x)) [
    | inl e ↦ rw e (Perm.trans (Perm.cons y (place-perm x ys)) (Perm.swap x y ys))
    | inr e ↦ rw e (Perm.refl (x ∷ y ∷ ys))
  ]

  pub sorted-perm : (xs : List A) → Perm (sorted xs) xs
  unfolding sorted
  sorted-perm [] = Perm.refl []
  sorted-perm (x ∷ xs) = Perm.trans (place-perm x (sorted xs)) (Perm.cons x (sorted-perm xs))

  length-place : (x : A) (ys : List A) → length (place x ys) ≡ length (x ∷ ys)
  unfolding place
  length-place x [] = refl
  length-place x (y ∷ ys) = ground (arith, length-place x ys)

  pub length-sorted : (xs : List A) → length (sorted xs) ≡ length xs
  unfolding sorted
  length-sorted [] = refl
  length-sorted (x ∷ xs) = omega (arith, length-place x (sorted xs), length-sorted xs)

  pub is_nonempty-sorted : (xs : List A) → is_nonempty (sorted xs) ≡ is_nonempty xs
  unfolding sorted
  is_nonempty-sorted [] = refl
  is_nonempty-sorted (x ∷ xs) = nonempty_of_length (sorted (x ∷ xs)) (length-sorted (x ∷ xs))

  All-place {κ} : (P : A → Type κ) (x : A) (ys : List A) → P x → All P ys → All P (place x ys)
  unfolding place
  All-place P x [] h hs = (h, tt)
  All-place P x (y ∷ ys) h hs = elim (Bool-cases (before y x)) [
    | inl e ↦ rw e (hs.0, All-place P x ys h hs.1)
    | inr e ↦ rw e (h, hs)
  ]

  pub All-sorted {κ} : (P : A → Type κ) (xs : List A) → All P xs → All P (sorted xs)
  unfolding sorted
  All-sorted P [] h = tt
  All-sorted P (x ∷ xs) h = All-place P x (sorted xs) h.0 (All-sorted P xs h.1)

  Any-place : (P : A → Type 0) (x : A) (ys : List A) → P x ⊎ Any P ys → Any P (place x ys)
  unfolding place
  Any-place P x [] h = h
  Any-place P x (y ∷ ys) h = elim (Bool-cases (before y x)) [
    | inl e ↦ rw e (elim h [
      | inl p ↦ inr (Any-place P x ys (inl p))
      | inr k ↦ elim k [ inl q ↦ inl q | inr r ↦ inr (Any-place P x ys (inr r)) ]
    ])
    | inr e ↦ rw e h
  ]

  pub Any-sorted : (P : A → Type 0) (xs : List A) → Any P xs → Any P (sorted xs)
  unfolding sorted
  Any-sorted P [] h = h
  Any-sorted P (x ∷ xs) h =
      Any-place P x (sorted xs) (elim h [ inl p ↦ inl p | inr k ↦ inr (Any-sorted P xs k) ])

  parts_of_place {κ} : (P : A → Type κ) (x : A) (ys : List A) → All P (place x ys) → P x × All P ys
  unfolding place
  parts_of_place P x [] h = (h.0, tt)
  parts_of_place P x (y ∷ ys) h = elim (Bool-cases (before y x)) [
    | inl e ↦
        let h' : All P (y ∷ place x ys) = rw e at h in
        let r = parts_of_place P x ys h'.1 in (r.0, (h'.0, r.1))
    | inr e ↦ let h' : All P (x ∷ y ∷ ys) = rw e at h in (h'.0, h'.1)
  ]

  pub All-of_sorted {κ} : (P : A → Type κ) (xs : List A) → All P (sorted xs) → All P xs
  unfolding sorted
  All-of_sorted P [] h = tt
  All-of_sorted P (x ∷ xs) h =
      let r = parts_of_place P x (sorted xs) h in (r.0, All-of_sorted P xs r.1)

  -- A transitive relation that the test decides one way or the other orders the result.
  module _ {κ} (R : A → A → Type κ) (first : (x y : A) → before x y ≡ true → R x y)
      (later : (x y : A) → before x y ≡ false → R y x)
      (trans : (x y z : A) → R x y → R y z → R x z) where
    place-Pairs : (x : A) (ys : List A) → Pairs R ys → Pairs R (place x ys)
    unfolding place
    place-Pairs x [] h = (tt, tt)
    place-Pairs x (y ∷ ys) h = elim (Bool-cases (before y x)) [
      | inl e ↦ rw e (All-place (R y) x ys (first y x e) h.0, place-Pairs x ys h.1)
      | inr e ↦ rw e ((later y x e, All-map (λ z. trans x y z (later y x e)) ys h.0), h)
    ]

    pub sorted-Pairs : (xs : List A) → Pairs R (sorted xs)
    unfolding sorted
    sorted-Pairs [] = tt
    sorted-Pairs (x ∷ xs) = place-Pairs x (sorted xs) (sorted-Pairs xs)

-- How often a number stands in a list.
abbrev pub count : ℕ → List ℕ → ℕ
count a [] = zero
count a (u ∷ us) = let rest = count a us in if u == a then suc rest else rest

pub count-append : (a : ℕ) (us vs : List ℕ) → count a us + count a vs ≡ count a (us ++ vs)
count-append a [] vs = omega arith
count-append a (u ∷ us) vs = ground (arith, count-append a us vs)

module _ (before : ℕ → ℕ → Bool) (a : ℕ) where
  count-place : (x : ℕ) (ys : List ℕ) → count a (place before x ys) ≡ count a (x ∷ ys)
  unfolding place
  count-place x [] = refl
  count-place x (y ∷ ys) = ground (arith, count-place x ys)

  pub count-sorted : (xs : List ℕ) → count a (sorted before xs) ≡ count a xs
  unfolding sorted
  count-sorted [] = refl
  count-sorted (x ∷ xs) = ground (arith, count-place x (sorted before xs), count-sorted xs)

-- Numbers in ascending order.
pub sorted-ltb : (xs : List ℕ) → Pairs ◌≤◌ (sorted ltb xs)
sorted-ltb =
    sorted-Pairs ltb ◌≤◌ (λ x y h. ground arith) (λ x y h. ground arith) (λ x y z h k. omega arith)

module _ {ℓ} {A : Type ℓ} (f : A → ℕ) (before : A → A → Bool) where
  total-place : (x : A) (ys : List A) → total f (place before x ys) ≡ f x + total f ys
  unfolding place
  total-place x [] = refl
  total-place x (y ∷ ys) = ground (arith, total-place x ys)

  pub total-sorted : (xs : List A) → total f (sorted before xs) ≡ total f xs
  unfolding sorted
  total-sorted [] = refl
  total-sorted (x ∷ xs) = omega (arith, total-place x (sorted before xs), total-sorted xs)

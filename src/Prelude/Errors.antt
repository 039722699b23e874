-- ===== src/Prelude/Errors.antt =====
-- A call that returns a value or raises: the error type is the component's.
use mathlib.Core.Path.{◌≡◌, refl, ap}
use mathlib.Core.Logic.{◌⊎◌, inl, inr}
use mathlib.Core.List.{List, [], ◌∷◌}
use mathlib.Core.Option.{Option, none, some}
use mathlib.Core.Bool.{Bool, true, false}

pub data Result (E A : Type 0) : Type 0 where
  err : E → Result E A
  ok : A → Result E A

module _ {E B : Type 0} where
  infixl 5 ◌>>◌ ◌>>=◌
  -- An error ends the call.
  abbrev pub ◌>>=◌ : {A : Type 0} → Result E A → (A → Result E B) → Result E B
  err raised >>= next = err raised
  ok value >>= next = next value

  abbrev pub ◌>>◌ : Result E Unit → Result E B → Result E B
  check >> next = check >>= λ _. next

-- `if test: raise e`
abbrev pub raise_if : {E : Type 0} → Bool → E → Result E Unit
raise_if false raised = ok tt
raise_if true raised = err raised

-- A successful chain has a successful first step.
pub >>=-eq-ok :
    {E A B : Type 0} (first : Result E A) (next : A → Result E B) {b : B}
    → (first >>= next) ≡ ok b
    → (value : A) × (first ≡ ok value) × (next value ≡ ok b)
>>=-eq-ok (err raised) next h = cc
>>=-eq-ok (ok value) next h = (value, refl, h)

-- A successful lookup that raises on a missing value has found one.
pub found-eq-ok :
    {E A B : Type 0} (found : Option A) (e : E) (next : A → Result E B) {b : B}
    → (elim found [ none ↦ err e | some a ↦ next a ]) ≡ ok b
    → (a : A) × (found ≡ some a) × (next a ≡ ok b)
found-eq-ok none e next h = cc
found-eq-ok (some a) e next h = (a, refl, h)

pub Result-cases :
    {E A : Type 0} (r : Result E A) → ((e : E) × (r ≡ err e)) ⊎ ((a : A) × (r ≡ ok a))
Result-cases (err e) = inl (e, refl)
Result-cases (ok a) = inr (a, refl)

-- A successful call has passed its guard.
pub raise_if-eq-ok :
    {E B : Type 0} (test : Bool) (e : E) (next : Result E B) {b : B}
    → (raise_if test e >> next) ≡ ok b
    → (test ≡ false) × (next ≡ ok b)
raise_if-eq-ok false e next h = (refl, h)
raise_if-eq-ok true e next h = cc

pub ok-injective : {E A : Type 0} {a b : A} → Path (Result E A) (ok a) (ok b) → a ≡ b
ok-injective {E} {A} {a} h = ap (λ r. elim r [ err e ↦ a | ok x ↦ x ]) h

-- A call that ends in a value after one guard.
pub raise_if-value :
    {E B : Type 0} (test : Bool) (e : E) {a b : B}
    → (raise_if test e >> ok a) ≡ ok b
    → (test ≡ false) × (a ≡ b)
raise_if-value test e h = let r = raise_if-eq-ok test e _ h in (r.0, ok-injective r.1)

-- To use a successful chain, the value of its first step may be taken for any.
pub after_ok {ℓ} :
    {E A B : Type 0} {C : Type ℓ} (first : Result E A) (next : A → Result E B) {b : B}
    → (first >>= next) ≡ ok b
    → ((value : A) → first ≡ ok value → next value ≡ ok b → C)
    → C
after_ok first next h use_value = let r = >>=-eq-ok first next h in use_value r.0 r.1 r.2

-- A constructor's validators in their order: the first test that holds raises.
abbrev pub validated : {E A : Type 0} → List (Bool × E) → A → Result E A
validated [] value = ok value
validated ((test, raised) ∷ tests) value = raise_if test raised >> validated tests value

pub validated-same :
    {E A : Type 0} (tests : List (Bool × E)) {a b : A} → validated tests a ≡ ok b → a ≡ b
validated-same [] h = ok-injective h
validated-same ((test, raised) ∷ tests) h = validated-same tests (raise_if-eq-ok test raised _ h).1

-- The value of a call that is known to return.
abbrev pub is_ok : {E A : Type 0} → Result E A → Bool
is_ok (err e) = false
is_ok (ok a) = true

abbrev pub from_ok : {E A : Type 0} (r : Result E A) → is_ok r ≡ true → A
from_ok (err e) h = cc
from_ok (ok a) h = a

pub from_ok-eq : {E A : Type 0} (r : Result E A) (h : is_ok r ≡ true) → r ≡ ok (from_ok r h)
from_ok-eq (err e) h = cc
from_ok-eq (ok a) h = refl

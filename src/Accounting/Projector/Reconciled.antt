-- ===== src/Accounting/Projector/Reconciled.antt =====
-- The sleeves of a projection hold what its positions hold: the validator of the snapshot that
-- compares them accepts every projection.
use ai_investment_manager.Prelude.{
  ℕ, ◌≡◌, refl, sym, ap, ◌∙◌, Bool, true, not, List, ◌∷◌, [], ◌++◌, select, all, Bool-cases,
  Option-cases, inl, inr, ok, >>=-eq-ok, ok-injective, arith, All, All-map, All-both,
  raise_if-eq-ok, raise_if-value, ltb,
}
use ai_investment_manager.Prelude.Int.{ℤ, ◌+ℤ◌, is_zero, +ℤ-zero, zero-+ℤ, +ℤ-assoc, +ℤ-exchange}
use ai_investment_manager.Prelude.Sorting.{place, sorted, All-sorted}
use ai_investment_manager.Prelude.Dict.{Dict, get, HasUniqueKeys}
use ai_investment_manager.Prelude.Dict.Order.{
  entries-get, get-select, get-select-none, select-HasUniqueKeys,
}
use ai_investment_manager.Portfolio.Target.{ApprovedSleeve}
use ai_investment_manager.Portfolio.Account.{
  InstrumentPosition, SleevePosition, checked_sleeve, same_ℤ, default_quantity, add_legs,
  add_sleeves, sleeve_quantities, has_entry, same_quantities, is_reconciled,
}
use ai_investment_manager.Accounting.Error.{
  field_invalid, entries_unordered, legs_outside, leg_direction,
}
use ai_investment_manager.Accounting.Position.{PositionState}
use ai_investment_manager.Accounting.Position.Net.{held}
use ai_investment_manager.Accounting.Position.Open.{AllOpen, IsKeyed}
use ai_investment_manager.Accounting.Valuation.{
  by_key, lookup, positions_of, sleeve_position, build_sleeves, sleeve_positions,
}
use ai_investment_manager.Accounting.Projector.{Books}
use ai_investment_manager.Accounting.Projector.Kept.{AllBooked}
use ai_investment_manager.Accounting.Projector.Ownership.{owned, IsOwned}
use ai_investment_manager.Accounting.Projector.Listed.{
  add_legs-tally, add_sleeves-HasUniqueKeys, positions_of-Listed, nonzero, tally-Listed, get-Listed,
  Listed-HasUniqueKeys,
}

owned-place :
    (j : ℕ) (before : ℕ × Dict PositionState → ℕ × Dict PositionState → Bool)
    (e : ℕ × Dict PositionState) (states : Dict (Dict PositionState))
    → owned j (place before e states) ≡ owned j (e ∷ states)
unfolding owned place
owned-place j before e [] = refl
owned-place j before e (u ∷ states) = elim (Bool-cases (before u e)) [
  | inl c ↦ rw c (ap (λ x. held j u.1 +ℤ x) (owned-place j before e states) ∙ +ℤ-exchange _ _ _)
  | inr c ↦ rw c refl
]

owned-sorted :
    (j : ℕ) (before : ℕ × Dict PositionState → ℕ × Dict PositionState → Bool)
    (states : Dict (Dict PositionState))
    → owned j (sorted before states) ≡ owned j states
unfolding owned sorted
owned-sorted j before [] = refl
owned-sorted j before (e ∷ states) =
    owned-place j before e (sorted before states)
    ∙ ap (λ x. held j e.1 +ℤ x) (owned-sorted j before states)

checked_sleeve-same : (s : SleevePosition) {q : SleevePosition} → checked_sleeve s ≡ ok q → s ≡ q
unfolding checked_sleeve
checked_sleeve-same s h =
    let a = raise_if-eq-ok _ field_invalid _ h in
    let b = raise_if-eq-ok _ entries_unordered _ a.1 in
    let c = raise_if-eq-ok _ legs_outside _ b.1 in (raise_if-value _ leg_direction c.1).1

sleeve_position-legs :
    (sleeve_id : ℕ) (legs : List InstrumentPosition) (approved : Dict ApprovedSleeve)
    {first : List SleevePosition}
    → sleeve_position sleeve_id legs approved ≡ ok first
    → (d : Dict ℤ) (rest : List SleevePosition)
    → add_sleeves d (first ++ rest) ≡ add_sleeves (add_legs d legs) rest
unfolding sleeve_position add_sleeves add_legs
sleeve_position-legs sleeve_id [] approved h d rest = rw (← ok-injective h) refl
sleeve_position-legs sleeve_id (leg ∷ legs) approved h d rest =
    let (sleeve, e, f) = >>=-eq-ok (lookup sleeve_id approved) _ h in
    let position : SleevePosition = record {
      sleeve_id = sleeve_id;
      forecast_family = sleeve.forecast_family;
      target = sleeve.forecast_target;
      legs = leg ∷ legs;
    } in
    let (checked, g, k) = >>=-eq-ok (checked_sleeve position) _ f in
    rw (← ok-injective k, ← checked_sleeve-same position g) refl

-- The dictionaries of the sleeves are those that the loop leaves.
abbrev IsStates : ℕ × Dict PositionState → Type 0
IsStates e = HasUniqueKeys e.1 × AllOpen IsKeyed e.1

add_sleeves-nil : (d : Dict ℤ) → add_sleeves d [] ≡ d
unfolding add_sleeves
add_sleeves-nil d = refl

build_sleeves-owned :
    (j : ℕ) (states : Dict (Dict PositionState)) (approved : Dict ApprovedSleeve)
    {sleeves : List SleevePosition}
    → All IsStates states
    → build_sleeves states approved ≡ ok sleeves
    → (d : Dict ℤ)
    → default_quantity j (add_sleeves d sleeves) ≡ default_quantity j d +ℤ owned j states
unfolding build_sleeves owned
build_sleeves-owned j [] approved a h d = rw (← ok-injective h, add_sleeves-nil d) (sym (+ℤ-zero _))
build_sleeves-owned j ((sleeve_id, positions) ∷ states) approved a h d =
    let (legs, e, f) = >>=-eq-ok (positions_of positions) _ h in
    let (first, g, k) = >>=-eq-ok (sleeve_position sleeve_id legs approved) _ f in
    let (rest, m, n) = >>=-eq-ok (build_sleeves states approved) _ k in
    let later = build_sleeves-owned j states approved a.1 m (add_legs d legs) in
    let listed = positions_of-Listed positions a.0.1 e in
    let own =
      add_legs-tally j d legs
      ∙ ap (λ x. default_quantity j d +ℤ x) (tally-Listed positions legs a.0.0 listed j) in
    rw (← ok-injective n, sleeve_position-legs sleeve_id legs approved g d rest)
      (later ∙ ap (λ x. x +ℤ owned j states) own ∙ +ℤ-assoc _ _ _)

same_ℤ-refl : (q : ℤ) → same_ℤ q q ≡ true
same_ℤ-refl q = ground arith

All→all : (test : ℕ × ℤ → Bool) (d : Dict ℤ) → All (λ e. test e ≡ true) d → all test d ≡ true
All→all test [] h = refl
All→all test (e ∷ d) h = rw h.0 (All→all test d h.1)

has_entries :
    (a b : Dict ℤ) → HasUniqueKeys a → ((j : ℕ) → get j b ≡ get j a) → all (has_entry b) a ≡ true
has_entries a b u h =
    All→all (has_entry b) a (
      All-map (λ e g. let f = h e.0 ∙ g in rw (has_entry, f) (same_ℤ-refl e.1)) a (entries-get a u))

-- Dictionaries that answer alike are equal.
same_quantities-of_get :
    (a b : Dict ℤ)
    → HasUniqueKeys a
    → HasUniqueKeys b
    → ((j : ℕ) → get j a ≡ get j b)
    → same_quantities a b ≡ true
unfolding same_quantities
same_quantities-of_get a b u v h = rw (has_entries a b u (λ j. sym (h j))) (has_entries b a v h)

get-nonzero :
    (j : ℕ) (d : Dict ℤ)
    → HasUniqueKeys d
    → get j (select (λ e. not (is_zero e.1)) d) ≡ nonzero (default_quantity j d)
get-nonzero j d u = elim (Option-cases (get j d)) [
  | inl n ↦
      let m = get-select-none (λ e. not (is_zero e.1)) j d n in rw (default_quantity, n, m) refl
  | inr (q, e) ↦
      let m = get-select (λ e. not (is_zero e.1)) j d u e in
      rw (default_quantity, e, m)
        (elim (Bool-cases (is_zero q)) [
          | inl z ↦ rw (nonzero, z) refl
          | inr n ↦ rw (nonzero, n) refl
        ])
]

total_owned :
    (j : ℕ) (states : Dict (Dict PositionState)) {q : ℤ}
    → q ≡ default_quantity j [] +ℤ owned j (by_key states)
    → q ≡ owned j states
unfolding get
total_owned j states h = h ∙ zero-+ℤ _ ∙ owned-sorted j (λ a b. ltb a.0 b.0) states

-- The books of the loop, as positions and sleeves, agree.
pub books-reconciled :
    (books : Books) (approved : Dict ApprovedSleeve) {positions : List InstrumentPosition}
    {sleeves : List SleevePosition}
    → IsOwned books
    → AllBooked IsKeyed books
    → positions_of books.product_states ≡ ok positions
    → sleeve_positions books.sleeve_states approved ≡ ok sleeves
    → is_reconciled sleeves positions ≡ true
unfolding sleeve_positions sleeve_quantities
books-reconciled books approved {positions} {sleeves} o k e f =
    let listed = positions_of-Listed books.product_states k.products e in
    let states =
      All-sorted (λ a b. ltb a.0 b.0) IsStates books.sleeve_states
        (All-both (λ e. HasUniqueKeys e.1) (λ e. AllOpen IsKeyed e.1) books.sleeve_states
          o.sleeves_unique k.sleeves) in
    let total = add_sleeves [] sleeves in
    let unique : HasUniqueKeys total = add_sleeves-HasUniqueKeys [] sleeves tt in
    let sums : (j : ℕ) → default_quantity j total ≡ held j books.product_states = λ j.
      total_owned j books.sleeve_states
        (build_sleeves-owned j (by_key books.sleeve_states) approved states f [])
      ∙ o.owned_held j in
    same_quantities-of_get _ _ (select-HasUniqueKeys _ total unique)
      (Listed-HasUniqueKeys books.product_states positions o.unique listed)
      (λ j.
        get-nonzero j total unique
        ∙ ap nonzero (sums j)
        ∙ sym (get-Listed books.product_states positions o.unique listed j))

-- ===== src/Accounting/Position/Tally.antt =====
-- The sum of the quantities of a dictionary under one key.
use ai_investment_manager.Prelude.{
  ℕ, ◌≡◌, refl, sym, ap, ◌∙◌, Bool, true, not, Option, none, some, ◌∷◌, [], ◌++◌, ◌==◌, select,
  Bool-cases, inl, inr, arith,
}
use ai_investment_manager.Prelude.Int.{
  ℤ, pos, ◌+ℤ◌, is_zero, is_zero_eq, +ℤ-zero, zero-+ℤ, +ℤ-assoc, +ℤ-exchange,
}
use ai_investment_manager.Prelude.Sorting.{place, sorted}
use ai_investment_manager.Prelude.Dict.{Dict, get, HasUniqueKeys}
use ai_investment_manager.Accounting.Position.{PositionState}
use ai_investment_manager.Accounting.Position.Net.{held, share}

-- The sum of what a dictionary says of a key.
unfoldable pub tally : ℕ → Dict ℤ → ℤ
tally j [] = pos 0
tally j (e ∷ d) = share j e.0 e.1 +ℤ tally j d

-- The quantities of the states.
unfoldable pub quantities : Dict PositionState → Dict ℤ
quantities [] = []
quantities ((k, p) ∷ d) = (k, p.quantity) ∷ quantities d

pub tally-append : (j : ℕ) (d e : Dict ℤ) → tally j (d ++ e) ≡ tally j d +ℤ tally j e
unfolding tally
tally-append j [] e = sym (zero-+ℤ _)
tally-append j (u ∷ d) e =
    ap (λ x. share j u.0 u.1 +ℤ x) (tally-append j d e) ∙ sym (+ℤ-assoc _ _ _)

-- A dictionary says one thing of a key.
tally_absent : (j : ℕ) (d : Dict ℤ) → get j d ≡ none → tally j d ≡ pos 0
unfolding tally get
tally_absent j [] n = refl
tally_absent j ((k, q) ∷ d) n = elim (Bool-cases (j == k)) [
  | inl e ↦ ground arith
  | inr e ↦ let m : get j d ≡ none = rw e at n in rw (share, e) (zero-+ℤ _ ∙ tally_absent j d m)
]

pub tally_unique :
    (j : ℕ) (d : Dict PositionState) → HasUniqueKeys d → tally j (quantities d) ≡ held j d
unfolding tally quantities get
tally_unique j [] u = refl
tally_unique j ((k, p) ∷ d) u = elim (Bool-cases (j == k)) [
  | inl e ↦
      let i : j ≡ k = ground arith in
      let n : get j d ≡ none = rw i u.0 in
      let m : tally j (quantities d) ≡ pos 0 = tally_unique j d u.1 ∙ rw (held, n) refl in
      rw (share, held, e, m) (+ℤ-zero _)
  | inr e ↦ rw (share, held, e) (zero-+ℤ _ ∙ tally_unique j d u.1)
]

-- The order of the entries and the empty positions do not count.
tally-place :
    (j : ℕ) (before : ℕ × PositionState → ℕ × PositionState → Bool) (e : ℕ × PositionState)
    (d : Dict PositionState)
    → tally j (quantities (place before e d)) ≡ tally j (quantities (e ∷ d))
unfolding tally quantities place
tally-place j before e [] = refl
tally-place j before e (u ∷ d) = elim (Bool-cases (before u e)) [
  | inl c ↦
      rw c (ap (λ x. share j u.0 u.1.quantity +ℤ x) (tally-place j before e d) ∙ +ℤ-exchange _ _ _)
  | inr c ↦ rw c refl
]

pub tally-sorted :
    (j : ℕ) (before : ℕ × PositionState → ℕ × PositionState → Bool) (d : Dict PositionState)
    → tally j (quantities (sorted before d)) ≡ tally j (quantities d)
unfolding tally quantities sorted
tally-sorted j before [] = refl
tally-sorted j before (e ∷ d) =
    tally-place j before e (sorted before d)
    ∙ ap (λ x. share j e.0 e.1.quantity +ℤ x) (tally-sorted j before d)

share_zero : (j k : ℕ) (q : ℤ) → is_zero q ≡ true → share j k q ≡ pos 0
share_zero j k q z = elim (Bool-cases (j == k)) [
  | inl e ↦ rw (share, e) (is_zero_eq q z)
  | inr e ↦ rw (share, e) refl
]

pub tally-select :
    (j : ℕ) (d : Dict PositionState)
    → tally j (quantities (select (λ e. not (is_zero e.1.quantity)) d)) ≡ tally j (quantities d)
unfolding tally quantities
tally-select j [] = refl
tally-select j ((k, p) ∷ d) = elim (Bool-cases (is_zero p.quantity)) [
  | inl z ↦ rw z (
      tally-select j d
      ∙ sym (ap (λ x. x +ℤ tally j (quantities d)) (share_zero j k p.quantity z) ∙ zero-+ℤ _))
  | inr n ↦ rw n (ap (λ x. share j k p.quantity +ℤ x) (tally-select j d))
]

-- What the quantities say of a key is what the states hold.
abbrev pub quantity_of : Option PositionState → Option ℤ
quantity_of none = none
quantity_of (some p) = some p.quantity

pub get-quantities : (j : ℕ) (d : Dict PositionState) → get j (quantities d) ≡ quantity_of (get j d)
unfolding get quantities
get-quantities j [] = refl
get-quantities j ((k, p) ∷ d) = elim (Bool-cases (j == k)) [
  | inl e ↦ rw e refl
  | inr e ↦ rw e (get-quantities j d)
]

pub quantities-HasUniqueKeys :
    (d : Dict PositionState) → HasUniqueKeys d → HasUniqueKeys (quantities d)
unfolding quantities
quantities-HasUniqueKeys [] u = tt
quantities-HasUniqueKeys ((k, p) ∷ d) u =
    (get-quantities k d ∙ rw (quantity_of, u.0) refl, quantities-HasUniqueKeys d u.1)

-- ===== src/Accounting/Position/Net.antt =====
-- A fill moves the quantity of its instrument by its own, and no other.
use ai_investment_manager.Prelude.{
  ℕ, ◌≡◌, refl, sym, ap, ◌∙◌, true, ◌&&◌, Option, none, some, ◌==◌, if◌then◌else◌, Bool-cases, inl,
  inr, ok, raise_if, ◌>>◌, >>=-eq-ok, raise_if-value, ok-injective, arith,
}
use ai_investment_manager.Prelude.Int.{
  ℤ, pos, ◌+ℤ◌, is_zero, is_zero_eq, is_negative, same_sign, +ℤ-zero, zero-+ℤ,
}
use ai_investment_manager.Prelude.Dict.{
  Dict, get, put, remove, HasUniqueKeys, get-put, put-HasUniqueKeys, get-remove_ne, get-remove_self,
  remove-HasUniqueKeys,
}
use ai_investment_manager.Execution.Leg.{InstrumentId}
use ai_investment_manager.Accounting.Error.{spot_negative, is_spot}
use ai_investment_manager.Accounting.Position.{
  PositionState, Fill, signed_fill, opened, grown, realized, settle, apply_fill, apply_position,
  priced,
}

-- The quantity that is held of an instrument, zero where no position is open.
abbrev pub quantity_in : Option PositionState → ℤ
quantity_in none = pos 0
quantity_in (some p) = p.quantity

abbrev pub held : ℕ → Dict PositionState → ℤ
held key d = quantity_in (get key d)

-- The part of a fill that falls on an instrument.
abbrev pub share : ℕ → ℕ → ℤ → ℤ
share j key fill = if j == key then fill else pos 0

-- What one update of a dictionary does to the quantities.
pub record Moved (key : ℕ) (fill : ℤ) (before after : Dict PositionState) : Type 0 where
  pub unique : HasUniqueKeys after
  pub quantities : (j : ℕ) → held j after ≡ held j before +ℤ share j key fill

reflexive : (k : ℕ) → k == k ≡ true
reflexive k = ground arith

put-Moved :
    (d : Dict PositionState) (key : ℕ) (p : PositionState) (fill : ℤ)
    → HasUniqueKeys d
    → p.quantity ≡ held key d +ℤ fill
    → Moved key fill d (put key p d)
put-Moved d key p fill u h = record {
  unique = put-HasUniqueKeys key p d u;
  quantities = λ j. elim (Bool-cases (j == key)) [
    | inl e ↦ let g = get-put j key p d in let k : j ≡ key = ground arith in rw (g, e, k) h
    | inr e ↦ let g = get-put j key p d in rw (g, e) (sym (+ℤ-zero (held j d)))
  ];
}

remove-Moved :
    (d : Dict PositionState) (key : ℕ) (fill : ℤ)
    → HasUniqueKeys d
    → held key d +ℤ fill ≡ pos 0
    → Moved key fill d (remove key d)
remove-Moved d key fill u h = record {
  unique = remove-HasUniqueKeys key d u;
  quantities = λ j. elim (Bool-cases (j == key)) [
    | inl e ↦
        let g = get-remove_self key d u in
        let k : j ≡ key = ground arith in rw (k, g, reflexive key) (sym h)
    | inr e ↦
        let g = get-remove_ne j key d (λ k. ground arith) in rw (g, e) (sym (+ℤ-zero (held j d)))
  ];
}

settle-Moved :
    (d : Dict PositionState) (p : PositionState) (fill price : ℤ) (key : ℕ)
    → HasUniqueKeys d
    → p.quantity ≡ held key d
    → Moved key fill d (settle d p (p.quantity +ℤ fill) price key)
unfolding settle
settle-Moved d p fill price key u h = elim (Bool-cases (is_zero (p.quantity +ℤ fill))) [
  | inl z ↦
      let e = is_zero_eq (p.quantity +ℤ fill) z in
      rw z (remove-Moved d key fill u (ap (λ q. q +ℤ fill) (sym h) ∙ e))
  | inr n ↦ rw n (put-Moved d key _ fill u (ap (λ q. q +ℤ fill) h))
]

apply_fill-Moved :
    (d : Dict PositionState) (i : InstrumentId) (fill price : ℤ) (found : Option PositionState)
    {r : Dict PositionState × ℤ}
    → HasUniqueKeys d
    → get i.key d ≡ found
    → apply_fill d i fill price found ≡ ok r
    → Moved i.key fill d r.0
unfolding apply_fill
apply_fill-Moved d i fill price none {r} u f h =
    let done = raise_if-value (is_spot i && is_negative fill) spot_negative h in
    let q : held i.key d ≡ pos 0 = rw f refl in
    rw (← ap (λ x. x.0) done.1)
      (put-Moved d i.key (opened i fill price) fill u (sym (ap (λ x. x +ℤ fill) q ∙ zero-+ℤ fill)))
apply_fill-Moved d i fill price (some p) {r} u f h = elim (Bool-cases (same_sign p.quantity fill)) [
  | inl s ↦
      let h' : ok (put i.key (grown p fill price) d, pos 0) ≡ ok r = rw s at h in
      let q : p.quantity ≡ held i.key d = rw f refl in
      rw (← ap (λ x. x.0) (ok-injective h'))
        (put-Moved d i.key (grown p fill price) fill u (ap (λ x. x +ℤ fill) q))
  | inr s ↦
      let after = settle d p (p.quantity +ℤ fill) price i.key in
      let profit = realized p fill price i.contract_multiplier in
      let test = is_spot i && is_negative (p.quantity +ℤ fill) in
      let h' : (raise_if test spot_negative >> ok (after, profit)) ≡ ok r = rw s at h in
      let done = raise_if-value test spot_negative h' in
      let q : p.quantity ≡ held i.key d = rw f refl in
      rw (← ap (λ x. x.0) done.1) (settle-Moved d p fill price i.key u q)
]

-- A fill that is applied moves the quantity of its instrument by its own.
pub apply_position-Moved :
    (d : Dict PositionState) (fill : Fill) {r : Dict PositionState × ℤ}
    → HasUniqueKeys d
    → apply_position d fill ≡ ok r
    → Moved fill.instrument.key (signed_fill fill) d r.0
unfolding apply_position
apply_position-Moved d fill u h =
    let (price, e, f) = >>=-eq-ok (priced fill.average_fill_price) _ h in
    apply_fill-Moved d fill.instrument (signed_fill fill) price _ u refl f

-- ===== src/Accounting/Projector/Listed.antt =====
-- What the positions that are built from the books say of every instrument.
use ai_investment_manager.Prelude.{
  ℕ, ◌≡◌, refl, sym, ap, ◌∙◌, not, Option, none, some, List, ◌∷◌, [], ◌==◌, select, Bool-cases,
  Option-cases, inl, inr, ok, >>=-eq-ok, ok-injective, arith, All-map, All-select, raise_if-eq-ok,
  raise_if-value, if◌then◌else◌,
}
use ai_investment_manager.Prelude.Int.{ℤ, ◌+ℤ◌, is_zero, +ℤ-zero, +ℤ-assoc}
use ai_investment_manager.Prelude.Sorting.{All-sorted}
use ai_investment_manager.Prelude.Dict.{Dict, get, put, HasUniqueKeys, get-put, put-HasUniqueKeys}
use ai_investment_manager.Prelude.Dict.Order.{
  get-sorted, sorted-HasUniqueKeys, get-select, get-select-none, select-HasUniqueKeys,
}
use ai_investment_manager.Portfolio.Account.{
  InstrumentPosition, checked_position, SleevePosition, default_quantity, add_legs, add_sleeves,
  position_quantities,
}
use ai_investment_manager.Accounting.Error.{field_invalid, spot_negative}
use ai_investment_manager.Accounting.Position.{PositionState}
use ai_investment_manager.Accounting.Position.Net.{quantity_in, held, share}
use ai_investment_manager.Accounting.Position.Tally.{
  tally, quantities, tally_unique, tally-sorted, tally-select, quantity_of, get-quantities,
  quantities-HasUniqueKeys,
}
use ai_investment_manager.Accounting.Position.Open.{AllOpen, IsKeyed}
use ai_investment_manager.Accounting.Valuation.{by_key, build_positions, positions_of}

default-put :
    (j k : ℕ) (q : ℤ) (d : Dict ℤ)
    → default_quantity j (put k (default_quantity k d +ℤ q) d) ≡ default_quantity j d +ℤ share j k q
default-put j k q d = elim (Bool-cases (j == k)) [
  | inl e ↦
      let g = get-put j k (default_quantity k d +ℤ q) d in
      let i : j ≡ k = ground arith in rw (default_quantity, g, e, i) refl
  | inr e ↦
      let g = get-put j k (default_quantity k d +ℤ q) d in
      rw (default_quantity, g, e) (sym (+ℤ-zero _))
]

pub add_legs-tally :
    (j : ℕ) (d : Dict ℤ) (legs : List InstrumentPosition)
    → default_quantity j (add_legs d legs)
      ≡ default_quantity j d +ℤ tally j (position_quantities legs)
unfolding add_legs tally position_quantities
add_legs-tally j d [] = sym (+ℤ-zero _)
add_legs-tally j d (p ∷ legs) =
    add_legs-tally j (put p.instrument.key (default_quantity p.instrument.key d +ℤ p.quantity) d)
      legs
    ∙ ap (λ x. x +ℤ tally j (position_quantities legs))
        (default-put j p.instrument.key p.quantity d)
    ∙ +ℤ-assoc _ _ _

pub add_legs-HasUniqueKeys :
    (d : Dict ℤ) (legs : List InstrumentPosition)
    → HasUniqueKeys d
    → HasUniqueKeys (add_legs d legs)
unfolding add_legs
add_legs-HasUniqueKeys d [] u = u
add_legs-HasUniqueKeys d (p ∷ legs) u =
    add_legs-HasUniqueKeys
      (put p.instrument.key (default_quantity p.instrument.key d +ℤ p.quantity) d) legs
      (put-HasUniqueKeys _ _ d u)

pub add_sleeves-HasUniqueKeys :
    (d : Dict ℤ) (sleeves : List SleevePosition)
    → HasUniqueKeys d
    → HasUniqueKeys (add_sleeves d sleeves)
unfolding add_sleeves
add_sleeves-HasUniqueKeys d [] u = u
add_sleeves-HasUniqueKeys d (s ∷ sleeves) u =
    add_sleeves-HasUniqueKeys (add_legs d s.legs) sleeves (add_legs-HasUniqueKeys d s.legs u)

checked_position-same :
    (p : InstrumentPosition) {q : InstrumentPosition} → checked_position p ≡ ok q → p ≡ q
unfolding checked_position
checked_position-same p h =
    let r = raise_if-eq-ok _ field_invalid _ h in (raise_if-value _ spot_negative r.1).1

build_positions-quantities :
    (d : Dict PositionState) {legs : List InstrumentPosition}
    → AllOpen IsKeyed d
    → build_positions d ≡ ok legs
    → position_quantities legs ≡ quantities d
unfolding build_positions position_quantities quantities
build_positions-quantities [] a h = rw (← ok-injective h) refl
build_positions-quantities ((k, p) ∷ d) a h =
    let position : InstrumentPosition = record {
      instrument = p.instrument;
      quantity = p.quantity;
      average_price = p.average_price;
    } in
    let (first, e, f) = >>=-eq-ok (checked_position position) _ h in
    let (rest, g, i) = >>=-eq-ok (build_positions d) _ f in
    let same = checked_position-same position e in
    let later = build_positions-quantities d a.1 g in rw (← ok-injective i, ← same, later, a.0) refl

-- What the positions of one dictionary say.
pub record Listed (d : Dict PositionState) (legs : List InstrumentPosition) : Type 0 where
  pub same :
      position_quantities legs ≡ quantities (select (λ e. not (is_zero e.1.quantity)) (by_key d))

kept_open :
    (d : Dict PositionState)
    → AllOpen IsKeyed d
    → AllOpen IsKeyed (select (λ e. not (is_zero e.1.quantity)) (by_key d))
kept_open d a =
    All-map (λ e h. h.0) _
      (All-select (λ e. IsKeyed e.0 e.1) _ (by_key d) (All-sorted _ (λ e. IsKeyed e.0 e.1) d a))

pub positions_of-Listed :
    (d : Dict PositionState) {legs : List InstrumentPosition}
    → AllOpen IsKeyed d
    → positions_of d ≡ ok legs
    → Listed d legs
unfolding positions_of
positions_of-Listed d a h = record { same = build_positions-quantities _ (kept_open d a) h }

-- An entry that is not zero.
abbrev pub nonzero : ℤ → Option ℤ
nonzero q = if is_zero q then none else some q

nonzero_of :
    (p : PositionState)
    → quantity_of (if not (is_zero p.quantity) then some p else none) ≡ nonzero p.quantity
nonzero_of p = elim (Bool-cases (is_zero p.quantity)) [
  | inl z ↦ rw (nonzero, z) refl
  | inr n ↦ rw (nonzero, n) refl
]

get-kept :
    (j : ℕ) (d : Dict PositionState)
    → HasUniqueKeys d
    → quantity_of (get j (select (λ e. not (is_zero e.1.quantity)) d)) ≡ nonzero (held j d)
get-kept j d u = elim (Option-cases (get j d)) [
  | inl n ↦ let m = get-select-none (λ e. not (is_zero e.1.quantity)) j d n in rw (held, n, m) refl
  | inr (p, e) ↦
      let m = get-select (λ e. not (is_zero e.1.quantity)) j d u e in rw (held, e, m) (nonzero_of p)
]

module _ (d : Dict PositionState) (legs : List InstrumentPosition) (u : HasUniqueKeys d)
    (l : Listed d legs) where
  pub tally-Listed : (j : ℕ) → tally j (position_quantities legs) ≡ held j d
  tally-Listed j = rw l.same (tally-select j (by_key d) ∙ tally-sorted j _ d ∙ tally_unique j d u)

  pub get-Listed : (j : ℕ) → get j (position_quantities legs) ≡ nonzero (held j d)
  get-Listed j = rw l.same (
      get-quantities j _
      ∙ get-kept j (by_key d) (sorted-HasUniqueKeys _ d u)
      ∙ ap (λ x. nonzero (quantity_in x)) (get-sorted _ j d u))

  pub Listed-HasUniqueKeys : HasUniqueKeys (position_quantities legs)
  Listed-HasUniqueKeys =
      rw l.same (quantities-HasUniqueKeys _ (select-HasUniqueKeys _ _ (sorted-HasUniqueKeys _ d u)))

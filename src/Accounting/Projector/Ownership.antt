-- ===== src/Accounting/Projector/Ownership.antt =====
-- The loop of `project` over the orders: what the products and the sleeves hold.
use ai_investment_manager.Prelude.{
  ℕ, ◌+◌, ◌≡◌, sym, ap, ◌∙◌, Bool, true, false, ◌&&◌, List, ◌∷◌, [], ◌==◌, total, if◌then◌else◌,
  Bool-cases, inl, inr, ok, ◌>>=◌, >>=-eq-ok, ok-injective, arith, All,
}
use ai_investment_manager.Prelude.Int.{
  ℤ, pos, ◌+ℤ◌, sub_ℕ, negate, sub_ℕ_parts, sub_ℕ-eq, +ℤ-sub_ℕ, +ℤ-zero, +ℤ-swap, +ℤ-assoc,
}
use ai_investment_manager.Prelude.Dict.{Dict, get, put, HasUniqueKeys, All-put}
use ai_investment_manager.Execution.Leg.{Side, buy, sell, is_side}
use ai_investment_manager.Execution.Group.{ExecutionGroup}
use ai_investment_manager.Portfolio.Target.{ApprovedSleeve}
use ai_investment_manager.Accounting.Position.{
  PositionState, Fill, signed_fill, fill_of, priced, apply_position, apply_cash,
}
use ai_investment_manager.Accounting.Position.Net.{held, share, Moved, apply_position-Moved}
use ai_investment_manager.Accounting.History.{ProductOrderObservation}
use ai_investment_manager.Accounting.Projector.{Books, states_of, book_order, owner, book_orders}

-- What all sleeves hold of an instrument.
unfoldable pub owned : ℕ → Dict (Dict PositionState) → ℤ
owned key [] = pos 0
owned key (e ∷ states) = held key e.1 +ℤ owned key states

-- What the orders have traded of an instrument on one side.
abbrev pub traded_by : ℕ → Side → ProductOrderObservation → ℕ
traded_by key side o =
    if key == o.order.instrument.key && is_side o.order.side side
    then o.order.filled_quantity
    else 0

abbrev pub traded : ℕ → Side → List ProductOrderObservation → ℕ
traded key side os = total (traded_by key side) os

owned-put :
    (states : Dict (Dict PositionState)) (sleeve_id key : ℕ) (fill : ℤ) (after : Dict PositionState)
    → Moved key fill (states_of sleeve_id states) after
    → (j : ℕ) → owned j (put sleeve_id after states) ≡ owned j states +ℤ share j key fill
unfolding owned put get
owned-put [] sleeve_id key fill after m j = +ℤ-zero (held j after) ∙ m.quantities j
owned-put (e ∷ states) sleeve_id key fill after m j = elim (Bool-cases (sleeve_id == e.0)) [
  | inl c ↦
      let m' : Moved key fill e.1 after = rw (states_of, c) at m in
      rw (c, m'.quantities j) (+ℤ-swap (held j e.1) (share j key fill) (owned j states))
  | inr c ↦
      let m' : Moved key fill (states_of sleeve_id states) after = rw (states_of, c) at m in
      rw (c, owned-put states sleeve_id key fill after m' j)
        (sym (+ℤ-assoc (held j e.1) (owned j states) (share j key fill)))
]

-- The sleeves together hold what the products hold.
pub record IsOwned (books : Books) : Type 0 where
  pub unique : HasUniqueKeys books.product_states
  pub sleeves_unique : All (λ e. HasUniqueKeys e.1) books.sleeve_states
  pub owned_held : (j : ℕ) → owned j books.sleeve_states ≡ held j books.product_states

apply_cash-Moved :
    (cash : ℤ) (fill : Fill) (d : Dict PositionState) {r : ℤ × Dict PositionState}
    → HasUniqueKeys d
    → apply_cash cash fill d ≡ ok r
    → Moved fill.instrument.key (signed_fill fill) d r.1
unfolding apply_cash
apply_cash-Moved cash fill d u h =
    let (price, e, f) = >>=-eq-ok (priced fill.average_fill_price) _ h in
    let (applied, g, k) = >>=-eq-ok (apply_position d fill) _ f in
    rw (← ap (λ x. x.1) (ok-injective k)) (apply_position-Moved d fill u g)

states_of_unique :
    (sleeve_id : ℕ) (states : Dict (Dict PositionState))
    → All (λ e. HasUniqueKeys e.1) states
    → HasUniqueKeys (states_of sleeve_id states)
unfolding get
states_of_unique sleeve_id [] h = tt
states_of_unique sleeve_id (e ∷ states) h = elim (Bool-cases (sleeve_id == e.0)) [
  | inl c ↦ rw (states_of, c) h.0
  | inr c ↦ rw (states_of, c) (states_of_unique sleeve_id states h.1)
]

record Booked (books next : Books) (fill : Fill) : Type 0 where
  sound : IsOwned next
  moved :
      (j : ℕ)
      → held j next.product_states
        ≡ held j books.product_states +ℤ share j fill.instrument.key (signed_fill fill)

book_order-Booked :
    (books : Books) (sleeve_id : ℕ) (fill : Fill) {next : Books}
    → IsOwned books
    → book_order books sleeve_id fill ≡ ok next
    → Booked books next fill
unfolding book_order
book_order-Booked books sleeve_id fill {next} s h =
    let (paid, e, f) = >>=-eq-ok (apply_cash books.cash fill books.product_states) _ h in
    let (applied, g, k) =
      >>=-eq-ok (apply_position (states_of sleeve_id books.sleeve_states) fill) _ f in
    let m = apply_cash-Moved books.cash fill books.product_states s.unique e in
    let n = apply_position-Moved _ fill (states_of_unique sleeve_id _ s.sleeves_unique) g in
    rw (← ok-injective k) record {
      sound = record {
        unique = m.unique;
        sleeves_unique =
            All-put HasUniqueKeys sleeve_id applied.0 books.sleeve_states s.sleeves_unique n.unique;
        owned_held = λ j.
            owned-put books.sleeve_states sleeve_id _ _ applied.0 n j
            ∙ ap (λ x. x +ℤ share j fill.instrument.key (signed_fill fill)) (s.owned_held j)
            ∙ sym (m.quantities j);
      };
      moved = m.quantities;
    }

share_of_side :
    (t : Bool) (s : Side) (f b c : ℕ)
    → (if t then elim s as (λ _. ℤ) [ buy ↦ pos f | sell ↦ negate (pos f) ] else pos 0) +ℤ sub_ℕ b c
      ≡ sub_ℕ
          ((if t && is_side s buy then f else 0) + b)
          ((if t && is_side s sell then f else 0) + c)
share_of_side false s f b c = +ℤ-sub_ℕ (pos 0) b c (0 + b) (0 + c) (omega arith)
share_of_side true buy f b c = +ℤ-sub_ℕ (pos f) b c (f + b) (0 + c) (omega arith)
share_of_side true sell f b c =
    +ℤ-sub_ℕ (sub_ℕ 0 f) b c (0 + b) (f + c) (omega (arith, sub_ℕ_parts 0 f))

-- The share of an order, between what was traded before it and with it.
share-traded :
    (o : ProductOrderObservation) (os : List ProductOrderObservation) (j : ℕ) (a : ℤ)
    → a
        +ℤ share j o.order.instrument.key (signed_fill (fill_of o.order))
        +ℤ sub_ℕ (traded j buy os) (traded j sell os)
      ≡ a +ℤ sub_ℕ (traded j buy (o ∷ os)) (traded j sell (o ∷ os))
share-traded o os j a =
    +ℤ-assoc a _ _
    ∙ ap (λ x. a +ℤ x)
        (share_of_side (j == o.order.instrument.key) o.order.side o.order.filled_quantity
          (traded j buy os) (traded j sell os))

untraded :
    (o : ProductOrderObservation) (os : List ProductOrderObservation) (j : ℕ)
    → o.order.filled_quantity == 0 ≡ true
    → sub_ℕ (traded j buy os) (traded j sell os)
      ≡ sub_ℕ (traded j buy (o ∷ os)) (traded j sell (o ∷ os))
untraded o os j z =
    let b : traded_by j buy o ≡ 0 = ground arith in
    let c : traded_by j sell o ≡ 0 = ground arith in
    sub_ℕ-eq (traded j buy os) (traded j sell os) (traded j buy (o ∷ os)) (traded j sell (o ∷ os))
      (omega (arith, b, c))

pub book_orders-Booked :
    (groups : Dict ExecutionGroup) (sleeves : Dict ApprovedSleeve) (books : Books)
    (os : List ProductOrderObservation) {after : Books}
    → IsOwned books
    → book_orders groups sleeves books os ≡ ok after
    → IsOwned after
      × ((j : ℕ)
          → held j after.product_states
            ≡ held j books.product_states +ℤ sub_ℕ (traded j buy os) (traded j sell os))
unfolding book_orders
book_orders-Booked groups sleeves books [] s h = rw (← ok-injective h) (s, λ j. sym (+ℤ-zero _))
book_orders-Booked groups sleeves books (o ∷ os) s h =
    elim (Bool-cases (o.order.filled_quantity == 0)) [
      | inl z ↦
          let h' : book_orders groups sleeves books os ≡ ok _ = rw z at h in
          let r = book_orders-Booked groups sleeves books os s h' in
          (r.0, λ j. r.1 j ∙ ap (λ x. held j books.product_states +ℤ x) (untraded o os j z))
      | inr n ↦
          let h' : (owner groups sleeves o.order.group_id >>= λ sleeve_id.
          book_order books sleeve_id (fill_of o.order) >>= λ next.
          book_orders groups sleeves next os)
              ≡ ok _ =
            rw n at h in
          let (sleeve_id, e, f) = >>=-eq-ok (owner groups sleeves o.order.group_id) _ h' in
          let (next, g, k) = >>=-eq-ok (book_order books sleeve_id (fill_of o.order)) _ f in
          let b = book_order-Booked books sleeve_id (fill_of o.order) s g in
          let r = book_orders-Booked groups sleeves next os b.sound k in
          (
            r.0,
            λ j.
                r.1 j
                ∙ ap (λ x. x +ℤ sub_ℕ (traded j buy os) (traded j sell os)) (b.moved j)
                ∙ share-traded o os j _,
          )
    ]

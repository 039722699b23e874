-- ===== src/Accounting/Projector/Kept.antt =====
-- What the loop of `project` over the orders keeps of every position, in the books of the products
-- and of the sleeves.
use ai_investment_manager.Prelude.{
  ℕ, ◌≡◌, ap, false, List, ◌∷◌, [], ◌==◌, Bool-cases, inl, inr, ok, ◌>>=◌, >>=-eq-ok, ok-injective,
  arith, All, All-map,
}
use ai_investment_manager.Prelude.Int.{ℤ, is_zero, pos, negate}
use ai_investment_manager.Prelude.Dict.{Dict, get, All-put}
use ai_investment_manager.Execution.Group.{ExecutionGroup}
use ai_investment_manager.Execution.Leg.{Side, buy, sell}
use ai_investment_manager.Portfolio.Target.{ApprovedSleeve}
use ai_investment_manager.Accounting.Position.{
  PositionState, Fill, signed_fill, fill_of, priced, apply_position, apply_cash,
}
use ai_investment_manager.Accounting.Position.Open.{
  IsClosed, AllOpen, apply_position-AllOpen, IsOpen, IsOpen-IsClosed,
}
use ai_investment_manager.Accounting.History.{ProductOrderObservation}
use ai_investment_manager.Accounting.Projector.{Books, states_of, book_order, owner, book_orders}

module _ (P : ℕ → PositionState → Type 0) where
  pub record AllBooked (books : Books) : Type 0 where
    pub products : AllOpen P books.product_states
    pub sleeves : All (λ e. AllOpen P e.1) books.sleeve_states

  apply_cash-AllOpen :
      (cash : ℤ) (fill : Fill) (d : Dict PositionState) {r : ℤ × Dict PositionState}
      → IsClosed P fill.instrument (signed_fill fill)
      → AllOpen P d
      → apply_cash cash fill d ≡ ok r
      → AllOpen P r.1
  unfolding apply_cash
  apply_cash-AllOpen cash fill d c a h =
      let (price, e, f) = >>=-eq-ok (priced fill.average_fill_price) _ h in
      let (applied, g, k) = >>=-eq-ok (apply_position d fill) _ f in
      rw (← ap (λ x. x.1) (ok-injective k)) (apply_position-AllOpen P d fill c a g)

  states_of-AllOpen :
      (sleeve_id : ℕ) (states : Dict (Dict PositionState))
      → All (λ e. AllOpen P e.1) states
      → AllOpen P (states_of sleeve_id states)
  unfolding get
  states_of-AllOpen sleeve_id [] h = tt
  states_of-AllOpen sleeve_id (e ∷ states) h = elim (Bool-cases (sleeve_id == e.0)) [
    | inl c ↦ rw (states_of, c) h.0
    | inr c ↦ rw (states_of, c) (states_of-AllOpen sleeve_id states h.1)
  ]

  book_order-AllBooked :
      (books : Books) (sleeve_id : ℕ) (fill : Fill) {next : Books}
      → IsClosed P fill.instrument (signed_fill fill)
      → AllBooked books
      → book_order books sleeve_id fill ≡ ok next
      → AllBooked next
  unfolding book_order
  book_order-AllBooked books sleeve_id fill c a h =
      let (paid, e, f) = >>=-eq-ok (apply_cash books.cash fill books.product_states) _ h in
      let states = states_of sleeve_id books.sleeve_states in
      let (applied, g, k) = >>=-eq-ok (apply_position states fill) _ f in
      let kept = states_of-AllOpen sleeve_id books.sleeve_states a.sleeves in
      let after = apply_position-AllOpen P states fill c kept g in
      rw (← ok-injective k) record {
        products = apply_cash-AllOpen books.cash fill books.product_states c a.products e;
        sleeves = All-put (AllOpen P) sleeve_id applied.0 books.sleeve_states a.sleeves after;
      }

  -- Whether the property is kept by an order that has filled.
  abbrev pub IsKept : ProductOrderObservation → Type 0
  IsKept o =
      o.order.filled_quantity == 0 ≡ false
      → IsClosed P o.order.instrument (signed_fill (fill_of o.order))

  pub book_orders-AllBooked :
      (groups : Dict ExecutionGroup) (sleeves : Dict ApprovedSleeve) (books : Books)
      (os : List ProductOrderObservation) {after : Books}
      → All IsKept os
      → AllBooked books
      → book_orders groups sleeves books os ≡ ok after
      → AllBooked after
  unfolding book_orders
  book_orders-AllBooked groups sleeves books [] c a h = rw (← ok-injective h) a
  book_orders-AllBooked groups sleeves books (o ∷ os) c a h =
      elim (Bool-cases (o.order.filled_quantity == 0)) [
        | inl z ↦
            let h' : book_orders groups sleeves books os ≡ ok _ = rw z at h in
            book_orders-AllBooked groups sleeves books os c.1 a h'
        | inr n ↦
            let h' : (owner groups sleeves o.order.group_id >>= λ sleeve_id.
            book_order books sleeve_id (fill_of o.order) >>= λ next.
            book_orders groups sleeves next os)
                ≡ ok _ =
              rw n at h in
            let (sleeve_id, e, f) = >>=-eq-ok (owner groups sleeves o.order.group_id) _ h' in
            let (next, g, k) = >>=-eq-ok (book_order books sleeve_id (fill_of o.order)) _ f in
            let b = book_order-AllBooked books sleeve_id (fill_of o.order) (c.0 n) a g in
            book_orders-AllBooked groups sleeves next os c.1 b k
      ]

filled_nonzero :
    (side : Side) (f : ℕ)
    → f == 0 ≡ false
    → is_zero (elim side as (λ _. ℤ) [ buy ↦ pos f | sell ↦ negate (pos f) ]) ≡ false
filled_nonzero buy f h = ground arith
filled_nonzero sell f h = ground arith

-- Whatever sequence of orders is booked, no position is left empty and no position of a spot
-- product is short, in the books of the products and of each sleeve. The key of an instrument names
-- its product.
pub book_orders-IsOpen :
    (product_of : ℕ → ℕ) (groups : Dict ExecutionGroup) (sleeves : Dict ApprovedSleeve)
    (books : Books) (os : List ProductOrderObservation) (after : Books)
    → All (λ o. o.order.instrument.product ≡ product_of o.order.instrument.key) os
    → AllBooked (IsOpen product_of) books
    → book_orders groups sleeves books os ≡ ok after
    → AllBooked (IsOpen product_of) after
book_orders-IsOpen product_of groups sleeves books os after named a h =
    book_orders-AllBooked (IsOpen product_of) groups sleeves books os
      (All-map
        (λ o e n.
          IsOpen-IsClosed product_of o.order.instrument (signed_fill (fill_of o.order)) e
            (filled_nonzero o.order.side o.order.filled_quantity n))
        os named)
      a h

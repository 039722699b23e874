-- ===== src/Execution/MockVenue/Validity.antt =====
-- Every order that the mock venue stores is valid.
use ai_investment_manager.Prelude.{
  ℕ, ◌≡◌, refl, ◌<◌, true, any, inl, inr, Bool-cases, Option, none, some, Option-cases, Result, err,
  ok, ◌>>=◌, >>=-eq-ok, All, arith, ◌*◌, ◌/◌, ◌≢◌, List, [], ◌∷◌,
}
use ai_investment_manager.Prelude.Dict.{get, All-get, All-put}
use ai_investment_manager.Kernel.{StableId, Time}
use ai_investment_manager.Kernel.Decimal.{Decimal, div, one, round_div}
use ai_investment_manager.Execution.Leg.{Error, ExecutionLeg}
use ai_investment_manager.Execution.Order.{
  partially_filled, order_terminal, is_order, ProductOrder, same_order, checked_order,
}
use ai_investment_manager.Execution.MockVenue.Idempotence.{next_behavior_orders, checked_order_lem}
use ai_investment_manager.Execution.MockVenue.{
  MockVenue, same_key, mock_order, insert_built, MockSubmitBehavior, fill, partial_fill, reject,
  before_accept_response_lost, after_accept_response_lost, build_mock_product_order,
  bound_elsewhere, next_behavior, fee_bps_for, insert_order, respond, accept, submit_found,
  mock_query, mock_submit, mock_cancel, canceled_order, complete, completed_order, fill_remaining,
  mock_status, mock_filled,
}

-- The order would pass its constructor, and a part of it has filled where its status says so.
abbrev pub IsValid : ProductOrder → Type 0
IsValid order =
    (checked_order order ≡ ok order)
    × (is_order order.status partially_filled ≡ true → 0 < order.filled_quantity)

abbrev pub AllValid : MockVenue → Type 0
AllValid v = All (λ row. IsValid row.1) v.orders

half_positive : (a : ℕ) → 1 < a → 0 < div a (2 * one)
unfolding div round_div
half_positive a h = let q : a * one / (2 * one) ≢ 0 = omega arith in ground arith

filled_where_partial :
    (b : MockSubmitBehavior) (a : ℕ)
    → 1 < a
    → is_order (mock_status b) partially_filled ≡ true
    → 0 < mock_filled b a
filled_where_partial partial_fill a h e = half_positive a h
filled_where_partial fill a h e = cc
filled_where_partial reject a h e = cc
filled_where_partial before_accept_response_lost a h e = cc
filled_where_partial after_accept_response_lost a h e = cc

mock_order-IsValid :
    (digest : StableId) (leg : ExecutionLeg) (b : MockSubmitBehavior) (t : Time) (fee : Decimal)
    (order : ProductOrder)
    → 1 < leg.requested_quantity
    → checked_order (mock_order digest leg b t fee) ≡ ok order
    → IsValid order
unfolding mock_order
mock_order-IsValid digest leg b t fee order p h =
    let e = checked_order_lem (mock_order digest leg b t fee) order h in
    let half = half_positive leg.requested_quantity p in
    (rw e (rw e at h), rw e (filled_where_partial b leg.requested_quantity p))

canceled_order-IsValid :
    (order : ProductOrder) (t : Time) → IsValid order → IsValid (canceled_order order t)
unfolding checked_order
canceled_order-IsValid order t h = ground arith

completed_order-IsValid :
    (order : ProductOrder) (t : Time) (fee : Decimal)
    → IsValid order
    → is_order order.status partially_filled ≡ true
    → IsValid (completed_order order t fee)
unfolding checked_order
completed_order-IsValid order t fee h p = let q = h.1 p in ground arith

insert_order-AllValid :
    (order : ProductOrder) (v : MockVenue)
    → IsValid order
    → AllValid v
    → AllValid (insert_order order v).1
unfolding insert_order
insert_order-AllValid order v h a = elim (Option-cases (get order.client_order_id v.orders)) [
  | inl e ↦ elim (Bool-cases (any (same_key order) v.orders)) [
    | inl c ↦ rw (insert_order, e, c) a
    | inr c ↦ rw (insert_order, e, c) (All-put IsValid order.client_order_id order v.orders a h)
  ]
  | inr e ↦ elim (Bool-cases (same_order e.0 order)) [
    | inl c ↦ rw (insert_order, e.1, c) a
    | inr c ↦ rw (insert_order, e.1, c) a
  ]
]

respond_venue :
    (b : MockSubmitBehavior) (r : Result Error ProductOrder × MockVenue) → (respond b r).1 ≡ r.1
respond_venue after_accept_response_lost (ok stored, v) = refl
respond_venue after_accept_response_lost (err e, v) = refl
respond_venue fill r = refl
respond_venue partial_fill r = refl
respond_venue reject r = refl
respond_venue before_accept_response_lost r = refl

insert_built-AllValid :
    (b : MockSubmitBehavior) (built : Result Error ProductOrder) (v : MockVenue)
    → ((made : ProductOrder) → built ≡ ok made → IsValid made)
    → AllValid v
    → AllValid (insert_built b built v).1
unfolding insert_built
insert_built-AllValid b (err e) v m a = a
insert_built-AllValid b (ok made) v m a =
    rw (respond_venue b (insert_order made v)) (insert_order-AllValid made v (m made refl) a)

built-IsValid :
    (digest : StableId) (leg : ExecutionLeg) (b : MockSubmitBehavior) (t : Time) (v : MockVenue)
    (made : ProductOrder)
    → 1 < leg.requested_quantity
    → (fee_bps_for leg.instrument.key v >>= build_mock_product_order digest leg b t) ≡ ok made
    → IsValid made
unfolding build_mock_product_order
built-IsValid digest leg b t v made p h =
    let k =
      >>=-eq-ok (fee_bps_for leg.instrument.key v) (build_mock_product_order digest leg b t) h in
    mock_order-IsValid digest leg b t k.0 made p k.2

accept-AllValid :
    (digest : StableId) (leg : ExecutionLeg) (t : Time) (b : MockSubmitBehavior) (v : MockVenue)
    → 1 < leg.requested_quantity
    → AllValid v
    → AllValid (accept digest leg t b v).1
unfolding accept
accept-AllValid digest leg t before_accept_response_lost v p a = a
accept-AllValid digest leg t fill v p a =
    insert_built-AllValid fill _ v (λ made. built-IsValid digest leg fill t v made p) a
accept-AllValid digest leg t partial_fill v p a =
    insert_built-AllValid partial_fill _ v
      (λ made. built-IsValid digest leg partial_fill t v made p) a
accept-AllValid digest leg t reject v p a =
    insert_built-AllValid reject _ v (λ made. built-IsValid digest leg reject t v made p) a
accept-AllValid digest leg t after_accept_response_lost v p a =
    insert_built-AllValid after_accept_response_lost _ v
      (λ made. built-IsValid digest leg after_accept_response_lost t v made p) a

submit_found-AllValid :
    (digest : StableId) (leg : ExecutionLeg) (t : Time) (found : Option ProductOrder)
    (v : MockVenue)
    → 1 < leg.requested_quantity
    → AllValid v
    → AllValid (submit_found digest leg t found v).1
unfolding submit_found
submit_found-AllValid digest leg t none v p a =
    accept-AllValid digest leg t (next_behavior leg.client_order_id v).0
      (next_behavior leg.client_order_id v).1 p (rw (next_behavior_orders leg.client_order_id v) a)
submit_found-AllValid digest leg t (some existing) v p a =
    elim (Bool-cases (bound_elsewhere existing leg)) [ inl c ↦ rw c a | inr c ↦ rw c a ]

mock_cancel-AllValid :
    (id : ℕ) (t : Time) (v : MockVenue) → AllValid v → AllValid (mock_cancel id t v).1
unfolding mock_cancel
mock_cancel-AllValid id t v a = elim (Option-cases (get id v.orders)) [
  | inl e ↦ rw (mock_cancel, e) a
  | inr e ↦ elim (Bool-cases (order_terminal e.0.status)) [
    | inl c ↦ rw (mock_cancel, e.1, c) a
    | inr c ↦
        rw (mock_cancel, e.1, c)
          (All-put IsValid id (canceled_order e.0 t) v.orders a
            (canceled_order-IsValid e.0 t (All-get IsValid id v.orders e.0 a e.1)))
  ]
]

complete-AllValid :
    (id : ℕ) (t : Time) (stored : ProductOrder) (fee : Result Error Decimal) (v : MockVenue)
    → IsValid stored
    → is_order stored.status partially_filled ≡ true
    → AllValid v
    → AllValid (complete id t stored fee v).1
complete-AllValid id t stored (err e) v h p a = a
complete-AllValid id t stored (ok fee) v h p a =
    All-put IsValid id (completed_order stored t fee) v.orders a
      (completed_order-IsValid stored t fee h p)

fill_remaining-AllValid :
    (id : ℕ) (t : Time) (v : MockVenue) → AllValid v → AllValid (fill_remaining id t v).1
unfolding fill_remaining
fill_remaining-AllValid id t v a = elim (Option-cases (get id v.orders)) [
  | inl e ↦ rw (fill_remaining, e) a
  | inr e ↦ elim (Bool-cases (is_order e.0.status partially_filled)) [
    | inl c ↦
        rw (fill_remaining, e.1, c)
          (complete-AllValid id t e.0 (fee_bps_for e.0.instrument.key v) v
            (All-get IsValid id v.orders e.0 a e.1) c a)
    | inr c ↦ rw (fill_remaining, e.1, c) a
  ]
]

-- A call of the venue.
pub data Call : Type 0 where
  query : ℕ → Call
  cancel_at fill_at : ℕ → Time → Call
  submit_at : ExecutionLeg → Time → Call

-- The venue after a call; an exception leaves what the call has written.
abbrev pub after_call : StableId → Call → MockVenue → MockVenue
after_call digest (query id) v = (mock_query id v).1
after_call digest (cancel_at id t) v = (mock_cancel id t v).1
after_call digest (fill_at id t) v = (fill_remaining id t v).1
after_call digest (submit_at leg t) v = (mock_submit digest leg t v).1

abbrev pub after_calls : StableId → List Call → MockVenue → MockVenue
after_calls digest [] v = v
after_calls digest (call ∷ calls) v = after_calls digest calls (after_call digest call v)

-- A leg can be filled by half: it asks for more than the smallest quantity.
abbrev pub IsDivisible : Call → Type 0
IsDivisible (submit_at leg t) = 1 < leg.requested_quantity
IsDivisible _ = Unit

after_call-AllValid :
    (digest : StableId) (call : Call) (v : MockVenue)
    → IsDivisible call
    → AllValid v
    → AllValid (after_call digest call v)
unfolding mock_query mock_submit
after_call-AllValid digest (query id) v p a = a
after_call-AllValid digest (cancel_at id t) v p a = mock_cancel-AllValid id t v a
after_call-AllValid digest (fill_at id t) v p a = fill_remaining-AllValid id t v a
after_call-AllValid digest (submit_at leg t) v p a =
    submit_found-AllValid digest leg t (get leg.client_order_id v.orders) v p a

-- Whatever sequence of queries, submissions, cancellations and later fills a venue of valid orders
-- serves, where every submitted leg asks for more than the smallest quantity, all its orders are
-- valid after it: none has filled more than it asks for, a filled one has filled it all, a partial
-- one has filled a part, and a fill has a price.
pub after_calls-AllValid :
    (digest : StableId) (calls : List Call) (v : MockVenue)
    → All IsDivisible calls
    → AllValid v
    → AllValid (after_calls digest calls v)
after_calls-AllValid digest [] v p a = a
after_calls-AllValid digest (call ∷ calls) v p a =
    after_calls-AllValid digest calls (after_call digest call v) p.1
      (after_call-AllValid digest call v p.0 a)

-- ===== src/Execution/MockVenue/Idempotence.antt =====
-- The mock venue knows an order by its client identity.
use ai_investment_manager.Prelude.{
  ℕ, ◌≡◌, refl, ◌∙◌, subst, true, false, ◌⊎◌, inl, inr, Bool-cases, Option, none, some,
  Option-cases, Result, err, ok, ◌==◌, ◌>>=◌, >>=-eq-ok, arith,
}
use ai_investment_manager.Prelude.Dict.{get, put, get-put}
use ai_investment_manager.Kernel.{StableId, Time}
use ai_investment_manager.Kernel.Decimal.{Decimal}
use ai_investment_manager.Execution.Leg.{
  Error, Side, InstrumentId, is_side, same_instrument, ExecutionLeg,
}
use ai_investment_manager.Execution.Order.{order_terminal, ProductOrder, checked_order}
use ai_investment_manager.Execution.MockVenue.{
  MockVenue, mock_order, insert_built, MockSubmitBehavior, fill, partial_fill, reject,
  before_accept_response_lost, after_accept_response_lost, build_mock_product_order,
  bound_elsewhere, next_behavior, fee_bps_for, insert_order, respond, accept, submit_found,
  mock_query, mock_submit, mock_cancel, canceled_order,
}

-- The venue has the order of this leg.
abbrev pub Knows : ExecutionLeg → ProductOrder → MockVenue → Type 0
Knows leg order v =
    (get leg.client_order_id v.orders ≡ some order) × (bound_elsewhere order leg ≡ false)

same_number : (n : ℕ) → (n == n) ≡ true
same_number n = ground arith

same_instrument_self : (a : InstrumentId) → same_instrument a a ≡ true
same_instrument_self a = ground arith

is_side_self : (a : Side) → is_side a a ≡ true
is_side_self a = ground arith

own_contract :
    (order : ProductOrder) (leg : ExecutionLeg)
    → order.execution_leg_id ≡ leg.execution_leg_id
    → order.group_id ≡ leg.group_id
    → order.instrument ≡ leg.instrument
    → order.side ≡ leg.side
    → order.requested_quantity ≡ leg.requested_quantity
    → bound_elsewhere order leg ≡ false
unfolding bound_elsewhere
own_contract order leg a b c d e =
    let i : same_instrument order.instrument leg.instrument ≡ true =
      rw c (same_instrument_self leg.instrument) in
    let s : is_side order.side leg.side ≡ true = rw d (is_side_self leg.side) in
    rw (i, s) ground arith

pub checked_order_lem : (r order : ProductOrder) → checked_order r ≡ ok order → order ≡ r
unfolding checked_order
checked_order_lem r order h = ground arith

build_lem :
    (digest : StableId) (leg : ExecutionLeg) (b : MockSubmitBehavior) (t : Time) (f : Decimal)
    (order : ProductOrder)
    → build_mock_product_order digest leg b t f ≡ ok order
    → (order.client_order_id ≡ leg.client_order_id) × (bound_elsewhere order leg ≡ false)
unfolding build_mock_product_order mock_order
build_lem digest leg b t f order h =
    let e = checked_order_lem (mock_order digest leg b t f) order h in
    rw e (refl, own_contract _ leg refl refl refl refl refl)

insert_order_lem :
    (order stored : ProductOrder) (v u : MockVenue)
    → get order.client_order_id v.orders ≡ none
    → insert_order order v ≡ (ok stored, u)
    → (stored ≡ order) × (get order.client_order_id u.orders ≡ some order)
unfolding insert_order
insert_order_lem order stored v u n h =
    let g = get-put order.client_order_id order.client_order_id order v.orders in
    ground (arith, g, n, h)

respond_lem :
    (b : MockSubmitBehavior) (r : Result Error ProductOrder × MockVenue) (order : ProductOrder)
    (u : MockVenue)
    → respond b r ≡ (ok order, u)
    → r ≡ (ok order, u)
respond_lem after_accept_response_lost (ok stored, v) order u h = cc
respond_lem after_accept_response_lost (err e, v) order u h = h
respond_lem fill r order u h = h
respond_lem partial_fill r order u h = h
respond_lem reject r order u h = h
respond_lem before_accept_response_lost r order u h = h

insert_built_lem :
    (leg : ExecutionLeg) (b : MockSubmitBehavior) (built : Result Error ProductOrder)
    (order : ProductOrder) (v u : MockVenue)
    → ((made : ProductOrder)
        → built ≡ ok made
        → (made.client_order_id ≡ leg.client_order_id) × (bound_elsewhere made leg ≡ false))
    → get leg.client_order_id v.orders ≡ none
    → insert_built b built v ≡ (ok order, u)
    → Knows leg order u
unfolding insert_built
insert_built_lem leg b (err e) order v u m n h = cc
insert_built_lem leg b (ok made) order v u m n h =
    let k = m made refl in
    let n' : get made.client_order_id v.orders ≡ none = rw k.0 n in
    let i = insert_order_lem made order v u n' (respond_lem b (insert_order made v) order u h) in
    let i1 = subst (λ id. get id u.orders ≡ some made) k.0 i.1 in rw i.0 (i1, k.1)

built_lem :
    (digest : StableId) (leg : ExecutionLeg) (b : MockSubmitBehavior) (t : Time) (v : MockVenue)
    (made : ProductOrder)
    → (fee_bps_for leg.instrument.key v >>= build_mock_product_order digest leg b t) ≡ ok made
    → (made.client_order_id ≡ leg.client_order_id) × (bound_elsewhere made leg ≡ false)
built_lem digest leg b t v made h =
    let k =
      >>=-eq-ok (fee_bps_for leg.instrument.key v) (build_mock_product_order digest leg b t) h in
    build_lem digest leg b t k.0 made k.2

-- What a submission that was accepted has left.
accept_lem :
    (digest : StableId) (leg : ExecutionLeg) (t : Time) (b : MockSubmitBehavior)
    (order : ProductOrder) (v u : MockVenue)
    → get leg.client_order_id v.orders ≡ none
    → accept digest leg t b v ≡ (ok order, u)
    → Knows leg order u
unfolding accept
accept_lem digest leg t before_accept_response_lost order v u n h = cc
accept_lem digest leg t fill order v u n h =
    insert_built_lem leg fill _ order v u (built_lem digest leg fill t v) n h
accept_lem digest leg t partial_fill order v u n h =
    insert_built_lem leg partial_fill _ order v u (built_lem digest leg partial_fill t v) n h
accept_lem digest leg t reject order v u n h =
    insert_built_lem leg reject _ order v u (built_lem digest leg reject t v) n h
accept_lem digest leg t after_accept_response_lost order v u n h =
    insert_built_lem leg after_accept_response_lost _ order v u
      (built_lem digest leg after_accept_response_lost t v) n h

pub next_behavior_orders : (id : ℕ) (v : MockVenue) → (next_behavior id v).1.orders ≡ v.orders
unfolding next_behavior
next_behavior_orders id v = elim (Option-cases (get id v.behaviors)) [
  | inl e ↦ rw (next_behavior, e) refl
  | inr e ↦ rw (next_behavior, e.1) refl
]

submit_found-Knows :
    (digest : StableId) (leg : ExecutionLeg) (t : Time) (found : Option ProductOrder)
    (order : ProductOrder) (v u : MockVenue)
    → get leg.client_order_id v.orders ≡ found
    → submit_found digest leg t found v ≡ (ok order, u)
    → Knows leg order u
unfolding submit_found
submit_found-Knows digest leg t none order v u e h =
    let next = next_behavior leg.client_order_id v in
    let n : get leg.client_order_id next.1.orders ≡ none =
      rw (next_behavior_orders leg.client_order_id v) e in
    accept_lem digest leg t next.0 order next.1 u n h
submit_found-Knows digest leg t (some existing) order v u e h = ground (arith, e, h)

-- A venue that knows the order of a leg answers every later submission with it, unchanged.
known_submit :
    (digest : StableId) (leg : ExecutionLeg) (t : Time) (order : ProductOrder) (v : MockVenue)
    → Knows leg order v
    → mock_submit digest leg t v ≡ (ok order, v)
unfolding mock_submit submit_found
known_submit digest leg t order v k = rw (k.0, k.1) refl

-- A submission that is answered is idempotent: submitting the leg again, at any time, is answered
-- with the same order and changes nothing, and a query finds that order.
pub mock_submit_idempotent :
    (digest : StableId) (leg : ExecutionLeg) (t later : Time) (order : ProductOrder)
    (v u : MockVenue)
    → mock_submit digest leg t v ≡ (ok order, u)
    → (mock_submit digest leg later u ≡ (ok order, u))
      × (mock_query leg.client_order_id u ≡ (ok (some order), u))
unfolding mock_submit mock_query
mock_submit_idempotent digest leg t later order v u h =
    let k = submit_found-Knows digest leg t (get leg.client_order_id v.orders) order v u refl h in
    (known_submit digest leg later order u k, rw k.0 refl)

-- A cancellation at the mock venue is answered: with nothing, and then the venue does not know the
-- order, or with an ended order that is the one the venue knew but for the status and the instant of
-- observation, and which a query finds afterwards.
pub mock_cancel_terminal :
    (id : ℕ) (t : Time) (v : MockVenue)
    → ((get id v.orders ≡ none) × (mock_cancel id t v ≡ (ok none, v)))
      ⊎ ((before after : ProductOrder) × (u : MockVenue) × (get id v.orders ≡ some before)
          × (mock_cancel id t v ≡ (ok (some after), u))
          × (order_terminal after.status ≡ true)
          × (after ≡ record before { status = after.status; observed_at = after.observed_at })
          × (mock_query id u ≡ (ok (some after), u)))
unfolding order_terminal mock_cancel mock_query
mock_cancel_terminal id t v = elim (Option-cases (get id v.orders)) [
  | inl e ↦ inl (e, rw (mock_cancel, e) refl)
  | inr e ↦ inr (elim (Bool-cases (order_terminal e.0.status)) [
    | inl c ↦ (e.0, e.0, v, e.1, rw (mock_cancel, e.1, c) refl, c, refl, rw (mock_query, e.1) refl)
    | inr c ↦
        let after = canceled_order e.0 t in
        let u : MockVenue = record v { orders = put id after v.orders } in
        let found : get id u.orders ≡ some after =
          get-put id id after v.orders ∙ (rw (same_number id) refl) in
        (e.0, after, u, e.1, rw (mock_cancel, e.1, c) refl, refl, refl, rw (mock_query, found) refl)
  ])
]

-- ===== src/Execution/MockVenue.antt =====
-- execution/venue/product_mock.py: `build_mock_product_order` and `SqlMockProductVenue`.
pub mod Idempotence
pub mod Validity
use ai_investment_manager.Prelude.{
  ℕ, ◌*◌, Bool, true, false, not, ◌&&◌, ◌||◌, Option, none, some, List, [], ◌∷◌, ◌++◌, map, any,
  is_nonempty, ltb, ◌==◌, is_some, if◌then◌else◌, Result, err, ok, raise_if, ◌>>=◌, ◌>>◌,
}
use ai_investment_manager.Prelude.Dict.{Dict, get, put}
use ai_investment_manager.Kernel.{StableId, Time, mock_product_order}
use ai_investment_manager.Kernel.Decimal.{Decimal, one, mul, div}
use ai_investment_manager.Execution.Leg.{
  Error, unknown_venue_result, order_bound, order_conflict, fee_negative, fee_missing, missing_row,
  is_side, same_instrument, ExecutionLeg,
}
use ai_investment_manager.Execution.Order.{
  OrderStatus, partially_filled, filled, canceled, rejected, is_order, order_terminal, ProductOrder,
  same_order, checked_order,
}
use ai_investment_manager.Execution.Effect.{Effect}
use ai_investment_manager.Execution.Venue.{ProductOrderVenue}

pub data MockSubmitBehavior : Type 0 where
  fill partial_fill reject : MockSubmitBehavior
  before_accept_response_lost after_accept_response_lost : MockSubmitBehavior

-- The rows of `mock_product_orders`, and the attributes of the venue.
pub record MockVenue : Type 0 where
  pub orders : Dict ProductOrder
  pub fee_bps : Decimal
  pub fee_bps_by_instrument : Dict Decimal
  pub behaviors : Dict (List MockSubmitBehavior)

abbrev pub bps : Decimal
bps = 10000 * one

abbrev pub mock_status : MockSubmitBehavior → OrderStatus
mock_status reject = rejected
mock_status partial_fill = partially_filled
mock_status _ = filled

abbrev pub mock_filled : MockSubmitBehavior → Decimal → Decimal
mock_filled reject requested = 0
mock_filled partial_fill requested = div requested (2 * one)
mock_filled _ requested = requested

-- filled * price * multiplier * fee_bps / 10000
abbrev pub fee_of : Decimal → Decimal → Decimal → Decimal → Decimal
fee_of quantity price multiplier fee_bps =
    div (mul (mul (mul quantity price) multiplier) fee_bps) bps

-- The order that is built. Every behaviour but the rejection and the half fill fills it.
unfoldable pub mock_order :
    StableId → ExecutionLeg → MockSubmitBehavior → Time → Decimal → ProductOrder
mock_order digest leg behavior observed_at fee_bps =
    let quantity = mock_filled behavior leg.requested_quantity in
    let price = if ltb 0 quantity then leg.reference_price else 0 in
    record {
      client_order_id = leg.client_order_id;
      venue_order_id = digest mock_product_order (leg.client_order_id ∷ []);
      group_id = leg.group_id;
      execution_leg_id = leg.execution_leg_id;
      instrument = leg.instrument;
      side = leg.side;
      requested_quantity = leg.requested_quantity;
      status = mock_status behavior;
      filled_quantity = quantity;
      average_fill_price = if ltb 0 quantity then some leg.reference_price else none;
      fee = fee_of quantity price leg.instrument.contract_multiplier fee_bps;
      observed_at = observed_at;
    }

-- The fee is not negative, as the type says.
unfoldable pub build_mock_product_order :
    StableId → ExecutionLeg → MockSubmitBehavior → Time → Decimal → Result Error ProductOrder
unfolding mock_order checked_order
build_mock_product_order digest leg behavior observed_at fee_bps =
    checked_order (mock_order digest leg behavior observed_at fee_bps)

-- `query`
unfoldable pub mock_query : ℕ → Effect MockVenue (Option ProductOrder)
mock_query client_order_id v = (ok (get client_order_id v.orders), v)

-- `_require_same_request`
unfoldable pub bound_elsewhere : ProductOrder → ExecutionLeg → Bool
bound_elsewhere order leg =
    not (order.execution_leg_id == leg.execution_leg_id)
    || not (order.group_id == leg.group_id)
    || not (same_instrument order.instrument leg.instrument)
    || not (is_side order.side leg.side)
    || not (order.requested_quantity == leg.requested_quantity)

abbrev pub first_or_fill : List MockSubmitBehavior → MockSubmitBehavior
first_or_fill [] = fill
first_or_fill (b ∷ bs) = b

abbrev pub rest_of : List MockSubmitBehavior → List MockSubmitBehavior
rest_of [] = []
rest_of (b ∷ bs) = bs

-- `_next_behavior`: the behaviour and the venue without it.
unfoldable pub next_behavior : ℕ → MockVenue → MockSubmitBehavior × MockVenue
next_behavior client_order_id v = elim (get client_order_id v.behaviors) [
  | none ↦ (fill, v)
  | some bs ↦
      (first_or_fill bs, record v { behaviors = put client_order_id (rest_of bs) v.behaviors })
]

-- `_fee_bps_for`
unfoldable pub fee_bps_for : ℕ → MockVenue → Result Error Decimal
fee_bps_for key v = elim (get key v.fee_bps_by_instrument) [
  | none ↦ if is_nonempty v.fee_bps_by_instrument then err fee_missing else ok v.fee_bps
  | some fee ↦ ok fee
]

abbrev pub same_key : ProductOrder → ℕ × ProductOrder → Bool
same_key order row =
    row.1.venue_order_id == order.venue_order_id || row.1.execution_leg_id == order.execution_leg_id

-- `_insert`: the keys of the table are the three identities of an order.
unfoldable pub insert_order : ProductOrder → Effect MockVenue ProductOrder
insert_order order v = elim (get order.client_order_id v.orders) [
  | some row ↦ if same_order row order then (ok row, v) else (err order_conflict, v)
  | none ↦
      if any (same_key order) v.orders
      then (err order_conflict, v)
      else (ok order, record v { orders = put order.client_order_id order v.orders })
]

-- `submit` after the insertion: the response may be lost.
abbrev pub respond :
    MockSubmitBehavior
    → Result Error ProductOrder × MockVenue
    → Result Error ProductOrder × MockVenue
respond after_accept_response_lost (ok stored, v) = (err unknown_venue_result, v)
respond _ r = r

-- The insertion of what was built.
unfoldable pub insert_built :
    MockSubmitBehavior → Result Error ProductOrder → Effect MockVenue ProductOrder
unfolding insert_order
insert_built behavior (err e) v = (err e, v)
insert_built behavior (ok order) v = respond behavior (insert_order order v)

unfoldable pub accept :
    StableId → ExecutionLeg → Time → MockSubmitBehavior → Effect MockVenue ProductOrder
unfolding fee_bps_for build_mock_product_order insert_built
accept digest leg observed_at before_accept_response_lost v = (err unknown_venue_result, v)
accept digest leg observed_at behavior v =
    insert_built behavior
      (fee_bps_for leg.instrument.key v
        >>= build_mock_product_order digest leg behavior observed_at)
      v

-- `submit` after its query.
unfoldable pub submit_found :
    StableId → ExecutionLeg → Time → Option ProductOrder → Effect MockVenue ProductOrder
unfolding bound_elsewhere next_behavior accept
submit_found digest leg observed_at (some existing) v =
    if bound_elsewhere existing leg then (err order_bound, v) else (ok existing, v)
submit_found digest leg observed_at none v =
    let next = next_behavior leg.client_order_id v in accept digest leg observed_at next.0 next.1

-- `submit`
unfoldable pub mock_submit : StableId → ExecutionLeg → Time → Effect MockVenue ProductOrder
unfolding submit_found
mock_submit digest leg observed_at v =
    submit_found digest leg observed_at (get leg.client_order_id v.orders) v

abbrev pub canceled_order : ProductOrder → Time → ProductOrder
canceled_order order observed_at = record order { status = canceled; observed_at = observed_at }

-- `cancel`
unfoldable pub mock_cancel : ℕ → Time → Effect MockVenue (Option ProductOrder)
unfolding order_terminal
mock_cancel client_order_id observed_at v = elim (get client_order_id v.orders) [
  | none ↦ (ok none, v)
  | some stored ↦ if order_terminal stored.status then (ok (some stored), v) else (
    ok (some (canceled_order stored observed_at)),
    record v { orders = put client_order_id (canceled_order stored observed_at) v.orders },
  )
]

-- `stored.average_fill_price or 0`
abbrev pub price_or_zero : Option Decimal → Decimal
price_or_zero none = 0
price_or_zero (some price) = price

abbrev pub completed_order : ProductOrder → Time → Decimal → ProductOrder
completed_order order observed_at fee_bps = record order {
  status = filled;
  filled_quantity = order.requested_quantity;
  fee =
      fee_of order.requested_quantity (price_or_zero order.average_fill_price)
        order.instrument.contract_multiplier fee_bps;
  observed_at = observed_at;
}

abbrev pub complete : ℕ → Time → ProductOrder → Result Error Decimal → Effect MockVenue ProductOrder
complete client_order_id observed_at stored (err e) v = (err e, v)
complete client_order_id observed_at stored (ok fee_bps) v =
    let order = completed_order stored observed_at fee_bps in
    (ok order, record v { orders = put client_order_id order v.orders })

-- `fill_remaining`
unfoldable pub fill_remaining : ℕ → Time → Effect MockVenue ProductOrder
unfolding fee_bps_for
fill_remaining client_order_id observed_at v = elim (get client_order_id v.orders) [
  | none ↦ (err missing_row, v)
  | some stored ↦
      if is_order stored.status partially_filled
      then complete client_order_id observed_at stored (fee_bps_for stored.instrument.key v) v
      else (ok stored, v)
]

unfoldable pub mock_venue : StableId → ProductOrderVenue MockVenue
unfolding mock_query mock_submit mock_cancel
mock_venue digest = record { query = mock_query; submit = mock_submit digest; cancel = mock_cancel }

-- ===== src/Execution/Order.antt =====
-- execution/venue/product.py: `ProductOrder`; execution/group/engine.py: `execution_leg_from_order`.
use ai_investment_manager.Prelude.{
  ℕ, Bool, not, ◌&&◌, ◌||◌, Option, some, ltb, ◌==◌, is_some, Result, ok, raise_if, ◌>>◌,
}
use mathlib.Core.Bool.{xor}
use ai_investment_manager.Kernel.{Time}
use ai_investment_manager.Kernel.Decimal.{Decimal}
use ai_investment_manager.Execution.Leg.{
  Error, field_constraint, overfilled, fill_without_price, filled_incompletely, status_with_fill,
  order_mismatch, Side, is_side, InstrumentId, same_option, same_instrument, LegStatus,
  ExecutionLeg, positive_or_none,
}

pub data OrderStatus : Type 0 where
  working partially_filled filled canceled rejected expired : OrderStatus

-- The table of `execution_leg_from_order`.
abbrev pub leg_status : OrderStatus → LegStatus
leg_status working = LegStatus.working
leg_status partially_filled = LegStatus.partially_filled
leg_status filled = LegStatus.filled
leg_status canceled = LegStatus.canceled
leg_status rejected = LegStatus.rejected
leg_status expired = LegStatus.expired

abbrev pub order_value : OrderStatus → ℕ
order_value working = 0
order_value partially_filled = 1
order_value filled = 2
order_value canceled = 3
order_value rejected = 4
order_value expired = 5

abbrev pub is_order : OrderStatus → OrderStatus → Bool
is_order a b = order_value a == order_value b

unfoldable pub order_terminal : OrderStatus → Bool
order_terminal s =
    is_order s filled || is_order s canceled || is_order s rejected || is_order s expired

pub record ProductOrder : Type 0 where
  pub client_order_id : ℕ
  pub venue_order_id : ℕ
  pub group_id : ℕ
  pub execution_leg_id : ℕ
  pub instrument : InstrumentId
  pub side : Side
  pub requested_quantity : Decimal
  pub status : OrderStatus
  pub filled_quantity : Decimal
  pub average_fill_price : Option Decimal
  pub fee : Decimal
  pub observed_at : Time

-- `a == b`
unfoldable pub same_order : ProductOrder → ProductOrder → Bool
same_order a b =
    a.client_order_id == b.client_order_id
    && a.venue_order_id == b.venue_order_id
    && a.group_id == b.group_id
    && a.execution_leg_id == b.execution_leg_id
    && same_instrument a.instrument b.instrument
    && is_side a.side b.side
    && a.requested_quantity == b.requested_quantity
    && is_order a.status b.status
    && a.filled_quantity == b.filled_quantity
    && same_option a.average_fill_price b.average_fill_price
    && a.fee == b.fee
    && a.observed_at == b.observed_at

-- The constructor with its validators.
unfoldable pub checked_order : ProductOrder → Result Error ProductOrder
checked_order order = do
  raise_if (not (ltb 0 order.requested_quantity)) field_constraint
  raise_if (not (positive_or_none order.average_fill_price)) field_constraint
  raise_if (ltb order.requested_quantity order.filled_quantity) overfilled
  raise_if (xor (ltb 0 order.filled_quantity) (is_some order.average_fill_price)) fill_without_price
  raise_if (is_order order.status filled && not (order.filled_quantity == order.requested_quantity))
      filled_incompletely
  raise_if (is_order order.status working && ltb 0 order.filled_quantity) status_with_fill
  raise_if (is_order order.status rejected && ltb 0 order.filled_quantity) status_with_fill
  ok order

-- The contract that a venue's order must have kept.
unfoldable pub differs : ExecutionLeg → ProductOrder → Bool
differs leg order =
    not (order.client_order_id == leg.client_order_id)
    || not (order.execution_leg_id == leg.execution_leg_id)
    || not (order.group_id == leg.group_id)
    || not (same_instrument order.instrument leg.instrument)
    || not (is_side order.side leg.side)
    || not (order.requested_quantity == leg.requested_quantity)

unfoldable pub execution_leg_from_order : ExecutionLeg → ProductOrder → Result Error ExecutionLeg
unfolding differs
execution_leg_from_order leg order = do
  raise_if (differs leg order) order_mismatch
  ok record leg {
    status = leg_status order.status;
    filled_quantity = order.filled_quantity;
    average_fill_price = order.average_fill_price;
    fee = order.fee;
    venue_order_id = some order.venue_order_id;
    observed_at = some order.observed_at;
  }

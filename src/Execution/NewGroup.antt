-- ===== src/Execution/NewGroup.antt =====
-- execution/group/models.py: `new_execution_group`, and what it reads of the planned trades of
-- execution/planning/planner.py.
use ai_investment_manager.Prelude.{
  ℕ, Bool, true, false, ◌&&◌, ◌==◌, none, List, [], ◌∷◌, leb, Result, ok, raise_if, ◌>>◌, ◌>>=◌,
}
use ai_investment_manager.Prelude.Sorting.{sorted}
use ai_investment_manager.Kernel.{StableId, Time}
use ai_investment_manager.Kernel.Decimal.{Decimal}
use ai_investment_manager.Execution.Leg.{
  Error, plan_expired, Side, is_side, InstrumentId, same_instrument, target, pending, ExecutionLeg,
  leg_identity, client_order, checked_leg,
}
use ai_investment_manager.Execution.Group.{ExecutionGroup, executing, leg_before, checked_group}

-- What `new_execution_group` reads of a planned leg and group.
pub record PlannedLegTrade : Type 0 where
  pub leg_id : ℕ
  pub group_id : ℕ
  pub instrument : InstrumentId
  pub side : Side
  pub quantity : Decimal
  pub reference_price : Decimal

pub record PlannedTradeGroup : Type 0 where
  pub group_id : ℕ
  pub approved_target_id : ℕ
  pub cycle_id : ℕ
  pub sleeve_id : ℕ
  pub maximum_unhedged_notional : Decimal
  pub maximum_unhedged_seconds : ℕ
  pub legs : List PlannedLegTrade
  pub valid_until : Time

abbrev pub same_planned_leg : PlannedLegTrade → PlannedLegTrade → Bool
same_planned_leg a b =
    a.leg_id == b.leg_id
    && a.group_id == b.group_id
    && same_instrument a.instrument b.instrument
    && is_side a.side b.side
    && a.quantity == b.quantity
    && a.reference_price == b.reference_price

unfoldable pub same_planned_legs : List PlannedLegTrade → List PlannedLegTrade → Bool
same_planned_legs [] [] = true
same_planned_legs (a ∷ xs) (b ∷ ys) = same_planned_leg a b && same_planned_legs xs ys
same_planned_legs _ _ = false

-- `a == b`
unfoldable pub same_planned : PlannedTradeGroup → PlannedTradeGroup → Bool
unfolding same_planned_legs
same_planned a b =
    a.group_id == b.group_id
    && a.approved_target_id == b.approved_target_id
    && a.cycle_id == b.cycle_id
    && a.sleeve_id == b.sleeve_id
    && a.maximum_unhedged_notional == b.maximum_unhedged_notional
    && a.maximum_unhedged_seconds == b.maximum_unhedged_seconds
    && same_planned_legs a.legs b.legs
    && a.valid_until == b.valid_until

module _ (digest : StableId) where
  -- `_target_leg`
  unfoldable pub target_leg : PlannedLegTrade → Result Error ExecutionLeg
  unfolding checked_leg leg_identity client_order
  target_leg planned = checked_leg digest record {
    execution_leg_id = leg_identity digest planned.leg_id target 0;
    planned_leg_id = planned.leg_id;
    group_id = planned.group_id;
    role = target;
    attempt = 0;
    client_order_id = client_order digest (leg_identity digest planned.leg_id target 0);
    instrument = planned.instrument;
    side = planned.side;
    requested_quantity = planned.quantity;
    reference_price = planned.reference_price;
    status = pending;
    filled_quantity = 0;
    average_fill_price = none;
    fee = 0;
    venue_order_id = none;
    observed_at = none;
  }

  unfoldable pub new_target_legs : List PlannedLegTrade → Result Error (List ExecutionLeg)
  unfolding target_leg
  new_target_legs [] = ok []
  new_target_legs (planned ∷ later) = do
    leg ← target_leg planned
    legs ← new_target_legs later
    ok (leg ∷ legs)

  unfoldable pub new_execution_group : ℕ → PlannedTradeGroup → Time → Result Error ExecutionGroup
  unfolding new_target_legs checked_group sorted
  new_execution_group plan_id planned started_at = do
    raise_if (leb planned.valid_until started_at) plan_expired
    legs ← new_target_legs planned.legs
    checked_group record {
      group_id = planned.group_id;
      plan_id = plan_id;
      approved_target_id = planned.approved_target_id;
      cycle_id = planned.cycle_id;
      sleeve_id = planned.sleeve_id;
      status = executing;
      valid_until = planned.valid_until;
      maximum_unhedged_notional = planned.maximum_unhedged_notional;
      maximum_unhedged_seconds = planned.maximum_unhedged_seconds;
      target_legs = sorted leg_before legs;
      compensation_legs = [];
      unhedged_since = none;
      started_at = started_at;
      updated_at = started_at;
      revision = 0;
    }

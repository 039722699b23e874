-- ===== src/Execution/Engine/Fresh.antt =====
-- The groups that `new_execution_group` makes.
use ai_investment_manager.Prelude.{Matched, ◌≡◌, ◌<◌, none, List, [], All}
use ai_investment_manager.Prelude.Sorting.{sorted}
use ai_investment_manager.Kernel.{Time}
use ai_investment_manager.Execution.Leg.{pending, target, ExecutionLeg}
use ai_investment_manager.Execution.Group.{ExecutionGroup, executing, leg_before}
use ai_investment_manager.Execution.NewGroup.{PlannedLegTrade, PlannedTradeGroup}
use ai_investment_manager.Execution.Engine.Progress.{IsSound}

-- A target that no venue has heard of.
abbrev pub IsUnsent : ExecutionLeg → Type 0
IsUnsent leg =
    (leg.role ≡ target)
    × (leg.status ≡ pending)
    × (leg.filled_quantity ≡ 0)
    × (leg.venue_order_id ≡ none)
    × (0 < leg.requested_quantity)
    × (0 < leg.reference_price)

-- The leg has the identity, the contract and the price of the planned one.
abbrev pub IsLegOf : PlannedLegTrade → ExecutionLeg → Type 0
IsLegOf planned leg =
    (leg.planned_leg_id ≡ planned.leg_id)
    × (leg.group_id ≡ planned.group_id)
    × (leg.instrument ≡ planned.instrument)
    × (leg.side ≡ planned.side)
    × (leg.requested_quantity ≡ planned.quantity)
    × (leg.reference_price ≡ planned.reference_price)

-- The contract of the planned trade.
abbrev pub HasContractOf : PlannedTradeGroup → ExecutionGroup → Type 0
HasContractOf planned g =
    (g.group_id ≡ planned.group_id)
    × (g.approved_target_id ≡ planned.approved_target_id)
    × (g.cycle_id ≡ planned.cycle_id)
    × (g.sleeve_id ≡ planned.sleeve_id)
    × (g.valid_until ≡ planned.valid_until)
    × (g.maximum_unhedged_notional ≡ planned.maximum_unhedged_notional)
    × (g.maximum_unhedged_seconds ≡ planned.maximum_unhedged_seconds)

abbrev pub IsFresh : PlannedTradeGroup → Time → ExecutionGroup → Type 0
IsFresh planned t g =
    IsSound g
    × (g.status ≡ executing)
    × (g.revision ≡ 0)
    × (g.compensation_legs ≡ [])
    × (t < planned.valid_until)
    × HasContractOf planned g
    × ((legs : List ExecutionLeg) × (g.target_legs ≡ sorted leg_before legs)
        × Matched IsLegOf planned.legs legs)
    × All IsUnsent g.target_legs

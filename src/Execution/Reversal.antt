-- ===== src/Execution/Reversal.antt =====
-- execution/group/engine.py: `_ensure_compensation_legs`.
pub mod Commitment
pub mod Cover
use ai_investment_manager.Prelude.{
  ℕ, suc, ◌+◌, ◌-◌, max, Bool, true, false, not, ◌&&◌, ◌||◌, Option, none, some, List, [], ◌∷◌,
  ◌++◌, map, any, all, select, is_nonempty, ltb, leb, ◌==◌, is_some, if◌then◌else◌, Result, ok,
  raise_if, ◌>>=◌,
}
use ai_investment_manager.Prelude.Sorting.{sorted}
use ai_investment_manager.Kernel.{StableId, Time, seconds}
use ai_investment_manager.Kernel.Decimal.{Decimal}
use ai_investment_manager.Execution.Leg.{
  Error, group_missing, past_instant, missing_row, LegStatus, pending, partially_filled, filled,
  canceled, rejected, expired, unknown, is_status, terminal, ExecutionLeg, same_option, checked_leg,
  compensation_leg,
}
use ai_investment_manager.Execution.Order.{ProductOrder, order_terminal, execution_leg_from_order}
use ai_investment_manager.Execution.Group.{
  ExecutionGroup, GroupStatus, executing, recovering, compensating, hedged, flat, is_group,
  group_terminal, same_group, same_legs, is_filled, is_terminal, residual_quantities,
  unhedged_notional, checked_group, leg_before,
}
use ai_investment_manager.Execution.NewGroup.{PlannedTradeGroup, new_execution_group}
use ai_investment_manager.Execution.Store.{group, save, record_group}

-- The compensations of one planned leg, and the sum of what they have filled.
abbrev pub of_leg : ℕ → ExecutionLeg → Bool
of_leg planned_leg_id leg = leg.planned_leg_id == planned_leg_id

unfoldable pub reversed_quantity : ℕ → List ExecutionLeg → Decimal
reversed_quantity planned_leg_id [] = 0
reversed_quantity planned_leg_id (leg ∷ legs) =
    let rest = reversed_quantity planned_leg_id legs in
    if of_leg planned_leg_id leg then leg.filled_quantity + rest else rest

unfoldable pub last_attempt : ℕ → List ExecutionLeg → ℕ
last_attempt planned_leg_id [] = 0
last_attempt planned_leg_id (leg ∷ legs) =
    let rest = last_attempt planned_leg_id legs in
    if of_leg planned_leg_id leg then max leg.attempt rest else rest

unfoldable pub has_active : ℕ → List ExecutionLeg → Bool
has_active planned_leg_id legs =
    any (λ leg. of_leg planned_leg_id leg && not (terminal leg.status)) legs

module _ (digest : StableId) where
  -- The step of the loop over the targets, and the loop.
  unfoldable pub reverse_target :
      List ExecutionLeg → ExecutionLeg → Result Error (List ExecutionLeg)
  unfolding reversed_quantity last_attempt has_active compensation_leg
  reverse_target compensations leg =
      let reversed = reversed_quantity leg.planned_leg_id compensations in
      if leb leg.filled_quantity reversed || has_active leg.planned_leg_id compensations
      then ok compensations
      else compensation_leg digest leg (leg.filled_quantity - reversed)
          (1 + last_attempt leg.planned_leg_id compensations)
        >>= λ added. ok (compensations ++ added ∷ [])

  unfoldable pub reverse_targets :
      List ExecutionLeg → List ExecutionLeg → Result Error (List ExecutionLeg)
  unfolding reverse_target
  reverse_targets compensations [] = ok compensations
  reverse_targets compensations (leg ∷ legs) =
      reverse_target compensations leg >>= λ next. reverse_targets next legs

  -- `_ensure_compensation_legs`
  unfoldable pub ensure_compensation_legs : ExecutionGroup → Result Error (List ExecutionLeg)
  unfolding reverse_targets sorted
  ensure_compensation_legs g =
      reverse_targets g.compensation_legs g.target_legs >>= λ legs. ok (sorted leg_before legs)

-- ===== src/Execution/LegSync.antt =====
-- execution/group/engine.py: `_sync_leg` and `_stop_target`.
pub mod Step
use ai_investment_manager.Prelude.{
  ℕ, suc, ◌+◌, ◌-◌, max, Bool, true, false, not, ◌&&◌, ◌||◌, Option, none, some, List, [], ◌∷◌,
  ◌++◌, map, any, all, select, is_nonempty, ltb, leb, ◌==◌, is_some, if◌then◌else◌, Result, ok,
  raise_if,
}
use ai_investment_manager.Prelude.Sorting.{sorted}
use ai_investment_manager.Kernel.{StableId, Time, seconds}
use ai_investment_manager.Kernel.Decimal.{Decimal}
use ai_investment_manager.Execution.Leg.{
  Error, group_missing, past_instant, missing_row, LegStatus, pending, partially_filled, filled,
  canceled, rejected, expired, unknown, is_status, terminal, ExecutionLeg, same_option, checked_leg,
  compensation_leg,
}
use ai_investment_manager.Execution.Order.{ProductOrder, order_terminal, execution_leg_from_order}
use ai_investment_manager.Execution.Group.{
  ExecutionGroup, GroupStatus, executing, recovering, compensating, hedged, flat, is_group,
  group_terminal, same_group, same_legs, is_filled, is_terminal, residual_quantities,
  unhedged_notional, checked_group, leg_before,
}
use ai_investment_manager.Execution.NewGroup.{PlannedTradeGroup, new_execution_group}
use ai_investment_manager.Execution.Change.{
  Changes, no_changes, changed, unchanged, unhedged_since, must_compensate, evolve,
}
use ai_investment_manager.Execution.Reversal.{ensure_compensation_legs}
use ai_investment_manager.Execution.Store.{group, save, record_group}
use ai_investment_manager.Execution.Effect.{
  Effect, return, raise, lift, ◌>>=◌, ◌>>◌, except_unknown, for_each,
}
use ai_investment_manager.Execution.Venue.{
  ProductOrderVenue, World, on_venue, on_tables, record_observation,
}

module _ {V : Type 0} (venue : ProductOrderVenue V) where
  -- What `_sync_leg` and `_stop_target` do with a venue's fact.
  unfoldable pub observe : ExecutionLeg → ProductOrder → Time → Effect (World V) ExecutionLeg
  unfolding record_observation execution_leg_from_order
  observe leg order as_of = do
    record_observation order as_of
    lift (execution_leg_from_order leg order)

  -- The submission of an order that the venue does not know.
  unfoldable pub submit_leg : ExecutionLeg → Time → Effect (World V) (Option ProductOrder)
  unfolding on_venue except_unknown
  submit_leg leg as_of =
      except_unknown (on_venue (venue.submit leg as_of) >>= λ order. return (some order))
        (except_unknown (on_venue (venue.query leg.client_order_id)) (return none))

  abbrev pub with_status : ExecutionLeg → LegStatus → Option Time → ExecutionLeg
  with_status leg new observed_at = record leg { status = new; observed_at = observed_at }

  -- What `_sync_leg` makes of the venue's answer.
  unfoldable pub settle_leg :
      ExecutionLeg → Time → Bool → Option ProductOrder → Effect (World V) ExecutionLeg
  unfolding observe
  settle_leg leg as_of allow_submit (some order) = observe leg order as_of
  settle_leg leg as_of allow_submit none = return (
      if not allow_submit && is_status leg.status pending
      then with_status leg expired (some as_of)
      else record leg { status = unknown })

  -- The rest of `_sync_leg` after the first query.
  unfoldable pub answer_leg :
      ExecutionLeg → Time → Bool → Option ProductOrder → Effect (World V) ExecutionLeg
  unfolding submit_leg settle_leg
  answer_leg leg as_of allow_submit (some order) = settle_leg leg as_of allow_submit (some order)
  answer_leg leg as_of true none = submit_leg leg as_of >>= settle_leg leg as_of true
  answer_leg leg as_of false none = settle_leg leg as_of false none

  -- A query whose unknown result is caught: `none` is no answer.
  unfoldable pub try_query : ExecutionLeg → Effect (World V) (Option (Option ProductOrder))
  unfolding on_venue except_unknown
  try_query leg =
      except_unknown (on_venue (venue.query leg.client_order_id) >>= λ seen. return (some seen))
        (return none)

  -- The rest of `_sync_leg` after the first query, where that may have had no answer.
  unfoldable pub reconcile_leg :
      ExecutionLeg → Time → Bool → Option (Option ProductOrder) → Effect (World V) ExecutionLeg
  unfolding answer_leg
  reconcile_leg leg as_of allow_submit none = return record leg { status = unknown }
  reconcile_leg leg as_of allow_submit (some seen) = answer_leg leg as_of allow_submit seen

  -- `_sync_leg`
  unfoldable pub sync_leg : Time → Bool → ExecutionLeg → Effect (World V) ExecutionLeg
  unfolding try_query reconcile_leg
  sync_leg as_of allow_submit leg =
      if terminal leg.status
      then return leg
      else try_query leg >>= reconcile_leg leg as_of allow_submit

  -- The body of the `try` of `_stop_target` after its query.
  unfoldable pub cancel_unless_terminal :
      ExecutionLeg → Time → Option ProductOrder → Effect (World V) (Option ProductOrder)
  unfolding on_venue
  cancel_unless_terminal leg as_of none = on_venue (venue.cancel leg.client_order_id as_of)
  cancel_unless_terminal leg as_of (some order) =
      if order_terminal order.status
      then return (some order)
      else on_venue (venue.cancel leg.client_order_id as_of)

  -- What `_stop_target` learns of the order: `none` is no answer.
  unfoldable pub cancel_leg : ExecutionLeg → Time → Effect (World V) (Option (Option ProductOrder))
  unfolding on_venue except_unknown try_query cancel_unless_terminal
  cancel_leg leg as_of =
      except_unknown
        (on_venue (venue.query leg.client_order_id) >>= cancel_unless_terminal leg as_of >>= λ seen.
          return (some seen))
        (try_query leg)

  unfoldable pub stopped_leg :
      ExecutionLeg → Time → Option (Option ProductOrder) → Effect (World V) ExecutionLeg
  unfolding observe
  stopped_leg leg as_of none = return record leg { status = unknown }
  stopped_leg leg as_of (some none) = return (with_status leg canceled (some as_of))
  stopped_leg leg as_of (some (some order)) = observe leg order as_of

  -- `_stop_target`
  unfoldable pub stop_target : Time → ExecutionLeg → Effect (World V) ExecutionLeg
  unfolding cancel_leg stopped_leg
  stop_target as_of leg =
      if terminal leg.status then return leg else cancel_leg leg as_of >>= stopped_leg leg as_of

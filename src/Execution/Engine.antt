-- ===== src/Execution/Engine.antt =====
-- execution/group/engine.py: `ExecutionGroupEngine`.
pub mod Progress
pub mod Fresh
pub mod Persist
pub mod Permission
pub mod Statuses
pub mod Run
pub mod Legality
use ai_investment_manager.Prelude.{
  ℕ, suc, ◌+◌, ◌-◌, max, Bool, true, false, not, ◌&&◌, ◌||◌, Option, none, some, List, [], ◌∷◌,
  ◌++◌, map, any, all, select, is_nonempty, ltb, leb, ◌==◌, is_some, if◌then◌else◌, Result, ok,
  raise_if,
}
use ai_investment_manager.Prelude.Sorting.{sorted}
use ai_investment_manager.Kernel.{StableId, Time, seconds}
use ai_investment_manager.Kernel.Decimal.{Decimal}
use ai_investment_manager.Execution.Leg.{
  Error, group_missing, past_instant, missing_row, plan_foreign, LegStatus, pending,
  partially_filled, filled, canceled, rejected, expired, unknown, is_status, terminal, ExecutionLeg,
  same_option, checked_leg, compensation_leg,
}
use ai_investment_manager.Execution.Order.{ProductOrder, order_terminal, execution_leg_from_order}
use ai_investment_manager.Execution.Group.{
  ExecutionGroup, GroupStatus, executing, recovering, compensating, hedged, flat, is_group,
  group_terminal, same_group, same_legs, is_filled, is_terminal, residual_quantities,
  unhedged_notional, checked_group, leg_before,
}
use ai_investment_manager.Execution.NewGroup.{PlannedTradeGroup, same_planned, new_execution_group}
use ai_investment_manager.Execution.Change.{
  Changes, no_changes, changed, unchanged, unhedged_since, must_compensate, next_status, evolve,
}
use ai_investment_manager.Execution.Reversal.{ensure_compensation_legs}
use ai_investment_manager.Execution.LegSync.{sync_leg, stop_target}
use ai_investment_manager.Execution.Store.{TradePlan, group, save, record_group}
use ai_investment_manager.Execution.Effect.{
  Effect, return, raise, lift, ◌>>=◌, ◌>>◌, except_unknown, for_each,
}
use ai_investment_manager.Execution.Venue.{
  ProductOrderVenue, World, on_venue, on_tables, record_observation,
}

module _ (digest : StableId) {V : Type 0} (venue : ProductOrderVenue V) where
  -- `_persist`
  unfoldable pub persist : ExecutionGroup → ExecutionGroup → Effect (World V) ExecutionGroup
  unfolding save on_tables
  persist current updated =
      if same_group current updated
      then return current
      else on_tables (save updated current.revision) >> return updated

  -- `_save`
  unfoldable pub save_changes : ExecutionGroup → Time → Changes → Effect (World V) ExecutionGroup
  unfolding evolve persist
  save_changes g as_of c = if unchanged g c then return g else do
    evolved ← lift (evolve digest g as_of c)
    persist g (record evolved { revision = g.revision + 1 })

  -- `_save` with the changes of one status.
  unfoldable pub save_flat : ExecutionGroup → Time → Effect (World V) ExecutionGroup
  unfolding save_changes
  save_flat g as_of =
      save_changes g as_of record no_changes { status = some flat; unhedged_since = some none }

  unfoldable pub save_compensations :
      ExecutionGroup → Time → List ExecutionLeg → Effect (World V) ExecutionGroup
  unfolding save_changes
  save_compensations g as_of legs =
      save_changes g as_of
        record no_changes { status = some compensating; compensation_legs = some legs }

  -- The end of `_compensate`: where a residual is left the compensations are reconciled.
  unfoldable pub settle_compensations : ExecutionGroup → Time → Effect (World V) ExecutionGroup
  unfolding sync_leg for_each save_compensations save_flat residual_quantities
  settle_compensations g as_of = do
    legs ← for_each (sync_leg venue as_of true) g.compensation_legs
    reconciled ← save_compensations g as_of legs
    if is_nonempty (residual_quantities reconciled)
        then return reconciled
        else save_flat reconciled as_of

  -- The part of `_compensate` after all targets have ended.
  unfoldable pub reverse_fills : ExecutionGroup → Time → Effect (World V) ExecutionGroup
  unfolding ensure_compensation_legs save_compensations save_flat settle_compensations
  reverse_fills stopped as_of = do
    legs ← lift (ensure_compensation_legs digest stopped)
    covered ←
        if same_legs legs stopped.compensation_legs
        then return stopped
        else save_compensations stopped as_of legs
    if is_nonempty (residual_quantities covered)
        then settle_compensations covered as_of
        else save_flat covered as_of

  -- `_compensate`
  unfoldable pub compensate : ExecutionGroup → Time → Effect (World V) ExecutionGroup
  unfolding for_each stop_target save_changes reverse_fills
  compensate g as_of = do
    targets ← for_each (stop_target venue as_of) g.target_legs
    stopped ←
        save_changes g as_of
          record no_changes { status = some compensating; target_legs = some targets }
    if all is_terminal stopped.target_legs then reverse_fills stopped as_of else return stopped

  unfoldable pub reconcile_group :
      ExecutionGroup → Time → List ExecutionLeg → Effect (World V) ExecutionGroup
  unfolding evolve unhedged_since must_compensate persist compensate next_status
  reconcile_group g as_of targets = do
    observed ← lift (
        evolve digest g as_of record no_changes {
          target_legs = some targets;
          unhedged_since = some (unhedged_since g targets as_of);
        })
    if must_compensate observed as_of
        then (persist g (record observed { status = compensating; revision = g.revision + 1 })
            >>= λ started. compensate started as_of)
        else persist g
            (record observed { status = next_status observed targets; revision = g.revision + 1 })

  unfoldable pub execute : ExecutionGroup → Time → Effect (World V) ExecutionGroup
  unfolding for_each sync_leg save_changes reconcile_group
  execute g as_of = do
    targets ← for_each (sync_leg venue as_of (ltb as_of g.valid_until)) g.target_legs
    if all is_filled targets
        then save_changes g as_of record no_changes {
          status = some hedged;
          target_legs = some targets;
          unhedged_since = some none;
        }
        else reconcile_group g as_of targets

  -- `run_once` after its read.
  unfoldable pub advance : ExecutionGroup → Time → Effect (World V) ExecutionGroup
  unfolding execute compensate group_terminal
  advance g as_of =
      if ltb as_of g.updated_at
      then raise past_instant
      else if group_terminal g.status
      then return g
      else if is_group g.status compensating
      then compensate g as_of
      else execute g as_of

  unfoldable pub read_group : ℕ → Effect (World V) (Option ExecutionGroup)
  unfolding group
  read_group group_id w = (ok (group group_id w.tables), w)

  unfoldable pub advance_found : Time → Option ExecutionGroup → Effect (World V) ExecutionGroup
  unfolding advance
  advance_found as_of none = raise group_missing
  advance_found as_of (some g) = advance g as_of

  unfoldable pub run_once : ℕ → Time → Effect (World V) ExecutionGroup
  unfolding read_group advance_found
  run_once group_id as_of = read_group group_id >>= advance_found as_of

  -- `planned in plan.groups`
  abbrev belongs : TradePlan → PlannedTradeGroup → Bool
  belongs plan planned = any (same_planned planned) plan.groups

  found_or_missing : Option ExecutionGroup → Effect (World V) ExecutionGroup
  found_or_missing none = raise missing_row
  found_or_missing (some stored) = return stored

  unfoldable pub start : TradePlan → PlannedTradeGroup → Time → Effect (World V) ExecutionGroup
  unfolding new_execution_group record_group on_tables read_group found_or_missing
  start plan planned as_of = do
    lift (raise_if (not (belongs plan planned)) plan_foreign)
    g ← lift (new_execution_group digest plan.plan_id planned as_of)
    on_tables (record_group digest g)
    stored ← read_group g.group_id
    found_or_missing stored

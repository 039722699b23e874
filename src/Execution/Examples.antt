-- ===== src/Execution/Examples.antt =====
-- Tests of the execution modules, and instances of their theorems.
mod Writes
use ai_investment_manager.Prelude.{
  ◌+◌, ◌*◌, ◌≡◌, refl, ◌⊎◌, true, none, some, List, [], ◌∷◌, ◌++◌, map, Result, err, ok, All,
  length, arith, ◌<◌, ◌≤◌, false,
}
use mathlib.Core.Bool.{xor}
use ai_investment_manager.Prelude.Sorting.{place, sorted}
use ai_investment_manager.Prelude.Dict.{get, put, index_by}
use ai_investment_manager.Prelude.Int.{◌+ℤ◌}
use ai_investment_manager.Kernel.{StableId, seconds, execution_leg, group_order, mock_product_order}
use ai_investment_manager.Kernel.Decimal.{one, round_div, mul, div}
use ai_investment_manager.Execution.Leg.{
  Error, buy, sell, InstrumentId, target, LegStatus, ExecutionLeg, terminal, same_contract,
  same_leg, leg_identity, client_order, checked_leg, compensation_leg, unknown_venue_result,
  concurrent_update, group_missing, past_instant,
}
use ai_investment_manager.Execution.Order.{
  ProductOrder, OrderStatus, order_terminal, same_order, checked_order, differs,
  execution_leg_from_order,
}
use ai_investment_manager.Execution.Group.{
  ExecutionGroup, executing, compensating, flat, group_terminal, same_legs, same_group, quantity,
  add_fills, residual_quantities, matched, unmatched, unhedged_notional, check_role,
  check_compensations, checked_group,
}
use ai_investment_manager.Execution.Group.Balance.{filled_on}
use ai_investment_manager.Execution.Change.{
  changed, unhedged_since, must_compensate, next_status, check_kept_legs, evolve,
}
use ai_investment_manager.Execution.Reversal.{
  reversed_quantity, last_attempt, has_active, reverse_target, reverse_targets,
  ensure_compensation_legs,
}
use ai_investment_manager.Execution.Reversal.Commitment.{IsCovered, committed}
use ai_investment_manager.Execution.Reversal.Cover.{IsAccounted, ensure_compensation_legs_cover}
use ai_investment_manager.Execution.Store.{
  Tables, group, allowed, same_contracts, check_targets, check_leg_progress,
  check_compensations_kept, check_transition, update_rows, commit, needs_save, write_if_needed,
  save,
}
use ai_investment_manager.Execution.Store.Progression.{IsTransition, save-IsTransition}
use ai_investment_manager.Execution.Store.Exclusive.{
  Write, record_call, save_call, after_writes, IsExclusive, after_writes-IsExclusive,
}
use ai_investment_manager.Execution.Store.Saving.{commit_exclusive}
use ai_investment_manager.Execution.Effect.{◌>>=◌, ◌>>◌, continue, rescue, except_unknown, for_each}
use ai_investment_manager.Execution.Triple.{Outcome}
use ai_investment_manager.Execution.Venue.{
  ProductOrderVenue, World, on_venue, on_tables, record_observation,
}
use ai_investment_manager.Execution.LegSync.{
  observe, submit_leg, settle_leg, answer_leg, try_query, reconcile_leg, sync_leg,
  cancel_unless_terminal, cancel_leg, stopped_leg, stop_target,
}
use ai_investment_manager.Execution.Engine.{
  persist, save_changes, save_flat, save_compensations, settle_compensations, reverse_fills,
  compensate, reconcile_group, execute, advance, read_group, advance_found, run_once,
}
use ai_investment_manager.Execution.Engine.Progress.{IsSound}
use ai_investment_manager.Execution.Engine.Permission.{IsPermitted}
use ai_investment_manager.Execution.Engine.Legality.{
  IsLegal, run_once-IsLegal, run_once_submissions, run_once_flat,
}
use ai_investment_manager.Execution.MockVenue.{
  MockVenue, MockSubmitBehavior, mock_order, build_mock_product_order, mock_query, bound_elsewhere,
  next_behavior, fee_bps_for, insert_order, insert_built, accept, submit_found, mock_submit,
  mock_cancel, mock_venue,
}
use ai_investment_manager.Execution.MockVenue.Validity.{
  AllValid, submit_at, cancel_at, fill_at, after_calls, after_calls-AllValid,
}
use ai_investment_manager.Execution.NewGroup.{
  PlannedTradeGroup, target_leg, new_target_legs, new_execution_group,
}
use ai_investment_manager.Execution.Engine.Fresh.{IsFresh}
use ai_investment_manager.Execution.MockVenue.Idempotence.{
  mock_submit_idempotent, mock_cancel_terminal,
}

abbrev pub digest : StableId
digest execution_leg (planned ∷ role ∷ attempt ∷ []) = planned * 100 + role * 10 + attempt
digest group_order (leg ∷ []) = leg + 1000
digest mock_product_order (order ∷ []) = order + 2000
digest _ parts = 7

abbrev pub spot : InstrumentId
spot = record {
  key = 1;
  product = 0;
  base_asset = 2;
  quote_asset = 3;
  settlement_asset = 3;
  contract_multiplier = one;
  tradfi_market = none;
}

-- A target that has bought two of five.
abbrev pub partial_leg : ExecutionLeg
partial_leg = record {
  execution_leg_id = 500;
  planned_leg_id = 5;
  group_id = 9;
  role = target;
  attempt = 0;
  client_order_id = 1500;
  instrument = spot;
  side = buy;
  requested_quantity = 5 * one;
  reference_price = 10 * one;
  status = LegStatus.partially_filled;
  filled_quantity = 2 * one;
  average_fill_price = some (10 * one);
  fee = 0;
  venue_order_id = some 3500;
  observed_at = some (seconds 20);
}

abbrev partial_order : ProductOrder
partial_order = record {
  client_order_id = 1500;
  venue_order_id = 3500;
  group_id = 9;
  execution_leg_id = 500;
  instrument = spot;
  side = buy;
  requested_quantity = 5 * one;
  status = OrderStatus.partially_filled;
  filled_quantity = 2 * one;
  average_fill_price = some (10 * one);
  fee = 0;
  observed_at = seconds 20;
}

abbrev pub open_group : ExecutionGroup
open_group = record {
  group_id = 9;
  plan_id = 1;
  approved_target_id = 2;
  cycle_id = 3;
  sleeve_id = 4;
  status = executing;
  valid_until = seconds 60;
  maximum_unhedged_notional = 100 * one;
  maximum_unhedged_seconds = 30;
  target_legs = partial_leg ∷ [];
  compensation_legs = [];
  unhedged_since = none;
  started_at = seconds 10;
  updated_at = seconds 20;
  revision = 1;
}

abbrev pub tables : Tables
tables = record { trade_plans = []; execution_groups = open_group ∷ [] }

abbrev pub market : MockVenue
market = record {
  orders = (1500, partial_order) ∷ [];
  fee_bps = 5 * one;
  fee_bps_by_instrument = [];
  behaviors = [];
}

abbrev pub world : World MockVenue
world = record { venue = market; tables = tables; observations = [] }

open_group-IsSound : IsSound open_group
unfolding check_compensations
open_group-IsSound = record {
  compensated = refl;
  hedged_filled = λ k. ground arith;
  flat_empty = λ k. ground arith;
}

row_found : group 9 tables ≡ some open_group
unfolding group
row_found = refl

abbrev ended : Result Error ExecutionGroup × World MockVenue
ended = run_once digest (mock_venue digest) 9 (seconds 70) world

abbrev ended_group : ExecutionGroup
ended_group = elim ended.0 [ ok g ↦ g | err e ↦ open_group ]

-- The run stops the target, reverses what it has bought, and ends flat.
ends_flat :
    (ended.0 ≡ ok ended_group)
    × (ended_group.status ≡ flat)
    × (map (λ leg. leg.filled_quantity) ended_group.compensation_legs ≡ 2 * one ∷ [])
unfolding run_once read_group advance_found advance execute reconcile_group compensate reverse_fills
    settle_compensations save_compensations save_flat save_changes persist stop_target stopped_leg
    cancel_leg cancel_unless_terminal sync_leg reconcile_leg try_query answer_leg settle_leg
    submit_leg observe record_observation on_tables on_venue for_each except_unknown rescue continue
    ◌>>=◌ ◌>>◌ save write_if_needed needs_save commit update_rows check_transition
    check_compensations_kept check_leg_progress check_targets same_contracts allowed group
    ensure_compensation_legs reverse_targets reverse_target has_active last_attempt
    reversed_quantity evolve check_kept_legs next_status must_compensate unhedged_since changed
    checked_group check_compensations check_role unhedged_notional unmatched matched
    residual_quantities add_fills quantity same_group same_legs group_terminal
    execution_leg_from_order differs checked_order same_order order_terminal compensation_leg
    checked_leg client_order leg_identity same_leg same_contract terminal mul div round_div sorted
    place get put index_by ◌+ℤ◌ mock_venue mock_cancel mock_submit submit_found accept insert_built
    insert_order fee_bps_for next_behavior bound_elsewhere mock_query build_mock_product_order
    mock_order xor
ends_flat = (refl, refl, refl)

run_once-IsLegal_example :
    Outcome
      (IsLegal open_group)
      (λ u. (h : ExecutionGroup) × IsLegal open_group h u)
      (run_once digest (mock_venue digest) 9 (seconds 70) world)
run_once-IsLegal_example =
    run_once-IsLegal digest (mock_venue digest) open_group (seconds 70) world row_found
      open_group-IsSound

-- A venue that loses every response and keeps what was submitted.
abbrev silent : ProductOrderVenue (List ExecutionLeg)
silent = record {
  query = λ id v. (ok none, v);
  submit = λ leg t v. (err unknown_venue_result, leg ∷ v);
  cancel = λ id t v. (ok none, v);
}

abbrev quiet : World (List ExecutionLeg)
quiet = record { venue = []; tables = tables; observations = [] }

run_once_submissions_example :
    All (IsPermitted open_group (seconds 30)) (run_once digest silent 9 (seconds 30) quiet).1.venue
run_once_submissions_example =
    run_once_submissions digest silent (All (IsPermitted open_group (seconds 30))) open_group
      (seconds 30) quiet (λ id v j. j) (λ leg p t v j. (p, j)) (λ id t v j. j) row_found
      open_group-IsSound tt

submits_once : length (run_once digest silent 9 (seconds 30) quiet).1.venue ≡ 1
unfolding run_once read_group advance_found advance execute reconcile_group compensate reverse_fills
    settle_compensations save_compensations save_flat save_changes persist stop_target stopped_leg
    cancel_leg cancel_unless_terminal sync_leg reconcile_leg try_query answer_leg settle_leg
    submit_leg observe record_observation on_tables on_venue for_each except_unknown rescue continue
    ◌>>=◌ ◌>>◌ save write_if_needed needs_save commit update_rows check_transition
    check_compensations_kept check_leg_progress check_targets same_contracts allowed group
    ensure_compensation_legs reverse_targets reverse_target has_active last_attempt
    reversed_quantity evolve check_kept_legs next_status must_compensate unhedged_since changed
    checked_group check_compensations check_role unhedged_notional unmatched matched
    residual_quantities add_fills quantity same_group same_legs group_terminal
    execution_leg_from_order differs checked_order same_order order_terminal compensation_leg
    checked_leg client_order leg_identity same_leg same_contract terminal mul div round_div sorted
    place get put index_by ◌+ℤ◌ mock_venue mock_cancel mock_submit submit_found accept insert_built
    insert_order fee_bps_for next_behavior bound_elsewhere mock_query build_mock_product_order
    mock_order xor
submits_once = refl

ended_equation :
    run_once digest (mock_venue digest) open_group.group_id (seconds 70) world
    ≡ (ok ended_group, ended.1)
unfolding run_once read_group advance_found advance execute reconcile_group compensate reverse_fills
    settle_compensations save_compensations save_flat save_changes persist stop_target stopped_leg
    cancel_leg cancel_unless_terminal sync_leg reconcile_leg try_query answer_leg settle_leg
    submit_leg observe record_observation on_tables on_venue for_each except_unknown rescue continue
    ◌>>=◌ ◌>>◌ save write_if_needed needs_save commit update_rows check_transition
    check_compensations_kept check_leg_progress check_targets same_contracts allowed group
    ensure_compensation_legs reverse_targets reverse_target has_active last_attempt
    reversed_quantity evolve check_kept_legs next_status must_compensate unhedged_since changed
    checked_group check_compensations check_role unhedged_notional unmatched matched
    residual_quantities add_fills quantity same_group same_legs group_terminal
    execution_leg_from_order differs checked_order same_order order_terminal compensation_leg
    checked_leg client_order leg_identity same_leg same_contract terminal mul div round_div sorted
    place get put index_by ◌+ℤ◌ mock_venue mock_cancel mock_submit submit_found accept insert_built
    insert_order fee_bps_for next_behavior bound_elsewhere mock_query build_mock_product_order
    mock_order xor
ended_equation = refl

ended_flat : ended_group.status ≡ flat
unfolding run_once read_group advance_found advance execute reconcile_group compensate reverse_fills
    settle_compensations save_compensations save_flat save_changes persist stop_target stopped_leg
    cancel_leg cancel_unless_terminal sync_leg reconcile_leg try_query answer_leg settle_leg
    submit_leg observe record_observation on_tables on_venue for_each except_unknown rescue continue
    ◌>>=◌ ◌>>◌ save write_if_needed needs_save commit update_rows check_transition
    check_compensations_kept check_leg_progress check_targets same_contracts allowed group
    ensure_compensation_legs reverse_targets reverse_target has_active last_attempt
    reversed_quantity evolve check_kept_legs next_status must_compensate unhedged_since changed
    checked_group check_compensations check_role unhedged_notional unmatched matched
    residual_quantities add_fills quantity same_group same_legs group_terminal
    execution_leg_from_order differs checked_order same_order order_terminal compensation_leg
    checked_leg client_order leg_identity same_leg same_contract terminal mul div round_div sorted
    place get put index_by ◌+ℤ◌ mock_venue mock_cancel mock_submit submit_found accept insert_built
    insert_order fee_bps_for next_behavior bound_elsewhere mock_query build_mock_product_order
    mock_order xor
ended_flat = refl

run_once_flat_example :
    filled_on buy 1 (ended_group.target_legs ++ ended_group.compensation_legs)
    ≡ filled_on sell 1 (ended_group.target_legs ++ ended_group.compensation_legs)
run_once_flat_example =
    run_once_flat digest (mock_venue digest) open_group (seconds 70) world ended.1 ended_group 1
      row_found open_group-IsSound ended_equation ended_flat

-- The target after its cancellation.
abbrev canceled_leg : ExecutionLeg
canceled_leg = record partial_leg { status = LegStatus.canceled }

abbrev stopped_group : ExecutionGroup
stopped_group = record open_group {
  status = compensating;
  target_legs = canceled_leg ∷ [];
  revision = 2;
}

ensure_compensation_legs_cover_example :
    (after : List ExecutionLeg) × (ensure_compensation_legs digest stopped_group ≡ ok after)
    × All (IsCovered after) stopped_group.target_legs
    × All (IsAccounted stopped_group) after
unfolding terminal committed has_active
ensure_compensation_legs_cover_example =
    ensure_compensation_legs_cover digest stopped_group ((refl, refl), tt)
      ((omega arith, λ h. ground arith), tt) (tt, tt)

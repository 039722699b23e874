-- ===== src/Execution/Examples/Writes.antt =====
-- Tests of the store and of the mock venue, and instances of their theorems.
use ai_investment_manager.Prelude.{
  ◌*◌, ◌≡◌, refl, ◌⊎◌, true, none, some, List, [], ◌∷◌, err, ok, arith,
}
use mathlib.Core.Bool.{xor}
use ai_investment_manager.Prelude.Sorting.{place, sorted}
use ai_investment_manager.Prelude.Dict.{get, put, index_by}
use ai_investment_manager.Prelude.Int.{◌+ℤ◌}
use ai_investment_manager.Kernel.{seconds}
use ai_investment_manager.Kernel.Decimal.{one, round_div, mul, div}
use ai_investment_manager.Execution.Leg.{
  buy, LegStatus, ExecutionLeg, terminal, same_contract, same_leg, leg_identity, client_order,
  checked_leg, compensation_leg, concurrent_update,
}
use ai_investment_manager.Execution.Order.{
  ProductOrder, order_terminal, same_order, checked_order, differs, execution_leg_from_order,
}
use ai_investment_manager.Execution.Group.{
  ExecutionGroup, group_terminal, same_legs, same_group, quantity, add_fills, residual_quantities,
  matched, unmatched, unhedged_notional, check_role, check_compensations, checked_group,
}
use ai_investment_manager.Execution.Change.{
  changed, unhedged_since, must_compensate, next_status, check_kept_legs, evolve,
}
use ai_investment_manager.Execution.Reversal.{
  reversed_quantity, last_attempt, has_active, reverse_target, reverse_targets,
  ensure_compensation_legs,
}
use ai_investment_manager.Execution.Store.{
  Tables, group, allowed, same_contracts, check_targets, check_leg_progress,
  check_compensations_kept, check_transition, update_rows, commit, needs_save, write_if_needed,
  save,
}
use ai_investment_manager.Execution.Store.Exclusive.{
  Write, record_call, save_call, after_writes, IsExclusive, after_writes-IsExclusive,
}
use ai_investment_manager.Execution.Store.Saving.{commit_exclusive}
use ai_investment_manager.Execution.Effect.{◌>>=◌, ◌>>◌, continue, rescue, except_unknown, for_each}
use ai_investment_manager.Execution.Venue.{on_venue, on_tables, record_observation}
use ai_investment_manager.Execution.LegSync.{
  observe, submit_leg, settle_leg, answer_leg, try_query, reconcile_leg, sync_leg,
  cancel_unless_terminal, cancel_leg, stopped_leg, stop_target,
}
use ai_investment_manager.Execution.Engine.{
  persist, save_changes, save_flat, save_compensations, settle_compensations, reverse_fills,
  compensate, reconcile_group, execute, advance, read_group, advance_found, run_once,
}
use ai_investment_manager.Execution.MockVenue.{
  MockVenue, MockSubmitBehavior, mock_order, build_mock_product_order, mock_query, bound_elsewhere,
  next_behavior, fee_bps_for, insert_order, insert_built, accept, submit_found, mock_submit,
  mock_cancel, mock_venue,
}
use ai_investment_manager.Execution.MockVenue.Validity.{
  AllValid, submit_at, cancel_at, fill_at, after_calls, after_calls-AllValid,
}
use ai_investment_manager.Execution.NewGroup.{PlannedTradeGroup}
use ai_investment_manager.Execution.MockVenue.Idempotence.{
  mock_submit_idempotent, mock_cancel_terminal,
}
use ai_investment_manager.Execution.Examples.{digest, spot, partial_leg, open_group, tables, market}

-- Two writers of the next revision.
abbrev early_writer : ExecutionGroup
early_writer = record open_group { updated_at = seconds 30; revision = 2 }

abbrev late_writer : ExecutionGroup
late_writer = record open_group { updated_at = seconds 40; revision = 2 }

abbrev written : Tables
written = (save early_writer 1 tables).1

early_saves : save early_writer 1 tables ≡ (ok true, written)
unfolding run_once read_group advance_found advance execute reconcile_group compensate reverse_fills
    settle_compensations save_compensations save_flat save_changes persist stop_target stopped_leg
    cancel_leg cancel_unless_terminal sync_leg reconcile_leg try_query answer_leg settle_leg
    submit_leg observe record_observation on_tables on_venue for_each except_unknown rescue continue
    ◌>>=◌ ◌>>◌ save write_if_needed needs_save commit update_rows check_transition
    check_compensations_kept check_leg_progress check_targets same_contracts allowed group
    ensure_compensation_legs reverse_targets reverse_target has_active last_attempt
    reversed_quantity evolve check_kept_legs next_status must_compensate unhedged_since changed
    checked_group check_compensations check_role unhedged_notional unmatched matched
    residual_quantities add_fills quantity same_group same_legs group_terminal
    execution_leg_from_order differs checked_order same_order order_terminal compensation_leg
    checked_leg client_order leg_identity same_leg same_contract terminal mul div round_div sorted
    place get put index_by ◌+ℤ◌ mock_venue mock_cancel mock_submit submit_found accept insert_built
    insert_order fee_bps_for next_behavior bound_elsewhere mock_query build_mock_product_order
    mock_order xor
early_saves = refl

commit_exclusive_example : commit late_writer 1 written ≡ (err concurrent_update, written)
unfolding same_group group same_legs same_leg
commit_exclusive_example =
    commit_exclusive late_writer early_writer open_group tables written refl refl refl refl
      ((λ h. refl), tt) early_saves

abbrev accepted : ProductOrder
accepted = mock_order digest partial_leg MockSubmitBehavior.fill (seconds 20) (5 * one)

abbrev empty_market : MockVenue
empty_market = record market { orders = [] }

abbrev filled_market : MockVenue
filled_market = record market { orders = (1500, accepted) ∷ [] }

submits : mock_submit digest partial_leg (seconds 20) empty_market ≡ (ok accepted, filled_market)
unfolding run_once read_group advance_found advance execute reconcile_group compensate reverse_fills
    settle_compensations save_compensations save_flat save_changes persist stop_target stopped_leg
    cancel_leg cancel_unless_terminal sync_leg reconcile_leg try_query answer_leg settle_leg
    submit_leg observe record_observation on_tables on_venue for_each except_unknown rescue continue
    ◌>>=◌ ◌>>◌ save write_if_needed needs_save commit update_rows check_transition
    check_compensations_kept check_leg_progress check_targets same_contracts allowed group
    ensure_compensation_legs reverse_targets reverse_target has_active last_attempt
    reversed_quantity evolve check_kept_legs next_status must_compensate unhedged_since changed
    checked_group check_compensations check_role unhedged_notional unmatched matched
    residual_quantities add_fills quantity same_group same_legs group_terminal
    execution_leg_from_order differs checked_order same_order order_terminal compensation_leg
    checked_leg client_order leg_identity same_leg same_contract terminal mul div round_div sorted
    place get put index_by ◌+ℤ◌ mock_venue mock_cancel mock_submit submit_found accept insert_built
    insert_order fee_bps_for next_behavior bound_elsewhere mock_query build_mock_product_order
    mock_order xor
submits = refl

mock_submit_idempotent_example :
    (mock_submit digest partial_leg (seconds 30) filled_market ≡ (ok accepted, filled_market))
    × (mock_query 1500 filled_market ≡ (ok (some accepted), filled_market))
mock_submit_idempotent_example =
    mock_submit_idempotent digest partial_leg (seconds 20) (seconds 30) accepted empty_market
      filled_market submits

mock_cancel_terminal_example :
    ((get 1500 market.orders ≡ none) × (mock_cancel 1500 (seconds 30) market ≡ (ok none, market)))
    ⊎ ((before after : ProductOrder) × (u : MockVenue) × (get 1500 market.orders ≡ some before)
        × (mock_cancel 1500 (seconds 30) market ≡ (ok (some after), u))
        × (order_terminal after.status ≡ true)
        × (after ≡ record before { status = after.status; observed_at = after.observed_at })
        × (mock_query 1500 u ≡ (ok (some after), u)))
mock_cancel_terminal_example = mock_cancel_terminal 1500 (seconds 30) market

abbrev planned_group : PlannedTradeGroup
planned_group = record {
  group_id = 9;
  approved_target_id = 2;
  cycle_id = 3;
  sleeve_id = 4;
  maximum_unhedged_notional = 100 * one;
  maximum_unhedged_seconds = 30;
  legs =
      record {
        leg_id = 5;
        group_id = 9;
        instrument = spot;
        side = buy;
        quantity = 5 * one;
        reference_price = 10 * one;
      }
      ∷ [];
  valid_until = seconds 60;
}

abbrev new_leg : ExecutionLeg
new_leg = record partial_leg {
  status = LegStatus.pending;
  filled_quantity = 0;
  average_fill_price = none;
  venue_order_id = none;
  observed_at = none;
}

abbrev new_group : ExecutionGroup
new_group = record open_group { target_legs = new_leg ∷ []; updated_at = seconds 10; revision = 0 }

market-AllValid : AllValid market
unfolding checked_order xor
market-AllValid = ((refl, λ e. omega arith), tt)

abbrev served : MockVenue
served =
    after_calls digest
      (submit_at partial_leg (seconds 20)
        ∷ cancel_at 1500 (seconds 30)
        ∷ fill_at 1500 (seconds 40)
        ∷ [])
      market

after_calls-AllValid_example : AllValid served
after_calls-AllValid_example =
    after_calls-AllValid digest
      (submit_at partial_leg (seconds 20)
        ∷ cancel_at 1500 (seconds 30)
        ∷ fill_at 1500 (seconds 40)
        ∷ [])
      market (omega arith, (tt, (tt, tt))) market-AllValid

abbrev writes : List Write
writes = save_call early_writer 1 ∷ record_call new_group ∷ save_call late_writer 1 ∷ []

after_writes-IsExclusive_example : IsExclusive (after_writes digest writes tables)
after_writes-IsExclusive_example = after_writes-IsExclusive digest writes tables (tt, tt)

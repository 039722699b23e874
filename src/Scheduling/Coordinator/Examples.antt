-- ===== src/Scheduling/Coordinator/Examples.antt =====
-- A coordinator whose only trigger is of the highest priority, and whose batch stays frozen until
-- its deadline.
use ai_investment_manager.Prelude.{
  max, length, ◌≤◌, ℕ, suc, ◌+◌, ◌*◌, ◌≤◌, ◌≡◌, refl, true, false, none, some, List, [], ◌∷◌,
  length, is_ok, from_ok, from_ok-eq, ok, All, arith, if◌then◌else◌,
}
use ai_investment_manager.Prelude.Dict.{get, put, remove, values, index_by}
use ai_investment_manager.Prelude.Sorting.{sorted}
use ai_investment_manager.Kernel.{StableId, Time, seconds}
use ai_investment_manager.Scheduling.Event.{agent_wakeup, TriggerEvent}
use ai_investment_manager.Scheduling.Plan.{TriggerPlan, Origin}
use ai_investment_manager.Scheduling.Timing.{trigger_plan_accepts, trigger_reconsideration}
use ai_investment_manager.Scheduling.Batch.{
  TriggerBatch, select_trigger_batch_members, build_trigger_batch,
}
use ai_investment_manager.Scheduling.Coordinator.{
  Settings, Patches, Coordinator, trigger_created, remember, accept_trigger, deliver_trigger,
  deliver,
}
use ai_investment_manager.Scheduling.Coordinator.Pending.{
  discard_expired, trim_pending, eligible_pending, drop_all, fail_batch, enqueue_wakeups,
  enqueue_heartbeat, enqueue_due,
}
use ai_investment_manager.Scheduling.Coordinator.Loop.{
  returned, idle, Machine, signal, turn, built, Input, first_of_each, continued_state,
  continued_request, begin_run, accept_all, begin, prepare, retry_frozen, start_batch, select_batch,
  consider_planned, consider, wake, build_dispatches, build, step, steps, building,
}
use ai_investment_manager.Scheduling.Coordinator.Reachable.{IsCoherent, steps-IsCoherent}
use ai_investment_manager.Scheduling.Coordinator.Start.{IsStarted, wake-IsStarted}
use ai_investment_manager.Scheduling.Coordinator.Delivery.{deliver_idempotent}
use ai_investment_manager.Scheduling.Coordinator.Continuation.{
  fresh, IsResumed, begin_run-IsResumed,
}
use ai_investment_manager.Scheduling.Coordinator.Turn.{
  MayStay, is_member, prepare-pending, wake-deadline,
}

abbrev digest : StableId
digest _ [] = 7
digest p (x ∷ xs) = x + 10 * digest p xs

abbrev joined : ℕ → ℕ → ℕ
joined a b = a + 1000 * b

abbrev text : Time → ℕ
text t = t

abbrev settings : Settings
settings = record {
  maximum_batch_size = 10;
  maximum_pending_triggers = 2;
  retry_maximum_seconds = 60;
  analysis_deadline_seconds = 600;
  trigger_expiry_seconds = 900;
}

abbrev patches : Patches
patches = record {
  immediate_initial_heartbeat = true;
  durable_heartbeat = true;
  pending_expiry_wakeup = true;
}

abbrev plan : TriggerPlan
plan = record {
  plan_id = 721;
  revision = 1;
  symbol = 1;
  pipeline_id = 2;
  manifest_id = 9;
  ai_paused = false;
  heartbeat_seconds = none;
  event_rules = [];
  scheduled_wakeups = [];
  updated_at = 0;
  applied_patch_id = none;
  origin = Origin.initial_default;
}

abbrev request : TriggerEvent
request = record {
  trigger_id = 50;
  trigger_type = agent_wakeup;
  symbol = 1;
  pipeline_id = 2;
  occurred_at = seconds 90;
  observed_at = seconds 100;
  priority = 100;
  dedup_key = 8;
  evidence_ids = [];
  affected_symbols = [];
  material_forecast_eligible = false;
  review_reason = some 6;
  expires_at = some (seconds 400);
  plan_revision = some 1;
}

abbrev initial : Machine
initial = (begin plan (continued_state fresh) fresh, idle)

-- The trigger comes, its batch is built, the activity asks to keep it frozen, and the deadline
-- passes.
abbrev inputs : List (Input text digest joined settings patches 0)
inputs =
    signal (trigger_created request)
    ∷ turn (seconds 101)
    ∷ built (returned true none none) (seconds 102)
    ∷ turn (seconds 103)
    ∷ turn (seconds 800)
    ∷ []

inputs_return : is_ok (steps text digest joined settings patches 0 inputs initial) ≡ true
unfolding steps step begin continued_state accept_all first_of_each deliver deliver_trigger
    accept_trigger remember trigger_plan_accepts wake prepare enqueue_due enqueue_wakeups
    enqueue_heartbeat trim_pending discard_expired consider consider_planned eligible_pending
    select_batch trigger_reconsideration start_batch select_trigger_batch_members
    build_trigger_batch build build_dispatches retry_frozen fail_batch drop_all get put remove
    values index_by sorted
inputs_return = refl

abbrev final : Machine
final = from_ok (steps text digest joined settings patches 0 inputs initial) inputs_return

steps-IsCoherent_example :
    IsCoherent final.1 final.0
    × (length final.0.seen_order ≤ max 5000 (length initial.0.seen_order))
steps-IsCoherent_example =
    steps-IsCoherent text digest joined settings patches 0 plan (continued_state fresh) [] inputs
      final (from_ok-eq (steps text digest joined settings patches 0 inputs initial) inputs_return)

abbrev planned : Coordinator
planned = record fresh { plan = some plan }

deliver_idempotent_example :
    deliver (trigger_created request) (deliver (trigger_created request) planned)
    ≡ deliver (trigger_created request) planned
deliver_idempotent_example = deliver_idempotent (trigger_created request) planned (λ e h. h)

abbrev worn : Coordinator
worn = record planned {
  seen = 50 ∷ 51 ∷ [];
  seen_order = 51 ∷ 50 ∷ [];
  consumed_wakeups = 5 ∷ 4 ∷ [];
  last_analysis_at = some (seconds 100);
  completed_batches = 500;
}

begin_run-IsResumed_example :
    (d : Coordinator) × (begin_run (continued_request worn) fresh ≡ some d) × IsResumed worn d
begin_run-IsResumed_example =
    begin_run-IsResumed worn plan refl (((λ h. ground arith), tt), (tt, tt))

abbrev batch : TriggerBatch
batch = record {
  batch_id = 5;
  symbol = 1;
  pipeline_id = 2;
  plan_revision = 1;
  created_at = seconds 101;
  deadline = seconds 701;
  triggers = request ∷ [];
}

abbrev frozen : Coordinator
frozen = record planned {
  pending = (50, request) ∷ (51, record request { trigger_id = 51 }) ∷ [];
  active_batch_id = some 5;
  frozen_retry_batch = some batch;
}

prepared_return : is_ok (prepare text digest joined settings patches 0 (seconds 800) frozen) ≡ true
unfolding prepare enqueue_due enqueue_wakeups enqueue_heartbeat trim_pending discard_expired
prepared_return = refl

abbrev prepared : Coordinator
prepared =
    from_ok (prepare text digest joined settings patches 0 (seconds 800) frozen) prepared_return

prepare-pending_example :
    (length prepared.pending ≤ 2) × All (MayStay (seconds 800) prepared) prepared.pending
prepare-pending_example =
    prepare-pending text digest joined settings patches 0 (seconds 800) frozen prepared (
      from_ok-eq (prepare text digest joined settings patches 0 (seconds 800) frozen)
        prepared_return)

wake-deadline_example :
    (let failed = fail_batch batch (seconds 800) prepared in
      (wake text digest joined settings patches 0 (seconds 800) frozen ≡ ok (failed, idle))
      × (failed.frozen_retry_batch ≡ none)
      × (failed.active_batch_id ≡ none)
      × (failed.failed_batches ≡ suc prepared.failed_batches)
      × (failed.unresolved_failure ≡ true)
      × ((id : ℕ)
          → get id failed.pending
            ≡ (if is_member id batch.triggers then none else get id prepared.pending)))
unfolding prepare enqueue_due enqueue_wakeups enqueue_heartbeat trim_pending discard_expired get
wake-deadline_example =
    wake-deadline text digest joined settings patches 0 (seconds 800) frozen prepared batch refl
      (from_ok-eq (prepare text digest joined settings patches 0 (seconds 800) frozen)
        prepared_return)
      refl (omega arith) (refl, tt)

-- The trigger is due at once, and its batch is started.
abbrev waiting : Coordinator
waiting = record planned { pending = (50, request) ∷ [] }

wake_return : is_ok (wake text digest joined settings patches 0 (seconds 101) waiting) ≡ true
unfolding wake prepare enqueue_due enqueue_wakeups enqueue_heartbeat trim_pending discard_expired
    consider consider_planned eligible_pending select_batch trigger_reconsideration start_batch
    select_trigger_batch_members build_trigger_batch values sorted
wake_return = refl

abbrev started : Machine
started = from_ok (wake text digest joined settings patches 0 (seconds 101) waiting) wake_return

abbrev new_batch : TriggerBatch
new_batch = elim started.1 [ building b ↦ b | _ ↦ batch ]

wake_builds :
    wake text digest joined settings patches 0 (seconds 101) waiting
    ≡ ok (started.0, building new_batch)
unfolding wake prepare enqueue_due enqueue_wakeups enqueue_heartbeat trim_pending discard_expired
    consider consider_planned eligible_pending select_batch trigger_reconsideration start_batch
    select_trigger_batch_members build_trigger_batch values sorted
wake_builds = refl

waiting_prepared : prepare text digest joined settings patches 0 (seconds 101) waiting ≡ ok waiting
unfolding prepare enqueue_due enqueue_wakeups enqueue_heartbeat trim_pending discard_expired
waiting_prepared = refl

wake-IsStarted_example :
    IsStarted text settings patches plan (seconds 101) waiting new_batch
    × (started.0.active_batch_id ≡ some new_batch.batch_id)
wake-IsStarted_example =
    wake-IsStarted text digest joined settings patches 0 (seconds 101) waiting waiting started.0
      plan new_batch (omega arith) refl waiting_prepared refl refl wake_builds

-- ===== src/Scheduling/Examples.antt =====
-- Runs of the scheduling models on concrete inputs, and each theorem at an input that meets its
-- hypotheses.
use ai_investment_manager.Prelude.{
  Matched, ℕ, ◌+◌, ◌*◌, ◌≡◌, refl, true, false, none, some, List, [], ◌∷◌, ok, err, All, inl, arith,
  length, ◌≤◌, Any, ◌⊎◌, inr,
}
use ai_investment_manager.Prelude.Sorting.{sorted}
use ai_investment_manager.Prelude.Dict.{get, put, values, index_by}
use ai_investment_manager.Kernel.{StableId, Time, seconds}
use ai_investment_manager.Scheduling.Event.{
  stale_revision, market_shock, agent_wakeup, TriggerEvent, build_trigger_event,
}
use ai_investment_manager.Scheduling.Plan.{
  EventRule, ScheduledWakeup, Origin, TriggerPlan, checked_plan, levels_unique,
}
use ai_investment_manager.Scheduling.Gate.{
  add_wakeup, trigger_now, upsert_event_rule, TriggerPlanPatch, TriggerPolicy, ApplyResult,
  requested_event, check_patch, apply_operations, check_limits, planned_calls, retained, is_spaced,
  revised_plan, initial_draft, apply,
}
use ai_investment_manager.Scheduling.Admission.{Admission, decide_analysis_call_admission}
use ai_investment_manager.Scheduling.Admission.Interval.{Decides, decide_total}
use ai_investment_manager.Scheduling.Timing.{
  coalesce, matches, trigger_rule_value, minimum, maximum, trigger_reconsideration,
}
use ai_investment_manager.Scheduling.Timing.Least.{IsReady, trigger_reconsideration_least}
use ai_investment_manager.Scheduling.Timing.Expiry.{WakesBy, trigger_reconsideration_expiry}
use ai_investment_manager.Scheduling.Timing.Rules
use ai_investment_manager.Scheduling.Timing.Rules.{trigger_rule_value_most_specific}
use ai_investment_manager.Scheduling.Batch.{is_urgent, select_trigger_batch_members}
use ai_investment_manager.Scheduling.Batch.Members.{
  IsSelection, select_trigger_batch_members-IsSelection, select_trigger_batch_members_urgent,
}
use mathlib.Core.Bool.{xor}
use ai_investment_manager.Scheduling.Gate.Limits.{
  WithinPolicy, apply-WithinPolicy, apply_requests, apply_stale,
}
use ai_investment_manager.Scheduling.Gate.Requests.{requests, IsRequested, apply-IsRequested}

-- A digest without collisions is not needed here.
abbrev digest : StableId
digest _ [] = 7
digest p (x ∷ xs) = x + 10 * digest p xs

abbrev policy : TriggerPolicy
policy = record {
  minimum_call_interval_seconds = 15;
  maximum_scheduled_wakeups = 2;
  maximum_event_rules = 2;
  trigger_expiry_seconds = 900;
}

abbrev rule : EventRule
rule = record {
  rule_id = 3;
  trigger_type = market_shock;
  enabled = true;
  minimum_priority = 50;
  coalesce_seconds = 120;
  ordinary_cooldown_seconds = 600;
}

abbrev wakeup : ℕ → Time → ScheduledWakeup
wakeup id at = record {
  wakeup_id = id;
  wake_at = at;
  expires_at = at + seconds 60;
  reason = 1;
  evidence_ids = [];
}

abbrev plan : TriggerPlan
plan = record {
  plan_id = 721;
  revision = 1;
  symbol = 1;
  pipeline_id = 2;
  manifest_id = 9;
  ai_paused = false;
  heartbeat_seconds = some 900;
  event_rules = [];
  scheduled_wakeups = wakeup 5 (seconds 500) ∷ [];
  updated_at = 0;
  applied_patch_id = none;
  origin = Origin.initial_default;
}

abbrev patch : TriggerPlanPatch
patch = record {
  patch_id = 40;
  plan_id = 721;
  expected_revision = 1;
  manifest_id = 9;
  submitted_at = seconds 90;
  operations =
      add_wakeup (wakeup 4 (seconds 300)) ∷ trigger_now 8 6 [] ∷ upsert_event_rule rule ∷ [];
}

abbrev request : TriggerEvent
request = record {
  trigger_id = 78214;
  trigger_type = agent_wakeup;
  symbol = 1;
  pipeline_id = 2;
  occurred_at = seconds 90;
  observed_at = seconds 100;
  priority = 100;
  dedup_key = 8;
  evidence_ids = [];
  affected_symbols = [];
  material_forecast_eligible = false;
  review_reason = some 6;
  expires_at = some (seconds 1000);
  plan_revision = some 2;
}

abbrev revised : TriggerPlan
revised = record plan {
  revision = 2;
  event_rules = rule ∷ [];
  scheduled_wakeups = wakeup 4 (seconds 300) ∷ wakeup 5 (seconds 500) ∷ [];
  updated_at = seconds 100;
  applied_patch_id = some 40;
  origin = Origin.dynamic_patch;
}

abbrev result : ApplyResult
result = record { plan = revised; emitted_triggers = request ∷ [] }

apply_accepts : apply digest policy plan patch (seconds 100) 9 ≡ ok result
unfolding apply check_patch apply_operations check_limits checked_plan levels_unique revised_plan
    initial_draft build_trigger_event requested_event retained planned_calls is_spaced sorted get
    put values index_by xor
apply_accepts = refl

apply-WithinPolicy_example : WithinPolicy policy (seconds 100) result
apply-WithinPolicy_example =
    apply-WithinPolicy digest policy plan patch (seconds 100) 9 apply_accepts

apply_requests_example : length result.emitted_triggers ≤ 1
apply_requests_example =
    apply_requests digest policy plan patch (seconds 100) 9 (omega arith) apply_accepts

apply_stale_example :
    (revised.revision ≡ plan.revision + 1)
    × (apply digest policy revised patch (seconds 200) 9 ≡ err stale_revision)
apply_stale_example =
    apply_stale digest policy plan patch patch (seconds 100) (seconds 200) 9 9 apply_accepts refl
      refl

apply-IsRequested_example :
    Matched
      (IsRequested digest policy plan patch (seconds 100))
      (requests patch.operations)
      result.emitted_triggers
apply-IsRequested_example = apply-IsRequested digest policy plan patch (seconds 100) 9 apply_accepts

decide_total_example :
    (a : Admission) × (decide_analysis_call_admission (seconds 20) (some (seconds 10)) 15 ≡ ok a)
    × Decides (seconds 20) (seconds 10) 15 a
decide_total_example = decide_total (seconds 20) (seconds 10) 15 (omega arith)

abbrev shock : TriggerEvent
shock = record request {
  trigger_id = 5;
  trigger_type = market_shock;
  priority = 60;
  review_reason = none;
}

trigger_reconsideration_waits :
    trigger_reconsideration revised (shock ∷ []) (seconds 110) none none false ≡ ok (seconds 220)
unfolding trigger_reconsideration trigger_rule_value minimum maximum
trigger_reconsideration_waits = refl

trigger_reconsideration_least_example :
    (t : Time) × (trigger_reconsideration revised
        (shock ∷ [])
        (seconds 110)
        (some (seconds 50))
        none
        false
      ≡ ok t)
    × IsReady revised shock [] (some (seconds 50)) (seconds 110) none t
    × ((u : Time) → IsReady revised shock [] (some (seconds 50)) (seconds 110) none u → t ≤ u)
trigger_reconsideration_least_example =
    trigger_reconsideration_least revised shock [] (seconds 110) (some (seconds 50)) none

trigger_reconsideration_expiry_example :
    (w : Time) × (trigger_reconsideration revised (shock ∷ []) (seconds 110) none none true ≡ ok w)
    × WakesBy (seconds 110) (seconds 220) w (shock ∷ [])
trigger_reconsideration_expiry_example =
    trigger_reconsideration_expiry revised (shock ∷ []) (seconds 110) none none
      trigger_reconsideration_waits

trigger_rule_value_most_specific_example :
    Any (Rules.Decides revised shock coalesce) revised.event_rules
    ⊎ (All (λ s. matches shock s ≡ true → ⊥) revised.event_rules
        × (trigger_rule_value revised shock coalesce ≡ 0))
trigger_rule_value_most_specific_example = trigger_rule_value_most_specific revised shock coalesce

select_trigger_batch_members_example :
    (taken : List TriggerEvent) × (select_trigger_batch_members (λ t. t) (shock ∷ request ∷ []) 5
      ≡ ok taken)
    × IsSelection (shock ∷ request ∷ []) 5 taken
select_trigger_batch_members_example =
    select_trigger_batch_members-IsSelection (λ t. t) (shock ∷ request ∷ []) 5 (omega arith)

select_takes_request :
    select_trigger_batch_members (λ t. t) (shock ∷ request ∷ []) 5 ≡ ok (request ∷ [])
unfolding select_trigger_batch_members sorted
select_takes_request = refl

select_trigger_batch_members_urgent_example : All (λ x. is_urgent x ≡ true) (request ∷ [])
select_trigger_batch_members_urgent_example =
    select_trigger_batch_members_urgent (λ t. t) (shock ∷ request ∷ []) 5 (omega arith)
      (inr (inl refl)) select_takes_request

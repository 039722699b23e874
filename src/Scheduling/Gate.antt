-- ===== src/Scheduling/Gate.antt =====
-- scheduling/models.py: `TriggerPlanPatch` and `TriggerPlanGate.apply`.
pub mod Inversion
pub mod Spacing
pub mod Limits
pub mod Requests
use ai_investment_manager.Prelude.{
  ℕ, ◌+◌, ◌-◌, Bool, true, false, not, ◌&&◌, ◌||◌, Option, none, some, List, [], ◌∷◌, ◌++◌, map,
  select, length, is_nonempty, is_unique, ltb, leb, ◌==◌, Result, ok, raise_if, ◌>>=◌, ◌>>◌,
}
use ai_investment_manager.Prelude.Sorting.{sorted}
use ai_investment_manager.Prelude.Dict.{Dict, has_key, put, remove, values, index_by}
use ai_investment_manager.Kernel.{StableId, Time, seconds}
use ai_investment_manager.Scheduling.Event.{
  Error, wrong_plan, stale_revision, wrong_manifest, future_patch, wakeup_with_evidence,
  wakeup_not_future, wakeup_exists, wakeup_missing, rule_missing, too_many_wakeups, too_many_rules,
  heartbeat_too_short, duplicate_request, calls_too_close, agent_wakeup, TriggerEvent,
  build_trigger_event,
}
use ai_investment_manager.Scheduling.Plan.{
  EventRule, ScheduledWakeup, Origin, TriggerPlan, retained_review_wakeups, checked_plan,
}

pub data Operation : Type 0 where
  add_wakeup update_wakeup : ScheduledWakeup → Operation
  delete_wakeup : ℕ → Operation
  trigger_now : (request_id reason : ℕ) → List ℕ → Operation
  upsert_event_rule : EventRule → Operation
  delete_event_rule : ℕ → Operation
  set_ai_paused : Bool → Operation
  set_heartbeat : Option ℕ → Operation

pub record TriggerPlanPatch : Type 0 where
  pub patch_id : ℕ
  pub plan_id : ℕ
  pub expected_revision : ℕ
  pub manifest_id : ℕ
  pub submitted_at : Time
  pub operations : List Operation

-- The limits of `TriggerPolicy` that the gate reads.
pub record TriggerPolicy : Type 0 where
  pub minimum_call_interval_seconds : ℕ
  pub maximum_scheduled_wakeups : ℕ
  pub maximum_event_rules : ℕ
  pub trigger_expiry_seconds : ℕ

pub record ApplyResult : Type 0 where
  pub plan : TriggerPlan
  pub emitted_triggers : List TriggerEvent

-- The local variables of the loop over the operations.
pub record Draft : Type 0 where
  pub wakeups : Dict ScheduledWakeup
  pub rules : Dict EventRule
  pub paused : Bool
  pub heartbeat : Option ℕ
  pub emitted : List TriggerEvent

-- The two tests that `ADD_WAKEUP` and `UPDATE_WAKEUP` share.
may_schedule : Time → ScheduledWakeup → Result Error Unit
may_schedule now w = do
  raise_if (is_nonempty w.evidence_ids) wakeup_with_evidence
  raise_if (leb w.wake_at now) wakeup_not_future

-- `TRIGGER_NOW`'s arguments to `build_trigger_event`; the identity is filled in there.
unfoldable pub requested_event :
    TriggerPolicy → TriggerPlan → TriggerPlanPatch → Time → ℕ → ℕ → List ℕ → TriggerEvent
requested_event policy current patch now request_id reason evidence_ids = record {
  trigger_id = 0;
  trigger_type = agent_wakeup;
  symbol = current.symbol;
  pipeline_id = current.pipeline_id;
  occurred_at = patch.submitted_at;
  observed_at = now;
  priority = 100;
  dedup_key = request_id;
  evidence_ids = evidence_ids;
  affected_symbols = [];
  material_forecast_eligible = false;
  review_reason = some reason;
  expires_at = some (now + seconds policy.trigger_expiry_seconds);
  plan_revision = some (current.revision + 1);
}

-- The (left, right) test over `pairwise`, on ascending instants.
unfoldable pub is_spaced : ℕ → List Time → Bool
is_spaced interval [] = true
is_spaced interval (x ∷ []) = true
is_spaced interval (x ∷ y ∷ rest) =
    let later = is_spaced interval (y ∷ rest) in not (ltb (y - x) (seconds interval)) && later

abbrev pub wakeup_before : ScheduledWakeup → ScheduledWakeup → Bool
wakeup_before a b = ltb a.wake_at b.wake_at || a.wake_at == b.wake_at && ltb a.wakeup_id b.wakeup_id

abbrev pub rule_before : EventRule → EventRule → Bool
rule_before a b = ltb a.rule_id b.rule_id

abbrev pub heartbeat_short : TriggerPolicy → Option ℕ → Bool
heartbeat_short policy none = false
heartbeat_short policy (some s) = ltb s policy.minimum_call_interval_seconds

-- The instants at which the plan will call, those that it calls at once included.
unfoldable pub planned_calls : List ScheduledWakeup → List TriggerEvent → Time → List Time
planned_calls wakeups emitted now =
    sorted ltb
      (map (λ w. w.wake_at) (select (λ w. ltb now w.wake_at) wakeups) ++ map (λ _. now) emitted)

unfoldable pub retained : Draft → Time → List ScheduledWakeup
unfolding retained_review_wakeups values
retained d now = sorted wakeup_before (retained_review_wakeups (values d.wakeups) now)

-- The tests after the loop.
unfoldable pub check_limits : TriggerPolicy → Time → Draft → Result Error Unit
check_limits policy now d = do
  raise_if (ltb policy.maximum_scheduled_wakeups (length (retained d now))) too_many_wakeups
  raise_if (ltb policy.maximum_event_rules (length d.rules)) too_many_rules
  raise_if (heartbeat_short policy d.heartbeat) heartbeat_too_short
  raise_if (not (is_unique (map (λ e. e.trigger_id) d.emitted))) duplicate_request
  raise_if
      (not (
        is_spaced policy.minimum_call_interval_seconds
          (planned_calls (retained d now) d.emitted now)))
      calls_too_close

unfoldable pub revised_plan : TriggerPlan → TriggerPlanPatch → Time → Draft → TriggerPlan
unfolding values
revised_plan current patch now d = record {
  plan_id = current.plan_id;
  revision = current.revision + 1;
  symbol = current.symbol;
  pipeline_id = current.pipeline_id;
  manifest_id = current.manifest_id;
  ai_paused = d.paused;
  heartbeat_seconds = d.heartbeat;
  event_rules = sorted rule_before (values d.rules);
  scheduled_wakeups = retained d now;
  updated_at = now;
  applied_patch_id = some patch.patch_id;
  origin = Origin.dynamic_patch;
}

unfoldable pub initial_draft : TriggerPlan → Draft
unfolding index_by
initial_draft current = record {
  wakeups = index_by (λ w. w.wakeup_id) [] current.scheduled_wakeups;
  rules = index_by (λ r. r.rule_id) [] current.event_rules;
  paused = current.ai_paused;
  heartbeat = current.heartbeat_seconds;
  emitted = [];
}

-- The guards before the loop.
unfoldable pub check_patch : TriggerPlan → TriggerPlanPatch → Time → ℕ → Result Error Unit
check_patch current patch now current_manifest_id = do
  raise_if (not (patch.plan_id == current.plan_id)) wrong_plan
  raise_if (not (patch.expected_revision == current.revision)) stale_revision
  raise_if
      (not (patch.manifest_id == current.manifest_id)
        || not (patch.manifest_id == current_manifest_id))
      wrong_manifest
  raise_if (ltb now patch.submitted_at) future_patch

module _ (stable_id : StableId) (policy : TriggerPolicy) where
  -- One round of the loop.
  unfoldable pub apply_operation :
      TriggerPlan → TriggerPlanPatch → Time → Operation → Draft → Result Error Draft
  unfolding may_schedule
  apply_operation current patch now (add_wakeup w) d = do
    may_schedule now w
    raise_if (has_key w.wakeup_id d.wakeups) wakeup_exists
    ok (record d { wakeups = put w.wakeup_id w d.wakeups })
  apply_operation current patch now (update_wakeup w) d = do
    may_schedule now w
    raise_if (not (has_key w.wakeup_id d.wakeups)) wakeup_missing
    ok (record d { wakeups = put w.wakeup_id w d.wakeups })
  apply_operation current patch now (delete_wakeup wakeup_id) d = do
    raise_if (not (has_key wakeup_id d.wakeups)) wakeup_missing
    ok (record d { wakeups = remove wakeup_id d.wakeups })
  apply_operation current patch now (trigger_now request_id reason evidence_ids) d = do
    event ←
        build_trigger_event stable_id
          (requested_event policy current patch now request_id reason evidence_ids)
    ok (record d { emitted = d.emitted ++ event ∷ [] })
  apply_operation current patch now (upsert_event_rule r) d =
      ok (record d { rules = put r.rule_id r d.rules })
  apply_operation current patch now (delete_event_rule rule_id) d = do
    raise_if (not (has_key rule_id d.rules)) rule_missing
    ok (record d { rules = remove rule_id d.rules })
  apply_operation current patch now (set_ai_paused paused) d = ok (record d { paused = paused })
  apply_operation current patch now (set_heartbeat s) d = ok (record d { heartbeat = s })

  unfoldable pub apply_operations :
      TriggerPlan → TriggerPlanPatch → Time → List Operation → Draft → Result Error Draft
  unfolding apply_operation
  apply_operations current patch now [] d = ok d
  apply_operations current patch now (op ∷ ops) d = do
    d' ← apply_operation current patch now op d
    apply_operations current patch now ops d'

  -- `TriggerPlanGate.apply`
  unfoldable pub apply : TriggerPlan → TriggerPlanPatch → Time → ℕ → Result Error ApplyResult
  apply current patch now current_manifest_id = do
    check_patch current patch now current_manifest_id
    d ← apply_operations current patch now patch.operations (initial_draft current)
    check_limits policy now d
    plan ← checked_plan stable_id (revised_plan current patch now d)
    ok (record { plan = plan; emitted_triggers = d.emitted })

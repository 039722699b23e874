-- ===== src/Scheduling/Plan.antt =====
-- scheduling/models.py: the trigger plan, its validator, and the plans of a new release.
use ai_investment_manager.Prelude.{
  ℕ, ◌+◌, Bool, true, false, not, ◌&&◌, Option, none, some, List, [], ◌∷◌, map, select, is_nonempty,
  is_unique, ltb, leb, ◌==◌, if◌then◌else◌, Result, ok, raise_if, ◌>>◌, any,
}
use ai_investment_manager.Kernel.{StableId, Time, analysis_trigger_plan}
use ai_investment_manager.Scheduling.Event.{
  Error, field_constraint, bad_plan_id, duplicate_rule, duplicate_level, duplicate_wakeup,
  TriggerType, is_type,
}

pub record EventRule : Type 0 where
  pub rule_id : ℕ
  pub trigger_type : TriggerType
  pub enabled : Bool
  pub minimum_priority : ℕ
  pub coalesce_seconds : ℕ
  pub ordinary_cooldown_seconds : ℕ

pub record ScheduledWakeup : Type 0 where
  pub wakeup_id : ℕ
  pub wake_at : Time
  pub expires_at : Time
  pub reason : ℕ
  pub evidence_ids : List ℕ

pub data Origin : Type 0 where
  unknown initial_default carried_forward release_rebound dynamic_patch : Origin

pub record TriggerPlan : Type 0 where
  pub plan_id : ℕ
  pub revision : ℕ
  pub symbol : ℕ
  pub pipeline_id : ℕ
  pub manifest_id : ℕ
  pub ai_paused : Bool
  pub heartbeat_seconds : Option ℕ
  pub event_rules : List EventRule
  pub scheduled_wakeups : List ScheduledWakeup
  pub updated_at : Time
  pub applied_patch_id : Option ℕ
  pub origin : Origin

abbrev pub is_retained : Time → ScheduledWakeup → Bool
is_retained updated_at w = ltb updated_at w.expires_at && not (is_nonempty w.evidence_ids)

-- `_retained_review_wakeups`
unfoldable pub retained_review_wakeups : List ScheduledWakeup → Time → List ScheduledWakeup
retained_review_wakeups wakeups updated_at = select (is_retained updated_at) wakeups

-- Two enabled rules of one type and priority.
abbrev pub same_level : EventRule → EventRule → Bool
same_level a b = is_type a.trigger_type b.trigger_type && a.minimum_priority == b.minimum_priority

-- `len(enabled_rule_levels) == len(set(enabled_rule_levels))`
unfoldable pub levels_unique : List EventRule → Bool
levels_unique [] = true
levels_unique (r ∷ rs) =
    not (r.enabled && any (λ s. s.enabled && same_level r s) rs) && levels_unique rs

heartbeat_fits : Option ℕ → Bool
heartbeat_fits none = true
heartbeat_fits (some s) = leb 1 s && leb s 86400

module _ (stable_id : StableId) where
  unfoldable pub plan_identity : ℕ → ℕ → ℕ
  plan_identity symbol pipeline_id = stable_id analysis_trigger_plan (symbol ∷ pipeline_id ∷ [])

  -- The constructor of `AnalysisTriggerPlan`.
  unfoldable pub checked_plan : TriggerPlan → Result Error TriggerPlan
  unfolding plan_identity heartbeat_fits
  checked_plan p = do
    raise_if (not (leb 1 p.revision && heartbeat_fits p.heartbeat_seconds)) field_constraint
    raise_if (not (p.plan_id == plan_identity p.symbol p.pipeline_id)) bad_plan_id
    raise_if (not (is_unique (map (λ r. r.rule_id) p.event_rules))) duplicate_rule
    raise_if (not (levels_unique p.event_rules)) duplicate_level
    raise_if (not (is_unique (map (λ w. w.wakeup_id) p.scheduled_wakeups))) duplicate_wakeup
    ok p

  unfoldable pub build_initial_trigger_plan :
      ℕ → ℕ → ℕ → Time → Option ℕ → List EventRule → Result Error TriggerPlan
  unfolding checked_plan
  build_initial_trigger_plan symbol pipeline_id manifest_id updated_at heartbeat_seconds rules =
      checked_plan (record {
        plan_id = plan_identity symbol pipeline_id;
        revision = 1;
        symbol = symbol;
        pipeline_id = pipeline_id;
        manifest_id = manifest_id;
        ai_paused = false;
        heartbeat_seconds = heartbeat_seconds;
        event_rules = rules;
        scheduled_wakeups = [];
        updated_at = updated_at;
        applied_patch_id = none;
        origin = Origin.initial_default;
      })

  unfoldable pub carry_forward_trigger_plan : TriggerPlan → ℕ → ℕ → Time → Result Error TriggerPlan
  unfolding checked_plan retained_review_wakeups
  carry_forward_trigger_plan previous pipeline_id manifest_id updated_at = checked_plan (record {
    plan_id = plan_identity previous.symbol pipeline_id;
    revision = 1;
    symbol = previous.symbol;
    pipeline_id = pipeline_id;
    manifest_id = manifest_id;
    ai_paused = previous.ai_paused;
    heartbeat_seconds = previous.heartbeat_seconds;
    event_rules = previous.event_rules;
    scheduled_wakeups = retained_review_wakeups previous.scheduled_wakeups updated_at;
    updated_at = updated_at;
    applied_patch_id = none;
    origin = Origin.carried_forward;
  })

-- `model_copy` runs no validator.
unfoldable pub rebind_trigger_plan_manifest : TriggerPlan → ℕ → Time → TriggerPlan
unfolding retained_review_wakeups
rebind_trigger_plan_manifest current manifest_id updated_at =
    if current.manifest_id == manifest_id then current else record current {
      revision = current.revision + 1;
      manifest_id = manifest_id;
      scheduled_wakeups = retained_review_wakeups current.scheduled_wakeups updated_at;
      updated_at = updated_at;
      applied_patch_id = none;
      origin = Origin.release_rebound;
    }

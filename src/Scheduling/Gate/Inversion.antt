-- ===== src/Scheduling/Gate/Inversion.antt =====
-- What a successful `TriggerPlanGate.apply` has passed.
use ai_investment_manager.Prelude.{
  ℕ, ◌≤◌, ◌≡◌, refl, true, false, map, length, is_unique, ok, >>=-eq-ok, arith,
}
use ai_investment_manager.Kernel.{StableId, Time}
use ai_investment_manager.Scheduling.Plan.{TriggerPlan, checked_plan, levels_unique}
use ai_investment_manager.Scheduling.Gate.{
  TriggerPlanPatch, TriggerPolicy, ApplyResult, Draft, heartbeat_short, is_spaced, planned_calls,
  retained, check_limits, revised_plan, initial_draft, check_patch, apply_operations, apply,
}

-- The constructor returns its argument, whose rules and wakeups are unique.
pub record IsChecked (p q : TriggerPlan) : Type 0 where
  pub same_plan : q ≡ p
  pub rules_unique : is_unique (map (λ r. r.rule_id) p.event_rules) ≡ true
  pub levels : levels_unique p.event_rules ≡ true
  pub wakeups_unique : is_unique (map (λ w. w.wakeup_id) p.scheduled_wakeups) ≡ true

pub checked_plan-IsChecked :
    (stable_id : StableId) (p : TriggerPlan) {q : TriggerPlan}
    → checked_plan stable_id p ≡ ok q
    → IsChecked p q
unfolding checked_plan
checked_plan-IsChecked stable_id p h = ground arith

pub record WithinLimits (policy : TriggerPolicy) (now : Time) (d : Draft) : Type 0 where
  pub wakeups : length (retained d now) ≤ policy.maximum_scheduled_wakeups
  pub rules : length d.rules ≤ policy.maximum_event_rules
  pub heartbeat : heartbeat_short policy d.heartbeat ≡ false
  pub requests : is_unique (map (λ e. e.trigger_id) d.emitted) ≡ true
  pub spaced :
      is_spaced policy.minimum_call_interval_seconds (planned_calls (retained d now) d.emitted now)
      ≡ true

check_limits-WithinLimits :
    (policy : TriggerPolicy) (now : Time) (d : Draft)
    → check_limits policy now d ≡ ok tt
    → WithinLimits policy now d
unfolding check_limits
check_limits-WithinLimits policy now d h = ground arith

pub record IsCurrent (current : TriggerPlan) (patch : TriggerPlanPatch) (now : Time) (manifest : ℕ)
    : Type 0 where
  pub plan : patch.plan_id ≡ current.plan_id
  pub revision : patch.expected_revision ≡ current.revision
  pub manifest_of_plan : patch.manifest_id ≡ current.manifest_id
  pub manifest_of_release : patch.manifest_id ≡ manifest
  pub submitted : patch.submitted_at ≤ now

check_patch-IsCurrent :
    (current : TriggerPlan) (patch : TriggerPlanPatch) (now : Time) (manifest : ℕ)
    → check_patch current patch now manifest ≡ ok tt
    → IsCurrent current patch now manifest
unfolding check_patch
check_patch-IsCurrent current patch now manifest h = ground arith

module _ (stable_id : StableId) (policy : TriggerPolicy) where
  pub record Applied (current : TriggerPlan) (patch : TriggerPlanPatch) (now : Time) (manifest : ℕ)
      (r : ApplyResult) : Type 0 where
    pub draft : Draft
    pub of_current : IsCurrent current patch now manifest
    pub ran :
        apply_operations stable_id policy current patch now patch.operations (initial_draft current)
        ≡ ok draft
    pub limits : WithinLimits policy now draft
    pub checked : IsChecked (revised_plan current patch now draft) r.plan
    pub emitted : r.emitted_triggers ≡ draft.emitted

  pub apply-Applied :
      (current : TriggerPlan) (patch : TriggerPlanPatch) (now : Time) (manifest : ℕ)
      {r : ApplyResult}
      → apply stable_id policy current patch now manifest ≡ ok r
      → Applied current patch now manifest r
  unfolding apply
  apply-Applied current patch now manifest {r} h =
      let (_, of_current, h1) = >>=-eq-ok (check_patch current patch now manifest) _ h in
      let (d, ran, h2) =
        >>=-eq-ok
          (apply_operations stable_id policy current patch now patch.operations
            (initial_draft current))
          _ h1 in
      let (_, limits, h3) = >>=-eq-ok (check_limits policy now d) _ h2 in
      let (q, checked, h4) =
        >>=-eq-ok (checked_plan stable_id (revised_plan current patch now d)) _ h3 in
      let e : ◌≡◌ {A = ApplyResult} (record { plan = q; emitted_triggers = d.emitted }) r = cc h4 in
      record {
        draft = d;
        of_current = check_patch-IsCurrent current patch now manifest of_current;
        ran = ran;
        limits = check_limits-WithinLimits policy now d limits;
        checked = rw (← e) (checked_plan-IsChecked stable_id _ checked);
        emitted = rw (← e) refl;
      }

-- ===== src/Scheduling/Gate/Limits.antt =====
-- What `TriggerPlanGate.apply` guarantees of the plans that it lets through.
use ai_investment_manager.Prelude.{
  ℕ, ◌+◌, ◌≤◌, ◌<◌, ◌≡◌, true, false, Option, none, some, [], length, ok, err, All, All-map,
  All-select, All-Unit, arith,
}
use ai_investment_manager.Prelude.Sorting.{length-sorted, All-sorted}
use ai_investment_manager.Prelude.Dict.{values, length-values}
use ai_investment_manager.Kernel.{StableId, Time}
use ai_investment_manager.Scheduling.Event.{stale_revision}
use ai_investment_manager.Scheduling.Plan.{
  ScheduledWakeup, TriggerPlan, is_retained, retained_review_wakeups,
}
use ai_investment_manager.Scheduling.Gate.{
  TriggerPlanPatch, TriggerPolicy, ApplyResult, Draft, retained, planned_calls, rule_before,
  wakeup_before, heartbeat_short, revised_plan, check_patch, apply,
}
use ai_investment_manager.Scheduling.Gate.Inversion.{apply-Applied}
use ai_investment_manager.Scheduling.Gate.Spacing.{AreApart, planned_calls-AreApart, apart_requests}

abbrev pub HeartbeatFits : TriggerPolicy → Option ℕ → Type 0
HeartbeatFits policy none = Unit
HeartbeatFits policy (some s) = policy.minimum_call_interval_seconds ≤ s

HeartbeatFits-of_test :
    (policy : TriggerPolicy) (h : Option ℕ)
    → heartbeat_short policy h ≡ false
    → HeartbeatFits policy h
HeartbeatFits-of_test policy none e = tt
HeartbeatFits-of_test policy (some s) e = ground arith

-- A wakeup that is still to come and binds no evidence.
abbrev pub IsReview : Time → ScheduledWakeup → Type 0
IsReview now w = (now < w.expires_at) × (w.evidence_ids ≡ [])

IsReview-of_test : (now : Time) (w : ScheduledWakeup) → is_retained now w ≡ true → IsReview now w
IsReview-of_test now w h = ground arith

pub retained-IsReview : (d : Draft) (now : Time) → All (IsReview now) (retained d now)
unfolding retained retained_review_wakeups
retained-IsReview d now = All-sorted wakeup_before (IsReview now) _ (
    All-map (λ w h. IsReview-of_test now w h.1) _
      (All-select (λ _. Unit) (is_retained now) (values d.wakeups) (All-Unit (values d.wakeups))))

-- The hard bounds of the policy, on a plan and the triggers that come with it.
pub record WithinPolicy (policy : TriggerPolicy) (now : Time) (r : ApplyResult) : Type 0 where
  pub wakeups : length r.plan.scheduled_wakeups ≤ policy.maximum_scheduled_wakeups
  pub rules : length r.plan.event_rules ≤ policy.maximum_event_rules
  pub heartbeat : HeartbeatFits policy r.plan.heartbeat_seconds
  pub reviews : All (IsReview now) r.plan.scheduled_wakeups
  pub apart :
      AreApart policy.minimum_call_interval_seconds
        (planned_calls r.plan.scheduled_wakeups r.emitted_triggers now)

module _ (stable_id : StableId) (policy : TriggerPolicy) where
  -- Every patch that the gate accepts leaves at most the permitted wakeups and rules and no
  -- heartbeat under the minimal interval, each wakeup is in force after `now` and binds no
  -- evidence, and all planned calls, those emitted at once included, are the minimal interval or
  -- more apart.
  pub apply-WithinPolicy :
      (current : TriggerPlan) (patch : TriggerPlanPatch) (now : Time) (manifest : ℕ)
      {r : ApplyResult}
      → apply stable_id policy current patch now manifest ≡ ok r
      → WithinPolicy policy now r
  unfolding revised_plan
  apply-WithinPolicy current patch now manifest h =
      let a = apply-Applied stable_id policy current patch now manifest h in
      let d = a.draft in
      let e = a.checked.same_plan in
      record {
        wakeups = rw e a.limits.wakeups;
        rules = rw e (
            omega (
              arith,
              length-sorted rule_before (values d.rules),
              length-values d.rules,
              a.limits.rules,
            ));
        heartbeat = rw e (HeartbeatFits-of_test policy d.heartbeat a.limits.heartbeat);
        reviews = rw e (retained-IsReview d now);
        apart =
            rw (e, a.emitted)
              (planned_calls-AreApart _ (retained d now) d.emitted now a.limits.spaced);
      }

  -- Where the minimal interval is not zero, one patch requests one immediate review at most.
  pub apply_requests :
      (current : TriggerPlan) (patch : TriggerPlanPatch) (now : Time) (manifest : ℕ)
      {r : ApplyResult}
      → 1 ≤ policy.minimum_call_interval_seconds
      → apply stable_id policy current patch now manifest ≡ ok r
      → length r.emitted_triggers ≤ 1
  apply_requests current patch now manifest {r} pos h =
      apart_requests policy.minimum_call_interval_seconds r.plan.scheduled_wakeups
        r.emitted_triggers now pos (apply-WithinPolicy current patch now manifest h).apart

  -- The revision counts the accepted patches: a patch that was accepted is refused as stale by the
  -- plan that it led to, and so is every other patch made for the earlier revision.
  pub apply_stale :
      (current : TriggerPlan) (patch other : TriggerPlanPatch) (now later : Time)
      (manifest manifest' : ℕ) {r : ApplyResult}
      → apply stable_id policy current patch now manifest ≡ ok r
      → other.plan_id ≡ patch.plan_id
      → other.expected_revision ≡ patch.expected_revision
      → (r.plan.revision ≡ current.revision + 1)
        × (apply stable_id policy r.plan other later manifest' ≡ err stale_revision)
  unfolding apply revised_plan check_patch
  apply_stale current patch other now later manifest manifest' h p q =
      let a = apply-Applied stable_id policy current patch now manifest h in
      (
        rw a.checked.same_plan,
        ground (arith, a.checked.same_plan, a.of_current.plan, a.of_current.revision),
      )

-- ===== src/Scheduling/Timing.antt =====
-- scheduling/models.py: which triggers a plan accepts, the most specific rule, and the next instant
-- at which the pending triggers are considered. The payloads are read as the records that they
-- serialise.
pub mod Least
pub mod Rules
pub mod Expiry
use ai_investment_manager.Prelude.{
  ℕ, ◌+◌, Bool, true, false, not, ◌&&◌, ◌||◌, Option, none, some, List, [], ◌∷◌, map, any, select,
  ltb, leb, ◌==◌, if◌then◌else◌, max, min, Result, ok, err,
}
use ai_investment_manager.Kernel.{Time, seconds}
use ai_investment_manager.Scheduling.Event.{
  Error, nothing_pending, TriggerType, agent_wakeup, heartbeat, forecast_slot_due,
  forecast_event_due, world_model_updated, is_type, TriggerEvent,
}
use ai_investment_manager.Scheduling.Plan.{EventRule, TriggerPlan}

abbrev pub is_internal : TriggerType → Bool
is_internal heartbeat = true
is_internal forecast_slot_due = true
is_internal forecast_event_due = true
is_internal world_model_updated = true
is_internal _ = false

abbrev pub matches : TriggerEvent → EventRule → Bool
matches e r =
    is_type r.trigger_type e.trigger_type && r.enabled && leb r.minimum_priority e.priority

unfoldable pub trigger_plan_accepts : TriggerPlan → TriggerEvent → Bool
trigger_plan_accepts plan e =
    if is_type e.trigger_type agent_wakeup
    then true
    else if plan.ai_paused
    then false
    else if is_internal e.trigger_type
    then true
    else any (matches e) plan.event_rules

-- The field that `trigger_rule_value` is asked for.
pub data Period : Type 0 where
  coalesce cooldown : Period

abbrev pub period_of : Period → EventRule → ℕ
period_of coalesce r = r.coalesce_seconds
period_of cooldown r = r.ordinary_cooldown_seconds

-- `max(matches, key=minimum_priority)`: the first of the largest.
unfoldable pub most_specific : EventRule → List EventRule → EventRule
most_specific best [] = best
most_specific best (r ∷ rs) =
    most_specific (if ltb best.minimum_priority r.minimum_priority then r else best) rs

value_of : Period → List EventRule → ℕ
value_of p [] = 0
value_of p (r ∷ rs) = period_of p (most_specific r rs)

unfoldable pub trigger_rule_value : TriggerPlan → TriggerEvent → Period → ℕ
unfolding value_of most_specific
trigger_rule_value plan e p = value_of p (select (matches e) plan.event_rules)

-- `min` and `max` of a value for each element of a sequence that is not empty.
module _ {A : Type 0} (f : A → ℕ) where
  unfoldable pub minimum : A → List A → ℕ
  minimum x [] = f x
  minimum x (y ∷ ys) = min (f x) (minimum y ys)

  unfoldable pub maximum : A → List A → ℕ
  maximum x [] = f x
  maximum x (y ∷ ys) = max (f x) (maximum y ys)

not_before : Option Time → Time → Time
not_before none t = t
not_before (some r) t = max t r

after_cooldown : Option Time → ℕ → Time → Time
after_cooldown none period t = t
after_cooldown (some l) period t = max t (l + seconds period)

-- `min` with the first expiry, if one of the pending expires.
first_expiry : List TriggerEvent → Time → Time
first_expiry [] t = t
first_expiry (e ∷ es) t = elim e.expires_at [
  | none ↦ first_expiry es t
  | some x ↦ min x (first_expiry es t)
]

-- Coalescing and cooldown, which a trigger of the highest priority skips.
ordinary_delay : TriggerPlan → TriggerEvent → List TriggerEvent → Option Time → Time → Time
unfolding minimum maximum after_cooldown
ordinary_delay plan e es last t =
    after_cooldown last (maximum (λ x. trigger_rule_value plan x cooldown) e es) (
      max t (
        minimum (λ x. x.observed_at) e es
        + seconds (maximum (λ x. trigger_rule_value plan x coalesce) e es)))

unfoldable pub trigger_reconsideration :
    TriggerPlan → List TriggerEvent → Time → Option Time → Option Time → Bool → Result Error Time
unfolding not_before ordinary_delay first_expiry
trigger_reconsideration plan [] now last retry wake_at_expiry = err nothing_pending
trigger_reconsideration plan (e ∷ es) now last retry wake_at_expiry =
    let earliest = not_before retry now in
    let delayed =
      (if ltb e.priority 100 then ordinary_delay plan e es last earliest else earliest) in
    ok (max (if wake_at_expiry then first_expiry (e ∷ es) delayed else delayed) now)

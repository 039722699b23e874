-- ===== src/Scheduling/Timing/Rules.antt =====
-- The period that a plan gives to a trigger is that of its most specific rule.
use ai_investment_manager.Prelude.{
  ◌≤◌, ◌≡◌, refl, ap, Bool, true, false, List, [], ◌∷◌, ltb, if◌then◌else◌, select, ◌⊎◌, inl, inr,
  All, All-of_select, Any, Any-map, Any-of_select, arith,
}
use ai_investment_manager.Scheduling.Event.{TriggerEvent}
use ai_investment_manager.Scheduling.Plan.{EventRule, TriggerPlan}
use ai_investment_manager.Scheduling.Timing.{
  matches, Period, period_of, most_specific, value_of, trigger_rule_value,
}

widen :
    (Q : EventRule → Type 0) (b : Bool) (best r : EventRule) (rs : List EventRule)
    → Any Q ((if b then r else best) ∷ rs)
    → Any Q (best ∷ r ∷ rs)
widen Q true best r rs h = inr h
widen Q false best r rs (inl h) = inl h
widen Q false best r rs (inr h) = inr (inr h)

most_specific-Any :
    (best : EventRule) (rs : List EventRule) → Any (λ r. most_specific best rs ≡ r) (best ∷ rs)
unfolding most_specific
most_specific-Any best [] = inl refl
most_specific-Any best (r ∷ rs) =
    let larger = ltb best.minimum_priority r.minimum_priority in
    widen _ larger best r rs (most_specific-Any (if larger then r else best) rs)

most_specific-All :
    (best : EventRule) (rs : List EventRule)
    → All (λ s. s.minimum_priority ≤ (most_specific best rs).minimum_priority) (best ∷ rs)
unfolding most_specific
most_specific-All best [] = (omega arith, tt)
most_specific-All best (r ∷ rs) =
    let larger = ltb best.minimum_priority r.minimum_priority in
    let next = if larger then r else best in
    let h = most_specific-All next rs in
    let (above, above') : (best.minimum_priority ≤ next.minimum_priority)
        × (r.minimum_priority ≤ next.minimum_priority) =
      ground arith in
    (omega (arith, h.0), (omega (arith, h.0), h.1))

-- The rule decides a trigger's period: it matches, its period is the value, and no matching rule
-- of the plan asks for a higher priority.
abbrev pub Decides : TriggerPlan → TriggerEvent → Period → EventRule → Type 0
Decides plan e p r =
    (matches e r ≡ true)
    × (trigger_rule_value plan e p ≡ period_of p r)
    × All (λ s. matches e s ≡ true → s.minimum_priority ≤ r.minimum_priority) plan.event_rules

value_of_matches :
    (plan : TriggerPlan) (e : TriggerEvent) (p : Period) (rs : List EventRule)
    → select (matches e) plan.event_rules ≡ rs
    → Any (Decides plan e p) plan.event_rules
      ⊎ (All (λ s. matches e s ≡ true → ⊥) plan.event_rules × (trigger_rule_value plan e p ≡ 0))
unfolding trigger_rule_value
value_of_matches plan e p [] h =
    inr (All-of_select (λ _. ⊥) (matches e) plan.event_rules (rw h tt), rw h)
value_of_matches plan e p (r ∷ rs) h =
    let best = most_specific r rs in
    let largest : All (λ s. matches e s ≡ true → s.minimum_priority ≤ best.minimum_priority)
        plan.event_rules =
      All-of_select _ (matches e) plan.event_rules (rw h (most_specific-All r rs)) in
    let chosen : Any (λ s. (best ≡ s) × (matches e s ≡ true)) plan.event_rules =
      Any-of_select _ (matches e) plan.event_rules (rw h (most_specific-Any r rs)) in
    inl (
      Any-map (λ s k. (k.1, rw (h, value_of) (ap (period_of p) k.0), rw (← k.0) largest))
        plan.event_rules chosen)

-- A trigger's period is that of a rule that matches it, with the highest minimal priority of all
-- matching rules, or zero where no rule of the plan matches.
pub trigger_rule_value_most_specific :
    (plan : TriggerPlan) (e : TriggerEvent) (p : Period)
    → Any (Decides plan e p) plan.event_rules
      ⊎ (All (λ s. matches e s ≡ true → ⊥) plan.event_rules × (trigger_rule_value plan e p ≡ 0))
trigger_rule_value_most_specific plan e p =
    value_of_matches plan e p (select (matches e) plan.event_rules) refl

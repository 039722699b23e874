-- ===== src/Scheduling/Timing/Expiry.antt =====
-- The wake-up at the expiry of a pending trigger.
use ai_investment_manager.Prelude.{
  ◌≤◌, ◌≡◌, refl, true, false, Bool-cases, Option, none, some, List, [], ◌∷◌, ltb, if◌then◌else◌,
  max, min, ok, All, All-map, Any, Any-map, inl, inr, arith, ◌⊎◌, not_ltb→le, ltb→lt,
}
use ai_investment_manager.Kernel.{Time}
use ai_investment_manager.Scheduling.Event.{TriggerEvent}
use ai_investment_manager.Scheduling.Plan.{TriggerPlan}
use ai_investment_manager.Scheduling.Timing.{
  not_before, first_expiry, ordinary_delay, trigger_reconsideration,
}

-- The trigger expires at `t` or later, or never.
abbrev pub InForce : Time → Option Time → Type 0
InForce t none = Unit
InForce t (some y) = t ≤ y

-- An instant no later than the expiry.
abbrev pub NotAfterExpiry : Time → Option Time → Type 0
NotAfterExpiry w none = Unit
NotAfterExpiry w (some y) = w ≤ y

-- The trigger has expired by `w`.
abbrev pub HasExpired : Time → Option Time → Type 0
HasExpired w none = ⊥
HasExpired w (some y) = y ≤ w

first_expiry-le : (es : List TriggerEvent) (t : Time) → first_expiry es t ≤ t
unfolding first_expiry
first_expiry-le [] t = omega arith
first_expiry-le (e ∷ es) t = ground (arith, first_expiry-le es t)

first_expiry-InForce :
    (es : List TriggerEvent) (t : Time)
    → All (λ x. InForce t x.expires_at) es
    → first_expiry es t ≡ t
unfolding first_expiry
first_expiry-InForce [] t h = refl
first_expiry-InForce (e ∷ es) t h = ground (arith, first_expiry-InForce es t h.1)

below_expiry : (w v : Time) (o : Option Time) → v ≤ w → NotAfterExpiry w o → NotAfterExpiry v o
below_expiry w v none h k = tt
below_expiry w v (some y) h k = omega arith

first_expiry-head :
    (o : Option Time) (t : Time) → NotAfterExpiry (elim o [ none ↦ t | some x ↦ min x t ]) o
first_expiry-head none t = tt
first_expiry-head (some x) t = omega arith

first_expiry-All :
    (es : List TriggerEvent) (t : Time)
    → All (λ x. NotAfterExpiry (first_expiry es t) x.expires_at) es
unfolding first_expiry
first_expiry-All [] t = tt
first_expiry-All (e ∷ es) t =
    let shorter : first_expiry (e ∷ es) t ≤ first_expiry es t = ground arith in
    (
      first_expiry-head e.expires_at (first_expiry es t),
      All-map (λ x h. below_expiry (first_expiry es t) _ x.expires_at shorter h) es
          (first_expiry-All es t),
    )

InForce-below : (d t : Time) (o : Option Time) → d ≤ t → InForce t o → InForce d o
InForce-below d t none h k = tt
InForce-below d t (some y) h k = omega arith

-- An instant that is `t`, or by which one of the triggers has expired.
abbrev pub IsReached : Time → Time → List TriggerEvent → Type 0
IsReached w t es = (w ≡ t) ⊎ Any (λ x. HasExpired w x.expires_at) es

head-IsReached :
    (o : Option Time) (f t : Time) (es : List TriggerEvent)
    → IsReached f t es
    → ((elim o [ none ↦ f | some x ↦ min x f ]) ≡ t)
      ⊎ HasExpired (elim o [ none ↦ f | some x ↦ min x f ]) o
      ⊎ Any (λ x. HasExpired (elim o [ none ↦ f | some y ↦ min y f ]) x.expires_at) es
head-IsReached none f t es h = elim h [ inl e ↦ inl e | inr a ↦ inr (inr a) ]
head-IsReached (some x) f t es h = elim (Bool-cases (ltb x f)) [
  | inl before ↦ let b = ltb→lt x f before in inr (inl (omega arith))
  | inr after ↦
      let a = not_ltb→le x f after in
      let same : min x f ≡ f = omega arith in
      rw same (elim h [ inl e ↦ inl e | inr k ↦ inr (inr k) ])
]

-- The first expiry is one, or none comes before `t`.
first_expiry-IsReached : (es : List TriggerEvent) (t : Time) → IsReached (first_expiry es t) t es
unfolding first_expiry
first_expiry-IsReached [] t = inl refl
first_expiry-IsReached (e ∷ es) t =
    head-IsReached e.expires_at (first_expiry es t) t es (first_expiry-IsReached es t)

HasExpired-after : (v w : Time) (o : Option Time) → v ≤ w → HasExpired v o → HasExpired w o
HasExpired-after v w none h k = k
HasExpired-after v w (some y) h k = omega arith

pub record WakesBy (now t w : Time) (pending : List TriggerEvent) : Type 0 where
  pub not_past : now ≤ w
  pub not_later : w ≤ t
  pub at_expiry : All (λ x. NotAfterExpiry w x.expires_at ⊎ (w ≡ now)) pending
  pub not_early : IsReached w t pending
  pub unchanged : All (λ x. InForce t x.expires_at) pending → w ≡ t

wakes_by :
    (now d : Time) (es : List TriggerEvent)
    → WakesBy now (max d now) (max (first_expiry es d) now) es
wakes_by now d es =
    let f = first_expiry es d in
    let expiring = first_expiry-All es d in
    let below = first_expiry-le es d in
    record {
      not_past = omega arith;
      not_later = omega arith;
      at_expiry =
          All-map
            (λ x h. elim (Bool-cases (ltb f now)) [
              | inl past ↦ inr (omega (arith, ltb→lt f now past))
              | inr coming ↦
                  inl (below_expiry f _ x.expires_at (omega (arith, not_ltb→le f now coming)) h)
            ])
            es expiring;
      not_early = elim (first_expiry-IsReached es d) [
        | inl kept ↦ inl (omega arith)
        | inr some_expired ↦ inr (
            Any-map (λ x h. HasExpired-after f (max f now) x.expires_at (omega arith) h) es
              some_expired)
      ];
      unchanged = λ all.
          let kept : f ≡ d =
            first_expiry-InForce es d
              (All-map (λ x h. InForce-below d _ x.expires_at (omega arith) h) es all) in
          omega arith;
    }

-- With the wake-up at an expiry, a batch that would be reconsidered at `t` is reconsidered at an
-- instant that is neither past nor after `t`, no later than the expiry of each of its triggers
-- (but never before now), before `t` only if one of the triggers has expired by then, and at `t`
-- itself if every trigger is in force until then.
pub trigger_reconsideration_expiry :
    (plan : TriggerPlan) (pending : List TriggerEvent) (now : Time) (last retry : Option Time)
    {t : Time}
    → trigger_reconsideration plan pending now last retry false ≡ ok t
    → (w : Time) × (trigger_reconsideration plan pending now last retry true ≡ ok w)
      × WakesBy now t w pending
unfolding trigger_reconsideration
trigger_reconsideration_expiry plan [] now last retry h = cc
trigger_reconsideration_expiry plan (e ∷ es) now last retry {t} h =
    let d : Time =
      (if ltb e.priority 100
        then ordinary_delay plan e es last (not_before retry now)
        else not_before retry now) in
    let same : max d now ≡ t = cc in
    (max (first_expiry (e ∷ es) d) now, refl, rw (← same) (wakes_by now d (e ∷ es)))

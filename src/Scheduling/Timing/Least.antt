-- ===== src/Scheduling/Timing/Least.antt =====
-- The instant of reconsideration is the least that every constraint allows.
use ai_investment_manager.Prelude.{
  ℕ, ◌+◌, ◌≤◌, ◌<◌, ◌≡◌, true, false, Bool-cases, Option, none, some, List, [], ◌∷◌, ltb, ltb→lt,
  ok, All, All-map, inl, inr, arith,
}
use ai_investment_manager.Kernel.{Time, seconds}
use ai_investment_manager.Scheduling.Event.{TriggerEvent}
use ai_investment_manager.Scheduling.Plan.{TriggerPlan}
use ai_investment_manager.Scheduling.Timing.{
  coalesce, cooldown, trigger_rule_value, minimum, maximum, not_before, ordinary_delay,
  trigger_reconsideration,
}

module _ {A : Type 0} (f : A → ℕ) where
  -- A bound on the end of each period bounds the end of the longest.
  maximum_end :
      (c t : ℕ) (x : A) (ys : List A)
      → All (λ y. c + seconds (f y) ≤ t) (x ∷ ys)
      → c + seconds (maximum f x ys) ≤ t
  unfolding maximum
  maximum_end c t x [] h = h.0
  maximum_end c t x (y ∷ ys) h = omega (arith, maximum_end c t y ys h.1, h.0)

  le-maximum : (x : A) (ys : List A) → All (λ y. f y ≤ maximum f x ys) (x ∷ ys)
  unfolding maximum
  le-maximum x [] = (omega arith, tt)
  le-maximum x (y ∷ ys) = (omega arith, All-map (λ z h. omega arith) (y ∷ ys) (le-maximum y ys))

abbrev pub first_seen : TriggerEvent → List TriggerEvent → Time
first_seen e es = minimum (λ x. x.observed_at) e es

abbrev pub AfterRetry : Option Time → Time → Type 0
AfterRetry none t = Unit
AfterRetry (some r) t = r ≤ t

abbrev pub AfterCooldown : Option Time → ℕ → Time → Type 0
AfterCooldown none period t = Unit
AfterCooldown (some l) period t = l + seconds period ≤ t

module _ (plan : TriggerPlan) (e : TriggerEvent) (es : List TriggerEvent) (last : Option Time) where
  abbrev pub Coalesced : Time → TriggerEvent → Type 0
  Coalesced t x = first_seen e es + seconds (trigger_rule_value plan x coalesce) ≤ t

  abbrev pub Cooled : Time → TriggerEvent → Type 0
  Cooled t x = AfterCooldown last (trigger_rule_value plan x cooldown) t

  -- An instant that the constraints allow: not in the past, not before the inputs are retried;
  -- and, unless the first trigger has the highest priority, neither before each trigger's
  -- coalescing period after the first was observed, nor before each one's cooldown after the last
  -- analysis.
  pub record IsReady (now : Time) (retry : Option Time) (t : Time) : Type 0 where
    pub present : now ≤ t
    pub retried : AfterRetry retry t
    pub coalesced : e.priority < 100 → All (Coalesced t) (e ∷ es)
    pub cooled : e.priority < 100 → All (Cooled t) (e ∷ es)

module _ (plan : TriggerPlan) (e : TriggerEvent) (es : List TriggerEvent) (base : Time) where
  abbrev coalescing : TriggerEvent → ℕ
  coalescing x = trigger_rule_value plan x coalesce

  abbrev cooling : TriggerEvent → ℕ
  cooling x = trigger_rule_value plan x cooldown

  ordinary_delay-le :
      (last : Option Time) (t : Time)
      → base ≤ t
      → All (Coalesced plan e es last t) (e ∷ es)
      → All (Cooled plan e es last t) (e ∷ es)
      → ordinary_delay plan e es last base ≤ t
  unfolding ordinary_delay
  ordinary_delay-le none t h all cool =
      omega (arith, maximum_end coalescing (first_seen e es) t e es all)
  ordinary_delay-le (some l) t h all cool = omega (
    arith,
    maximum_end coalescing (first_seen e es) t e es all,
    maximum_end cooling l t e es cool,
  )

  ordinary_delay-ge : (last : Option Time) → base ≤ ordinary_delay plan e es last base
  unfolding ordinary_delay
  ordinary_delay-ge none = omega arith
  ordinary_delay-ge (some l) = omega arith

  ordinary_delay-Coalesced :
      (last : Option Time)
      → All (Coalesced plan e es last (ordinary_delay plan e es last base)) (e ∷ es)
  unfolding ordinary_delay
  ordinary_delay-Coalesced none = All-map (λ x h. omega arith) (e ∷ es) (le-maximum coalescing e es)
  ordinary_delay-Coalesced (some l) =
      All-map (λ x h. omega arith) (e ∷ es) (le-maximum coalescing e es)

  ordinary_delay-Cooled :
      (last : Option Time)
      → All (Cooled plan e es last (ordinary_delay plan e es last base)) (e ∷ es)
  unfolding ordinary_delay
  ordinary_delay-Cooled none = All-map (λ x h. tt) (e ∷ es) (le-maximum cooling e es)
  ordinary_delay-Cooled (some l) = All-map (λ x h. omega arith) (e ∷ es) (le-maximum cooling e es)

not_before-AfterRetry :
    (retry : Option Time) (now t : Time) → not_before retry now ≤ t → (now ≤ t) × AfterRetry retry t
unfolding not_before
not_before-AfterRetry none now t h = (h, tt)
not_before-AfterRetry (some r) now t h = omega arith

not_before-le :
    (retry : Option Time) (now t : Time) → now ≤ t → AfterRetry retry t → not_before retry now ≤ t
unfolding not_before
not_before-le none now t h k = h
not_before-le (some r) now t h k = omega arith

module _ (plan : TriggerPlan) (e : TriggerEvent) (es : List TriggerEvent) (now : Time)
    (last retry : Option Time) where
  abbrev base : Time
  base = not_before retry now

  abbrev delayed : Time
  delayed = ordinary_delay plan e es last base

  -- The least instant with the constraints, and the value that the code returns for it.
  record IsLeast (t : Time) : Type 0 where
    returned : trigger_reconsideration plan (e ∷ es) now last retry false ≡ ok t
    ready : IsReady plan e es last now retry t
    least : (u : Time) → IsReady plan e es last now retry u → t ≤ u

  urgent-IsLeast : ltb e.priority 100 ≡ false → IsLeast base
  unfolding trigger_reconsideration
  urgent-IsLeast h =
      let (present, retried) = not_before-AfterRetry retry now base (omega arith) in
      record {
        returned = rw h (ground arith);
        ready = record {
          present = present;
          retried = retried;
          coalesced = λ below. absurd (ground arith);
          cooled = λ below. absurd (ground arith);
        };
        least = λ u r. not_before-le retry now u r.present r.retried;
      }

  ordinary-IsLeast : ltb e.priority 100 ≡ true → IsLeast delayed
  unfolding trigger_reconsideration
  ordinary-IsLeast h =
      let grown = ordinary_delay-ge plan e es base last in
      let (present, retried) = not_before-AfterRetry retry now delayed grown in
      record {
        returned = rw h (ground arith);
        ready = record {
          present = present;
          retried = retried;
          coalesced = λ _. ordinary_delay-Coalesced plan e es base last;
          cooled = λ _. ordinary_delay-Cooled plan e es base last;
        };
        least = λ u r.
            ordinary_delay-le plan e es base last u (not_before-le retry now u r.present r.retried)
              (r.coalesced (ltb→lt _ _ h)) (r.cooled (ltb→lt _ _ h));
      }

  -- Without the wake-up at an expiry, a pending batch that is not empty is reconsidered at the
  -- least instant that is ready.
  pub trigger_reconsideration_least :
      (t : Time) × (trigger_reconsideration plan (e ∷ es) now last retry false ≡ ok t)
      × IsReady plan e es last now retry t
      × ((u : Time) → IsReady plan e es last now retry u → t ≤ u)
  trigger_reconsideration_least = elim (Bool-cases (ltb e.priority 100)) [
    | inl h ↦ let r = ordinary-IsLeast h in (delayed, r.returned, r.ready, r.least)
    | inr h ↦ let r = urgent-IsLeast h in (base, r.returned, r.ready, r.least)
  ]

-- ===== src/Scheduling/Gate/Spacing.antt =====
-- The calls of a plan that has passed the gate are apart by the hard minimum.
use ai_investment_manager.Prelude.{
  ℕ, ◌+◌, ◌≤◌, ◌≡◌, refl, true, List, [], ◌∷◌, ◌++◌, map, select, length, ltb, All, All-map, Pairs,
  arith,
}
use ai_investment_manager.Prelude.Sorting.{sorted-ltb, count, count-append, count-sorted}
use ai_investment_manager.Kernel.{Time, seconds}
use ai_investment_manager.Scheduling.Event.{TriggerEvent}
use ai_investment_manager.Scheduling.Plan.{ScheduledWakeup}
use ai_investment_manager.Scheduling.Gate.{is_spaced, planned_calls}

-- Each call is the interval or more before every later one.
abbrev pub AreApart : ℕ → List Time → Type 0
AreApart interval = Pairs (λ x y. x + seconds interval ≤ y)

is_spaced-AreApart :
    (interval : ℕ) (xs : List Time)
    → Pairs (λ x y. x ≤ y) xs
    → is_spaced interval xs ≡ true
    → AreApart interval xs
unfolding is_spaced
is_spaced-AreApart interval [] h k = tt
is_spaced-AreApart interval (x ∷ []) h k = (tt, tt)
is_spaced-AreApart interval (x ∷ y ∷ rest) h k =
    let later = is_spaced-AreApart interval (y ∷ rest) h.1 (ground arith) in
    let gap : x + seconds interval ≤ y = ground arith in
    ((gap, All-map (λ z le. omega arith) rest later.0), later)

pub planned_calls-AreApart :
    (interval : ℕ) (wakeups : List ScheduledWakeup) (emitted : List TriggerEvent) (now : Time)
    → is_spaced interval (planned_calls wakeups emitted now) ≡ true
    → AreApart interval (planned_calls wakeups emitted now)
unfolding planned_calls
planned_calls-AreApart interval wakeups emitted now h =
    is_spaced-AreApart interval _ (sorted-ltb _) h

count_below : (a : ℕ) (xs : List ℕ) → All (λ y. a + 1 ≤ y) xs → count a xs ≡ 0
count_below a [] h = refl
count_below a (x ∷ xs) h = ground (arith, count_below a xs h.1)

count_apart :
    (interval a : ℕ) (xs : List Time) → 1 ≤ interval → AreApart interval xs → count a xs ≤ 1
count_apart interval a [] pos h = omega arith
count_apart interval a (x ∷ xs) pos h = ground (
  arith,
  count_apart interval a xs pos h.1,
  count_below x xs (All-map (λ y le. omega arith) xs h.0),
)

count-map_const : {A : Type 0} (now : ℕ) (xs : List A) → count now (map (λ _. now) xs) ≡ length xs
count-map_const now [] = refl
count-map_const now (x ∷ xs) = ground (arith, count-map_const now xs)

-- Two requests in one patch would call twice at once.
pub apart_requests :
    (interval : ℕ) (wakeups : List ScheduledWakeup) (emitted : List TriggerEvent) (now : Time)
    → 1 ≤ interval
    → AreApart interval (planned_calls wakeups emitted now)
    → length emitted ≤ 1
unfolding planned_calls
apart_requests interval wakeups emitted now pos h = omega (
  arith,
  count_apart interval now _ pos h,
  count-sorted ltb now
      (map (λ w. w.wake_at) (select (λ w. ltb now w.wake_at) wakeups) ++ map (λ _. now) emitted),
  count-append now (map (λ w. w.wake_at) (select (λ w. ltb now w.wake_at) wakeups))
      (map (λ _. now) emitted),
  count-map_const now emitted,
)

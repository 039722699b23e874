-- ===== src/Scheduling/Coordinator/Reachable.antt =====
-- Every state that the coordinator reaches.
use ai_investment_manager.Prelude.{
  ℕ, max, arith, ◌+◌, ◌≤◌, ◌≡◌, refl, sym, ap, ◌∙◌, Bool, true, false, Option, none, some, List, [],
  ◌∷◌, length, ltb, leb, Bool-cases, is_nonempty, ◌⊎◌, inl, inr, Result, ok, after_ok, ok-injective,
  if◌then◌else◌,
}
use ai_investment_manager.Prelude.Sorting.{sorted}
use ai_investment_manager.Kernel.{StableId, Time, seconds}
use ai_investment_manager.Scheduling.Event.{Error, TriggerEvent}
use ai_investment_manager.Scheduling.Plan.{TriggerPlan}
use ai_investment_manager.Scheduling.Timing.{trigger_reconsideration}
use ai_investment_manager.Scheduling.Batch.{
  TriggerBatch, select_trigger_batch_members, build_trigger_batch, id_before,
}
use ai_investment_manager.Scheduling.Coordinator.{
  Settings, Patches, Coordinator, Message, deliver, accept_trigger,
}
use ai_investment_manager.Prelude.Dict.{values}
use ai_investment_manager.Scheduling.Coordinator.Pending.{fail_batch, eligible_pending}
use ai_investment_manager.Scheduling.Coordinator.Loop.{
  Dispatches, permanent_failure, deferred, dispatched, build_dispatches, ChildResult, Phase, idle,
  stopped, continued, building, executing, Machine, finish, finish_batch, prepare, RuntimeState,
  accept_all, begin, newer_plan, restored_state, or_now, retry_frozen, start_batch, select_batch,
  consider_planned, consider, wake, build, Input, signal, stop_signal, turn, built, finished, step,
  steps,
}
use ai_investment_manager.Scheduling.Coordinator.Kept.{
  Kept, Kept-refl, Kept-trans, accept_trigger-Kept, deliver-Kept, prepare-Kept,
}
use ai_investment_manager.Scheduling.Coordinator.Continuation.{fresh}

abbrev pub batch_of : Option TriggerBatch → Option ℕ
batch_of none = none
batch_of (some b) = some b.batch_id

-- The batch that a phase has in hand. Between two batches it is the frozen one, if there is one;
-- while a batch is built no other is frozen; and while one is executed none is.
abbrev pub IsCoherent : Phase → Coordinator → Type 0
IsCoherent (building b) c =
    (c.active_batch_id ≡ some b.batch_id)
    × ((c.frozen_retry_batch ≡ none) ⊎ (c.frozen_retry_batch ≡ some b))
IsCoherent (executing b) c = (c.active_batch_id ≡ some b.batch_id) × (c.frozen_retry_batch ≡ none)
IsCoherent _ c = c.active_batch_id ≡ batch_of c.frozen_retry_batch

Kept-IsCoherent :
    (phase : Phase) {c d : Coordinator} → Kept c d → IsCoherent phase c → IsCoherent phase d
Kept-IsCoherent idle k h = k.active ∙ h ∙ ap batch_of (sym k.frozen)
Kept-IsCoherent stopped k h = k.active ∙ h ∙ ap batch_of (sym k.frozen)
Kept-IsCoherent continued k h = k.active ∙ h ∙ ap batch_of (sym k.frozen)
Kept-IsCoherent (building b) k h =
    (k.active ∙ h.0, elim h.1 [ inl n ↦ inl (k.frozen ∙ n) | inr s ↦ inr (k.frozen ∙ s) ])
Kept-IsCoherent (executing b) k h = (k.active ∙ h.0, k.frozen ∙ h.1)

module _ (limit : ℕ) (enough : 5000 ≤ limit) where
  -- A state of the machine: its batch is coherent, and it remembers no more triggers than the limit.
  abbrev IsSound : Machine → Type 0
  IsSound machine = IsCoherent machine.1 machine.0 × (length machine.0.seen_order ≤ limit)

  Kept-IsSound :
      (phase : Phase) {c d : Coordinator} → Kept c d → IsSound (c, phase) → IsSound (d, phase)
  Kept-IsSound phase k h = (Kept-IsCoherent phase k h.0, k.bounded limit enough h.1)

  between-IsCoherent :
      (test : Bool) (c : Coordinator)
      → c.active_batch_id ≡ batch_of c.frozen_retry_batch
      → IsCoherent (if test then continued else idle) c
  between-IsCoherent true c h = h
  between-IsCoherent false c h = h

  retry-IsCoherent :
      (test : Bool) (b : TriggerBatch) (c : Coordinator)
      → c.active_batch_id ≡ batch_of c.frozen_retry_batch
      → c.frozen_retry_batch ≡ some b
      → IsCoherent (if test then idle else building b) c
  retry-IsCoherent true b c h f = h
  retry-IsCoherent false b c h f = (h ∙ ap batch_of f, inr f)

  finish-IsSound :
      (results : List ChildResult) (now : Time) (b : TriggerBatch) (c : Coordinator)
      → IsSound (c, executing b)
      → IsSound (finish results now c)
  unfolding finish finish_batch
  finish-IsSound results now b c h =
      (between-IsCoherent _ (finish_batch results now c) (sym (ap batch_of h.0.1)), h.1)

  module _ (text : Time → ℕ) (stable_id : StableId) (joined : ℕ → ℕ → ℕ) (settings : Settings)
      (patches : Patches) (started_at : Time) where
    retry_frozen-IsSound :
        (b : TriggerBatch) (now : Time) (c : Coordinator)
        → c.frozen_retry_batch ≡ some b
        → IsSound (c, idle)
        → IsSound (retry_frozen text stable_id joined settings patches started_at b now c)
    unfolding retry_frozen fail_batch
    retry_frozen-IsSound b now c f h = elim (Bool-cases (leb b.deadline now)) [
      | inl e ↦ rw e (refl, h.1)
      | inr e ↦
          let at =
            or_now text stable_id joined settings patches started_at c.input_retry_not_before now in
          let waiting : Coordinator = record c { next_reconsider_at = some at } in
          rw e (retry-IsCoherent (ltb now at) b waiting h.0 f, h.1)
    ]

    build-IsSound :
        (b : TriggerBatch) (d : Dispatches) (now : Time) (c : Coordinator)
        → IsSound (c, building b)
        → IsSound (build text stable_id joined settings patches started_at b d now c)
    unfolding build fail_batch
    build-IsSound b permanent_failure now c h = (refl, h.1)
    build-IsSound b (deferred until true) now c h = (refl, h.1)
    build-IsSound b (deferred until false) now c h = (refl, h.1)
    build-IsSound b (dispatched ds) now c h = ((h.0.0, refl), h.1)

    -- A turn is taken between two batches; without a frozen one, none is active.
    start_batch-IsSound :
        (plan : TriggerPlan) (now : Time) (candidates : List TriggerEvent) (c : Coordinator)
        {next : Machine}
        → c.frozen_retry_batch ≡ none
        → length c.seen_order ≤ limit
        → start_batch text stable_id joined settings patches started_at plan now candidates c
          ≡ ok next
        → IsSound next
    unfolding start_batch
    start_batch-IsSound plan now candidates c f l h =
        after_ok (select_trigger_batch_members text candidates settings.maximum_batch_size) _ h
          λ selected _ k.
            after_ok
              (build_trigger_batch stable_id plan (sorted id_before selected) now
                (now + seconds settings.analysis_deadline_seconds))
              _ k λ batch _ m. rw (← ok-injective m) ((refl, inl f), l)

    waits_or-IsSound :
        (test : Bool) (waiting : Coordinator) (call : Result Error Machine) {next : Machine}
        → IsSound (waiting, idle)
        → (if test then ok (waiting, idle) else call) ≡ ok next
        → (call ≡ ok next → IsSound next)
        → IsSound next
    waits_or-IsSound true waiting call s h k = rw (← ok-injective h) s
    waits_or-IsSound false waiting call s h k = k h

    select_batch-IsSound :
        (plan : TriggerPlan) (now : Time) (candidates : List TriggerEvent) (c : Coordinator)
        {next : Machine}
        → c.frozen_retry_batch ≡ none
        → IsSound (c, idle)
        → select_batch text stable_id joined settings patches started_at plan now candidates c
          ≡ ok next
        → IsSound next
    unfolding select_batch
    select_batch-IsSound plan now candidates c f s h =
        after_ok
          (trigger_reconsideration plan candidates now c.last_analysis_at c.input_retry_not_before
            patches.pending_expiry_wakeup)
          _ h
          λ at _ k.
            waits_or-IsSound (ltb now at) (record c { next_reconsider_at = some at }) _ s k
              (start_batch-IsSound plan now candidates c f s.1)

    consider_planned-IsSound :
        (plan : Option TriggerPlan) (now : Time) (c : Coordinator) {next : Machine}
        → c.frozen_retry_batch ≡ none
        → IsSound (c, idle)
        → consider_planned text stable_id joined settings patches started_at plan now c ≡ ok next
        → IsSound next
    unfolding consider_planned
    consider_planned-IsSound none now c f s h = rw (← ok-injective h) s
    consider_planned-IsSound (some plan) now c f s h =
        elim (Bool-cases (is_nonempty (eligible_pending text settings plan c))) [
          | inl e ↦ select_batch-IsSound plan now _ c f s (rw e at h)
          | inr e ↦
              let h' : ok (record c { next_reconsider_at = none }, idle) ≡ ok _ = rw e at h in
              rw (← ok-injective h') s
        ]

    consider-IsSound :
        (frozen : Option TriggerBatch) (now : Time) (c : Coordinator) {next : Machine}
        → c.frozen_retry_batch ≡ frozen
        → IsSound (c, idle)
        → consider text stable_id joined settings patches started_at frozen now c ≡ ok next
        → IsSound next
    unfolding consider
    consider-IsSound (some b) now c f s h = rw (← ok-injective h) (retry_frozen-IsSound b now c f s)
    consider-IsSound none now c f s h = consider_planned-IsSound c.plan now c f s h

    unless_stopping-IsSound :
        (stopping : Bool) (c : Coordinator) (call : Result Error Machine) {next : Machine}
        → IsSound (c, idle)
        → (if stopping then ok (c, stopped) else call) ≡ ok next
        → (call ≡ ok next → IsSound next)
        → IsSound next
    unless_stopping-IsSound true c call s h k = rw (← ok-injective h) s
    unless_stopping-IsSound false c call s h k = k h

    wake-IsSound :
        (now : Time) (c : Coordinator) {next : Machine}
        → IsSound (c, idle)
        → wake text stable_id joined settings patches started_at now c ≡ ok next
        → IsSound next
    unfolding wake
    wake-IsSound now c s h = unless_stopping-IsSound c.stopping c _ s h λ k.
        after_ok (prepare text stable_id joined settings patches started_at now c) _ k λ d p m.
          consider-IsSound d.frozen_retry_batch now d refl
            (Kept-IsSound idle
              (prepare-Kept stable_id joined settings patches text started_at now c p) s)
            m

    step-IsSound :
        (i : Input text stable_id joined settings patches started_at) (machine : Machine)
        {next : Machine}
        → IsSound machine
        → step text stable_id joined settings patches started_at i machine ≡ ok next
        → IsSound next
    unfolding step
    step-IsSound (signal m) (c, phase) s h =
        rw (← ok-injective h) (Kept-IsSound phase (deliver-Kept m c) s)
    step-IsSound stop_signal (c, phase) s h =
        rw (← ok-injective h)
          (Kept-IsSound phase record { active = refl; frozen = refl; bounded = λ n m b. b } s)
    step-IsSound (turn now) (c, idle) s h = wake-IsSound now c s h
    step-IsSound (built r now) (c, building b) s h =
        rw (← ok-injective h) (build-IsSound b (build_dispatches r) now c s)
    step-IsSound (finished results now) (c, executing b) s h =
        rw (← ok-injective h) (finish-IsSound results now b c s)
    step-IsSound (turn now) (c, stopped) s h = rw (← ok-injective h) s
    step-IsSound (turn now) (c, continued) s h = rw (← ok-injective h) s
    step-IsSound (turn now) (c, building b) s h = rw (← ok-injective h) s
    step-IsSound (turn now) (c, executing b) s h = rw (← ok-injective h) s
    step-IsSound (built r now) (c, idle) s h = rw (← ok-injective h) s
    step-IsSound (built r now) (c, stopped) s h = rw (← ok-injective h) s
    step-IsSound (built r now) (c, continued) s h = rw (← ok-injective h) s
    step-IsSound (built r now) (c, executing b) s h = rw (← ok-injective h) s
    step-IsSound (finished rs now) (c, idle) s h = rw (← ok-injective h) s
    step-IsSound (finished rs now) (c, stopped) s h = rw (← ok-injective h) s
    step-IsSound (finished rs now) (c, continued) s h = rw (← ok-injective h) s
    step-IsSound (finished rs now) (c, building b) s h = rw (← ok-injective h) s

    steps_kept :
        (is : List (Input text stable_id joined settings patches started_at))
        (machine next : Machine)
        → IsSound machine
        → steps text stable_id joined settings patches started_at is machine ≡ ok next
        → IsSound next
    unfolding steps
    steps_kept [] machine next s h = rw (← ok-injective h) s
    steps_kept (i ∷ is) machine next s h =
        after_ok (step text stable_id joined settings patches started_at i machine) _ h
          λ m e k. steps_kept is m next (step-IsSound i machine s e) k

accept_all-Kept :
    (plan : TriggerPlan) (es : List TriggerEvent) (c : Coordinator) → Kept c (accept_all plan es c)
unfolding accept_all
accept_all-Kept plan [] c = Kept-refl c
accept_all-Kept plan (e ∷ es) c =
    Kept-trans (accept_trigger-Kept plan e c) (accept_all-Kept plan es (accept_trigger plan e c))

-- The coordinator to which these messages have come before its run.
abbrev pub delivered : List Message → Coordinator → Coordinator
delivered [] c = c
delivered (m ∷ ms) c = delivered ms (deliver m c)

delivered-Kept : (ms : List Message) (c : Coordinator) → Kept c (delivered ms c)
delivered-Kept [] c = Kept-refl c
delivered-Kept (m ∷ ms) c = Kept-trans (deliver-Kept m c) (delivered-Kept ms (deliver m c))

begin-IsCoherent :
    (plan : TriggerPlan) (s : RuntimeState) (early : List Message)
    → IsCoherent idle (begin plan s (delivered early fresh))
unfolding begin
begin-IsCoherent plan s early =
    let c = delivered early fresh in
    let k = delivered-Kept early fresh in
    let initial = newer_plan plan c.plan in
    Kept-IsCoherent idle
      (accept_all-Kept initial (values c.prestart_triggers) (restored_state plan s c))
      (k.active ∙ ap batch_of (sym k.frozen))

-- A run begins in any state that an earlier run hands over, with the messages that have come to it.
-- Whatever sequence of signals, turns, ends of the activity and ends of the child workflows it then
-- goes through, in any order and at any instants, it has one batch in hand at most: the active batch
-- is the one that is built or executed, or between two batches the frozen one; while a batch is
-- built no other batch is frozen, and while one is executed none is. And it never remembers more than
-- 5000 triggers, or than it has begun with.
pub steps-IsCoherent :
    (text : Time → ℕ) (stable_id : StableId) (joined : ℕ → ℕ → ℕ) (settings : Settings)
    (patches : Patches) (started_at : Time) (plan : TriggerPlan) (s : RuntimeState)
    (early : List Message) (is : List (Input text stable_id joined settings patches started_at))
    (next : Machine)
    → steps text stable_id joined settings patches started_at is
        (begin plan s (delivered early fresh), idle)
      ≡ ok next
    → IsCoherent next.1 next.0
      × (length next.0.seen_order
          ≤ max 5000 (length (begin plan s (delivered early fresh)).seen_order))
steps-IsCoherent text stable_id joined settings patches started_at plan s early is next h =
    let c = begin plan s (delivered early fresh) in
    steps_kept (max 5000 (length c.seen_order)) (omega arith) text stable_id joined settings patches
      started_at is (c, idle) next (begin-IsCoherent plan s early, omega arith) h

-- ===== src/Scheduling/Coordinator/Loop.antt =====
-- scheduling/workflows.py: `run`, as steps between the points where it waits: for a change or an
-- instant, for the activity that freezes a batch, for the child workflows. Signals may come at each.
use ai_investment_manager.Prelude.{
  ℕ, ◌+◌, ◌%◌, suc, Bool, true, false, not, ◌&&◌, Option, none, some, List, [], ◌∷◌, ◌++◌, select,
  dedup, all, is_nonempty, ltb, leb, ◌==◌, if◌then◌else◌, Result, ok, ◌>>=◌,
}
use ai_investment_manager.Prelude.Dict.{values}
use ai_investment_manager.Prelude.Sorting.{sorted}
use ai_investment_manager.Kernel.{StableId, Time, seconds}
use ai_investment_manager.Scheduling.Event.{Error, TriggerEvent}
use ai_investment_manager.Scheduling.Plan.{TriggerPlan}
use ai_investment_manager.Scheduling.Timing.{trigger_reconsideration}
use ai_investment_manager.Scheduling.Batch.{
  TriggerBatch, select_trigger_batch_members, build_trigger_batch, id_before,
}
use ai_investment_manager.Scheduling.Coordinator.{
  stop, Settings, Patches, Coordinator, Message, deliver, accept_trigger,
}
use ai_investment_manager.Scheduling.Coordinator.Pending.{
  enqueue_due, trim_pending, discard_expired, eligible_pending, drop_all, fail_batch,
}

-- The end of the activity: an error of a type that is not retried, another error, or a result with
-- the fields that are read, of which the dispatches may be malformed.
pub data ActivityResult : Type 0 where
  rejected failed : ActivityResult
  returned :
      (retry_frozen_batch : Bool) (deferred_until : Option Time) (dispatches : Option (List ℕ))
      → ActivityResult

-- What `_build_dispatches` answers.
pub data Dispatches : Type 0 where
  permanent_failure : Dispatches
  deferred : Option Time → Bool → Dispatches
  dispatched : List ℕ → Dispatches

unfoldable pub build_dispatches : ActivityResult → Dispatches
build_dispatches rejected = permanent_failure
build_dispatches failed = deferred none false
build_dispatches (returned retry (some t) ds) = deferred (some t) retry
build_dispatches (returned true none ds) = deferred none true
build_dispatches (returned false none none) = permanent_failure
build_dispatches (returned false none (some ds)) = dispatched ds

-- The end of a child workflow: an error, or a result with a text for its status or without.
pub data ChildResult : Type 0 where
  child_error without_status : ChildResult
  with_status : (is_failed : Bool) → ChildResult

abbrev pub execute_dispatch : ChildResult → Bool
execute_dispatch child_error = false
execute_dispatch without_status = false
execute_dispatch (with_status is_failed) = not is_failed

-- Where the loop waits.
pub data Phase : Type 0 where
  idle stopped continued : Phase
  building executing : TriggerBatch → Phase

abbrev pub Machine : Type 0
Machine = Coordinator × Phase

-- `dict.fromkeys`
unfoldable pub first_of_each : List ℕ → List ℕ
first_of_each [] = []
first_of_each (x ∷ xs) = x ∷ select (λ y. not (y == x)) (first_of_each xs)

pub record RuntimeState : Type 0 where
  pub last_analysis_at : Option Time
  pub consumed_wakeups : List ℕ
  pub seen_trigger_ids : List ℕ
  pub completed_batches : ℕ
  pub failed_batches : ℕ
  pub unresolved_failure : Bool

unfoldable pub continued_state : Coordinator → RuntimeState
continued_state c = record {
  last_analysis_at = c.last_analysis_at;
  consumed_wakeups = sorted ltb c.consumed_wakeups;
  seen_trigger_ids = c.seen_order;
  completed_batches = c.completed_batches;
  failed_batches = c.failed_batches;
  unresolved_failure = c.unresolved_failure;
}

-- The request of the next run; the settings are those of this one. A workflow that has a plan keeps
-- one.
pub record ContinuedRequest : Type 0 where
  pub plan : Option TriggerPlan
  pub runtime_state : RuntimeState

unfoldable pub continued_request : Coordinator → ContinuedRequest
continued_request c = record { plan = c.plan; runtime_state = continued_state c }

unfoldable pub accept_all : TriggerPlan → List TriggerEvent → Coordinator → Coordinator
accept_all plan [] c = c
accept_all plan (e ∷ es) c = accept_all plan es (accept_trigger plan e c)

abbrev pub newer_plan : TriggerPlan → Option TriggerPlan → TriggerPlan
newer_plan initial none = initial
newer_plan initial (some current) =
    if ltb current.revision initial.revision then initial else current

-- The restored_state state, before the triggers that came early are accepted.
abbrev pub restored_state : TriggerPlan → RuntimeState → Coordinator → Coordinator
restored_state initial_plan s c = record c {
  plan = some (newer_plan initial_plan c.plan);
  prestart_triggers = [];
  seen = first_of_each (s.seen_trigger_ids ++ c.seen_order);
  seen_order = first_of_each (s.seen_trigger_ids ++ c.seen_order);
  consumed_wakeups = dedup s.consumed_wakeups;
  last_analysis_at = s.last_analysis_at;
  completed_batches = s.completed_batches;
  failed_batches = s.failed_batches;
  unresolved_failure = s.unresolved_failure;
}

-- The part of `run` before the loop; a revision is positive.
unfoldable pub begin : TriggerPlan → RuntimeState → Coordinator → Coordinator
begin initial_plan s c =
    accept_all (newer_plan initial_plan c.plan) (values c.prestart_triggers)
      (restored_state initial_plan s c)

-- `run` up to its loop, in a coordinator to which signals may have come; without a plan in the
-- request it raises.
unfoldable pub begin_run : ContinuedRequest → Coordinator → Option Coordinator
begin_run request c = elim request.plan [
  | none ↦ none
  | some plan ↦ some (begin plan request.runtime_state c)
]

unfoldable pub finish_batch : List ChildResult → Time → Coordinator → Coordinator
finish_batch results now c = record c {
  failed_batches = if all execute_dispatch results then c.failed_batches else suc c.failed_batches;
  unresolved_failure = not (all execute_dispatch results);
  active_batch_id = none;
  last_analysis_at = some now;
  completed_batches = suc c.completed_batches;
}

-- The end of a batch, after which a long history is continued as a new one.
unfoldable pub finish : List ChildResult → Time → Coordinator → Machine
finish results now c =
    let done = finish_batch results now c in
    (
      done,
      if done.completed_batches % 500 == 0 && not (is_nonempty done.pending)
          then continued
          else idle,
    )

module _ (text : Time → ℕ) (stable_id : StableId) (joined : ℕ → ℕ → ℕ) (settings : Settings)
    (patches : Patches) (started_at : Time) where
  abbrev pub enqueue_planned : Option TriggerPlan → Time → Coordinator → Result Error Coordinator
  enqueue_planned none now c = ok c
  enqueue_planned (some plan) now c =
      enqueue_due stable_id joined settings patches plan now started_at c

  unfoldable pub prepare : Time → Coordinator → Result Error Coordinator
  prepare now c = do
    enqueued ← enqueue_planned c.plan now c
    ok (discard_expired now (trim_pending text settings enqueued))

  abbrev pub eligible : Coordinator → List TriggerEvent
  eligible c = elim c.plan [ none ↦ [] | some plan ↦ eligible_pending text settings plan c ]

  abbrev pub or_now : Option Time → Time → Time
  or_now none now = now
  or_now (some t) now = t

  -- A frozen batch: failed at its deadline, or built again once its delay is over.
  unfoldable pub retry_frozen : TriggerBatch → Time → Coordinator → Machine
  retry_frozen b now c =
      let retry_at = or_now c.input_retry_not_before now in
      let waiting : Coordinator = record c { next_reconsider_at = some retry_at } in
      if leb b.deadline now
      then (fail_batch b now c, idle)
      else (waiting, if ltb now retry_at then idle else building b)

  -- A new batch of the eligible triggers.
  unfoldable pub start_batch :
      TriggerPlan → Time → List TriggerEvent → Coordinator → Result Error Machine
  start_batch plan now candidates c = do
    selected ← select_trigger_batch_members text candidates settings.maximum_batch_size
    batch ←
        build_trigger_batch stable_id plan (sorted id_before selected) now
          (now + seconds settings.analysis_deadline_seconds)
    ok (
      record c { next_reconsider_at = none; active_batch_id = some batch.batch_id },
      building batch,
    )

  unfoldable pub select_batch :
      TriggerPlan → Time → List TriggerEvent → Coordinator → Result Error Machine
  select_batch plan now candidates c = do
    at ←
        trigger_reconsideration plan candidates now c.last_analysis_at c.input_retry_not_before
          patches.pending_expiry_wakeup
    if ltb now at
        then ok (record c { next_reconsider_at = some at }, idle)
        else start_batch plan now candidates c

  unfoldable pub consider_planned : Option TriggerPlan → Time → Coordinator → Result Error Machine
  consider_planned none now c = ok (record c { next_reconsider_at = none }, idle)
  consider_planned (some plan) now c =
      let candidates = eligible_pending text settings plan c in
      if is_nonempty candidates
      then select_batch plan now candidates c
      else ok (record c { next_reconsider_at = none }, idle)

  unfoldable pub consider : Option TriggerBatch → Time → Coordinator → Result Error Machine
  consider (some b) now c = ok (retry_frozen b now c)
  consider none now c = consider_planned c.plan now c

  -- One turn of the loop.
  unfoldable pub wake : Time → Coordinator → Result Error Machine
  wake now c =
      if c.stopping
      then ok (c, stopped)
      else prepare now c >>= λ d. consider d.frozen_retry_batch now d

  unfoldable pub build : TriggerBatch → Dispatches → Time → Coordinator → Machine
  build b permanent_failure now c = (fail_batch b now c, idle)
  build b (deferred until retry) now c = (
    record c {
      frozen_retry_batch = if retry then some b else none;
      active_batch_id = if retry then some b.batch_id else none;
      input_retry_not_before = some (or_now until (now + seconds settings.retry_maximum_seconds));
    },
    idle,
  )
  build b (dispatched ds) now c = (
    record c {
      frozen_retry_batch = none;
      input_retry_not_before = none;
      pending = drop_all b.triggers c.pending;
      last_batch_id = some b.batch_id;
    },
    executing b,
  )

  pub data Input : Type 0 where
    signal : Message → Input
    stop_signal : Input
    turn : Time → Input
    built : ActivityResult → Time → Input
    finished : List ChildResult → Time → Input

  -- What comes for another phase does not come.
  unfoldable pub step : Input → Machine → Result Error Machine
  step (signal m) (c, phase) = ok (deliver m c, phase)
  step stop_signal (c, phase) = ok (stop c, phase)
  step (turn now) (c, idle) = wake now c
  step (built r now) (c, building b) = ok (build b (build_dispatches r) now c)
  step (finished results now) (c, executing b) = ok (finish results now c)
  step _ machine = ok machine

  unfoldable pub steps : List Input → Machine → Result Error Machine
  steps [] machine = ok machine
  steps (i ∷ is) machine = step i machine >>= λ next. steps is next

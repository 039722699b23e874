-- ===== src/Scheduling/Coordinator.antt =====
-- scheduling/workflows.py: the state of the coordinator of one plan, its signals. The
-- payload dictionaries are read as the records that they serialise; a message that
-- does not have their shape is `malformed`.
pub mod Pending
pub mod Loop
pub mod Kept
pub mod Reachable
pub mod Delivery
pub mod Turn
pub mod Continuation
pub mod Start
mod Examples
use ai_investment_manager.Prelude.{
  ℕ, ◌+◌, ◌-◌, ◌*◌, ◌/◌, suc, max, min, Bool, true, false, not, ◌&&◌, ◌||◌, Option, none, some,
  List, [], ◌∷◌, ◌++◌, map, select, contains, take, length, ltb, leb, ◌==◌, is_some, if◌then◌else◌,
  Result, ok, err, ◌>>=◌,
}
use ai_investment_manager.Prelude.Dict.{Dict, get, has_key, put, remove, values, index_by}
use ai_investment_manager.Prelude.Sorting.{sorted}
use ai_investment_manager.Kernel.{StableId, Time, seconds}
use ai_investment_manager.Scheduling.Event.{
  Error, TriggerType, agent_wakeup, heartbeat, is_type, TriggerEvent, build_trigger_event,
}
use ai_investment_manager.Scheduling.Plan.{ScheduledWakeup, TriggerPlan}
use ai_investment_manager.Scheduling.Timing.{trigger_plan_accepts, trigger_reconsideration}
use ai_investment_manager.Scheduling.Batch.{TriggerBatch, comes_before}

pub record Settings : Type 0 where
  pub maximum_batch_size : ℕ
  pub maximum_pending_triggers : ℕ
  pub retry_maximum_seconds : ℕ
  pub analysis_deadline_seconds : ℕ
  pub trigger_expiry_seconds : ℕ

-- What `workflow.patched` answers for the three changes of the workflow's history.
pub record Patches : Type 0 where
  pub immediate_initial_heartbeat : Bool
  pub durable_heartbeat : Bool
  pub pending_expiry_wakeup : Bool

-- A set has each of its elements once, in no order that matters.
pub record Coordinator : Type 0 where
  pub plan : Option TriggerPlan
  pub pending : Dict TriggerEvent
  pub prestart_triggers : Dict TriggerEvent
  pub seen : List ℕ
  pub seen_order : List ℕ
  pub consumed_wakeups : List ℕ
  pub signal_sequence : ℕ
  pub last_analysis_at : Option Time
  pub completed_batches : ℕ
  pub failed_batches : ℕ
  pub unresolved_failure : Bool
  pub stopping : Bool
  pub last_batch_id : Option ℕ
  pub active_batch_id : Option ℕ
  pub frozen_retry_batch : Option TriggerBatch
  pub input_retry_not_before : Option Time
  pub next_reconsider_at : Option Time

pub data Message : Type 0 where
  plan_revised : TriggerPlan → Message
  trigger_created : TriggerEvent → Message
  malformed : Message

-- `set.add`, `set.discard`
abbrev pub add : ℕ → List ℕ → List ℕ
add a xs = if contains a xs then xs else a ∷ xs

abbrev pub discard : ℕ → List ℕ → List ℕ
discard a xs = select (λ x. not (x == a)) xs

-- The memory of triggers after the oldest has left it.
abbrev pub forget_oldest : List ℕ → Coordinator → Coordinator
forget_oldest [] c = c
forget_oldest (oldest ∷ order) c = record c { seen = discard oldest c.seen; seen_order = order }

abbrev pub remembered : ℕ → Coordinator → Coordinator
remembered id c = record c { seen = add id c.seen; seen_order = c.seen_order ++ id ∷ [] }

unfoldable pub remember : ℕ → Coordinator → Coordinator
remember id c =
    if ltb 5000 (length (remembered id c).seen_order)
    then forget_oldest (remembered id c).seen_order (remembered id c)
    else remembered id c

abbrev pub in_scope : TriggerPlan → TriggerEvent → Bool
in_scope plan e =
    e.symbol == plan.symbol && e.pipeline_id == plan.pipeline_id && trigger_plan_accepts plan e

-- `self._signal_sequence += 1`
abbrev pub signaled : Coordinator → Coordinator
signaled c = record c { signal_sequence = suc c.signal_sequence }

abbrev pub make_pending : TriggerEvent → Coordinator → Coordinator
make_pending e c = record c { pending = put e.trigger_id e c.pending }

unfoldable pub accept_trigger : TriggerPlan → TriggerEvent → Coordinator → Coordinator
accept_trigger plan e c =
    if contains e.trigger_id c.seen
    then c
    else if not (in_scope plan e)
    then c
    else signaled (make_pending e (remember e.trigger_id c))

abbrev pub revision_of : Option TriggerPlan → ℕ
revision_of none = 0
revision_of (some plan) = plan.revision

unfoldable pub deliver_trigger : Option TriggerPlan → TriggerEvent → Coordinator → Coordinator
deliver_trigger none e c =
    signaled (record c { prestart_triggers = put e.trigger_id e c.prestart_triggers })
deliver_trigger (some plan) e c = accept_trigger plan e c

unfoldable pub deliver : Message → Coordinator → Coordinator
deliver (plan_revised plan) c =
    if ltb (revision_of c.plan) plan.revision then signaled (record c { plan = some plan }) else c
deliver (trigger_created e) c =
    if contains e.trigger_id c.seen || has_key e.trigger_id c.prestart_triggers
    then c
    else deliver_trigger c.plan e c
deliver malformed c = c

abbrev pub stop : Coordinator → Coordinator
stop c = signaled (record c { stopping = true })

-- ===== src/Scheduling/Coordinator/Pending.antt =====
-- scheduling/workflows.py: what a turn of the coordinator discards, trims and selects, and how a batch
-- that fails is dropped.
use ai_investment_manager.Prelude.{
  ℕ, ◌+◌, ◌-◌, ◌/◌, suc, min, Bool, true, false, not, ◌&&◌, ◌||◌, Option, none, some, List, [], ◌∷◌,
  ◌++◌, map, select, contains, take, length, ltb, leb, if◌then◌else◌, Result, ok, ◌>>=◌,
}
use ai_investment_manager.Prelude.Dict.{Dict, has_key, remove, values, index_by}
use ai_investment_manager.Prelude.Sorting.{sorted}
use ai_investment_manager.Kernel.{StableId, Time, seconds}
use ai_investment_manager.Scheduling.Event.{
  Error, agent_wakeup, heartbeat, is_type, TriggerEvent, build_trigger_event,
}
use ai_investment_manager.Scheduling.Plan.{ScheduledWakeup, TriggerPlan}
use ai_investment_manager.Scheduling.Batch.{TriggerBatch, comes_before}
use ai_investment_manager.Scheduling.Coordinator.{
  Settings, Patches, Coordinator, add, make_pending, remember,
}

-- `_discard_expired`: the triggers of a frozen batch are protected.
abbrev pub protected : Option TriggerBatch → List ℕ
protected none = []
protected (some b) = map (λ e. e.trigger_id) b.triggers

abbrev pub unexpired : Time → Option Time → Bool
unexpired now none = true
unexpired now (some t) = ltb now t

unfoldable pub discard_expired : Time → Coordinator → Coordinator
discard_expired now c = record c {
  pending =
      select (λ e. contains e.0 (protected c.frozen_retry_batch) || unexpired now e.1.expires_at)
        c.pending;
}

-- `text` ranks the texts of two instants.
module _ (text : Time → ℕ) (settings : Settings) where
  unfoldable pub trim_pending : Coordinator → Coordinator
  trim_pending c =
      if leb (length c.pending) settings.maximum_pending_triggers then c else record c {
        pending =
            index_by (λ e. e.trigger_id) []
              (take settings.maximum_pending_triggers
                (sorted (comes_before text) (values c.pending)));
      }

  abbrev pub unpaused : TriggerPlan → TriggerEvent → Bool
  unpaused plan e = not plan.ai_paused || is_type e.trigger_type agent_wakeup

  unfoldable pub eligible_pending : TriggerPlan → Coordinator → List TriggerEvent
  eligible_pending plan c = sorted (comes_before text) (select (unpaused plan) (values c.pending))

-- `for item in ids: self._pending.pop(item, None)`
unfoldable pub drop_all : List TriggerEvent → Dict TriggerEvent → Dict TriggerEvent
drop_all [] pending = pending
drop_all (e ∷ es) pending = drop_all es (remove e.trigger_id pending)

unfoldable pub fail_batch : TriggerBatch → Time → Coordinator → Coordinator
fail_batch b failed_at c = record c {
  pending = drop_all b.triggers c.pending;
  last_batch_id = some b.batch_id;
  failed_batches = suc c.failed_batches;
  unresolved_failure = true;
  last_analysis_at = some failed_at;
  active_batch_id = none;
  frozen_retry_batch = none;
  input_retry_not_before = none;
  next_reconsider_at = none;
}

-- `joined a b` is the text f"{a}:{b}" of two parts.
module _ (stable_id : StableId) (joined : ℕ → ℕ → ℕ) (settings : Settings) (patches : Patches) where
  abbrev pub wakeup_key : ScheduledWakeup → ℕ
  wakeup_key w = joined w.wakeup_id w.wake_at

  abbrev pub wakeup_event : TriggerPlan → Time → ScheduledWakeup → TriggerEvent
  wakeup_event plan now w = record {
    trigger_id = 0;
    trigger_type = agent_wakeup;
    symbol = plan.symbol;
    pipeline_id = plan.pipeline_id;
    occurred_at = w.wake_at;
    observed_at = now;
    priority = 90;
    dedup_key = wakeup_key w;
    evidence_ids = w.evidence_ids;
    affected_symbols = [];
    material_forecast_eligible = false;
    review_reason = some w.reason;
    expires_at = some w.expires_at;
    plan_revision = some plan.revision;
  }

  abbrev pub remember_pending : TriggerEvent → Coordinator → Coordinator
  remember_pending e c = make_pending e (remember e.trigger_id c)

  -- The loop over the wakeups of the plan.
  unfoldable pub enqueue_wakeups :
      TriggerPlan → Time → List ScheduledWakeup → Coordinator → Result Error Coordinator
  enqueue_wakeups plan now [] c = ok c
  enqueue_wakeups plan now (w ∷ ws) c =
      let consumed : Coordinator = record c {
        consumed_wakeups = add (wakeup_key w) c.consumed_wakeups;
      } in
      if contains (wakeup_key w) c.consumed_wakeups || ltb now w.wake_at
      then enqueue_wakeups plan now ws c
      else if leb w.expires_at now
      then enqueue_wakeups plan now ws consumed
      else build_trigger_event stable_id (wakeup_event plan now w) >>= λ e.
          enqueue_wakeups plan now ws (remember_pending e consumed)

  -- An instant is not before the interval of the heartbeat.
  unfoldable pub heartbeat_anchor : Option Time → Time → ℕ → Time
  heartbeat_anchor (some last) started_at interval = last
  heartbeat_anchor none started_at interval =
      if patches.immediate_initial_heartbeat then started_at - seconds interval else started_at

  abbrev pub heartbeat_event : TriggerPlan → Time → Time → ℕ → TriggerEvent
  heartbeat_event plan now anchor interval = record {
    trigger_id = 0;
    trigger_type = heartbeat;
    symbol = plan.symbol;
    pipeline_id = plan.pipeline_id;
    occurred_at = anchor + seconds interval;
    observed_at = now;
    priority = 10;
    dedup_key = joined (anchor / 1000000) interval;
    evidence_ids = [];
    affected_symbols = [];
    material_forecast_eligible = false;
    review_reason = none;
    expires_at =
        if patches.durable_heartbeat
        then none
        else some (now + seconds settings.trigger_expiry_seconds);
    plan_revision = some plan.revision;
  }

  -- A heartbeat that was seen before is pending again only where heartbeats are durable.
  unfoldable pub add_heartbeat : TriggerEvent → Coordinator → Coordinator
  add_heartbeat e c =
      let unseen = not (contains e.trigger_id c.seen) in
      let known = if unseen then remember e.trigger_id c else c in
      if not (has_key e.trigger_id c.pending) && (patches.durable_heartbeat || unseen)
      then make_pending e known
      else known

  unfoldable pub enqueue_heartbeat :
      TriggerPlan → Time → Time → Option ℕ → Coordinator → Result Error Coordinator
  enqueue_heartbeat plan now started_at none c = ok c
  enqueue_heartbeat plan now started_at (some interval) c =
      let anchor = heartbeat_anchor c.last_analysis_at started_at interval in
      if leb (anchor + seconds interval) now
      then (build_trigger_event stable_id (heartbeat_event plan now anchor interval) >>= λ e.
          ok (add_heartbeat e c))
      else ok c

  unfoldable pub enqueue_due : TriggerPlan → Time → Time → Coordinator → Result Error Coordinator
  enqueue_due plan now started_at c =
      if plan.ai_paused
      then ok c
      else enqueue_wakeups plan now plan.scheduled_wakeups c >>= λ d.
          enqueue_heartbeat plan now started_at plan.heartbeat_seconds d

  -- The candidates of `_next_timer_delay`.
  unfoldable pub due_times : TriggerPlan → Time → Coordinator → List Time
  due_times plan started_at c =
      map (λ w. w.wake_at)
        (select (λ w. not (contains (wakeup_key w) c.consumed_wakeups)) plan.scheduled_wakeups)
      ++ elim plan.heartbeat_seconds [
        | none ↦ []
        | some interval ↦
            elim c.last_analysis_at [
              | none ↦ started_at + seconds interval
              | some last ↦ last + seconds interval
            ]
            ∷ []
      ]

  -- `timedelta(days=1)`, and the time to the first candidate, at least zero.
  unfoldable pub delay_to : Time → List Time → Time
  delay_to now [] = seconds 86400
  delay_to now (t ∷ []) = t - now
  delay_to now (t ∷ u ∷ ts) = min (t - now) (delay_to now (u ∷ ts))

  unfoldable pub next_timer_delay : TriggerPlan → Time → Time → Coordinator → Time
  next_timer_delay plan now started_at c =
      if plan.ai_paused then seconds 86400 else delay_to now (due_times plan started_at c)

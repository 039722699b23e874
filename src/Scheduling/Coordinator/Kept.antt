-- ===== src/Scheduling/Coordinator/Kept.antt =====
-- What signals and the preparation of a turn keep: the batch in hand, and a bound of the memory.
use ai_investment_manager.Prelude.{
  ℕ, ◌+◌, ◌≤◌, ◌<◌, ◌≡◌, refl, ◌∙◌, Bool, true, false, not, ◌&&◌, ◌||◌, Option, none, some, List,
  [], ◌∷◌, ◌++◌, contains, length, length-append, ltb, leb, Bool-cases, inl, inr, Result, ok, ◌>>=◌,
  after_ok, ok-injective, if◌then◌else◌, arith,
}
use ai_investment_manager.Prelude.Dict.{has_key}
use ai_investment_manager.Kernel.{StableId, Time, seconds}
use ai_investment_manager.Scheduling.Event.{Error, TriggerEvent, build_trigger_event}
use ai_investment_manager.Scheduling.Plan.{ScheduledWakeup, TriggerPlan}
use ai_investment_manager.Scheduling.Coordinator.{
  Settings, Patches, Coordinator, Message, plan_revised, trigger_created, malformed, forget_oldest,
  remembered, remember, in_scope, revision_of, accept_trigger, deliver_trigger, deliver,
  make_pending, add,
}
use ai_investment_manager.Scheduling.Coordinator.Pending.{
  discard_expired, trim_pending, enqueue_wakeups, add_heartbeat, enqueue_heartbeat, enqueue_due,
  wakeup_event, wakeup_key, remember_pending, heartbeat_anchor, heartbeat_event,
}
use ai_investment_manager.Scheduling.Coordinator.Loop.{enqueue_planned, prepare}

pub record Kept (c d : Coordinator) : Type 0 where
  pub active : d.active_batch_id ≡ c.active_batch_id
  pub frozen : d.frozen_retry_batch ≡ c.frozen_retry_batch
  pub bounded : (n : ℕ) → 5000 ≤ n → length c.seen_order ≤ n → length d.seen_order ≤ n

pub Kept-refl : (c : Coordinator) → Kept c c
Kept-refl c = record { active = refl; frozen = refl; bounded = λ n m h. h }

pub Kept-trans : {c d e : Coordinator} → Kept c d → Kept d e → Kept c e
Kept-trans h k = record {
  active = k.active ∙ h.active;
  frozen = k.frozen ∙ h.frozen;
  bounded = λ n m b. k.bounded n m (h.bounded n m b);
}

forget_oldest-Kept :
    (order : List ℕ) (c d : Coordinator)
    → d.active_batch_id ≡ c.active_batch_id
    → d.frozen_retry_batch ≡ c.frozen_retry_batch
    → length order ≤ length c.seen_order + 1
    → 5000 < length order
    → Kept c (forget_oldest order d)
forget_oldest-Kept [] c d a f h k = ground arith
forget_oldest-Kept (oldest ∷ order) c d a f h k = record {
  active = a;
  frozen = f;
  bounded = λ n m b. ground arith;
}

remember-Kept : (id : ℕ) (c : Coordinator) → Kept c (remember id c)
unfolding remember
remember-Kept id c =
    let longer = length-append c.seen_order (id ∷ []) in
    elim (Bool-cases (ltb 5000 (length (c.seen_order ++ id ∷ [])))) [
      | inl e ↦ rw e (
          forget_oldest-Kept (c.seen_order ++ id ∷ []) c (remembered id c) refl refl
            (omega (arith, longer)) (ground arith))
      | inr e ↦ rw e record { active = refl; frozen = refl; bounded = λ n m b. ground arith }
    ]

pub accept_trigger-Kept :
    (plan : TriggerPlan) (e : TriggerEvent) (c : Coordinator) → Kept c (accept_trigger plan e c)
unfolding accept_trigger
accept_trigger-Kept plan e c = elim (Bool-cases (contains e.trigger_id c.seen)) [
  | inl h ↦ rw h (Kept-refl c)
  | inr h ↦ elim (Bool-cases (in_scope plan e)) [
    | inl k ↦
        let r = remember-Kept e.trigger_id c in
        rw (h, k) record { active = r.active; frozen = r.frozen; bounded = r.bounded }
    | inr k ↦ rw (h, k) (Kept-refl c)
  ]
]

deliver_trigger-Kept :
    (plan : Option TriggerPlan) (e : TriggerEvent) (c : Coordinator)
    → Kept c (deliver_trigger plan e c)
unfolding deliver_trigger
deliver_trigger-Kept none e c = record { active = refl; frozen = refl; bounded = λ n m b. b }
deliver_trigger-Kept (some plan) e c = accept_trigger-Kept plan e c

pub deliver-Kept : (m : Message) (c : Coordinator) → Kept c (deliver m c)
unfolding deliver
deliver-Kept (plan_revised plan) c = elim (Bool-cases (ltb (revision_of c.plan) plan.revision)) [
  | inl h ↦ rw h record { active = refl; frozen = refl; bounded = λ n m b. b }
  | inr h ↦ rw h (Kept-refl c)
]
deliver-Kept (trigger_created e) c =
    elim (Bool-cases (contains e.trigger_id c.seen || has_key e.trigger_id c.prestart_triggers)) [
      | inl h ↦ rw h (Kept-refl c)
      | inr h ↦ rw h (deliver_trigger-Kept c.plan e c)
    ]
deliver-Kept malformed c = Kept-refl c

remember_if-Kept :
    (test : Bool) (id : ℕ) (c : Coordinator) → Kept c (if test then remember id c else c)
remember_if-Kept true id c = remember-Kept id c
remember_if-Kept false id c = Kept-refl c

unless_paused-Kept :
    (paused : Bool) (call : Result Error Coordinator) {c d : Coordinator}
    → (if paused then ok c else call) ≡ ok d
    → (call ≡ ok d → Kept c d)
    → Kept c d
unless_paused-Kept true call {c} h k = rw (← ok-injective h) (Kept-refl c)
unless_paused-Kept false call h k = k h

make_pending_if-Kept :
    (test : Bool) (e : TriggerEvent) {c d : Coordinator}
    → Kept c d
    → Kept c (if test then make_pending e d else d)
make_pending_if-Kept true e k = record { active = k.active; frozen = k.frozen; bounded = k.bounded }
make_pending_if-Kept false e k = k

module _ (stable_id : StableId) (joined : ℕ → ℕ → ℕ) (settings : Settings) (patches : Patches) where
  enqueue_wakeups-Kept :
      (plan : TriggerPlan) (now : Time) (ws : List ScheduledWakeup) (c : Coordinator)
      {d : Coordinator}
      → enqueue_wakeups stable_id joined settings patches plan now ws c ≡ ok d
      → Kept c d
  unfolding enqueue_wakeups
  enqueue_wakeups-Kept plan now [] c h = rw (← ok-injective h) (Kept-refl c)
  enqueue_wakeups-Kept plan now (w ∷ ws) c {d} h =
      let key = wakeup_key stable_id joined settings patches w in
      let consumed : Coordinator = record c { consumed_wakeups = add key c.consumed_wakeups } in
      let kept : Kept c consumed = record { active = refl; frozen = refl; bounded = λ n m b. b } in
      elim (Bool-cases (contains key c.consumed_wakeups || ltb now w.wake_at)) [
        | inl e ↦
            let h' : enqueue_wakeups stable_id joined settings patches plan now ws c ≡ ok d =
              rw e at h in
            enqueue_wakeups-Kept plan now ws c h'
        | inr e ↦ elim (Bool-cases (leb w.expires_at now)) [
          | inl x ↦
              let h' : enqueue_wakeups stable_id joined settings patches plan now ws consumed
                  ≡ ok d =
                rw (e, x) at h in
              Kept-trans kept (enqueue_wakeups-Kept plan now ws consumed h')
          | inr x ↦
              let event = wakeup_event stable_id joined settings patches plan now w in
              let h' : (build_trigger_event stable_id event >>= λ t.
              enqueue_wakeups stable_id joined settings patches plan now ws
                (remember_pending stable_id joined settings patches t consumed))
                  ≡ ok d =
                rw (e, x) at h in
              after_ok (build_trigger_event stable_id event) _ h' λ t _ k.
                let r = remember-Kept t.trigger_id consumed in
                let added : Kept consumed
                    (remember_pending stable_id joined settings patches t consumed) =
                  record { active = r.active; frozen = r.frozen; bounded = r.bounded } in
                Kept-trans kept (Kept-trans added (enqueue_wakeups-Kept plan now ws _ k))
        ]
      ]

  add_heartbeat-Kept :
      (e : TriggerEvent) (c : Coordinator)
      → Kept c (add_heartbeat stable_id joined settings patches e c)
  unfolding add_heartbeat
  add_heartbeat-Kept e c =
      make_pending_if-Kept
        (not (has_key e.trigger_id c.pending)
          && (patches.durable_heartbeat || not (contains e.trigger_id c.seen)))
        e (remember_if-Kept (not (contains e.trigger_id c.seen)) e.trigger_id c)

  enqueue_heartbeat-Kept :
      (plan : TriggerPlan) (now started_at : Time) (interval : Option ℕ) (c : Coordinator)
      {d : Coordinator}
      → enqueue_heartbeat stable_id joined settings patches plan now started_at interval c ≡ ok d
      → Kept c d
  unfolding enqueue_heartbeat
  enqueue_heartbeat-Kept plan now started_at none c h = rw (← ok-injective h) (Kept-refl c)
  enqueue_heartbeat-Kept plan now started_at (some n) c {d} h =
      let anchor =
        heartbeat_anchor stable_id joined settings patches c.last_analysis_at started_at n in
      let event = heartbeat_event stable_id joined settings patches plan now anchor n in
      elim (Bool-cases (leb (anchor + seconds n) now)) [
        | inl e ↦
            let h' : (build_trigger_event stable_id event >>= λ t.
            ok (add_heartbeat stable_id joined settings patches t c))
                ≡ ok d =
              rw e at h in
            after_ok (build_trigger_event stable_id event) _ h'
              λ t _ k. rw (← ok-injective k) (add_heartbeat-Kept t c)
        | inr e ↦ let h' : ok c ≡ ok d = rw e at h in rw (← ok-injective h') (Kept-refl c)
      ]

  enqueue_due-Kept :
      (plan : TriggerPlan) (now started_at : Time) (c : Coordinator) {d : Coordinator}
      → enqueue_due stable_id joined settings patches plan now started_at c ≡ ok d
      → Kept c d
  unfolding enqueue_due
  enqueue_due-Kept plan now started_at c h = unless_paused-Kept plan.ai_paused _ h λ k.
      after_ok (enqueue_wakeups stable_id joined settings patches plan now plan.scheduled_wakeups c)
        _ k
        λ x a l.
          Kept-trans (enqueue_wakeups-Kept plan now plan.scheduled_wakeups c a)
            (enqueue_heartbeat-Kept plan now started_at plan.heartbeat_seconds x l)

  module _ (text : Time → ℕ) (started_at : Time) where
    trim_pending-Kept : (c : Coordinator) → Kept c (trim_pending text settings c)
    unfolding trim_pending
    trim_pending-Kept c =
        elim (Bool-cases (leb (length c.pending) settings.maximum_pending_triggers)) [
          | inl e ↦ rw e (Kept-refl c)
          | inr e ↦ rw e record { active = refl; frozen = refl; bounded = λ n m b. b }
        ]

    discard_expired-Kept : (now : Time) (c : Coordinator) → Kept c (discard_expired now c)
    unfolding discard_expired
    discard_expired-Kept now c = record { active = refl; frozen = refl; bounded = λ n m b. b }

    enqueue_planned-Kept :
        (plan : Option TriggerPlan) (now : Time) (c : Coordinator) {d : Coordinator}
        → enqueue_planned text stable_id joined settings patches started_at plan now c ≡ ok d
        → Kept c d
    enqueue_planned-Kept none now c h = rw (← ok-injective h) (Kept-refl c)
    enqueue_planned-Kept (some plan) now c h = enqueue_due-Kept plan now started_at c h

    pub prepare-Kept :
        (now : Time) (c : Coordinator) {d : Coordinator}
        → prepare text stable_id joined settings patches started_at now c ≡ ok d
        → Kept c d
    unfolding prepare
    prepare-Kept now c h =
        after_ok (enqueue_planned text stable_id joined settings patches started_at c.plan now c) _
          h
          λ x a k. rw (← ok-injective k) (
            Kept-trans (enqueue_planned-Kept c.plan now c a) (
              Kept-trans (trim_pending-Kept x)
                (discard_expired-Kept now (trim_pending text settings x))))

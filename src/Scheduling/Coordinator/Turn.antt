-- ===== src/Scheduling/Coordinator/Turn.antt =====
-- One turn of the coordinator's loop: what is pending, which batch it starts, and the end of a
-- frozen one.
use ai_investment_manager.Prelude.{
  ℕ, suc, ◌+◌, ◌≤◌, ◌≡◌, refl, ap, ◌∙◌, Bool, true, false, ◌||◌, Option, none, some, List, [], ◌∷◌,
  contains, select, take, length, length-take, length-select, leb, ◌==◌, Bool-cases, inl, inr,
  if◌then◌else◌, ok, ◌>>=◌, after_ok, ok-injective, arith, All, All-map, All-select, All-Unit,
}
use ai_investment_manager.Prelude.Dict.{
  Dict, get, put, remove, values, index_by, HasUniqueKeys, get-remove_self, get-remove_ne,
  remove-HasUniqueKeys,
}
use ai_investment_manager.Prelude.Sorting.{sorted}
use ai_investment_manager.Kernel.{StableId, Time}
use ai_investment_manager.Scheduling.Event.{TriggerEvent}
use ai_investment_manager.Scheduling.Batch.{TriggerBatch, comes_before}
use ai_investment_manager.Scheduling.Coordinator.{Settings, Patches, Coordinator}
use ai_investment_manager.Scheduling.Coordinator.Pending.{
  drop_all, fail_batch, trim_pending, discard_expired, protected, unexpired,
}
use ai_investment_manager.Scheduling.Coordinator.Loop.{
  idle, stopped, enqueue_planned, prepare, retry_frozen, consider, wake,
}

-- The triggers of a batch leave what is pending, and no other does.
abbrev pub is_member : ℕ → List TriggerEvent → Bool
is_member id [] = false
is_member id (e ∷ es) = id == e.trigger_id || is_member id es

either_none : (test : Bool) (o : Option TriggerEvent) → o ≡ none → (if test then none else o) ≡ none
either_none true o h = refl
either_none false o h = h

get-drop_all :
    (id : ℕ) (es : List TriggerEvent) (pending : Dict TriggerEvent)
    → HasUniqueKeys pending
    → get id (drop_all es pending) ≡ (if is_member id es then none else get id pending)
unfolding drop_all
get-drop_all id [] pending u = refl
get-drop_all id (e ∷ es) pending u =
    let later =
      get-drop_all id es (remove e.trigger_id pending)
        (remove-HasUniqueKeys e.trigger_id pending u) in
    elim (Bool-cases (id == e.trigger_id)) [
      | inl h ↦
          let i : id ≡ e.trigger_id = ground arith in
          let n : get id (remove e.trigger_id pending) ≡ none =
            rw i (get-remove_self e.trigger_id pending u) in
          rw h (later ∙ either_none (is_member id es) _ n)
      | inr h ↦
          let r = get-remove_ne id e.trigger_id pending (λ k. ground arith) in rw (h, ← r) later
    ]

length-put :
    (k : ℕ) (e : TriggerEvent) (d : Dict TriggerEvent) → length (put k e d) ≤ suc (length d)
unfolding put
length-put k e [] = omega arith
length-put k e (u ∷ d) = ground (arith, length-put k e d)

length-index_by :
    (es : List TriggerEvent) (d : Dict TriggerEvent)
    → length (index_by (λ e. e.trigger_id) d es) ≤ length d + length es
unfolding index_by
length-index_by [] d = omega arith
length-index_by (e ∷ es) d =
    omega (arith, length-put e.trigger_id e d, length-index_by es (put e.trigger_id e d))

module _ (text : Time → ℕ) (settings : Settings) where
  trim_pending-length :
      (c : Coordinator)
      → length (trim_pending text settings c).pending ≤ settings.maximum_pending_triggers
  unfolding trim_pending
  trim_pending-length c =
      elim (Bool-cases (leb (length c.pending) settings.maximum_pending_triggers)) [
        | inl e ↦ rw e (ground arith)
        | inr e ↦
            let first =
              take settings.maximum_pending_triggers
                (sorted (comes_before text) (values c.pending)) in
            rw e (
              omega (
                arith,
                length-index_by first [],
                length-take settings.maximum_pending_triggers
                    (sorted (comes_before text) (values c.pending)),
              ))
      ]

-- Whether a trigger may stay: it is in force, or its batch is frozen.
abbrev pub MayStay : Time → Coordinator → ℕ × TriggerEvent → Type 0
MayStay now c e =
    contains e.0 (protected c.frozen_retry_batch) || unexpired now e.1.expires_at ≡ true

module _ (text : Time → ℕ) (stable_id : StableId) (joined : ℕ → ℕ → ℕ) (settings : Settings)
    (patches : Patches) (started_at : Time) where
  -- When a turn has been prepared, no more triggers are pending than the settings allow, and each of
  -- them is in force or belongs to the frozen batch.
  pub prepare-pending :
      (now : Time) (c d : Coordinator)
      → prepare text stable_id joined settings patches started_at now c ≡ ok d
      → (length d.pending ≤ settings.maximum_pending_triggers) × All (MayStay now d) d.pending
  unfolding prepare discard_expired
  prepare-pending now c d h =
      after_ok (enqueue_planned text stable_id joined settings patches started_at c.plan now c) _ h
        λ x _ k.
          let trimmed = trim_pending text settings x in
          let stays = λ (e : ℕ × TriggerEvent).
            contains e.0 (protected trimmed.frozen_retry_batch) || unexpired now e.1.expires_at in
          rw (← ok-injective k) (
            omega (arith, length-select stays trimmed.pending, trim_pending-length text settings x),
            All-map (λ e k. k.1) (select stays trimmed.pending)
                (All-select (λ _. Unit) stays trimmed.pending (All-Unit trimmed.pending)),
          )

  consider-deadline :
      (b : TriggerBatch) (now : Time) (d : Coordinator)
      → b.deadline ≤ now
      → consider text stable_id joined settings patches started_at (some b) now d
        ≡ ok (fail_batch b now d, idle)
  unfolding consider retry_frozen
  consider-deadline b now d l = let late : leb b.deadline now ≡ true = ground arith in rw late refl

  -- Where it does not stop, a turn considers what it has prepared.
  pub wake-considers :
      (now : Time) (c d : Coordinator)
      → c.stopping ≡ false
      → prepare text stable_id joined settings patches started_at now c ≡ ok d
      → wake text stable_id joined settings patches started_at now c
        ≡ consider text stable_id joined settings patches started_at d.frozen_retry_batch now d
  unfolding wake
  wake-considers now c d s p =
      let follow = λ (x : Coordinator).
        consider text stable_id joined settings patches started_at x.frozen_retry_batch now x in
      let call = prepare text stable_id joined settings patches started_at now c >>= follow in
      ap (λ stopping. if stopping then ok (c, stopped) else call) s ∙ ap (λ r. r >>= follow) p

  -- A frozen batch does not outlive its deadline: the first turn at that instant or later fails it.
  -- It is no longer frozen or active then, it counts as a failure that is not resolved, none of its
  -- triggers is pending any more, and what else was pending still is.
  pub wake-deadline :
      (now : Time) (c d : Coordinator) (b : TriggerBatch)
      → c.stopping ≡ false
      → prepare text stable_id joined settings patches started_at now c ≡ ok d
      → d.frozen_retry_batch ≡ some b
      → b.deadline ≤ now
      → HasUniqueKeys d.pending
      → (let failed = fail_batch b now d in
          (wake text stable_id joined settings patches started_at now c ≡ ok (failed, idle))
          × (failed.frozen_retry_batch ≡ none)
          × (failed.active_batch_id ≡ none)
          × (failed.failed_batches ≡ suc d.failed_batches)
          × (failed.unresolved_failure ≡ true)
          × ((id : ℕ)
              → get id failed.pending
                ≡ (if is_member id b.triggers then none else get id d.pending)))
  unfolding fail_batch
  wake-deadline now c d b s p f l u = (
    wake-considers now c d s p
        ∙ ap (λ frozen. consider text stable_id joined settings patches started_at frozen now d) f
        ∙ consider-deadline b now d l,
    refl,
    refl,
    refl,
    refl,
    λ id. get-drop_all id b.triggers d.pending u,
  )

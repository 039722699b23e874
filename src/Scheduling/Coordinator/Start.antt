-- ===== src/Scheduling/Coordinator/Start.antt =====
-- The batch that a turn starts.
use ai_investment_manager.Prelude.{
  ℕ, ◌+◌, ◌≤◌, ◌≡◌, refl, sym, ap, ◌∙◌, Bool, true, false, Option, none, some, List, is_nonempty,
  ltb, Bool-cases, inl, inr, if◌then◌else◌, Result, ok, after_ok, ok-injective, arith, subst,
}
use mathlib.Core.Option.{some-injective}
use ai_investment_manager.Scheduling.Coordinator.Turn.{wake-considers}
use ai_investment_manager.Prelude.Sorting.{sorted}
use ai_investment_manager.Kernel.{StableId, Time, seconds}
use ai_investment_manager.Scheduling.Event.{Error, TriggerEvent}
use ai_investment_manager.Scheduling.Plan.{TriggerPlan}
use ai_investment_manager.Scheduling.Timing.{trigger_reconsideration}
use ai_investment_manager.Scheduling.Batch.{
  TriggerBatch, select_trigger_batch_members, checked_batch, build_trigger_batch, id_before,
}
use ai_investment_manager.Scheduling.Batch.Members.{
  IsSelection, select_trigger_batch_members-IsSelection,
}
use ai_investment_manager.Scheduling.Coordinator.{Settings, Patches, Coordinator}
use ai_investment_manager.Scheduling.Coordinator.Pending.{eligible_pending}
use ai_investment_manager.Scheduling.Coordinator.Loop.{
  Phase, idle, building, Machine, prepare, start_batch, select_batch, consider_planned, consider,
  wake,
}

-- The batch that a phase builds.
abbrev building_of : Phase → Option TriggerBatch
building_of (building b) = some b
building_of _ = none

-- What a new batch is: it is started once the triggers that are eligible are due, it takes a
-- selection of them, and its deadline is the settings' one from now.
pub record IsStarted (text : Time → ℕ) (settings : Settings) (patches : Patches)
    (plan : TriggerPlan) (now : Time) (c : Coordinator) (b : TriggerBatch) : Type 0 where
  pub due_at : Time
  pub due :
      trigger_reconsideration plan
        (eligible_pending text settings plan c)
        now
        c.last_analysis_at
        c.input_retry_not_before
        patches.pending_expiry_wakeup
      ≡ ok due_at
  pub is_due : due_at ≤ now
  pub selected : List TriggerEvent
  pub selection :
      IsSelection (eligible_pending text settings plan c) settings.maximum_batch_size selected
  pub members : b.triggers ≡ sorted id_before (sorted id_before selected)
  pub created : b.created_at ≡ now
  pub deadline : b.deadline ≡ now + seconds settings.analysis_deadline_seconds

checked_batch-same :
    (stable_id : StableId) (b : TriggerBatch) {q : TriggerBatch}
    → checked_batch stable_id b ≡ ok q
    → b ≡ q
unfolding checked_batch
checked_batch-same stable_id b h = ground arith

-- An answer that does not build is not one that builds.
if_builds :
    {A : Type 0} (test : Bool) (c : Coordinator) (call : Result Error Machine) {next : Coordinator}
    {b : TriggerBatch}
    → (if test then ok (c, idle) else call) ≡ ok (next, building b)
    → ((test ≡ false) → (call ≡ ok (next, building b)) → A)
    → A
if_builds true c call h k =
    let e = ap (λ m. building_of m.1) (ok-injective h) in let f : none ≡ some _ = e in cc
if_builds false c call h k = k refl h

module _ (text : Time → ℕ) (stable_id : StableId) (joined : ℕ → ℕ → ℕ) (settings : Settings)
    (patches : Patches) (started_at : Time) where
  -- The members of a batch that is started.
  record Selected (plan : TriggerPlan) (now : Time) (candidates : List TriggerEvent)
      (next : Coordinator) (b : TriggerBatch) : Type 0 where
    taken : List TriggerEvent
    selection : IsSelection candidates settings.maximum_batch_size taken
    members : b.triggers ≡ sorted id_before (sorted id_before taken)
    created : b.created_at ≡ now
    deadline : b.deadline ≡ now + seconds settings.analysis_deadline_seconds
    active : next.active_batch_id ≡ some b.batch_id

  start_batch-Selected :
      (plan : TriggerPlan) (now : Time) (candidates : List TriggerEvent) (c next : Coordinator)
      (b : TriggerBatch)
      → 1 ≤ settings.maximum_batch_size
      → start_batch text stable_id joined settings patches started_at plan now candidates c
        ≡ ok (next, building b)
      → Selected plan now candidates next b
  unfolding start_batch build_trigger_batch
  start_batch-Selected plan now candidates c next b pos h =
      after_ok (select_trigger_batch_members text candidates settings.maximum_batch_size) _ h
        λ selected e k.
          after_ok
            (build_trigger_batch stable_id plan (sorted id_before selected) now
              (now + seconds settings.analysis_deadline_seconds))
            _ k
            λ batch f m.
              let (taken, g, s) =
                select_trigger_batch_members-IsSelection text candidates settings.maximum_batch_size
                  pos in
              let is_built = some-injective _ _ (ap (λ x. building_of x.1) (ok-injective m)) in
              let same = checked_batch-same stable_id _ f ∙ is_built in
              record {
                taken = selected;
                selection =
                    subst (IsSelection candidates settings.maximum_batch_size)
                      (ok-injective (sym g ∙ e)) s;
                members = sym (ap (λ x. x.triggers) same);
                created = sym (ap (λ x. x.created_at) same);
                deadline = sym (ap (λ x. x.deadline) same);
                active =
                    sym (ap (λ x. x.0.active_batch_id) (ok-injective m))
                    ∙ ap (λ x. some x.batch_id) is_built;
              }

  select_batch-IsStarted :
      (plan : TriggerPlan) (now : Time) (c next : Coordinator) (b : TriggerBatch)
      → 1 ≤ settings.maximum_batch_size
      → select_batch text stable_id joined settings patches started_at plan now
          (eligible_pending text settings plan c)
          c
        ≡ ok (next, building b)
      → IsStarted text settings patches plan now c b × (next.active_batch_id ≡ some b.batch_id)
  unfolding select_batch
  select_batch-IsStarted plan now c next b pos h =
      let candidates = eligible_pending text settings plan c in
      after_ok
        (trigger_reconsideration plan candidates now c.last_analysis_at c.input_retry_not_before
          patches.pending_expiry_wakeup)
        _ h
        λ at e k.
          if_builds (ltb now at) (record c { next_reconsider_at = some at }) _ k
            λ late m.
              let s = start_batch-Selected plan now candidates c next b pos m in
              (
                record {
                  due_at = at;
                  due = e;
                  is_due = ground arith;
                  selected = s.taken;
                  selection = s.selection;
                  members = s.members;
                  created = s.created;
                  deadline = s.deadline;
                },
                s.active,
              )

  consider_planned-builds :
      (plan : TriggerPlan) (now : Time) (c next : Coordinator) (b : TriggerBatch)
      → consider_planned text stable_id joined settings patches started_at (some plan) now c
        ≡ ok (next, building b)
      → select_batch text stable_id joined settings patches started_at plan now
          (eligible_pending text settings plan c)
          c
        ≡ ok (next, building b)
  unfolding consider_planned
  consider_planned-builds plan now c next b h =
      elim (Bool-cases (is_nonempty (eligible_pending text settings plan c))) [
        | inl e ↦ rw e at h
        | inr e ↦
            let h' : ok (record c { next_reconsider_at = none }, idle) ≡ ok (next, building b) =
              rw e at h in
            let f : none ≡ some b = ap (λ x. building_of x.1) (ok-injective h') in cc
      ]

  consider_unfrozen :
      (c : Coordinator) (now : Time)
      → consider text stable_id joined settings patches started_at none now c
        ≡ consider_planned text stable_id joined settings patches started_at c.plan now c
  unfolding consider
  consider_unfrozen c now = refl

  -- A turn without a frozen batch starts a batch only once the eligible triggers are due. The batch
  -- takes a selection of them: no more than the settings allow, not none, and nothing that it leaves
  -- has a higher priority than what it takes. It is the active batch, and its deadline is the
  -- settings' one from now.
  pub wake-IsStarted :
      (now : Time) (c d next : Coordinator) (plan : TriggerPlan) (b : TriggerBatch)
      → 1 ≤ settings.maximum_batch_size
      → c.stopping ≡ false
      → prepare text stable_id joined settings patches started_at now c ≡ ok d
      → d.frozen_retry_batch ≡ none
      → d.plan ≡ some plan
      → wake text stable_id joined settings patches started_at now c ≡ ok (next, building b)
      → IsStarted text settings patches plan now d b × (next.active_batch_id ≡ some b.batch_id)
  wake-IsStarted now c d next plan b pos s p f q h = select_batch-IsStarted plan now d next b pos (
      consider_planned-builds plan now d next b (
        ap (λ x. consider_planned text stable_id joined settings patches started_at x now d) (sym q)
        ∙ sym (consider_unfrozen d now)
        ∙ ap (λ x. consider text stable_id joined settings patches started_at x now d) (sym f)
        ∙ sym (wake-considers text stable_id joined settings patches started_at now c d s p)
        ∙ h))

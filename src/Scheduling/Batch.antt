-- ===== src/Scheduling/Batch.antt =====
-- scheduling/models.py: the members of a trigger batch, and its constructor.
pub mod Members
use ai_investment_manager.Prelude.{
  ℕ, suc, Bool, true, false, not, ◌&&◌, ◌||◌, List, [], ◌∷◌, ◌++◌, map, any, select, take, length,
  ltb, leb, ◌==◌, same, if◌then◌else◌, Result, ok, err, raise_if, ◌>>=◌, ◌>>◌,
}
use ai_investment_manager.Prelude.Sorting.{sorted}
use ai_investment_manager.Kernel.{StableId, Time, trigger_batch}
use ai_investment_manager.Scheduling.Event.{
  Error, field_constraint, batch_size, batch_deadline, batch_unsorted, batch_scope, bad_batch_id,
  TriggerEvent,
}
use ai_investment_manager.Scheduling.Plan.{TriggerPlan}

abbrev pub is_urgent : TriggerEvent → Bool
is_urgent e = e.priority == 100

-- With a trigger of the highest priority in front, only such triggers.
urgent_only : List TriggerEvent → List TriggerEvent
urgent_only [] = []
urgent_only (e ∷ es) = if is_urgent e then select is_urgent (e ∷ es) else e ∷ es

-- `-priority`, then the two texts, on priorities of at most 100. How an instant is written, and so
-- how the texts of two instants compare, is the serialiser's affair: `text` ranks them.
module _ (text : Time → ℕ) where
  abbrev pub comes_before : TriggerEvent → TriggerEvent → Bool
  comes_before a b =
      ltb b.priority a.priority
      || a.priority == b.priority
        && (ltb (text a.observed_at) (text b.observed_at)
            || text a.observed_at == text b.observed_at && ltb a.trigger_id b.trigger_id)

  unfoldable pub select_trigger_batch_members :
      List TriggerEvent → ℕ → Result Error (List TriggerEvent)
  unfolding urgent_only
  select_trigger_batch_members pending maximum_batch_size = do
    raise_if (ltb maximum_batch_size 1) batch_size
    ok (take maximum_batch_size (urgent_only (sorted comes_before pending)))

pub record TriggerBatch : Type 0 where
  pub batch_id : ℕ
  pub symbol : ℕ
  pub pipeline_id : ℕ
  pub plan_revision : ℕ
  pub created_at : Time
  pub deadline : Time
  pub triggers : List TriggerEvent

abbrev pub id_before : TriggerEvent → TriggerEvent → Bool
id_before a b = ltb a.trigger_id b.trigger_id

abbrev pub ids : List TriggerEvent → List ℕ
ids = map (λ e. e.trigger_id)

module _ (stable_id : StableId) where
  unfoldable pub batch_identity : ℕ → ℕ → ℕ → List TriggerEvent → Time → ℕ
  batch_identity symbol pipeline_id revision triggers deadline =
      stable_id trigger_batch (symbol ∷ pipeline_id ∷ revision ∷ (ids triggers ++ deadline ∷ []))

  -- The constructor of `TriggerBatch`. Events with one identity are one event, so the order test
  -- compares identities.
  unfoldable pub checked_batch : TriggerBatch → Result Error TriggerBatch
  unfolding batch_identity
  checked_batch b = do
    raise_if
        (not (leb 1 b.plan_revision && leb 1 (length b.triggers) && leb (length b.triggers) 1000))
        field_constraint
    raise_if (leb b.deadline b.created_at) batch_deadline
    raise_if (not (same (ids b.triggers) (ids (sorted id_before b.triggers)))) batch_unsorted
    raise_if
        (any (λ e. not (e.symbol == b.symbol) || not (e.pipeline_id == b.pipeline_id)) b.triggers)
        batch_scope
    raise_if
        (not (
          b.batch_id
          == batch_identity b.symbol b.pipeline_id b.plan_revision b.triggers b.deadline))
        bad_batch_id
    ok b

  unfoldable pub build_trigger_batch :
      TriggerPlan → List TriggerEvent → Time → Time → Result Error TriggerBatch
  unfolding checked_batch
  build_trigger_batch plan triggers created_at deadline =
      let ordered = sorted id_before triggers in
      checked_batch (record {
        batch_id = batch_identity plan.symbol plan.pipeline_id plan.revision ordered deadline;
        symbol = plan.symbol;
        pipeline_id = plan.pipeline_id;
        plan_revision = plan.revision;
        created_at = created_at;
        deadline = deadline;
        triggers = ordered;
      })

-- ===== src/Scheduling/Event.antt =====
-- scheduling/models.py: the trigger event, its validators and `build_trigger_event`.
use ai_investment_manager.Prelude.{
  ℕ, Bool, true, false, not, ◌&&◌, Option, none, some, List, [], ◌∷◌, length, is_nonempty, dedup,
  is_unique, same, ltb, leb, ◌==◌, is_some, Result, ok, raise_if, ◌>>◌,
}
use mathlib.Core.Bool.{xor}
use ai_investment_manager.Prelude.Sorting.{sorted}
use ai_investment_manager.Kernel.{StableId, Time, analysis_trigger}

pub data Error : Type 0 where
  field_constraint observed_early expired_early bad_trigger_id duplicate_evidence : Error
  unsorted_symbols material_without_evidence material_wrong_type reason_wrong_type : Error
  reason_mismatch bad_plan_id duplicate_rule duplicate_level duplicate_wakeup : Error
  wrong_plan stale_revision wrong_manifest future_patch : Error
  wakeup_with_evidence wakeup_not_future wakeup_exists wakeup_missing rule_missing : Error
  too_many_wakeups too_many_rules heartbeat_too_short duplicate_request calls_too_close : Error
  clock_skew nothing_pending batch_size batch_deadline batch_unsorted : Error
  batch_scope bad_batch_id : Error

pub data TriggerType : Type 0 where
  canonical_fact_revised intelligence_inserted market_shock position_recheck : TriggerType
  agent_wakeup heartbeat forecast_slot_due forecast_event_due world_model_updated : TriggerType

-- `trigger_type.value`, as a number.
abbrev pub value : TriggerType → ℕ
value canonical_fact_revised = 0
value intelligence_inserted = 1
value market_shock = 2
value position_recheck = 3
value agent_wakeup = 4
value heartbeat = 5
value forecast_slot_due = 6
value forecast_event_due = 7
value world_model_updated = 8

abbrev pub is_type : TriggerType → TriggerType → Bool
is_type a b = value a == value b

pub record TriggerEvent : Type 0 where
  pub trigger_id : ℕ
  pub trigger_type : TriggerType
  pub symbol : ℕ
  pub pipeline_id : ℕ
  pub occurred_at : Time
  pub observed_at : Time
  pub priority : ℕ
  pub dedup_key : ℕ
  pub evidence_ids : List ℕ
  pub affected_symbols : List ℕ
  pub material_forecast_eligible : Bool
  pub review_reason : Option ℕ
  pub expires_at : Option Time
  pub plan_revision : Option ℕ

-- The bounds that the fields declare; lengths of texts are not modelled.
fields_fit : TriggerEvent → Bool
fields_fit e =
    leb e.priority 100
    && leb (length e.evidence_ids) 100
    && leb (length e.affected_symbols) 100
    && elim e.plan_revision [ none ↦ true | some r ↦ leb 1 r ]

expires_early : Option Time → Time → Bool
expires_early none observed = false
expires_early (some t) observed = leb t observed

-- `set` and `sorted` on identities
abbrev pub canonical : List ℕ → List ℕ
canonical xs = sorted ltb (dedup xs)

abbrev pub is_material_type : TriggerType → Bool
is_material_type canonical_fact_revised = true
is_material_type intelligence_inserted = true
is_material_type _ = false

module _ (stable_id : StableId) where
  pub trigger_identity : TriggerType → ℕ → ℕ → ℕ → ℕ
  trigger_identity type symbol pipeline_id dedup_key =
      stable_id analysis_trigger (value type ∷ symbol ∷ pipeline_id ∷ dedup_key ∷ [])

  -- The constructor of `AnalysisTriggerEvent`: the fields' bounds, then the model's validator.
  unfoldable pub checked_event : TriggerEvent → Result Error TriggerEvent
  unfolding trigger_identity fields_fit expires_early
  checked_event e = do
    raise_if (not (fields_fit e)) field_constraint
    raise_if (ltb e.observed_at e.occurred_at) observed_early
    raise_if (expires_early e.expires_at e.observed_at) expired_early
    raise_if
        (not (e.trigger_id == trigger_identity e.trigger_type e.symbol e.pipeline_id e.dedup_key))
        bad_trigger_id
    raise_if (not (is_unique e.evidence_ids)) duplicate_evidence
    raise_if (not (same (canonical e.affected_symbols) e.affected_symbols)) unsorted_symbols
    raise_if (e.material_forecast_eligible && not (is_nonempty e.evidence_ids))
        material_without_evidence
    raise_if (e.material_forecast_eligible && not (is_material_type e.trigger_type))
        material_wrong_type
    raise_if (not (is_type e.trigger_type agent_wakeup) && is_some e.review_reason)
        reason_wrong_type
    ok e

  -- `build_trigger_event`, on the fields that its caller gives: the identity is computed, and the
  -- lists are normalised.
  unfoldable pub build_trigger_event : TriggerEvent → Result Error TriggerEvent
  unfolding checked_event
  build_trigger_event e = do
    raise_if (xor (is_some e.review_reason) (is_type e.trigger_type agent_wakeup)) reason_mismatch
    checked_event (record e {
      trigger_id = trigger_identity e.trigger_type e.symbol e.pipeline_id e.dedup_key;
      evidence_ids = sorted ltb e.evidence_ids;
      affected_symbols = canonical e.affected_symbols;
    })

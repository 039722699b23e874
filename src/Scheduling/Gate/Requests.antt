-- ===== src/Scheduling/Gate/Requests.antt =====
-- The triggers that a patch emits, and the order of the revised plan.
use mathlib.Core.List.{append-nil, append_assoc}
use ai_investment_manager.Prelude.Sorting.{sorted}
use ai_investment_manager.Prelude.{
  Matched, ℕ, ◌+◌, ◌≡◌, some, List, [], ◌∷◌, ◌++◌, ok, >>=-eq-ok, sym, ap, ◌∙◌, Matched-append, ltb,
  arith,
}
use ai_investment_manager.Kernel.{StableId, Time, seconds}
use ai_investment_manager.Scheduling.Event.{
  agent_wakeup, TriggerEvent, trigger_identity, build_trigger_event,
}
use ai_investment_manager.Scheduling.Plan.{TriggerPlan}
use ai_investment_manager.Scheduling.Gate.{
  Operation, add_wakeup, update_wakeup, delete_wakeup, trigger_now, upsert_event_rule,
  delete_event_rule, set_ai_paused, set_heartbeat, TriggerPlanPatch, TriggerPolicy, ApplyResult,
  Draft, requested_event, initial_draft, apply_operation, apply_operations, apply,
}
use ai_investment_manager.Scheduling.Gate.Inversion.{apply-Applied}

-- What a request gives: its identity, its reason and its evidence.
abbrev pub Request : Type 0
Request = ℕ × ℕ × List ℕ

abbrev pub requested_by : Operation → List Request
requested_by (trigger_now request reason evidence) = (request, reason, evidence) ∷ []
requested_by _ = []

-- The requests of a patch, in order.
abbrev pub requests : List Operation → List Request
requests [] = []
requests (op ∷ ops) = requested_by op ++ requests ops

module _ (stable_id : StableId) (policy : TriggerPolicy) where
  -- A review that the plan asks for at once, in force until the policy's expiry, for the revision
  -- that the patch creates, with what the request gives.
  pub record IsRequested (current : TriggerPlan) (patch : TriggerPlanPatch) (now : Time)
      (request : Request) (e : TriggerEvent) : Type 0 where
    pub type : e.trigger_type ≡ agent_wakeup
    pub priority : e.priority ≡ 100
    pub scope : (e.symbol ≡ current.symbol) × (e.pipeline_id ≡ current.pipeline_id)
    pub occurred : e.occurred_at ≡ patch.submitted_at
    pub observed : e.observed_at ≡ now
    pub expires : e.expires_at ≡ some (now + seconds policy.trigger_expiry_seconds)
    pub revision : e.plan_revision ≡ some (current.revision + 1)
    pub reason : e.review_reason ≡ some request.1
    pub evidence : e.evidence_ids ≡ sorted ltb request.2
    pub key : e.dedup_key ≡ request.0
    pub identity :
        e.trigger_id
        ≡ trigger_identity stable_id agent_wakeup current.symbol current.pipeline_id request.0

  build-IsRequested :
      (current : TriggerPlan) (patch : TriggerPlanPatch) (now : Time) (request reason : ℕ)
      (evidence : List ℕ) {e : TriggerEvent}
      → build_trigger_event stable_id
          (requested_event policy current patch now request reason evidence)
        ≡ ok e
      → IsRequested current patch now (request, reason, evidence) e
  unfolding build_trigger_event requested_event
  build-IsRequested current patch now request reason evidence h = ground arith

  module _ (current : TriggerPlan) (patch : TriggerPlanPatch) (now : Time) where
    -- What operations add to the emitted triggers.
    abbrev pub Emits : List Request → Draft → Draft → Type 0
    Emits asked d d' =
        (events : List TriggerEvent) × (d'.emitted ≡ d.emitted ++ events)
        × Matched (IsRequested current patch now) asked events

    same-Emits : (d d' : Draft) → d'.emitted ≡ d.emitted → Emits [] d d'
    same-Emits d d' h = ([], h ∙ sym (append-nil d.emitted), tt)

    operation-Emits :
        (op : Operation) (d : Draft) {d' : Draft}
        → apply_operation stable_id policy current patch now op d ≡ ok d'
        → Emits (requested_by op) d d'
    unfolding apply_operation
    operation-Emits (trigger_now request reason evidence) d {d'} e =
        let (event, built, same) =
          >>=-eq-ok
            (build_trigger_event stable_id
              (requested_event policy current patch now request reason evidence))
            _ e in
        let requested = build-IsRequested current patch now request reason evidence built in
        (event ∷ [], ground (arith, same), (requested, tt))
    operation-Emits (add_wakeup w) d {d'} e = same-Emits d d' (ground arith)
    operation-Emits (update_wakeup w) d {d'} e = same-Emits d d' (ground arith)
    operation-Emits (delete_wakeup w) d {d'} e = same-Emits d d' (ground arith)
    operation-Emits (upsert_event_rule w) d {d'} e = same-Emits d d' (ground arith)
    operation-Emits (delete_event_rule w) d {d'} e = same-Emits d d' (ground arith)
    operation-Emits (set_ai_paused w) d {d'} e = same-Emits d d' (ground arith)
    operation-Emits (set_heartbeat w) d {d'} e = same-Emits d d' (ground arith)

    operations-Emits :
        (ops : List Operation) (d : Draft) {d' : Draft}
        → apply_operations stable_id policy current patch now ops d ≡ ok d'
        → Emits (requests ops) d d'
    unfolding apply_operations
    operations-Emits [] d {d'} e = same-Emits d d' (ground arith)
    operations-Emits (op ∷ ops) d {d'} e =
        let (d1, first, rest) =
          >>=-eq-ok (apply_operation stable_id policy current patch now op d) _ e in
        let a = operation-Emits op d first in
        let b = operations-Emits ops d1 rest in
        (
          a.0 ++ b.0,
          b.1 ∙ ap (λ xs. xs ++ b.0) a.1 ∙ append_assoc d.emitted a.0 b.0,
          Matched-append (IsRequested current patch now) (requested_by op) (requests ops) a.0 b.0
              a.2 b.2,
        )

    -- An accepted patch emits one trigger for each of its requests, in their order: an immediate
    -- review of the plan's own scope, with the highest priority, observed now, expiring after the
    -- policy's period, for the next revision, with the key, the reason and the evidence of its
    -- request, and with the identity that the key of the request determines in the scope.
    pub apply-IsRequested :
        (manifest : ℕ) {r : ApplyResult}
        → apply stable_id policy current patch now manifest ≡ ok r
        → Matched (IsRequested current patch now) (requests patch.operations) r.emitted_triggers
    unfolding initial_draft
    apply-IsRequested manifest h =
        let a = apply-Applied stable_id policy current patch now manifest h in
        let m = operations-Emits patch.operations (initial_draft current) a.ran in
        rw (a.emitted, m.1) m.2

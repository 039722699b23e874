-- ===== src/Scheduling/Coordinator/Delivery.antt =====
-- A message of the outbox may be delivered more than once.
use ai_investment_manager.Prelude.{
  ℕ, ◌<◌, ◌≡◌, refl, sym, ap, ◌∙◌, Bool, true, false, ◌||◌, Option, none, some, List, [], ◌∷◌, ◌++◌,
  contains, length, ltb, Bool-cases, ◌⊎◌, inl, inr, arith,
}
use ai_investment_manager.Prelude.Sets.{contains-select}
use ai_investment_manager.Prelude.Dict.{has_key, get-put}
use ai_investment_manager.Scheduling.Event.{TriggerEvent}
use ai_investment_manager.Scheduling.Plan.{TriggerPlan}
use ai_investment_manager.Scheduling.Coordinator.{
  Coordinator, Message, plan_revised, trigger_created, malformed, add, forget_oldest, remembered,
  remember, in_scope, accept_trigger, deliver_trigger, deliver, revision_of,
}

contains-add : (id : ℕ) (xs : List ℕ) → contains id (add id xs) ≡ true
contains-add id xs = ground arith

-- Forgetting the oldest does not forget the newest, which is not among the earlier ones.
forget_oldest_keeps :
    (id : ℕ) (order : List ℕ) (c : Coordinator)
    → contains id order ≡ false
    → contains id c.seen ≡ true
    → contains id (forget_oldest order c).seen ≡ true
forget_oldest_keeps id [] c n h = h
forget_oldest_keeps id (oldest ∷ order) c n h =
    contains-select id oldest c.seen (λ e. ground arith) ∙ h

forget_oldest_longer :
    (id : ℕ) (order : List ℕ) (c : Coordinator)
    → 5000 < length (order ++ id ∷ [])
    → contains id order ≡ false
    → contains id c.seen ≡ true
    → contains id (forget_oldest (order ++ id ∷ []) c).seen ≡ true
forget_oldest_longer id [] c l n h = ground arith
forget_oldest_longer id (oldest ∷ order) c l n h =
    contains-select id oldest c.seen (λ e. ground arith) ∙ h

remember-seen :
    (id : ℕ) (c : Coordinator)
    → contains id c.seen_order ≡ false
    → contains id (remember id c).seen ≡ true
unfolding remember
remember-seen id c n = elim (Bool-cases (ltb 5000 (length (remembered id c).seen_order))) [
  | inl e ↦ rw e (
      forget_oldest_longer id c.seen_order (remembered id c) (ground arith) n
        (contains-add id c.seen))
  | inr e ↦ rw e (contains-add id c.seen)
]

-- A trigger is seen if it is in the order of the seen ones.
abbrev pub IsRemembered : TriggerEvent → Coordinator → Type 0
IsRemembered e c = contains e.trigger_id c.seen ≡ false → contains e.trigger_id c.seen_order ≡ false

-- Whether the coordinator knows a trigger.
abbrev is_known : TriggerEvent → Coordinator → Bool
is_known e c = contains e.trigger_id c.seen || has_key e.trigger_id c.prestart_triggers

-- A trigger that is delivered is known afterwards, or has changed nothing.
accept_trigger_settled :
    (plan : TriggerPlan) (e : TriggerEvent) (c : Coordinator)
    → contains e.trigger_id c.seen ≡ false
    → IsRemembered e c
    → (accept_trigger plan e c ≡ c) ⊎ (contains e.trigger_id (accept_trigger plan e c).seen ≡ true)
unfolding accept_trigger
accept_trigger_settled plan e c n m = elim (Bool-cases (in_scope plan e)) [
  | inl s ↦ inr (rw (n, s) (remember-seen e.trigger_id c (m n)))
  | inr s ↦ inl (rw (n, s) refl)
]

deliver_trigger_settled :
    (plan : Option TriggerPlan) (e : TriggerEvent) (c : Coordinator)
    → contains e.trigger_id c.seen ≡ false
    → IsRemembered e c
    → (deliver_trigger plan e c ≡ c) ⊎ (is_known e (deliver_trigger plan e c) ≡ true)
unfolding deliver_trigger
deliver_trigger_settled none e c n m =
    let g = get-put e.trigger_id e.trigger_id e c.prestart_triggers in inr (ground arith)
deliver_trigger_settled (some plan) e c n m = elim (accept_trigger_settled plan e c n m) [
  | inl h ↦ inl h
  | inr h ↦ inr (rw h refl)
]

deliver_known :
    (e : TriggerEvent) (c : Coordinator) → is_known e c ≡ true → deliver (trigger_created e) c ≡ c
unfolding deliver
deliver_known e c h = rw h refl

deliver_new :
    (e : TriggerEvent) (c : Coordinator)
    → is_known e c ≡ false
    → deliver (trigger_created e) c ≡ deliver_trigger c.plan e c
unfolding deliver
deliver_new e c h = rw h refl

unseen_of_new : (seen prestart : Bool) → seen || prestart ≡ false → seen ≡ false
unseen_of_new seen prestart h = ground arith

trigger_idempotent :
    (e : TriggerEvent) (c : Coordinator)
    → IsRemembered e c
    → deliver (trigger_created e) (deliver (trigger_created e) c) ≡ deliver (trigger_created e) c
trigger_idempotent e c m = elim (Bool-cases (is_known e c)) [
  | inl h ↦ ap (deliver (trigger_created e)) (deliver_known e c h)
  | inr h ↦
      let n = deliver_new e c h in
      let unseen =
        unseen_of_new (contains e.trigger_id c.seen) (has_key e.trigger_id c.prestart_triggers) h in
      elim (deliver_trigger_settled c.plan e c unseen m) [
        | inl s ↦ ap (deliver (trigger_created e)) (n ∙ s)
        | inr s ↦
            ap (deliver (trigger_created e)) n
            ∙ deliver_known e (deliver_trigger c.plan e c) s
            ∙ sym n
      ]
]

-- The outbox may deliver a message again: the second delivery of a plan or of a trigger changes
-- nothing, where the triggers that are not seen are not in the order of the seen ones.
pub deliver_idempotent :
    (m : Message) (c : Coordinator)
    → ((e : TriggerEvent) → IsRemembered e c)
    → deliver m (deliver m c) ≡ deliver m c
unfolding deliver
deliver_idempotent (plan_revised plan) c k =
    elim (Bool-cases (ltb (revision_of c.plan) plan.revision)) [
      | inl e ↦ let n : ltb plan.revision plan.revision ≡ false = ground arith in rw (e, n) refl
      | inr e ↦ rw (e, e) refl
    ]
deliver_idempotent (trigger_created e) c k = trigger_idempotent e c (k e)
deliver_idempotent malformed c k = refl

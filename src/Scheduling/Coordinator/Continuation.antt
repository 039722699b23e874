-- ===== src/Scheduling/Coordinator/Continuation.antt =====
-- `continue_as_new`: the next run of the workflow starts in the state that the last one has left.
use ai_investment_manager.Prelude.{
  ℕ, ◌≡◌, ◌≢◌, refl, ap, sym, ◌∙◌, false, not, none, some, List, [], ◌∷◌, ◌++◌, contains, select,
  ltb, ◌==◌, arith, All, Pairs,
}
use ai_investment_manager.Prelude.Sets.{contains-dedup, contains-sorted}
use ai_investment_manager.Prelude.Sorting.{sorted}
use ai_investment_manager.Prelude.Dict.{values}
use ai_investment_manager.Scheduling.Plan.{TriggerPlan}
use ai_investment_manager.Scheduling.Coordinator.{Coordinator}
use ai_investment_manager.Scheduling.Coordinator.Loop.{
  first_of_each, continued_state, continued_request, accept_all, begin, begin_run,
}

select_others : (x : ℕ) (ys : List ℕ) → All (λ y. x ≢ y) ys → select (λ y. not (y == x)) ys ≡ ys
select_others x [] h = refl
select_others x (y ∷ ys) h =
    let d : y == x ≡ false = ground arith in rw (d, select_others x ys h.1) refl

first_of_each_unique : (xs : List ℕ) → Pairs ◌≢◌ xs → first_of_each xs ≡ xs
unfolding first_of_each
first_of_each_unique [] h = refl
first_of_each_unique (x ∷ xs) h = rw (first_of_each_unique xs h.1, select_others x xs h.0) refl

append_nil : (xs : List ℕ) → xs ++ [] ≡ xs
append_nil [] = refl
append_nil (x ∷ xs) = ap (λ ys. x ∷ ys) (append_nil xs)

-- The coordinator of a workflow that starts, to which no signal has come.
abbrev pub fresh : Coordinator
fresh = record {
  plan = none;
  pending = [];
  prestart_triggers = [];
  seen = [];
  seen_order = [];
  consumed_wakeups = [];
  signal_sequence = 0;
  last_analysis_at = none;
  completed_batches = 0;
  failed_batches = 0;
  unresolved_failure = false;
  stopping = false;
  last_batch_id = none;
  active_batch_id = none;
  frozen_retry_batch = none;
  input_retry_not_before = none;
  next_reconsider_at = none;
}

-- What a run hands to the next one: the fields are the same, the sets have the same elements, and
-- the triggers that are seen are those in their order.
pub record IsResumed (c d : Coordinator) : Type 0 where
  pub plan_kept : d.plan ≡ c.plan
  pub last_analysis : d.last_analysis_at ≡ c.last_analysis_at
  pub completed : d.completed_batches ≡ c.completed_batches
  pub failed : d.failed_batches ≡ c.failed_batches
  pub unresolved : d.unresolved_failure ≡ c.unresolved_failure
  pub order : d.seen_order ≡ c.seen_order
  pub seen : (id : ℕ) → contains id d.seen ≡ contains id c.seen_order
  pub consumed : (key : ℕ) → contains key d.consumed_wakeups ≡ contains key c.consumed_wakeups
  pub nothing_pending : d.pending ≡ []

-- A workflow that has a plan and is continued as a new one starts with what the last run has left:
-- the plan, the last analysis, the counts, the unresolved failure, the order of the seen triggers and
-- with it the set of them, and the consumed wakeups, where no trigger stands twice in the order.
pub begin_run-IsResumed :
    (c : Coordinator) (plan : TriggerPlan)
    → c.plan ≡ some plan
    → Pairs ◌≢◌ c.seen_order
    → (d : Coordinator) × (begin_run (continued_request c) fresh ≡ some d) × IsResumed c d
unfolding begin_run continued_request begin continued_state accept_all values
begin_run-IsResumed c plan p u =
    let same : first_of_each (c.seen_order ++ []) ≡ c.seen_order =
      ap first_of_each (append_nil c.seen_order) ∙ first_of_each_unique c.seen_order u in
    let next = begin plan (continued_state c) fresh in
    (
      next,
      rw p refl,
      record {
        plan_kept = sym p;
        last_analysis = refl;
        completed = refl;
        failed = refl;
        unresolved = refl;
        order = same;
        seen = λ id. ap (contains id) same;
        consumed = λ key.
            contains-dedup key (sorted ltb c.consumed_wakeups)
            ∙ contains-sorted ltb key c.consumed_wakeups;
        nothing_pending = refl;
      },
    )

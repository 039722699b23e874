-- ===== src/Execution/Store.antt =====
-- execution/group/repository.py: the store of the groups, on the rows of its tables.
pub mod Saving
pub mod Progression
pub mod Exclusive
use ai_investment_manager.Prelude.{
  ℕ, suc, ◌+◌, Bool, true, false, not, ◌&&◌, ◌||◌, Option, none, some, List, [], ◌∷◌, ◌++◌, map,
  any, ltb, leb, ◌==◌, is_some, if◌then◌else◌, Result, err, ok, raise_if, ◌>>◌, ◌>>=◌,
}
use ai_investment_manager.Prelude.Dict.{Dict, get, index_by}
use ai_investment_manager.Kernel.{StableId, Time}
use ai_investment_manager.Execution.Leg.{
  Error, missing_row, group_missing, group_conflict, sleeve_active, integrity, not_initial,
  revision_step, concurrent_update, contract_changed, time_backwards, bad_transition,
  fill_decreased, venue_order_changed, observed_backwards, terminal_changed, terminal,
  same_contract, same_leg, ExecutionLeg,
}
use ai_investment_manager.Execution.Effect.{Effect}
use ai_investment_manager.Execution.Group.{
  ExecutionGroup, GroupStatus, executing, recovering, compensating, hedged, flat, group_terminal,
  same_group,
}
use ai_investment_manager.Execution.NewGroup.{PlannedTradeGroup, new_execution_group}

-- What the store reads of a `TradePlan`.
pub record TradePlan : Type 0 where
  pub plan_id : ℕ
  pub groups : List PlannedTradeGroup

-- The rows of `trade_plans` and `execution_groups`.
pub record Tables : Type 0 where
  pub trade_plans : List TradePlan
  pub execution_groups : List ExecutionGroup

-- `next((x for x in xs if test(x)), None)`
abbrev pub find {ℓ} : {A : Type ℓ} → (A → Bool) → List A → Option A
find test [] = none
find test (x ∷ xs) = let later = find test xs in if test x then some x else later

-- `group`: a payload that is read passes its constructor again; the rows are taken to hold groups
-- that do, as the hypotheses on a first group say.
unfoldable pub group : ℕ → Tables → Option ExecutionGroup
group group_id t = find (λ g. g.group_id == group_id) t.execution_groups

unfoldable pub active_for_sleeve : ℕ → Tables → Option ExecutionGroup
active_for_sleeve sleeve_id t =
    find (λ g. g.sleeve_id == sleeve_id && not (group_terminal g.status)) t.execution_groups

abbrev pub changed_from : Option ℕ → Option ℕ → Bool
changed_from none observed = false
changed_from (some a) none = true
changed_from (some a) (some b) = not (a == b)

abbrev pub earlier : Option Time → Option Time → Bool
earlier (some before) (some after) = ltb after before
earlier _ _ = false

-- `_validate_leg_progress`
unfoldable pub check_leg_progress : ExecutionLeg → ExecutionLeg → Result Error Unit
check_leg_progress previous observed = do
  raise_if (ltb observed.filled_quantity previous.filled_quantity) fill_decreased
  raise_if (changed_from previous.venue_order_id observed.venue_order_id) venue_order_changed
  raise_if (earlier previous.observed_at observed.observed_at) observed_backwards
  raise_if (terminal previous.status && not (same_leg observed previous)) terminal_changed

-- The table `allowed`.
unfoldable pub allowed : GroupStatus → GroupStatus → Bool
allowed executing flat = false
allowed executing _ = true
allowed recovering flat = false
allowed recovering _ = true
allowed compensating compensating = true
allowed compensating flat = true
allowed _ _ = false

abbrev pub frozen : ExecutionGroup → ExecutionGroup → Bool
frozen a b =
    a.group_id == b.group_id
    && a.plan_id == b.plan_id
    && a.approved_target_id == b.approved_target_id
    && a.cycle_id == b.cycle_id
    && a.sleeve_id == b.sleeve_id
    && a.valid_until == b.valid_until
    && a.maximum_unhedged_notional == b.maximum_unhedged_notional
    && a.maximum_unhedged_seconds == b.maximum_unhedged_seconds
    && a.started_at == b.started_at

-- The comparison of the contracts, as tuples.
unfoldable pub same_contracts : List ExecutionLeg → List ExecutionLeg → Bool
same_contracts [] [] = true
same_contracts (a ∷ xs) (b ∷ ys) = same_contract a b && same_contracts xs ys
same_contracts _ _ = false

-- The loop over the pairs of target legs.
unfoldable pub check_targets : List ExecutionLeg → List ExecutionLeg → Result Error Unit
check_targets (a ∷ xs) (b ∷ ys) = check_leg_progress a b >> check_targets xs ys
check_targets _ _ = ok tt

-- The step of the loop over the compensations that the row has.
abbrev pub check_kept : ExecutionLeg → Option ExecutionLeg → Result Error Unit
check_kept previous none = err contract_changed
check_kept previous (some observed) = do
  raise_if (not (same_contract observed previous)) contract_changed
  check_leg_progress previous observed

unfoldable pub check_compensations_kept : List ExecutionLeg → Dict ExecutionLeg → Result Error Unit
check_compensations_kept [] updated = ok tt
check_compensations_kept (previous ∷ legs) updated =
    check_kept previous (get previous.execution_leg_id updated)
    >> check_compensations_kept legs updated

-- `_validate_transition`
unfoldable pub check_transition : ExecutionGroup → ExecutionGroup → Result Error Unit
unfolding check_targets check_compensations_kept
check_transition current updated = do
  raise_if (not (frozen current updated)) contract_changed
  raise_if (ltb updated.updated_at current.updated_at) time_backwards
  raise_if (not (same_contracts current.target_legs updated.target_legs)) contract_changed
  check_targets current.target_legs updated.target_legs
  check_compensations_kept current.compensation_legs
      (index_by (λ leg. leg.execution_leg_id) [] updated.compensation_legs)
  raise_if (not (allowed current.status updated.status)) bad_transition

abbrev pub is_current : ExecutionGroup → ℕ → ExecutionGroup → Bool
is_current g expected row = row.group_id == g.group_id && row.revision == expected

-- `UPDATE ... WHERE group_id = ... AND revision = ...`
unfoldable pub update_rows : ExecutionGroup → ℕ → List ExecutionGroup → List ExecutionGroup
update_rows g expected [] = []
update_rows g expected (row ∷ rows) =
    let rest = update_rows g expected rows in (if is_current g expected row then g else row) ∷ rest

-- The part of `save` after its checks: the update, and the second read where it met no row.
unfoldable pub commit : ExecutionGroup → ℕ → Effect Tables Bool
unfolding update_rows group
commit g expected t =
    if any (is_current g expected) t.execution_groups
    then (ok true, record t { execution_groups = update_rows g expected t.execution_groups })
    else elim (group g.group_id t) [
      | none ↦ (err concurrent_update, t)
      | some row ↦ if same_group row g then (ok false, t) else (err concurrent_update, t)
    ]

-- The part of `save` before the update: whether there is anything to write.
unfoldable pub needs_save : ExecutionGroup → ℕ → Tables → Result Error Bool
unfolding check_transition group
needs_save g expected t = do
  raise_if (not (g.revision == expected + 1)) revision_step
  elim (group g.group_id t) [
    | none ↦ err group_missing
    | some current ↦
        if same_group current g then ok false else (check_transition current g >> ok true)
  ]

unfoldable pub write_if_needed : ExecutionGroup → ℕ → Result Error Bool → Effect Tables Bool
unfolding commit
write_if_needed g expected (err e) t = (err e, t)
write_if_needed g expected (ok false) t = (ok false, t)
write_if_needed g expected (ok true) t = commit g expected t

unfoldable pub save : ExecutionGroup → ℕ → Effect Tables Bool
unfolding needs_save write_if_needed
save g expected t = write_if_needed g expected (needs_save g expected t) t

-- The unique key of plan and sleeve.
abbrev pub same_plan : ExecutionGroup → ExecutionGroup → Bool
same_plan g row = row.plan_id == g.plan_id && row.sleeve_id == g.sleeve_id

module _ (digest : StableId) where
  -- `_validate_initial_group`
  unfoldable pub check_initial : ExecutionGroup → Tables → Result Error Unit
  unfolding new_execution_group
  check_initial g t = elim (find (λ p. p.plan_id == g.plan_id) t.trade_plans) [
    | none ↦ err missing_row
    | some plan ↦ elim (find (λ p. p.group_id == g.group_id) plan.groups) [
      | none ↦ err missing_row
      | some planned ↦ do
        expected ← new_execution_group digest plan.plan_id planned g.started_at
        raise_if (not (same_group expected g)) not_initial
    ]
  ]

  -- `record`: a row with the same identity, an active one of the same sleeve, or one of the same
  -- plan and sleeve refuses the insert.
  unfoldable pub record_group : ExecutionGroup → Effect Tables Bool
  unfolding check_initial group active_for_sleeve
  record_group g t = elim (raise_if (not (g.revision == 0)) not_initial >> check_initial g t) [
    | err e ↦ (err e, t)
    | ok done ↦ elim (group g.group_id t) [
      | some row ↦ if same_group row g then (ok false, t) else (err group_conflict, t)
      | none ↦ elim (active_for_sleeve g.sleeve_id t) [
        | some active ↦ (err sleeve_active, t)
        | none ↦
            if any (same_plan g) t.execution_groups
            then (err integrity, t)
            else (ok true, record t { execution_groups = t.execution_groups ++ g ∷ [] })
      ]
    ]
  ]

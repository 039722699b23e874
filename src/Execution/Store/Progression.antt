-- ===== src/Execution/Store/Progression.antt =====
-- What `save` lets through.
use ai_investment_manager.Prelude.{
  Matched, ℕ, ◌≡◌, refl, ◌≤◌, Bool, true, false, Option, none, some, inl, inr, Bool-cases, List, [],
  ◌∷◌, Result, err, ok, >>=-eq-ok, ◌>>◌, raise_if, if◌then◌else◌, arith, not, ◌==◌, ◌+◌,
}
use ai_investment_manager.Execution.Leg.{
  Error, terminal, same_contract, same_leg, ExecutionLeg, group_missing, revision_step,
}
use ai_investment_manager.Execution.Group.{ExecutionGroup, same_group}
use ai_investment_manager.Execution.Store.{
  Tables, group, allowed, frozen, same_contracts, check_leg_progress, check_targets,
  check_transition, needs_save, write_if_needed, save,
}

-- A leg keeps its contract, its fill does not fall, and once it has ended nothing changes.
abbrev pub LegProgress : ExecutionLeg → ExecutionLeg → Type 0
LegProgress a b =
    (same_contract a b ≡ true)
    × (a.filled_quantity ≤ b.filled_quantity)
    × (terminal a.status ≡ true → same_leg b a ≡ true)

-- A frozen contract, a clock that does not go back, a move of the table, and progress of the legs.
abbrev pub IsTransition : ExecutionGroup → ExecutionGroup → Type 0
IsTransition a b =
    (frozen a b ≡ true)
    × (a.updated_at ≤ b.updated_at)
    × (allowed a.status b.status ≡ true)
    × Matched LegProgress a.target_legs b.target_legs

leg_progress :
    (a b : ExecutionLeg)
    → same_contract a b ≡ true
    → check_leg_progress a b ≡ ok tt
    → LegProgress a b
unfolding check_leg_progress
leg_progress a b c h = (c, ground arith, λ t. ground arith)

targets_progress :
    (xs ys : List ExecutionLeg)
    → same_contracts xs ys ≡ true
    → check_targets xs ys ≡ ok tt
    → Matched LegProgress xs ys
unfolding same_contracts check_targets
targets_progress [] [] c h = tt
targets_progress [] (y ∷ ys) c h = cc
targets_progress (x ∷ xs) [] c h = cc
targets_progress (x ∷ xs) (y ∷ ys) c h =
    let k = >>=-eq-ok (check_leg_progress x y) (λ _. check_targets xs ys) h in
    (leg_progress x y (ground arith) k.1, targets_progress xs ys (ground arith) k.2)

check_transition-IsTransition :
    (a b : ExecutionGroup) → check_transition a b ≡ ok tt → IsTransition a b
unfolding check_transition
check_transition-IsTransition a b h =
    let parts : (frozen a b ≡ true)
        × (a.updated_at ≤ b.updated_at)
        × (same_contracts a.target_legs b.target_legs ≡ true)
        × (check_targets a.target_legs b.target_legs ≡ ok tt)
        × (allowed a.status b.status ≡ true) =
      ground arith in
    (parts.0, parts.1, parts.4, targets_progress a.target_legs b.target_legs parts.2 parts.3)

written_needed :
    (g : ExecutionGroup) (e : ℕ) (needed : Result Error Bool) (t u : Tables)
    → write_if_needed g e needed t ≡ (ok true, u)
    → needed ≡ ok true
unfolding write_if_needed
written_needed g e (err raised) t u h = cc
written_needed g e (ok false) t u h = cc
written_needed g e (ok true) t u h = refl

-- What the second half of `needs_save` has checked of the row that it found.
needed_current :
    (g : ExecutionGroup) (found : Option ExecutionGroup)
    → elim found as (λ _. Result Error Bool) [
      | none ↦ err group_missing
      | some current ↦
          if same_group current g then ok false else (check_transition current g >> ok true)
    ]
      ≡ ok true
    → (current : ExecutionGroup) × (found ≡ some current) × (check_transition current g ≡ ok tt)
needed_current g none h = cc
needed_current g (some current) h = elim (Bool-cases (same_group current g)) [
  | inl e ↦ let k : ok false ≡ ok true = rw e at h in cc
  | inr e ↦
      let k : (check_transition current g >> ok true) ≡ ok true = rw e at h in
      (current, refl, (>>=-eq-ok (check_transition current g) (λ _. ok true) k).1)
]

pub save-IsTransition :
    (g : ExecutionGroup) (expected : ℕ) (t u : Tables)
    → save g expected t ≡ (ok true, u)
    → (current : ExecutionGroup) × (group g.group_id t ≡ some current)
      × IsTransition current g
      × (g.revision ≡ expected + 1)
unfolding save needs_save
save-IsTransition g expected t u h =
    let n = written_needed g expected (needs_save g expected t) t u h in
    let a = >>=-eq-ok (raise_if (not (g.revision == expected + 1)) revision_step) _ n in
    let c = needed_current g (group g.group_id t) a.2 in
    (c.0, c.1, check_transition-IsTransition c.0 g c.2, ground arith)

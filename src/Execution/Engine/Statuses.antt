-- ===== src/Execution/Engine/Statuses.antt =====
-- The statuses that `run_once` gives a group on its way.
use ai_investment_manager.Prelude.{
  Matched, ℕ, ◌+◌, ◌≡◌, refl, ◌⊎◌, inl, inr, false, Option, some, List, arith,
}
use ai_investment_manager.Kernel.{Time}
use ai_investment_manager.Execution.Leg.{ExecutionLeg}
use ai_investment_manager.Execution.Group.{
  ExecutionGroup, GroupStatus, executing, recovering, compensating, hedged, flat, is_group,
  group_terminal, residual_quantities,
}
use ai_investment_manager.Execution.Change.{
  Changes, no_changes, changed, unhedged_since, next_status,
}
use ai_investment_manager.Execution.Store.{allowed}
use ai_investment_manager.Execution.LegSync.Step.{LegStep}
use ai_investment_manager.Execution.Engine.Progress.{Moves, stay, move, GroupStep, IsSound}

pub to_flat : (s : GroupStatus) → s ≡ compensating → Moves s flat
unfolding allowed
to_flat s e = rw e (move refl stay)

-- Where the engine runs the targets, or compensates.
abbrev pub IsRunning : GroupStatus → Type 0
IsRunning s = (s ≡ executing) ⊎ (s ≡ recovering)

pub to_compensating : (s : GroupStatus) → (s ≡ compensating) ⊎ IsRunning s → Moves s compensating
unfolding allowed
to_compensating s (inl e) = rw e stay
to_compensating s (inr (inl e)) = rw e (move refl stay)
to_compensating s (inr (inr e)) = rw e (move refl stay)

pub to_hedged : (s : GroupStatus) → IsRunning s → Moves s hedged
unfolding allowed
to_hedged s (inl e) = rw e (move refl stay)
to_hedged s (inr e) = rw e (move refl stay)

pub to_running : (s t : GroupStatus) → IsRunning s → IsRunning t → Moves s t
unfolding allowed
to_running s t (inl e) (inl k) = rw (e, k) stay
to_running s t (inl e) (inr k) = rw (e, k) (move refl stay)
to_running s t (inr e) (inl k) = rw (e, k) (move refl stay)
to_running s t (inr e) (inr k) = rw (e, k) stay

pub next_status-IsRunning :
    (g : ExecutionGroup) (targets : List ExecutionLeg) → IsRunning (next_status g targets)
unfolding next_status
next_status-IsRunning g targets = ground arith

-- The status of an observed group is replaced before it is written.
pub IsSound-status :
    (g : ExecutionGroup) (s : GroupStatus) (n : ℕ)
    → (s ≡ compensating) ⊎ IsRunning s
    → IsSound g
    → IsSound (record g { status = s; revision = n })
unfolding residual_quantities
IsSound-status g s n e h = record {
  compensated = h.compensated;
  hedged_filled = λ k. ground arith;
  flat_empty = λ k. ground arith;
}

pub GroupStep-status :
    (g observed : ExecutionGroup) (as_of : Time) (targets : List ExecutionLeg) (since : Option Time)
    (s : GroupStatus)
    → observed ≡ record g { target_legs = targets; unhedged_since = since; updated_at = as_of }
    → Matched LegStep g.target_legs targets
    → Moves g.status s
    → GroupStep g (record observed { status = s; revision = g.revision + 1 })
GroupStep-status g observed as_of targets since s e m p =
    rw e record { frozen = ground arith; legs = m; revision = omega arith; path = p }

abbrev pub observation : ExecutionGroup → List ExecutionLeg → Time → Changes
observation g targets as_of = record no_changes {
  target_legs = some targets;
  unhedged_since = some (unhedged_since g targets as_of);
}

abbrev pub IsObserved : ExecutionGroup → List ExecutionLeg → Time → ExecutionGroup → Type 0
IsObserved g targets as_of observed =
    (observed ≡ record (changed g (observation g targets as_of)) { updated_at = as_of })
    × IsSound observed

pub IsRunning-of_status :
    (s : GroupStatus) → group_terminal s ≡ false → is_group s compensating ≡ false → IsRunning s
unfolding group_terminal
IsRunning-of_status s h k = ground arith

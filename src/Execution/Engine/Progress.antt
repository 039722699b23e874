-- ===== src/Execution/Engine/Progress.antt =====
-- What a step of the engine may make of a group.
use ai_investment_manager.Prelude.{
  Matched, ◌≡◌, refl, ◌∙◌, ap, ◌≤◌, true, false, List, [], ◌∷◌, ok, is_nonempty, all, arith,
}
use ai_investment_manager.Prelude.Dict.{index_by}
use ai_investment_manager.Execution.Leg.{ExecutionLeg, terminal}
use ai_investment_manager.Execution.Group.{
  ExecutionGroup, GroupStatus, hedged, flat, is_group, is_filled, residual_quantities,
  check_compensations, checked_group,
}
use ai_investment_manager.Execution.Store.{allowed}
use ai_investment_manager.Execution.LegSync.Step.{LegStep}

-- A run through the table of transitions.
pub data Moves : GroupStatus → GroupStatus → Type 0 where
  stay : {s : GroupStatus} → Moves s s
  move : {s t u : GroupStatus} → allowed s t ≡ true → Moves t u → Moves s u

pub Moves-trans : {s t u : GroupStatus} → Moves s t → Moves t u → Moves s u
Moves-trans stay q = q
Moves-trans (move h p) q = move h (Moves-trans p q)

-- The fields that no step changes.
abbrev pub Frozen : ExecutionGroup → ExecutionGroup → Type 0
Frozen g h =
    (h.group_id ≡ g.group_id)
    × (h.plan_id ≡ g.plan_id)
    × (h.approved_target_id ≡ g.approved_target_id)
    × (h.cycle_id ≡ g.cycle_id)
    × (h.sleeve_id ≡ g.sleeve_id)
    × (h.valid_until ≡ g.valid_until)
    × (h.maximum_unhedged_notional ≡ g.maximum_unhedged_notional)
    × (h.maximum_unhedged_seconds ≡ g.maximum_unhedged_seconds)
    × (h.started_at ≡ g.started_at)

-- The contract is frozen, legs keep theirs and never leave a terminal status, revisions do not
-- fall, and the status moves along the table.
pub record GroupStep (g h : ExecutionGroup) : Type 0 where
  pub frozen : Frozen g h
  pub legs : Matched LegStep g.target_legs h.target_legs
  pub revision : g.revision ≤ h.revision
  pub path : Moves g.status h.status

LegStep-trans : (a b c : ExecutionLeg) → LegStep a b → LegStep b c → LegStep a c
LegStep-trans a b c h k = (
  k.0
      ∙ ap {A = ExecutionLeg} {B = ExecutionLeg}
          (λ x. record x {
            status = c.status;
            filled_quantity = c.filled_quantity;
            average_fill_price = c.average_fill_price;
            fee = c.fee;
            venue_order_id = c.venue_order_id;
            observed_at = c.observed_at;
          })
          h.0,
  λ t. k.1 (ap (λ x. terminal x.status) (h.1 t) ∙ t) ∙ h.1 t,
)

pub Matched-refl : (xs : List ExecutionLeg) → Matched LegStep xs xs
Matched-refl [] = tt
Matched-refl (x ∷ xs) = ((refl, λ t. refl), Matched-refl xs)

Matched-trans :
    (xs ys zs : List ExecutionLeg)
    → Matched LegStep xs ys
    → Matched LegStep ys zs
    → Matched LegStep xs zs
Matched-trans [] [] [] h k = tt
Matched-trans [] [] (z ∷ zs) h k = elim k [ ]
Matched-trans [] (y ∷ ys) zs h k = elim h [ ]
Matched-trans (x ∷ xs) [] zs h k = elim h [ ]
Matched-trans (x ∷ xs) (y ∷ ys) [] h k = elim k [ ]
Matched-trans (x ∷ xs) (y ∷ ys) (z ∷ zs) h k =
    (LegStep-trans x y z h.0 k.0, Matched-trans xs ys zs h.1 k.1)

pub GroupStep-refl : (g : ExecutionGroup) → GroupStep g g
GroupStep-refl g = record {
  frozen = ground arith;
  legs = Matched-refl g.target_legs;
  revision = omega arith;
  path = stay;
}

pub GroupStep-trans : (g h k : ExecutionGroup) → GroupStep g h → GroupStep h k → GroupStep g k
GroupStep-trans g h k p q = record {
  frozen = let a = p.frozen in let b = q.frozen in ground arith;
  legs = Matched-trans g.target_legs h.target_legs k.target_legs p.legs q.legs;
  revision = omega (arith, p.revision, q.revision);
  path = Moves-trans p.path q.path;
}

-- What the validator has checked of a group.
pub record IsSound (g : ExecutionGroup) : Type 0 where
  pub compensated :
      check_compensations (index_by (λ t. t.planned_leg_id) [] g.target_legs) g.compensation_legs
      ≡ ok tt
  pub hedged_filled : is_group g.status hedged ≡ true → all is_filled g.target_legs ≡ true
  pub flat_empty : is_group g.status flat ≡ true → is_nonempty (residual_quantities g) ≡ false

pub checked_group-IsSound : (g h : ExecutionGroup) → checked_group g ≡ ok h → (h ≡ g) × IsSound g
unfolding checked_group
checked_group-IsSound g h e = ground arith

-- ===== src/Execution/Group.antt =====
-- execution/group/models.py: `ExecutionGroup` and `new_execution_group`; the part of
-- execution/planning/planner.py's `TradePlan` that they read.
pub mod Balance
use ai_investment_manager.Prelude.{
  ℕ, ◌+◌, ◌-◌, ◌*◌, min, Bool, true, false, not, ◌&&◌, ◌||◌, Option, none, some, List, [], ◌∷◌,
  ◌++◌, map, any, all, select, is_nonempty, dedup, same, ltb, leb, ◌==◌, is_some, if◌then◌else◌,
  Result, ok, raise_if, ◌>>◌, ◌>>=◌,
}
use ai_investment_manager.Prelude.Int.{ℤ, pos, ◌+ℤ◌, sub_ℕ, is_zero}
use ai_investment_manager.Prelude.Sorting.{sorted}
use ai_investment_manager.Prelude.Dict.{Dict, get, has_key, put, index_by}
use ai_investment_manager.Kernel.{StableId, Time}
use ai_investment_manager.Kernel.Decimal.{Decimal, mul, div}
use ai_investment_manager.Execution.Leg.{
  Error, field_constraint, updated_before_start, unhedged_outside, legs_unsorted, legs_foreign,
  target_attempt, compensation_attempt, compensation_unbound, compensation_inexact,
  hedged_incomplete, hedged_compensated, flat_working, flat_residual, plan_expired, Side, buy, sell,
  is_side, InstrumentId, same_instrument, same_option, LegRole, target, compensation, role_value,
  LegStatus, pending, filled, is_status, terminal, ExecutionLeg, same_leg, leg_identity,
  client_order, checked_leg,
}

pub data GroupStatus : Type 0 where
  executing recovering compensating hedged flat : GroupStatus

abbrev pub group_value : GroupStatus → ℕ
group_value executing = 0
group_value recovering = 1
group_value compensating = 2
group_value hedged = 3
group_value flat = 4

abbrev pub is_group : GroupStatus → GroupStatus → Bool
is_group a b = group_value a == group_value b

-- `ExecutionGroup.terminal`
unfoldable pub group_terminal : GroupStatus → Bool
group_terminal s = is_group s hedged || is_group s flat

pub record ExecutionGroup : Type 0 where
  pub group_id : ℕ
  pub plan_id : ℕ
  pub approved_target_id : ℕ
  pub cycle_id : ℕ
  pub sleeve_id : ℕ
  pub status : GroupStatus
  pub valid_until : Time
  pub maximum_unhedged_notional : Decimal
  pub maximum_unhedged_seconds : ℕ
  pub target_legs : List ExecutionLeg
  pub compensation_legs : List ExecutionLeg
  pub unhedged_since : Option Time
  pub started_at : Time
  pub updated_at : Time
  pub revision : ℕ

-- `a == b` on tuples of legs
unfoldable pub same_legs : List ExecutionLeg → List ExecutionLeg → Bool
same_legs [] [] = true
same_legs (a ∷ xs) (b ∷ ys) = same_leg a b && same_legs xs ys
same_legs _ _ = false

-- `a == b`
unfoldable pub same_group : ExecutionGroup → ExecutionGroup → Bool
same_group a b =
    a.group_id == b.group_id
    && a.plan_id == b.plan_id
    && a.approved_target_id == b.approved_target_id
    && a.cycle_id == b.cycle_id
    && a.sleeve_id == b.sleeve_id
    && is_group a.status b.status
    && a.valid_until == b.valid_until
    && a.maximum_unhedged_notional == b.maximum_unhedged_notional
    && a.maximum_unhedged_seconds == b.maximum_unhedged_seconds
    && same_legs a.target_legs b.target_legs
    && same_legs a.compensation_legs b.compensation_legs
    && same_option a.unhedged_since b.unhedged_since
    && a.started_at == b.started_at
    && a.updated_at == b.updated_at
    && a.revision == b.revision

-- `quantities.get(key, 0)`
unfoldable pub quantity : ℕ → Dict ℤ → ℤ
quantity key d = elim (get key d) [ none ↦ pos 0 | some q ↦ q ]

abbrev pub signed : ExecutionLeg → ℤ
signed leg = elim leg.side [ buy ↦ pos leg.filled_quantity | sell ↦ sub_ℕ 0 leg.filled_quantity ]

-- The loop of `residual_quantities`.
unfoldable pub add_fills : Dict ℤ → List ExecutionLeg → Dict ℤ
add_fills d [] = d
add_fills d (leg ∷ legs) =
    add_fills (put leg.instrument.key (quantity leg.instrument.key d +ℤ signed leg) d) legs

unfoldable pub residual_quantities : ExecutionGroup → Dict ℤ
residual_quantities g =
    sorted (λ a b. ltb a.0 b.0)
      (select (λ e. not (is_zero e.1)) (add_fills [] (g.target_legs ++ g.compensation_legs)))

abbrev pub progress : ExecutionLeg → Decimal
progress leg = div leg.filled_quantity leg.requested_quantity

-- `min(progress)`
unfoldable pub matched : List ExecutionLeg → Decimal
matched [] = 0
matched (leg ∷ []) = progress leg
matched (leg ∷ other ∷ legs) = min (progress leg) (matched (other ∷ legs))

-- `leg.average_fill_price or leg.reference_price`
abbrev pub price : ExecutionLeg → Decimal
price leg = elim leg.average_fill_price [
  | none ↦ leg.reference_price
  | some p ↦ if p == 0 then leg.reference_price else p
]

unfoldable pub unmatched : Decimal → List ExecutionLeg → Decimal
unmatched least [] = 0
unmatched least (leg ∷ legs) =
    mul (mul (mul (progress leg - least) leg.requested_quantity) (price leg))
      leg.instrument.contract_multiplier
    + unmatched least legs

unfoldable pub unhedged_notional : ExecutionGroup → Decimal
unhedged_notional g = unmatched (matched g.target_legs) g.target_legs

-- `tuple(sorted(set(ids))) == ids`
abbrev pub legs_ascend : List ExecutionLeg → Bool
legs_ascend legs =
    let ids = map (λ leg. leg.execution_leg_id) legs in same (sorted ltb (dedup ids)) ids

abbrev pub is_foreign : ExecutionGroup → LegRole → ExecutionLeg → Bool
is_foreign g role leg =
    not (leg.group_id == g.group_id) || not (role_value leg.role == role_value role)

-- The pass of the validator over the legs of one role.
unfoldable pub check_role : ExecutionGroup → LegRole → List ExecutionLeg → Result Error Unit
check_role g role legs = do
  raise_if (not (legs_ascend legs)) legs_unsorted
  raise_if (any (is_foreign g role) legs) legs_foreign

-- Whether a compensation reverses no more than its target has filled.
abbrev pub reverses : ExecutionLeg → Option ExecutionLeg → Bool
reverses leg none = false
reverses leg (some t) =
    same_instrument leg.instrument t.instrument
    && not (is_side leg.side t.side)
    && not (ltb t.filled_quantity leg.requested_quantity)
    && leg.reference_price == t.reference_price

unfoldable pub check_compensations : Dict ExecutionLeg → List ExecutionLeg → Result Error Unit
check_compensations targets legs = do
  raise_if (any (λ leg. not (has_key leg.planned_leg_id targets)) legs) compensation_unbound
  raise_if (any (λ leg. not (reverses leg (get leg.planned_leg_id targets))) legs)
      compensation_inexact

abbrev pub outside : ExecutionGroup → Option Time → Bool
outside g none = false
outside g (some since) = not (leb g.started_at since && leb since g.updated_at)

abbrev pub is_filled : ExecutionLeg → Bool
is_filled leg = is_status leg.status filled

abbrev pub is_terminal : ExecutionLeg → Bool
is_terminal leg = terminal leg.status

-- The constructor with its validators.
unfoldable pub checked_group : ExecutionGroup → Result Error ExecutionGroup
unfolding residual_quantities check_compensations check_role
checked_group g = do
  raise_if (g.maximum_unhedged_seconds == 0 || not (is_nonempty g.target_legs)) field_constraint
  raise_if (ltb g.updated_at g.started_at) updated_before_start
  raise_if (outside g g.unhedged_since) unhedged_outside
  check_role g target g.target_legs
  check_role g compensation g.compensation_legs
  raise_if (any (λ leg. not (leg.attempt == 0)) g.target_legs) target_attempt
  raise_if (any (λ leg. leg.attempt == 0) g.compensation_legs) compensation_attempt
  check_compensations (index_by (λ t. t.planned_leg_id) [] g.target_legs) g.compensation_legs
  raise_if (is_group g.status hedged && not (all is_filled g.target_legs)) hedged_incomplete
  raise_if (is_group g.status hedged && is_nonempty g.compensation_legs) hedged_compensated
  raise_if (is_group g.status flat && not (all is_terminal (g.target_legs ++ g.compensation_legs)))
      flat_working
  raise_if (is_group g.status flat && is_nonempty (residual_quantities g)) flat_residual
  ok g

abbrev pub leg_before : ExecutionLeg → ExecutionLeg → Bool
leg_before a b = ltb a.execution_leg_id b.execution_leg_id

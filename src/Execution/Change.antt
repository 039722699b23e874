-- ===== src/Execution/Change.antt =====
-- execution/group/engine.py: `_evolve`, `_unhedged_since` and `_must_compensate`.
use ai_investment_manager.Prelude.{
  ◌+◌, Bool, false, ◌||◌, Option, none, some, List, [], ◌∷◌, any, ltb, leb, ◌==◌, if◌then◌else◌,
  Result, ok, ◌>>=◌,
}
use ai_investment_manager.Kernel.{StableId, Time, seconds}
use ai_investment_manager.Execution.Leg.{
  Error, partially_filled, canceled, rejected, expired, unknown, is_status, ExecutionLeg,
  checked_leg,
}
use ai_investment_manager.Execution.Group.{
  ExecutionGroup, GroupStatus, executing, recovering, same_group, unhedged_notional, checked_group,
}

-- The keyword arguments `changes` of `_save` and `_evolve`.
pub record Changes : Type 0 where
  pub status : Option GroupStatus
  pub target_legs : Option (List ExecutionLeg)
  pub compensation_legs : Option (List ExecutionLeg)
  pub unhedged_since : Option (Option Time)

abbrev pub no_changes : Changes
no_changes = record {
  status = none;
  target_legs = none;
  compensation_legs = none;
  unhedged_since = none;
}

abbrev or_else : {A : Type 0} → Option A → A → A
or_else none old = old
or_else (some new) old = new

-- `payload.update(changes)`
unfoldable pub changed : ExecutionGroup → Changes → ExecutionGroup
changed g c = record g {
  status = or_else c.status g.status;
  target_legs = or_else c.target_legs g.target_legs;
  compensation_legs = or_else c.compensation_legs g.compensation_legs;
  unhedged_since = or_else c.unhedged_since g.unhedged_since;
}

-- `all(getattr(group, name) == value for name, value in changes.items())`: the other fields of
-- the two groups are the same.
abbrev pub unchanged : ExecutionGroup → Changes → Bool
unchanged g c = same_group g (changed g c)

unfoldable pub unhedged_since : ExecutionGroup → List ExecutionLeg → Time → Option Time
unfolding unhedged_notional
unhedged_since g target_legs as_of =
    if unhedged_notional (record g { target_legs = target_legs }) == 0
    then none
    else some (or_else g.unhedged_since as_of)

abbrev failed : ExecutionLeg → Bool
failed leg =
    is_status leg.status canceled || is_status leg.status rejected || is_status leg.status expired

-- Whether the bound on the time without a hedge has passed.
abbrev overdue : ExecutionGroup → Time → Option Time → Bool
overdue g as_of none = false
overdue g as_of (some since) = leb (since + seconds g.maximum_unhedged_seconds) as_of

unfoldable pub must_compensate : ExecutionGroup → Time → Bool
unfolding unhedged_notional
must_compensate g as_of =
    any failed g.target_legs
    || leb g.valid_until as_of
    || ltb g.maximum_unhedged_notional (unhedged_notional g)
    || overdue g as_of g.unhedged_since

-- The status of a group that runs on.
abbrev is_uncertain : ExecutionLeg → Bool
is_uncertain leg = is_status leg.status partially_filled || is_status leg.status unknown

unfoldable pub next_status : ExecutionGroup → List ExecutionLeg → GroupStatus
unfolding unhedged_notional
next_status observed targets =
    if any is_uncertain targets || ltb 0 (unhedged_notional observed) then recovering else executing

-- The part of `run_once` for targets that are not all filled.

module _ (digest : StableId) where
  unfoldable checked_legs : List ExecutionLeg → Result Error Unit
  checked_legs [] = ok tt
  checked_legs (leg ∷ legs) = checked_leg digest leg >>= λ _. checked_legs legs

  -- The legs of a group that a change keeps are validated again.
  unfoldable pub check_kept_legs :
      Option (List ExecutionLeg) → List ExecutionLeg → Result Error Unit
  unfolding checked_legs
  check_kept_legs none legs = checked_legs legs
  check_kept_legs (some new) legs = ok tt

  -- `_evolve`
  unfoldable pub evolve : ExecutionGroup → Time → Changes → Result Error ExecutionGroup
  unfolding checked_group changed check_kept_legs
  evolve g as_of c = check_kept_legs c.target_legs g.target_legs >>= λ _.
      check_kept_legs c.compensation_legs g.compensation_legs >>= λ _.
      checked_group (record (changed g c) { updated_at = as_of })

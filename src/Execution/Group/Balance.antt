-- ===== src/Execution/Group/Balance.antt =====
-- The residual quantities as the difference of what was bought and what was sold.
use ai_investment_manager.Prelude.{
  ℕ, ◌+◌, ◌≡◌, refl, ◌∙◌, sym, false, not, List, [], ◌∷◌, ◌++◌, select, is_nonempty, ◌==◌, ◌&&◌,
  if◌then◌else◌, arith,
}
use ai_investment_manager.Prelude.Int.{ℤ, pos, pos_part, neg_part, ◌+ℤ◌, +ℤ_parts, is_zero}
use ai_investment_manager.Prelude.Sorting.{is_nonempty-sorted}
use ai_investment_manager.Prelude.Dict.{Dict, get, put, get-put}
use ai_investment_manager.Execution.Leg.{Side, buy, sell, is_side, ExecutionLeg}
use ai_investment_manager.Execution.Group.{
  ExecutionGroup, quantity, signed, add_fills, residual_quantities,
}

-- What the legs of one instrument have filled on one side.
unfoldable pub filled_on : Side → ℕ → List ExecutionLeg → ℕ
filled_on side key [] = 0
filled_on side key (leg ∷ legs) =
    let rest = filled_on side key legs in
    if leg.instrument.key == key && is_side leg.side side then leg.filled_quantity + rest else rest

-- z is bought - sold.
abbrev IsDifference : ℤ → ℤ → ℕ → ℕ → Type 0
IsDifference z z0 bought sold = pos_part z + neg_part z0 + sold ≡ neg_part z + pos_part z0 + bought

quantity-put :
    (key k : ℕ) (z : ℤ) (d : Dict ℤ)
    → quantity key (put k z d) ≡ (if key == k then z else quantity key d)
unfolding quantity
quantity-put key k z d = ground (arith, get-put key k z d)

add_fills-IsDifference :
    (key : ℕ) (d : Dict ℤ) (legs : List ExecutionLeg)
    → IsDifference
        (quantity key (add_fills d legs))
        (quantity key d)
        (filled_on buy key legs)
        (filled_on sell key legs)
unfolding add_fills filled_on
add_fills-IsDifference key d [] = omega arith
add_fills-IsDifference key d (leg ∷ legs) =
    let k = leg.instrument.key in
    let z = quantity k d +ℤ signed leg in
    let ih = add_fills-IsDifference key (put k z d) legs in
    let e = quantity-put key k z d in
    let parts = +ℤ_parts (quantity k d) (signed leg) in ground arith

all_zero :
    (key : ℕ) (d : Dict ℤ)
    → is_nonempty (select (λ e. not (is_zero e.1)) d) ≡ false
    → quantity key d ≡ pos 0
unfolding quantity get
all_zero key [] h = refl
all_zero key ((j, z) ∷ d) h = ground (arith, all_zero key d)

-- Without a residual every instrument was bought as much as it was sold.
pub residual_quantities_balanced :
    (g : ExecutionGroup) (key : ℕ)
    → is_nonempty (residual_quantities g) ≡ false
    → filled_on buy key (g.target_legs ++ g.compensation_legs)
      ≡ filled_on sell key (g.target_legs ++ g.compensation_legs)
unfolding residual_quantities quantity get
residual_quantities_balanced g key h =
    let legs = g.target_legs ++ g.compensation_legs in
    let d = add_fills [] legs in
    let e = sym (is_nonempty-sorted _ (select (λ e. not (is_zero e.1)) d)) ∙ h in
    let z = all_zero key d e in let k = add_fills-IsDifference key [] legs in ground arith

-- ===== src/Risk/Scale.antt =====
-- risk/portfolio.py: what the scale of `_global_scale` leaves of a request.
use native.Mathlib.Nat.{mul-le-mul_left}
use ai_investment_manager.Prelude.{
  ℕ, ◌*◌, ◌≤◌, min, ◌≡◌, ◌⊎◌, inl, inr, refl, Bool, true, false, Bool-cases, List, leb→le, leb,
  ◌==◌, ok, raise_if-eq-ok, raise_if-value, arith,
}
use ai_investment_manager.Kernel.Decimal.{Decimal, one, mul, round_div}
use ai_investment_manager.Portfolio.Target.{ApprovedSleeve}
use ai_investment_manager.Risk.Policy.{
  exposure_increased, scale_wrong, unhedged_above, PortfolioRiskPolicy,
}
use ai_investment_manager.Risk.Exposure.{Gated, global_scale, limit_scale}
use ai_investment_manager.Risk.Evaluate.{gate, checked_approval}

round_div-le : (x a : ℕ) → x ≤ a * one → round_div x one ≤ a
unfolding round_div
round_div-le x a h = ground arith

mul-le : (a s : Decimal) → s ≤ one → mul a s ≤ a
unfolding mul
mul-le a s h = round_div-le (a * s) a (mul-le-mul_left a h)

limit_scale-le : (observed limit : Decimal) → limit_scale observed limit ≤ one
unfolding limit_scale
limit_scale-le observed limit = ground arith

smaller-le : (a b c : ℕ) → a ≤ c → min a b ≤ c
smaller-le a b c h = omega arith

pub global_scale-le :
    (policy : PortfolioRiskPolicy) (gated : List Gated) (equity : Decimal)
    → global_scale policy gated equity ≤ one
unfolding global_scale
global_scale-le policy gated equity = elim (Bool-cases (equity == 0)) [
  | inl e ↦ rw e (omega arith)
  | inr e ↦ rw e (smaller-le _ _ one (limit_scale-le _ _))
]

pub checked_approval-same :
    (a : ApprovedSleeve) {b : ApprovedSleeve} → checked_approval a ≡ ok b → a ≡ b
unfolding checked_approval
checked_approval-same a h =
    let exposure = raise_if-eq-ok _ exposure_increased _ h in
    let scaled = raise_if-eq-ok _ scale_wrong _ exposure.1 in
    (raise_if-value _ unhedged_above scaled.1).1

-- The scale does not enlarge what the gates leave.
scaled-le :
    (requested left scale : Decimal)
    → scale ≤ one
    → (min requested (mul left scale) ≤ requested) × (min requested (mul left scale) ≤ left)
scaled-le requested left scale h = let q = mul-le left scale h in (omega arith, omega arith)

-- What is approved of a request is not above it; it is nothing where cash is forced, and where
-- no new risk is allowed not above what is held.
pub approved-le :
    (forced allowed : Bool) (requested current scale : Decimal)
    → scale ≤ one
    → (let approved = min requested (mul (gate forced allowed requested current).0 scale) in
        (approved ≤ requested)
        × ((forced ≡ false) ⊎ (approved ≡ 0))
        × ((allowed ≡ true) ⊎ (approved ≤ current)))
unfolding gate
approved-le true allowed requested current scale h =
    let q = scaled-le requested 0 scale h in (q.0, inr (omega arith), inr (omega arith))
approved-le false true requested current scale h = (omega arith, inl refl, inl refl)
approved-le false false requested current scale h = elim (Bool-cases (leb requested current)) [
  | inl e ↦
      let le = leb→le requested current e in
      let q = scaled-le requested requested scale h in rw e (q.0, inl refl, inr (omega arith))
  | inr e ↦ let q = scaled-le requested current scale h in rw e (q.0, inl refl, inr q.1)
]

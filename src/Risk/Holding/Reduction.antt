-- ===== src/Risk/Holding/Reduction.antt =====
-- risk/portfolio.py: what an authorization to reduce is made of.
use mathlib.Core.Option.{some-injective}
use ai_investment_manager.Prelude.{
  ℕ, ◌+◌, ◌≡◌, refl, ap, sym, ◌∙◌, some, List, [], ◌∷◌, ok, found-eq-ok, >>=-eq-ok, after_ok,
  ok-injective, arith,
}
use ai_investment_manager.Prelude.Dict.{Dict, get}
use ai_investment_manager.Kernel.Decimal.{Decimal}
use ai_investment_manager.Portfolio.Target.{ApprovedSleeve}
use ai_investment_manager.Portfolio.Account.{InstrumentPosition, SleevePosition}
use ai_investment_manager.Risk.Policy.{PortfolioRiskPolicy, SleeveRiskProfile, ExecutableQuote}
use ai_investment_manager.Risk.Exposure.{Exposure}
use ai_investment_manager.Risk.Evaluate.{legs_notional, sleeve_gross_notional}
use ai_investment_manager.Risk.Scale.{checked_approval-same}
use ai_investment_manager.Risk.Holding.{
  position_notional, add_position, add_positions, add_holding, holdings,
}
use ai_investment_manager.Risk.Holding.Review.{reduce_sleeve, reduce_all}

add_position-gross :
    (profile : SleeveRiskProfile) (p : InstrumentPosition) (q : ExecutableQuote) (x : Exposure)
    → (add_position profile p q x).gross ≡ x.gross + position_notional p q
unfolding add_position
add_position-gross profile p q x = refl

-- What an authorization asks of a sleeve: all of it is to be sold.
module _ (quotes : Dict ExecutableQuote) where
  abbrev pub IsExit : SleevePosition → ApprovedSleeve → Type 0
  IsExit s a =
      (a.sleeve_id ≡ s.sleeve_id)
      × (a.forecast_target ≡ s.target)
      × (a.approved_gross_notional ≡ 0)
      × (a.maximum_unhedged_notional ≡ 0)
      × (sleeve_gross_notional (some s) quotes ≡ ok a.requested_gross_notional)

  abbrev pub AllExits : List SleevePosition → List ApprovedSleeve → Type 0
  AllExits [] [] = Unit
  AllExits (s ∷ ss) (a ∷ bs) = IsExit s a × AllExits ss bs
  AllExits _ _ = ⊥

abbrev pub total_requested : List ApprovedSleeve → Decimal
total_requested [] = 0
total_requested (a ∷ bs) = a.requested_gross_notional + total_requested bs

module _ (quotes : Dict ExecutableQuote) where
  -- The positions of a sleeve add its gross notional.
  add_positions-gross :
      (profile : SleeveRiskProfile) (ps : List InstrumentPosition) (x : Exposure) (g : Decimal)
      {sums : Exposure × Decimal} {n : Decimal}
      → add_positions quotes profile ps x g ≡ ok sums
      → legs_notional ps quotes ≡ ok n
      → sums.0.gross ≡ x.gross + n
  unfolding add_positions legs_notional
  add_positions-gross profile [] x g {sums} {n} h k =
      let e = ok-injective h in let f = ok-injective k in rw (← e, ← f) (omega arith)
  add_positions-gross profile (p ∷ ps) x g {sums} {n} h k =
      let first = found-eq-ok (get p.instrument.key quotes) _ _ h in
      let second = found-eq-ok (get p.instrument.key quotes) _ _ k in
      let same = some-injective _ _ (sym first.1 ∙ second.1) in
      let later = >>=-eq-ok (legs_notional ps quotes) _ second.2 in
      let total = ok-injective later.2 in
      let ih = add_positions-gross profile ps _ _ first.2 later.1 in
      rw (ih, add_position-gross profile p first.0 x, ← total, same) (omega arith)

  add_holding-gross :
      (profiles : Dict SleeveRiskProfile) (s : SleevePosition) (x : Exposure) {y : Exposure}
      {n : Decimal}
      → add_holding quotes profiles s x ≡ ok y
      → sleeve_gross_notional (some s) quotes ≡ ok n
      → y.gross ≡ x.gross + n
  unfolding add_holding sleeve_gross_notional
  add_holding-gross profiles s x {y} {n} h k =
      let known = found-eq-ok (get s.sleeve_id profiles) _ _ h in
      let r = >>=-eq-ok (add_positions quotes known.0 s.legs x 0) _ known.2 in
      ap (λ z. z.gross) (sym (ok-injective r.2)) ∙ add_positions-gross known.0 s.legs x 0 r.1 k

  module _ (policy : PortfolioRiskPolicy) (profiles : Dict SleeveRiskProfile) (codes : List ℕ) where
    reduce_sleeve-IsExit :
        (s : SleevePosition) {a : ApprovedSleeve}
        → reduce_sleeve policy quotes profiles codes s ≡ ok a
        → IsExit quotes s a
    unfolding reduce_sleeve
    reduce_sleeve-IsExit s {a} h =
        let known = found-eq-ok (get s.sleeve_id profiles) _ _ h in
        let r = >>=-eq-ok (sleeve_gross_notional (some s) quotes) _ known.2 in
        let e = checked_approval-same _ r.2 in rw (← e) (refl, refl, refl, refl, r.1)

    pub reduce_all-AllExits :
        (ss : List SleevePosition) (x : Exposure) {y : Exposure} {bs : List ApprovedSleeve}
        → reduce_all policy quotes profiles codes ss ≡ ok bs
        → holdings quotes profiles ss x ≡ ok y
        → AllExits quotes ss bs × (y.gross ≡ x.gross + total_requested bs)
    unfolding reduce_all holdings
    reduce_all-AllExits [] x {y} {bs} h k =
        let e = ok-injective h in let f = ok-injective k in rw (← e, ← f) (tt, omega arith)
    reduce_all-AllExits (s ∷ ss) x {y} {bs} h k =
        after_ok (reduce_sleeve policy quotes profiles codes s) _ h λ a first rest.
          after_ok (reduce_all policy quotes profiles codes ss) _ rest λ later others last.
            after_ok (add_holding quotes profiles s x) _ k λ z added held.
              let whole = reduce_sleeve-IsExit s first in
              let gross = add_holding-gross profiles s x added whole.4 in
              let ih = reduce_all-AllExits ss z others held in
              rw (← ok-injective last, ih.1, gross) ((whole, ih.0), omega arith)

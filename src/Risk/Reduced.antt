-- ===== src/Risk/Reduced.antt =====
-- risk/portfolio.py: what `PortfolioRiskEngine.evaluate` may approve.
use mathlib.Core.Option.{some-injective}
use ai_investment_manager.Prelude.{
  ℕ, ◌≤◌, ◌<◌, min, ◌≡◌, ◌⊎◌, inl, inr, refl, sym, Bool, true, false, Option, none, some, List, [],
  ◌∷◌, not_ltb→le, not_leb→lt, leb, ltb, Result, ok, found-eq-ok, >>=-eq-ok, raise_if-value,
  ok-injective, after_ok, subst, sym, if◌then◌else◌, arith,
}
use ai_investment_manager.Prelude.Int.{pos_part}
use ai_investment_manager.Prelude.Dict.{Dict, get, index_by}
use ai_investment_manager.Kernel.{Time}
use ai_investment_manager.Kernel.Decimal.{Decimal, one}
use ai_investment_manager.Portfolio.Target.{ApprovedSleeve}
use ai_investment_manager.Portfolio.Account.{PortfolioAccountSnapshot}
use ai_investment_manager.Risk.Policy.{
  levered, PortfolioRiskPolicy, SleeveRiskProfile, ExecutableQuote, SleeveTarget, PortfolioTarget,
  new_risk_allowed,
}
use ai_investment_manager.Risk.Exposure.{Gated, global_scale}
use ai_investment_manager.Risk.Evaluate.{
  sleeve_gross_notional, force_cash, gate, gate_sleeve, gate_all, checked_approval, approval,
  approve_all, approved_target, total_approved, check_inputs, evaluate,
}
use ai_investment_manager.Risk.Scale.{global_scale-le, approved-le, checked_approval-same}

module _ (policy : PortfolioRiskPolicy) where
  module _ (account : PortfolioAccountSnapshot) (quotes : Dict ExecutableQuote) (as_of : Time) where
    -- An approved sleeve is one of the target, no larger than requested; it is nothing where cash
    -- is forced, and where no new risk is allowed no larger than what the account holds of it.
    abbrev pub IsClamped : SleeveTarget → ApprovedSleeve → Type 0
    IsClamped t s =
        (s.sleeve_id ≡ t.sleeve_id)
        × (s.forecast_target ≡ t.forecast_target)
        × (s.requested_gross_notional ≡ t.desired_gross_notional)
        × (s.approved_gross_notional ≤ t.desired_gross_notional)
        × ((force_cash policy account ≡ false) ⊎ (s.approved_gross_notional ≡ 0))
        × ((new_risk_allowed policy quotes t account as_of ≡ true)
            ⊎ ((current : Decimal) × (sleeve_gross_notional
                    (get t.sleeve_id (index_by (λ h. h.sleeve_id) [] account.sleeves)) quotes
                  ≡ ok current)
                × (s.approved_gross_notional ≤ current)))

    abbrev pub AllClamped : List SleeveTarget → List ApprovedSleeve → Type 0
    AllClamped [] [] = Unit
    AllClamped (t ∷ ts) (s ∷ ss) = IsClamped t s × AllClamped ts ss
    AllClamped _ _ = ⊥

    module _ (profiles : Dict SleeveRiskProfile) where
      -- A sleeve that has passed its gates has a profile and a current notional.
      gate_sleeve-current :
          (t : SleeveTarget) {g : Gated}
          → gate_sleeve policy account quotes profiles as_of t ≡ ok g
          → (profile : SleeveRiskProfile) × (current : Decimal) × (sleeve_gross_notional
                (get t.sleeve_id (index_by (λ h. h.sleeve_id) [] account.sleeves))
                quotes
              ≡ ok current)
            × (let left =
                  gate
                    (force_cash policy account)
                    (new_risk_allowed policy quotes t account as_of)
                    t.desired_gross_notional
                    current in
                record { sleeve = t; profile = profile; requested = left.0; reason = left.1 } ≡ g)
      unfolding gate_sleeve
      gate_sleeve-current t h =
          let known = found-eq-ok (get t.sleeve_id profiles) _ _ h in
          let r = >>=-eq-ok (sleeve_gross_notional _ quotes) _ known.2 in
          (known.0, r.0, r.1, ok-injective r.2)

      approval-IsClamped :
          (equity scale : Decimal) (t : SleeveTarget) (g : Gated)
          → scale ≤ one
          → gate_sleeve policy account quotes profiles as_of t ≡ ok g
          → IsClamped t (approval policy equity scale g)
      approval-IsClamped equity scale t g small h =
          let (profile, current, c, e) = gate_sleeve-current t h in
          let limits =
            approved-le (force_cash policy account) (new_risk_allowed policy quotes t account as_of)
              t.desired_gross_notional current scale small in
          rw (← e) (
            refl,
            refl,
            refl,
            limits.0,
            limits.1,
            elim limits.2 [ inl allowed ↦ inl allowed | inr le ↦ inr (current, c, le) ],
          )

      approve_all-AllClamped :
          (equity scale : Decimal) (ts : List SleeveTarget) {gs : List Gated}
          {ss : List ApprovedSleeve}
          → scale ≤ one
          → gate_all policy account quotes profiles as_of ts ≡ ok gs
          → approve_all policy equity scale gs ≡ ok ss
          → AllClamped ts ss
      unfolding gate_all approve_all
      approve_all-AllClamped equity scale [] {gs} {ss} small h k =
          let none_left =
            subst (λ gs. approve_all policy equity scale gs ≡ ok ss) (sym (ok-injective h)) k in
          rw (← ok-injective none_left) tt
      approve_all-AllClamped equity scale (t ∷ ts) {gs} {ss} small h k =
          after_ok (gate_sleeve policy account quotes profiles as_of t) _ h λ g first rest.
            after_ok (gate_all policy account quotes profiles as_of ts) _ rest λ later gated e.
              after_ok (checked_approval (approval policy equity scale g)) _
                (subst (λ gs. approve_all policy equity scale gs ≡ ok ss) (sym (ok-injective e)) k)
                λ a valid others.
                  after_ok (approve_all policy equity scale later) _ others λ approved all_valid f.
                    rw (← ok-injective f, ← checked_approval-same _ valid)
                      (
                        approval-IsClamped equity scale t g small first,
                        approve_all-AllClamped equity scale ts small gated all_valid,
                      )

approved_target-bounded :
    (equity : Decimal) (sleeves : List ApprovedSleeve) {approved : List ApprovedSleeve}
    → approved_target equity sleeves ≡ ok (some approved)
    → (sleeves ≡ approved) × (total_approved sleeves ≤ equity)
unfolding approved_target
approved_target-bounded equity sleeves h =
    let r = raise_if-value (ltb equity (total_approved sleeves)) levered h in
    (some-injective _ _ r.1, not_ltb→le _ _ r.0)

-- Only a target in force is approved.
in_force :
    {E A : Type 0} (expired : Bool) (later : Result E (Option A)) {a : A}
    → (if expired then ok none else later) ≡ ok (some a)
    → (expired ≡ false) × (later ≡ ok (some a))
in_force true later h = cc
in_force false later h = (refl, h)

-- What the risk engine approves. The target is in force, and its sleeves are approved one by one
-- in their order. None is larger than requested; where the kill switch or the drawdown forces
-- cash, nothing is approved; and a sleeve that may take no new risk is not larger than what the
-- account holds of it, at the quotes. All together they do not exceed the equity that the target
-- refers to.
pub evaluate-AllClamped :
    (policy : PortfolioRiskPolicy) (content_hash : PortfolioAccountSnapshot → ℕ)
    (target : PortfolioTarget) (account : PortfolioAccountSnapshot) (quotes : List ExecutableQuote)
    (profiles : List SleeveRiskProfile) (as_of : Time) (approved : List ApprovedSleeve)
    → evaluate policy content_hash target account quotes profiles as_of ≡ ok (some approved)
    → (as_of < target.valid_until)
      × AllClamped policy account
          (index_by (λ q. q.instrument.key) [] quotes)
          as_of
          target.sleeves
          approved
      × (total_approved approved ≤ target.reference_equity)
unfolding evaluate
evaluate-AllClamped policy content_hash target account quotes profiles as_of approved h =
    let by_key = index_by (λ q. q.instrument.key) [] quotes in
    let by_sleeve = index_by (λ p. p.sleeve_id) [] profiles in
    let equity = min target.reference_equity (pos_part account.equity) in
    after_ok (check_inputs content_hash target account quotes profiles) _ h
      λ checked inputs all_after.
        let valid = in_force (leb target.valid_until as_of) _ all_after in
        after_ok (gate_all policy account by_key by_sleeve as_of target.sleeves) _ valid.1
          λ gated gates rest.
            after_ok (approve_all policy equity (global_scale policy gated equity) gated) _ rest
              λ sleeves all_valid last.
                let bounded = approved_target-bounded equity sleeves last in
                let clamped =
                  approve_all-AllClamped policy account by_key as_of by_sleeve equity _
                    target.sleeves (global_scale-le policy gated equity) gates all_valid in
                let within = bounded.1 in
                rw (← bounded.0) (not_leb→lt _ _ valid.0, clamped, omega arith)

-- ===== src/Risk/Evaluate.antt =====
-- risk/portfolio.py: `PortfolioRiskEngine.evaluate`; portfolio/models.py: `sleeve_gross_notional`.
use ai_investment_manager.Prelude.{
  ℕ, ◌+◌, min, Bool, true, false, not, ◌&&◌, ◌||◌, Option, none, some, List, [], ◌∷◌, map, all, any,
  contains, leb, ltb, ◌==◌, if◌then◌else◌, Result, ok, err, raise_if, validated, ◌>>◌, ◌>>=◌,
}
use ai_investment_manager.Prelude.Int.{pos, pos_part, abs, is_positive, is_less}
use ai_investment_manager.Prelude.Dict.{Dict, get, has_key, index_by}
use ai_investment_manager.Kernel.{Time}
use ai_investment_manager.Kernel.Decimal.{Decimal, mul, div}
use ai_investment_manager.Execution.Leg.{same_instrument}
use ai_investment_manager.Portfolio.Target.{ApprovedSleeve}
use ai_investment_manager.Portfolio.Account.{
  InstrumentPosition, SleevePosition, PortfolioAccountSnapshot, is_sorted_set, same_ℤ,
}
use ai_investment_manager.Risk.Policy.{
  RiskError, exits_missing, quotes_missing, profiles_inexact, account_changed, quotes_changed,
  entries_unordered, sleeve_unquoted, exposure_increased, scale_wrong, unhedged_above, levered,
  PortfolioRiskPolicy, SleeveRiskProfile, ExecutableQuote, SleeveTarget, PortfolioTarget,
  new_risk_allowed,
}
use ai_investment_manager.Risk.Exposure.{Gated, global_scale}

unfoldable pub legs_notional :
    List InstrumentPosition → Dict ExecutableQuote → Result RiskError Decimal
legs_notional [] quotes = ok 0
legs_notional (leg ∷ legs) quotes = elim (get leg.instrument.key quotes) [
  | none ↦ err sleeve_unquoted
  | some q ↦ legs_notional legs quotes >>= λ rest. ok (
      mul (mul (abs leg.quantity) (if is_positive leg.quantity then q.bid else q.ask))
        leg.instrument.contract_multiplier
      + rest)
]

unfoldable pub sleeve_gross_notional :
    Option SleevePosition → Dict ExecutableQuote → Result RiskError Decimal
sleeve_gross_notional none quotes = ok 0
sleeve_gross_notional (some s) quotes = legs_notional s.legs quotes

-- The reason codes, in the order of their texts.
abbrev pub forced_cash : ℕ
forced_cash = 0

abbrev pub clamped_to_current : ℕ
clamped_to_current = 1

abbrev pub new_risk_eligible : ℕ
new_risk_eligible = 2

abbrev pub reduction_allowed : ℕ
reduction_allowed = 3

abbrev pub clamped_to_envelope : ℕ
clamped_to_envelope = 4

abbrev pub within_envelope : ℕ
within_envelope = 5

-- What the gates leave of a request, with the reason.
unfoldable pub gate : (forced allowed : Bool) → (requested current : Decimal) → Decimal × ℕ
gate forced allowed requested current =
    if forced
    then (0, forced_cash)
    else if leb requested current
    then (requested, reduction_allowed)
    else if allowed
    then (requested, new_risk_eligible)
    else (current, clamped_to_current)

-- The constructor of `ApprovedSleeve` with its validator; its codes are in order.
unfoldable pub checked_approval : ApprovedSleeve → Result RiskError ApprovedSleeve
checked_approval s = do
  raise_if (ltb s.requested_gross_notional s.approved_gross_notional) exposure_increased
  raise_if
      (not (
        s.sleeve_scale == (
          if s.requested_gross_notional == 0
          then 0
          else div s.approved_gross_notional s.requested_gross_notional)))
      scale_wrong
  raise_if (ltb s.approved_gross_notional s.maximum_unhedged_notional) unhedged_above
  ok s

abbrev pub total_approved : List ApprovedSleeve → Decimal
total_approved [] = 0
total_approved (s ∷ ss) = s.approved_gross_notional + total_approved ss

-- The constructor of `ApprovedPortfolioTarget` with its validator. The identities of the sleeves
-- are in the order of the target's.
unfoldable pub approved_target :
    Decimal → List ApprovedSleeve → Result RiskError (Option (List ApprovedSleeve))
approved_target equity sleeves = do
  raise_if (ltb equity (total_approved sleeves)) levered
  ok (some sleeves)

abbrev pub same_quotes : List ExecutableQuote → List ExecutableQuote → Bool
same_quotes [] [] = true
same_quotes (a ∷ xs) (b ∷ ys) =
    same_instrument a.instrument b.instrument
    && a.observed_at == b.observed_at
    && a.bid == b.bid
    && a.ask == b.ask
    && a.others == b.others
    && same_quotes xs ys
same_quotes _ _ = false

abbrev pub quoted : Dict ExecutableQuote → SleeveTarget → Bool
quoted quotes s = all (λ leg. has_key leg.instrument.key quotes) s.forecast_target.legs

-- What the inputs have to be; `content_hash` is the digest of the account.
unfoldable pub check_inputs :
    (PortfolioAccountSnapshot → ℕ)
    → PortfolioTarget
    → PortfolioAccountSnapshot
    → List ExecutableQuote
    → List SleeveRiskProfile
    → Result RiskError Unit
check_inputs content_hash target account quotes profiles =
    let ids = map (λ s. s.sleeve_id) target.sleeves in
    let by_key = index_by (λ q. q.instrument.key) [] quotes in
    let by_sleeve = index_by (λ p. p.sleeve_id) [] profiles in
    validated
      ((not (is_sorted_set (map (λ q. q.instrument.key) quotes)), entries_unordered)
        ∷ (not (is_sorted_set (map (λ p. p.sleeve_id) profiles)), entries_unordered)
        ∷ (any (λ s. not (contains s.sleeve_id ids)) account.sleeves, exits_missing)
        ∷ (not (all (quoted by_key) target.sleeves), quotes_missing)
        ∷ (
          not (
              all (λ id. has_key id by_sleeve) ids && all (λ p. contains p.sleeve_id ids) profiles),
          profiles_inexact,
        )
        ∷ (
          not (
              target.account_snapshot_id == account.snapshot_id
              && target.account_snapshot_hash == content_hash account
              && same_ℤ (pos target.reference_equity) account.equity),
          account_changed,
        )
        ∷ (not (same_quotes target.quotes quotes), quotes_changed)
        ∷ [])
      tt

module _ (policy : PortfolioRiskPolicy) where
  unfoldable pub force_cash : PortfolioAccountSnapshot → Bool
  force_cash account =
      policy.kill_switch
      || account.kill_switch_active
      || is_less (pos policy.maximum_drawdown_fraction) account.drawdown_fraction

  unfoldable pub gate_sleeve :
      PortfolioAccountSnapshot
      → Dict ExecutableQuote
      → Dict SleeveRiskProfile
      → Time
      → SleeveTarget
      → Result RiskError Gated
  gate_sleeve account quotes profiles as_of sleeve = elim (get sleeve.sleeve_id profiles) [
    | none ↦ err profiles_inexact
    | some profile ↦
        sleeve_gross_notional
          (get sleeve.sleeve_id (index_by (λ s. s.sleeve_id) [] account.sleeves)) quotes
        >>= λ current.
            let left =
              gate (force_cash account) (new_risk_allowed policy quotes sleeve account as_of)
                sleeve.desired_gross_notional current in
            ok record { sleeve = sleeve; profile = profile; requested = left.0; reason = left.1 }
  ]

  unfoldable pub gate_all :
      PortfolioAccountSnapshot
      → Dict ExecutableQuote
      → Dict SleeveRiskProfile
      → Time
      → List SleeveTarget
      → Result RiskError (List Gated)
  gate_all account quotes profiles as_of [] = ok []
  gate_all account quotes profiles as_of (s ∷ ss) = do
    first ← gate_sleeve account quotes profiles as_of s
    rest ← gate_all account quotes profiles as_of ss
    ok (first ∷ rest)

  abbrev pub approval : Decimal → Decimal → Gated → ApprovedSleeve
  approval equity scale g =
      let requested = g.sleeve.desired_gross_notional in
      let approved = min requested (mul g.requested scale) in
      record {
        sleeve_id = g.sleeve.sleeve_id;
        forecast_family = g.sleeve.forecast_family;
        forecast_target = g.sleeve.forecast_target;
        requested_gross_notional = requested;
        approved_gross_notional = approved;
        sleeve_scale = if requested == 0 then 0 else div approved requested;
        risk_profile_version = g.profile.version;
        maximum_unhedged_notional = min approved (mul equity policy.maximum_unhedged_fraction);
        maximum_unhedged_seconds = policy.maximum_unhedged_seconds;
        reason_codes =
            g.reason
            ∷ (if approved == requested then within_envelope else clamped_to_envelope)
            ∷ [];
      }

  unfoldable pub approve_all :
      Decimal → Decimal → List Gated → Result RiskError (List ApprovedSleeve)
  approve_all equity scale [] = ok []
  approve_all equity scale (g ∷ gs) = do
    first ← checked_approval (approval equity scale g)
    rest ← approve_all equity scale gs
    ok (first ∷ rest)

  -- The sleeves of the approved target, or none where the target is no longer valid.
  unfoldable pub evaluate :
      (PortfolioAccountSnapshot → ℕ)
      → PortfolioTarget
      → PortfolioAccountSnapshot
      → List ExecutableQuote
      → List SleeveRiskProfile
      → Time
      → Result RiskError (Option (List ApprovedSleeve))
  evaluate content_hash target account quotes profiles as_of =
      let by_key = index_by (λ q. q.instrument.key) [] quotes in
      let by_sleeve = index_by (λ p. p.sleeve_id) [] profiles in
      let equity = min target.reference_equity (pos_part account.equity) in
      check_inputs content_hash target account quotes profiles
      >> (if leb target.valid_until as_of
          then ok none
          else gate_all account by_key by_sleeve as_of target.sleeves >>= λ gated.
              approve_all equity (global_scale policy gated equity) gated >>= λ sleeves.
              approved_target equity sleeves)

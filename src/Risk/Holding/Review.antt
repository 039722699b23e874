-- ===== src/Risk/Holding/Review.antt =====
-- risk/portfolio.py: `PortfolioRiskEngine.review_holding` and the authorization to reduce.
use ai_investment_manager.Prelude.{
  ℕ, Bool, not, ◌&&◌, ◌||◌, Option, none, some, List, [], ◌∷◌, map, all, select, contains,
  is_nonempty, ◌==◌, ltb, Result, ok, err, raise_if, ◌>>◌, ◌>>=◌,
}
use ai_investment_manager.Prelude.Int.{ℤ, pos, is_less}
use ai_investment_manager.Prelude.Dict.{Dict, get, values, index_by}
use ai_investment_manager.Prelude.Sorting.{sorted}
use ai_investment_manager.Kernel.{Time}
use ai_investment_manager.Kernel.Decimal.{Decimal}
use ai_investment_manager.Kernel.Signed.{scale}
use ai_investment_manager.Portfolio.Target.{ApprovedSleeve}
use ai_investment_manager.Portfolio.Account.{
  InstrumentPosition, SleevePosition, PortfolioAccountSnapshot, is_sorted_set,
}
use ai_investment_manager.Risk.Policy.{
  RiskError, quotes_missing, profiles_inexact, entries_unordered, reduction_invalid,
  PortfolioRiskPolicy, SleeveRiskProfile, ExecutableQuote, is_fresh, quotes_aligned,
}
use ai_investment_manager.Risk.Exposure.{Exposure, no_exposure, sum_abs, largest}
use ai_investment_manager.Risk.Evaluate.{sleeve_gross_notional, checked_approval}
use ai_investment_manager.Risk.Holding.{
  HoldingRiskOutcome, hold, exit, defer, RuleResult, HoldingRule, account_reconciled,
  execution_clear, input_freshness, quote_alignment, kill_switch_clear, drawdown_limit,
  gross_exposure, net_delta, instrument_exposure, margin, stress_loss, fail_code, programmatic_exit,
  holding_outcome, holdings,
}

-- The identities and hashes of the inputs are left out. The validator of the review recomputes its
-- outcome from its rules, and compares the authorization with what it is made of.
pub record PortfolioHoldingRiskReview : Type 0 where
  pub account_snapshot_id : ℕ
  pub reviewed_at : Time
  pub outcome : HoldingRiskOutcome
  pub rule_results : List RuleResult
  pub reduction_authorization : Option (List ApprovedSleeve)

abbrev pub covers_exactly : List ℕ → List ℕ → Bool
covers_exactly xs ys = all (λ x. contains x ys) xs && all (λ y. contains y xs) ys

-- The instants of the quotes that the positions have.
unfoldable pub position_times : Dict ExecutableQuote → List InstrumentPosition → List Time
position_times quotes [] = []
position_times quotes (p ∷ ps) = elim (get p.instrument.key quotes) [
  | none ↦ position_times quotes ps
  | some q ↦ q.observed_at ∷ position_times quotes ps
]

unfoldable pub exit_codes : List RuleResult → List ℕ
exit_codes rules =
    sorted ltb
      (programmatic_exit ∷ map (λ r. fail_code r.rule_id) (select (λ r. not r.passed) rules))

-- The constructor of `RiskReductionAuthorization` with its validator.
abbrev pub is_reduction : ApprovedSleeve → Bool
is_reduction s =
    not (s.requested_gross_notional == 0)
    && s.approved_gross_notional == 0
    && s.sleeve_scale == 0
    && s.maximum_unhedged_notional == 0

unfoldable pub checked_reduction :
    List ℕ → List ApprovedSleeve → Result RiskError (List ApprovedSleeve)
checked_reduction codes sleeves = do
  raise_if (not (is_nonempty sleeves)) reduction_invalid
  raise_if (not (is_sorted_set codes)) entries_unordered
  raise_if (not (is_sorted_set (map (λ s. s.sleeve_id) sleeves))) entries_unordered
  raise_if (not (all is_reduction sleeves)) reduction_invalid
  ok sleeves

module _ (policy : PortfolioRiskPolicy) where
  -- `observed <= equity * fraction`
  abbrev pub is_within_limit : ℤ → Decimal → Decimal → Bool
  is_within_limit equity fraction observed = not (is_less (scale equity fraction) (pos observed))

  unfoldable pub holding_rules :
      PortfolioAccountSnapshot
      → List ExecutableQuote
      → Dict ExecutableQuote
      → Exposure
      → Time
      → List RuleResult
  holding_rules account quotes by_key x as_of =
      let within = is_within_limit account.equity in
      map (λ (c : HoldingRule × Bool). record { rule_id = c.0; passed = c.1 })
        ((account_reconciled, account.reconciled)
          ∷ (execution_clear, not (is_nonempty account.pending_execution_group_ids))
          ∷ (
            input_freshness,
            is_fresh account.observed_at as_of policy.maximum_account_age_seconds
                && all (λ q. is_fresh q.observed_at as_of policy.maximum_quote_age_seconds) quotes,
          )
          ∷ (
            quote_alignment,
            all (λ s. quotes_aligned policy (position_times by_key s.legs)) account.sleeves,
          )
          ∷ (kill_switch_clear, not (policy.kill_switch || account.kill_switch_active))
          ∷ (
            drawdown_limit,
            not (is_less (pos policy.maximum_drawdown_fraction) account.drawdown_fraction),
          )
          ∷ (gross_exposure, within policy.maximum_gross_exposure_fraction x.gross)
          ∷ (net_delta, within policy.maximum_net_delta_fraction (sum_abs (values x.net_by_asset)))
          ∷ (
            instrument_exposure,
            within policy.maximum_instrument_fraction (largest (values x.instrument_gross)),
          )
          ∷ (margin, within policy.maximum_margin_fraction x.margin)
          ∷ (stress_loss, within policy.maximum_stress_loss_fraction x.stress_loss)
          ∷ [])

  unfoldable pub reduce_sleeve :
      Dict ExecutableQuote
      → Dict SleeveRiskProfile
      → List ℕ
      → SleevePosition
      → Result RiskError ApprovedSleeve
  reduce_sleeve quotes profiles codes s = elim (get s.sleeve_id profiles) [
    | none ↦ err profiles_inexact
    | some profile ↦ sleeve_gross_notional (some s) quotes >>= λ requested.
        checked_approval record {
          sleeve_id = s.sleeve_id;
          forecast_family = s.forecast_family;
          forecast_target = s.target;
          requested_gross_notional = requested;
          approved_gross_notional = 0;
          sleeve_scale = 0;
          risk_profile_version = profile.version;
          maximum_unhedged_notional = 0;
          maximum_unhedged_seconds = policy.maximum_unhedged_seconds;
          reason_codes = codes;
        }
  ]

  unfoldable pub reduce_all :
      Dict ExecutableQuote
      → Dict SleeveRiskProfile
      → List ℕ
      → List SleevePosition
      → Result RiskError (List ApprovedSleeve)
  reduce_all quotes profiles codes [] = ok []
  reduce_all quotes profiles codes (s ∷ ss) = do
    first ← reduce_sleeve quotes profiles codes s
    rest ← reduce_all quotes profiles codes ss
    ok (first ∷ rest)

  -- Only an exit has an authorization.
  unfoldable pub authorization :
      Dict ExecutableQuote
      → Dict SleeveRiskProfile
      → PortfolioAccountSnapshot
      → List RuleResult
      → HoldingRiskOutcome
      → Result RiskError (Option (List ApprovedSleeve))
  authorization quotes profiles account rules exit =
      let codes = exit_codes rules in
      reduce_all quotes profiles codes account.sleeves >>= λ sleeves.
      checked_reduction codes sleeves >>= λ valid. ok (some valid)
  authorization quotes profiles account rules hold = ok none
  authorization quotes profiles account rules defer = ok none

  -- What the quotes and the profiles have to be.
  unfoldable pub check_holding :
      PortfolioAccountSnapshot
      → List ExecutableQuote
      → List SleeveRiskProfile
      → Result RiskError Unit
  check_holding account quotes profiles =
      let keys = map (λ q. q.instrument.key) quotes in
      let ids = map (λ p. p.sleeve_id) profiles in
      do
        raise_if (not (is_sorted_set keys)) entries_unordered
        raise_if (not (is_sorted_set ids)) entries_unordered
        raise_if (not (covers_exactly (map (λ p. p.instrument.key) account.positions) keys))
            quotes_missing
        raise_if (not (covers_exactly (map (λ s. s.sleeve_id) account.sleeves) ids))
            profiles_inexact

  unfoldable pub review_holding :
      PortfolioAccountSnapshot
      → List ExecutableQuote
      → List SleeveRiskProfile
      → Time
      → Result RiskError PortfolioHoldingRiskReview
  review_holding account quotes profiles as_of =
      let by_key = index_by (λ q. q.instrument.key) [] quotes in
      let by_sleeve = index_by (λ p. p.sleeve_id) [] profiles in
      check_holding account quotes profiles
      >> (holdings by_key by_sleeve account.sleeves no_exposure >>= λ x.
          let rules = holding_rules account quotes by_key x as_of in
          let outcome = holding_outcome rules in
          authorization by_key by_sleeve account rules outcome >>= λ sleeves. ok record {
            account_snapshot_id = account.snapshot_id;
            reviewed_at = as_of;
            outcome = outcome;
            rule_results = rules;
            reduction_authorization = sleeves;
          })

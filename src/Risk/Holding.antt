-- ===== src/Risk/Holding.antt =====
-- risk/portfolio.py: what `PortfolioRiskEngine.review_holding` observes, and its outcome.
pub mod Review
pub mod Reduction
pub mod Outcome
mod Examples
use ai_investment_manager.Prelude.{
  ℕ, ◌+◌, Bool, true, false, not, ◌&&◌, ◌||◌, Option, none, some, List, [], ◌∷◌, map, all, any,
  select, contains, is_nonempty, leb, ◌==◌, ltb, if◌then◌else◌, Result, ok, err, raise_if, ◌>>◌,
  ◌>>=◌,
}
use ai_investment_manager.Prelude.Int.{ℤ, pos, ◌+ℤ◌, negate, abs, is_positive, is_less}
use ai_investment_manager.Prelude.Dict.{Dict, get, put, values, has_key, index_by}
use ai_investment_manager.Prelude.Sorting.{sorted}
use ai_investment_manager.Kernel.{Time, seconds}
use ai_investment_manager.Kernel.Decimal.{Decimal, one, mul, div}
use ai_investment_manager.Kernel.Signed.{scale}
use ai_investment_manager.Portfolio.Target.{ApprovedSleeve}
use ai_investment_manager.Portfolio.Account.{
  InstrumentPosition, SleevePosition, PortfolioAccountSnapshot, is_sorted_set, default_quantity,
}
use ai_investment_manager.Accounting.Error.{is_spot}
use ai_investment_manager.Risk.Policy.{
  RiskError, quotes_missing, profiles_inexact, entries_unordered, sleeve_unquoted,
  reduction_invalid, PortfolioRiskPolicy, SleeveRiskProfile, total_stress_bps, ExecutableQuote,
  basis_points, is_fresh, quotes_aligned,
}
use ai_investment_manager.Risk.Exposure.{Exposure, no_exposure, or_nothing, sum_abs, largest}
use ai_investment_manager.Risk.Evaluate.{sleeve_gross_notional, checked_approval}

pub data HoldingRiskOutcome : Type 0 where
  hold exit defer : HoldingRiskOutcome

pub data HoldingRule : Type 0 where
  account_reconciled execution_clear input_freshness quote_alignment : HoldingRule
  kill_switch_clear drawdown_limit gross_exposure net_delta instrument_exposure margin : HoldingRule
  stress_loss : HoldingRule

-- A rule with its result; the texts of what it has observed are left out.
pub record RuleResult : Type 0 where
  pub rule_id : HoldingRule
  pub passed : Bool

-- The rules that do not let the review judge the exposure.
abbrev pub is_gating : HoldingRule → Bool
is_gating account_reconciled = true
is_gating execution_clear = true
is_gating input_freshness = true
is_gating quote_alignment = true
is_gating _ = false

-- The codes of the failed rules and `PROGRAMMATIC_RISK_EXIT`, in the order of their texts.
abbrev pub fail_code : HoldingRule → ℕ
fail_code account_reconciled = 0
fail_code drawdown_limit = 1
fail_code execution_clear = 2
fail_code gross_exposure = 3
fail_code input_freshness = 4
fail_code quote_alignment = 5
fail_code instrument_exposure = 6
fail_code kill_switch_clear = 7
fail_code margin = 8
fail_code net_delta = 9
fail_code stress_loss = 11

abbrev pub programmatic_exit : ℕ
programmatic_exit = 10

unfoldable pub holding_outcome : List RuleResult → HoldingRiskOutcome
holding_outcome rules =
    if any (λ r. is_gating r.rule_id && not r.passed) rules
    then defer
    else if any (λ r. not (is_gating r.rule_id) && not r.passed) rules
    then exit
    else hold

abbrev pub position_notional : InstrumentPosition → ExecutableQuote → Decimal
position_notional p q =
    mul (mul (abs p.quantity) (if is_positive p.quantity then q.bid else q.ask))
      p.instrument.contract_multiplier

-- What a position adds to the sums.
unfoldable pub add_position :
    SleeveRiskProfile → InstrumentPosition → ExecutableQuote → Exposure → Exposure
add_position profile p q x =
    let notional = position_notional p q in
    let asset = p.instrument.base_asset in
    let key = p.instrument.key in
    record {
      gross = x.gross + notional;
      net_by_asset =
          put asset
            (default_quantity asset x.net_by_asset
              +ℤ (if is_positive p.quantity then pos notional else negate (pos notional)))
            x.net_by_asset;
      instrument_gross =
          put key (or_nothing (get key x.instrument_gross) + notional) x.instrument_gross;
      margin =
          x.margin
          + mul notional
              (if is_spot p.instrument then one else profile.derivative_initial_margin_fraction);
      stress_loss = x.stress_loss;
    }

-- The sums and those of the sleeve alone. A missing quote is a `KeyError`.
unfoldable pub add_positions :
    Dict ExecutableQuote
    → SleeveRiskProfile
    → List InstrumentPosition
    → Exposure
    → Decimal
    → Result RiskError (Exposure × Decimal)
add_positions quotes profile [] x sleeve_gross = ok (x, sleeve_gross)
add_positions quotes profile (p ∷ ps) x sleeve_gross = elim (get p.instrument.key quotes) [
  | none ↦ err sleeve_unquoted
  | some q ↦
      add_positions quotes profile ps (add_position profile p q x)
        (sleeve_gross + position_notional p q)
]

unfoldable pub add_holding :
    Dict ExecutableQuote
    → Dict SleeveRiskProfile
    → SleevePosition
    → Exposure
    → Result RiskError Exposure
add_holding quotes profiles s x = elim (get s.sleeve_id profiles) [
  | none ↦ err profiles_inexact
  | some profile ↦ add_positions quotes profile s.legs x 0 >>= λ sums.
      let y = sums.0 in
      ok record y {
        stress_loss = y.stress_loss + div (mul sums.1 (total_stress_bps profile)) basis_points;
      }
]

unfoldable pub holdings :
    Dict ExecutableQuote
    → Dict SleeveRiskProfile
    → List SleevePosition
    → Exposure
    → Result RiskError Exposure
holdings quotes profiles [] x = ok x
holdings quotes profiles (s ∷ ss) x = do
  y ← add_holding quotes profiles s x
  holdings quotes profiles ss y

-- ===== src/Risk/Holding/Examples.antt =====
-- An account with one position, above the limit of the gross exposure.
use ai_investment_manager.Prelude.{◌*◌, false, true, Bool, some, List, [], ◌∷◌}
use ai_investment_manager.Prelude.Int.{pos}
use ai_investment_manager.Kernel.{seconds}
use ai_investment_manager.Kernel.Decimal.{one}
use ai_investment_manager.Portfolio.Target.{ApprovedSleeve}
use ai_investment_manager.Portfolio.Account.{PortfolioAccountSnapshot, InstrumentPosition}
use ai_investment_manager.Risk.Exposure.{Exposure}
use ai_investment_manager.Risk.Holding.{
  exit, HoldingRule, RuleResult, account_reconciled, execution_clear, input_freshness,
  quote_alignment, kill_switch_clear, drawdown_limit, gross_exposure, net_delta,
  instrument_exposure, margin, stress_loss,
}
use ai_investment_manager.Risk.Holding.Review.{PortfolioHoldingRiskReview}
use ai_investment_manager.Risk.Examples.{perpetual, sleeve, account}

abbrev position : InstrumentPosition
position = record { instrument = perpetual; quantity = pos one; average_price = pos (900 * one) }

abbrev held_account : PortfolioAccountSnapshot
held_account = record account {
  positions = position ∷ [];
  sleeves =
      record {
        sleeve_id = 7;
        forecast_family = 8;
        target = sleeve.forecast_target;
        legs = position ∷ [];
      }
      ∷ [];
}

abbrev reduced : List ApprovedSleeve
reduced =
    record {
      sleeve_id = 7;
      forecast_family = 8;
      forecast_target = sleeve.forecast_target;
      requested_gross_notional = 1000 * one;
      approved_gross_notional = 0;
      sleeve_scale = 0;
      risk_profile_version = 1;
      maximum_unhedged_notional = 0;
      maximum_unhedged_seconds = 30;
      reason_codes = 3 ∷ 10 ∷ [];
    }
    ∷ []

abbrev result : HoldingRule → Bool → RuleResult
result rule passed = record { rule_id = rule; passed = passed }

abbrev exited : PortfolioHoldingRiskReview
exited = record {
  account_snapshot_id = 1;
  reviewed_at = seconds 110;
  outcome = exit;
  rule_results =
      result account_reconciled true
      ∷ result execution_clear true
      ∷ result input_freshness true
      ∷ result quote_alignment true
      ∷ result kill_switch_clear true
      ∷ result drawdown_limit true
      ∷ result gross_exposure false
      ∷ result net_delta true
      ∷ result instrument_exposure true
      ∷ result margin true
      ∷ result stress_loss true
      ∷ [];
  reduction_authorization = some reduced;
}

-- ===== src/Risk/Examples.antt =====
-- A target of one sleeve, above the limit of the gross exposure.
use ai_investment_manager.Prelude.{
  ◌*◌, ◌/◌, ◌≡◌, ◌<◌, ◌≤◌, refl, false, true, none, some, List, [], ◌∷◌, ok,
}
use ai_investment_manager.Prelude.Int.{pos, ◌+ℤ◌}
use ai_investment_manager.Prelude.Dict.{index_by, put, get, values}
use ai_investment_manager.Prelude.Sorting.{sorted}
use ai_investment_manager.Kernel.{seconds}
use ai_investment_manager.Kernel.Decimal.{one, mul, div, round_div}
use ai_investment_manager.Execution.Leg.{InstrumentId}
use ai_investment_manager.Portfolio.Target.{long, ApprovedSleeve}
use ai_investment_manager.Portfolio.Account.{PortfolioAccountSnapshot}
use ai_investment_manager.Risk.Policy.{
  PortfolioRiskPolicy, SleeveRiskProfile, ExecutableQuote, SleeveTarget, PortfolioTarget,
  quote_times, quotes_aligned, spread_bps, new_risk_allowed,
}
use ai_investment_manager.Risk.Exposure.{
  add_leg, add_legs_of, exposure_of, limit_scale, global_scale,
}
use ai_investment_manager.Risk.Evaluate.{
  legs_notional, sleeve_gross_notional, force_cash, gate, gate_sleeve, gate_all, checked_approval,
  approve_all, total_approved, approved_target, check_inputs, evaluate,
}
use ai_investment_manager.Risk.Reduced.{AllClamped, evaluate-AllClamped}

abbrev pub perpetual : InstrumentId
perpetual = record {
  key = 1;
  product = 1;
  base_asset = 2;
  quote_asset = 3;
  settlement_asset = 3;
  contract_multiplier = one;
  tradfi_market = none;
}

abbrev pub policy : PortfolioRiskPolicy
policy = record {
  instrument_allowlist = 1 ∷ [];
  maximum_quote_age_seconds = 60;
  maximum_quote_skew_seconds = 10;
  maximum_account_age_seconds = 60;
  maximum_drawdown_fraction = one / 10;
  maximum_gross_exposure_fraction = one / 20;
  maximum_net_delta_fraction = one;
  maximum_instrument_fraction = one;
  maximum_margin_fraction = one;
  maximum_stress_loss_fraction = one;
  maximum_spread_bps = 20 * one;
  maximum_unhedged_fraction = one / 100;
  maximum_unhedged_seconds = 30;
  kill_switch = false;
}

abbrev pub sleeve : SleeveTarget
sleeve = record {
  sleeve_id = 7;
  forecast_family = 8;
  forecast_target = record {
    target_id = 9;
    legs = record { instrument = perpetual; direction = long; gross_weight = one } ∷ [];
    quantity_mode = 0;
  };
  desired_gross_notional = 100 * one;
}

abbrev pub account : PortfolioAccountSnapshot
account = record {
  snapshot_id = 1;
  cycle_id = 1;
  portfolio_id = 1;
  revision = 0;
  as_of = seconds 100;
  observed_at = seconds 100;
  settlement_asset = 3;
  cash_balance = pos (1000 * one);
  equity = pos (1000 * one);
  equity_high_water = pos (1000 * one);
  daily_pnl = pos 0;
  drawdown_fraction = pos 0;
  accounting = none;
  positions = [];
  sleeves = [];
  pending_execution_group_ids = [];
  kill_switch_active = false;
  reconciled = true;
}

abbrev pub quotes : List ExecutableQuote
quotes =
    record {
      instrument = perpetual;
      observed_at = seconds 100;
      bid = 1000 * one;
      ask = 1001 * one;
      others = 0;
    }
    ∷ []

abbrev pub profiles : List SleeveRiskProfile
profiles =
    record {
      sleeve_id = 7;
      version = 1;
      basis_stress_bps = 100 * one;
      funding_stress_bps = 50 * one;
      execution_stress_bps = 50 * one;
      derivative_initial_margin_fraction = one / 10;
    }
    ∷ []

abbrev requested : PortfolioTarget
requested = record {
  account_snapshot_id = 1;
  account_snapshot_hash = 1;
  reference_equity = 1000 * one;
  valid_until = seconds 200;
  quotes = quotes;
  sleeves = sleeve ∷ [];
}

-- Half of the request: a twentieth of the equity.
abbrev granted : List ApprovedSleeve
granted =
    record {
      sleeve_id = 7;
      forecast_family = 8;
      forecast_target = sleeve.forecast_target;
      requested_gross_notional = 100 * one;
      approved_gross_notional = 50 * one;
      sleeve_scale = one / 2;
      risk_profile_version = 1;
      maximum_unhedged_notional = 10 * one;
      maximum_unhedged_seconds = 30;
      reason_codes = 2 ∷ 4 ∷ [];
    }
    ∷ []

half_approved :
    evaluate policy (λ a. a.snapshot_id) requested account quotes profiles (seconds 110)
    ≡ ok (some granted)
unfolding evaluate check_inputs gate_all gate_sleeve gate force_cash sleeve_gross_notional
    legs_notional new_risk_allowed quotes_aligned quote_times spread_bps global_scale exposure_of
    add_legs_of add_leg limit_scale approve_all checked_approval approved_target mul div round_div
    sorted index_by put get values ◌+ℤ◌
half_approved = refl

evaluate-AllClamped_example :
    (seconds 110 < seconds 200)
    × AllClamped policy account
        (index_by (λ q. q.instrument.key) [] quotes)
        (seconds 110)
        (sleeve ∷ [])
        granted
    × (total_approved granted ≤ 1000 * one)
evaluate-AllClamped_example =
    evaluate-AllClamped policy (λ a. a.snapshot_id) requested account quotes profiles (seconds 110)
      granted half_approved

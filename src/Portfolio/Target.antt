-- ===== src/Portfolio/Target.antt =====
-- forecast/models.py: `ForecastTarget` and its legs; risk/portfolio.py: `ApprovedSleeve`.
use ai_investment_manager.Prelude.{ℕ, Bool, true, false, List}
use ai_investment_manager.Kernel.Decimal.{Decimal}
use ai_investment_manager.Execution.Leg.{InstrumentId}

pub data ExposureDirection : Type 0 where
  long short : ExposureDirection

-- `direction == ExposureDirection.LONG`
abbrev pub is_long : ExposureDirection → Bool
is_long long = true
is_long short = false

pub record ForecastLeg : Type 0 where
  pub instrument : InstrumentId
  pub direction : ExposureDirection
  pub gross_weight : Decimal

-- `quantity_mode` is the number of the mode.
pub record ForecastTarget : Type 0 where
  pub target_id : ℕ
  pub legs : List ForecastLeg
  pub quantity_mode : ℕ

pub record ApprovedSleeve : Type 0 where
  pub sleeve_id : ℕ
  pub forecast_family : ℕ
  pub forecast_target : ForecastTarget
  pub requested_gross_notional : Decimal
  pub approved_gross_notional : Decimal
  pub sleeve_scale : Decimal
  pub risk_profile_version : ℕ
  pub maximum_unhedged_notional : Decimal
  pub maximum_unhedged_seconds : ℕ
  pub reason_codes : List ℕ

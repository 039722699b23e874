-- ===== src/Risk/Policy.antt =====
-- risk/portfolio.py: the policy, the profiles, and the checks of `_new_risk_allowed`;
-- portfolio/models.py: the fields of a target that the engine reads. The rule results only record
-- the checks and are not modelled.
use ai_investment_manager.Prelude.{
  ℕ, ◌+◌, ◌-◌, ◌*◌, max, min, Bool, false, not, ◌&&◌, Option, none, some, List, [], ◌∷◌, all,
  contains, is_nonempty, leb,
}
use ai_investment_manager.Prelude.Dict.{Dict, get}
use ai_investment_manager.Kernel.{Time, seconds}
use ai_investment_manager.Kernel.Decimal.{Decimal, one, mul, div}
use ai_investment_manager.Execution.Leg.{InstrumentId}
use ai_investment_manager.Portfolio.Target.{ForecastLeg, ForecastTarget}
use ai_investment_manager.Portfolio.Account.{PortfolioAccountSnapshot}

pub data RiskError : Type 0 where
  exits_missing quotes_missing profiles_inexact account_changed quotes_changed : RiskError
  entries_unordered sleeve_unquoted exposure_increased scale_wrong unhedged_above : RiskError
  levered reduction_invalid : RiskError

pub record PortfolioRiskPolicy : Type 0 where
  pub instrument_allowlist : List ℕ
  pub maximum_quote_age_seconds : ℕ
  pub maximum_quote_skew_seconds : ℕ
  pub maximum_account_age_seconds : ℕ
  pub maximum_drawdown_fraction : Decimal
  pub maximum_gross_exposure_fraction : Decimal
  pub maximum_net_delta_fraction : Decimal
  pub maximum_instrument_fraction : Decimal
  pub maximum_margin_fraction : Decimal
  pub maximum_stress_loss_fraction : Decimal
  pub maximum_spread_bps : Decimal
  pub maximum_unhedged_fraction : Decimal
  pub maximum_unhedged_seconds : ℕ
  pub kill_switch : Bool

pub record SleeveRiskProfile : Type 0 where
  pub sleeve_id : ℕ
  pub version : ℕ
  pub basis_stress_bps : Decimal
  pub funding_stress_bps : Decimal
  pub execution_stress_bps : Decimal
  pub derivative_initial_margin_fraction : Decimal

abbrev pub total_stress_bps : SleeveRiskProfile → Decimal
total_stress_bps p = p.basis_stress_bps + p.funding_stress_bps + p.execution_stress_bps

-- The fields that the engine reads; it only compares the others, which `others` stands for.
pub record ExecutableQuote : Type 0 where
  pub instrument : InstrumentId
  pub observed_at : Time
  pub bid : Decimal
  pub ask : Decimal
  pub others : ℕ

pub record SleeveTarget : Type 0 where
  pub sleeve_id : ℕ
  pub forecast_family : ℕ
  pub forecast_target : ForecastTarget
  pub desired_gross_notional : Decimal

pub record PortfolioTarget : Type 0 where
  pub account_snapshot_id : ℕ
  pub account_snapshot_hash : ℕ
  pub reference_equity : Decimal
  pub valid_until : Time
  pub quotes : List ExecutableQuote
  pub sleeves : List SleeveTarget

-- `_BPS`
abbrev pub basis_points : Decimal
basis_points = 10000 * one

abbrev pub is_fresh : Time → Time → ℕ → Bool
is_fresh observed_at as_of maximum_age =
    leb observed_at as_of && leb (as_of - observed_at) (seconds maximum_age)

-- `max(observed)` and `min(observed)`
abbrev pub latest_time : Time → List Time → Time
latest_time t [] = t
latest_time t (u ∷ us) = max t (latest_time u us)

abbrev pub earliest_time : Time → List Time → Time
earliest_time t [] = t
earliest_time t (u ∷ us) = min t (earliest_time u us)

-- The instants of the quotes that the legs have.
unfoldable pub quote_times : Dict ExecutableQuote → List ForecastLeg → List Time
quote_times quotes [] = []
quote_times quotes (leg ∷ legs) = elim (get leg.instrument.key quotes) [
  | none ↦ quote_times quotes legs
  | some q ↦ q.observed_at ∷ quote_times quotes legs
]

-- `(ask - bid) / bid * _BPS`; an ask is not below its bid.
unfoldable pub spread_bps : ExecutableQuote → Decimal
spread_bps q = mul (div (q.ask - q.bid) q.bid) basis_points

module _ (policy : PortfolioRiskPolicy) where
  unfoldable pub quotes_aligned : List Time → Bool
  quotes_aligned [] = false
  quotes_aligned (t ∷ ts) =
      leb (latest_time t ts - earliest_time t ts) (seconds policy.maximum_quote_skew_seconds)

  abbrev pub quote_allowed : Time → Option ExecutableQuote → Bool
  quote_allowed as_of none = false
  quote_allowed as_of (some q) =
      is_fresh q.observed_at as_of policy.maximum_quote_age_seconds
      && leb (spread_bps q) policy.maximum_spread_bps

  abbrev pub leg_allowed : Dict ExecutableQuote → Time → ForecastLeg → Bool
  leg_allowed quotes as_of leg =
      contains leg.instrument.key policy.instrument_allowlist
      && quote_allowed as_of (get leg.instrument.key quotes)

  unfoldable pub new_risk_allowed :
      Dict ExecutableQuote → SleeveTarget → PortfolioAccountSnapshot → Time → Bool
  new_risk_allowed quotes sleeve account as_of =
      account.reconciled
      && not (is_nonempty account.pending_execution_group_ids)
      && is_fresh account.observed_at as_of policy.maximum_account_age_seconds
      && quotes_aligned (quote_times quotes sleeve.forecast_target.legs)
      && all (leg_allowed quotes as_of) sleeve.forecast_target.legs

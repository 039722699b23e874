-- ===== src/Risk/Exposure.antt =====
-- risk/portfolio.py: `_global_scale`, `_limit_scale`.
use ai_investment_manager.Prelude.{
  ℕ, ◌+◌, max, min, Option, none, some, List, [], ◌∷◌, ◌==◌, if◌then◌else◌,
}
use ai_investment_manager.Prelude.Int.{ℤ, pos, ◌+ℤ◌, negate, abs}
use ai_investment_manager.Prelude.Dict.{Dict, get, put, values}
use ai_investment_manager.Kernel.Decimal.{Decimal, one, mul, div}
use ai_investment_manager.Portfolio.Target.{ForecastLeg, is_long}
use ai_investment_manager.Portfolio.Account.{default_quantity}
use ai_investment_manager.Accounting.Error.{is_spot}
use ai_investment_manager.Risk.Policy.{
  PortfolioRiskPolicy, SleeveRiskProfile, total_stress_bps, SleeveTarget, basis_points,
}

-- A sleeve with its profile and what its gates have left of its request. The identities of the
-- sleeves of a target differ, so the dictionaries by identity are read as this sequence.
pub record Gated : Type 0 where
  pub sleeve : SleeveTarget
  pub profile : SleeveRiskProfile
  pub requested : Decimal
  pub reason : ℕ

-- The sums of the loop.
pub record Exposure : Type 0 where
  pub gross : Decimal
  pub net_by_asset : Dict ℤ
  pub instrument_gross : Dict Decimal
  pub margin : Decimal
  pub stress_loss : Decimal

abbrev pub no_exposure : Exposure
no_exposure = record {
  gross = 0;
  net_by_asset = [];
  instrument_gross = [];
  margin = 0;
  stress_loss = 0;
}

abbrev pub or_nothing : Option Decimal → Decimal
or_nothing none = 0
or_nothing (some d) = d

unfoldable pub add_leg : SleeveRiskProfile → Decimal → ForecastLeg → Exposure → Exposure
add_leg profile requested leg x =
    let notional = mul requested leg.gross_weight in
    let asset = leg.instrument.base_asset in
    let key = leg.instrument.key in
    record x {
      net_by_asset =
          put asset
            (default_quantity asset x.net_by_asset
              +ℤ (if is_long leg.direction then pos notional else negate (pos notional)))
            x.net_by_asset;
      instrument_gross =
          put key (or_nothing (get key x.instrument_gross) + notional) x.instrument_gross;
      margin =
          x.margin
          + mul notional
              (if is_spot leg.instrument then one else profile.derivative_initial_margin_fraction);
    }

unfoldable pub add_legs_of : SleeveRiskProfile → Decimal → List ForecastLeg → Exposure → Exposure
add_legs_of profile requested [] x = x
add_legs_of profile requested (leg ∷ legs) x =
    add_legs_of profile requested legs (add_leg profile requested leg x)

unfoldable pub exposure_of : List Gated → Exposure → Exposure
exposure_of [] x = x
exposure_of (g ∷ gs) x = exposure_of gs (
    add_legs_of g.profile g.requested g.sleeve.forecast_target.legs record x {
      gross = x.gross + g.requested;
      stress_loss = x.stress_loss + div (mul g.requested (total_stress_bps g.profile)) basis_points;
    })

abbrev pub sum_abs : List ℤ → Decimal
sum_abs [] = 0
sum_abs (q ∷ qs) = abs q + sum_abs qs

abbrev pub largest : List Decimal → Decimal
largest [] = 0
largest (d ∷ ds) = max d (largest ds)

-- A limit is not negative.
unfoldable pub limit_scale : Decimal → Decimal → Decimal
limit_scale observed limit = if observed == 0 then one else min one (div limit observed)

unfoldable pub global_scale : PortfolioRiskPolicy → List Gated → Decimal → Decimal
global_scale policy gated equity =
    let x = exposure_of gated no_exposure in
    if equity == 0
    then 0
    else min (limit_scale x.gross (mul equity policy.maximum_gross_exposure_fraction)) (
        min
          (limit_scale (sum_abs (values x.net_by_asset))
            (mul equity policy.maximum_net_delta_fraction))
          (min
            (limit_scale (largest (values x.instrument_gross))
              (mul equity policy.maximum_instrument_fraction))
            (min (limit_scale x.margin (mul equity policy.maximum_margin_fraction))
              (limit_scale x.stress_loss (mul equity policy.maximum_stress_loss_fraction)))))

-- ===== src/Portfolio/Account.antt =====
-- portfolio/models.py: the account snapshot, its positions and totals, with their validators.
use ai_investment_manager.Prelude.{
  ℕ, Bool, true, false, not, ◌&&◌, ◌||◌, Option, none, some, List, [], ◌∷◌, map, all, select,
  is_nonempty, dedup, same, ltb, ◌==◌, if◌then◌else◌, Result, ok, raise_if, ◌>>◌, validated,
}
use ai_investment_manager.Prelude.Int.{
  ℤ, pos, pos_part, neg_part, ◌+ℤ◌, ◌-ℤ◌, is_zero, is_positive, is_negative, is_less,
}
use ai_investment_manager.Prelude.Dict.{Dict, get, put}
use ai_investment_manager.Prelude.Sorting.{sorted}
use ai_investment_manager.Kernel.{Time}
use ai_investment_manager.Kernel.Decimal.{Decimal, one}
use ai_investment_manager.Execution.Leg.{InstrumentId}
use ai_investment_manager.Portfolio.Target.{ForecastLeg, ForecastTarget, is_long}
use ai_investment_manager.Accounting.Error.{
  AccountError, field_invalid, spot_negative, entries_unordered, legs_outside, leg_direction,
  attribution_unreconciled, observed_late, high_water_low, sleeves_unreconciled,
  equity_unreconciled, is_spot,
}

pub record InstrumentPosition : Type 0 where
  pub instrument : InstrumentId
  pub quantity : ℤ
  pub average_price : ℤ

unfoldable pub checked_position : InstrumentPosition → Result AccountError InstrumentPosition
checked_position p = do
  raise_if (not (is_positive p.average_price) || is_zero p.quantity) field_invalid
  raise_if (is_spot p.instrument && is_negative p.quantity) spot_negative
  ok p

pub record SleevePosition : Type 0 where
  pub sleeve_id : ℕ
  pub forecast_family : ℕ
  pub target : ForecastTarget
  pub legs : List InstrumentPosition

-- `tuple(sorted(set(keys))) == keys`
abbrev pub is_sorted_set : List ℕ → Bool
is_sorted_set keys = same (sorted ltb (dedup keys)) keys

abbrev pub keys_of : List InstrumentPosition → List ℕ
keys_of legs = map (λ p. p.instrument.key) legs

-- Whether a position has its leg of the target, and its direction.
abbrev pub is_within : Dict Bool → InstrumentPosition → Bool
is_within longs p = elim (get p.instrument.key longs) [ none ↦ false | some long ↦ true ]

abbrev pub is_aligned : Dict Bool → InstrumentPosition → Bool
is_aligned longs p = elim (get p.instrument.key longs) [
  | none ↦ false
  | some long ↦ if long then is_positive p.quantity else not (is_positive p.quantity)
]

-- The direction of each leg by its key: whether it is long.
unfoldable pub add_directions : Dict Bool → List ForecastLeg → Dict Bool
add_directions d [] = d
add_directions d (leg ∷ legs) =
    add_directions (put leg.instrument.key (is_long leg.direction) d) legs

unfoldable pub directions : ForecastTarget → Dict Bool
unfolding add_directions
directions t = add_directions [] t.legs

unfoldable pub checked_sleeve : SleevePosition → Result AccountError SleevePosition
unfolding directions
checked_sleeve s = do
  raise_if (not (is_nonempty s.legs)) field_invalid
  raise_if (not (is_sorted_set (keys_of s.legs))) entries_unordered
  raise_if (not (all (is_within (directions s.target)) s.legs)) legs_outside
  raise_if (not (all (is_aligned (directions s.target)) s.legs)) leg_direction
  ok s

pub record PortfolioAccountingTotals : Type 0 where
  pub starting_equity : Decimal
  pub price_pnl : ℤ
  pub funding_pnl : ℤ
  pub fee_cost : Decimal
  pub execution_slippage_cost : ℤ
  pub compensation_loss : Decimal
  pub net_pnl : ℤ

-- `a == b`
abbrev pub same_ℤ : ℤ → ℤ → Bool
same_ℤ a b = pos_part a == pos_part b && neg_part a == neg_part b

-- What the fields and the validator of the constructor refuse. Python compares after it has rounded
-- each sum to 28 significant digits, which the exact sums here do not do.
unfoldable pub totals_tests : PortfolioAccountingTotals → List (Bool × AccountError)
unfolding ◌+ℤ◌ ◌-ℤ◌
totals_tests t =
    (t.starting_equity == 0, field_invalid)
    ∷ (
      not (same_ℤ t.net_pnl (t.price_pnl +ℤ t.funding_pnl -ℤ pos t.fee_cost)),
      attribution_unreconciled,
    )
    ∷ []

unfoldable pub checked_totals :
    PortfolioAccountingTotals → Result AccountError PortfolioAccountingTotals
unfolding totals_tests
checked_totals t = validated (totals_tests t) t

pub record PortfolioAccountSnapshot : Type 0 where
  pub snapshot_id : ℕ
  pub cycle_id : ℕ
  pub portfolio_id : ℕ
  pub revision : ℕ
  pub as_of : Time
  pub observed_at : Time
  pub settlement_asset : ℕ
  pub cash_balance : ℤ
  pub equity : ℤ
  pub equity_high_water : ℤ
  pub daily_pnl : ℤ
  pub drawdown_fraction : ℤ
  pub accounting : Option PortfolioAccountingTotals
  pub positions : List InstrumentPosition
  pub sleeves : List SleevePosition
  pub pending_execution_group_ids : List ℕ
  pub kill_switch_active : Bool
  pub reconciled : Bool

abbrev pub or_zero : Option ℤ → ℤ
or_zero none = pos 0
or_zero (some q) = q

-- `quantities[key]` of the default dictionary
abbrev pub default_quantity : ℕ → Dict ℤ → ℤ
default_quantity key d = or_zero (get key d)

unfoldable pub add_legs : Dict ℤ → List InstrumentPosition → Dict ℤ
unfolding ◌+ℤ◌
add_legs d [] = d
add_legs d (p ∷ legs) =
    add_legs (put p.instrument.key (default_quantity p.instrument.key d +ℤ p.quantity) d) legs

unfoldable pub add_sleeves : Dict ℤ → List SleevePosition → Dict ℤ
unfolding add_legs
add_sleeves d [] = d
add_sleeves d (s ∷ sleeves) = add_sleeves (add_legs d s.legs) sleeves

-- A `dict` compares by content, so the order of its keys is not modelled.
unfoldable pub sleeve_quantities : List SleevePosition → Dict ℤ
unfolding add_sleeves
sleeve_quantities sleeves = select (λ e. not (is_zero e.1)) (add_sleeves [] sleeves)

-- Whether every entry of one dictionary is one of the other.
abbrev pub has_entry : Dict ℤ → ℕ × ℤ → Bool
has_entry d e = elim (get e.0 d) [ none ↦ false | some q ↦ same_ℤ q e.1 ]

unfoldable pub same_quantities : Dict ℤ → Dict ℤ → Bool
same_quantities a b = all (has_entry b) a && all (has_entry a) b

unfoldable pub position_quantities : List InstrumentPosition → Dict ℤ
position_quantities [] = []
position_quantities (p ∷ ps) = (p.instrument.key, p.quantity) ∷ position_quantities ps

-- The checks of the validator between the parts of a snapshot.
abbrev pub is_reconciled : List SleevePosition → List InstrumentPosition → Bool
is_reconciled sleeves positions =
    same_quantities (sleeve_quantities sleeves) (position_quantities positions)

-- Python rounds the sum to 28 significant digits; the sum is exact here.
abbrev pub accounts_for : ℤ → Option PortfolioAccountingTotals → Bool
accounts_for equity none = true
accounts_for equity (some t) = same_ℤ equity (pos t.starting_equity +ℤ t.net_pnl)

-- What the fields and the validators of the constructor refuse, in their order.
unfoldable pub snapshot_tests : PortfolioAccountSnapshot → List (Bool × AccountError)
unfolding sleeve_quantities position_quantities same_quantities ◌+ℤ◌
snapshot_tests s =
    (
      is_negative s.cash_balance || is_negative s.equity || is_negative s.equity_high_water,
      field_invalid,
    )
    ∷ (is_negative s.drawdown_fraction || is_less (pos one) s.drawdown_fraction, field_invalid)
    ∷ (ltb s.as_of s.observed_at, observed_late)
    ∷ (is_less s.equity_high_water s.equity, high_water_low)
    ∷ (not (is_sorted_set (keys_of s.positions)), entries_unordered)
    ∷ (not (is_sorted_set (map (λ x. x.sleeve_id) s.sleeves)), entries_unordered)
    ∷ (not (is_sorted_set s.pending_execution_group_ids), entries_unordered)
    ∷ (s.reconciled && not (is_reconciled s.sleeves s.positions), sleeves_unreconciled)
    ∷ (not (accounts_for s.equity s.accounting), equity_unreconciled)
    ∷ []

unfoldable pub checked_snapshot :
    PortfolioAccountSnapshot → Result AccountError PortfolioAccountSnapshot
unfolding snapshot_tests
checked_snapshot s = validated (snapshot_tests s) s

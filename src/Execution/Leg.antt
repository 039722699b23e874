-- ===== src/Execution/Leg.antt =====
-- execution/models.py: `Side`; execution/group/models.py: `ExecutionLeg`, `compensation_leg`;
-- execution/venue/product.py: `ProductOrder`; execution/group/engine.py: `execution_leg_from_order`.
use ai_investment_manager.Prelude.{
  ℕ, Bool, true, false, not, ◌&&◌, ◌||◌, Option, none, some, [], ◌∷◌, ltb, ◌==◌, is_some, Result,
  ok, raise_if, ◌>>◌,
}
use mathlib.Core.Bool.{xor}
use ai_investment_manager.Kernel.{StableId, Time, execution_leg, group_order}
use ai_investment_manager.Kernel.Decimal.{Decimal}

-- The exceptions; `unknown_venue_result` is the one that the callers catch.
pub data Error : Type 0 where
  unknown_venue_result field_constraint : Error
  bad_leg_id bad_client_order_id overfilled fill_without_price filled_incompletely : Error
  status_with_fill pending_with_facts : Error
  updated_before_start unhedged_outside legs_unsorted legs_foreign target_attempt : Error
  compensation_attempt compensation_unbound compensation_inexact hedged_incomplete : Error
  hedged_compensated flat_working flat_residual : Error
  plan_expired plan_foreign target_working compensation_quantity : Error
  order_mismatch order_bound order_conflict fee_negative fee_missing missing_row : Error
  group_missing past_instant group_conflict sleeve_active integrity not_initial : Error
  revision_step concurrent_update contract_changed time_backwards bad_transition : Error
  fill_decreased venue_order_changed observed_backwards terminal_changed : Error

pub data Side : Type 0 where
  buy sell : Side

abbrev pub is_side : Side → Side → Bool
is_side buy buy = true
is_side sell sell = true
is_side _ _ = false

-- `Side.SELL if side == Side.BUY else Side.BUY`
abbrev pub opposite : Side → Side
opposite buy = sell
opposite sell = buy

-- `key` is the text of venue, product and symbol.
pub record InstrumentId : Type 0 where
  pub key : ℕ
  pub product : ℕ
  pub base_asset : ℕ
  pub quote_asset : ℕ
  pub settlement_asset : ℕ
  pub contract_multiplier : Decimal
  pub tradfi_market : Option ℕ

-- `a == b` on optional values
abbrev pub same_option : Option ℕ → Option ℕ → Bool
same_option none none = true
same_option (some a) (some b) = a == b
same_option _ _ = false

abbrev pub same_instrument : InstrumentId → InstrumentId → Bool
same_instrument a b =
    a.key == b.key
    && a.product == b.product
    && a.base_asset == b.base_asset
    && a.quote_asset == b.quote_asset
    && a.settlement_asset == b.settlement_asset
    && a.contract_multiplier == b.contract_multiplier
    && same_option a.tradfi_market b.tradfi_market

pub data LegRole : Type 0 where
  target compensation : LegRole

-- `role.value`, as a number.
abbrev pub role_value : LegRole → ℕ
role_value target = 0
role_value compensation = 1

pub data LegStatus : Type 0 where
  pending working partially_filled filled canceled rejected expired unknown : LegStatus

abbrev pub status_value : LegStatus → ℕ
status_value pending = 0
status_value working = 1
status_value partially_filled = 2
status_value filled = 3
status_value canceled = 4
status_value rejected = 5
status_value expired = 6
status_value unknown = 7

abbrev pub is_status : LegStatus → LegStatus → Bool
is_status a b = status_value a == status_value b

unfoldable pub terminal : LegStatus → Bool
terminal s =
    is_status s filled || is_status s canceled || is_status s rejected || is_status s expired

pub record ExecutionLeg : Type 0 where
  pub execution_leg_id : ℕ
  pub planned_leg_id : ℕ
  pub group_id : ℕ
  pub role : LegRole
  pub attempt : ℕ
  pub client_order_id : ℕ
  pub instrument : InstrumentId
  pub side : Side
  pub requested_quantity : Decimal
  pub reference_price : Decimal
  pub status : LegStatus
  pub filled_quantity : Decimal
  pub average_fill_price : Option Decimal
  pub fee : Decimal
  pub venue_order_id : Option ℕ
  pub observed_at : Option Time

-- `_leg_contract(a) == _leg_contract(b)`
unfoldable pub same_contract : ExecutionLeg → ExecutionLeg → Bool
same_contract a b =
    a.execution_leg_id == b.execution_leg_id
    && a.planned_leg_id == b.planned_leg_id
    && a.group_id == b.group_id
    && role_value a.role == role_value b.role
    && a.attempt == b.attempt
    && a.client_order_id == b.client_order_id
    && same_instrument a.instrument b.instrument
    && is_side a.side b.side
    && a.requested_quantity == b.requested_quantity
    && a.reference_price == b.reference_price

-- `a == b`
unfoldable pub same_leg : ExecutionLeg → ExecutionLeg → Bool
unfolding same_contract
same_leg a b =
    same_contract a b
    && is_status a.status b.status
    && a.filled_quantity == b.filled_quantity
    && same_option a.average_fill_price b.average_fill_price
    && a.fee == b.fee
    && same_option a.venue_order_id b.venue_order_id
    && same_option a.observed_at b.observed_at

-- `PositiveDecimal | None`
abbrev pub positive_or_none : Option Decimal → Bool
positive_or_none none = true
positive_or_none (some price) = ltb 0 price

abbrev pub status_without_fill : LegStatus → Bool
status_without_fill s = is_status s pending || is_status s rejected

module _ (digest : StableId) where
  -- `execution_leg_id`
  unfoldable pub leg_identity : ℕ → LegRole → ℕ → ℕ
  leg_identity planned_leg_id role attempt =
      digest execution_leg (planned_leg_id ∷ role_value role ∷ attempt ∷ [])

  -- `client_order_id`
  unfoldable pub client_order : ℕ → ℕ
  client_order identity = digest group_order (identity ∷ [])

  -- The constructor with its validators; lengths of texts are not modelled.
  unfoldable pub checked_leg : ExecutionLeg → Result Error ExecutionLeg
  unfolding leg_identity client_order
  checked_leg leg = do
    raise_if (not (ltb 0 leg.requested_quantity && ltb 0 leg.reference_price)) field_constraint
    raise_if (not (positive_or_none leg.average_fill_price)) field_constraint
    raise_if (not (leg.execution_leg_id == leg_identity leg.planned_leg_id leg.role leg.attempt))
        bad_leg_id
    raise_if (not (leg.client_order_id == client_order leg.execution_leg_id)) bad_client_order_id
    raise_if (ltb leg.requested_quantity leg.filled_quantity) overfilled
    raise_if (xor (ltb 0 leg.filled_quantity) (is_some leg.average_fill_price)) fill_without_price
    raise_if (is_status leg.status filled && not (leg.filled_quantity == leg.requested_quantity))
        filled_incompletely
    raise_if (status_without_fill leg.status && not (leg.filled_quantity == 0)) status_with_fill
    raise_if
        (is_status leg.status pending && (is_some leg.venue_order_id || is_some leg.observed_at))
        pending_with_facts
    ok leg

  unfoldable pub compensation_leg : ExecutionLeg → Decimal → ℕ → Result Error ExecutionLeg
  unfolding checked_leg terminal leg_identity client_order
  compensation_leg leg requested_quantity attempt = do
    raise_if (not (terminal leg.status)) target_working
    raise_if (requested_quantity == 0 || ltb leg.filled_quantity requested_quantity)
        compensation_quantity
    raise_if (attempt == 0) compensation_attempt
    checked_leg record {
      execution_leg_id = leg_identity leg.planned_leg_id compensation attempt;
      planned_leg_id = leg.planned_leg_id;
      group_id = leg.group_id;
      role = compensation;
      attempt = attempt;
      client_order_id = client_order (leg_identity leg.planned_leg_id compensation attempt);
      instrument = leg.instrument;
      side = opposite leg.side;
      requested_quantity = requested_quantity;
      reference_price = leg.reference_price;
      status = pending;
      filled_quantity = 0;
      average_fill_price = none;
      fee = 0;
      venue_order_id = none;
      observed_at = none;
    }

-- ===== src/Accounting/Position.antt =====
-- execution/group/accounting.py: `_PositionState`, `_apply_position`, `_apply_cash`.
pub mod Net
pub mod Open
pub mod Tally
use ai_investment_manager.Prelude.{
  ℕ, ◌+◌, min, Bool, true, false, not, ◌&&◌, Option, none, some, List, [], ◌∷◌, ◌==◌, is_some,
  if◌then◌else◌, Result, ok, err, raise_if, ◌>>◌, ◌>>=◌,
}
use ai_investment_manager.Prelude.Int.{
  ℤ, pos, ◌+ℤ◌, ◌-ℤ◌, negate, abs, is_positive, is_negative, same_sign, is_zero,
}
use ai_investment_manager.Prelude.Dict.{Dict, get, put, remove}
use ai_investment_manager.Kernel.{Time}
use ai_investment_manager.Kernel.Decimal.{Decimal}
use ai_investment_manager.Kernel.Signed.{scale, quotient}
use ai_investment_manager.Execution.Leg.{Side, buy, sell, InstrumentId}
use ai_investment_manager.Execution.Order.{ProductOrder}
use ai_investment_manager.Accounting.Error.{AccountError, unpriced, spot_negative, is_spot}

pub record PositionState : Type 0 where
  pub instrument : InstrumentId
  pub quantity : ℤ
  pub average_price : ℤ

-- The fields of an order that the projection reads. An increment of a fill is a copy of the order
-- that no validator has seen: its price can have a sign.
pub record Fill : Type 0 where
  pub client_order_id : ℕ
  pub instrument : InstrumentId
  pub side : Side
  pub filled_quantity : Decimal
  pub average_fill_price : Option ℤ
  pub fee : ℤ
  pub observed_at : Time

abbrev pub fill_of : ProductOrder → Fill
fill_of order = record {
  client_order_id = order.client_order_id;
  instrument = order.instrument;
  side = order.side;
  filled_quantity = order.filled_quantity;
  average_fill_price = elim order.average_fill_price [ none ↦ none | some p ↦ some (pos p) ];
  fee = pos order.fee;
  observed_at = order.observed_at;
}

-- `assert order.average_fill_price is not None`
abbrev pub priced : {A : Type 0} → Option A → Result AccountError A
priced none = err unpriced
priced (some price) = ok price

abbrev pub signed_fill : Fill → ℤ
signed_fill order = elim order.side [
  | buy ↦ pos order.filled_quantity
  | sell ↦ negate (pos order.filled_quantity)
]

-- The price of a position that grows, and the profit of one that shrinks.
unfoldable pub averaged : PositionState → ℤ → ℤ → ℤ
unfolding ◌+ℤ◌ scale quotient
averaged current fill price =
    quotient (scale current.average_price (abs current.quantity) +ℤ scale price (abs fill))
      (abs current.quantity + abs fill)

unfoldable pub realized : PositionState → ℤ → ℤ → Decimal → ℤ
unfolding ◌-ℤ◌ scale
realized current fill price multiplier =
    let gain = scale (price -ℤ current.average_price) (min (abs current.quantity) (abs fill)) in
    scale (if is_positive current.quantity then gain else negate gain) multiplier

-- What remains after a fill in the other direction.
abbrev pub reduced : PositionState → ℤ → ℤ → PositionState
reduced current remaining price = record current {
  quantity = remaining;
  average_price = if same_sign current.quantity remaining then current.average_price else price;
}

unfoldable pub settle : Dict PositionState → PositionState → ℤ → ℤ → ℕ → Dict PositionState
settle positions current remaining price key =
    if is_zero remaining
    then remove key positions
    else put key (reduced current remaining price) positions

abbrev pub opened : InstrumentId → ℤ → ℤ → PositionState
opened instrument fill price = record {
  instrument = instrument;
  quantity = fill;
  average_price = price;
}

abbrev pub grown : PositionState → ℤ → ℤ → PositionState
grown current fill price = record current {
  quantity = current.quantity +ℤ fill;
  average_price = averaged current fill price;
}

unfoldable pub apply_fill :
    Dict PositionState
    → InstrumentId
    → ℤ
    → ℤ
    → Option PositionState
    → Result AccountError (Dict PositionState × ℤ)
unfolding ◌+ℤ◌ averaged realized settle
apply_fill positions instrument fill price none = do
  raise_if (is_spot instrument && is_negative fill) spot_negative
  ok (put instrument.key (opened instrument fill price) positions, pos 0)
apply_fill positions instrument fill price (some current) =
    if same_sign current.quantity fill
    then ok (put instrument.key (grown current fill price) positions, pos 0)
    else raise_if (is_spot instrument && is_negative (current.quantity +ℤ fill)) spot_negative
      >> ok (
        settle positions current (current.quantity +ℤ fill) price instrument.key,
        realized current fill price instrument.contract_multiplier,
      )

-- The new positions, and the profit that is realised. The dictionary is dropped where it raises.
unfoldable pub apply_position :
    Dict PositionState → Fill → Result AccountError (Dict PositionState × ℤ)
unfolding apply_fill
apply_position positions order = do
  price ← priced order.average_fill_price
  apply_fill positions order.instrument (signed_fill order) price
      (get order.instrument.key positions)

abbrev pub notional : Fill → ℤ → ℤ
notional order price =
    scale (scale price order.filled_quantity) order.instrument.contract_multiplier

-- The cash after an order, from the profit that it realises.
unfoldable pub cash_after : ℤ → Fill → ℤ → ℤ → ℤ
unfolding ◌+ℤ◌ ◌-ℤ◌ scale
cash_after cash order price profit =
    if is_spot order.instrument
    then elim order.side [
      | sell ↦ cash +ℤ notional order price -ℤ order.fee
      | buy ↦ cash -ℤ notional order price -ℤ order.fee
    ]
    else cash +ℤ profit -ℤ order.fee

unfoldable pub apply_cash :
    ℤ → Fill → Dict PositionState → Result AccountError (ℤ × Dict PositionState)
unfolding cash_after
apply_cash cash order positions = do
  price ← priced order.average_fill_price
  applied ← apply_position positions order
  ok (cash_after cash order price applied.1, applied.0)

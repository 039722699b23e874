-- ===== src/Accounting/Valuation.antt =====
-- execution/group/accounting.py: `_positions`, `_sleeve_positions`, `_equity`,
-- `_execution_slippage_cost`, `_compensation_loss`.
use ai_investment_manager.Prelude.{
  ℕ, ◌+◌, not, ◌||◌, Option, none, some, List, [], ◌∷◌, ◌++◌, select, ltb, ◌==◌, if◌then◌else◌,
  Result, ok, err, ◌>>=◌,
}
use ai_investment_manager.Prelude.Int.{ℤ, pos, pos_part, ◌+ℤ◌, ◌-ℤ◌, is_positive, is_zero}
use ai_investment_manager.Prelude.Dict.{Dict, get, index_by}
use ai_investment_manager.Prelude.Sorting.{sorted}
use ai_investment_manager.Kernel.Decimal.{Decimal, mul, div}
use ai_investment_manager.Kernel.Signed.{scale, product}
use ai_investment_manager.Execution.Leg.{buy, sell, ExecutionLeg}
use ai_investment_manager.Execution.Order.{ProductOrder}
use ai_investment_manager.Execution.Group.{ExecutionGroup}
use ai_investment_manager.Portfolio.Target.{ApprovedSleeve}
use ai_investment_manager.Portfolio.Account.{
  InstrumentPosition, checked_position, SleevePosition, checked_sleeve,
}
use ai_investment_manager.Accounting.Error.{AccountError, missing_key, quote_missing, is_spot}
use ai_investment_manager.Accounting.Position.{PositionState, priced}
use ai_investment_manager.Accounting.History.{ProductOrderObservation, ValuationQuote, index_legs}

-- `sorted(states.items())`: the keys of a dictionary differ.
abbrev pub by_key : {V : Type 0} → Dict V → Dict V
by_key d = sorted (λ a b. ltb a.0 b.0) d

-- `d[key]`
abbrev pub lookup : {V : Type 0} → ℕ → Dict V → Result AccountError V
lookup key d = elim (get key d) [ none ↦ err missing_key | some v ↦ ok v ]

unfoldable pub build_positions : Dict PositionState → Result AccountError (List InstrumentPosition)
unfolding checked_position
build_positions [] = ok []
build_positions ((key, p) ∷ d) = do
  first ←
      checked_position
        record { instrument = p.instrument; quantity = p.quantity; average_price = p.average_price }
  rest ← build_positions d
  ok (first ∷ rest)

unfoldable pub positions_of : Dict PositionState → Result AccountError (List InstrumentPosition)
unfolding build_positions
positions_of states = build_positions (select (λ e. not (is_zero e.1.quantity)) (by_key states))

-- The position of one sleeve, none where it has no legs.
unfoldable pub sleeve_position :
    ℕ → List InstrumentPosition → Dict ApprovedSleeve → Result AccountError (List SleevePosition)
unfolding checked_sleeve
sleeve_position sleeve_id [] approved = ok []
sleeve_position sleeve_id (leg ∷ legs) approved = do
  sleeve ← lookup sleeve_id approved
  position ← checked_sleeve record {
    sleeve_id = sleeve_id;
    forecast_family = sleeve.forecast_family;
    target = sleeve.forecast_target;
    legs = leg ∷ legs;
  }
  ok (position ∷ [])

unfoldable pub build_sleeves :
    Dict (Dict PositionState) → Dict ApprovedSleeve → Result AccountError (List SleevePosition)
unfolding positions_of sleeve_position
build_sleeves [] approved = ok []
build_sleeves ((sleeve_id, positions) ∷ states) approved = do
  legs ← positions_of positions
  first ← sleeve_position sleeve_id legs approved
  rest ← build_sleeves states approved
  ok (first ++ rest)

unfoldable pub sleeve_positions :
    Dict (Dict PositionState) → Dict ApprovedSleeve → Result AccountError (List SleevePosition)
unfolding build_sleeves
sleeve_positions states approved = build_sleeves (by_key states) approved

-- What an open position adds to the equity, at the side of the quote that would close it.
unfoldable pub position_value : PositionState → ValuationQuote → ℤ
unfolding scale product ◌-ℤ◌
position_value p quote =
    let mark = if is_positive p.quantity then quote.bid else quote.ask in
    if is_spot p.instrument
    then scale (scale p.quantity mark) p.instrument.contract_multiplier
    else scale (product (pos mark -ℤ p.average_price) p.quantity) p.instrument.contract_multiplier

unfoldable pub equity_of : ℤ → Dict PositionState → Dict ValuationQuote → Result AccountError ℤ
unfolding position_value ◌+ℤ◌
equity_of equity [] quotes = ok equity
equity_of equity ((key, p) ∷ states) quotes = elim (get key quotes) [
  | none ↦ err quote_missing
  | some quote ↦ equity_of (equity +ℤ position_value p quote) states quotes
]

-- The price of an order against the reference of its leg.
unfoldable pub price_cost : ProductOrder → ExecutionLeg → Decimal → ℤ
unfolding ◌-ℤ◌
price_cost order leg price = elim order.side [
  | buy ↦ pos price -ℤ pos leg.reference_price
  | sell ↦ pos leg.reference_price -ℤ pos price
]

unfoldable pub slippage :
    ℤ → Dict ExecutionLeg → List ProductOrderObservation → Result AccountError ℤ
unfolding price_cost scale ◌+ℤ◌
slippage cost legs [] = ok cost
slippage cost legs (o ∷ os) =
    if o.order.filled_quantity == 0
    then slippage cost legs os
    else priced o.order.average_fill_price >>= λ price.
        lookup o.order.client_order_id legs >>= λ leg.
        slippage
          (cost
            +ℤ scale (scale (price_cost o.order leg price) o.order.filled_quantity)
                o.order.instrument.contract_multiplier)
          legs os

unfoldable pub execution_slippage_cost :
    List ExecutionGroup → List ProductOrderObservation → Result AccountError ℤ
unfolding slippage
execution_slippage_cost groups orders = slippage (pos 0) (index_legs groups) orders

-- What a compensation loses against its target, fees included, or nothing where it gains.
unfoldable pub reversal_loss : ProductOrder → ProductOrder → Decimal → Decimal → Decimal
unfolding ◌-ℤ◌ ◌+ℤ◌ scale
reversal_loss target compensation target_price compensation_price =
    let quantity = compensation.filled_quantity in
    let difference : ℤ = elim target.side [
      | buy ↦ pos target_price -ℤ pos compensation_price
      | sell ↦ pos compensation_price -ℤ pos target_price
    ] in
    let gross = scale (scale difference quantity) target.instrument.contract_multiplier in
    let allocated = div (mul target.fee quantity) target.filled_quantity in
    pos_part (gross +ℤ pos allocated +ℤ pos compensation.fee)

-- The orders by their client's identity; the last one counts.
abbrev pub index_orders : List ProductOrderObservation → Dict ProductOrderObservation
index_orders orders = index_by (λ o. o.order.client_order_id) [] orders

unfoldable pub pair_loss :
    Option ProductOrderObservation → Option ProductOrderObservation → Result AccountError Decimal
unfolding reversal_loss
pair_loss (some c) (some t) =
    if c.order.filled_quantity == 0 || t.order.filled_quantity == 0
    then ok 0
    else priced c.order.average_fill_price >>= λ paid.
        priced t.order.average_fill_price >>= λ price. ok (reversal_loss t.order c.order price paid)
pair_loss _ _ = ok 0

unfoldable pub leg_losses :
    Dict ProductOrderObservation
    → Dict ExecutionLeg
    → List ExecutionLeg
    → Result AccountError Decimal
unfolding pair_loss
leg_losses latest targets [] = ok 0
leg_losses latest targets (leg ∷ legs) = do
  target ← lookup leg.planned_leg_id targets
  loss ← pair_loss (get leg.client_order_id latest) (get target.client_order_id latest)
  rest ← leg_losses latest targets legs
  ok (loss + rest)

unfoldable pub group_losses :
    Dict ProductOrderObservation → List ExecutionGroup → Result AccountError Decimal
unfolding leg_losses
group_losses latest [] = ok 0
group_losses latest (g ∷ groups) = do
  loss ←
      leg_losses latest (index_by (λ leg. leg.planned_leg_id) [] g.target_legs) g.compensation_legs
  rest ← group_losses latest groups
  ok (loss + rest)

unfoldable pub compensation_loss :
    List ExecutionGroup → List ProductOrderObservation → Result AccountError Decimal
unfolding group_losses
compensation_loss groups orders = group_losses (index_orders orders) groups

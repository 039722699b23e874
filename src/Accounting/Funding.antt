-- ===== src/Accounting/Funding.antt =====
-- execution/group/accounting.py: `_incremental_fills`, `_funding_pnl`; market/perpetual/models.py:
-- `FundingSettlement`.
pub mod Increments
use ai_investment_manager.Prelude.{
  ℕ, ◌-◌, Bool, not, ◌||◌, Option, none, some, List, [], ◌∷◌, map, any, ascend, leb, ltb,
  tuple_less, if◌then◌else◌, Result, ok, err, raise_if, ◌>>◌, ◌>>=◌,
}
use ai_investment_manager.Prelude.Int.{ℤ, pos, ◌-ℤ◌}
use ai_investment_manager.Prelude.Dict.{Dict, get, put}
use ai_investment_manager.Prelude.Sorting.{sorted}
use ai_investment_manager.Kernel.{Time}
use ai_investment_manager.Kernel.Decimal.{Decimal, mul}
use ai_investment_manager.Kernel.Signed.{scale, product, quotient}
use ai_investment_manager.Execution.Leg.{InstrumentId}
use ai_investment_manager.Execution.Order.{ProductOrder}
use ai_investment_manager.Accounting.Error.{AccountError, funding_unordered}
use ai_investment_manager.Accounting.Position.{PositionState, Fill, fill_of, priced, apply_position}
use ai_investment_manager.Accounting.History.{ProductOrderObservation}

pub record FundingSettlement : Type 0 where
  pub settlement_id : ℕ
  pub instrument : InstrumentId
  pub funding_time : Time
  pub observed_at : Time
  pub funding_rate : ℤ
  pub mark_price : Decimal
  pub rate_type : ℕ

abbrev pub previous_quantity : Option ProductOrder → Decimal
previous_quantity none = 0
previous_quantity (some previous) = previous.filled_quantity

abbrev pub paid_price : Option Decimal → Decimal
paid_price none = 0
paid_price (some price) = price

abbrev pub previous_notional : Option ProductOrder → Decimal
previous_notional none = 0
previous_notional (some previous) =
    mul previous.filled_quantity (paid_price previous.average_fill_price)

abbrev pub previous_fee : Option ProductOrder → Decimal
previous_fee none = 0
previous_fee (some previous) = previous.fee

-- The part of a cumulative fill that its previous observation did not have.
unfoldable pub increment : Option ProductOrder → ProductOrder → Decimal → Fill
unfolding ◌-ℤ◌ quotient
increment previous order price =
    let delta = order.filled_quantity - previous_quantity previous in
    record {
      client_order_id = order.client_order_id;
      instrument = order.instrument;
      side = order.side;
      filled_quantity = delta;
      average_fill_price = some (
          quotient (pos (mul order.filled_quantity price) -ℤ pos (previous_notional previous))
            delta);
      fee = pos order.fee -ℤ pos (previous_fee previous);
      observed_at = order.observed_at;
    }

-- What an observation adds to the later increments.
unfoldable pub push_increment :
    Option ProductOrder
    → ProductOrder
    → Result AccountError (List Fill)
    → Result AccountError (List Fill)
unfolding increment
push_increment previous order later = do
  price ← priced order.average_fill_price
  fills ← later
  ok (increment previous order price ∷ fills)

-- The loop of `_incremental_fills`.
unfoldable pub increments :
    Dict ProductOrder → List ProductOrderObservation → Result AccountError (List Fill)
unfolding push_increment
increments seen [] = ok []
increments seen (o ∷ os) =
    let previous = get o.order.client_order_id seen in
    let rest = increments (put o.order.client_order_id o.order seen) os in
    if ltb (previous_quantity previous) o.order.filled_quantity
    then push_increment previous o.order rest
    else rest

abbrev pub fill_before : Fill → Fill → Bool
fill_before a b =
    tuple_less (a.observed_at ∷ a.client_order_id ∷ []) (b.observed_at ∷ b.client_order_id ∷ [])

unfoldable pub incremental_fills : List ProductOrderObservation → Result AccountError (List Fill)
unfolding increments
incremental_fills history = do fills ← increments [] history; ok (sorted fill_before fills)

-- The inner loop: the fills up to the settlement are applied, the others are left.
unfoldable pub catch_up :
    Dict PositionState → List Fill → Time → Result AccountError (Dict PositionState × List Fill)
unfolding apply_position
catch_up positions [] until = ok (positions, [])
catch_up positions (fill ∷ fills) until =
    let applied = apply_position positions fill >>= λ r. catch_up r.0 fills until in
    if leb fill.observed_at until then applied else ok (positions, fill ∷ fills)

unfoldable pub settlement_cost : Option PositionState → FundingSettlement → ℤ
unfolding scale product
settlement_cost none s = pos 0
settlement_cost (some p) s =
    product (scale (scale p.quantity s.mark_price) s.instrument.contract_multiplier) s.funding_rate

unfoldable pub settle_funding :
    ℤ → Dict PositionState → List Fill → List FundingSettlement → Result AccountError ℤ
unfolding catch_up settlement_cost ◌-ℤ◌
settle_funding pnl positions fills [] = ok pnl
settle_funding pnl positions fills (s ∷ settlements) = do
  reached ← catch_up positions fills s.funding_time
  let cost = settlement_cost (get s.instrument.key reached.0) s
  settle_funding (pnl -ℤ cost) reached.0 reached.1 settlements

abbrev pub settlement_key : FundingSettlement → List ℕ
settlement_key s = s.funding_time ∷ s.rate_type ∷ s.settlement_id ∷ []

abbrev pub is_later : Time → FundingSettlement → Bool
is_later as_of s = ltb as_of s.observed_at || leb as_of s.funding_time

unfoldable pub funding_pnl :
    List ProductOrderObservation → List FundingSettlement → Time → Result AccountError ℤ
unfolding incremental_fills settle_funding
funding_pnl history settlements as_of = do
  raise_if (not (ascend (map settlement_key settlements)) || any (is_later as_of) settlements)
      funding_unordered
  fills ← incremental_fills history
  settle_funding (pos 0) [] fills settlements

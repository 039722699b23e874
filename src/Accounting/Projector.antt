-- ===== src/Accounting/Projector.antt =====
-- execution/group/accounting.py: `ProductAccountProjector.project`, `_previous`.
pub mod Ownership
pub mod Kept
pub mod Listed
pub mod Reconciled
pub mod Account
pub mod Sequence
use ai_investment_manager.Prelude.{
  ℕ, ◌+◌, ◌-◌, ◌/◌, Bool, true, false, not, ◌&&◌, ◌||◌, Option, none, some, List, [], ◌∷◌, map,
  select, suc, leb, ltb, ◌==◌, total, if◌then◌else◌, Result, ok, err, raise_if, ◌>>◌, ◌>>=◌,
}
use ai_investment_manager.Prelude.Int.{
  ℤ, pos, pos_part, ◌+ℤ◌, ◌-ℤ◌, is_positive, is_negative, max_ℤ,
}
use ai_investment_manager.Prelude.Dict.{Dict, get, put, index_by}
use ai_investment_manager.Prelude.Sorting.{sorted}
use ai_investment_manager.Kernel.{Time}
use ai_investment_manager.Kernel.Decimal.{Decimal}
use ai_investment_manager.Kernel.Signed.{quotient}
use ai_investment_manager.Execution.Group.{ExecutionGroup, group_terminal}
use ai_investment_manager.Portfolio.Target.{ApprovedSleeve}
use ai_investment_manager.Portfolio.Account.{
  InstrumentPosition, SleevePosition, PortfolioAccountingTotals, checked_totals,
  PortfolioAccountSnapshot, checked_snapshot,
}
use ai_investment_manager.Accounting.Error.{
  AccountError, missing_key, sleeve_missing, cash_negative, previous_foreign,
}
use ai_investment_manager.Accounting.Position.{
  PositionState, Fill, fill_of, apply_position, apply_cash,
}
use ai_investment_manager.Accounting.History.{
  ProductOrderObservation, ValuationQuote, visible_groups, index_sleeves, index_quotes,
  visible_order_history, latest_orders,
}
use ai_investment_manager.Accounting.Funding.{FundingSettlement, funding_pnl}
use ai_investment_manager.Accounting.Valuation.{
  positions_of, sleeve_positions, equity_of, execution_slippage_cost, compensation_loss,
}

-- What the loop over the orders changes.
pub record Books : Type 0 where
  pub cash : ℤ
  pub product_states : Dict PositionState
  pub sleeve_states : Dict (Dict PositionState)

-- `states.setdefault(sleeve_id, {})`
abbrev pub states_of : ℕ → Dict (Dict PositionState) → Dict PositionState
states_of sleeve_id d = elim (get sleeve_id d) [ none ↦ [] | some positions ↦ positions ]

-- A filled order in the books of its sleeve.
unfoldable pub book_order : Books → ℕ → Fill → Result AccountError Books
unfolding apply_cash apply_position
book_order books sleeve_id fill = do
  paid ← apply_cash books.cash fill books.product_states
  applied ← apply_position (states_of sleeve_id books.sleeve_states) fill
  ok record {
    cash = paid.0;
    product_states = paid.1;
    sleeve_states = put sleeve_id applied.0 books.sleeve_states;
  }

-- The sleeve of an order's group, which must be approved.
unfoldable pub owner : Dict ExecutionGroup → Dict ApprovedSleeve → ℕ → Result AccountError ℕ
owner groups sleeves group_id = elim (get group_id groups) [
  | none ↦ err missing_key
  | some g ↦ elim (get g.sleeve_id sleeves) [ none ↦ err sleeve_missing | some s ↦ ok g.sleeve_id ]
]

-- The loop over the orders.
unfoldable pub book_orders :
    Dict ExecutionGroup
    → Dict ApprovedSleeve
    → Books
    → List ProductOrderObservation
    → Result AccountError Books
unfolding book_order owner
book_orders groups sleeves books [] = ok books
book_orders groups sleeves books (o ∷ os) =
    if o.order.filled_quantity == 0
    then book_orders groups sleeves books os
    else owner groups sleeves o.order.group_id >>= λ sleeve_id.
        book_order books sleeve_id (fill_of o.order) >>= λ next. book_orders groups sleeves next os

-- `as_of.date()`
abbrev pub day : Time → ℕ
day t = t / 86400000000

-- `previous`, which must be of this account and not later.
unfoldable pub check_previous :
    ℕ → Option PortfolioAccountSnapshot → Time → Result AccountError Unit
check_previous portfolio_id none as_of = ok tt
check_previous portfolio_id (some previous) as_of =
    raise_if (not (previous.portfolio_id == portfolio_id) || ltb as_of previous.as_of)
      previous_foreign

unfoldable pub daily_pnl : ℤ → ℤ → Option PortfolioAccountSnapshot → Time → ℤ
unfolding ◌+ℤ◌ ◌-ℤ◌
daily_pnl initial equity none as_of = equity -ℤ initial
daily_pnl initial equity (some previous) as_of =
    if day previous.as_of == day as_of
    then previous.daily_pnl +ℤ equity -ℤ previous.equity
    else equity -ℤ previous.equity

unfoldable pub high_water : ℤ → ℤ → Option PortfolioAccountSnapshot → ℤ
high_water initial equity none = max_ℤ equity initial
high_water initial equity (some previous) = max_ℤ equity previous.equity_high_water

unfoldable pub drawdown : ℤ → ℤ → ℤ
unfolding ◌-ℤ◌ quotient
drawdown high equity = if is_positive high then quotient (high -ℤ equity) (pos_part high) else pos 0

abbrev pub next_revision : Option PortfolioAccountSnapshot → ℕ
next_revision none = 0
next_revision (some previous) = suc previous.revision

abbrev pub was_killed : Option PortfolioAccountSnapshot → Bool
was_killed none = false
was_killed (some previous) = previous.kill_switch_active

abbrev pub is_pending : Time → ExecutionGroup → Bool
is_pending as_of g = not (group_terminal g.status && leb g.updated_at as_of)

abbrev pub pending_ids : Time → List ExecutionGroup → List ℕ
pending_ids as_of groups = sorted ltb (map (λ g. g.group_id) (select (is_pending as_of) groups))

-- The arguments of `project`.
pub record Facts : Type 0 where
  pub cycle_id : ℕ
  pub as_of : Time
  pub groups : List ExecutionGroup
  pub observations : Dict (List ProductOrderObservation)
  pub funding_settlements : List FundingSettlement
  pub approved_sleeves : List ApprovedSleeve
  pub quotes : List ValuationQuote
  pub previous : Option PortfolioAccountSnapshot
  pub reconciled : Bool

-- The facts after the checks of their visibility.
pub record Visible : Type 0 where
  pub groups : List ExecutionGroup
  pub sleeves : Dict ApprovedSleeve
  pub quotes : Dict ValuationQuote
  pub history : List ProductOrderObservation

unfoldable pub visible : Facts → Result AccountError Visible
unfolding visible_groups index_sleeves index_quotes visible_order_history
visible facts = do
  groups ← visible_groups facts.groups facts.as_of
  sleeves ← index_sleeves facts.approved_sleeves
  quotes ← index_quotes facts.quotes facts.as_of
  history ← visible_order_history groups facts.observations facts.as_of
  ok record { groups = groups; sleeves = sleeves; quotes = quotes; history = history }

-- The economics of the account before its comparison with the previous one.
pub record Economics : Type 0 where
  pub books : Books
  pub cash : ℤ
  pub funding : ℤ
  pub positions : List InstrumentPosition
  pub sleeves : List SleevePosition
  pub equity : ℤ
  pub orders : List ProductOrderObservation
  pub groups : List ExecutionGroup

-- `ProductAccountProjector`; `identity` is the digest of a snapshot's content.
module _ (portfolio_id settlement_asset : ℕ) (initial_cash : Decimal)
    (identity : PortfolioAccountSnapshot → ℕ) where
  abbrev pub opening : Books
  opening = record { cash = pos initial_cash; product_states = []; sleeve_states = [] }

  abbrev pub book_visible : Visible → Result AccountError Books
  book_visible v =
      book_orders (index_by (λ g. g.group_id) [] v.groups) v.sleeves opening
        (latest_orders v.history)

  unfoldable pub economics : Facts → Visible → Result AccountError Economics
  unfolding book_orders latest_orders funding_pnl positions_of sleeve_positions equity_of ◌+ℤ◌
  economics facts v = do
    books ← book_visible v
    funding ← funding_pnl v.history facts.funding_settlements facts.as_of
    positions ← positions_of books.product_states
    owned ← sleeve_positions books.sleeve_states v.sleeves
    equity ← equity_of (books.cash +ℤ funding) books.product_states v.quotes
    ok record {
      books = books;
      cash = books.cash +ℤ funding;
      funding = funding;
      positions = positions;
      sleeves = owned;
      equity = equity;
      orders = latest_orders v.history;
      groups = v.groups;
    }

  -- The accounting of the economics, before its validator.
  abbrev pub unchecked_totals : Economics → ℤ → Decimal → PortfolioAccountingTotals
  unchecked_totals e slippage loss =
      let fees = total (λ o. o.order.fee) e.orders in
      let net = e.equity -ℤ pos initial_cash in
      record {
        starting_equity = initial_cash;
        price_pnl = net -ℤ e.funding +ℤ pos fees;
        funding_pnl = e.funding;
        fee_cost = fees;
        execution_slippage_cost = slippage;
        compensation_loss = loss;
        net_pnl = net;
      }

  unfoldable pub totals : Economics → Result AccountError PortfolioAccountingTotals
  unfolding checked_totals execution_slippage_cost compensation_loss
  totals e = do
    slippage ← execution_slippage_cost e.groups e.orders
    loss ← compensation_loss e.groups e.orders
    checked_totals (unchecked_totals e slippage loss)

  -- The content of the snapshot.
  unfoldable pub payload : Facts → Economics → PortfolioAccountingTotals → PortfolioAccountSnapshot
  unfolding daily_pnl high_water drawdown
  payload facts e accounting = record {
    snapshot_id = 0;
    cycle_id = facts.cycle_id;
    portfolio_id = portfolio_id;
    revision = next_revision facts.previous;
    as_of = facts.as_of;
    observed_at = facts.as_of;
    settlement_asset = settlement_asset;
    cash_balance = e.cash;
    equity = e.equity;
    equity_high_water = high_water (pos initial_cash) e.equity facts.previous;
    daily_pnl = daily_pnl (pos initial_cash) e.equity facts.previous facts.as_of;
    drawdown_fraction = drawdown (high_water (pos initial_cash) e.equity facts.previous) e.equity;
    accounting = some accounting;
    positions = e.positions;
    sleeves = e.sleeves;
    pending_execution_group_ids = pending_ids facts.as_of e.groups;
    kill_switch_active = was_killed facts.previous;
    reconciled = facts.reconciled;
  }

  unfoldable pub project : Facts → Result AccountError PortfolioAccountSnapshot
  unfolding visible economics totals payload check_previous checked_snapshot
  project facts = do
    v ← visible facts
    e ← economics facts v
    raise_if (is_negative e.cash) cash_negative
    accounting ← totals e
    check_previous portfolio_id facts.previous facts.as_of
    let content = payload facts e accounting
    checked_snapshot record content { snapshot_id = identity content }

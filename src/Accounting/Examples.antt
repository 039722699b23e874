-- ===== src/Accounting/Examples.antt =====
-- An account with one group, whose order fills in two steps on one day.
use ai_investment_manager.Prelude.{
  ℕ, ◌+◌, ◌*◌, ◌≡◌, refl, true, Option, none, some, List, [], ◌∷◌, is_ok, from_ok, from_ok-eq, ok,
  All, total,
}
use ai_investment_manager.Prelude.Int.{pos, ◌+ℤ◌, sub_ℕ}
use ai_investment_manager.Prelude.Dict.{get, put, index_by, values}
use ai_investment_manager.Prelude.Sorting.{sorted}
use ai_investment_manager.Kernel.{seconds}
use ai_investment_manager.Kernel.Decimal.{Decimal, one, mul, div}
use ai_investment_manager.Execution.Leg.{buy, sell, InstrumentId, target, LegStatus, ExecutionLeg}
use ai_investment_manager.Execution.Order.{OrderStatus, ProductOrder}
use ai_investment_manager.Execution.Group.{ExecutionGroup, executing, group_terminal}
use ai_investment_manager.Portfolio.Target.{long, ApprovedSleeve}
use ai_investment_manager.Portfolio.Account.{
  PortfolioAccountSnapshot, position_quantities, is_reconciled,
}
use ai_investment_manager.Accounting.History.{
  ProductOrderObservation, visible_order_history, latest_orders,
}
use ai_investment_manager.Accounting.Funding.{FundingSettlement, incremental_fills}
use ai_investment_manager.Accounting.Projector.{
  Books, book_orders, Facts, Visible, visible, Economics, economics, project, day,
}
use ai_investment_manager.Accounting.Position.Open.{IsOpen}
use ai_investment_manager.Accounting.Funding.Increments.{
  last_filled, filled_by, incremental_fills-total,
}
use ai_investment_manager.Accounting.Projector.Ownership.{traded}
use ai_investment_manager.Accounting.Projector.Kept.{AllBooked, book_orders-IsOpen}
use ai_investment_manager.Accounting.Projector.Listed.{nonzero}
use ai_investment_manager.Accounting.Projector.Account.{project-net}
use ai_investment_manager.Accounting.Projector.Sequence.{
  Ledger, first, later, IsHighest, day_base, Ledger-high_water, Ledger-daily_pnl,
}

-- A perpetual, product 1, so that funding applies.
abbrev perpetual : InstrumentId
perpetual = record {
  key = 1;
  product = 1;
  base_asset = 2;
  quote_asset = 3;
  settlement_asset = 3;
  contract_multiplier = one;
  tradfi_market = none;
}

abbrev leg : ExecutionLeg
leg = record {
  execution_leg_id = 500;
  planned_leg_id = 5;
  group_id = 9;
  role = target;
  attempt = 0;
  client_order_id = 1500;
  instrument = perpetual;
  side = buy;
  requested_quantity = 5 * one;
  reference_price = 10 * one;
  status = LegStatus.partially_filled;
  filled_quantity = 2 * one;
  average_fill_price = some (10 * one);
  fee = one;
  venue_order_id = some 3500;
  observed_at = some (seconds 20);
}

abbrev open_group : ExecutionGroup
open_group = record {
  group_id = 9;
  plan_id = 1;
  approved_target_id = 2;
  cycle_id = 3;
  sleeve_id = 4;
  status = executing;
  valid_until = seconds 100;
  maximum_unhedged_notional = 100 * one;
  maximum_unhedged_seconds = 60;
  target_legs = leg ∷ [];
  compensation_legs = [];
  unhedged_since = none;
  started_at = seconds 10;
  updated_at = seconds 20;
  revision = 1;
}

-- The order after a fill of some quantity.
abbrev order_at : ℕ → Decimal → Decimal → ProductOrder
order_at at quantity price = record {
  client_order_id = 1500;
  venue_order_id = 3500;
  group_id = 9;
  execution_leg_id = 500;
  instrument = perpetual;
  side = buy;
  requested_quantity = 5 * one;
  status = OrderStatus.partially_filled;
  filled_quantity = quantity;
  average_fill_price = some price;
  fee = one;
  observed_at = seconds at;
}

abbrev observed : ℕ → Decimal → Decimal → ProductOrderObservation
observed at quantity price = record {
  available_at = seconds at;
  order = order_at at quantity price;
}

abbrev sleeve : ApprovedSleeve
sleeve = record {
  sleeve_id = 4;
  forecast_family = 1;
  forecast_target = record {
    target_id = 6;
    legs = record { instrument = perpetual; direction = long; gross_weight = one } ∷ [];
    quantity_mode = 0;
  };
  requested_gross_notional = 50 * one;
  approved_gross_notional = 50 * one;
  sleeve_scale = one;
  risk_profile_version = 1;
  maximum_unhedged_notional = 50 * one;
  maximum_unhedged_seconds = 60;
  reason_codes = 1 ∷ [];
}

abbrev settlement : FundingSettlement
settlement = record {
  settlement_id = 70;
  instrument = perpetual;
  funding_time = seconds 25;
  observed_at = seconds 26;
  funding_rate = pos 10000000000000000;
  mark_price = 10 * one;
  rate_type = 0;
}

abbrev facts_at :
    ℕ → List ProductOrderObservation → Decimal → Option PortfolioAccountSnapshot → Facts
facts_at at os bid previous = record {
  cycle_id = 3;
  as_of = seconds at;
  groups = open_group ∷ [];
  observations = (9, os) ∷ [];
  funding_settlements = settlement ∷ [];
  approved_sleeves = sleeve ∷ [];
  quotes = record { instrument = perpetual; as_of = seconds at; bid = bid; ask = bid + one } ∷ [];
  previous = previous;
  reconciled = true;
}

abbrev identity : PortfolioAccountSnapshot → ℕ
identity s = 77

abbrev first_facts : Facts
first_facts = facts_at 30 (observed 20 (2 * one) (10 * one) ∷ []) (11 * one) none

first_returns : is_ok (project 8 3 (100 * one) identity first_facts) ≡ true
unfolding project sorted get index_by values mul div group_terminal
first_returns = refl

first_visible_returns : is_ok (visible first_facts) ≡ true
unfolding visible sorted get index_by
first_visible_returns = refl

abbrev first_visible : Visible
first_visible = from_ok (visible first_facts) first_visible_returns

abbrev first_snapshot : PortfolioAccountSnapshot
first_snapshot = from_ok (project 8 3 (100 * one) identity first_facts) first_returns

project-net_example :
    ((key : ℕ)
      → get key (position_quantities first_snapshot.positions)
        ≡ nonzero (
            sub_ℕ
              (traded key buy (latest_orders first_visible.history))
              (traded key sell (latest_orders first_visible.history))))
    × (is_reconciled first_snapshot.sleeves first_snapshot.positions ≡ true)
project-net_example =
    project-net 8 3 (100 * one) identity first_facts first_visible first_snapshot
      (from_ok-eq (visible first_facts) first_visible_returns)
      (from_ok-eq (project 8 3 (100 * one) identity first_facts) first_returns)

-- The order fills further, within the same day.
abbrev second_history : List ProductOrderObservation
second_history = observed 20 (2 * one) (10 * one) ∷ observed 40 (5 * one) (12 * one) ∷ []

abbrev second_facts : Facts
second_facts = facts_at 50 second_history (9 * one) (some first_snapshot)

second_returns : is_ok (project 8 3 (100 * one) identity second_facts) ≡ true
unfolding project sorted get index_by values mul div group_terminal
second_returns = refl

abbrev second_snapshot : PortfolioAccountSnapshot
second_snapshot = from_ok (project 8 3 (100 * one) identity second_facts) second_returns

second-Ledger :
    Ledger 8 3
      (100 * one)
      identity
      second_snapshot
      ((day first_snapshot.as_of, first_snapshot.equity) ∷ [])
second-Ledger =
    later second_facts first_snapshot second_snapshot []
      (first first_facts first_snapshot refl
        (from_ok-eq (project 8 3 (100 * one) identity first_facts) first_returns))
      refl (from_ok-eq (project 8 3 (100 * one) identity second_facts) second_returns)

ledger-high_water_example :
    IsHighest
      (pos (100 * one) ∷ second_snapshot.equity ∷ first_snapshot.equity ∷ [])
      second_snapshot.equity_high_water
ledger-high_water_example =
    Ledger-high_water 8 3 (100 * one) identity second_snapshot
      ((day first_snapshot.as_of, first_snapshot.equity) ∷ []) second-Ledger

ledger-daily_pnl_example :
    second_snapshot.daily_pnl
      +ℤ day_base 8 3
          (100 * one)
          identity
          (day second_snapshot.as_of)
          ((day first_snapshot.as_of, first_snapshot.equity) ∷ [])
    ≡ second_snapshot.equity
ledger-daily_pnl_example =
    Ledger-daily_pnl 8 3 (100 * one) identity second_snapshot
      ((day first_snapshot.as_of, first_snapshot.equity) ∷ []) second-Ledger

second_visible_history :
    visible_order_history (open_group ∷ []) ((9, second_history) ∷ []) (seconds 50)
    ≡ ok second_history
unfolding visible_order_history sorted get index_by
second_visible_history = refl

fills_return : is_ok (incremental_fills second_history) ≡ true
unfolding incremental_fills sorted get mul div put
fills_return = refl

incremental_fills-total_example :
    ((client : ℕ)
      → total (filled_by client) (from_ok (incremental_fills second_history) fills_return)
        ≡ last_filled client second_history 0)
    × All
        (λ o.
          total
            (filled_by o.order.client_order_id)
            (from_ok (incremental_fills second_history) fills_return)
          ≡ o.order.filled_quantity)
        (latest_orders second_history)
incremental_fills-total_example =
    incremental_fills-total (open_group ∷ []) ((9, second_history) ∷ []) (seconds 50) second_history
      (from_ok (incremental_fills second_history) fills_return) second_visible_history
      (from_ok-eq (incremental_fills second_history) fills_return)

first_economics_return : is_ok (economics 8 3 (100 * one) identity first_facts first_visible) ≡ true
unfolding economics visible sorted get index_by values mul div
first_economics_return = refl

abbrev first_economics : Economics
first_economics =
    from_ok (economics 8 3 (100 * one) identity first_facts first_visible) first_economics_return

abbrev empty_books : Books
empty_books = record { cash = pos (100 * one); product_states = []; sleeve_states = [] }

-- A purchase and the sale of half of it.
abbrev spot_orders : List ProductOrderObservation
spot_orders =
    observed 20 (2 * one) (10 * one)
    ∷ record {
      available_at = seconds 21;
      order = record (order_at 21 one (11 * one)) { client_order_id = 1501; side = sell };
    }
    ∷ []

spot_return :
    is_ok (book_orders ((9, open_group) ∷ []) ((4, sleeve) ∷ []) empty_books spot_orders) ≡ true
unfolding book_orders get put mul div
spot_return = refl

book_orders-IsOpen_example : AllBooked (IsOpen (λ key. 1)) (
    from_ok
      (book_orders ((9, open_group) ∷ []) ((4, sleeve) ∷ []) empty_books spot_orders)
      spot_return)
book_orders-IsOpen_example =
    book_orders-IsOpen (λ key. 1) ((9, open_group) ∷ []) ((4, sleeve) ∷ []) empty_books spot_orders
      (from_ok (book_orders ((9, open_group) ∷ []) ((4, sleeve) ∷ []) empty_books spot_orders)
        spot_return)
      (refl, (refl, tt)) record { products = tt; sleeves = tt }
      (from_ok-eq (book_orders ((9, open_group) ∷ []) ((4, sleeve) ∷ []) empty_books spot_orders)
        spot_return)

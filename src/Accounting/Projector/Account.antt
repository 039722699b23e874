-- ===== src/Accounting/Projector/Account.antt =====
-- `project` as a whole: what a snapshot says of the facts it is made from.
use ai_investment_manager.Prelude.{
  ℕ, ◌≡◌, refl, sym, ap, ◌∙◌, true, ok, ok-injective, after_ok, raise_if-eq-ok, validated-same,
  All-Unit, All-map,
}
use ai_investment_manager.Prelude.Int.{◌+ℤ◌, sub_ℕ, is_negative, zero-+ℤ}
use ai_investment_manager.Prelude.Dict.{get}
use ai_investment_manager.Kernel.Decimal.{Decimal}
use ai_investment_manager.Execution.Leg.{buy, sell}
use ai_investment_manager.Portfolio.Account.{
  PortfolioAccountingTotals, PortfolioAccountSnapshot, snapshot_tests, checked_snapshot,
  is_reconciled, position_quantities,
}
use ai_investment_manager.Accounting.Error.{cash_negative}
use ai_investment_manager.Accounting.Position.Open.{IsKeyed, IsKeyed-IsClosed}
use ai_investment_manager.Accounting.Position.Net.{held}
use ai_investment_manager.Accounting.History.{latest_orders}
use ai_investment_manager.Accounting.Funding.{funding_pnl}
use ai_investment_manager.Accounting.Valuation.{positions_of, sleeve_positions, equity_of}
use ai_investment_manager.Accounting.Projector.{
  Books, book_visible, opening, Visible, visible, Facts, Economics, economics, totals, payload,
  check_previous, project,
}
use ai_investment_manager.Accounting.Projector.Ownership.{
  IsOwned, owned, traded, book_orders-Booked,
}
use ai_investment_manager.Accounting.Projector.Kept.{AllBooked, book_orders-AllBooked}
use ai_investment_manager.Accounting.Projector.Listed.{nonzero, get-Listed, positions_of-Listed}
use ai_investment_manager.Accounting.Projector.Reconciled.{books-reconciled}

checked_snapshot-same :
    (s : PortfolioAccountSnapshot) {q : PortfolioAccountSnapshot}
    → checked_snapshot s ≡ ok q
    → s ≡ q
unfolding checked_snapshot
checked_snapshot-same s h = validated-same (snapshot_tests s) h

module _ (portfolio_id settlement_asset : ℕ) (initial_cash : Decimal)
    (identity : PortfolioAccountSnapshot → ℕ) where
  -- The economics of a successful projection.
  pub record Derived (v : Visible) (e : Economics) : Type 0 where
    pub reconciled : is_reconciled e.sleeves e.positions ≡ true
    pub listed :
        (key : ℕ)
        → get key (position_quantities e.positions)
          ≡ nonzero (sub_ℕ (traded key buy e.orders) (traded key sell e.orders))
    pub visible_orders : e.orders ≡ latest_orders v.history

  abbrev no_books : Books
  no_books = opening portfolio_id settlement_asset initial_cash identity

  books-Booked :
      (v : Visible) {books : Books}
      → book_visible portfolio_id settlement_asset initial_cash identity v ≡ ok books
      → IsOwned books
        × ((key : ℕ)
            → held key books.product_states
              ≡ sub_ℕ
                  (traded key buy (latest_orders v.history))
                  (traded key sell (latest_orders v.history)))
  unfolding owned get
  books-Booked v h =
      let sound : IsOwned no_books = record {
        unique = tt;
        sleeves_unique = tt;
        owned_held = λ j. refl;
      } in
      let r = book_orders-Booked _ v.sleeves no_books (latest_orders v.history) sound h in
      (r.0, λ key. r.1 key ∙ zero-+ℤ _)

  books-AllKeyed :
      (v : Visible) {books : Books}
      → book_visible portfolio_id settlement_asset initial_cash identity v ≡ ok books
      → AllBooked IsKeyed books
  books-AllKeyed v h =
      let orders = latest_orders v.history in
      book_orders-AllBooked IsKeyed _ v.sleeves no_books orders
        (All-map (λ o _ _. IsKeyed-IsClosed o.order.instrument _) orders (All-Unit orders))
        record { products = tt; sleeves = tt } h

  pub economics-Derived :
      (facts : Facts) (v : Visible) {e : Economics}
      → economics portfolio_id settlement_asset initial_cash identity facts v ≡ ok e
      → Derived v e
  unfolding economics
  economics-Derived facts v h =
      after_ok (book_visible portfolio_id settlement_asset initial_cash identity v) _ h
        λ books b h1.
          after_ok (funding_pnl v.history facts.funding_settlements facts.as_of) _ h1
            λ funding _ h2. after_ok (positions_of books.product_states) _ h2 λ positions p h3.
              after_ok (sleeve_positions books.sleeve_states v.sleeves) _ h3 λ sleeves o h4.
                after_ok (equity_of (books.cash +ℤ funding) books.product_states v.quotes) _ h4
                  λ equity _ h5.
                    let booked = books-Booked v b in
                    rw (← ok-injective h5) record {
                      reconciled =
                          books-reconciled books v.sleeves booked.0 (books-AllKeyed v b) p o;
                      listed = λ key.
                          get-Listed books.product_states positions booked.0.unique
                            (positions_of-Listed books.product_states (books-AllKeyed v b).products
                              p)
                            key
                          ∙ ap nonzero (booked.1 key);
                      visible_orders = refl;
                    }

  -- A snapshot is the content that the economics and the totals determine, under its identity.
  pub record Projected (facts : Facts) (s : PortfolioAccountSnapshot) : Type 0 where
    pub visible_facts : Visible
    pub is_visible : visible facts ≡ ok visible_facts
    pub economy : Economics
    pub accounting : PortfolioAccountingTotals
    pub derived :
        economics portfolio_id settlement_asset initial_cash identity facts visible_facts
        ≡ ok economy
    pub accounted :
        totals portfolio_id settlement_asset initial_cash identity economy ≡ ok accounting
    pub previous_checked : check_previous portfolio_id facts.previous facts.as_of ≡ ok tt
    pub content : s ≡ (
        let c =
          payload portfolio_id settlement_asset initial_cash identity facts economy accounting in
        record c { snapshot_id = identity c })

  pub project-Projected :
      (facts : Facts) {s : PortfolioAccountSnapshot}
      → project portfolio_id settlement_asset initial_cash identity facts ≡ ok s
      → Projected facts s
  unfolding project
  project-Projected facts h = after_ok (visible facts) _ h λ v a h1.
      after_ok (economics portfolio_id settlement_asset initial_cash identity facts v) _ h1
        λ e b h2.
          let c = raise_if-eq-ok (is_negative e.cash) cash_negative _ h2 in
          after_ok (totals portfolio_id settlement_asset initial_cash identity e) _ c.1 λ t d h3.
            after_ok (check_previous portfolio_id facts.previous facts.as_of) _ h3 λ done i h4.
              record {
                visible_facts = v;
                is_visible = a;
                economy = e;
                accounting = t;
                derived = b;
                accounted = d;
                previous_checked = i;
                content = sym (checked_snapshot-same _ h4);
              }

  -- Where a projection succeeds, the positions of its snapshot are what the latest orders have
  -- bought of every instrument less what they have sold, an instrument of which nothing is left
  -- having no position; and the sleeves of the snapshot hold together what its positions hold,
  -- whether or not the account is marked as reconciled.
  pub project-net :
      (facts : Facts) (v : Visible) (s : PortfolioAccountSnapshot)
      → visible facts ≡ ok v
      → project portfolio_id settlement_asset initial_cash identity facts ≡ ok s
      → ((key : ℕ)
          → get key (position_quantities s.positions)
            ≡ nonzero (
                sub_ℕ
                  (traded key buy (latest_orders v.history))
                  (traded key sell (latest_orders v.history))))
        × (is_reconciled s.sleeves s.positions ≡ true)
  unfolding payload
  project-net facts v s h k =
      let r = project-Projected facts k in
      let e = ok-injective (sym h ∙ r.is_visible) in
      let d = economics-Derived facts r.visible_facts r.derived in
      let p : s.positions ≡ r.economy.positions = ap (λ x. x.positions) r.content in
      let q : s.sleeves ≡ r.economy.sleeves = ap (λ x. x.sleeves) r.content in
      rw (p, q, e, ← d.visible_orders) (d.listed, d.reconciled)

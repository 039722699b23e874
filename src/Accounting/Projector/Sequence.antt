-- ===== src/Accounting/Projector/Sequence.antt =====
-- The snapshots of an account in their order, each made with the one before it.
use ai_investment_manager.Prelude.{
  ℕ, ◌≡◌, refl, sym, ap, ◌∙◌, false, none, some, List, [], ◌∷◌, ok, ◌==◌, if◌then◌else◌, Bool-cases,
  subst, ◌⊎◌, inl, inr, arith, All, All-map, Any, Any-map, map,
}
use ai_investment_manager.Prelude.Int.{
  ℤ, pos, ◌+ℤ◌, ◌-ℤ◌, is_less, max_ℤ, ext_ℤ, +ℤ_parts, -ℤ_parts,
}
use ai_investment_manager.Kernel.Decimal.{Decimal}
use ai_investment_manager.Portfolio.Account.{PortfolioAccountSnapshot}
use ai_investment_manager.Accounting.Projector.{Facts, project, payload, high_water, daily_pnl, day}
use ai_investment_manager.Accounting.Projector.Account.{project-Projected}

-- `a <= b`
abbrev pub IsAtMost : ℤ → ℤ → Type 0
IsAtMost a b = is_less b a ≡ false

-- The highest of some integers: none is above it, and it is one of them.
abbrev pub IsHighest : List ℤ → ℤ → Type 0
IsHighest xs high = All (λ e. IsAtMost e high) xs × Any (λ e. high ≡ e) xs

max_ℤ-left : (a b : ℤ) → IsAtMost a (max_ℤ a b)
max_ℤ-left a b = ground arith

max_ℤ-right : (a b : ℤ) → IsAtMost b (max_ℤ a b)
max_ℤ-right a b = ground arith

IsAtMost-trans : (a b c : ℤ) → IsAtMost a b → IsAtMost b c → IsAtMost a c
IsAtMost-trans a b c h k = ground arith

max_ℤ-cases : (a b : ℤ) → (max_ℤ a b ≡ a) ⊎ (max_ℤ a b ≡ b)
max_ℤ-cases a b = elim (Bool-cases (is_less a b)) [
  | inl e ↦ inr (rw (max_ℤ, e) refl)
  | inr e ↦ inl (rw (max_ℤ, e) refl)
]

minus_plus : (a b : ℤ) → a -ℤ b +ℤ b ≡ a
minus_plus a b = ext_ℤ (a -ℤ b +ℤ b) a (omega (arith, -ℤ_parts a b, +ℤ_parts (a -ℤ b) b))

telescope : (a e q b : ℤ) → a +ℤ b ≡ q → a +ℤ e -ℤ q +ℤ b ≡ e
telescope a e q b h = rw (← h) (
    ext_ℤ (a +ℤ e -ℤ (a +ℤ b) +ℤ b) e (
      omega (
        arith,
        +ℤ_parts a b,
        +ℤ_parts a e,
        -ℤ_parts (a +ℤ e) (a +ℤ b),
        +ℤ_parts (a +ℤ e -ℤ (a +ℤ b)) b,
      )))

module _ (portfolio_id settlement_asset : ℕ) (initial_cash : Decimal)
    (identity : PortfolioAccountSnapshot → ℕ) where
  -- The last snapshot of an account, and the days and equities of the snapshots before it, the
  -- latest first.
  pub data Ledger : PortfolioAccountSnapshot → List (ℕ × ℤ) → Type 0 where
    first :
        (facts : Facts) (s : PortfolioAccountSnapshot)
        → facts.previous ≡ none
        → project portfolio_id settlement_asset initial_cash identity facts ≡ ok s
        → Ledger s []
    later :
        (facts : Facts) (p s : PortfolioAccountSnapshot) (entries : List (ℕ × ℤ))
        → Ledger p entries
        → facts.previous ≡ some p
        → project portfolio_id settlement_asset initial_cash identity facts ≡ ok s
        → Ledger s ((day p.as_of, p.equity) ∷ entries)

  project-high_water :
      (facts : Facts) {s : PortfolioAccountSnapshot}
      → project portfolio_id settlement_asset initial_cash identity facts ≡ ok s
      → s.equity_high_water ≡ high_water (pos initial_cash) s.equity facts.previous
  unfolding payload
  project-high_water facts h =
      let r = project-Projected portfolio_id settlement_asset initial_cash identity facts h in
      rw r.content refl

  -- The high-water mark of an account is the highest of its initial cash and the equities of all
  -- its snapshots: none of them is above it, and it is one of them.
  pub Ledger-high_water :
      (s : PortfolioAccountSnapshot) (entries : List (ℕ × ℤ))
      → Ledger s entries
      → IsHighest (pos initial_cash ∷ s.equity ∷ map (λ e. e.1) entries) s.equity_high_water
  unfolding high_water
  Ledger-high_water s _ (first facts _ n h) =
      let w : s.equity_high_water ≡ max_ℤ s.equity (pos initial_cash) =
        project-high_water facts h ∙ rw n refl in
      subst (IsHighest (pos initial_cash ∷ s.equity ∷ [])) (sym w) (
        (max_ℤ-right s.equity (pos initial_cash), (max_ℤ-left s.equity (pos initial_cash), tt)),
        elim (max_ℤ-cases s.equity (pos initial_cash)) [ inl e ↦ inr (inl e) | inr e ↦ inl e ],
      )
  Ledger-high_water s _ (later facts p _ entries l n h) =
      let w : s.equity_high_water ≡ max_ℤ s.equity p.equity_high_water =
        project-high_water facts h ∙ rw n refl in
      let (below, found) = Ledger-high_water p entries l in
      let above = max_ℤ-right s.equity p.equity_high_water in
      let kept =
        All-map
          (λ e b. IsAtMost-trans e p.equity_high_water (max_ℤ s.equity p.equity_high_water) b above)
          (pos initial_cash ∷ p.equity ∷ map (λ e. e.1) entries) below in
      subst (IsHighest (pos initial_cash ∷ s.equity ∷ p.equity ∷ map (λ e. e.1) entries)) (sym w) (
        (kept.0, (max_ℤ-left s.equity p.equity_high_water, kept.1)),
        elim (max_ℤ-cases s.equity p.equity_high_water) [
          | inl e ↦ inr (inl e)
          | inr e ↦ elim found [
            | inl f ↦ inl (e ∙ f)
            | inr f ↦ inr (inr (Any-map (λ x g. e ∙ g) (p.equity ∷ map (λ e. e.1) entries) f))
          ]
        ],
      )

  -- The equity at the end of the last earlier day, the initial cash where there is none.
  abbrev pub day_base : ℕ → List (ℕ × ℤ) → ℤ
  day_base d [] = pos initial_cash
  day_base d (e ∷ entries) = if e.0 == d then day_base d entries else e.1

  project-as_of :
      (facts : Facts) {s : PortfolioAccountSnapshot}
      → project portfolio_id settlement_asset initial_cash identity facts ≡ ok s
      → s.as_of ≡ facts.as_of
  unfolding payload
  project-as_of facts h =
      let r = project-Projected portfolio_id settlement_asset initial_cash identity facts h in
      ap (λ x. x.as_of) r.content

  project-daily_pnl :
      (facts : Facts) {s : PortfolioAccountSnapshot}
      → project portfolio_id settlement_asset initial_cash identity facts ≡ ok s
      → s.daily_pnl ≡ daily_pnl (pos initial_cash) s.equity facts.previous s.as_of
  unfolding payload
  project-daily_pnl facts h =
      let r = project-Projected portfolio_id settlement_asset initial_cash identity facts h in
      rw r.content refl

  -- The profit of the day of a snapshot is what its equity has gained since the last snapshot of an
  -- earlier day, or since the initial cash where there is none.
  pub Ledger-daily_pnl :
      (s : PortfolioAccountSnapshot) (entries : List (ℕ × ℤ))
      → Ledger s entries
      → s.daily_pnl +ℤ day_base (day s.as_of) entries ≡ s.equity
  unfolding daily_pnl
  Ledger-daily_pnl s _ (first facts _ n h) =
      let d : s.daily_pnl ≡ s.equity -ℤ pos initial_cash = project-daily_pnl facts h ∙ rw n refl in
      rw d (minus_plus s.equity (pos initial_cash))
  Ledger-daily_pnl s _ (later facts p _ entries l n h) =
      let d : s.daily_pnl ≡ daily_pnl (pos initial_cash) s.equity (some p) s.as_of =
        project-daily_pnl facts h ∙ rw n refl in
      elim (Bool-cases (day p.as_of == day s.as_of)) [
        | inl c ↦
            let i : day p.as_of ≡ day s.as_of = ground arith in
            let before =
              subst (λ x. p.daily_pnl +ℤ day_base x entries ≡ p.equity) i
                (Ledger-daily_pnl p entries l) in
            rw (d, c)
              (telescope p.daily_pnl s.equity p.equity (day_base (day s.as_of) entries) before)
        | inr c ↦ rw (d, c) (minus_plus s.equity p.equity)
      ]

-- ===== src/Accounting/Position/Open.antt =====
-- What every open position keeps under fills: its key, and the direction that its product allows.
use ai_investment_manager.Prelude.{
  ℕ, ◌≡◌, refl, ap, ◌∙◌, true, false, ◌&&◌, Option, none, some, Bool-cases, inl, inr, ok, raise_if,
  ◌>>◌, >>=-eq-ok, raise_if-value, ok-injective, arith, All,
}
use ai_investment_manager.Prelude.Int.{ℤ, pos, ◌+ℤ◌, is_zero, is_negative, same_sign, same_sign-+ℤ}
use ai_investment_manager.Prelude.Dict.{Dict, get, put}
use ai_investment_manager.Prelude.Dict.Order.{All-get_key, All-put_key, All-remove}
use ai_investment_manager.Execution.Leg.{InstrumentId}
use ai_investment_manager.Accounting.Error.{spot_negative, is_spot, spot_product}
use ai_investment_manager.Accounting.Position.{
  PositionState, Fill, signed_fill, opened, grown, reduced, realized, settle, apply_fill,
  apply_position, priced,
}

-- What a property of positions must stand to be kept by a fill.
pub record IsClosed (P : ℕ → PositionState → Type 0) (i : InstrumentId) (fill : ℤ) : Type 0 where
  pub new : (price : ℤ) → is_spot i && is_negative fill ≡ false → P i.key (opened i fill price)
  pub grow :
      (price : ℤ) (p : PositionState)
      → P i.key p
      → same_sign p.quantity fill ≡ true
      → P i.key (grown p fill price)
  pub reduce :
      (price : ℤ) (p : PositionState)
      → P i.key p
      → is_zero (p.quantity +ℤ fill) ≡ false
      → is_spot i && is_negative (p.quantity +ℤ fill) ≡ false
      → P i.key (reduced p (p.quantity +ℤ fill) price)

abbrev pub AllOpen : (ℕ → PositionState → Type 0) → Dict PositionState → Type 0
AllOpen P d = All (λ e. P e.0 e.1) d

module _ (P : ℕ → PositionState → Type 0) where
  settle-AllOpen :
      (d : Dict PositionState) (p : PositionState) (i : InstrumentId) (fill price : ℤ)
      → IsClosed P i fill
      → AllOpen P d
      → P i.key p
      → is_spot i && is_negative (p.quantity +ℤ fill) ≡ false
      → AllOpen P (settle d p (p.quantity +ℤ fill) price i.key)
  unfolding settle
  settle-AllOpen d p i fill price c a h s = elim (Bool-cases (is_zero (p.quantity +ℤ fill))) [
    | inl z ↦ rw z (All-remove (λ e. P e.0 e.1) i.key d a)
    | inr n ↦ rw n (All-put_key P i.key _ d a (c.reduce price p h n s))
  ]

  apply_fill-AllOpen :
      (d : Dict PositionState) (i : InstrumentId) (fill price : ℤ) (found : Option PositionState)
      {r : Dict PositionState × ℤ}
      → IsClosed P i fill
      → AllOpen P d
      → get i.key d ≡ found
      → apply_fill d i fill price found ≡ ok r
      → AllOpen P r.0
  unfolding apply_fill
  apply_fill-AllOpen d i fill price none {r} c a f h =
      let done = raise_if-value (is_spot i && is_negative fill) spot_negative h in
      rw (← ap (λ x. x.0) done.1) (All-put_key P i.key _ d a (c.new price done.0))
  apply_fill-AllOpen d i fill price (some p) {r} c a f h =
      let q = All-get_key P i.key d a f in
      elim (Bool-cases (same_sign p.quantity fill)) [
        | inl s ↦
            let h' : ok (put i.key (grown p fill price) d, pos 0) ≡ ok r = rw s at h in
            rw (← ap (λ x. x.0) (ok-injective h')) (All-put_key P i.key _ d a (c.grow price p q s))
        | inr s ↦
            let after = settle d p (p.quantity +ℤ fill) price i.key in
            let profit = realized p fill price i.contract_multiplier in
            let test = is_spot i && is_negative (p.quantity +ℤ fill) in
            let h' : (raise_if test spot_negative >> ok (after, profit)) ≡ ok r = rw s at h in
            let done = raise_if-value test spot_negative h' in
            rw (← ap (λ x. x.0) done.1) (settle-AllOpen d p i fill price c a q done.0)
      ]

  pub apply_position-AllOpen :
      (d : Dict PositionState) (fill : Fill) {r : Dict PositionState × ℤ}
      → IsClosed P fill.instrument (signed_fill fill)
      → AllOpen P d
      → apply_position d fill ≡ ok r
      → AllOpen P r.0
  unfolding apply_position
  apply_position-AllOpen d fill c a h =
      let (price, e, f) = >>=-eq-ok (priced fill.average_fill_price) _ h in
      apply_fill-AllOpen d fill.instrument (signed_fill fill) price _ c a refl f

-- A position stands under the key of its instrument.
abbrev pub IsKeyed : ℕ → PositionState → Type 0
IsKeyed key p = p.instrument.key ≡ key

pub IsKeyed-IsClosed : (i : InstrumentId) (fill : ℤ) → IsClosed IsKeyed i fill
IsKeyed-IsClosed i fill = record {
  new = λ price s. refl;
  grow = λ price p h s. h;
  reduce = λ price p h z s. h;
}

-- An open position is not empty, and one of a spot product is not short. The key of an instrument
-- names its product.
module _ (product_of : ℕ → ℕ) where
  pub record IsOpen (key : ℕ) (p : PositionState) : Type 0 where
    pub nonzero : is_zero p.quantity ≡ false
    pub not_short : product_of key ≡ spot_product → is_negative p.quantity ≡ false

  pub IsOpen-IsClosed :
      (i : InstrumentId) (fill : ℤ)
      → i.product ≡ product_of i.key
      → is_zero fill ≡ false
      → IsClosed IsOpen i fill
  IsOpen-IsClosed i fill e z = record {
    new = λ price s. record { nonzero = z; not_short = λ k. ground arith };
    grow = λ price p h s. record {
      nonzero = (same_sign-+ℤ p.quantity fill s).0;
      not_short = λ k. (same_sign-+ℤ p.quantity fill s).1 ∙ h.not_short k;
    };
    reduce = λ price p h z s. record { nonzero = z; not_short = λ k. ground arith };
  }

-- ===== src/Kernel/Signed.antt =====
-- Python's `Decimal` values with a sign, as counts of 10^-18. A product is rounded half to even, as
-- that of the magnitudes.
use ai_investment_manager.Prelude.{◌+◌}
use ai_investment_manager.Prelude.Int.{ℤ, pos_part, neg_part, sub_ℕ}
use ai_investment_manager.Kernel.Decimal.{Decimal, mul, div}

-- `a * b` where b is not negative; one part of a is zero
unfoldable pub scale : ℤ → Decimal → ℤ
scale a b = sub_ℕ (mul (pos_part a) b) (mul (neg_part a) b)

-- `a * b`
unfoldable pub product : ℤ → ℤ → ℤ
product a b =
    sub_ℕ (mul (pos_part a) (pos_part b) + mul (neg_part a) (neg_part b))
      (mul (pos_part a) (neg_part b) + mul (neg_part a) (pos_part b))

-- `a / b` where b is positive
unfoldable pub quotient : ℤ → Decimal → ℤ
quotient a b = sub_ℕ (div (pos_part a) b) (div (neg_part a) b)

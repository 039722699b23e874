-- ===== src/Kernel/Decimal.antt =====
-- Python's `Decimal` values that are not negative, as counts of 10^-18. Sums, differences and
-- orders are exact. Python rounds a product and a quotient to 28 significant digits, half to even;
-- here they are rounded, half to even, to the unit.
use ai_investment_manager.Prelude.{ℕ, suc, ◌+◌, ◌*◌, ◌/◌, ◌%◌, ltb, ◌==◌, if◌then◌else◌}

abbrev pub Decimal : Type 0
Decimal = ℕ

-- `Decimal("1")`
abbrev pub one : Decimal
one = 1000000000000000000

-- The nearest integer to a / b.
unfoldable pub round_div : ℕ → ℕ → ℕ
round_div a b =
    let q = a / b in
    let twice = 2 * (a % b) in if ltb twice b then q else if twice == b then q + q % 2 else suc q

unfoldable pub mul : Decimal → Decimal → Decimal
unfolding round_div
mul a b = round_div (a * b) one

unfoldable pub div : Decimal → Decimal → Decimal
unfolding round_div
div a b = round_div (a * one) b

-- ===== src/Prelude/Int.antt =====
-- Signed integers over the native numbers, under the library's names (its ℤ stands on the unary ℕ).
use Prim.Native.Nat.{ℕ, suc, ◌+◌, ◌-◌}
use mathlib.Core.Path.{◌≡◌}
use mathlib.Core.Bool.{Bool, ◌&&◌}
use native.Mathlib.Omega.{arith}
use mathlib.Core.Bool.{true, false, ◌||◌}
use mathlib.Core.Path.{ap, sym, ◌∙◌}
use ai_investment_manager.Prelude.Tests.{leb, ltb, ◌==◌, if◌then◌else◌}

-- `negsuc n` is -(n + 1).
pub data ℤ : Type 0 where
  pos : ℕ → ℤ
  negsuc : ℕ → ℤ

-- An integer is the difference of its two parts.
abbrev pub pos_part : ℤ → ℕ
pos_part (pos n) = n
pos_part (negsuc n) = 0

abbrev pub neg_part : ℤ → ℕ
neg_part (pos n) = 0
neg_part (negsuc n) = suc n

-- a - b
abbrev pub sub_ℕ : ℕ → ℕ → ℤ
sub_ℕ a b = if leb b a then pos (a - b) else negsuc (b - a - 1)

infixl 65 ◌+ℤ◌
unfoldable pub ◌+ℤ◌ : ℤ → ℤ → ℤ
a +ℤ b = sub_ℕ (pos_part a + pos_part b) (neg_part a + neg_part b)

-- `-a`, and `a - b`
abbrev pub negate : ℤ → ℤ
negate a = sub_ℕ (neg_part a) (pos_part a)

infixl 65 ◌-ℤ◌
unfoldable pub ◌-ℤ◌ : ℤ → ℤ → ℤ
a -ℤ b = sub_ℕ (pos_part a + neg_part b) (neg_part a + pos_part b)

-- `abs(a)`
abbrev pub abs : ℤ → ℕ
abs a = pos_part a + neg_part a

abbrev pub is_positive : ℤ → Bool
is_positive a = ltb 0 (pos_part a)

abbrev pub is_negative : ℤ → Bool
is_negative a = ltb 0 (neg_part a)

-- `a * b > 0`
abbrev pub same_sign : ℤ → ℤ → Bool
same_sign a b = is_positive a && is_positive b || is_negative a && is_negative b

-- `a < b`
abbrev pub is_less : ℤ → ℤ → Bool
is_less a b = ltb (pos_part a + neg_part b) (pos_part b + neg_part a)

-- `max(a, b)`
abbrev pub max_ℤ : ℤ → ℤ → ℤ
max_ℤ a b = if is_less a b then b else a

abbrev pub is_zero : ℤ → Bool
is_zero a = pos_part a == 0 && neg_part a == 0

pub +ℤ_parts :
    (a b : ℤ)
    → pos_part (a +ℤ b) + neg_part a + neg_part b ≡ neg_part (a +ℤ b) + pos_part a + pos_part b
unfolding ◌+ℤ◌
+ℤ_parts a b = ground arith

pub -ℤ_parts :
    (a b : ℤ)
    → pos_part (a -ℤ b) + neg_part a + pos_part b ≡ neg_part (a -ℤ b) + pos_part a + neg_part b
unfolding ◌-ℤ◌
-ℤ_parts a b = ground arith

-- Two integers with the same difference of their parts are equal.
pub ext_ℤ : (a b : ℤ) → pos_part a + neg_part b ≡ pos_part b + neg_part a → a ≡ b
ext_ℤ (pos m) (pos n) h = ap pos (omega arith)
ext_ℤ (pos m) (negsuc n) h = ground arith
ext_ℤ (negsuc m) (pos n) h = ground arith
ext_ℤ (negsuc m) (negsuc n) h = ap negsuc (omega arith)

pub is_zero_eq : (a : ℤ) → is_zero a ≡ true → a ≡ pos 0
is_zero_eq a h = ext_ℤ a (pos 0) (ground arith)

pub +ℤ-zero : (a : ℤ) → a +ℤ pos 0 ≡ a
+ℤ-zero a = ext_ℤ (a +ℤ pos 0) a (omega (arith, +ℤ_parts a (pos 0)))

pub zero-+ℤ : (a : ℤ) → pos 0 +ℤ a ≡ a
zero-+ℤ a = ext_ℤ (pos 0 +ℤ a) a (omega (arith, +ℤ_parts (pos 0) a))

pub +ℤ-comm : (a b : ℤ) → a +ℤ b ≡ b +ℤ a
+ℤ-comm a b = ext_ℤ (a +ℤ b) (b +ℤ a) (omega (arith, +ℤ_parts a b, +ℤ_parts b a))

pub +ℤ-assoc : (a b c : ℤ) → a +ℤ b +ℤ c ≡ a +ℤ (b +ℤ c)
+ℤ-assoc a b c =
    ext_ℤ (a +ℤ b +ℤ c) (a +ℤ (b +ℤ c))
      (omega (arith, +ℤ_parts a b, +ℤ_parts b c, +ℤ_parts (a +ℤ b) c, +ℤ_parts a (b +ℤ c)))

pub sub_ℕ_parts : (a b : ℕ) → pos_part (sub_ℕ a b) + b ≡ neg_part (sub_ℕ a b) + a
sub_ℕ_parts a b = ground arith

pub +ℤ-swap : (a b c : ℤ) → a +ℤ b +ℤ c ≡ a +ℤ c +ℤ b
+ℤ-swap a b c = +ℤ-assoc a b c ∙ ap (λ x. a +ℤ x) (+ℤ-comm b c) ∙ sym (+ℤ-assoc a c b)

-- Differences are equal where the crossed sums are.
pub sub_ℕ-eq : (a b c d : ℕ) → a + d ≡ c + b → sub_ℕ a b ≡ sub_ℕ c d
sub_ℕ-eq a b c d h =
    ext_ℤ (sub_ℕ a b) (sub_ℕ c d) (omega (arith, sub_ℕ_parts a b, sub_ℕ_parts c d, h))

-- A sum with a difference.
pub +ℤ-sub_ℕ :
    (x : ℤ) (b c d e : ℕ) → pos_part x + b + e ≡ neg_part x + c + d → x +ℤ sub_ℕ b c ≡ sub_ℕ d e
+ℤ-sub_ℕ x b c d e h =
    ext_ℤ (x +ℤ sub_ℕ b c) (sub_ℕ d e)
      (omega (arith, +ℤ_parts x (sub_ℕ b c), sub_ℕ_parts b c, sub_ℕ_parts d e, h))

-- A sum of two integers of one sign has that sign.
pub same_sign-+ℤ :
    (a b : ℤ)
    → same_sign a b ≡ true
    → (is_zero (a +ℤ b) ≡ false) × (is_negative (a +ℤ b) ≡ is_negative a)
unfolding ◌+ℤ◌
same_sign-+ℤ (pos m) (pos n) h = (ground arith, ground arith)
same_sign-+ℤ (pos m) (negsuc n) h = ground arith
same_sign-+ℤ (negsuc m) (pos n) h = ground arith
same_sign-+ℤ (negsuc m) (negsuc n) h = (ground arith, ground arith)

pub +ℤ-exchange : (a b c : ℤ) → a +ℤ (b +ℤ c) ≡ b +ℤ (a +ℤ c)
+ℤ-exchange a b c = sym (+ℤ-assoc a b c) ∙ ap (λ x. x +ℤ c) (+ℤ-comm a b) ∙ +ℤ-assoc b a c

-- ===== src/Base/Int64.antt =====
-- Go's `int` and `int64`, as signed integers over the native numbers. Their sums and differences
-- wrap at 64 bits.
use Prim.Native.Nat.{ℕ, suc, ◌+◌, ◌-◌, ◌%◌, ◌≤◌, ◌<◌}
use Prim.Native.String.{String}
use mathlib.Core.Path.{◌≡◌}
use mathlib.Core.Bool.{Bool}
use native.Mathlib.Omega.{arith}
use schedune.Base.Tests.{ltb, leb, eqb, if◌then◌else◌}
use schedune.Base.Texts.{◌<>◌, decimal}

-- `negsuc n` is -(n + 1).
pub data ℤ : Type 0 where
  pos : ℕ → ℤ
  negsuc : ℕ → ℤ

abbrev pub pos_part : ℤ → ℕ
pos_part (pos n) = n
pos_part (negsuc n) = 0

abbrev pub neg_part : ℤ → ℕ
neg_part (pos n) = 0
neg_part (negsuc n) = suc n

-- a - b, as an integer.
abbrev pub sub_ℕ : ℕ → ℕ → ℤ
sub_ℕ a b = if leb b a then pos (a - b) else negsuc (b - a - 1)

infixl 65 ◌+ℤ◌ ◌-ℤ◌
infix 50 ◌≤ℤ◌ ◌<ℤ◌
unfoldable pub ◌+ℤ◌ : ℤ → ℤ → ℤ
a +ℤ b = sub_ℕ (pos_part a + pos_part b) (neg_part a + neg_part b)

unfoldable pub ◌-ℤ◌ : ℤ → ℤ → ℤ
a -ℤ b = sub_ℕ (pos_part a + neg_part b) (neg_part a + pos_part b)

abbrev pub ◌≤ℤ◌ : ℤ → ℤ → Type 0
a ≤ℤ b = pos_part a + neg_part b ≤ pos_part b + neg_part a

abbrev pub ◌<ℤ◌ : ℤ → ℤ → Type 0
a <ℤ b = pos_part a + neg_part b < pos_part b + neg_part a

abbrev pub ltb_ℤ : ℤ → ℤ → Bool
ltb_ℤ a b = ltb (pos_part a + neg_part b) (pos_part b + neg_part a)

abbrev pub leb_ℤ : ℤ → ℤ → Bool
leb_ℤ a b = leb (pos_part a + neg_part b) (pos_part b + neg_part a)

abbrev pub eqb_ℤ : ℤ → ℤ → Bool
eqb_ℤ a b = eqb (pos_part a + neg_part b) (pos_part b + neg_part a)

pub +ℤ_parts :
    (a b : ℤ)
    → pos_part (a +ℤ b) + neg_part a + neg_part b ≡ neg_part (a +ℤ b) + pos_part a + pos_part b
unfolding ◌+ℤ◌
+ℤ_parts a b = ground arith

pub -ℤ_parts :
    (a b : ℤ)
    → pos_part (a -ℤ b) + neg_part a + pos_part b ≡ neg_part (a -ℤ b) + pos_part a + neg_part b
unfolding ◌-ℤ◌
-ℤ_parts a b = ground arith

pub eq_of_parts : (a b : ℤ) → pos_part a + neg_part b ≡ pos_part b + neg_part a → a ≡ b
eq_of_parts a b h = ground arith

pub ruleset int_laws = (arith, +ℤ_parts, -ℤ_parts, eq_of_parts)

-- The integer that 64 bits stand for.
abbrev pub of_bits : ℕ → ℤ
of_bits b = if ltb b 0x8000000000000000 then pos b else negsuc (0xffffffffffffffff - b)

unfoldable pub wrap : ℤ → ℤ
wrap (pos n) = of_bits (n % 0x10000000000000000)
wrap (negsuc n) = of_bits (0xffffffffffffffff - n % 0x10000000000000000)

unfoldable pub add64 : ℤ → ℤ → ℤ
add64 a b = wrap (a +ℤ b)

unfoldable pub sub64 : ℤ → ℤ → ℤ
sub64 a b = wrap (a -ℤ b)

-- What 64 bits can hold.
abbrev pub IsInt64 : ℤ → Type 0
IsInt64 z = (negsuc 0x7fffffffffffffff ≤ℤ z) × (z ≤ℤ pos 0x7fffffffffffffff)

pub wrap-IsInt64 : (z : ℤ) → IsInt64 (wrap z)
unfolding wrap
wrap-IsInt64 z = ground arith

pub wrap_of_IsInt64 : (z : ℤ) → IsInt64 z → wrap z ≡ z
unfolding wrap
wrap_of_IsInt64 z h = ground arith

-- A moment that a clock can show: seconds from the epoch, before the year 2^62.
abbrev pub IsTime : ℤ → Type 0
IsTime t = (pos 0 ≤ℤ t) × (t ≤ℤ pos 0x3fffffffffffffff)

pub sub64_of_IsTime : (a b : ℤ) → IsTime a → IsTime b → sub64 a b ≡ a -ℤ b
unfolding sub64
sub64_of_IsTime a b h k = wrap_of_IsInt64 (a -ℤ b) (omega int_laws, omega int_laws)

pub add64_of_IsTime : (a b : ℤ) → IsTime a → IsTime b → add64 a b ≡ a +ℤ b
unfolding add64
add64_of_IsTime a b h k = wrap_of_IsInt64 (a +ℤ b) (omega int_laws, omega int_laws)

-- `%d` of an `int`.
unfoldable pub decimal_ℤ : ℤ → String
unfolding decimal
decimal_ℤ (pos n) = decimal n
decimal_ℤ (negsuc n) = "-" <> decimal (suc n)

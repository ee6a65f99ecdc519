-- ===== src/Common/Int.antt =====
-- Go's `int` and `int64`: integers over the native numbers, under the library's names, with the
-- 64-bit wrap-around of the arithmetic written out.
use Prim.Native.Nat.{ℕ, suc, ◌+◌, ◌-◌, ◌*◌, ◌/◌, ◌%◌, ◌^◌, ◌≤◌}
use mathlib.Core.Path.{◌≡◌}
use mathlib.Core.Logic.{◌↔◌}
use mathlib.Core.Bool.{Bool, true}
use native.Mathlib.Omega.{arith}
use loresuelvo_api.Common.Tests.{ltb, leb, ◌==◌, if◌then◌else◌}

-- `negsuc n` is -(n + 1).
pub data ℤ : Type 0 where
  pos : ℕ → ℤ
  negsuc : ℕ → ℤ

abbrev pub pos_part : ℤ → ℕ
pos_part (pos n) = n
pos_part (negsuc n) = 0

abbrev pub neg_part : ℤ → ℕ
neg_part (pos n) = 0
neg_part (negsuc n) = suc n

-- a - b, as an integer.
abbrev pub sub_ℕ : ℕ → ℕ → ℤ
sub_ℕ a b = if leb b a then pos (a - b) else negsuc (b - a - 1)

infixl 65 ◌+ℤ◌ ◌-ℤ◌
infixl 70 ◌*ℤ◌
infix 50 ◌≤ℤ◌ ◌==ℤ◌
unfoldable pub ◌+ℤ◌ : ℤ → ℤ → ℤ
a +ℤ b = sub_ℕ (pos_part a + pos_part b) (neg_part a + neg_part b)

unfoldable pub ◌-ℤ◌ : ℤ → ℤ → ℤ
a -ℤ b = sub_ℕ (pos_part a + neg_part b) (neg_part a + pos_part b)

unfoldable pub ◌*ℤ◌ : ℤ → ℤ → ℤ
a *ℤ b =
    sub_ℕ (pos_part a * pos_part b + neg_part a * neg_part b)
      (pos_part a * neg_part b + neg_part a * pos_part b)

abbrev pub ◌≤ℤ◌ : ℤ → ℤ → Type 0
a ≤ℤ b = pos_part a + neg_part b ≤ pos_part b + neg_part a

unfoldable pub ltb_ℤ : ℤ → ℤ → Bool
ltb_ℤ a b = ltb (pos_part a + neg_part b) (pos_part b + neg_part a)

unfoldable pub leb_ℤ : ℤ → ℤ → Bool
leb_ℤ a b = leb (pos_part a + neg_part b) (pos_part b + neg_part a)

unfoldable pub ◌==ℤ◌ : ℤ → ℤ → Bool
a ==ℤ b = pos_part a + neg_part b == pos_part b + neg_part a

pub ==ℤ_iff : (a b : ℤ) → ((a ==ℤ b) ≡ true) ↔ (a ≡ b)
unfolding ◌==ℤ◌
==ℤ_iff a b = ground arith

-- The value of a 64-bit two's complement word whose bits are those of `z`.
unfoldable pub wrap_int64 : ℤ → ℤ
wrap_int64 (pos n) = let r = n % 2 ^ 64 in if ltb r (2 ^ 63) then pos r else negsuc (2 ^ 64 - r - 1)
wrap_int64 (negsuc n) =
    let r = n % 2 ^ 64 in if ltb r (2 ^ 63) then negsuc r else pos (2 ^ 64 - r - 1)

abbrev pub max_int64 : ℤ
max_int64 = pos 9223372036854775807

-- The values that an `int64` holds.
abbrev pub IsInt64 : ℤ → Type 0
IsInt64 z = (pos_part z ≤ 9223372036854775807) × (neg_part z ≤ 9223372036854775808)

unfoldable pub add_int64 : ℤ → ℤ → ℤ
unfolding wrap_int64 ◌+ℤ◌
add_int64 a b = wrap_int64 (a +ℤ b)

unfoldable pub sub_int64 : ℤ → ℤ → ℤ
unfolding wrap_int64 ◌-ℤ◌
sub_int64 a b = wrap_int64 (a -ℤ b)

unfoldable pub mul_int64 : ℤ → ℤ → ℤ
unfolding wrap_int64 ◌*ℤ◌
mul_int64 a b = wrap_int64 (a *ℤ b)

-- Division by a positive constant: Go's `/` and `%` round towards zero.
abbrev pub neg_ℕ : ℕ → ℤ
neg_ℕ n = sub_ℕ 0 n

unfoldable pub quot_int64 : ℤ → ℕ → ℤ
quot_int64 (pos n) d = pos (n / d)
quot_int64 (negsuc n) d = neg_ℕ (suc n / d)

unfoldable pub rem_int64 : ℤ → ℕ → ℤ
rem_int64 (pos n) d = pos (n % d)
rem_int64 (negsuc n) d = neg_ℕ (suc n % d)

-- In range nothing wraps.
pub wrap_int64_pos : (n : ℕ) → n ≤ 9223372036854775807 → wrap_int64 (pos n) ≡ pos n
unfolding wrap_int64
wrap_int64_pos n h = ground arith

pub wrap_int64-IsInt64 : (z : ℤ) → IsInt64 (wrap_int64 z)
unfolding wrap_int64
wrap_int64-IsInt64 (pos n) = ground arith
wrap_int64-IsInt64 (negsuc n) = ground arith

-- Sums through the two parts of an integer, with the sum shut.
pub +ℤ_parts :
    (a b : ℤ)
    → pos_part (a +ℤ b) + neg_part a + neg_part b ≡ neg_part (a +ℤ b) + pos_part a + pos_part b
unfolding ◌+ℤ◌
+ℤ_parts a b = ground arith

pub add_int64_exact :
    (a b : ℤ) → pos 0 ≤ℤ a → pos 0 ≤ℤ b → a +ℤ b ≤ℤ max_int64 → add_int64 a b ≡ a +ℤ b
unfolding add_int64
add_int64_exact a b h k l = ground arith

pub eq_of_parts : (a b : ℤ) → pos_part a + neg_part b ≡ pos_part b + neg_part a → a ≡ b
eq_of_parts a b h = ground arith

pub ruleset int_laws = (arith, +ℤ_parts, eq_of_parts)

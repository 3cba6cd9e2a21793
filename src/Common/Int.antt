-- ===== src/Common/Int.antt =====
-- Signed integers over the native numbers, and Go's int64 (and int, on 64-bit platforms) among
-- them: every sum and difference of the source wraps to [-2^63, 2^63).
use Prim.Native.Nat.{ℕ, suc, ◌+◌, ◌-◌, ◌%◌, ◌≤◌, ◌<◌}
use mathlib.Core.Path.{◌≡◌}
use mathlib.Core.Bool.{Bool, true, false}
use mathlib.Core.Logic.{◌↔◌}
use native.Mathlib.Omega.{arith}
use kafka_rest_proxy_go.Common.Tests.{◌==◌, ltb, leb, if◌then◌else◌}

-- `negsuc n` is -(n + 1).
pub data ℤ : Type 0 where
  pos : ℕ → ℤ
  negsuc : ℕ → ℤ

abbrev pub pos_part : ℤ → ℕ
pos_part (pos n) = n
pos_part (negsuc n) = 0

abbrev pub neg_part : ℤ → ℕ
neg_part (pos n) = 0
neg_part (negsuc n) = suc n

-- a - b, as an integer.
abbrev pub sub_ℕ : ℕ → ℕ → ℤ
sub_ℕ a b = if leb b a then pos (a - b) else negsuc (b - a - 1)

infixl 65 ◌+ℤ◌ ◌-ℤ◌
infix 50 ◌≤ℤ◌
unfoldable pub ◌+ℤ◌ : ℤ → ℤ → ℤ
a +ℤ b = sub_ℕ (pos_part a + pos_part b) (neg_part a + neg_part b)

unfoldable pub ◌-ℤ◌ : ℤ → ℤ → ℤ
a -ℤ b = sub_ℕ (pos_part a + neg_part b) (neg_part a + pos_part b)

abbrev pub ◌≤ℤ◌ : ℤ → ℤ → Type 0
a ≤ℤ b = pos_part a + neg_part b ≤ pos_part b + neg_part a

abbrev pub ltb_ℤ : ℤ → ℤ → Bool
ltb_ℤ a b = ltb (pos_part a + neg_part b) (pos_part b + neg_part a)

abbrev pub eq_ℤ : ℤ → ℤ → Bool
eq_ℤ (pos a) (pos b) = a == b
eq_ℤ (negsuc a) (negsuc b) = a == b
eq_ℤ (pos a) (negsuc b) = false
eq_ℤ (negsuc a) (pos b) = false

pub eq_ℤ_iff : (a b : ℤ) → (eq_ℤ a b ≡ true) ↔ (a ≡ b)
eq_ℤ_iff (pos a) (pos b) = ground arith
eq_ℤ_iff (negsuc a) (negsuc b) = ground arith
eq_ℤ_iff (pos a) (negsuc b) = ((λ e. cc), λ e. cc)
eq_ℤ_iff (negsuc a) (pos b) = ((λ e. cc), λ e. cc)

-- 2^63 and 2^64.
abbrev pub int64_bound : ℕ
int64_bound = 9223372036854775808

abbrev pub uint64_bound : ℕ
uint64_bound = 18446744073709551616

abbrev pub IsInt64 : ℤ → Type 0
IsInt64 z = (pos_part z < int64_bound) × (neg_part z ≤ int64_bound)

-- The bit pattern of an integer, as an unsigned number, and the signed reading of a pattern.
abbrev pub residue64 : ℤ → ℕ
residue64 (pos n) = n % uint64_bound
residue64 (negsuc n) = uint64_bound - 1 - n % uint64_bound

abbrev pub signed64 : ℕ → ℤ
signed64 r = if ltb r int64_bound then pos r else negsuc (uint64_bound - r - 1)

unfoldable pub wrap64 : ℤ → ℤ
wrap64 z = signed64 (residue64 z)

unfoldable pub add64 : ℤ → ℤ → ℤ
unfolding wrap64 ◌+ℤ◌
add64 a b = wrap64 (a +ℤ b)

unfoldable pub sub64 : ℤ → ℤ → ℤ
unfolding wrap64 ◌-ℤ◌
sub64 a b = wrap64 (a -ℤ b)

pub wrap64_of_IsInt64 : (z : ℤ) → IsInt64 z → wrap64 z ≡ z
unfolding wrap64
wrap64_of_IsInt64 (pos n) h = ground arith
wrap64_of_IsInt64 (negsuc n) h = ground arith

-- On counters, which are never negative, the operations are those of ℕ as long as nothing wraps.
pub add64_pos : (a b : ℕ) → a + b < int64_bound → add64 (pos a) (pos b) ≡ pos (a + b)
unfolding add64
add64_pos a b h = ground arith

-- A sum of two counters that leaves the range is negative.
pub add64_wraps :
    (a b : ℕ)
    → a < int64_bound
    → b < int64_bound
    → int64_bound ≤ a + b
    → add64 (pos a) (pos b) ≡ negsuc (uint64_bound - 1 - (a + b))
unfolding add64
add64_wraps a b h k o = ground arith

pub sub64_pos : (a b : ℕ) → b ≤ a → a < int64_bound → sub64 (pos a) (pos b) ≡ pos (a - b)
unfolding sub64
sub64_pos a b h k = ground arith

pub sub64_neg : (a b : ℕ) → a < b → b < int64_bound → sub64 (pos a) (pos b) ≡ negsuc (b - a - 1)
unfolding sub64
sub64_neg a b h k = ground arith

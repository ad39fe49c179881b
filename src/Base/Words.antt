-- ===== src/Base/Words.antt =====
-- Signed 32-bit counters, and shifts and masks of unsigned words in the form that the arithmetic
-- tactics read.
use Prim.Native.Nat.{ℕ, zero, suc, ◌+◌, ◌-◌, ◌/◌, ◌%◌, ◌^◌}
use mathlib.Core.Bool.{Bool, true, false}
use conrt.Base.Tests.{◌==◌, if◌then◌else◌}

-- `negsuc n` is -(n + 1).
pub data ℤ : Type 0 where
  pos : ℕ → ℤ
  negsuc : ℕ → ℤ

-- The largest `i32`.
abbrev pub i32_max : ℕ
i32_max = 2147483647

-- `x += 1` and `x -= 1` on an `i32`, which wrap at the ends of its range.
abbrev pub incr_i32 : ℤ → ℤ
incr_i32 (pos n) = if n == i32_max then negsuc i32_max else pos (n + 1)
incr_i32 (negsuc zero) = pos 0
incr_i32 (negsuc (suc n)) = negsuc n

abbrev pub decr_i32 : ℤ → ℤ
decr_i32 (pos zero) = negsuc 0
decr_i32 (pos (suc n)) = pos n
decr_i32 (negsuc n) = if n == i32_max then pos i32_max else negsuc (n + 1)

abbrev pub is_zero : ℤ → Bool
is_zero (pos zero) = true
is_zero _ = false

abbrev pub is_positive : ℤ → Bool
is_positive (pos (suc n)) = true
is_positive _ = false

abbrev pub is_negative : ℤ → Bool
is_negative (negsuc n) = true
is_negative _ = false

-- `x >> k`, and `x & (2^k - 1)`.
abbrev pub shr : ℕ → ℕ → ℕ
shr x k = x / 2 ^ k

abbrev pub low_bits : ℕ → ℕ → ℕ
low_bits x k = x % 2 ^ k

-- `a - b` on a `usize`, which wraps.
abbrev pub sub_size : ℕ → ℕ → ℕ
sub_size a b = (a + 2 ^ 64 - b) % 2 ^ 64

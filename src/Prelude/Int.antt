-- ===== src/Prelude/Int.antt =====
-- Signed integers over the native numbers: Go's int32 and int64 values, seconds and durations.
use Prim.Native.Nat.{ℕ, suc, ◌+◌, ◌-◌, ◌*◌, ◌%◌, ◌<◌}
use mathlib.Core.Path.{◌≡◌}
use mathlib.Core.Bool.{Bool, true, false}
use native.Mathlib.Omega.{arith}
use quorum_quest.Prelude.Tests.{ltb, leb, if◌then◌else◌}

-- `negsuc n` is -(n + 1).
pub data ℤ : Type 0 where
  pos : ℕ → ℤ
  negsuc : ℕ → ℤ

-- `x > 0`, as the code tests it.
abbrev pub is_positive : ℤ → Bool
is_positive (pos n) = ltb 0 n
is_positive (negsuc n) = false

-- `x < 0`.
abbrev pub is_negative : ℤ → Bool
is_negative (pos n) = false
is_negative (negsuc n) = true

-- The value of a Go int32: -2^31 ≤ x < 2^31.
abbrev pub IsInt32 : ℤ → Type 0
IsInt32 (pos n) = n < 2147483648
IsInt32 (negsuc n) = n < 2147483648

-- The 64 bits of an integer, in two's complement, and the integer that 64 bits stand for.
abbrev pub bits64 : ℤ → ℕ
bits64 (pos n) = n % 18446744073709551616
bits64 (negsuc n) = 18446744073709551615 - n % 18446744073709551616

abbrev pub of_bits64 : ℕ → ℤ
of_bits64 b = if ltb b 9223372036854775808 then pos b else negsuc (18446744073709551615 - b)

-- An int64 product by a positive constant, wrapped as Go wraps it.
abbrev pub times : ℤ → ℕ → ℤ
times (pos n) k = pos (n * k)
times (negsuc n) k = negsuc (suc n * k - 1)

unfoldable pub times64 : ℤ → ℕ → ℤ
times64 a k = of_bits64 (bits64 (times a k))

-- An int32 number of seconds in nanoseconds stays within int64.
pub times64-seconds : (a : ℤ) → IsInt32 a → times64 a 1000000000 ≡ times a 1000000000
unfolding times64
times64-seconds (pos n) h = ground arith
times64-seconds (negsuc n) h = ground arith

-- a - b, of natural numbers.
abbrev pub sub_ℕ : ℕ → ℕ → ℤ
sub_ℕ a b = if leb b a then pos (a - b) else negsuc (b - a - 1)

-- A moment and a number of seconds, which may be negative.
abbrev pub plus : ℕ → ℤ → ℤ
plus n (pos m) = pos (n + m)
plus n (negsuc m) = sub_ℕ n (suc m)

-- `a < b`
abbrev pub ltb_ℤ : ℤ → ℤ → Bool
ltb_ℤ (pos a) (pos b) = ltb a b
ltb_ℤ (pos a) (negsuc b) = false
ltb_ℤ (negsuc a) (pos b) = true
ltb_ℤ (negsuc a) (negsuc b) = ltb b a

-- ===== src/Common/Int64.antt =====
-- Go's int64: a bit pattern below 2 ^ 64 and the integer that it stands for.
use Prim.Native.Nat.{ℕ, ◌-◌, ◌*◌, ◌%◌, ◌^◌}
use mathlib.Core.Bool.{Bool, true, false}
use url_shortener.Common.Tests.{ltb, leb, if◌then◌else◌}

-- `negsuc n` is -(n + 1).
pub data ℤ : Type 0 where
  pos : ℕ → ℤ
  negsuc : ℕ → ℤ

abbrev pub modulus : ℕ
modulus = 2 ^ 64

abbrev pub max_int64 : ℕ
max_int64 = 2 ^ 63 - 1

-- The integer of a bit pattern.
abbrev pub signed : ℕ → ℤ
signed w = if ltb w (2 ^ 63) then pos w else negsuc (modulus - 1 - w)

-- The product of two int64 that are not negative, with wrap-around.
abbrev pub mul64 : ℕ → ℕ → ℕ
mul64 a b = (a * b) % modulus

-- `d <= 0`
abbrev pub is_le_zero : ℤ → Bool
is_le_zero (pos n) = leb n 0
is_le_zero (negsuc n) = true

-- `d > b`, for a bound `b` that is not negative.
abbrev pub is_above : ℤ → ℕ → Bool
is_above (pos n) b = ltb b n
is_above (negsuc n) b = false

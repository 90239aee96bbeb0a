-- ===== src/Base/Int.antt =====
-- Go's signed int64 and int values as integers over the native numbers, under the library's names.
use Prim.Native.Nat.{ℕ, zero, suc, ◌+◌, ◌-◌, ◌/◌, ◌%◌, ◌^◌, ◌≤◌}
use mathlib.Core.Bool.{Bool}
use tx_indexer.Base.Tests.{leb, ltb, ◌==◌, if◌then◌else◌}
use mathlib.Core.Option.{Option, none, some}

-- `negsuc n` is -(n + 1).
pub data ℤ : Type 0 where
  pos : ℕ → ℤ
  negsuc : ℕ → ℤ

abbrev pub pos_part : ℤ → ℕ
pos_part (pos n) = n
pos_part (negsuc n) = 0

abbrev pub neg_part : ℤ → ℕ
neg_part (pos n) = 0
neg_part (negsuc n) = suc n

infix 50 ◌≤ℤ◌
abbrev pub ◌≤ℤ◌ : ℤ → ℤ → Type 0
a ≤ℤ b = pos_part a + neg_part b ≤ pos_part b + neg_part a

abbrev pub leb_ℤ : ℤ → ℤ → Bool
leb_ℤ a b = leb (pos_part a + neg_part b) (pos_part b + neg_part a)

abbrev pub eqb_ℤ : ℤ → ℤ → Bool
eqb_ℤ a b = (pos_part a + neg_part b) == (pos_part b + neg_part a)

-- uint64(v) and uint32(v) of an int.
unfoldable pub to_uint : ℕ → ℤ → ℕ
to_uint w (pos n) = n % 2 ^ w
to_uint w (negsuc n) = 2 ^ w - 1 - n % 2 ^ w

-- int(h) of a uint64.
unfoldable pub to_int : ℕ → ℤ
to_int h = if ltb h (2 ^ 63) then pos h else negsuc (2 ^ 64 - 1 - h)

-- The sum of two int64.
unfoldable pub add64 : ℤ → ℤ → ℤ
add64 a b = to_int ((to_uint 64 a + to_uint 64 b) % 2 ^ 64)

pub negate : ℕ → ℤ
negate zero = pos 0
negate (suc n) = negsuc n

-- Go's division, which rounds to 0, by a positive number; division by 0 panics.
unfoldable pub div64 : ℤ → ℕ → Option ℤ
div64 a zero = none
div64 (pos n) (suc d) = some (pos (n / suc d))
div64 (negsuc n) (suc d) = some (negate (suc n / suc d))

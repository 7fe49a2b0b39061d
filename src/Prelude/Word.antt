-- ===== src/Prelude/Word.antt =====
-- Go's 64-bit integers: a value is an integer, and every operation wraps around.
use Prim.Native.Nat.{ℕ, ◌+◌, ◌-◌, ◌%◌, ◌^◌, ◌≤◌}
use mathlib.Core.Path.{◌≡◌}
use mathlib.Core.Bool.{Bool, true, ◌&&◌}
use native.Mathlib.Omega.{arith}
use jungle_gaming_backend_te.Prelude.Tests.{ltb, leb, if◌then◌else◌}
use jungle_gaming_backend_te.Prelude.Int.{ℤ, pos, negsuc, pos_part, neg_part, ◌+ℤ◌, ◌-ℤ◌}

-- `math.MaxInt64` and `math.MinInt64`.
abbrev pub max_int64 : ℤ
max_int64 = pos (2 ^ 63 - 1)

abbrev pub min_int64 : ℤ
min_int64 = negsuc (2 ^ 63 - 1)

abbrev pub max_uint64 : ℕ
max_uint64 = 2 ^ 64 - 1

-- The values of an `int64`.
abbrev pub InInt64 : ℤ → Type 0
InInt64 z = (pos_part z ≤ 2 ^ 63 - 1) × (neg_part z ≤ 2 ^ 63)

-- Whether an integer is one of them.
abbrev pub fits : ℤ → Bool
fits z = leb (pos_part z) (2 ^ 63 - 1) && leb (neg_part z) (2 ^ 63)

pub InInt64-fits : (z : ℤ) → fits z ≡ true → InInt64 z
InInt64-fits z h = ground arith

pub fits-InInt64 : (z : ℤ) → InInt64 z → fits z ≡ true
fits-InInt64 z h = ground arith

-- The bit pattern of an integer: the conversion `uint64(z)`.
unfoldable pub to_uint64 : ℤ → ℕ
to_uint64 z = (pos_part z + (2 ^ 64 - neg_part z % 2 ^ 64)) % 2 ^ 64

-- The integer of a bit pattern: the conversion `int64(w)`.
unfoldable pub to_int64 : ℕ → ℤ
to_int64 w = if ltb w (2 ^ 63) then pos w else negsuc (2 ^ 64 - w - 1)

unfoldable pub wrap64 : ℤ → ℤ
unfolding to_uint64 to_int64
wrap64 z = to_int64 (to_uint64 z)

unfoldable pub add64 : ℤ → ℤ → ℤ
add64 a b = wrap64 (a +ℤ b)

unfoldable pub sub64 : ℤ → ℤ → ℤ
sub64 a b = wrap64 (a -ℤ b)

-- What fits is not changed.
pub wrap64_of_fits : (z : ℤ) → InInt64 z → wrap64 z ≡ z
unfolding wrap64
wrap64_of_fits z h = ground arith

pub add64_of_fits : (a b : ℤ) → InInt64 (a +ℤ b) → add64 a b ≡ a +ℤ b
unfolding add64
add64_of_fits a b h = wrap64_of_fits (a +ℤ b) h

pub sub64_of_fits : (a b : ℤ) → InInt64 (a -ℤ b) → sub64 a b ≡ a -ℤ b
unfolding sub64
sub64_of_fits a b h = wrap64_of_fits (a -ℤ b) h

pub to_uint64_of_nonneg : (n : ℕ) → n ≤ 2 ^ 64 - 1 → to_uint64 (pos n) ≡ n
unfolding to_uint64
to_uint64_of_nonneg n h = omega arith

pub to_int64_of_fits : (n : ℕ) → n ≤ 2 ^ 63 - 1 → to_int64 n ≡ pos n
unfolding to_int64
to_int64_of_fits n h = ground arith

-- `-(z + 1)` of a negative `int64`, which cannot overflow.
pub negated_below_zero : (n : ℕ) → n ≤ 2 ^ 63 - 1 → sub64 (pos 0) (add64 (negsuc n) (pos 1)) ≡ pos n
unfolding sub64 add64 wrap64 ◌+ℤ◌ ◌-ℤ◌
negated_below_zero n h = ground arith

-- ===== src/Prelude/Word64.antt =====
-- Go's int64 and uint64: 64 bits, as a number. The sums wrap around.
use zed.Prelude.{ℕ, ◌+◌, ◌-◌, ◌%◌, ◌^◌, Bool, not, ltb, if◌then◌else◌}
use zed.Prelude.Int.{ℤ, pos, negsuc, ltb_ℤ}

abbrev pub add64 : ℕ → ℕ → ℕ
add64 a b = (a + b) % 2 ^ 64

abbrev pub sub64 : ℕ → ℕ → ℕ
sub64 a b = (a + 2 ^ 64 - b) % 2 ^ 64

-- The number that the bits of an int64 stand for; also `int64(n)` of a uint64.
abbrev pub signed64 : ℕ → ℤ
signed64 n = if ltb n (2 ^ 63) then pos n else negsuc (2 ^ 64 - n - 1)

-- `a < b` and `a <= b` of two int64s.
abbrev pub less64 : ℕ → ℕ → Bool
less64 a b = ltb_ℤ (signed64 a) (signed64 b)

abbrev pub at_most64 : ℕ → ℕ → Bool
at_most64 a b = not (ltb_ℤ (signed64 b) (signed64 a))

abbrev pub min64 : ℕ → ℕ → ℕ
min64 a b = if less64 b a then b else a

abbrev pub max64 : ℕ → ℕ → ℕ
max64 a b = if less64 a b then b else a

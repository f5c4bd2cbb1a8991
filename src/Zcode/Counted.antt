-- ===== src/Zcode/Counted.antt =====
-- zcode/counted.go: integers whose length in bytes is known from elsewhere, lowest byte first. An
-- int64 is an integer of ℤ in its range; a uint64 is a number below 2 ^ 64.
pub mod RoundTrip
use zed.Prelude.{
  ℕ, zero, suc, ◌+◌, ◌-◌, ◌*◌, ◌/◌, ◌%◌, ◌^◌, List, [], ◌∷◌, ◌++◌, ◌==◌, if◌then◌else◌,
}
use zed.Prelude.Int.{ℤ, pos, negsuc}

-- The loop runs from the last byte to the first: shift by eight bits, which drops what no longer
-- fits, then join the next byte.
unfoldable pub decode_counted_uvarint : List ℕ → ℕ
decode_counted_uvarint [] = 0
decode_counted_uvarint (b ∷ bs) = decode_counted_uvarint bs * 256 % 2 ^ 64 + b

-- The bytes that the loop on `u64` writes, with the rounds left. A uint64 is 0 after eight.
unfoldable pub counted_bytes : ℕ → ℕ → List ℕ
counted_bytes zero u64 = []
counted_bytes (suc k) u64 =
    let more = counted_bytes k (u64 / 256) in if u64 == 0 then [] else (u64 % 256) ∷ more

unfoldable pub append_counted_uvarint : List ℕ → ℕ → List ℕ
unfolding counted_bytes
append_counted_uvarint dst u64 = dst ++ counted_bytes 8 u64

-- The lowest bit is the sign, and the other 63 are the magnitude; the magnitude 0 with the sign
-- set stands for the least int64.
unfoldable pub decode_sign : ℕ → ℤ
decode_sign u64 =
    if u64 % 2 == 1
    then (if u64 / 2 == 0 then negsuc (2 ^ 63 - 1) else negsuc (u64 / 2 - 1))
    else pos (u64 / 2)

unfoldable pub decode_counted_varint : List ℕ → ℤ
unfolding decode_sign decode_counted_uvarint
decode_counted_varint b = decode_sign (decode_counted_uvarint b)

-- `uint64(i) << 1`, and `uint64(-i)<<1 | 1`, where `-i` of the least int64 is itself.
unfoldable pub encode_sign : ℤ → ℕ
encode_sign (pos n) = n * 2 % 2 ^ 64
encode_sign (negsuc n) = (n + 1) * 2 % 2 ^ 64 + 1

unfoldable pub append_counted_varint : List ℕ → ℤ → List ℕ
unfolding encode_sign append_counted_uvarint
append_counted_varint dst i = append_counted_uvarint dst (encode_sign i)

-- ===== src/Zcode/Counted/RoundTrip.antt =====
-- Counted integers are read back, in at most eight bytes.
use zed.Prelude.{ℕ, zero, suc, ◌/◌, ◌^◌, ◌<◌, ◌≤◌, ◌≡◌, [], length, arith}
use zed.Prelude.Int.{ℤ, pos, negsuc}
use zed.Zcode.Counted.{
  decode_counted_uvarint, counted_bytes, append_counted_uvarint, decode_sign, decode_counted_varint,
  encode_sign, append_counted_varint,
}

decode-counted_bytes :
    (k u : ℕ) → u < 256 ^ k → u < 2 ^ 64 → decode_counted_uvarint (counted_bytes k u) ≡ u
unfolding decode_counted_uvarint counted_bytes
decode-counted_bytes zero u h l = omega arith
decode-counted_bytes (suc k) u h l =
    ground (arith, decode-counted_bytes k (u / 256) (omega arith) (omega arith))

length-counted_bytes : (k u : ℕ) → length (counted_bytes k u) ≤ k
unfolding counted_bytes
length-counted_bytes zero u = omega arith
length-counted_bytes (suc k) u = ground (arith, length-counted_bytes k (u / 256))

-- A uint64 that is appended to nothing takes at most eight bytes and is decoded to itself.
pub decode_counted_uvarint-append_counted_uvarint :
    (u : ℕ)
    → u < 2 ^ 64
    → (decode_counted_uvarint (append_counted_uvarint [] u) ≡ u)
      × (length (append_counted_uvarint [] u) ≤ 8)
unfolding append_counted_uvarint
decode_counted_uvarint-append_counted_uvarint u h =
    (decode-counted_bytes 8 u (omega arith) h, length-counted_bytes 8 u)

-- Every int64 in range: the bit patterns of 64 bits.
abbrev pub IsInt64 : ℤ → Type 0
IsInt64 (pos n) = n < 2 ^ 63
IsInt64 (negsuc n) = n < 2 ^ 63

decode_sign-encode_sign : (i : ℤ) → IsInt64 i → decode_sign (encode_sign i) ≡ i
unfolding decode_sign encode_sign
decode_sign-encode_sign (pos n) h = ground arith
decode_sign-encode_sign (negsuc n) h = ground arith

encode_sign_lt : (i : ℤ) → IsInt64 i → encode_sign i < 2 ^ 64
unfolding encode_sign
encode_sign_lt (pos n) h = omega arith
encode_sign_lt (negsuc n) h = omega arith

-- Every int64, the least one included, is decoded from what was appended to nothing.
pub decode_counted_varint-append_counted_varint :
    (i : ℤ) → IsInt64 i → decode_counted_varint (append_counted_varint [] i) ≡ i
unfolding decode_counted_varint append_counted_varint append_counted_uvarint
decode_counted_varint-append_counted_varint i h = ground (
  arith,
  decode-counted_bytes 8 (encode_sign i) (encode_sign_lt i h) (encode_sign_lt i h),
  decode_sign-encode_sign i h,
)

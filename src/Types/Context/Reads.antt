-- ===== src/Types/Context/Reads.antt =====
-- What the decoders read of the lengths, names and symbols that type.go writes.
use zed.Prelude.{
  ℕ, ◌≡◌, refl, List, [], ◌∷◌, ◌++◌, append_assoc, some, length, take-append_length,
  drop-append_length, length-append, All, arith,
}
use zed.Prelude.Int.{pos}
use zed.Prelude.Outcome.{ok}
use zed.Zcode.Uvarint.{append_uvarint, put_groups, max_groups}
use zed.Zcode.Uvarint.RoundTrip.{uvarint-append_uvarint}
use zed.Types.{Bytes}
use zed.Types.Value.{name_bytes, symbol_bytes}
use zed.Types.Context.{Context}
use zed.Types.Context.Decode.{decode_length, length_of, decode_name, name_of, decode_symbols}
use zed.Types.Context.Holds.{IsLength}

pub decode_length-append_uvarint :
    (n : ℕ) (rest : Bytes)
    → IsLength n
    → decode_length (append_uvarint [] n ++ rest) ≡ some (pos n, rest)
unfolding decode_length length_of append_uvarint
decode_length-append_uvarint n rest h =
    rw (uvarint-append_uvarint n rest (omega arith))
      (rw (drop-append_length (put_groups max_groups n) rest) (ground arith))

name_of-append :
    (name rest : Bytes) → name_of (some (pos (length name), name ++ rest)) ≡ ok (some (name, rest))
unfolding name_of
name_of-append name rest =
    rw (take-append_length name rest, drop-append_length name rest)
      (ground (arith, length-append name rest))

pub decode_name-name_bytes :
    (name rest : Bytes)
    → IsLength (length name)
    → decode_name (name_bytes name ++ rest) ≡ ok (some (name, rest))
unfolding decode_name name_bytes
decode_name-name_bytes name rest h =
    rw (append_assoc (append_uvarint [] (length name)) name rest)
      (rw (decode_length-append_uvarint (length name) (name ++ rest) h) (name_of-append name rest))

pub decode_symbols-symbol_bytes :
    (ss : List Bytes) (rest : Bytes) (c : Context)
    → All (λ s. IsLength (length s)) ss
    → decode_symbols (length ss) (symbol_bytes ss ++ rest) c ≡ ok (some (ss, rest), c)
unfolding decode_symbols symbol_bytes
decode_symbols-symbol_bytes [] rest c h = refl
decode_symbols-symbol_bytes (s ∷ ss) rest c h =
    rw (append_assoc (name_bytes s) (symbol_bytes ss) rest) (
      rw (decode_name-name_bytes s (symbol_bytes ss ++ rest) h.0)
        (rw (decode_symbols-symbol_bytes ss rest c h.1) refl))

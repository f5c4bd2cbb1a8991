-- ===== src/Zcode/Bytes.antt =====
-- zcode/bytes.go: tags, `Append` and `DecodeTagLength`. A value is `none` for Go's nil slice (null)
-- and `some` for its body, which may be empty.
use zed.Prelude.{
  ℕ, ◌+◌, ◌-◌, ◌%◌, ◌^◌, List, ◌++◌, Option, none, some, length, ◌==◌, if◌then◌else◌, Bool,
}
use zed.Prelude.Outcome.{Outcome, ok, panic}
use zed.Zcode.Uvarint.{append_uvarint, Read, uvarint, value}

abbrev pub Body : Type 0
Body = Option (List ℕ)

-- A Go int is its bit pattern.
abbrev pub word : ℕ → ℕ
word n = n % 2 ^ 64

abbrev pub tag_null : ℕ
tag_null = 0

unfoldable pub to_tag : ℕ → ℕ
to_tag n = word (n + 1)

unfoldable pub tag_is_null : ℕ → Bool
tag_is_null t = t == tag_null

-- `tagLength` of a tag that is not null, which its callers have tested: it panics on `tagNull`.
unfoldable pub tag_length : ℕ → ℕ
tag_length t = t - 1

unfoldable pub append : List ℕ → Body → List ℕ
unfolding append_uvarint to_tag
append dst none = append_uvarint dst tag_null
append dst (some val) = append_uvarint dst (to_tag (length val)) ++ val

unfoldable pub decode_tag_length_of : Read → Outcome ℕ
unfolding tag_is_null
decode_tag_length_of (value u64 n) = if tag_is_null u64 then ok n else ok (word (u64 + n - 1))
decode_tag_length_of _ = panic

unfoldable pub decode_tag_length : List ℕ → Outcome ℕ
unfolding decode_tag_length_of
decode_tag_length b = decode_tag_length_of (uvarint b)

-- ===== src/Types/Context/Decode.antt =====
-- `DecodeTypeValue`, `DecodeName` and `DecodeLength` of context.go, and the operations on type
-- values that are built on them.
use zed.Prelude.{
  ℕ, zero, suc, ◌-◌, ◌^◌, List, [], ◌∷◌, Option, none, some, ◌⊎◌, inl, inr, if◌then◌else◌, length,
  ltb, take, drop, ◌==◌,
}
use zed.Prelude.Int.{ℤ, pos, negsuc}
use zed.Prelude.Outcome.{Outcome, ok, panic, ◌>>=◌}
use zed.Prelude.Dict.{get, put}
use zed.Prelude.Eq.{nat_eq, list_eq}
use zed.Zcode.Uvarint.{uvarint, value, short, overflow, Read}
use zed.Types.{
  Bytes, ZedType, primitive, Fields, no_fields, field, Types, no_types, and_type,
  lookup_primitive_by_id, type_id,
}
use zed.Types.Value.{
  encode_type_value, type_value_record, type_value_array, type_value_set, type_value_map,
  type_value_union, type_value_enum, type_value_error, type_value_name_def, type_value_name_ref,
}
use zed.Types.Context.{
  Context, LookupError, bad_type_value, lookup_type_record, lookup_type_array, lookup_type_set,
  lookup_type_map, lookup_type_union, lookup_type_enum, lookup_type_error, lookup_type_named,
  lookup_type_def,
}

abbrev pub max_enum_symbols : ℕ
max_enum_symbols = 100000

abbrev pub max_record_fields : ℕ
max_record_fields = 100000

abbrev pub max_union_types : ℕ
max_union_types = 100000

-- `int(n)` of a uint64.
abbrev pub to_int : ℕ → ℤ
to_int n = if ltb n (2 ^ 63) then pos n else negsuc (2 ^ 64 - n - 1)

-- `none` is the nil slice with which the decoders fail.
unfoldable pub length_of : Bytes → Read → Option (ℤ × Bytes)
length_of tv (value v n) = some (to_int v, drop n tv)
length_of tv short = none
length_of tv overflow = none

unfoldable pub decode_length : Bytes → Option (ℤ × Bytes)
unfolding length_of uvarint
decode_length tv = length_of tv (uvarint tv)

-- A negative length passes the test, and the slice expression panics.
unfoldable pub name_of : Option (ℤ × Bytes) → Outcome (Option (Bytes × Bytes))
name_of none = ok none
name_of (some (negsuc n, tv)) = panic
name_of (some (pos n, tv)) = if ltb (length tv) n then ok none else ok (some (take n tv, drop n tv))

unfoldable pub decode_name : Bytes → Outcome (Option (Bytes × Bytes))
unfolding name_of decode_length
decode_name tv = name_of (decode_length tv)

-- `tv == nil || n > max` fails; `make` panics on a negative capacity.
unfoldable pub count_of : ℕ → Option (ℤ × Bytes) → Outcome (Option (ℕ × Bytes))
count_of max none = ok none
count_of max (some (negsuc n, tv)) = panic
count_of max (some (pos n, tv)) = if ltb max n then ok none else ok (some (n, tv))

-- The symbols have no `make`, and a negative count makes no round of their loop.
unfoldable pub symbol_count : Option (ℤ × Bytes) → Option (ℕ × Bytes)
symbol_count none = none
symbol_count (some (negsuc n, tv)) = some (0, tv)
symbol_count (some (pos n, tv)) = if ltb max_enum_symbols n then none else some (n, tv)

-- What a decoder gives: what it read with the bytes that are left, or nil, and the context.
abbrev pub Decoded : Type 0 → Type 0
Decoded A = Outcome (Option (A × Bytes) × Context)

abbrev pub then_decode : {A B : Type 0} → Decoded A → (A → Bytes → Context → Decoded B) → Decoded B
then_decode (ok (some (a, tv), c)) f = f a tv c
then_decode (ok (none, c)) f = ok (none, c)
then_decode panic f = panic

abbrev pub member_or_panic :
    {A B : Type 0} → Decoded A → (A → Bytes → Context → Decoded B) → Decoded B
member_or_panic (ok (some (a, tv), c)) f = f a tv c
member_or_panic (ok (none, c)) f = panic
member_or_panic panic f = panic

-- A read that leaves the context alone.
abbrev pub reading : {A : Type 0} → Context → Outcome (Option (A × Bytes)) → Decoded A
reading c (ok r) = ok (r, c)
reading c panic = panic

-- The type that a lookup found, with the bytes that are left.
abbrev pub leaving : Bytes → Outcome (ZedType × Context) → Decoded ZedType
leaving tv (ok (t, c)) = ok (some (t, tv), c)
leaving tv panic = panic

abbrev pub leaving_or_nil : Bytes → Outcome ((LookupError ⊎ ZedType) × Context) → Decoded ZedType
leaving_or_nil tv (ok (inr t, c)) = ok (some (t, tv), c)
leaving_or_nil tv (ok (inl e, c)) = ok (none, c)
leaving_or_nil tv panic = panic

-- The cases of the `switch`; any other byte is the id of a primitive type.
pub data Tag : Type 0 where
  name_def name_ref record_tag array_tag set_tag map_tag union_tag enum_tag error_tag : Tag
  primitive_tag : ℕ → Tag

unfoldable pub value_tag_of : ℕ → Tag
value_tag_of id =
    if id == type_value_name_def
    then name_def
    else if id == type_value_name_ref
    then name_ref
    else if id == type_value_record
    then record_tag
    else if id == type_value_array
    then array_tag
    else if id == type_value_set
    then set_tag
    else if id == type_value_map
    then map_tag
    else if id == type_value_union
    then union_tag
    else if id == type_value_enum
    then enum_tag
    else if id == type_value_error
    then error_tag
    else primitive_tag id

unfoldable pub decode_primitive : ℕ → Bytes → Context → Decoded ZedType
unfolding lookup_primitive_by_id
decode_primitive id tv c = elim (lookup_primitive_by_id id) [
  | none ↦ ok (none, c)
  | some p ↦ ok (some (primitive p, tv), c)
]

unfoldable pub def_or_nil : Bytes → Context → Option ZedType → Decoded ZedType
def_or_nil tv c none = ok (none, c)
def_or_nil tv c (some t) = ok (some (t, tv), c)

unfoldable pub decode_name_ref : Bytes → Context → Decoded ZedType
unfolding decode_name lookup_type_def def_or_nil
decode_name_ref tv c =
    then_decode (reading c (decode_name tv))
      λ name tv1 c1. def_or_nil tv1 c1 (lookup_type_def name c1)

unfoldable pub decode_symbols : ℕ → Bytes → Context → Decoded (List Bytes)
unfolding decode_name
decode_symbols zero tv c = ok (some ([], tv), c)
decode_symbols (suc n) tv c =
    then_decode (reading c (decode_name tv))
      λ s tv1 c1. then_decode (decode_symbols n tv1 c1) λ ss tv2 c2. ok (some (s ∷ ss, tv2), c2)

unfoldable pub decode_enum : Bytes → Context → Decoded ZedType
unfolding symbol_count decode_length decode_symbols lookup_type_enum
decode_enum tv c = then_decode (ok (symbol_count (decode_length tv), c)) λ n tv1 c1.
    then_decode (decode_symbols n tv1 c1) λ ss tv2 c2. leaving tv2 (lookup_type_enum ss c2)

-- The recursive call of `DecodeTypeValue`, which the cases and the loops below are given.
abbrev pub Decoder : Type 0
Decoder = Bytes → Context → Decoded ZedType

unfoldable pub decode_fields : Decoder → ℕ → Bytes → Context → Decoded Fields
unfolding decode_name
decode_fields decode zero tv c = ok (some (no_fields, tv), c)
decode_fields decode (suc n) tv c = then_decode (reading c (decode_name tv)) λ name tv1 c1.
    then_decode (decode tv1 c1) λ t tv2 c2.
      then_decode (decode_fields decode n tv2 c2) λ fs tv3 c3. ok (some (field name t fs, tv3), c3)

-- The loop over a union's types has no test for nil. A nil type goes on into
-- `LookupTypeUnion`, whose sort or encoding calls a method of it: a panic.
unfoldable pub decode_members : Decoder → ℕ → Bytes → Context → Decoded Types
decode_members decode zero tv c = ok (some (no_types, tv), c)
decode_members decode (suc n) tv c = member_or_panic (decode tv c) λ t tv1 c1.
    then_decode (decode_members decode n tv1 c1) λ ts tv2 c2. ok (some (and_type t ts, tv2), c2)

-- The cases of the `switch`.
unfoldable pub decode_tag : Decoder → Tag → Bytes → Context → Decoded ZedType
unfolding decode_name decode_length decode_primitive decode_name_ref decode_enum count_of
    decode_fields decode_members lookup_type_record lookup_type_array lookup_type_set
    lookup_type_map lookup_type_union lookup_type_error lookup_type_named
decode_tag decode name_def tv c = then_decode (reading c (decode_name tv)) λ name tv1 c1.
    then_decode (decode tv1 c1) λ t tv2 c2. leaving_or_nil tv2 (lookup_type_named name t c2)
decode_tag decode name_ref tv c = decode_name_ref tv c
decode_tag decode record_tag tv c =
    then_decode (reading c (count_of max_record_fields (decode_length tv))) λ n tv1 c1.
      then_decode (decode_fields decode n tv1 c1)
        λ fs tv2 c2. leaving_or_nil tv2 (lookup_type_record fs c2)
decode_tag decode array_tag tv c =
    then_decode (decode tv c) λ t tv1 c1. leaving tv1 (lookup_type_array t c1)
decode_tag decode set_tag tv c =
    then_decode (decode tv c) λ t tv1 c1. leaving tv1 (lookup_type_set t c1)
decode_tag decode map_tag tv c =
    then_decode (decode tv c)
      λ k tv1 c1. then_decode (decode tv1 c1) λ v tv2 c2. leaving tv2 (lookup_type_map k v c2)
decode_tag decode union_tag tv c =
    then_decode (reading c (count_of max_union_types (decode_length tv))) λ n tv1 c1.
      then_decode (decode_members decode n tv1 c1)
        λ ts tv2 c2. leaving tv2 (lookup_type_union ts c2)
decode_tag decode enum_tag tv c = decode_enum tv c
decode_tag decode error_tag tv c =
    then_decode (decode tv c) λ t tv1 c1. leaving tv1 (lookup_type_error t c1)
decode_tag decode (primitive_tag id) tv c = decode_primitive id tv c

-- The rounds are those of the recursion: a nested call reads at least one byte less. What a call
-- with no rounds left would answer is the argument `beyond`.
unfoldable pub decode_from : Decoder → ℕ → Decoder
unfolding decode_tag value_tag_of
decode_from beyond rounds [] c = ok (none, c)
decode_from beyond zero (id ∷ tv) c = beyond (id ∷ tv) c
decode_from beyond (suc rounds) (id ∷ tv) c =
    decode_tag (decode_from beyond rounds) (value_tag_of id) tv c

-- `decode_type_value` has as many rounds as bytes, so that this is never asked.
abbrev pub unasked : Decoder
unasked tv c = ok (none, c)

unfoldable pub decode_type_value : Bytes → Context → Decoded ZedType
unfolding decode_from
decode_type_value tv c = decode_from unasked (length tv) tv c

-- `LookupByValue`: it looks at what is left only for nil, and keeps `tv` as the type's value.
unfoldable pub cache_value :
    Bytes → Option (ZedType × Bytes) × Context → (LookupError ⊎ ZedType) × Context
unfolding put type_id
cache_value tv (none, c) = (inl bad_type_value, c)
cache_value tv (some (t, rest), c) =
    (inr t, record c { to_value = put (type_id t) tv c.to_value; to_type = put tv t c.to_type })

unfoldable pub lookup_by_value : Bytes → Context → Outcome ((LookupError ⊎ ZedType) × Context)
unfolding decode_type_value get cache_value
lookup_by_value tv c = elim (get tv c.to_type) [
  | some t ↦ ok (inr t, c)
  | none ↦ decode_type_value tv c >>= λ r. ok (cache_value tv r)
]

unfoldable pub translate_type : ZedType → Context → Outcome ((LookupError ⊎ ZedType) × Context)
unfolding lookup_by_value encode_type_value
translate_type ext = lookup_by_value (encode_type_value ext)

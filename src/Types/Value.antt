-- ===== src/Types/Value.antt =====
-- `EncodeTypeValue`, `AppendTypeValue` and `appendTypeValue` of type.go: the binary form of a type.
use zed.Prelude.{ℕ, ◌++◌, List, [], ◌∷◌, Bool, false, none, some, Option, length, if◌then◌else◌}
use zed.Prelude.Dict.{Dict, get, put}
use zed.Prelude.Eq.{list_eq}
use zed.Zcode.Uvarint.{append_uvarint}
use zed.Types.{
  Bytes, ZedType, primitive, type_record, type_array, type_set, type_map, type_union, type_enum,
  type_error, type_named, Fields, no_fields, field, Types, no_types, and_type, primitive_id,
  same_type, count_fields, count_types,
}

abbrev pub type_value_record : ℕ
type_value_record = 30

abbrev pub type_value_array : ℕ
type_value_array = 31

abbrev pub type_value_set : ℕ
type_value_set = 32

abbrev pub type_value_map : ℕ
type_value_map = 33

abbrev pub type_value_union : ℕ
type_value_union = 34

abbrev pub type_value_enum : ℕ
type_value_enum = 35

abbrev pub type_value_error : ℕ
type_value_error = 36

abbrev pub type_value_name_def : ℕ
type_value_name_def = 37

abbrev pub type_value_name_ref : ℕ
type_value_name_ref = 38

-- `map[string]Type`; the nil map that the code starts with reads as an empty one.
abbrev pub Typedefs : Type 0
Typedefs = Dict Bytes ZedType

-- A length and then the bytes of a string.
unfoldable pub name_bytes : Bytes → Bytes
unfolding append_uvarint
name_bytes name = append_uvarint [] (length name) ++ name

unfoldable pub symbol_bytes : List Bytes → Bytes
unfolding name_bytes
symbol_bytes [] = []
symbol_bytes (s ∷ ss) = name_bytes s ++ symbol_bytes ss

-- `previous == t.Type`, with the nil of a missing key equal to no type.
unfoldable pub bound_to : Option ZedType → ZedType → Bool
unfolding same_type
bound_to none t = false
bound_to (some previous) t = same_type previous t

-- What `appendTypeValue` adds to `b`, with the typedefs after it.
unfoldable mutual
  unfolding append_uvarint name_bytes symbol_bytes bound_to get put

  pub value_bytes : ZedType → Typedefs → Bytes × Typedefs
  value_bytes (primitive p) defs = (primitive_id p ∷ [], defs)
  value_bytes (type_named id name t) defs =
      let (inner, defs') = value_bytes t defs in
      if bound_to (get name defs) t
      then (type_value_name_ref ∷ name_bytes name, defs)
      else (type_value_name_def ∷ (name_bytes name ++ inner), put name t defs')
  value_bytes (type_record id fs) defs =
      let (b, defs') = field_bytes fs defs in
      (type_value_record ∷ (append_uvarint [] (count_fields fs) ++ b), defs')
  value_bytes (type_union id ts) defs =
      let (b, defs') = types_bytes ts defs in
      (type_value_union ∷ (append_uvarint [] (count_types ts) ++ b), defs')
  value_bytes (type_set id t) defs =
      let (b, defs') = value_bytes t defs in (type_value_set ∷ b, defs')
  value_bytes (type_array id t) defs =
      let (b, defs') = value_bytes t defs in (type_value_array ∷ b, defs')
  value_bytes (type_enum id ss) defs =
      (type_value_enum ∷ (append_uvarint [] (length ss) ++ symbol_bytes ss), defs)
  value_bytes (type_map id k v) defs =
      let (bk, defs1) = value_bytes k defs in
      let (bv, defs2) = value_bytes v defs1 in (type_value_map ∷ (bk ++ bv), defs2)
  value_bytes (type_error id t) defs =
      let (b, defs') = value_bytes t defs in (type_value_error ∷ b, defs')

  pub field_bytes : Fields → Typedefs → Bytes × Typedefs
  field_bytes no_fields defs = ([], defs)
  field_bytes (field name t fs) defs =
      let (b, defs1) = value_bytes t defs in
      let (bs, defs2) = field_bytes fs defs1 in (name_bytes name ++ (b ++ bs), defs2)

  pub types_bytes : Types → Typedefs → Bytes × Typedefs
  types_bytes no_types defs = ([], defs)
  types_bytes (and_type t ts) defs =
      let (b, defs1) = value_bytes t defs in
      let (bs, defs2) = types_bytes ts defs1 in (b ++ bs, defs2)

unfoldable pub append_type_value : Bytes → ZedType → Bytes
unfolding value_bytes
append_type_value b t = b ++ (value_bytes t []).0

unfoldable pub encode_type_value : ZedType → Bytes
unfolding append_type_value
encode_type_value t = append_type_value [] t

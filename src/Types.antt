-- ===== src/Types.antt =====
-- The types of type.go and complex.go. A Go string is its bytes. A type is a pointer in Go and a
-- value here; a complex type keeps its `id`, which is the position that its context gave it.
pub mod PrimitiveId
pub mod Value
pub mod Names
pub mod Compare
pub mod Context
mod Tests
use zed.Prelude.{
  ℕ, suc, ◌<◌, ◌≡◌, refl, sym, ap, ◌∙◌, arith, List, [], ◌∷◌, Bool, true, false, Option, none, some,
  if◌then◌else◌, ◌==◌,
}
use mathlib.Core.Option.{some_inj}
use zed.Prelude.Eq.{beq, list_eq}

abbrev pub Bytes : Type 0
Bytes = List ℕ

-- The globals `TypeUint8`, `TypeUint16` and so on.
pub data Primitive : Type 0 where
  type_uint8 type_uint16 type_uint32 type_uint64 type_int8 type_int16 type_int32 type_int64
        type_duration type_time type_float16 type_float32 type_float64 type_bool type_bytes
        type_string type_ip type_net type_type type_null :
      Primitive

-- `TypeRecord`, `TypeArray` and so on with their slices of fields and of types.
mutual
  pub data ZedType : Type 0 where
    primitive : Primitive → ZedType
    type_record : (id : ℕ) → Fields → ZedType
    type_array : (id : ℕ) → ZedType → ZedType
    type_set : (id : ℕ) → ZedType → ZedType
    type_map : (id : ℕ) → ZedType → ZedType → ZedType
    type_union : (id : ℕ) → Types → ZedType
    type_enum : (id : ℕ) → List Bytes → ZedType
    type_error : (id : ℕ) → ZedType → ZedType
    type_named : (id : ℕ) → Bytes → ZedType → ZedType

  pub data Fields : Type 0 where
    no_fields : Fields
    field : (name : Bytes) → ZedType → Fields → Fields

  pub data Types : Type 0 where
    no_types : Types
    and_type : ZedType → Types → Types

abbrev pub primitive_id : Primitive → ℕ
primitive_id type_uint8 = 0
primitive_id type_uint16 = 1
primitive_id type_uint32 = 2
primitive_id type_uint64 = 3
primitive_id type_int8 = 6
primitive_id type_int16 = 7
primitive_id type_int32 = 8
primitive_id type_int64 = 9
primitive_id type_duration = 12
primitive_id type_time = 13
primitive_id type_float16 = 14
primitive_id type_float32 = 15
primitive_id type_float64 = 16
primitive_id type_bool = 23
primitive_id type_bytes = 24
primitive_id type_string = 25
primitive_id type_ip = 26
primitive_id type_net = 27
primitive_id type_type = 28
primitive_id type_null = 29

abbrev pub id_type_complex : ℕ
id_type_complex = 30

-- The ids of the types that the type system has.
unfoldable pub lookup_primitive_by_id : ℕ → Option Primitive
lookup_primitive_by_id id =
    if id == 23
    then some type_bool
    else if id == 6
    then some type_int8
    else if id == 0
    then some type_uint8
    else if id == 7
    then some type_int16
    else if id == 1
    then some type_uint16
    else if id == 8
    then some type_int32
    else if id == 2
    then some type_uint32
    else if id == 9
    then some type_int64
    else if id == 3
    then some type_uint64
    else if id == 14
    then some type_float16
    else if id == 15
    then some type_float32
    else if id == 16
    then some type_float64
    else if id == 24
    then some type_bytes
    else if id == 25
    then some type_string
    else if id == 26
    then some type_ip
    else if id == 27
    then some type_net
    else if id == 13
    then some type_time
    else if id == 12
    then some type_duration
    else if id == 28
    then some type_type
    else if id == 29
    then some type_null
    else none

-- The names as ASCII: "uint8", "uint16" and so on, in the order of the source.
unfoldable pub lookup_primitive : Bytes → Option Primitive
lookup_primitive name =
    if beq name (117 ∷ 105 ∷ 110 ∷ 116 ∷ 56 ∷ [])
    then some type_uint8
    else if beq name (117 ∷ 105 ∷ 110 ∷ 116 ∷ 49 ∷ 54 ∷ [])
    then some type_uint16
    else if beq name (117 ∷ 105 ∷ 110 ∷ 116 ∷ 51 ∷ 50 ∷ [])
    then some type_uint32
    else if beq name (117 ∷ 105 ∷ 110 ∷ 116 ∷ 54 ∷ 52 ∷ [])
    then some type_uint64
    else if beq name (105 ∷ 110 ∷ 116 ∷ 56 ∷ [])
    then some type_int8
    else if beq name (105 ∷ 110 ∷ 116 ∷ 49 ∷ 54 ∷ [])
    then some type_int16
    else if beq name (105 ∷ 110 ∷ 116 ∷ 51 ∷ 50 ∷ [])
    then some type_int32
    else if beq name (105 ∷ 110 ∷ 116 ∷ 54 ∷ 52 ∷ [])
    then some type_int64
    else if beq name (100 ∷ 117 ∷ 114 ∷ 97 ∷ 116 ∷ 105 ∷ 111 ∷ 110 ∷ [])
    then some type_duration
    else if beq name (116 ∷ 105 ∷ 109 ∷ 101 ∷ [])
    then some type_time
    else if beq name (102 ∷ 108 ∷ 111 ∷ 97 ∷ 116 ∷ 49 ∷ 54 ∷ [])
    then some type_float16
    else if beq name (102 ∷ 108 ∷ 111 ∷ 97 ∷ 116 ∷ 51 ∷ 50 ∷ [])
    then some type_float32
    else if beq name (102 ∷ 108 ∷ 111 ∷ 97 ∷ 116 ∷ 54 ∷ 52 ∷ [])
    then some type_float64
    else if beq name (98 ∷ 111 ∷ 111 ∷ 108 ∷ [])
    then some type_bool
    else if beq name (98 ∷ 121 ∷ 116 ∷ 101 ∷ 115 ∷ [])
    then some type_bytes
    else if beq name (115 ∷ 116 ∷ 114 ∷ 105 ∷ 110 ∷ 103 ∷ [])
    then some type_string
    else if beq name (105 ∷ 112 ∷ [])
    then some type_ip
    else if beq name (110 ∷ 101 ∷ 116 ∷ [])
    then some type_net
    else if beq name (116 ∷ 121 ∷ 112 ∷ 101 ∷ [])
    then some type_type
    else if beq name (110 ∷ 117 ∷ 108 ∷ 108 ∷ [])
    then some type_null
    else none

-- `ID()`: a named type answers with the id of the type under it.
unfoldable pub id_of : ZedType → ℕ
id_of (primitive p) = primitive_id p
id_of (type_record id fs) = id
id_of (type_array id t) = id
id_of (type_set id t) = id
id_of (type_map id k v) = id
id_of (type_union id ts) = id
id_of (type_enum id ss) = id
id_of (type_error id t) = id
id_of (type_named id name t) = id_of t

-- `TypeID`: a named type answers with its own id.
unfoldable pub type_id : ZedType → ℕ
unfolding id_of
type_id (type_named id name t) = id
type_id t = id_of t

unfoldable pub type_under : ZedType → ZedType
type_under (type_named id name t) = type_under t
type_under t = t

-- `==` on two types of one context compares pointers, and a context has one type at an id.
unfoldable pub same_type : ZedType → ZedType → Bool
unfolding type_id
same_type a b = type_id a == type_id b

abbrev pub primitive_kind : ℕ
primitive_kind = 0

abbrev pub record_kind : ℕ
record_kind = 1

abbrev pub array_kind : ℕ
array_kind = 2

abbrev pub set_kind : ℕ
set_kind = 3

abbrev pub map_kind : ℕ
map_kind = 4

abbrev pub union_kind : ℕ
union_kind = 5

abbrev pub enum_kind : ℕ
enum_kind = 6

abbrev pub error_kind : ℕ
error_kind = 7

unfoldable pub kind : ZedType → ℕ
kind (primitive p) = primitive_kind
kind (type_record id fs) = record_kind
kind (type_array id t) = array_kind
kind (type_set id t) = set_kind
kind (type_map id k v) = map_kind
kind (type_union id ts) = union_kind
kind (type_enum id ss) = enum_kind
kind (type_error id t) = error_kind
kind (type_named id name t) = kind t

unfoldable pub is_container_type : ZedType → Bool
is_container_type (type_named id name t) = is_container_type t
is_container_type (type_set id t) = true
is_container_type (type_array id t) = true
is_container_type (type_record id fs) = true
is_container_type (type_union id ts) = true
is_container_type (type_map id k v) = true
is_container_type _ = false

-- `len` of the two slices.
abbrev pub count_fields : Fields → ℕ
count_fields no_fields = 0
count_fields (field name t fs) = suc (count_fields fs)

abbrev pub count_types : Types → ℕ
count_types no_types = 0
count_types (and_type t ts) = suc (count_types ts)

-- ===== src/Types/PrimitiveId.antt =====
-- The ids of the primitive types in type.go.
use zed.Prelude.{ℕ, ◌<◌, ◌≡◌, refl, sym, ap, ◌∙◌, arith, some}
use mathlib.Core.Option.{some_inj}
use zed.Prelude.Eq.{list_eq}
use zed.Types.{
  Primitive, type_uint8, type_uint16, type_uint32, type_uint64, type_int8, type_int16, type_int32,
  type_int64, type_duration, type_time, type_float16, type_float32, type_float64, type_bool,
  type_bytes, type_string, type_ip, type_net, type_type, type_null, primitive_id, id_type_complex,
  lookup_primitive_by_id,
}

pub lookup_primitive_by_id-primitive_id :
    (p : Primitive) → lookup_primitive_by_id (primitive_id p) ≡ some p
unfolding lookup_primitive_by_id
lookup_primitive_by_id-primitive_id type_uint8 = refl
lookup_primitive_by_id-primitive_id type_uint16 = refl
lookup_primitive_by_id-primitive_id type_uint32 = refl
lookup_primitive_by_id-primitive_id type_uint64 = refl
lookup_primitive_by_id-primitive_id type_int8 = refl
lookup_primitive_by_id-primitive_id type_int16 = refl
lookup_primitive_by_id-primitive_id type_int32 = refl
lookup_primitive_by_id-primitive_id type_int64 = refl
lookup_primitive_by_id-primitive_id type_duration = refl
lookup_primitive_by_id-primitive_id type_time = refl
lookup_primitive_by_id-primitive_id type_float16 = refl
lookup_primitive_by_id-primitive_id type_float32 = refl
lookup_primitive_by_id-primitive_id type_float64 = refl
lookup_primitive_by_id-primitive_id type_bool = refl
lookup_primitive_by_id-primitive_id type_bytes = refl
lookup_primitive_by_id-primitive_id type_string = refl
lookup_primitive_by_id-primitive_id type_ip = refl
lookup_primitive_by_id-primitive_id type_net = refl
lookup_primitive_by_id-primitive_id type_type = refl
lookup_primitive_by_id-primitive_id type_null = refl

pub primitive_id-lt : (p : Primitive) → primitive_id p < id_type_complex
primitive_id-lt type_uint8 = omega arith
primitive_id-lt type_uint16 = omega arith
primitive_id-lt type_uint32 = omega arith
primitive_id-lt type_uint64 = omega arith
primitive_id-lt type_int8 = omega arith
primitive_id-lt type_int16 = omega arith
primitive_id-lt type_int32 = omega arith
primitive_id-lt type_int64 = omega arith
primitive_id-lt type_duration = omega arith
primitive_id-lt type_time = omega arith
primitive_id-lt type_float16 = omega arith
primitive_id-lt type_float32 = omega arith
primitive_id-lt type_float64 = omega arith
primitive_id-lt type_bool = omega arith
primitive_id-lt type_bytes = omega arith
primitive_id-lt type_string = omega arith
primitive_id-lt type_ip = omega arith
primitive_id-lt type_net = omega arith
primitive_id-lt type_type = omega arith
primitive_id-lt type_null = omega arith

pub primitive_id_injective : (p q : Primitive) → primitive_id p ≡ primitive_id q → p ≡ q
primitive_id_injective p q e = some_inj.0 (
    sym (lookup_primitive_by_id-primitive_id p)
    ∙ ap lookup_primitive_by_id e
    ∙ lookup_primitive_by_id-primitive_id q)

pub primitive_id_of :
    (id : ℕ) (p : Primitive) → lookup_primitive_by_id id ≡ some p → primitive_id p ≡ id
unfolding lookup_primitive_by_id
primitive_id_of id p e = ground arith

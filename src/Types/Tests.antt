-- ===== src/Types/Tests.antt =====
-- Runs of the type context on a context with a named type and a record that uses it twice.
use Prim.Native.Nat.{Ordering}
use zed.Prelude.{◌↔◌, ℕ, ◌⊎◌, ◌≡◌, ◌++◌, List, [], ◌∷◌, none, some, inr, refl, arith}
use zed.Prelude.Int.{pos}
use zed.Prelude.Outcome.{ok, panic}
use zed.Prelude.Dict.{get}
use zed.Prelude.Eq.{list_eq, nat_eq}
use zed.Zcode.Uvarint.{append_uvarint, put_groups}
use zed.Types.{
  Bytes, ZedType, primitive, type_int64, type_string, type_uint8, type_uint16, type_uint32,
  type_named, type_record, Fields, field, no_fields, and_type, no_types, type_id, lookup_primitive,
}
use zed.Types.Value.{encode_type_value, append_type_value, type_value_union, type_value_array}
use zed.Types.Names.{valid_string}
use zed.Types.Compare.{compare_types, sort_types}
use zed.Types.Compare.Flip.{flip, compare_types-flip}
use zed.Types.Context.{
  Context, LookupError, new_context, enter, lookup_type, lookup_type_named, lookup_type_record,
  bind_name, next_id,
}
use zed.Types.Context.Decode.{Decoder, decode_type_value, decode_from, lookup_by_value}
use zed.Types.Context.Holds.{IsInterned, Holds, IsDecodable}
use zed.Types.Context.Held.{with_typedefs}
use zed.Types.Context.Consistent.{
  IsContext, Extends-refl, new_context-IsContext, enter-IsContext, enter-IsInterned, enter-Extends,
  Holds-extends,
}
use zed.Types.Context.RoundTrip.{decode_type_value-encode}
use zed.Types.Context.Kept.{Kept, Good}
use zed.Types.Context.Keeps.{decode_type_value-Kept}
use zed.Types.Context.Fuel.{decode_type_value_terminates}
use zed.Types.Context.Laws.{
  Within, record_identity, lookup_type-bounds, lookup_type_record_twice, lookup_by_value_trailing,
  decode_type_value_cut_off,
}

-- "x", "a" and "b"
abbrev name_x : Bytes
name_x = 120 ∷ []

abbrev int_x : ZedType
int_x = type_named 30 name_x (primitive type_int64)

abbrev two_fields : Fields
two_fields = field (97 ∷ []) int_x (field (98 ∷ []) int_x no_fields)

abbrev two_x : ZedType
two_x = type_record 31 two_fields

abbrev with_x : Context
with_x = enter (append_type_value [] int_x) int_x new_context

abbrev with_both : Context
with_both = enter (append_type_value [] two_x) two_x with_x

-- The second use of the name is a reference.
two_x_bytes :
    encode_type_value two_x ≡ 30 ∷ 2 ∷ 1 ∷ 97 ∷ 37 ∷ 1 ∷ 120 ∷ 9 ∷ 1 ∷ 98 ∷ 38 ∷ 1 ∷ 120 ∷ []
unfolding encode_type_value put_groups
two_x_bytes = refl

with_x_run :
    lookup_type_named name_x (primitive type_int64) new_context
    ≡ ok (inr int_x, bind_name name_x int_x with_x)
unfolding lookup_type_named enter new_context
with_x_run = refl

with_both_run : lookup_type_record two_fields with_x ≡ ok (inr two_x, with_both)
unfolding lookup_type_record enter new_context type_id put_groups
with_both_run = refl

union_sorted :
    sort_types
      (and_type int_x (and_type (primitive type_string) (and_type (primitive type_int64) no_types)))
    ≡ and_type (primitive type_int64) (and_type int_x (and_type (primitive type_string) no_types))
unfolding sort_types
union_sorted = refl

with_x-Holds : Holds with_x.by_id with_x.to_type int_x
unfolding new_context type_id get valid_string lookup_primitive
with_x-Holds = (enter-IsInterned new_context new_context-IsContext int_x refl refl, refl, refl, tt)

with_x-IsContext : IsContext with_x
unfolding new_context type_id get
with_x-IsContext =
    enter-IsContext new_context new_context-IsContext int_x refl refl with_x-Holds (omega arith, tt)

two_x-IsDecodable : IsDecodable two_x
two_x-IsDecodable =
    (omega arith, (omega arith, (omega arith, tt), (omega arith, (omega arith, tt), tt)))

two_x-absent : get (append_type_value [] two_x) with_x.to_type ≡ none
unfolding enter new_context append_type_value put_groups
two_x-absent = refl

two_x-fresh : type_id two_x ≡ next_id with_x
unfolding enter new_context type_id
two_x-fresh = refl

two_x-IsInterned : IsInterned with_both.by_id with_both.to_type two_x
two_x-IsInterned = enter-IsInterned with_x with_x-IsContext two_x two_x-fresh two_x-absent

int_x-Holds : Holds with_both.by_id with_both.to_type int_x
int_x-Holds =
    Holds-extends with_x with_both
      (enter-Extends with_x with_x-IsContext two_x two_x-fresh two_x-absent) int_x with_x-Holds

two_x-Holds : Holds with_both.by_id with_both.to_type two_x
two_x-Holds = (two_x-IsInterned, (int_x-Holds, (int_x-Holds, tt)))

with_both-IsContext : IsContext with_both
with_both-IsContext =
    enter-IsContext with_x with_x-IsContext two_x two_x-fresh two_x-absent two_x-Holds
      two_x-IsDecodable

decode_type_value-encode_example :
    (named : List (Bytes × ZedType)) × (decode_type_value (encode_type_value two_x) with_both
      ≡ ok (some (two_x, []), with_typedefs with_both named))
decode_type_value-encode_example =
    decode_type_value-encode two_x with_both two_x-Holds two_x-IsDecodable

decode_type_value-Kept_example :
    Kept with_x Good (decode_type_value (34 ∷ 2 ∷ 38 ∷ 1 ∷ 120 ∷ 25 ∷ []) with_x)
decode_type_value-Kept_example =
    decode_type_value-Kept with_x with_x-IsContext (34 ∷ 2 ∷ 38 ∷ 1 ∷ 120 ∷ 25 ∷ [])

two_x-at_id : lookup_type with_both (pos 31) ≡ ok (inr two_x)
unfolding lookup_type enter new_context
two_x-at_id = refl

lookup_type-bounds_example :
    (r : LookupError ⊎ ZedType) × (lookup_type with_both (pos 31) ≡ ok r) × Within with_both 31 r
lookup_type-bounds_example = lookup_type-bounds with_both 31 with_both-IsContext

lookup_type_record_twice_example :
    lookup_type_record two_fields with_both ≡ ok (inr two_x, with_both)
lookup_type_record_twice_example =
    lookup_type_record_twice with_x with_both two_fields two_x with_x-IsContext
      (with_x-Holds, (with_x-Holds, tt)) two_x-IsDecodable with_both_run

abbrev one_field : Fields
one_field = field (97 ∷ []) int_x no_fields

one_x_run :
    lookup_type_record one_field with_both
    ≡ ok (
      inr (type_record 32 one_field),
      enter (append_type_value [] (type_record 32 one_field)) (type_record 32 one_field) with_both,
    )
unfolding lookup_type_record enter new_context append_type_value put_groups
one_x_run = refl

record_identity_example : (two_x ≡ type_record 32 one_field) ↔ (two_fields ≡ one_field)
record_identity_example =
    record_identity with_x with_both with_both _ two_fields one_field two_x
      (type_record 32 one_field) with_x-IsContext (with_x-Holds, (with_x-Holds, tt))
      two_x-IsDecodable with_both_run with_both-IsContext (Extends-refl with_both) (int_x-Holds, tt)
      (omega arith, (omega arith, (omega arith, tt), tt)) one_x_run

int_x-absent : get (encode_type_value int_x ++ (7 ∷ [])) with_x.to_type ≡ none
unfolding get enter new_context append_type_value encode_type_value put_groups
int_x-absent = refl

lookup_by_value_trailing_example :
    (d : Context) × (lookup_by_value (encode_type_value int_x ++ (7 ∷ [])) with_x
      ≡ ok (inr int_x, d))
    × (get (type_id int_x) d.to_value ≡ some (encode_type_value int_x ++ (7 ∷ [])))
lookup_by_value_trailing_example =
    lookup_by_value_trailing with_x int_x (7 ∷ []) with_x-Holds (omega arith, tt) int_x-absent

abbrev panics : Decoder
panics tv c = panic

decode_type_value_terminates_example :
    decode_from panics 40 (34 ∷ 2 ∷ 9 ∷ 25 ∷ []) new_context
    ≡ decode_type_value (34 ∷ 2 ∷ 9 ∷ 25 ∷ []) new_context
decode_type_value_terminates_example =
    decode_type_value_terminates panics 40 (34 ∷ 2 ∷ 9 ∷ 25 ∷ []) new_context (omega arith)

compare_types-flip_example :
    compare_types int_x (primitive type_int64) ≡ flip (compare_types (primitive type_int64) int_x)
compare_types-flip_example = compare_types-flip int_x (primitive type_int64)

-- A name that is bound to another type is the same to `CompareTypes`, so that its order has a cycle.
abbrev plain_a : ZedType
plain_a = type_record 50 (field (97 ∷ []) (type_named 51 name_x (primitive type_int64)) no_fields)

abbrev other_a : ZedType
other_a = type_record 52 (
    field (97 ∷ []) (type_named 53 name_x (type_named 54 (121 ∷ []) (primitive type_int64)))
      no_fields)

abbrev pair : ℕ → ZedType → ZedType → ZedType
pair id s t = type_record id (field (102 ∷ []) s (field (103 ∷ []) t no_fields))

compare_types_cycle :
    (compare_types
        (pair 60 (type_named 55 (122 ∷ []) plain_a) (primitive type_uint8))
        (pair 61 other_a (primitive type_uint16))
      ≡ Ordering.lt)
    × (compare_types
          (pair 61 other_a (primitive type_uint16))
          (pair 62 plain_a (primitive type_uint32))
        ≡ Ordering.lt)
    × (compare_types
          (pair 60 (type_named 55 (122 ∷ []) plain_a) (primitive type_uint8))
          (pair 62 plain_a (primitive type_uint32))
        ≡ Ordering.gt)
unfolding compare_types
compare_types_cycle = (refl, refl, refl)

decode_type_value_cut_off_example :
    (decode_type_value (type_value_union ∷ append_uvarint [] 3) new_context ≡ panic)
    × (decode_type_value (type_value_array ∷ []) new_context ≡ ok (none, new_context))
decode_type_value_cut_off_example = decode_type_value_cut_off new_context 2 (omega arith)

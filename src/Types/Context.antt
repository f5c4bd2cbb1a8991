-- ===== src/Types/Context.antt =====
-- `Context` of context.go: the table of types that makes one pointer of each type. The mutex makes
-- an operation one step, so an operation is a function of the context.
pub mod Decode
pub mod Holds
pub mod Reads
pub mod Shapes
pub mod Held
pub mod Pieces
pub mod RoundTrip
pub mod Injective
pub mod Unique
pub mod Consistent
pub mod Lookup
pub mod Named
pub mod Kept
pub mod Keeps
pub mod Laws
pub mod Leaves
pub mod Fuel
use zed.Prelude.{
  ℕ, zero, suc, ◌++◌, List, [], ◌∷◌, Bool, true, false, Option, none, some, ◌⊎◌, inl, inr, not,
  if◌then◌else◌, length, ltb, leb, get_elem?,
}
use zed.Prelude.Int.{ℤ, pos, negsuc}
use zed.Prelude.Outcome.{Outcome, ok, panic, ◌>>=◌}
use zed.Prelude.Dict.{Dict, get, put}
use zed.Prelude.Eq.{nat_eq, list_eq}
use zed.Types.{
  Bytes, ZedType, Primitive, primitive, type_record, type_array, type_set, type_map, type_union,
  type_enum, type_error, type_named, Fields, Types, type_string, id_type_complex,
  lookup_primitive_by_id, lookup_primitive, type_id,
}
use zed.Types.Value.{append_type_value, Typedefs}
use zed.Types.Names.{duplicate_field, valid_string}
use zed.Types.Compare.{sort_types}

-- `toValue` has a type as its key, and so its id.
pub record Context : Type 0 where
  pub by_id : List (Option ZedType)
  pub to_type : Dict Bytes ZedType
  pub to_value : Dict ℕ Bytes
  pub typedefs : Typedefs
  pub string_err : Option ZedType

abbrev pub nils : ℕ → List (Option ZedType)
nils zero = []
nils (suc n) = none ∷ nils n

unfoldable pub new_context : Context
new_context = record {
  by_id = nils id_type_complex;
  to_type = [];
  to_value = [];
  typedefs = [];
  string_err = none;
}

pub data LookupError : Type 0 where
  negative_id : LookupError
  not_in_context : LookupError
  no_type_found : LookupError
  not_implemented : LookupError
  duplicate_field_error : Bytes → LookupError
  invalid_utf8 : LookupError
  primitive_type_name : LookupError
  bad_type_value : LookupError

-- `c.byID[id]`, which panics out of range.
unfoldable pub found_by_id : Option (Option ZedType) → Outcome (LookupError ⊎ ZedType)
found_by_id none = panic
found_by_id (some none) = ok (inl no_type_found)
found_by_id (some (some t)) = ok (inr t)

unfoldable pub primitive_found : Option Primitive → LookupError ⊎ ZedType
primitive_found none = inl not_implemented
primitive_found (some p) = inr (primitive p)

unfoldable pub lookup_type : Context → ℤ → Outcome (LookupError ⊎ ZedType)
unfolding found_by_id primitive_found lookup_primitive_by_id
lookup_type c (negsuc n) = ok (inl negative_id)
lookup_type c (pos id) =
    if ltb id id_type_complex
    then ok (primitive_found (lookup_primitive_by_id id))
    else if leb (length c.by_id) id
    then ok (inl not_in_context)
    else found_by_id (get_elem? c.by_id id)

abbrev pub next_id : Context → ℕ
next_id c = length c.by_id

unfoldable pub enter : Bytes → ZedType → Context → Context
unfolding put type_id
enter tv t c = record c {
  to_value = put (type_id t) tv c.to_value;
  to_type = put tv t c.to_type;
  by_id = c.by_id ++ (some t ∷ []);
}

-- `typ.(*TypeRecord)` and so on: an assertion of the wrong type panics. The test is the source's
-- type, a named type being of its own type.
unfoldable pub assert_type : (ZedType → Bool) → ZedType → Outcome ZedType
assert_type is t = if is t then ok t else panic

abbrev pub is_record : ZedType → Bool
is_record (type_record i fs) = true
is_record _ = false

abbrev pub is_array : ZedType → Bool
is_array (type_array i u) = true
is_array _ = false

abbrev pub is_set : ZedType → Bool
is_set (type_set i u) = true
is_set _ = false

abbrev pub is_map : ZedType → Bool
is_map (type_map i k v) = true
is_map _ = false

abbrev pub is_union : ZedType → Bool
is_union (type_union i ts) = true
is_union _ = false

abbrev pub is_enum : ZedType → Bool
is_enum (type_enum i ss) = true
is_enum _ = false

abbrev pub is_error : ZedType → Bool
is_error (type_error i u) = true
is_error _ = false

abbrev pub is_named : ZedType → Bool
is_named (type_named i n u) = true
is_named _ = false

-- `if typ, ok := c.toType[string(*tv)]; ok` with what the code does if not.
unfoldable pub or_enter :
    (ZedType → Bool)
    → (ℕ → ZedType)
    → Bytes
    → Option ZedType
    → Context
    → Outcome (ZedType × Context)
unfolding enter assert_type
or_enter is build tv (some t) c = assert_type is t >>= λ t'. ok (t', c)
or_enter is build tv none c = let t = build (next_id c) in ok (t, enter tv t c)

-- The part that the lookups share: the type value of the type with no id, and the look at `toType`.
unfoldable pub intern : (ZedType → Bool) → (ℕ → ZedType) → Context → Outcome (ZedType × Context)
unfolding or_enter append_type_value get
intern is build c =
    let tv = append_type_value [] (build 0) in or_enter is build tv (get tv c.to_type) c

unfoldable pub lookup_type_set : ZedType → Context → Outcome (ZedType × Context)
unfolding intern
lookup_type_set inner = intern is_set (λ id. type_set id inner)

unfoldable pub lookup_type_map : ZedType → ZedType → Context → Outcome (ZedType × Context)
unfolding intern
lookup_type_map key val = intern is_map (λ id. type_map id key val)

unfoldable pub lookup_type_array : ZedType → Context → Outcome (ZedType × Context)
unfolding intern
lookup_type_array inner = intern is_array (λ id. type_array id inner)

unfoldable pub lookup_type_union : Types → Context → Outcome (ZedType × Context)
unfolding intern sort_types
lookup_type_union types = intern is_union (λ id. type_union id (sort_types types))

unfoldable pub lookup_type_enum : List Bytes → Context → Outcome (ZedType × Context)
unfolding intern
lookup_type_enum symbols = intern is_enum (λ id. type_enum id symbols)

abbrev pub no_error : Outcome (ZedType × Context) → Outcome ((LookupError ⊎ ZedType) × Context)
no_error (ok (t, c)) = ok (inr t, c)
no_error panic = panic

unfoldable pub unless_duplicate :
    Fields → Bytes → Option Bytes → Context → Outcome ((LookupError ⊎ ZedType) × Context)
unfolding or_enter
unless_duplicate fs tv (some name) c = ok (inl (duplicate_field_error name), c)
unless_duplicate fs tv none c = no_error (or_enter is_record (λ id. type_record id fs) tv none c)

-- The record's lookup refuses a repeated name, but only of a type that is new.
unfoldable pub record_or_enter :
    Fields → Bytes → Option ZedType → Context → Outcome ((LookupError ⊎ ZedType) × Context)
unfolding or_enter duplicate_field unless_duplicate
record_or_enter fs tv none c = unless_duplicate fs tv (duplicate_field fs) c
record_or_enter fs tv (some t) c =
    no_error (or_enter is_record (λ id. type_record id fs) tv (some t) c)

unfoldable pub lookup_type_record : Fields → Context → Outcome ((LookupError ⊎ ZedType) × Context)
unfolding record_or_enter append_type_value get
lookup_type_record fs c =
    let tv = append_type_value [] (type_record 0 fs) in record_or_enter fs tv (get tv c.to_type) c

unfoldable pub lookup_type_def : Bytes → Context → Option ZedType
unfolding get
lookup_type_def name c = get name c.typedefs

abbrev pub bind_name : Bytes → ZedType → Context → Context
unfolding put
bind_name name t c = record c { typedefs = put name t c.typedefs }

-- The name is bound to the type that was found or made, in either order with `enter`.
unfoldable pub binding :
    Bytes → Outcome (ZedType × Context) → Outcome ((LookupError ⊎ ZedType) × Context)
binding name (ok (t, c)) = ok (inr t, bind_name name t c)
binding name panic = panic

unfoldable pub lookup_type_named :
    Bytes → ZedType → Context → Outcome ((LookupError ⊎ ZedType) × Context)
unfolding intern valid_string lookup_primitive binding
lookup_type_named name inner c =
    if not (valid_string name) then ok (inl invalid_utf8, c) else elim (lookup_primitive name) [
      | some p ↦ ok (inl primitive_type_name, c)
      | none ↦ binding name (intern is_named (λ id. type_named id name inner) c)
    ]

abbrev pub is_string : ZedType → Bool
is_string (primitive type_string) = true
is_string _ = false

-- `stringErr` is stored when the type is new.
unfoldable pub store_string_err :
    ZedType → Outcome (ZedType × Context) → Outcome (ZedType × Context)
store_string_err inner (ok (t, c)) =
    ok (t, if is_string inner then record c { string_err = some t } else c)
store_string_err inner panic = panic

unfoldable pub error_or_enter :
    ZedType → Bytes → Option ZedType → Context → Outcome (ZedType × Context)
unfolding or_enter store_string_err
error_or_enter inner tv (some t) c = or_enter is_error (λ id. type_error id inner) tv (some t) c
error_or_enter inner tv none c =
    store_string_err inner (or_enter is_error (λ id. type_error id inner) tv none c)

unfoldable pub lookup_type_error : ZedType → Context → Outcome (ZedType × Context)
unfolding error_or_enter append_type_value get
lookup_type_error inner c =
    let tv = append_type_value [] (type_error 0 inner) in
    error_or_enter inner tv (get tv c.to_type) c

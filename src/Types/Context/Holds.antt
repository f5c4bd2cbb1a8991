-- ===== src/Types/Context/Holds.antt =====
-- When a context holds a type: it has the pointer at the type's id and under its type value, and
-- it holds the types within.
use zed.Prelude.{ℕ, ◌≤◌, ◌<◌, ◌^◌, ◌≡◌, List, [], true, none, some, Option, length, get_elem?, All}
use zed.Prelude.Dict.{Dict, get}
use zed.Prelude.Eq.{list_eq}
use zed.Types.{
  Bytes, ZedType, primitive, type_record, type_array, type_set, type_map, type_union, type_enum,
  type_error, type_named, Fields, no_fields, field, Types, no_types, and_type, type_id,
  id_type_complex, lookup_primitive, count_fields, count_types,
}
use zed.Types.Value.{append_type_value, Typedefs}
use zed.Types.Names.{valid_string}
use zed.Types.Compare.{sort_types}
use zed.Types.Context.Decode.{max_record_fields, max_union_types, max_enum_symbols}

module _ (by_id : List (Option ZedType)) (to_type : Dict Bytes ZedType) where
  pub record IsInterned (t : ZedType) : Type 0 where
    pub complex : id_type_complex ≤ type_id t
    pub at_id : get_elem? by_id (type_id t) ≡ some (some t)
    pub at_value : get (append_type_value [] t) to_type ≡ some t

  abbrev mutual
    pub Holds : ZedType → Type 0
    Holds (primitive p) = Unit {0}
    Holds (type_record id fs) = IsInterned (type_record id fs) × HoldsFields fs
    Holds (type_array id t) = IsInterned (type_array id t) × Holds t
    Holds (type_set id t) = IsInterned (type_set id t) × Holds t
    Holds (type_map id k v) = IsInterned (type_map id k v) × Holds k × Holds v
    Holds (type_union id ts) = IsInterned (type_union id ts) × (sort_types ts ≡ ts) × HoldsTypes ts
    Holds (type_enum id ss) = IsInterned (type_enum id ss)
    Holds (type_error id t) = IsInterned (type_error id t) × Holds t
    Holds (type_named id name t) =
        IsInterned (type_named id name t)
        × (valid_string name ≡ true)
        × (lookup_primitive name ≡ none)
        × Holds t

    pub HoldsFields : Fields → Type 0
    HoldsFields no_fields = Unit {0}
    HoldsFields (field name t fs) = Holds t × HoldsFields fs

    pub HoldsTypes : Types → Type 0
    HoldsTypes no_types = Unit {0}
    HoldsTypes (and_type t ts) = Holds t × HoldsTypes ts

  -- What an encoder's typedefs say is what the context's bindings say.
  abbrev pub Agrees : Typedefs → Typedefs → Type 0
  Agrees defs typedefs =
      (name : Bytes) (t : ZedType)
      → get name defs ≡ some t
      → (id : ℕ) × (get name typedefs ≡ some (type_named id name t)) × Holds (type_named id name t)

-- A length that is an `int`.
abbrev pub IsLength : ℕ → Type 0
IsLength n = n < 2 ^ 63

-- The limits of the decoder.
abbrev mutual
  pub IsDecodable : ZedType → Type 0
  IsDecodable (primitive p) = Unit {0}
  IsDecodable (type_record id fs) = (count_fields fs ≤ max_record_fields) × DecodableFields fs
  IsDecodable (type_array id t) = IsDecodable t
  IsDecodable (type_set id t) = IsDecodable t
  IsDecodable (type_map id k v) = IsDecodable k × IsDecodable v
  IsDecodable (type_union id ts) = (count_types ts ≤ max_union_types) × DecodableTypes ts
  IsDecodable (type_enum id ss) = (length ss ≤ max_enum_symbols) × All (λ s. IsLength (length s)) ss
  IsDecodable (type_error id t) = IsDecodable t
  IsDecodable (type_named id name t) = IsLength (length name) × IsDecodable t

  pub DecodableFields : Fields → Type 0
  DecodableFields no_fields = Unit {0}
  DecodableFields (field name t fs) = IsLength (length name) × IsDecodable t × DecodableFields fs

  pub DecodableTypes : Types → Type 0
  DecodableTypes no_types = Unit {0}
  DecodableTypes (and_type t ts) = IsDecodable t × DecodableTypes ts

-- ===== src/Types/Context/Shapes.antt =====
-- The byte that a type value starts with tells the kind of its type.
use zed.Prelude.{ℕ, ◌≡◌, refl, sym, ◌∙◌, [], ◌∷◌, ap}
use zed.Types.{
  Bytes, ZedType, primitive, primitive_id, type_record, type_array, type_set, type_map, type_union,
  type_enum, type_error, type_named,
}
use zed.Types.Value.{
  value_bytes, type_value_record, type_value_array, type_value_set, type_value_map,
  type_value_union, type_value_enum, type_value_error, type_value_name_def,
}

abbrev pub tag_byte : ZedType → ℕ
tag_byte (primitive p) = primitive_id p
tag_byte (type_record id fs) = type_value_record
tag_byte (type_array id t) = type_value_array
tag_byte (type_set id t) = type_value_set
tag_byte (type_map id k v) = type_value_map
tag_byte (type_union id ts) = type_value_union
tag_byte (type_enum id ss) = type_value_enum
tag_byte (type_error id t) = type_value_error
tag_byte (type_named id name t) = type_value_name_def

abbrev head_or : ℕ → Bytes → ℕ
head_or d [] = d
head_or d (b ∷ bs) = b

abbrev pub tail_of : Bytes → Bytes
tail_of [] = []
tail_of (b ∷ bs) = bs

starts : (t : ZedType) → head_or 0 (value_bytes t []).0 ≡ tag_byte t
unfolding value_bytes
starts (primitive p) = refl
starts (type_record id fs) = refl
starts (type_array id t) = refl
starts (type_set id t) = refl
starts (type_map id k v) = refl
starts (type_union id ts) = refl
starts (type_enum id ss) = refl
starts (type_error id t) = refl
starts (type_named id name t) = refl

-- A type value that starts with the byte of a kind is of a type of that kind.
pub tag : (b : ℕ) (bs : Bytes) (t : ZedType) → (value_bytes t []).0 ≡ b ∷ bs → tag_byte t ≡ b
tag b bs t e = sym (starts t) ∙ ap (head_or 0) e

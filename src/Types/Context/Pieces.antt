-- ===== src/Types/Context/Pieces.antt =====
-- What the decoders read of the parts of a type value, and what the names in it stand for.
use zed.Prelude.{
  ℕ, ◌<◌, ◌≤◌, ◌≡◌, refl, sym, ap, ◌∙◌, subst, inl, inr, List, [], ◌∷◌, ◌++◌, append_assoc, some,
  Option, length, arith, true, Bool, Bool-cases, Option-cases, if◌then◌else◌,
}
use zed.Prelude.Int.{pos}
use zed.Prelude.Outcome.{ok}
use zed.Prelude.Dict.{Dict, get, put, get-put, get-put_self}
use mathlib.Core.Option.{some_inj}
use zed.Prelude.Eq.{list_eq, list_beq, list_beq_iff}
use zed.Zcode.Uvarint.{append_uvarint}
use zed.Types.{
  Bytes, ZedType, Primitive, type_uint8, type_uint16, type_uint32, type_uint64, type_int8,
  type_int16, type_int32, type_int64, type_duration, type_time, type_float16, type_float32,
  type_float64, type_bool, type_bytes, type_string, type_ip, type_net, type_type, type_null,
  primitive_id, primitive, type_record, type_array, type_set, type_map, type_union, type_enum,
  type_error, type_named, same_type,
}
use zed.Types.Value.{
  value_bytes, append_type_value, name_bytes, symbol_bytes, type_value_name_ref,
  type_value_name_def, Typedefs, bound_to,
}
use zed.Types.Context.{Context, lookup_type_def}
use zed.Types.Context.Decode.{
  unasked, decode_from, decode_tag, decode_name_ref, def_or_nil, decode_enum, symbol_count,
  count_of, value_tag_of, primitive_tag, name_def, max_enum_symbols,
}
use zed.Types.Context.Holds.{Holds, Agrees, IsDecodable, IsLength}
use zed.Types.Context.Reads.{
  decode_length-append_uvarint, decode_name-name_bytes, decode_symbols-symbol_bytes,
}
use zed.Types.Context.Held.{
  with_typedefs, lookup_type_enum_held, lookup_type_named_held, same_type_held,
}

pub value_tag_of-primitive_id :
    (p : Primitive) → value_tag_of (primitive_id p) ≡ primitive_tag (primitive_id p)
unfolding value_tag_of
value_tag_of-primitive_id type_uint8 = refl
value_tag_of-primitive_id type_uint16 = refl
value_tag_of-primitive_id type_uint32 = refl
value_tag_of-primitive_id type_uint64 = refl
value_tag_of-primitive_id type_int8 = refl
value_tag_of-primitive_id type_int16 = refl
value_tag_of-primitive_id type_int32 = refl
value_tag_of-primitive_id type_int64 = refl
value_tag_of-primitive_id type_duration = refl
value_tag_of-primitive_id type_time = refl
value_tag_of-primitive_id type_float16 = refl
value_tag_of-primitive_id type_float32 = refl
value_tag_of-primitive_id type_float64 = refl
value_tag_of-primitive_id type_bool = refl
value_tag_of-primitive_id type_bytes = refl
value_tag_of-primitive_id type_string = refl
value_tag_of-primitive_id type_ip = refl
value_tag_of-primitive_id type_net = refl
value_tag_of-primitive_id type_type = refl
value_tag_of-primitive_id type_null = refl

pub count_of_pos :
    (max n : ℕ) (tv : Bytes) → n ≤ max → count_of max (some (pos n, tv)) ≡ ok (some (n, tv))
unfolding count_of
count_of_pos max n tv h = ground arith

symbol_count_pos :
    (n : ℕ) (tv : Bytes) → n ≤ max_enum_symbols → symbol_count (some (pos n, tv)) ≡ some (n, tv)
unfolding symbol_count
symbol_count_pos n tv h = ground arith

-- A type takes at least the byte of its tag.
pub value_bytes_pos : (t : ZedType) (defs : Typedefs) → 0 < length (value_bytes t defs).0
unfolding value_bytes
value_bytes_pos (primitive p) defs = omega arith
value_bytes_pos (type_record id fs) defs = omega arith
value_bytes_pos (type_array id t) defs = omega arith
value_bytes_pos (type_set id t) defs = omega arith
value_bytes_pos (type_map id k v) defs = omega arith
value_bytes_pos (type_union id ts) defs = omega arith
value_bytes_pos (type_enum id ss) defs = omega arith
value_bytes_pos (type_error id t) defs = omega arith
value_bytes_pos (type_named id name t) defs = elim (Bool-cases (bound_to (get name defs) t)) [
  | inl e ↦ rw e (omega arith)
  | inr e ↦ rw e (omega arith)
]

module _ (by_id : List (Option ZedType)) (to_type : Dict Bytes ZedType) where
  pub Agrees-put :
      (name : Bytes) (id : ℕ) (t : ZedType) (defs named : Typedefs)
      → Holds by_id to_type (type_named id name t)
      → Agrees by_id to_type defs named
      → Agrees by_id to_type (put name t defs) (put name (type_named id name t) named)
  Agrees-put name id t defs named h a m u e =
      let asked : (if list_beq name m then some t else get m defs) ≡ some u =
        sym (get-put name m t defs) ∙ e in
      elim (Bool-cases (list_beq name m)) [
        | inl p ↦
            let tu : t ≡ u =
              some_inj.0 (subst (λ b. (if b then some t else get m defs) ≡ some u) p asked) in
            rw (← (list_beq_iff name m).0 p)
              (rw (← tu) (id, get-put_self name (type_named id name t) named, h))
        | inr p ↦
            let (id', g, hh) =
              a m u (subst (λ b. (if b then some t else get m defs) ≡ some u) p asked) in
            (id', get-put name m (type_named id name t) named ∙ rw p g, hh)
      ]

  -- What a reference stands for.
  pub bound_type :
      (name : Bytes) (id : ℕ) (t : ZedType) (defs named : Typedefs)
      → Holds by_id to_type (type_named id name t)
      → Agrees by_id to_type defs named
      → bound_to (get name defs) t ≡ true
      → get name named ≡ some (type_named id name t)
  unfolding bound_to append_type_value value_bytes
  bound_type name id t defs named h a e = elim (Option-cases (get name defs)) [
    | inl g ↦ absurd (cc)
    | inr (prev, g) ↦
        let same : same_type prev t ≡ true = subst (λ o. bound_to o t ≡ true) g e in
        let (i, n, hp) = a name prev g in
        let eq = same_type_held by_id to_type prev t hp.3 h.3 same in
        let (j, m, hh) = a name t (g ∙ ap some eq) in m ∙ (sym hh.0.at_value ∙ h.0.at_value)
  ]

pub decode_enum_held :
    (id : ℕ) (ss : List Bytes) (c : Context) (rest : Bytes)
    → Holds c.by_id c.to_type (type_enum id ss)
    → IsDecodable (type_enum id ss)
    → decode_enum ((append_uvarint [] (length ss) ++ symbol_bytes ss) ++ rest) c
      ≡ ok (some (type_enum id ss, rest), c)
unfolding decode_enum
decode_enum_held id ss c rest h d =
    rw (append_assoc (append_uvarint [] (length ss)) (symbol_bytes ss) rest) (
      rw (decode_length-append_uvarint (length ss) (symbol_bytes ss ++ rest) (omega (arith, d.0))) (
        rw (symbol_count_pos (length ss) (symbol_bytes ss ++ rest) d.0) (
          rw (decode_symbols-symbol_bytes ss rest c d.1)
            (rw (lookup_type_enum_held id c ss h) refl))))

pub decode_name_ref_held :
    (id : ℕ) (name : Bytes) (t : ZedType) (c : Context) (rest : Bytes)
    → IsLength (length name)
    → get name c.typedefs ≡ some (type_named id name t)
    → decode_name_ref (name_bytes name ++ rest) c ≡ ok (some (type_named id name t, rest), c)
unfolding decode_name_ref lookup_type_def def_or_nil
decode_name_ref_held id name t c rest h g = rw (decode_name-name_bytes name rest h) (rw g refl)

-- The two forms of a named type, as `appendTypeValue` chooses between them.
abbrev pub definition_or_ref : Bool → Bytes → ZedType → Typedefs → Bytes × Typedefs
definition_or_ref previous name t defs =
    if previous then (type_value_name_ref ∷ name_bytes name, defs) else (
      type_value_name_def ∷ (name_bytes name ++ (value_bytes t defs).0),
      put name t (value_bytes t defs).1,
    )

pub decode_def_held :
    (id : ℕ) (name : Bytes) (t : ZedType) (fuel : ℕ) (c : Context) (b rest : Bytes)
    (named : Typedefs)
    → Holds c.by_id c.to_type (type_named id name t)
    → IsLength (length name)
    → decode_from unasked fuel (b ++ rest) c ≡ ok (some (t, rest), with_typedefs c named)
    → decode_tag (decode_from unasked fuel) name_def ((name_bytes name ++ b) ++ rest) c
      ≡ ok (
        some (type_named id name t, rest),
        with_typedefs c (put name (type_named id name t) named),
      )
unfolding decode_tag
decode_def_held id name t fuel c b rest named h d e = rw (append_assoc (name_bytes name) b rest) (
    rw (decode_name-name_bytes name (b ++ rest) d)
      (rw e (rw (lookup_type_named_held id (with_typedefs c named) name t h) refl)))

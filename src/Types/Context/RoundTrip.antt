-- ===== src/Types/Context/RoundTrip.antt =====
-- `DecodeTypeValue` on what `appendTypeValue` wrote of a type that the context holds.
use zed.Prelude.{
  ℕ, zero, suc, ◌≤◌, ◌≡◌, refl, subst, inl, inr, [], ◌++◌, append-nil, append_assoc, some, length,
  length-append, arith, Bool-cases,
}
use zed.Prelude.Outcome.{ok}
use zed.Prelude.Dict.{get, put}
use zed.Prelude.Eq.{list_eq}
use zed.Zcode.Uvarint.{append_uvarint}
use zed.Types.{
  Bytes, ZedType, primitive, type_record, type_array, type_set, type_map, type_union, type_enum,
  type_error, type_named, Fields, no_fields, field, Types, no_types, and_type, count_fields,
  count_types,
}
use zed.Types.PrimitiveId.{lookup_primitive_by_id-primitive_id}
use zed.Types.Value.{
  value_bytes, append_type_value, encode_type_value, name_bytes, field_bytes, types_bytes, Typedefs,
  bound_to,
}
use zed.Types.Context.{Context}
use zed.Types.Context.Decode.{
  unasked, decode_from, decode_tag, decode_fields, decode_members, decode_primitive,
  max_record_fields, max_union_types, decode_type_value,
}
use zed.Types.Context.Holds.{
  Holds, HoldsFields, HoldsTypes, Agrees, IsDecodable, DecodableFields, DecodableTypes,
}
use zed.Types.Context.Reads.{decode_length-append_uvarint, decode_name-name_bytes}
use zed.Types.Context.Held.{
  with_typedefs, lookup_type_array_held, lookup_type_set_held, lookup_type_map_held,
  lookup_type_union_held, lookup_type_error_held, lookup_type_record_held,
}
use zed.Types.Context.Pieces.{
  value_tag_of-primitive_id, count_of_pos, value_bytes_pos, Agrees-put, bound_type,
  decode_enum_held, decode_name_ref_held, definition_or_ref, decode_def_held,
}

mutual
  unfolding decode_from decode_tag value_bytes

  pub reads :
      (t : ZedType) (fuel : ℕ) (defs : Typedefs) (c : Context) (rest : Bytes)
      → Holds c.by_id c.to_type t
      → IsDecodable t
      → Agrees c.by_id c.to_type defs c.typedefs
      → length (value_bytes t defs).0 ≤ fuel
      → (named : Typedefs) × (decode_from unasked fuel ((value_bytes t defs).0 ++ rest) c
          ≡ ok (some (t, rest), with_typedefs c named))
        × Agrees c.by_id c.to_type (value_bytes t defs).1 named
  reads t zero defs c rest h d a le = absurd (omega (arith, value_bytes_pos t defs))
  reads (primitive p) (suc fuel) defs c rest h d a le = (
    c.typedefs,
    rw (value_tag_of-primitive_id p)
        (rw (lookup_primitive_by_id-primitive_id p, decode_primitive) refl),
    a,
  )
  reads (type_array id t) (suc fuel) defs c rest h d a le =
      let (named, e, a') = reads t fuel defs c rest h.1 d a (omega arith) in
      (named, rw e (rw (lookup_type_array_held id (with_typedefs c named) t h.0) refl), a')
  reads (type_set id t) (suc fuel) defs c rest h d a le =
      let (named, e, a') = reads t fuel defs c rest h.1 d a (omega arith) in
      (named, rw e (rw (lookup_type_set_held id (with_typedefs c named) t h.0) refl), a')
  reads (type_error id t) (suc fuel) defs c rest h d a le =
      let (named, e, a') = reads t fuel defs c rest h.1 d a (omega arith) in
      (named, rw e (rw (lookup_type_error_held id (with_typedefs c named) t h.0) refl), a')
  reads (type_map id k v) (suc fuel) defs c rest h d a le =
      let bk = (value_bytes k defs).0 in
      let bv = (value_bytes v (value_bytes k defs).1).0 in
      let total = length-append bk bv in
      let (n1, e1, a1) = reads k fuel defs c (bv ++ rest) h.1 d.0 a (omega arith) in
      let (n2, e2, a2) =
        reads v fuel (value_bytes k defs).1 (with_typedefs c n1) rest h.2 d.1 a1 (omega arith) in
      (
        n2,
        rw (append_assoc bk bv rest)
            (rw e1 (rw e2 (rw (lookup_type_map_held id (with_typedefs c n2) k v h.0) refl))),
        a2,
      )
  reads (type_enum id ss) (suc fuel) defs c rest h d a le =
      (c.typedefs, rw (decode_enum_held id ss c rest h d) refl, a)
  reads (type_record id fs) (suc fuel) defs c rest h d a le =
      let b = (field_bytes fs defs).0 in
      let size = append_uvarint [] (count_fields fs) in
      let total = length-append size b in
      let (named, e, a') = reads_fields fs fuel defs c rest h.1 d.1 a (omega arith) in
      (
        named,
        rw (append_assoc size b rest) (
            rw (decode_length-append_uvarint (count_fields fs) (b ++ rest) (omega (arith, d.0))) (
              rw (count_of_pos max_record_fields (count_fields fs) (b ++ rest) d.0)
                (rw e (rw (lookup_type_record_held id (with_typedefs c named) fs h.0) refl)))),
        a',
      )
  reads (type_union id ts) (suc fuel) defs c rest h d a le =
      let b = (types_bytes ts defs).0 in
      let size = append_uvarint [] (count_types ts) in
      let total = length-append size b in
      let (named, e, a') = reads_members ts fuel defs c rest h.2 d.1 a (omega arith) in
      (
        named,
        rw (append_assoc size b rest) (
            rw (decode_length-append_uvarint (count_types ts) (b ++ rest) (omega (arith, d.0))) (
              rw (count_of_pos max_union_types (count_types ts) (b ++ rest) d.0)
                (rw e (rw (lookup_type_union_held id (with_typedefs c named) ts h.0 h.1) refl)))),
        a',
      )
  reads (type_named id name t) (suc fuel) defs c rest h d a le =
      elim (Bool-cases (bound_to (get name defs) t)) [
        | inl p ↦
            let g = bound_type c.by_id c.to_type name id t defs c.typedefs h a p in
            rw p (c.typedefs, decode_name_ref_held id name t c rest d.0 g, a)
        | inr p ↦
            let b = (value_bytes t defs).0 in
            let total = length-append (name_bytes name) b in
            let fits = subst (λ v. length (definition_or_ref v name t defs).0 ≤ suc fuel) p le in
            let (named, e, a') = reads t fuel defs c rest h.3 d.1 a (omega arith) in
            rw p (
              put name (type_named id name t) named,
              decode_def_held id name t fuel c b rest named h d.0 e,
              Agrees-put c.by_id c.to_type name id t (value_bytes t defs).1 named h a',
            )
      ]

  pub reads_fields :
      (fs : Fields) (fuel : ℕ) (defs : Typedefs) (c : Context) (rest : Bytes)
      → HoldsFields c.by_id c.to_type fs
      → DecodableFields fs
      → Agrees c.by_id c.to_type defs c.typedefs
      → length (field_bytes fs defs).0 ≤ fuel
      → (named : Typedefs) × (decode_fields
            (decode_from unasked fuel)
            (count_fields fs)
            ((field_bytes fs defs).0 ++ rest)
            c
          ≡ ok (some (fs, rest), with_typedefs c named))
        × Agrees c.by_id c.to_type (field_bytes fs defs).1 named
  reads_fields no_fields fuel defs c rest h d a le = (c.typedefs, refl, a)
  reads_fields (field name t fs) fuel defs c rest h d a le =
      let b = (value_bytes t defs).0 in
      let bs = (field_bytes fs (value_bytes t defs).1).0 in
      let total = length-append (name_bytes name) (b ++ bs) in
      let inner = length-append b bs in
      let (n1, e1, a1) = reads t fuel defs c (bs ++ rest) h.0 d.1 a (omega arith) in
      let (n2, e2, a2) =
        reads_fields fs fuel (value_bytes t defs).1 (with_typedefs c n1) rest h.1 d.2 a1
          (omega arith) in
      (
        n2,
        rw (append_assoc (name_bytes name) (b ++ bs) rest, append_assoc b bs rest)
            (rw (decode_name-name_bytes name (b ++ (bs ++ rest)) d.0) (rw e1 (rw e2 refl))),
        a2,
      )

  pub reads_members :
      (ts : Types) (fuel : ℕ) (defs : Typedefs) (c : Context) (rest : Bytes)
      → HoldsTypes c.by_id c.to_type ts
      → DecodableTypes ts
      → Agrees c.by_id c.to_type defs c.typedefs
      → length (types_bytes ts defs).0 ≤ fuel
      → (named : Typedefs) × (decode_members
            (decode_from unasked fuel)
            (count_types ts)
            ((types_bytes ts defs).0 ++ rest)
            c
          ≡ ok (some (ts, rest), with_typedefs c named))
        × Agrees c.by_id c.to_type (types_bytes ts defs).1 named
  reads_members no_types fuel defs c rest h d a le = (c.typedefs, refl, a)
  reads_members (and_type t ts) fuel defs c rest h d a le =
      let b = (value_bytes t defs).0 in
      let bs = (types_bytes ts (value_bytes t defs).1).0 in
      let total = length-append b bs in
      let (n1, e1, a1) = reads t fuel defs c (bs ++ rest) h.0 d.0 a (omega arith) in
      let (n2, e2, a2) =
        reads_members ts fuel (value_bytes t defs).1 (with_typedefs c n1) rest h.1 d.1 a1
          (omega arith) in
      (n2, rw (append_assoc b bs rest) (rw e1 (rw e2 refl)), a2)

-- What a context encodes of a type that it holds, it decodes to the same pointer. Only its
-- bindings of names change, and what follows the type value is left.
pub decode_type_value-encode :
    (t : ZedType) (c : Context)
    → Holds c.by_id c.to_type t
    → IsDecodable t
    → (named : Typedefs) × (decode_type_value (encode_type_value t) c
        ≡ ok (some (t, []), with_typedefs c named))
unfolding decode_type_value encode_type_value append_type_value
decode_type_value-encode t c h d =
    let b = (value_bytes t []).0 in
    let (named, e, a) = reads t (length b) [] c [] h d (λ name u g. absurd (cc)) (omega arith) in
    (
      named,
      subst (λ r. decode_from unasked (length b) r c ≡ ok (some (t, []), with_typedefs c named))
          (append-nil b) e,
    )

-- ===== src/Types/Context/Laws.antt =====
-- What the users of a context rely on: one pointer for one type, by its value and by its id.
use mathlib.Core.Option.{some_inj, none-ne-some}
use zed.Prelude.{
  ℕ, suc, ◌<◌, ◌≤◌, ◌≡◌, ◌↔◌, ◌⊎◌, refl, sym, ap, ◌∙◌, subst, [], ◌∷◌, ◌++◌, append-nil, none, some,
  Option, Bool-cases, inl, inr, arith, length, ltb, leb, get_elem?, get_elem?-lt, length-append,
}
use zed.Prelude.Int.{pos}
use zed.Prelude.Outcome.{ok, panic, Outcome}
use zed.Prelude.Dict.{get, get-put_self}
use zed.Prelude.Eq.{list_eq, nat_eq}
use zed.Zcode.Uvarint.{append_uvarint}
use zed.Types.{
  Bytes, ZedType, Primitive, Fields, no_fields, type_record, type_id, id_type_complex,
  lookup_primitive_by_id,
}
use zed.Types.PrimitiveId.{primitive_id_of}
use zed.Types.Value.{
  encode_type_value, type_value_union, type_value_array, append_type_value, value_bytes,
}
use zed.Types.Context.{
  Context, LookupError, no_type_found, not_in_context, lookup_type, found_by_id, primitive_found,
  lookup_type_record, next_id,
}
use zed.Types.Context.Decode.{
  lookup_by_value, cache_value, count_of, decode_tag, value_tag_of, decode_members, decode_length,
  max_union_types, decode_type_value, decode_from,
}
use zed.Types.Context.Holds.{Holds, HoldsFields, IsDecodable}
use zed.Types.Context.Held.{lookup_type_record_held, with_typedefs}
use zed.Types.Context.Unique.{nothing_bound}
use zed.Types.Context.Reads.{decode_length-append_uvarint}
use zed.Types.Context.RoundTrip.{reads}
use zed.Types.Context.Consistent.{IsContext, Extends, Holds-extends}
use zed.Types.Context.Named.{lookup_type_record-Gives}

abbrev type_or_none : LookupError ⊎ ZedType → Option ZedType
type_or_none (inl e) = none
type_or_none (inr t) = some t

-- What an answer for an id says: a type lies within the table, has that id and is held.
abbrev pub Within : Context → ℕ → LookupError ⊎ ZedType → Type 0
Within c id (inl e) = Unit {0}
Within c id (inr t) = (id < next_id c) × (type_id t ≡ id) × Holds c.by_id c.to_type t

found-Within :
    (c : Context) (id : ℕ) (o : Option (Option ZedType))
    → IsContext c
    → id < length c.by_id
    → get_elem? c.by_id id ≡ o
    → (r : LookupError ⊎ ZedType) × (found_by_id o ≡ ok r) × Within c id r
unfolding found_by_id
found-Within c id none w h e =
    let (o, e', _, _) = get_elem?-lt c.by_id id h in absurd (none-ne-some o (sym e ∙ e'))
found-Within c id (some none) w h e = (inl no_type_found, refl, tt)
found-Within c id (some (some t)) w h e =
    let (own, held, d) = w.ids id t e in (inr t, refl, (h, own, held))

primitive-Within :
    (c : Context) (id : ℕ) (o : Option Primitive)
    → IsContext c
    → id < id_type_complex
    → lookup_primitive_by_id id ≡ o
    → Within c id (primitive_found o)
unfolding primitive_found type_id
primitive-Within c id none w h e = tt
primitive-Within c id (some p) w h e = (omega (arith, h, w.complex_ids), primitive_id_of id p e, tt)

pub lookup_type-bounds :
    (c : Context) (id : ℕ)
    → IsContext c
    → (r : LookupError ⊎ ZedType) × (lookup_type c (pos id) ≡ ok r) × Within c id r
unfolding lookup_type
lookup_type-bounds c id w = elim (Bool-cases (ltb id id_type_complex)) [
  | inl p ↦ (
    primitive_found (lookup_primitive_by_id id),
    rw p refl,
    primitive-Within c id (lookup_primitive_by_id id) w (ground (arith, p)) refl,
  )
  | inr p ↦ elim (Bool-cases (leb (length c.by_id) id)) [
    | inl q ↦ (inl not_in_context, rw p (rw q refl), tt)
    | inr q ↦
        let (r, e, in_table) =
          found-Within c id (get_elem? c.by_id id) w (ground (arith, q)) refl in
        (r, rw p (rw q e), in_table)
  ]
]

abbrev answer : Outcome ((LookupError ⊎ ZedType) × Context) → Option (ZedType × Context)
answer (ok (inr t, c)) = some (t, c)
answer (ok (inl e, c)) = none
answer panic = none

-- When `LookupTypeRecord` has given a type for fields that the context holds, asking again gives the
-- same pointer and leaves the context as it is.
pub lookup_type_record_twice :
    (c d : Context) (fs : Fields) (t : ZedType)
    → IsContext c
    → HoldsFields c.by_id c.to_type fs
    → IsDecodable (type_record 0 fs)
    → lookup_type_record fs c ≡ ok (inr t, d)
    → lookup_type_record fs d ≡ ok (inr t, d)
lookup_type_record_twice c d fs t w h dec e = elim (lookup_type_record-Gives c w fs h dec) [
  | inl (i, (f, q, v, x, g)) ↦
      let same = some_inj.0 (ap answer (sym q ∙ e)) in
      subst (λ r. lookup_type_record fs r.1 ≡ ok (inr r.0, r.1)) same
        (lookup_type_record_held i f fs g.0)
  | inr (name, n, q) ↦ absurd (none-ne-some (t, d) (ap answer (sym q ∙ e)))
]

-- A type value with any bytes after it, when it is not in the table, is accepted by
-- `LookupByValue`: it gives the type, and the bytes with what follows become the value of the type.
pub lookup_by_value_trailing :
    (c : Context) (t : ZedType) (extra : Bytes)
    → Holds c.by_id c.to_type t
    → IsDecodable t
    → get (encode_type_value t ++ extra) c.to_type ≡ none
    → (d : Context) × (lookup_by_value (encode_type_value t ++ extra) c ≡ ok (inr t, d))
      × (get (type_id t) d.to_value ≡ some (encode_type_value t ++ extra))
unfolding lookup_by_value decode_type_value cache_value encode_type_value append_type_value
lookup_by_value_trailing c t extra h dec g =
    let b = (value_bytes t []).0 in
    let total = length-append b extra in
    let (named, e, a) =
      reads t (length (b ++ extra)) [] c extra h dec (nothing_bound c) (omega arith) in
    (
      (cache_value (b ++ extra) (some (t, extra), with_typedefs c named)).1,
      rw (g, lookup_by_value) (rw e refl),
      get-put_self (type_id t) (b ++ extra) c.to_value,
    )

cut_count :
    (n : ℕ)
    → suc n ≤ max_union_types
    → count_of max_union_types (decode_length (append_uvarint [] (suc n))) ≡ ok (some (suc n, []))
unfolding count_of
cut_count n h =
    ap (λ b. count_of max_union_types (decode_length b))
      (sym (append-nil (append_uvarint [] (suc n))))
    ∙ (ap (λ o. count_of max_union_types o)
          (decode_length-append_uvarint (suc n) [] (omega (arith, h)))
        ∙ ground (arith, h))

-- A union's type value that ends after its count makes `DecodeTypeValue` panic, for every count from
-- 1 to the limit, where an array's that ends after its tag gives nil and leaves the context alone.
pub decode_type_value_cut_off :
    (c : Context) (n : ℕ)
    → suc n ≤ max_union_types
    → (decode_type_value (type_value_union ∷ append_uvarint [] (suc n)) c ≡ panic)
      × (decode_type_value (type_value_array ∷ []) c ≡ ok (none, c))
unfolding decode_type_value decode_from decode_tag value_tag_of decode_members
decode_type_value_cut_off c n h = (rw (cut_count n h) refl, refl)

fields_of : ZedType → Fields
fields_of (type_record id fs) = fs
fields_of _ = no_fields

-- What a record's lookup that gave a type says: it is the record of those fields, and it is held.
gave :
    (c d : Context) (fs : Fields) (t : ZedType)
    → IsContext c
    → HoldsFields c.by_id c.to_type fs
    → IsDecodable (type_record 0 fs)
    → lookup_type_record fs c ≡ ok (inr t, d)
    → (i : ℕ) × (type_record i fs ≡ t) × Holds d.by_id d.to_type t
gave c d fs t w h dec e = elim (lookup_type_record-Gives c w fs h dec) [
  | inl (i, (f, q, v, x, g)) ↦
      let same = some_inj.0 (ap answer (sym q ∙ e)) in
      (
        i,
        ap (λ r. r.0) same,
        subst (λ (r : ZedType × Context). Holds r.1.by_id r.1.to_type r.0) same g,
      )
  | inr (name, n, q) ↦ absurd (none-ne-some (t, d) (ap answer (sym q ∙ e)))
]

-- `LookupTypeRecord` gave a type for fields that the context holds. Whatever is done to the context
-- after that, as long as it satisfies the invariant and keeps its pointers, the type that
-- `LookupTypeRecord` then gives for some fields is the same pointer exactly when they are the same
-- fields.
pub record_identity :
    (c d later after : Context) (fs gs : Fields) (t u : ZedType)
    → IsContext c
    → HoldsFields c.by_id c.to_type fs
    → IsDecodable (type_record 0 fs)
    → lookup_type_record fs c ≡ ok (inr t, d)
    → IsContext later
    → Extends d later
    → HoldsFields later.by_id later.to_type gs
    → IsDecodable (type_record 0 gs)
    → lookup_type_record gs later ≡ ok (inr u, after)
    → (t ≡ u) ↔ (fs ≡ gs)
unfolding fields_of
record_identity c d later after fs gs t u w h dec e w' x h' dec' e' =
    let (i, p, held) = gave c d fs t w h dec e in
    let (j, q, held') = gave later after gs u w' h' dec' e' in
    (
      λ same. ap fields_of (p ∙ (same ∙ sym q)),
      λ same.
          let kept = Holds-extends d later x t held in
          let found =
            lookup_type_record_held i later fs
              (subst (Holds later.by_id later.to_type) (sym p) kept).0 in
          let again : lookup_type_record gs later ≡ ok (inr (type_record i fs), later) =
            rw (← same) found in
          sym p ∙ ap (λ r. r.0) (some_inj.0 (ap answer (sym again ∙ e'))),
    )

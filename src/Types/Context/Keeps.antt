-- ===== src/Types/Context/Keeps.antt =====
-- `DecodeTypeValue` on any bytes: what it leaves behind in the context, also when it fails.
use zed.Prelude.{
  ℕ, zero, suc, refl, ap, [], ◌∷◌, Option-cases, inl, inr, Bool-cases, ◌↔◌, arith, length,
}
use zed.Prelude.Eq.{list_eq}
use zed.Types.{
  Bytes, ZedType, type_record, type_array, type_set, type_map, type_union, type_error, type_named,
  Fields, Types, no_types, and_type, lookup_primitive,
}
use zed.Types.Names.{valid_string}
use zed.Types.Compare.{sort_types}
use zed.Types.Compare.Sort.{
  sort_types_idempotent, count_types-sort_types, EachType, EachType-sort_types,
}
use zed.Types.Context.{Context, lookup_type_union, lookup_type_record, lookup_type_named}
use zed.Types.Context.Decode.{
  unasked, reading, leaving, leaving_or_nil, decode_from, decode_tag, decode_type_value, name_def,
  name_ref, record_tag, array_tag, set_tag, map_tag, union_tag, enum_tag, error_tag, primitive_tag,
  decode_fields, decode_members, decode_name, decode_length, count_of, value_tag_of, Tag, Decoder,
  max_record_fields, max_union_types,
}
use zed.Types.Context.Holds.{Holds, HoldsFields, HoldsTypes, IsDecodable, DecodableTypes}
use zed.Types.Context.Consistent.{IsContext, Extends-refl, Holds-extends}
use zed.Types.Context.Lookup.{
  lookup_type_array-Makes, lookup_type_set-Makes, lookup_type_map-Makes, lookup_type_union-Makes,
}
use zed.Types.Context.Named.{
  lookup_type_named_invalid, lookup_type_named_primitive, lookup_type_error-Makes,
  lookup_type_record-Gives, lookup_type_named-Gives,
}
use zed.Types.Context.Kept.{
  Kept, Kept-then, Kept-member, Good, GoodFields, GoodTypes, GoodName, UpTo, leaving-Kept,
  giving-Kept, name-Kept, count_of-Kept, primitive-Kept, name_ref-Kept, enum-Kept,
}

-- The sort of a union keeps what is known of its types.
each_holds :
    (c : Context) (ts : Types)
    → HoldsTypes c.by_id c.to_type ts ↔ EachType (Holds c.by_id c.to_type) ts
each_holds c no_types = (λ h. tt, λ h. tt)
each_holds c (and_type t ts) =
    let (to, from) = each_holds c ts in (λ h. (h.0, to h.1), λ h. (h.0, from h.1))

each_decodable : (ts : Types) → DecodableTypes ts ↔ EachType IsDecodable ts
each_decodable no_types = (λ h. tt, λ h. tt)
each_decodable (and_type t ts) =
    let (to, from) = each_decodable ts in (λ h. (h.0, to h.1), λ h. (h.0, from h.1))

sorted_holds :
    (c : Context) (ts : Types)
    → HoldsTypes c.by_id c.to_type ts
    → HoldsTypes c.by_id c.to_type (sort_types ts)
sorted_holds c ts h =
    (each_holds c (sort_types ts)).1
      (EachType-sort_types (Holds c.by_id c.to_type) ts ((each_holds c ts).0 h))

sorted_decodable :
    (ts : Types) → IsDecodable (type_union 0 ts) → IsDecodable (type_union 0 (sort_types ts))
sorted_decodable ts d = (
  omega (arith, d.0, count_types-sort_types ts),
  (each_decodable (sort_types ts)).1
      (EachType-sort_types IsDecodable ts ((each_decodable ts).0 d.1)),
)

module _ (c : Context) (w : IsContext c) (tv : Bytes) where
  union-Kept :
      (ts : Types)
      → HoldsTypes c.by_id c.to_type ts
      → IsDecodable (type_union 0 ts)
      → Kept c Good (leaving tv (lookup_type_union ts c))
  union-Kept ts h d =
      let d' = sorted_decodable ts d in
      let (i, m) =
        lookup_type_union-Makes c w ts (sorted_holds c ts h) d' (sort_types_idempotent ts) in
      leaving-Kept c tv (type_union i (sort_types ts)) _ d' m

  record-Kept :
      (fs : Fields)
      → HoldsFields c.by_id c.to_type fs
      → IsDecodable (type_record 0 fs)
      → Kept c Good (leaving_or_nil tv (lookup_type_record fs c))
  record-Kept fs h d = elim (lookup_type_record-Gives c w fs h d) [
    | inl (i, m) ↦ giving-Kept c tv (type_record i fs) _ d m
    | inr (name, n, e) ↦ rw e (w, Extends-refl c)
  ]

  named-Kept :
      (name : Bytes) (t : ZedType)
      → Holds c.by_id c.to_type t
      → IsDecodable (type_named 0 name t)
      → Kept c Good (leaving_or_nil tv (lookup_type_named name t c))
  named-Kept name t h d = elim (Bool-cases (valid_string name)) [
    | inr p ↦ rw (lookup_type_named_invalid c name t p) (w, Extends-refl c)
    | inl p ↦ elim (Option-cases (lookup_primitive name)) [
      | inr (q, e) ↦ rw (lookup_type_named_primitive c name t q p e) (w, Extends-refl c)
      | inl e ↦
          let (i, m) = lookup_type_named-Gives c w name t p e h d in
          giving-Kept c tv (type_named i name t) _ d m
    ]
  ]

-- The recursive call keeps the invariant.
abbrev Keeps : Decoder → Type 0
Keeps decode = (c : Context) → IsContext c → (tv : Bytes) → Kept c Good (decode tv c)

module _ (decode : Decoder) (keeps : Keeps decode) where
  fields-Kept :
      (n : ℕ) (c : Context)
      → IsContext c
      → (tv : Bytes) → Kept c (GoodFields n) (decode_fields decode n tv c)
  unfolding decode_fields
  fields-Kept zero c w tv = (w, Extends-refl c, (refl, tt, tt))
  fields-Kept (suc n) c w tv =
      Kept-then GoodName (GoodFields (suc n)) c _
        (λ name tv1 d v x p.
          Kept-then Good (GoodFields (suc n)) d _
            (λ t tv2 e u y q.
              Kept-then (GoodFields n) (GoodFields (suc n)) e _
                (λ fs tv3 g s z r. (
                  s,
                  Extends-refl g,
                  (ap suc r.0, (Holds-extends e g z t q.0, r.1), (p, q.1, r.2)),
                ))
                (decode_fields decode n tv2 e) (fields-Kept n e u tv2))
            (decode tv1 d) (keeps d v tv1))
        (reading c (decode_name tv)) (name-Kept c w tv)

  members-Kept :
      (n : ℕ) (c : Context)
      → IsContext c
      → (tv : Bytes) → Kept c (GoodTypes n) (decode_members decode n tv c)
  unfolding decode_members
  members-Kept zero c w tv = (w, Extends-refl c, (refl, tt, tt))
  members-Kept (suc n) c w tv =
      Kept-member Good (GoodTypes (suc n)) c _
        (λ t tv2 e u y q.
          Kept-then (GoodTypes n) (GoodTypes (suc n)) e _
            (λ ts tv3 g s z r.
              (s, Extends-refl g, (ap suc r.0, (Holds-extends e g z t q.0, r.1), (q.1, r.2))))
            (decode_members decode n tv2 e) (members-Kept n e u tv2))
        (decode tv c) (keeps c w tv)

  tag-Kept :
      (tag : Tag) (c : Context)
      → IsContext c
      → (tv : Bytes) → Kept c Good (decode_tag decode tag tv c)
  unfolding decode_tag
  tag-Kept array_tag c w tv =
      Kept-then Good Good c _
        (λ t tv1 d v x q.
          let (i, m) = lookup_type_array-Makes d v t q.0 q.1 in
          leaving-Kept d tv1 (type_array i t) _ q.1 m)
        (decode tv c) (keeps c w tv)
  tag-Kept set_tag c w tv =
      Kept-then Good Good c _
        (λ t tv1 d v x q.
          let (i, m) = lookup_type_set-Makes d v t q.0 q.1 in
          leaving-Kept d tv1 (type_set i t) _ q.1 m)
        (decode tv c) (keeps c w tv)
  tag-Kept error_tag c w tv =
      Kept-then Good Good c _
        (λ t tv1 d v x q.
          let (i, m) = lookup_type_error-Makes d v t q.0 q.1 in
          leaving-Kept d tv1 (type_error i t) _ q.1 m)
        (decode tv c) (keeps c w tv)
  tag-Kept map_tag c w tv =
      Kept-then Good Good c _
        (λ k tv1 d v x p.
          Kept-then Good Good d _
            (λ t tv2 e u y q.
              let hk = Holds-extends d e y k p.0 in
              let (i, m) = lookup_type_map-Makes e u k t hk q.0 p.1 q.1 in
              leaving-Kept e tv2 (type_map i k t) _ (p.1, q.1) m)
            (decode tv1 d) (keeps d v tv1))
        (decode tv c) (keeps c w tv)
  tag-Kept record_tag c w tv =
      Kept-then (UpTo max_record_fields) Good c _
        (λ n tv1 d v x p.
          Kept-then (GoodFields n) Good d _
            (λ fs tv2 e u y q. record-Kept e u tv2 fs q.1 (omega (arith, p, q.0), q.2))
            (decode_fields decode n tv1 d) (fields-Kept n d v tv1))
        (reading c (count_of max_record_fields (decode_length tv)))
        (count_of-Kept c w max_record_fields (decode_length tv))
  tag-Kept union_tag c w tv =
      Kept-then (UpTo max_union_types) Good c _
        (λ n tv1 d v x p.
          Kept-then (GoodTypes n) Good d _
            (λ ts tv2 e u y q. union-Kept e u tv2 ts q.1 (omega (arith, p, q.0), q.2))
            (decode_members decode n tv1 d) (members-Kept n d v tv1))
        (reading c (count_of max_union_types (decode_length tv)))
        (count_of-Kept c w max_union_types (decode_length tv))
  tag-Kept name_def c w tv =
      Kept-then GoodName Good c _
        (λ name tv1 d v x p.
          Kept-then Good Good d _ (λ t tv2 e u y q. named-Kept e u tv2 name t q.0 (p, q.1))
            (decode tv1 d) (keeps d v tv1))
        (reading c (decode_name tv)) (name-Kept c w tv)
  tag-Kept name_ref c w tv = name_ref-Kept c w tv
  tag-Kept enum_tag c w tv = enum-Kept c w tv
  tag-Kept (primitive_tag id) c w tv = primitive-Kept c w id tv

from-Kept : (fuel : ℕ) → Keeps (decode_from unasked fuel)
unfolding decode_from
from-Kept fuel c w [] = (w, Extends-refl c)
from-Kept zero c w (b ∷ tv) = (w, Extends-refl c)
from-Kept (suc fuel) c w (b ∷ tv) =
    tag-Kept (decode_from unasked fuel) (from-Kept fuel) (value_tag_of b) c w tv

-- Whatever bytes `DecodeTypeValue` is given, when it does not panic it leaves a context that
-- satisfies the invariant and keeps every pointer of the context before, also when it fails half
-- way; and a type that it gives is held by that context and within the decoder's limits.
pub decode_type_value-Kept :
    (c : Context) → IsContext c → (tv : Bytes) → Kept c Good (decode_type_value tv c)
unfolding decode_type_value
decode_type_value-Kept c w tv = from-Kept (length tv) c w tv

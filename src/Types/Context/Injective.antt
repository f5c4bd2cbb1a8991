-- ===== src/Types/Context/Injective.antt =====
-- Two types of one context with one type value are one type.
use mathlib.Core.Option.{some_inj}
use zed.Prelude.{ℕ, ◌+◌, ◌≡◌, sym, ap, ◌∙◌, [], ◌++◌, none, some, Option, length, arith}
use zed.Prelude.Int.{pos_part}
use zed.Prelude.Outcome.{Outcome, ok, panic}
use zed.Zcode.Uvarint.{append_uvarint}
use zed.Types.{Bytes, ZedType, Fields, Types, count_fields, count_types}
use zed.Types.Value.{value_bytes, field_bytes, types_bytes, Typedefs, name_bytes}
use zed.Types.Context.{Context}
use zed.Types.Context.Decode.{
  unasked, Decoded, decode_from, decode_fields, decode_members, decode_length, decode_name,
}
use zed.Types.Context.Holds.{
  Holds, HoldsFields, HoldsTypes, Agrees, IsDecodable, DecodableFields, DecodableTypes, IsLength,
}
use zed.Types.Context.Reads.{decode_length-append_uvarint, decode_name-name_bytes}
use zed.Types.Context.RoundTrip.{reads, reads_fields, reads_members}

-- What was read, without the context.
abbrev result : {A : Type 0} → Decoded A → Option (A × Bytes)
result (ok (r, c)) = r
result panic = none

pub same_result :
    {A : Type 0} {d e : Decoded A} {a b : A} {x y : Bytes} {c1 c2 : Context}
    → d ≡ e
    → d ≡ ok (some (a, x), c1)
    → e ≡ ok (some (b, y), c2)
    → (a ≡ b) × (x ≡ y)
same_result de da eb =
    let p = some_inj.0 (sym (ap result da) ∙ (ap result de ∙ ap result eb)) in
    (ap (λ q. q.0) p, ap (λ q. q.1) p)

pub length_injective :
    (m n : ℕ) (x y : Bytes)
    → IsLength m
    → IsLength n
    → append_uvarint [] m ++ x ≡ append_uvarint [] n ++ y
    → (m ≡ n) × (x ≡ y)
length_injective m n x y hm hn e =
    let p = some_inj.0 (
      sym (decode_length-append_uvarint m x hm)
      ∙ (ap decode_length e ∙ decode_length-append_uvarint n y hn)) in
    (ap (λ q. pos_part q.0) p, ap (λ q. q.1) p)

abbrev name_or_none : Outcome (Option (Bytes × Bytes)) → Option (Bytes × Bytes)
name_or_none (ok r) = r
name_or_none panic = none

pub name_injective :
    (s t x y : Bytes)
    → IsLength (length s)
    → IsLength (length t)
    → name_bytes s ++ x ≡ name_bytes t ++ y
    → (s ≡ t) × (x ≡ y)
name_injective s t x y hs ht e =
    let p = some_inj.0 (
      sym (ap name_or_none (decode_name-name_bytes s x hs))
      ∙ (ap (λ b. name_or_none (decode_name b)) e
          ∙ ap name_or_none (decode_name-name_bytes t y ht))) in
    (ap (λ q. q.0) p, ap (λ q. q.1) p)

module _ (c : Context) where
  -- What the encoders have bound so far is the same on both sides.
  module _ (defs : Typedefs) (a : Agrees c.by_id c.to_type defs c.typedefs) where
    pub value_bytes_injective :
        (s t : ZedType) (x y : Bytes)
        → Holds c.by_id c.to_type s
        → Holds c.by_id c.to_type t
        → IsDecodable s
        → IsDecodable t
        → (value_bytes s defs).0 ++ x ≡ (value_bytes t defs).0 ++ y
        → (s ≡ t) × (x ≡ y)
    value_bytes_injective s t x y hs ht ds dt e =
        let m = length (value_bytes s defs).0 in
        let n = length (value_bytes t defs).0 in
        let (n1, e1, a1) = reads s (m + n) defs c x hs ds a (omega arith) in
        let (n2, e2, a2) = reads t (m + n) defs c y ht dt a (omega arith) in
        same_result (ap (λ b. decode_from unasked (m + n) b c) e) e1 e2

    pub field_bytes_injective :
        (fs gs : Fields) (x y : Bytes)
        → HoldsFields c.by_id c.to_type fs
        → HoldsFields c.by_id c.to_type gs
        → DecodableFields fs
        → DecodableFields gs
        → count_fields fs ≡ count_fields gs
        → (field_bytes fs defs).0 ++ x ≡ (field_bytes gs defs).0 ++ y
        → (fs ≡ gs) × (x ≡ y)
    field_bytes_injective s t x y hs ht ds dt k e =
        let m = length (field_bytes s defs).0 in
        let n = length (field_bytes t defs).0 in
        let (n1, e1, a1) = reads_fields s (m + n) defs c x hs ds a (omega arith) in
        let (n2, e2, a2) = reads_fields t (m + n) defs c y ht dt a (omega arith) in
        same_result
          (ap (λ b. decode_fields (decode_from unasked (m + n)) (count_fields s) b c) e
            ∙ ap
                (λ i. decode_fields (decode_from unasked (m + n)) i ((field_bytes t defs).0 ++ y) c)
                k)
          e1 e2

    pub types_bytes_injective :
        (ss ts : Types) (x y : Bytes)
        → HoldsTypes c.by_id c.to_type ss
        → HoldsTypes c.by_id c.to_type ts
        → DecodableTypes ss
        → DecodableTypes ts
        → count_types ss ≡ count_types ts
        → (types_bytes ss defs).0 ++ x ≡ (types_bytes ts defs).0 ++ y
        → (ss ≡ ts) × (x ≡ y)
    types_bytes_injective s t x y hs ht ds dt k e =
        let m = length (types_bytes s defs).0 in
        let n = length (types_bytes t defs).0 in
        let (n1, e1, a1) = reads_members s (m + n) defs c x hs ds a (omega arith) in
        let (n2, e2, a2) = reads_members t (m + n) defs c y ht dt a (omega arith) in
        same_result
          (ap (λ b. decode_members (decode_from unasked (m + n)) (count_types s) b c) e
            ∙ ap
                (λ i.
                  decode_members (decode_from unasked (m + n)) i ((types_bytes t defs).0 ++ y) c)
                k)
          e1 e2

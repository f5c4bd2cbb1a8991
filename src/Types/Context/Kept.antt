-- ===== src/Types/Context/Kept.antt =====
-- What a decoder leaves in the context: the reads that enter no type of a name, a record or a union.
use zed.Prelude.{
  ℕ, zero, suc, ◌≤◌, ◌^◌, ◌≡◌, refl, ap, List, none, some, Option, Option-cases, inl, inr,
  Bool-cases, ◌⊎◌, arith, length, drop, ltb, All, length-take_le,
}
use zed.Prelude.Int.{ℤ, pos, negsuc}
use zed.Prelude.Outcome.{ok, panic, Outcome}
use zed.Prelude.Dict.{get}
use zed.Prelude.Eq.{list_eq}
use zed.Zcode.Uvarint.{uvarint, value, short, overflow, Read}
use zed.Types.{
  Bytes, ZedType, type_enum, Fields, Types, count_fields, count_types, lookup_primitive_by_id,
}
use zed.Types.Context.{Context, LookupError, lookup_type_def}
use zed.Types.Context.Decode.{
  Decoded, then_decode, member_or_panic, reading, leaving, leaving_or_nil, decode_primitive,
  decode_name_ref, def_or_nil, decode_enum, decode_symbols, decode_name, name_of, decode_length,
  length_of, count_of, symbol_count, to_int, max_enum_symbols,
}
use zed.Types.Context.Holds.{
  Holds, HoldsFields, HoldsTypes, IsDecodable, DecodableFields, DecodableTypes, IsLength,
}
use zed.Types.Context.Consistent.{IsContext, Extends, Extends-refl, Extends-trans}
use zed.Types.Context.Lookup.{Makes, lookup_type_enum-Makes}
use zed.Types.Context.Named.{Gives}

-- A decoder that started in `c` left a context that satisfies the invariant and has all pointers
-- of `c`; what it read is as `P` says.
abbrev pub Kept : {A : Type 0} → Context → (Context → A → Type 0) → Decoded A → Type 0
Kept c P (ok (some (a, tv), d)) = IsContext d × Extends c d × P d a
Kept c P (ok (none, d)) = IsContext d × Extends c d
Kept c P panic = Unit {0}

Kept-later :
    {B : Type 0} (Q : Context → B → Type 0) (c d : Context)
    → Extends c d
    → (o : Decoded B) → Kept d Q o
    → Kept c Q o
Kept-later Q c d x (ok (some (a, tv), e)) (w, y, q) = (w, Extends-trans c d e x y, q)
Kept-later Q c d x (ok (none, e)) (w, y) = (w, Extends-trans c d e x y)
Kept-later Q c d x panic k = tt

module _ {A B : Type 0} (P : Context → A → Type 0) (Q : Context → B → Type 0) (c : Context)
    (f : A → Bytes → Context → Decoded B)
    (k : (a : A) (tv : Bytes) (d : Context)
      → IsContext d
      → Extends c d
      → P d a
      → Kept d Q (f a tv d)) where
  pub Kept-then : (o : Decoded A) → Kept c P o → Kept c Q (then_decode o f)
  Kept-then (ok (some (a, tv), d)) (w, x, p) = Kept-later Q c d x (f a tv d) (k a tv d w x p)
  Kept-then (ok (none, d)) h = h
  Kept-then panic h = tt

  pub Kept-member : (o : Decoded A) → Kept c P o → Kept c Q (member_or_panic o f)
  Kept-member (ok (some (a, tv), d)) (w, x, p) = Kept-later Q c d x (f a tv d) (k a tv d w x p)
  Kept-member (ok (none, d)) h = tt
  Kept-member panic h = tt

-- What is decoded is held, and can be decoded again.
abbrev pub Good : Context → ZedType → Type 0
Good d t = Holds d.by_id d.to_type t × IsDecodable t

abbrev pub GoodFields : ℕ → Context → Fields → Type 0
GoodFields n d fs = (count_fields fs ≡ n) × HoldsFields d.by_id d.to_type fs × DecodableFields fs

abbrev pub GoodTypes : ℕ → Context → Types → Type 0
GoodTypes n d ts = (count_types ts ≡ n) × HoldsTypes d.by_id d.to_type ts × DecodableTypes ts

abbrev pub GoodName : Context → Bytes → Type 0
GoodName d s = IsLength (length s)

abbrev GoodSymbols : ℕ → Context → List Bytes → Type 0
GoodSymbols n d ss = (length ss ≡ n) × All (λ s. IsLength (length s)) ss

abbrev pub UpTo : ℕ → Context → ℕ → Type 0
UpTo max d n = n ≤ max

pub leaving-Kept :
    (c : Context) (tv : Bytes) (t : ZedType) (o : Outcome (ZedType × Context))
    → IsDecodable t
    → Makes c t o
    → Kept c Good (leaving tv o)
leaving-Kept c tv t o d (e, same, w, x, h) = rw same (w, x, (h, d))

pub giving-Kept :
    (c : Context) (tv : Bytes) (t : ZedType) (o : Outcome ((LookupError ⊎ ZedType) × Context))
    → IsDecodable t
    → Gives c t o
    → Kept c Good (leaving_or_nil tv o)
giving-Kept c tv t o d (e, same, w, x, h) = rw same (w, x, (h, d))

abbrev FitsInt : Option (ℤ × Bytes) → Type 0
FitsInt (some (pos n, tv)) = IsLength n
FitsInt _ = Unit {0}

int_fits : (v : ℕ) (tv : Bytes) → FitsInt (some (to_int v, tv))
int_fits v tv = elim (Bool-cases (ltb v (2 ^ 63))) [
  | inl p ↦ rw p (ground (arith, p))
  | inr p ↦ rw p tt
]

length_of-FitsInt : (tv : Bytes) (r : Read) → FitsInt (length_of tv r)
unfolding length_of
length_of-FitsInt tv (value v n) = int_fits v (drop n tv)
length_of-FitsInt tv short = tt
length_of-FitsInt tv overflow = tt

module _ (c : Context) (w : IsContext c) where
  name_of-Kept : (o : Option (ℤ × Bytes)) → FitsInt o → Kept c GoodName (reading c (name_of o))
  unfolding name_of
  name_of-Kept none h = (w, Extends-refl c)
  name_of-Kept (some (negsuc n, tv)) h = tt
  name_of-Kept (some (pos n, tv)) h = elim (Bool-cases (ltb (length tv) n)) [
    | inl p ↦ rw p (w, Extends-refl c)
    | inr p ↦ rw p (w, Extends-refl c, omega (arith, h, length-take_le n tv (ground (arith, p))))
  ]

  pub name-Kept : (tv : Bytes) → Kept c GoodName (reading c (decode_name tv))
  unfolding decode_name decode_length
  name-Kept tv = name_of-Kept (decode_length tv) (length_of-FitsInt tv (uvarint tv))

  pub count_of-Kept :
      (max : ℕ) (o : Option (ℤ × Bytes)) → Kept c (UpTo max) (reading c (count_of max o))
  unfolding count_of
  count_of-Kept max none = (w, Extends-refl c)
  count_of-Kept max (some (negsuc n, tv)) = tt
  count_of-Kept max (some (pos n, tv)) = elim (Bool-cases (ltb max n)) [
    | inl p ↦ rw p (w, Extends-refl c)
    | inr p ↦ rw p (w, Extends-refl c, ground (arith, p))
  ]

  symbol_count-Kept :
      (o : Option (ℤ × Bytes)) → Kept c (UpTo max_enum_symbols) (ok (symbol_count o, c))
  unfolding symbol_count
  symbol_count-Kept none = (w, Extends-refl c)
  symbol_count-Kept (some (negsuc n, tv)) = (w, Extends-refl c, omega arith)
  symbol_count-Kept (some (pos n, tv)) = elim (Bool-cases (ltb max_enum_symbols n)) [
    | inl p ↦ rw p (w, Extends-refl c)
    | inr p ↦ rw p (w, Extends-refl c, ground (arith, p))
  ]

  pub primitive-Kept : (id : ℕ) (tv : Bytes) → Kept c Good (decode_primitive id tv c)
  unfolding decode_primitive
  primitive-Kept id tv = elim (Option-cases (lookup_primitive_by_id id)) [
    | inl e ↦ rw (e, decode_primitive) (w, Extends-refl c)
    | inr (p, e) ↦ rw (e, decode_primitive) (w, Extends-refl c, (tt, tt))
  ]

  def-Kept : (name tv : Bytes) → Kept c Good (def_or_nil tv c (lookup_type_def name c))
  unfolding def_or_nil lookup_type_def
  def-Kept name tv = elim (Option-cases (get name c.typedefs)) [
    | inl e ↦ rw e (w, Extends-refl c)
    | inr (t, e) ↦ rw e (w, Extends-refl c, w.names name t e)
  ]

pub name_ref-Kept : (c : Context) → IsContext c → (tv : Bytes) → Kept c Good (decode_name_ref tv c)
unfolding decode_name_ref
name_ref-Kept c w tv =
    Kept-then GoodName Good c _ (λ name tv1 d v x p. def-Kept d v name tv1)
      (reading c (decode_name tv)) (name-Kept c w tv)

symbols-Kept :
    (n : ℕ) (c : Context)
    → IsContext c
    → (tv : Bytes) → Kept c (GoodSymbols n) (decode_symbols n tv c)
unfolding decode_symbols
symbols-Kept zero c w tv = (w, Extends-refl c, (refl, tt))
symbols-Kept (suc n) c w tv =
    Kept-then GoodName (GoodSymbols (suc n)) c _
      (λ s tv1 d v x p.
        Kept-then (GoodSymbols n) (GoodSymbols (suc n)) d _
          (λ ss tv2 e u y q. (u, Extends-refl e, (ap suc q.0, (p, q.1)))) _
          (symbols-Kept n d v tv1))
      _ (name-Kept c w tv)

pub enum-Kept : (c : Context) → IsContext c → (tv : Bytes) → Kept c Good (decode_enum tv c)
unfolding decode_enum
enum-Kept c w tv =
    Kept-then (UpTo max_enum_symbols) Good c _
      (λ n tv1 d v x p.
        Kept-then (GoodSymbols n) Good d _
          (λ ss tv2 e u y q.
            let fits : IsDecodable (type_enum 0 ss) = (omega (arith, p, q.0), q.1) in
            let (i, m) = lookup_type_enum-Makes e u ss fits in
            leaving-Kept e tv2 (type_enum i ss) _ fits m)
          _ (symbols-Kept n d v tv1))
      (ok (symbol_count (decode_length tv), c)) (symbol_count-Kept c w (decode_length tv))

-- ===== src/Types/Context/Fuel.antt =====
-- Enough rounds for `decode_from`: the length of the bytes.
use zed.Prelude.{
  ℕ, zero, suc, ◌≤◌, ◌≡◌, refl, [], ◌∷◌, none, some, Option, Option-cases, inl, inr, arith, length,
}
use zed.Prelude.Outcome.{ok}
use zed.Zcode.Uvarint.{uvarint}
use zed.Types.{Bytes, ZedType, lookup_primitive_by_id}
use zed.Types.Context.{Context, lookup_type_def}
use zed.Types.Context.Decode.{
  unasked, Decoder, Tag, name_def, name_ref, record_tag, array_tag, set_tag, map_tag, union_tag,
  enum_tag, error_tag, primitive_tag, reading, decode_from, decode_tag, decode_type_value,
  decode_fields, decode_members, decode_primitive, decode_name_ref, def_or_nil, decode_enum,
  decode_symbols, decode_length, count_of, symbol_count, value_tag_of, max_record_fields,
  max_union_types,
}
use zed.Types.Context.Leaves.{
  Leaves, Leaves-more, Leaves-then, Leaves-member, same-then, same-member, Leaves-leaving,
  Leaves-or_nil, length_leaves, count_of-Leaves, symbol_count-Leaves, name-Leaves, symbols_leave,
}

module _ (f : Decoder) (m : ℕ)
    (reads_leave : (tv : Bytes) (c : Context) → length tv ≤ m → Leaves m (f tv c)) where
  fields_leave :
      (n : ℕ) (tv : Bytes) (c : Context) → length tv ≤ m → Leaves m (decode_fields f n tv c)
  unfolding decode_fields
  fields_leave zero tv c h = h
  fields_leave (suc n) tv c h = Leaves-then m _ _ (name-Leaves m c tv h) (λ name tv1 c1 h1.
      Leaves-then m (f tv1 c1) _ (reads_leave tv1 c1 h1) (λ t tv2 c2 h2.
        Leaves-then m (decode_fields f n tv2 c2) _ (fields_leave n tv2 c2 h2) (λ fs tv3 c3 h3. h3)))

  members_leave :
      (n : ℕ) (tv : Bytes) (c : Context) → length tv ≤ m → Leaves m (decode_members f n tv c)
  unfolding decode_members
  members_leave zero tv c h = h
  members_leave (suc n) tv c h = Leaves-member m (f tv c) _ (reads_leave tv c h) (λ t tv1 c1 h1.
      Leaves-then m (decode_members f n tv1 c1) _ (members_leave n tv1 c1 h1) (λ ts tv2 c2 h2. h2))

  count-Leaves :
      (max : ℕ) (tv : Bytes) (c : Context)
      → length tv ≤ m
      → Leaves m (reading c (count_of max (decode_length tv)))
  unfolding decode_length
  count-Leaves max tv c h =
      Leaves-more (length tv) m _ h
        (count_of-Leaves (length tv) max c (decode_length tv) (length_leaves tv (uvarint tv)))

  enum-Leaves : (tv : Bytes) (c : Context) → length tv ≤ m → Leaves m (decode_enum tv c)
  unfolding decode_enum decode_length
  enum-Leaves tv c h =
      Leaves-then m (ok (symbol_count (decode_length tv), c)) _
        (Leaves-more (length tv) m (ok (symbol_count (decode_length tv), c)) h
          (symbol_count-Leaves (length tv) c (decode_length tv) (length_leaves tv (uvarint tv))))
        (λ n tv1 c1 h1.
          Leaves-then m (decode_symbols n tv1 c1) _ (symbols_leave n m c1 tv1 h1)
            (λ ss tv2 c2 h2. Leaves-leaving tv2 m _ h2))

  ref-Leaves : (tv : Bytes) (c : Context) → length tv ≤ m → Leaves m (decode_name_ref tv c)
  unfolding decode_name_ref
  ref-Leaves tv c h =
      Leaves-then m _ _ (name-Leaves m c tv h)
        (λ name tv1 c1 h1. def_leaves tv1 c1 (lookup_type_def name c1) h1)
    where
      def_leaves :
          (tv1 : Bytes) (c1 : Context) (o : Option ZedType)
          → length tv1 ≤ m
          → Leaves m (def_or_nil tv1 c1 o)
      def_leaves tv1 c1 none h = tt
      def_leaves tv1 c1 (some t) h = h

  primitive-Leaves :
      (id : ℕ) (tv : Bytes) (c : Context) → length tv ≤ m → Leaves m (decode_primitive id tv c)
  unfolding decode_primitive
  primitive-Leaves id tv c h = elim (Option-cases (lookup_primitive_by_id id)) [
    | inl e ↦ rw (e, decode_primitive) tt
    | inr (p, e) ↦ rw (e, decode_primitive) h
  ]

  tag-Leaves :
      (tag : Tag) (tv : Bytes) (c : Context) → length tv ≤ m → Leaves m (decode_tag f tag tv c)
  unfolding decode_tag
  tag-Leaves name_def tv c h = Leaves-then m _ _ (name-Leaves m c tv h) (λ name tv1 c1 h1.
      Leaves-then m (f tv1 c1) _ (reads_leave tv1 c1 h1) (λ t tv2 c2 h2. Leaves-or_nil tv2 m _ h2))
  tag-Leaves name_ref tv c h = ref-Leaves tv c h
  tag-Leaves record_tag tv c h =
      Leaves-then m _ _ (count-Leaves max_record_fields tv c h) (λ n tv1 c1 h1.
        Leaves-then m (decode_fields f n tv1 c1) _ (fields_leave n tv1 c1 h1)
          (λ fs tv2 c2 h2. Leaves-or_nil tv2 m _ h2))
  tag-Leaves array_tag tv c h =
      Leaves-then m (f tv c) _ (reads_leave tv c h) (λ t tv1 c1 h1. Leaves-leaving tv1 m _ h1)
  tag-Leaves set_tag tv c h =
      Leaves-then m (f tv c) _ (reads_leave tv c h) (λ t tv1 c1 h1. Leaves-leaving tv1 m _ h1)
  tag-Leaves error_tag tv c h =
      Leaves-then m (f tv c) _ (reads_leave tv c h) (λ t tv1 c1 h1. Leaves-leaving tv1 m _ h1)
  tag-Leaves map_tag tv c h = Leaves-then m (f tv c) _ (reads_leave tv c h) (λ k tv1 c1 h1.
      Leaves-then m (f tv1 c1) _ (reads_leave tv1 c1 h1) (λ t tv2 c2 h2. Leaves-leaving tv2 m _ h2))
  tag-Leaves union_tag tv c h =
      Leaves-then m _ _ (count-Leaves max_union_types tv c h) (λ n tv1 c1 h1.
        Leaves-then m (decode_members f n tv1 c1) _ (members_leave n tv1 c1 h1)
          (λ ts tv2 c2 h2. Leaves-leaving tv2 m _ h2))
  tag-Leaves enum_tag tv c h = enum-Leaves tv c h
  tag-Leaves (primitive_tag id) tv c h = primitive-Leaves id tv c h

  module _ (g : Decoder)
      (agree : (tv : Bytes) (c : Context) → length tv ≤ m → f tv c ≡ g tv c) where
    same_fields :
        (n : ℕ) (tv : Bytes) (c : Context)
        → length tv ≤ m
        → decode_fields f n tv c ≡ decode_fields g n tv c
    unfolding decode_fields
    same_fields zero tv c h = refl
    same_fields (suc n) tv c h = same-then m _ _ _ _ refl (name-Leaves m c tv h) (λ name tv1 c1 h1.
        same-then m (f tv1 c1) (g tv1 c1) _ _ (agree tv1 c1 h1) (reads_leave tv1 c1 h1)
          (λ t tv2 c2 h2.
            same-then m (decode_fields f n tv2 c2) (decode_fields g n tv2 c2) _ _
              (same_fields n tv2 c2 h2) (fields_leave n tv2 c2 h2) (λ fs tv3 c3 h3. refl)))

    same_members :
        (n : ℕ) (tv : Bytes) (c : Context)
        → length tv ≤ m
        → decode_members f n tv c ≡ decode_members g n tv c
    unfolding decode_members
    same_members zero tv c h = refl
    same_members (suc n) tv c h =
        same-member m (f tv c) (g tv c) _ _ (agree tv c h) (reads_leave tv c h) (λ t tv1 c1 h1.
          same-then m (decode_members f n tv1 c1) (decode_members g n tv1 c1) _ _
            (same_members n tv1 c1 h1) (members_leave n tv1 c1 h1) (λ ts tv2 c2 h2. refl))

    same_tag :
        (tag : Tag) (tv : Bytes) (c : Context)
        → length tv ≤ m
        → decode_tag f tag tv c ≡ decode_tag g tag tv c
    unfolding decode_tag
    same_tag name_def tv c h = same-then m _ _ _ _ refl (name-Leaves m c tv h) (λ name tv1 c1 h1.
        same-then m (f tv1 c1) (g tv1 c1) _ _ (agree tv1 c1 h1) (reads_leave tv1 c1 h1)
          (λ t tv2 c2 h2. refl))
    same_tag name_ref tv c h = refl
    same_tag record_tag tv c h =
        same-then m _ _ _ _ refl (count-Leaves max_record_fields tv c h) (λ n tv1 c1 h1.
          same-then m (decode_fields f n tv1 c1) (decode_fields g n tv1 c1) _ _
            (same_fields n tv1 c1 h1) (fields_leave n tv1 c1 h1) (λ fs tv2 c2 h2. refl))
    same_tag array_tag tv c h =
        same-then m (f tv c) (g tv c) _ _ (agree tv c h) (reads_leave tv c h) (λ t tv1 c1 h1. refl)
    same_tag set_tag tv c h =
        same-then m (f tv c) (g tv c) _ _ (agree tv c h) (reads_leave tv c h) (λ t tv1 c1 h1. refl)
    same_tag error_tag tv c h =
        same-then m (f tv c) (g tv c) _ _ (agree tv c h) (reads_leave tv c h) (λ t tv1 c1 h1. refl)
    same_tag map_tag tv c h =
        same-then m (f tv c) (g tv c) _ _ (agree tv c h) (reads_leave tv c h) (λ k tv1 c1 h1.
          same-then m (f tv1 c1) (g tv1 c1) _ _ (agree tv1 c1 h1) (reads_leave tv1 c1 h1)
            (λ t tv2 c2 h2. refl))
    same_tag union_tag tv c h =
        same-then m _ _ _ _ refl (count-Leaves max_union_types tv c h) (λ n tv1 c1 h1.
          same-then m (decode_members f n tv1 c1) (decode_members g n tv1 c1) _ _
            (same_members n tv1 c1 h1) (members_leave n tv1 c1 h1) (λ ts tv2 c2 h2. refl))
    same_tag enum_tag tv c h = refl
    same_tag (primitive_tag id) tv c h = refl

-- With rounds for them, at most as many bytes are left as there were.
from_Leaves :
    (beyond : Decoder) (rounds m : ℕ) (tv : Bytes) (c : Context)
    → m ≤ rounds
    → length tv ≤ m
    → Leaves m (decode_from beyond rounds tv c)
unfolding decode_from
from_Leaves beyond rounds m [] c le h = tt
from_Leaves beyond zero m (b ∷ tv) c le h = absurd (omega (arith, le, h))
from_Leaves beyond (suc rounds) zero (b ∷ tv) c le h = absurd (omega (arith, h))
from_Leaves beyond (suc rounds) (suc m) (b ∷ tv) c le h = Leaves-more m (suc m) _ (omega arith) (
    tag-Leaves (decode_from beyond rounds) m
      (λ r d l. from_Leaves beyond rounds m r d (omega (arith, le)) l) (value_tag_of b) tv c
      (omega (arith, h)))

enough :
    (beyond other : Decoder) (rounds more : ℕ) (tv : Bytes) (c : Context)
    → length tv ≤ rounds
    → length tv ≤ more
    → decode_from beyond rounds tv c ≡ decode_from other more tv c
unfolding decode_from
enough beyond other rounds more [] c h k = refl
enough beyond other zero more (b ∷ tv) c h k = absurd (omega (arith, h))
enough beyond other (suc rounds) zero (b ∷ tv) c h k = absurd (omega (arith, k))
enough beyond other (suc rounds) (suc more) (b ∷ tv) c h k =
    let le : length tv ≤ length tv = omega arith in
    same_tag (decode_from beyond rounds) (length tv)
      (λ r d l. from_Leaves beyond rounds (length tv) r d (omega (arith, h)) l)
      (decode_from other more)
      (λ r d l. enough beyond other rounds more r d (omega (arith, h, l)) (omega (arith, k, l)))
      (value_tag_of b) tv c le

-- The recursion of `DecodeTypeValue` ends within as many rounds as there are bytes: whatever a call
-- beyond the rounds would answer, it is not asked, and the answer is that of `decode_type_value`.
pub decode_type_value_terminates :
    (beyond : Decoder) (rounds : ℕ) (tv : Bytes) (c : Context)
    → length tv ≤ rounds
    → decode_from beyond rounds tv c ≡ decode_type_value tv c
unfolding decode_type_value
decode_type_value_terminates beyond rounds tv c h =
    enough beyond unasked rounds (length tv) tv c h (omega arith)

-- ===== src/Types/Compare/Flip.antt =====
-- `CompareTypes` with its arguments exchanged, and the stable sort of a sorted slice.
use Prim.Native.Nat.{compare, Ordering}
use zed.Prelude.{
  ℕ, ◌≡◌, refl, sym, ap, ◌∙◌, List, [], ◌∷◌, false, arith, ◌==◌, Bool-cases, inl, inr, length,
  ==_iff,
}
use zed.Types.{
  Bytes, ZedType, primitive, type_record, type_array, type_set, type_map, type_union, type_enum,
  type_error, type_named, Fields, no_fields, field, Types, no_types, and_type, primitive_id, id_of,
  kind, count_fields, count_types,
}
use zed.Types.Names.{then_compare, compare_strings, field_names}
use zed.Types.Compare.{
  compare_names, compare_named, compare_above, compare_below, compare_fields, compare_members,
  compare_types,
}

abbrev pub flip : Ordering → Ordering
flip Ordering.lt = Ordering.gt
flip Ordering.eq = Ordering.eq
flip Ordering.gt = Ordering.lt

flip-compare : (m n : ℕ) → compare m n ≡ flip (compare n m)
flip-compare m n = ground arith

flip-then :
    (o p q r : Ordering) → o ≡ flip p → q ≡ flip r → then_compare o q ≡ flip (then_compare p r)
flip-then o Ordering.lt q r e f = rw e refl
flip-then o Ordering.eq q r e f = rw e f
flip-then o Ordering.gt q r e f = rw e refl

flip-strings : (s t : Bytes) → compare_strings s t ≡ flip (compare_strings t s)
unfolding compare_strings
flip-strings [] [] = refl
flip-strings [] (_ ∷ _) = refl
flip-strings (_ ∷ _) [] = refl
flip-strings (x ∷ s) (y ∷ t) = flip-then _ _ _ _ (flip-compare x y) (flip-strings s t)

flip-names : (s t : List Bytes) → compare_names s t ≡ flip (compare_names t s)
unfolding compare_names
flip-names [] [] = refl
flip-names [] (_ ∷ _) = refl
flip-names (_ ∷ _) [] = refl
flip-names (x ∷ s) (y ∷ t) = flip-then _ _ _ _ (flip-strings x y) (flip-names s t)

flip-named : (a b : ZedType) → compare_named a b ≡ flip (compare_named b a)
unfolding compare_named
flip-named (type_named i m s) (type_named j n t) = flip-strings m n
flip-named (type_named i m s) b = refl
flip-named a (type_named j n t) = refl
flip-named a b = refl

flip-above :
    (a b : ZedType) (o p : Ordering) → o ≡ flip p → compare_above a b o ≡ flip (compare_above b a p)
unfolding compare_above
flip-above a b o p e = elim (Bool-cases (id_of a == id_of b)) [
  | inl q ↦ rw q (
      rw ((==_iff (id_of b) (id_of a)).1 (sym ((==_iff (id_of a) (id_of b)).0 q))) (flip-named a b))
  | inr q ↦ rw q (rw (differ q) (flip-then _ _ _ _ (flip-compare (kind a) (kind b)) e))
]
  where
    differ : (id_of a == id_of b) ≡ false → (id_of b == id_of a) ≡ false
    differ q = ground arith

-- A name on the right is looked through, as on the left.
below_right :
    (a : ZedType) (j : ℕ) (n : Bytes) (b : ZedType)
    → compare_below a (type_named j n b) ≡ compare_below a b
unfolding compare_below
below_right (type_named i m a) j n b = below_right a j n b
below_right a j n b = refl

mutual
  unfolding compare_below

  flip-below : (a b : ZedType) → compare_below a b ≡ flip (compare_below b a)
  flip-below (type_named i n a) b = flip-below a b ∙ ap flip (sym (below_right b i n a))
  flip-below a (type_named j n b) = below_right a j n b ∙ flip-below a b
  flip-below (primitive p) (primitive q) = flip-compare (primitive_id p) (primitive_id q)
  flip-below (type_record i fs) (type_record j gs) =
      flip-then _ _ _ _ (flip-compare (count_fields fs) (count_fields gs))
        (flip-then _ _ _ _ (flip-names (field_names fs) (field_names gs)) (flip-fields fs gs))
  flip-below (type_array i a) (type_array j b) = flip-above a b _ _ (flip-below a b)
  flip-below (type_set i a) (type_set j b) = flip-above a b _ _ (flip-below a b)
  flip-below (type_error i a) (type_error j b) = flip-above a b _ _ (flip-below a b)
  flip-below (type_map i k v) (type_map j l w) =
      flip-then _ _ _ _ (flip-above k l _ _ (flip-below k l)) (flip-above v w _ _ (flip-below v w))
  flip-below (type_union i ts) (type_union j us) =
      flip-then _ _ _ _ (flip-compare (count_types ts) (count_types us)) (flip-members ts us)
  flip-below (type_enum i ss) (type_enum j us) =
      flip-then _ _ _ _ (flip-compare (length ss) (length us)) (flip-names ss us)
  flip-below a b = refl

  flip-fields : (fs gs : Fields) → compare_fields fs gs ≡ flip (compare_fields gs fs)
  flip-fields (field m a fs) (field n b gs) =
      flip-then _ _ _ _ (flip-above a b _ _ (flip-below a b)) (flip-fields fs gs)
  flip-fields no_fields no_fields = refl
  flip-fields no_fields (field n b gs) = refl
  flip-fields (field m a fs) no_fields = refl

  flip-members : (ts us : Types) → compare_members ts us ≡ flip (compare_members us ts)
  flip-members (and_type a ts) (and_type b us) =
      flip-then _ _ _ _ (flip-above a b _ _ (flip-below a b)) (flip-members ts us)
  flip-members no_types no_types = refl
  flip-members no_types (and_type b us) = refl
  flip-members (and_type a ts) no_types = refl

-- `CompareTypes` is antisymmetric: with its arguments exchanged it answers the opposite.
pub compare_types-flip : (a b : ZedType) → compare_types a b ≡ flip (compare_types b a)
unfolding compare_types
compare_types-flip a b = flip-above a b _ _ (flip-below a b)

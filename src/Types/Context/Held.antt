-- ===== src/Types/Context/Held.antt =====
-- The lookups of a type that the context holds, and that one pointer stands for one type.
use zed.Prelude.{
  ℕ, ◌≡◌, refl, sym, ap, ◌∙◌, ◌⊎◌, inl, inr, List, [], Bool, true, Option, arith, get_elem?, ==_iff,
}
use mathlib.Core.Option.{some_inj}
use zed.Prelude.Outcome.{ok}
use zed.Prelude.Dict.{Dict, put}
use zed.Prelude.Eq.{list_eq}
use zed.Types.{
  Bytes, ZedType, Primitive, primitive, type_record, type_array, type_set, type_map, type_union,
  type_enum, type_error, type_named, Fields, Types, type_id, same_type,
}
use zed.Types.PrimitiveId.{primitive_id-lt, primitive_id_injective}
use zed.Types.Value.{value_bytes, append_type_value, Typedefs}
use zed.Types.Compare.{sort_types}
use zed.Types.Context.{
  Context, intern, or_enter, assert_type, lookup_type_array, lookup_type_set, lookup_type_map,
  lookup_type_union, lookup_type_enum, lookup_type_error, lookup_type_record, lookup_type_named,
  record_or_enter, error_or_enter, binding, is_array, is_set, is_map, is_union, is_enum, is_named,
}
use zed.Types.Context.Holds.{IsInterned, Holds}

abbrev pub with_typedefs : Context → Typedefs → Context
with_typedefs c named = record c { typedefs = named }

intern_held :
    (is : ZedType → Bool) (build : ℕ → ZedType) (id : ℕ) (c : Context)
    → IsInterned c.by_id c.to_type (build id)
    → append_type_value [] (build 0) ≡ append_type_value [] (build id)
    → is (build id) ≡ true
    → intern is build c ≡ ok (build id, c)
unfolding intern or_enter assert_type
intern_held is build id c h v e = rw v (rw h.at_value (rw e refl))

module _ (id : ℕ) (c : Context) where
  pub lookup_type_array_held :
      (t : ZedType)
      → IsInterned c.by_id c.to_type (type_array id t)
      → lookup_type_array t c ≡ ok (type_array id t, c)
  unfolding lookup_type_array append_type_value value_bytes
  lookup_type_array_held t h = intern_held is_array (λ i. type_array i t) id c h refl refl

  pub lookup_type_set_held :
      (t : ZedType)
      → IsInterned c.by_id c.to_type (type_set id t)
      → lookup_type_set t c ≡ ok (type_set id t, c)
  unfolding lookup_type_set append_type_value value_bytes
  lookup_type_set_held t h = intern_held is_set (λ i. type_set i t) id c h refl refl

  pub lookup_type_map_held :
      (k v : ZedType)
      → IsInterned c.by_id c.to_type (type_map id k v)
      → lookup_type_map k v c ≡ ok (type_map id k v, c)
  unfolding lookup_type_map append_type_value value_bytes
  lookup_type_map_held k v h = intern_held is_map (λ i. type_map i k v) id c h refl refl

  pub lookup_type_enum_held :
      (ss : List Bytes)
      → IsInterned c.by_id c.to_type (type_enum id ss)
      → lookup_type_enum ss c ≡ ok (type_enum id ss, c)
  unfolding lookup_type_enum append_type_value value_bytes
  lookup_type_enum_held ss h = intern_held is_enum (λ i. type_enum i ss) id c h refl refl

  pub lookup_type_union_held :
      (ts : Types)
      → IsInterned c.by_id c.to_type (type_union id ts)
      → sort_types ts ≡ ts
      → lookup_type_union ts c ≡ ok (type_union id ts, c)
  unfolding lookup_type_union append_type_value value_bytes
  lookup_type_union_held ts h s =
      rw s (intern_held is_union (λ i. type_union i ts) id c h refl refl)

  pub lookup_type_error_held :
      (t : ZedType)
      → IsInterned c.by_id c.to_type (type_error id t)
      → lookup_type_error t c ≡ ok (type_error id t, c)
  unfolding lookup_type_error append_type_value value_bytes or_enter assert_type error_or_enter
  lookup_type_error_held t h = rw h.at_value refl

  pub lookup_type_record_held :
      (fs : Fields)
      → IsInterned c.by_id c.to_type (type_record id fs)
      → lookup_type_record fs c ≡ ok (inr (type_record id fs), c)
  unfolding lookup_type_record append_type_value value_bytes or_enter assert_type record_or_enter
  lookup_type_record_held fs h = rw h.at_value refl

  pub lookup_type_named_held :
      (name : Bytes) (t : ZedType)
      → Holds c.by_id c.to_type (type_named id name t)
      → lookup_type_named name t c
        ≡ ok (
          inr (type_named id name t),
          with_typedefs c (put name (type_named id name t) c.typedefs),
        )
  unfolding lookup_type_named append_type_value value_bytes binding
  lookup_type_named_held name t h =
      rw (h.1, h.2, intern_held is_named (λ i. type_named i name t) id c h.0 refl refl) refl

module _ (by_id : List (Option ZedType)) (to_type : Dict Bytes ZedType) where
  interned_or_primitive :
      (t : ZedType)
      → Holds by_id to_type t
      → ((p : Primitive) × (t ≡ primitive p)) ⊎ IsInterned by_id to_type t
  interned_or_primitive (primitive p) h = inl (p, refl)
  interned_or_primitive (type_record id fs) h = inr h.0
  interned_or_primitive (type_array id t) h = inr h.0
  interned_or_primitive (type_set id t) h = inr h.0
  interned_or_primitive (type_map id k v) h = inr h.0
  interned_or_primitive (type_union id ts) h = inr h.0
  interned_or_primitive (type_enum id ss) h = inr h
  interned_or_primitive (type_error id t) h = inr h.0
  interned_or_primitive (type_named id name t) h = inr h.0

  -- Two types that the context holds are one if their pointers are.
  pub same_type_held :
      (s t : ZedType) → Holds by_id to_type s → Holds by_id to_type t → same_type s t ≡ true → s ≡ t
  unfolding same_type
  same_type_held s t hs ht e =
      let same = (==_iff (type_id s) (type_id t)).0 e in
      elim (interned_or_primitive s hs) [
        | inl (p, es) ↦ elim (interned_or_primitive t ht) [
          | inl (q, et) ↦
              es
              ∙ ap primitive
                  (primitive_id_injective p q (sym (ap type_id es) ∙ same ∙ ap type_id et))
              ∙ sym et
          | inr j ↦ absurd (omega (arith, j.complex, primitive_id-lt p, sym (ap type_id es) ∙ same))
        ]
        | inr i ↦ elim (interned_or_primitive t ht) [
          | inl (q, et) ↦ absurd (omega (arith, i.complex, primitive_id-lt q, same ∙ ap type_id et))
          | inr j ↦
              some_inj.0 (some_inj.0 (sym i.at_id ∙ ap (λ n. get_elem? by_id n) same ∙ j.at_id))
        ]
      ]

-- ===== src/Types/Context/Lookup.antt =====
-- What the lookups of context.go give: the type asked for, in a context that satisfies the
-- invariant and keeps every pointer.
use zed.Prelude.{
  ℕ, ◌≡◌, refl, sym, ap, ◌∙◌, subst, List, [], none, some, Option-cases, inl, inr, true, Bool,
}
use zed.Prelude.Outcome.{ok, Outcome}
use zed.Prelude.Dict.{get}
use zed.Prelude.Eq.{list_eq}
use zed.Types.{
  Bytes, ZedType, type_array, type_set, type_map, type_union, type_enum, Types, type_id,
}
use zed.Types.Value.{append_type_value, value_bytes}
use zed.Types.Context.{
  Context, enter, next_id, intern, or_enter, assert_type, lookup_type_array, lookup_type_set,
  lookup_type_map, lookup_type_union, lookup_type_enum, is_array, is_set, is_map, is_union, is_enum,
}
use zed.Types.Compare.{sort_types}
use zed.Types.Context.Holds.{IsInterned, Holds, HoldsTypes, IsDecodable}
use zed.Types.Context.Consistent.{
  IsContext, Extends, Extends-refl, enter-Extends, enter-IsInterned, enter-IsContext, Holds-extends,
  HoldsTypes-extends,
}
use zed.Types.Context.Unique.{same_array, same_set, same_map, same_union, same_enum}

-- A lookup that answers with `t`.
abbrev pub Makes : Context → ZedType → Outcome (ZedType × Context) → Type 0
Makes c t o =
    (d : Context) × (o ≡ ok (t, d)) × IsContext d × Extends c d × Holds d.by_id d.to_type t

module _ (is : ZedType → Bool) (build : ℕ → ZedType) (c : Context) (w : IsContext c)
    (value : (i : ℕ) → append_type_value [] (build i) ≡ append_type_value [] (build 0))
    (own : (i : ℕ) → type_id (build i) ≡ i) (asserted : (i : ℕ) → is (build i) ≡ true)
    (decodable : IsDecodable (build (next_id c)))
    (held : (i : ℕ) (d : Context)
      → Extends c d
      → IsInterned d.by_id d.to_type (build i)
      → Holds d.by_id d.to_type (build i))
    (unique : (t : ZedType)
      → Holds c.by_id c.to_type t
      → IsDecodable t
      → (value_bytes t []).0 ≡ (value_bytes (build 0) []).0
      → (i : ℕ) × (t ≡ build i)) where
  -- The type is new.
  pub fresh-Makes :
      get (append_type_value [] (build 0)) c.to_type ≡ none
      → Makes c (build (next_id c)) (or_enter is build (append_type_value [] (build 0)) none c)
  unfolding or_enter
  fresh-Makes g =
      let n = next_id c in
      let t = build n in
      let absent = ap (λ v. get v c.to_type) (value n) ∙ g in
      let x = enter-Extends c w t (own n) absent in
      let new = enter-IsInterned c w t (own n) absent in
      let h = held n (enter (append_type_value [] t) t c) x new in
      subst (λ v. Makes c t (ok (t, enter v t c))) (value n)
        (
          enter (append_type_value [] t) t c,
          refl,
          enter-IsContext c w t (own n) absent h decodable,
          x,
          h,
        )

  -- The type is there.
  pub found-Makes :
      (t : ZedType)
      → get (append_type_value [] (build 0)) c.to_type ≡ some t
      → (i : ℕ) × (t ≡ build i)
        × Makes c (build i) (or_enter is build (append_type_value [] (build 0)) (some t) c)
  unfolding or_enter assert_type append_type_value
  found-Makes t g =
      let (a, h, d) = w.values (append_type_value [] (build 0)) t g in
      let (i, same) = unique t h d (sym a) in
      (
        i,
        same,
        (
          c,
          rw same (rw (asserted i) refl),
          w,
          Extends-refl c,
          subst (λ u. Holds c.by_id c.to_type u) same h,
        ),
      )

  pub intern-Makes : (i : ℕ) × Makes c (build i) (intern is build c)
  unfolding intern
  intern-Makes = elim (Option-cases (get (append_type_value [] (build 0)) c.to_type)) [
    | inr (t, g) ↦ let (i, same, m) = found-Makes t g in (i, rw g m)
    | inl g ↦ (next_id c, rw g (fresh-Makes g))
  ]

module _ (c : Context) (w : IsContext c) where
  pub lookup_type_array-Makes :
      (u : ZedType)
      → Holds c.by_id c.to_type u
      → IsDecodable u
      → (i : ℕ) × Makes c (type_array i u) (lookup_type_array u c)
  unfolding lookup_type_array append_type_value value_bytes type_id
  lookup_type_array-Makes u h d =
      intern-Makes is_array (λ i. type_array i u) c w (λ i. refl) (λ i. refl) (λ i. refl) d
        (λ i e x new. (new, Holds-extends c e x u h)) (λ t ht dt. same_array c t u ht dt h d)

  pub lookup_type_set-Makes :
      (u : ZedType)
      → Holds c.by_id c.to_type u
      → IsDecodable u
      → (i : ℕ) × Makes c (type_set i u) (lookup_type_set u c)
  unfolding lookup_type_set append_type_value value_bytes type_id
  lookup_type_set-Makes u h d =
      intern-Makes is_set (λ i. type_set i u) c w (λ i. refl) (λ i. refl) (λ i. refl) d
        (λ i e x new. (new, Holds-extends c e x u h)) (λ t ht dt. same_set c t u ht dt h d)

  pub lookup_type_map-Makes :
      (k v : ZedType)
      → Holds c.by_id c.to_type k
      → Holds c.by_id c.to_type v
      → IsDecodable k
      → IsDecodable v
      → (i : ℕ) × Makes c (type_map i k v) (lookup_type_map k v c)
  unfolding lookup_type_map append_type_value value_bytes type_id
  lookup_type_map-Makes k v hk hv dk dv =
      intern-Makes is_map (λ i. type_map i k v) c w (λ i. refl) (λ i. refl) (λ i. refl) (dk, dv)
        (λ i e x new. (new, Holds-extends c e x k hk, Holds-extends c e x v hv))
        (λ t ht dt. same_map c t k v ht dt hk hv (dk, dv))

  pub lookup_type_enum-Makes :
      (ss : List Bytes)
      → IsDecodable (type_enum 0 ss)
      → (i : ℕ) × Makes c (type_enum i ss) (lookup_type_enum ss c)
  unfolding lookup_type_enum append_type_value value_bytes type_id
  lookup_type_enum-Makes ss d =
      intern-Makes is_enum (λ i. type_enum i ss) c w (λ i. refl) (λ i. refl) (λ i. refl) d
        (λ i e x new. new) (λ t ht dt. same_enum c t ss ht dt d)

  -- A union's types are sorted first.
  pub lookup_type_union-Makes :
      (ts : Types)
      → HoldsTypes c.by_id c.to_type (sort_types ts)
      → IsDecodable (type_union 0 (sort_types ts))
      → sort_types (sort_types ts) ≡ sort_types ts
      → (i : ℕ) × Makes c (type_union i (sort_types ts)) (lookup_type_union ts c)
  unfolding lookup_type_union append_type_value value_bytes type_id
  lookup_type_union-Makes ts h d s =
      intern-Makes is_union (λ i. type_union i (sort_types ts)) c w (λ i. refl) (λ i. refl)
        (λ i. refl) d (λ i e x new. (new, s, HoldsTypes-extends c e x (sort_types ts) h))
        (λ t ht dt. same_union c t (sort_types ts) ht dt h d)

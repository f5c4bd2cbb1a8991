-- ===== src/Types/Context/Named.antt =====
-- The lookups that do more than find or enter a type: of records, errors and named types.
use zed.Prelude.{
  ℕ, ◌≡◌, refl, [], none, some, Option, Option-cases, inl, inr, true, false, Bool-cases, ◌⊎◌,
}
use zed.Prelude.Outcome.{ok, Outcome}
use zed.Prelude.Dict.{get, put, get-put_cases}
use zed.Prelude.Eq.{list_eq}
use zed.Types.{
  Bytes, ZedType, Primitive, type_record, type_error, type_named, Fields, type_id, lookup_primitive,
}
use zed.Types.Value.{append_type_value, value_bytes}
use zed.Types.Names.{duplicate_field, valid_string}
use zed.Types.Context.{
  Context, LookupError, duplicate_field_error, invalid_utf8, primitive_type_name, lookup_type_error,
  error_or_enter, store_string_err, is_string, lookup_type_record, record_or_enter,
  unless_duplicate, no_error, lookup_type_named, binding, bind_name, next_id, is_error, is_record,
  is_named,
}
use zed.Types.Context.Holds.{Holds, HoldsFields, IsDecodable}
use zed.Types.Context.Consistent.{IsContext, Extends, Holds-extends, HoldsFields-extends}
use zed.Types.Context.Unique.{same_error, same_record, same_named}
use zed.Types.Context.Lookup.{Makes, intern-Makes, fresh-Makes, found-Makes}

-- The invariant and the pointers do not depend on `stringErr`.
with_string_err :
    (c d : Context) (t : ZedType) (o : Option ZedType)
    → IsContext d
    → Extends c d
    → IsContext (record d { string_err = o }) × Extends c (record d { string_err = o })
with_string_err c d t o w x = (
  record { complex_ids = w.complex_ids; ids = w.ids; values = w.values; names = w.names },
  record { same_ids = x.same_ids; same_values = x.same_values },
)

stored-Makes :
    (c : Context) (inner t : ZedType) (o : Outcome (ZedType × Context))
    → Makes c t o
    → Makes c t (store_string_err inner o)
unfolding store_string_err
stored-Makes c inner t o (d, e, w, x, h) = elim (Bool-cases (is_string inner)) [
  | inl p ↦
      let (w', x') = with_string_err c d t (some t) w x in
      (record d { string_err = some t }, rw e (rw p refl), w', x', h)
  | inr p ↦ (d, rw e (rw p refl), w, x, h)
]

-- A lookup that can refuse, when it answers with `t`.
abbrev pub Gives : Context → ZedType → Outcome ((LookupError ⊎ ZedType) × Context) → Type 0
Gives c t o =
    (d : Context) × (o ≡ ok (inr t, d)) × IsContext d × Extends c d × Holds d.by_id d.to_type t

no_error-Gives :
    (c : Context) (t : ZedType) (o : Outcome (ZedType × Context))
    → Makes c t o
    → Gives c t (no_error o)
no_error-Gives c t o (d, e, w, x, h) = (d, rw e refl, w, x, h)

-- A name may be bound to any type of the context.
binding-Gives :
    (c : Context) (name : Bytes) (t : ZedType) (o : Outcome (ZedType × Context))
    → IsDecodable t
    → Makes c t o
    → Gives c t (binding name o)
unfolding binding put
binding-Gives c name t o dt (d, e, w, x, h) = (
  bind_name name t d,
  rw e refl,
  record {
    complex_ids = w.complex_ids;
    ids = w.ids;
    values = w.values;
    names = λ m u g. elim (get-put_cases name t d.typedefs m u g) [
      | inl (p, q) ↦ rw (← q) (h, dt)
      | inr p ↦ w.names m u p
    ];
  },
  record { same_ids = x.same_ids; same_values = x.same_values },
  h,
)

module _ (c : Context) (w : IsContext c) where
  pub lookup_type_error-Makes :
      (u : ZedType)
      → Holds c.by_id c.to_type u
      → IsDecodable u
      → (i : ℕ) × Makes c (type_error i u) (lookup_type_error u c)
  unfolding lookup_type_error error_or_enter append_type_value value_bytes type_id
  lookup_type_error-Makes u h d =
      let build : ℕ → ZedType = λ i. type_error i u in
      elim (Option-cases (get (append_type_value [] (build 0)) c.to_type)) [
        | inl g ↦
            let m =
              fresh-Makes is_error build c w (λ i. refl) (λ i. refl) (λ i. refl) d
                (λ i e x new. (new, Holds-extends c e x u h))
                (λ t ht dt. same_error c t u ht dt h d) g in
            (next_id c, rw g (stored-Makes c u (build (next_id c)) _ m))
        | inr (t, g) ↦
            let (i, same, m) =
              found-Makes is_error build c w (λ i. refl) (λ i. refl) (λ i. refl) d
                (λ i e x new. (new, Holds-extends c e x u h))
                (λ t ht dt. same_error c t u ht dt h d) t g in
            (i, rw g m)
      ]

  -- The record of these fields, or the refusal of a repeated name.
  pub lookup_type_record-Gives :
      (fs : Fields)
      → HoldsFields c.by_id c.to_type fs
      → IsDecodable (type_record 0 fs)
      → ((i : ℕ) × Gives c (type_record i fs) (lookup_type_record fs c))
        ⊎ ((name : Bytes) × (duplicate_field fs ≡ some name)
            × (lookup_type_record fs c ≡ ok (inl (duplicate_field_error name), c)))
  unfolding lookup_type_record record_or_enter unless_duplicate append_type_value value_bytes
      type_id
  lookup_type_record-Gives fs h d =
      let build : ℕ → ZedType = λ i. type_record i fs in
      elim (Option-cases (get (append_type_value [] (build 0)) c.to_type)) [
        | inl g ↦ elim (Option-cases (duplicate_field fs)) [
          | inl n ↦
              let m =
                fresh-Makes is_record build c w (λ i. refl) (λ i. refl) (λ i. refl) d
                  (λ i e x new. (new, HoldsFields-extends c e x fs h))
                  (λ t ht dt. same_record c t fs ht dt h d) g in
              inl (next_id c, rw g (rw n (no_error-Gives c (build (next_id c)) _ m)))
          | inr (name, n) ↦ inr (name, n, rw g (rw n refl))
        ]
        | inr (t, g) ↦
            let (i, same, m) =
              found-Makes is_record build c w (λ i. refl) (λ i. refl) (λ i. refl) d
                (λ i e x new. (new, HoldsFields-extends c e x fs h))
                (λ t ht dt. same_record c t fs ht dt h d) t g in
            inl (i, rw g (no_error-Gives c (build i) _ m))
      ]

  -- A name that is text and no primitive type's.
  pub lookup_type_named-Gives :
      (name : Bytes) (u : ZedType)
      → valid_string name ≡ true
      → lookup_primitive name ≡ none
      → Holds c.by_id c.to_type u
      → IsDecodable (type_named 0 name u)
      → (i : ℕ) × Gives c (type_named i name u) (lookup_type_named name u c)
  unfolding lookup_type_named append_type_value value_bytes type_id
  lookup_type_named-Gives name u v p h d =
      let (i, m) =
        intern-Makes is_named (λ i. type_named i name u) c w (λ i. refl) (λ i. refl) (λ i. refl) d
          (λ i e x new. (new, v, p, Holds-extends c e x u h))
          (λ t ht dt. same_named c t name u ht dt h d) in
      let (e, same, w', x, h') = binding-Gives c name (type_named i name u) _ d m in
      (i, (e, rw v (rw p same), w', x, h'))

module _ (c : Context) (name : Bytes) (u : ZedType) where
  pub lookup_type_named_invalid :
      valid_string name ≡ false → lookup_type_named name u c ≡ ok (inl invalid_utf8, c)
  unfolding lookup_type_named
  lookup_type_named_invalid p = rw p refl

  pub lookup_type_named_primitive :
      (q : Primitive)
      → valid_string name ≡ true
      → lookup_primitive name ≡ some q
      → lookup_type_named name u c ≡ ok (inl primitive_type_name, c)
  unfolding lookup_type_named
  lookup_type_named_primitive q p e = rw p (rw (e, lookup_type_named) refl)

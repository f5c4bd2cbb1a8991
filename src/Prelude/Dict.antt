-- ===== src/Prelude/Dict.antt =====
-- Go's maps: association lists. A `range` visits the entries in the order of the list; Go leaves
-- that order open, and a theorem about every list covers every order.
use zed.Prelude.{
  ◌≡◌, ◌⊎◌, sym, ap, subst, ◌∙◌, refl, inl, inr, Bool, true, false, Bool-cases, Option, none, some,
  List, [], ◌∷◌, arith, if◌then◌else◌, ◌||◌,
}
use mathlib.Core.Option.{some_inj, some-ne-none}
use zed.Prelude.Eq.{Eq}

abbrev pub Dict {ℓ} : Type ℓ → Type ℓ → Type ℓ
Dict K V = List (K × V)

abbrev pub is_some {ℓ} : {A : Type ℓ} → Option A → Bool
is_some none = false
is_some (some _) = true

abbrev pub keys {ℓ} : {K V : Type ℓ} → Dict K V → List K
keys [] = []
keys ((k, _) ∷ d) = k ∷ keys d

abbrev pub values {ℓ} : {K V : Type ℓ} → Dict K V → List V
values [] = []
values ((_, v) ∷ d) = v ∷ values d

-- What was put hides what was there.
abbrev pub over {ℓ} : {V : Type ℓ} → Option V → Option V → Option V
over none b = b
over (some a) b = some a

module _ {ℓ} {K : Type ℓ} ⦃e : Eq K⦄ where
  abbrev pub mem : K → List K → Bool
  mem k [] = false
  mem k (j ∷ js) = e.beq j k || mem k js

  abbrev pub Distinct : List K → Type 0
  Distinct [] = Unit {0}
  Distinct (k ∷ ks) = (mem k ks ≡ false) × Distinct ks

module _ {ℓ} {K V : Type ℓ} ⦃e : Eq K⦄ where
  unfoldable pub get : K → Dict K V → Option V
  get k [] = none
  get k ((j, v) ∷ d) = if e.beq j k then some v else get k d

  unfoldable pub put : K → V → Dict K V → Dict K V
  put k v [] = (k, v) ∷ []
  put k v ((j, w) ∷ d) = if e.beq j k then (k, v) ∷ d else (j, w) ∷ put k v d

  unfoldable pub remove : K → Dict K V → Dict K V
  remove k [] = []
  remove k ((j, v) ∷ d) = let rest = remove k d in if e.beq j k then rest else (j, v) ∷ rest

  abbrev pub has : K → Dict K V → Bool
  has k d = is_some (get k d)

  -- No key twice.
  abbrev pub IsMap : Dict K V → Type ℓ
  IsMap [] = Unit {ℓ}
  IsMap ((k, v) ∷ d) = (get k d ≡ none) × IsMap d

  pub get-put :
      (k j : K) (v : V) (d : Dict K V) → get j (put k v d) ≡ (if e.beq k j then some v else get j d)
  unfolding get put
  get-put k j v [] = refl
  get-put k j v ((i, w) ∷ d) =
      ground (arith, e.beq_iff k j, e.beq_iff i k, e.beq_iff i j, get-put k j v d)

  pub get-remove :
      (k j : K) (d : Dict K V) → get j (remove k d) ≡ (if e.beq k j then none else get j d)
  unfolding get remove
  get-remove k j [] = ground arith
  get-remove k j ((i, w) ∷ d) =
      ground (arith, e.beq_iff k j, e.beq_iff i k, e.beq_iff i j, get-remove k j d)

  pub IsMap-put : (k : K) (v : V) (d : Dict K V) → IsMap d → IsMap (put k v d)
  unfolding put
  IsMap-put k v [] h = (unfold get in refl, tt)
  IsMap-put k v ((j, w) ∷ d) h = elim (Bool-cases (e.beq j k)) [
    | inl p ↦ rw p (rw (← (e.beq_iff j k).0 p) h.0, h.1)
    | inr p ↦
        rw p
          (ground (arith, h.0, get-put k j v d, e.beq_iff k j, e.beq_iff j k), IsMap-put k v d h.1)
  ]

  pub IsMap-remove : (k : K) (d : Dict K V) → IsMap d → IsMap (remove k d)
  unfolding remove
  IsMap-remove k [] h = tt
  IsMap-remove k ((j, w) ∷ d) h = elim (Bool-cases (e.beq j k)) [
    | inl p ↦ rw p (IsMap-remove k d h.1)
    | inr p ↦
        rw p (
          ground (arith, h.0, get-remove k j d, e.beq_iff k j, e.beq_iff j k),
          IsMap-remove k d h.1,
        )
  ]

  -- `for k, v := range d { out[k] = v }`
  unfoldable pub put_all : Dict K V → Dict K V → Dict K V
  unfolding put
  put_all out [] = out
  put_all out ((k, v) ∷ d) = put_all (put k v out) d

  unfoldable pub remove_all : List K → Dict K V → Dict K V
  unfolding remove
  remove_all [] d = d
  remove_all (k ∷ ks) d = remove_all ks (remove k d)

  pub get-put_all :
      (j : K) (out d : Dict K V) → IsMap d → get j (put_all out d) ≡ over (get j d) (get j out)
  unfolding put_all get
  get-put_all j out [] h = refl
  get-put_all j out ((k, v) ∷ d) h =
      ground (arith, get-put_all j (put k v out) d h.1, get-put k j v out, e.beq_iff k j, h.0)

  pub get-remove_all :
      (j : K) (ks : List K) (d : Dict K V)
      → get j (remove_all ks d) ≡ (if mem j ks then none else get j d)
  unfolding remove_all
  get-remove_all j [] d = refl
  get-remove_all j (k ∷ ks) d = ground (arith, get-remove_all j ks (remove k d), get-remove k j d)

module _ {ℓ} {K V : Type ℓ} ⦃e : Eq K⦄ (k : K) (v : V) (d : Dict K V) where
  pub get-put_self : get k (put k v d) ≡ some v
  get-put_self = get-put k k v d ∙ rw ((e.beq_iff k k).1 refl) refl

  -- What is found after a `put` was put, or was there.
  pub get-put_cases :
      (j : K) (u : V) → get j (put k v d) ≡ some u → ((k ≡ j) × (v ≡ u)) ⊎ (get j d ≡ some u)
  get-put_cases j u h =
      let asked : (if e.beq k j then some v else get j d) ≡ some u = sym (get-put k j v d) ∙ h in
      elim (Bool-cases (e.beq k j)) [
        | inl p ↦ inl (
          (e.beq_iff k j).0 p,
          some_inj.0 (subst (λ b. (if b then some v else get j d) ≡ some u) p asked),
        )
        | inr p ↦ inr (subst (λ b. (if b then some v else get j d) ≡ some u) p asked)
      ]

  -- A key that was not there hides nothing.
  pub get-put_keeps :
      (j : K) (u : V) → get k d ≡ none → get j d ≡ some u → get j (put k v d) ≡ some u
  get-put_keeps j u free h = elim (Bool-cases (e.beq k j)) [
    | inl p ↦
        absurd (some-ne-none u (sym h ∙ (ap (λ i. get i d) (sym ((e.beq_iff k j).0 p)) ∙ free)))
    | inr p ↦ get-put k j v d ∙ rw p h
  ]

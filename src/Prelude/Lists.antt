-- ===== src/Prelude/Lists.antt =====
-- Lists measured by native numbers, under the library's names.
use Prim.Native.Nat.{ℕ, zero, suc, ◌+◌, ◌≤◌, ◌<◌, ◌-◌}
use mathlib.Core.Path.{◌≡◌, refl, ap, sym, ◌∙◌}
use mathlib.Core.Option.{Option, none, some, some_inj}
use mathlib.Core.Logic.{◌⊎◌, inl, inr}
use zed.Prelude.Tests.{◌==◌, if◌then◌else◌}
use mathlib.Core.List.{List, [], ◌∷◌, ◌++◌}
use native.Mathlib.Omega.{arith}

module _ {ℓ} {A : Type ℓ} where
  abbrev pub length : List A → ℕ
  length [] = 0
  length (x ∷ xs) = suc (length xs)

  abbrev pub take : ℕ → List A → List A
  take zero xs = []
  take (suc n) [] = []
  take (suc n) (x ∷ xs) = x ∷ take n xs

  abbrev pub drop : ℕ → List A → List A
  drop zero xs = xs
  drop (suc n) [] = []
  drop (suc n) (x ∷ xs) = drop n xs

  abbrev pub All {κ} : (A → Type κ) → List A → Type κ
  All P [] = Unit {κ}
  All P (x ∷ xs) = P x × All P xs

  pub length-append : (xs ys : List A) → length (xs ++ ys) ≡ length xs + length ys
  length-append [] ys = omega arith
  length-append (x ∷ xs) ys = omega (arith, length-append xs ys)

module _ {ℓ} {A : Type ℓ} where
  -- A cut at the seam of two lists.
  pub take-append_length : (xs ys : List A) → take (length xs) (xs ++ ys) ≡ xs
  take-append_length [] ys = refl
  take-append_length (x ∷ xs) ys = rw (take-append_length xs ys)

  pub drop-append_length : (xs ys : List A) → drop (length xs) (xs ++ ys) ≡ ys
  drop-append_length [] ys = refl
  drop-append_length (x ∷ xs) ys = drop-append_length xs ys

  pub take-append_le : (n : ℕ) (xs ys : List A) → n ≤ length xs → take n (xs ++ ys) ≡ take n xs
  take-append_le zero xs ys h = refl
  take-append_le (suc n) [] ys h = absurd (omega arith)
  take-append_le (suc n) (x ∷ xs) ys h = rw (take-append_le n xs ys (omega arith))

  pub length-take_le : (n : ℕ) (xs : List A) → n ≤ length xs → length (take n xs) ≡ n
  length-take_le zero xs h = refl
  length-take_le (suc n) [] h = absurd (omega arith)
  length-take_le (suc n) (x ∷ xs) h = omega (arith, length-take_le n xs (omega arith))

  pub length-drop : (n : ℕ) (xs : List A) → length (drop n xs) ≡ length xs - n
  length-drop zero xs = omega arith
  length-drop (suc n) [] = omega arith
  length-drop (suc n) (x ∷ xs) = omega (arith, length-drop n xs)

  pub take-append-drop : (n : ℕ) (xs : List A) → take n xs ++ drop n xs ≡ xs
  take-append-drop zero xs = refl
  take-append-drop (suc n) [] = refl
  take-append-drop (suc n) (x ∷ xs) = rw (take-append-drop n xs)

module _ {ℓ} {A : Type ℓ} where
  abbrev pub get_elem? : List A → ℕ → Option A
  get_elem? [] i = none
  get_elem? (x ∷ xs) zero = some x
  get_elem? (x ∷ xs) (suc i) = get_elem? xs i

  pub get_elem?-lt :
      (xs : List A) (i : ℕ)
      → i < length xs
      → (a : A) × (get_elem? xs i ≡ some a)
        × (drop i xs ≡ a ∷ drop (suc i) xs)
        × (take (suc i) xs ≡ take i xs ++ (a ∷ []))
  get_elem?-lt [] i h = absurd (omega arith)
  get_elem?-lt (x ∷ xs) zero h = (x, refl, refl, refl)
  get_elem?-lt (x ∷ xs) (suc i) h =
      let (a, e, d, t) = get_elem?-lt xs i (omega arith) in (a, e, d, ap (λ r. x ∷ r) t)

  pub take-add : (m n : ℕ) (xs : List A) → take (m + n) xs ≡ take m xs ++ take n (drop m xs)
  take-add zero n xs = let e : zero + n ≡ n = omega arith in rw e
  take-add (suc m) n [] = nil (suc m + n) ∙ sym (nil n)
    where
      nil : (k : ℕ) → ◌≡◌ {A = List A} (take k []) []
      nil zero = refl
      nil (suc k) = refl
  take-add (suc m) n (x ∷ xs) =
      let e : suc m + n ≡ suc (m + n) = omega arith in rw e (ap (λ r. x ∷ r) (take-add m n xs))

  pub take-length : (xs : List A) → take (length xs) xs ≡ xs
  take-length [] = refl
  take-length (x ∷ xs) = ap (λ r. x ∷ r) (take-length xs)

  pub get_elem?-append :
      (xs : List A) (a : A) (i : ℕ)
      → get_elem? (xs ++ (a ∷ [])) i ≡ (if i == length xs then some a else get_elem? xs i)
  get_elem?-append [] a zero = refl
  get_elem?-append [] a (suc i) = ground arith
  get_elem?-append (x ∷ xs) a zero = ground arith
  get_elem?-append (x ∷ xs) a (suc i) = ground (arith, get_elem?-append xs a i)

  pub get_elem?-ge : (xs : List A) (i : ℕ) → length xs ≤ i → get_elem? xs i ≡ none
  get_elem?-ge [] i h = refl
  get_elem?-ge (x ∷ xs) zero h = absurd (omega arith)
  get_elem?-ge (x ∷ xs) (suc i) h = get_elem?-ge xs i (omega arith)

  pub get_elem?-append_keeps :
      (xs ys : List A) (i : ℕ) (a : A) → get_elem? xs i ≡ some a → get_elem? (xs ++ ys) i ≡ some a
  get_elem?-append_keeps [] ys i a h = absurd (cc)
  get_elem?-append_keeps (x ∷ xs) ys zero a h = h
  get_elem?-append_keeps (x ∷ xs) ys (suc i) a h = get_elem?-append_keeps xs ys i a h

  pub get_elem?-append_last :
      (xs : List A) (a : A) → get_elem? (xs ++ (a ∷ [])) (length xs) ≡ some a
  get_elem?-append_last [] a = refl
  get_elem?-append_last (x ∷ xs) a = get_elem?-append_last xs a

  pub get_elem?-append_cases :
      (xs : List A) (a b : A) (i : ℕ)
      → get_elem? (xs ++ (a ∷ [])) i ≡ some b
      → ((i ≡ length xs) × (a ≡ b)) ⊎ (get_elem? xs i ≡ some b)
  get_elem?-append_cases [] a b zero h = inl (refl, some_inj.0 h)
  get_elem?-append_cases [] a b (suc i) h = inr h
  get_elem?-append_cases (x ∷ xs) a b zero h = inr h
  get_elem?-append_cases (x ∷ xs) a b (suc i) h = elim (get_elem?-append_cases xs a b i h) [
    | inl (p, q) ↦ inl (ap suc p, q)
    | inr p ↦ inr p
  ]

-- ===== src/Prelude/Eq.antt =====
-- Go's `==` on the types that the code compares.
use Prim.Native.String.{String}
use text.Mathlib.Text.{◌==◌ as str_eq}
use text.Mathlib.TextEquality.{eq_iff}
use zed.Prelude.{ℕ, ◌≡◌, ◌↔◌, Bool, true, false, ==_iff, ◌==◌, ◌&&◌, List, [], ◌∷◌, arith}

pub record Eq {ℓ} (A : Type ℓ) : Type ℓ where
  pub beq : (x y : A) → Bool
  pub beq_iff : (x y : A) → (beq x y ≡ true) ↔ (x ≡ y)

abbrev pub beq {ℓ} : {T : Type ℓ} ⦃same : Eq T⦄ (x y : T) → Bool
beq ⦃same⦄ x y = same.beq x y

abbrev pub nat_beq : (m n : ℕ) → Bool
nat_beq m n = m == n

instance abbrev pub nat_eq : Eq ℕ
nat_eq = record { beq = nat_beq; beq_iff = ==_iff }

instance abbrev pub string_eq : Eq String
string_eq = record { beq = str_eq; beq_iff = eq_iff }

-- Go strings and byte slices, element by element.
abbrev pub list_beq : (xs ys : List ℕ) → Bool
list_beq [] [] = true
list_beq (x ∷ xs) (y ∷ ys) = (x == y) && list_beq xs ys
list_beq _ _ = false

pub list_beq_iff : (xs ys : List ℕ) → (list_beq xs ys ≡ true) ↔ (xs ≡ ys)
list_beq_iff [] [] = ground arith
list_beq_iff [] (y ∷ ys) = ground arith
list_beq_iff (x ∷ xs) [] = ground arith
list_beq_iff (x ∷ xs) (y ∷ ys) = ground (arith, list_beq_iff xs ys)

instance abbrev pub list_eq : Eq (List ℕ)
list_eq = record { beq = list_beq; beq_iff = list_beq_iff }

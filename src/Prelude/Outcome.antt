-- ===== src/Prelude/Outcome.antt =====
-- Go code that returns or panics: a slice expression out of range, an index past the end, or an
-- explicit `panic`.
use zed.Prelude.{ℕ, ◌-◌, List, ◌&&◌, leb, length, take, drop, if◌then◌else◌}

pub data Outcome {ℓ} (A : Type ℓ) : Type ℓ where
  ok : A → Outcome A
  panic : Outcome A

infixl 5 ◌>>=◌
abbrev pub ◌>>=◌ {ℓ κ} : {A : Type ℓ} {B : Type κ} → Outcome A → (A → Outcome B) → Outcome B
ok a >>= f = f a
panic >>= f = panic

-- `s[lo:hi]`. Go bounds `hi` by the capacity, which is at least the length; where the code also
-- takes `s[hi:]`, the bound is the length.
abbrev pub slice {ℓ} : {A : Type ℓ} → List A → ℕ → ℕ → Outcome (List A)
slice s lo hi = if leb lo hi && leb hi (length s) then ok (take (hi - lo) (drop lo s)) else panic

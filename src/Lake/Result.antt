-- ===== src/Lake/Result.antt =====
-- Go's `(value, error)` pairs of the lake. An error is told apart as far as the code tells it apart,
-- by the sentinel that it wraps or by the message's place in the code.
use zed.Lake.Journal.Queue.{JournalError}
use zed.Prelude.{ℕ, ◌≡◌, refl, Bool, true, false, if◌then◌else◌}

pub data Error : Type 0 where
  -- commits.ErrWriteConflict, ErrExists, ErrNotFound, ErrBadCommitObject
  write_conflict exists not_found bad_commit_object : Error
  -- The errors of Diff and Patch.Revert.
  parent_deletes delete_conflict : ℕ → Error
  empty_difference empty_revert : Error
  -- commits.ErrEmptyTransaction, and the vector errors of lake/branch.go
  empty_transaction : Error
  no_such_object vector_exists no_such_vector : ℕ → Error
  -- The errors of the commit store's paths and of the branch operations.
  no_path pathless no_ancestor no_rollup merge_self commit_failed : Error
  -- fs.ErrNotExist of a storage engine; and a model's loop that ran out of rounds.
  no_file endless : Error
  -- The errors of branches.Store, and those that a journal passes on.
  branch_not_found branch_changed : Error
  journal_error : JournalError → Error
  -- The errors of pools.Store.
  pool_exists pool_not_found pool_renamed : Error

pub data Result {ℓ} (A : Type ℓ) : Type ℓ where
  ok : A → Result A
  err : Error → Result A

-- `err == nil`
abbrev pub is_ok {ℓ} : {A : Type ℓ} → Result A → Bool
is_ok (ok _) = true
is_ok (err _) = false

infixl 5 ◌>>=◌
abbrev pub ◌>>=◌ {ℓ κ} : {S : Type ℓ} {T : Type κ} → Result S → (S → Result T) → Result T
err reason >>= next = err reason
ok value >>= next = next value

pub >>=_assoc {ℓ κ λ'} :
    {A : Type ℓ} {B : Type κ} {C : Type λ'} (m : Result A) (f : A → Result B) (g : B → Result C)
    → (m >>= f >>= g) ≡ (m >>= λ a. f a >>= g)
>>=_assoc (ok a) f g = refl
>>=_assoc (err e) f g = refl

pub >>=-eq_ok {ℓ κ} :
    {S : Type ℓ} {T : Type κ} (r : Result S) (next : S → Result T) {t : T}
    → (r >>= next) ≡ ok t
    → (s : S) × (r ≡ ok s) × (next s ≡ ok t)
>>=-eq_ok (err reason) next h = cc
>>=-eq_ok (ok value) next h = (value, refl, h)

-- What a run returns has `P`, if it returns.
abbrev pub Ensures {ℓ} : {A : Type ℓ} → (A → Type 0) → Result A → Type 0
Ensures P (ok a) = P a
Ensures P (err e) = Unit {0}

module _ {ℓ} {A : Type ℓ} (P : A → Type 0) where
  pub Ensures-ok : (r : Result A) {a : A} → Ensures P r → r ≡ ok a → P a
  Ensures-ok (ok b) {a} h e = let q : b ≡ a = cc in rw (← q) h
  Ensures-ok (err x) h e = cc

  pub Ensures-if :
      (b : Bool) (r q : Result A)
      → (b ≡ true → Ensures P r)
      → (b ≡ false → Ensures P q)
      → Ensures P (if b then r else q)
  Ensures-if true r q h k = h refl
  Ensures-if false r q h k = k refl

  pub Ensures-bind {κ} :
      {B : Type κ} (Q : B → Type 0) (m : Result B) (f : B → Result A)
      → Ensures Q m
      → ((b : B) → Q b → Ensures P (f b))
      → Ensures P (m >>= f)
  Ensures-bind Q (ok b) f h k = k b h
  Ensures-bind Q (err e) f h k = tt

-- ===== src/Lake/Journal/Transaction.antt =====
-- lake/journal/store.go: the operations of a store, which read the table or run a transaction. What
-- other processes do to the journal between a transaction's load and its write is an argument.
pub mod Effect
pub mod Serial
pub mod Grows
pub mod Keeps
pub mod Alone
use zed.Prelude.{
  ℕ, zero, suc, ◌-◌, List, [], ◌∷◌, Bool, true, false, Option, none, some, if◌then◌else◌,
}
use zed.Prelude.Eq.{Eq}
use zed.Prelude.Dict.{Dict, get, has, keys, values}
use zed.Lake.Journal.Queue.{
  Result, JournalError, ok, err, exist, not_exist, key_exists, no_such_key, constraint,
  retries_exceeded, bad_update, ◌>>=◌, commit_at, nil_id,
}
use zed.Lake.Journal.Store.{StoreEntry, add, update, delete, Store, Journal, max_retries, load}

-- The outcome of an operation, with the store and the journal that it leaves.
abbrev pub Outcome : Type 0 → Type 0 → Type 0 → Type 0
Outcome K V A = Result A × Store K V × Journal K V

-- The check that a transaction makes under the lock: an error, or none.
abbrev pub Check : Type 0 → Type 0 → Type 0
Check K V = Dict K V → Option JournalError

-- A nil constraint is `none`.
unfoldable pub passes : {V : Type 0} → Option (V → Bool) → V → Bool
passes none v = true
passes (some c) v = c v

module _ {K V : Type 0} ⦃e : Eq K⦄ where
  unfoldable pub insert_check : (V → K) → V → Check K V
  insert_check key v table = if has (key v) table then some key_exists else none

  unfoldable pub move_check : (V → K) → K → V → Check K V
  move_check key old_key v table =
      if has old_key table
      then (if has (key v) table then some key_exists else none)
      else some no_such_key

  unfoldable pub constraint_check : K → Option (V → Bool) → Check K V
  unfolding passes
  constraint_check key c table = elim (get key table) [
    | none ↦ some no_such_key
    | some old ↦ if passes c old then none else some constraint
  ]

-- `os.IsExist` of the error of `CommitAt`; a success drops the store's position.
unfoldable pub finish :
    {K V : Type 0}
    → Store K V
    → Journal K V
    → Result (Journal K V)
    → Outcome K V (Unit {0})
    → Outcome K V (Unit {0})
finish s q (ok q') again = (ok tt, record s { at_id = nil_id }, q')
finish s q (err exist) again = again
finish s q (err x) again = (err x, s, q)

-- A failed load or check ends the transaction, and leaves the state as the failure found it.
unfoldable pub loaded :
    {K V : Type 0}
    → Result (Store K V × Journal K V)
    → Store K V
    → Journal K V
    → (Store K V → Journal K V → Outcome K V (Unit {0}))
    → Outcome K V (Unit {0})
loaded (ok (s', q')) s q next = next s' q'
loaded (err x) s q next = (err x, s, q)

unfoldable pub checked :
    {K V : Type 0}
    → Option JournalError
    → Store K V
    → Journal K V
    → Outcome K V (Unit {0})
    → Outcome K V (Unit {0})
checked none s q next = next
checked (some x) s q next = (err x, s, q)

module _ {K V : Type 0} ⦃e : Eq K⦄ (key : V → K) (supported : Bool)
    (others : ℕ → Journal K V → Journal K V) (check : Check K V)
    (entries : List (StoreEntry K V)) where
  -- The loop of `commit`, with the attempts that are left.
  unfoldable pub commit_loop : ℕ → Store K V → Journal K V → Outcome K V (Unit {0})
  unfolding finish loaded checked load
  commit_loop zero s q = (err retries_exceeded, s, q)
  commit_loop (suc n) s q = loaded (load key s q) s q λ s' q'. checked (check s'.table) s' q' (
      finish s' (others n q') (commit_at supported s'.at_id entries (others n q'))
        (commit_loop n s' (others n q')))

  unfoldable pub commit : Store K V → Journal K V → Outcome K V (Unit {0})
  unfolding commit_loop
  commit s q = commit_loop max_retries s q

module _ {K V : Type 0} ⦃e : Eq K⦄ (key : V → K) (supported : Bool)
    (others : ℕ → Journal K V → Journal K V) where
  unfoldable pub insert : V → Store K V → Journal K V → Outcome K V (Unit {0})
  unfolding insert_check commit
  insert v = commit key supported others (insert_check key v) (add v ∷ [])

  unfoldable pub move : K → V → Store K V → Journal K V → Outcome K V (Unit {0})
  unfolding move_check commit
  move old_key v =
      commit key supported others (move_check key old_key v) (delete old_key ∷ add v ∷ [])

  unfoldable pub delete_key :
      K → Option (V → Bool) → Store K V → Journal K V → Outcome K V (Unit {0})
  unfolding constraint_check commit
  delete_key k c = commit key supported others (constraint_check k c) (delete k ∷ [])

  unfoldable pub update_value :
      V → Option (V → Bool) → Store K V → Journal K V → Outcome K V (Unit {0})
  unfolding constraint_check commit
  update_value v c = commit key supported others (constraint_check (key v) c) (update v ∷ [])

module _ {K V : Type 0} ⦃e : Eq K⦄ (key : V → K) where
  -- `load`, then a view of the table: `Keys`, and `Values` and `All`.
  unfoldable pub after_load {ℓ} :
      {A : Type ℓ}
      → (Dict K V → Result A)
      → Store K V
      → Journal K V
      → Result A × Store K V × Journal K V
  unfolding load
  after_load f s q = elim (load key s q) [
    | err x ↦ (err x, s, q)
    | ok (s', q') ↦ (f s'.table, s', q')
  ]

  unfoldable pub keys_of : Store K V → Journal K V → Outcome K V (List K)
  unfolding after_load
  keys_of = after_load (λ t. ok (keys t))

  unfoldable pub all_of : Store K V → Journal K V → Outcome K V (List V)
  unfolding after_load
  all_of = after_load (λ t. ok (values t))

  unfoldable pub find : K → Dict K V → Result V
  find k t = elim (get k t) [ none ↦ err no_such_key | some v ↦ ok v ]

  -- `Lookup`; the first argument says whether the table is older than a second.
  unfoldable pub lookup : Bool → K → Store K V → Journal K V → Outcome K V V
  unfolding after_load find
  lookup true k s q = after_load (find k) s q
  lookup false k s q = elim (get k s.table) [
    | some v ↦ (ok v, s, q)
    | none ↦ after_load (find k) s q
  ]

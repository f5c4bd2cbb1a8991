-- ===== src/Lake/Journal/Store.antt =====
-- lake/journal/store.go: a table of configurations, rebuilt from the journal, and its transactions.
pub mod Replay
pub mod Log
pub mod Load
use zed.Prelude.{
  ℕ, zero, suc, ◌+◌, ◌-◌, ◌%◌, ◌^◌, List, [], ◌∷◌, ◌++◌, Bool, true, false, Option, none, some,
  if◌then◌else◌, ◌==◌, ltb, ◌&&◌, not,
}
use zed.Prelude.Eq.{Eq}
use zed.Prelude.Dict.{Dict, get, put, remove, has, keys, values}
use zed.Lake.Journal.Queue.{
  Queue, Result, JournalError, ok, err, exist, not_exist, key_exists, no_such_key, constraint,
  retries_exceeded, bad_update, ◌>>=◌, read_head, commit_at, open_files, nil_id,
}

-- The structs `Add`, `Update` and `Delete`. `V` is the type of the configurations and `K` that of
-- their keys.
pub data StoreEntry (K V : Type 0) : Type 0 where
  add : V → StoreEntry K V
  update : V → StoreEntry K V
  delete : K → StoreEntry K V

-- A snapshot: the journal position, and the table there.
abbrev pub TableSnapshot : Type 0 → Type 0 → Type 0
TableSnapshot K V = ℕ × Dict K V

abbrev pub Journal : Type 0 → Type 0 → Type 0
Journal K V = Queue (StoreEntry K V) (TableSnapshot K V)

-- The fields that the lock protects, but for the time of the last load.
pub record Store (K V : Type 0) : Type 0 where
  pub table : Dict K V
  pub at_id : ℕ

abbrev pub max_retries : ℕ
max_retries = 10

-- `getSnapshot` of a snapshot that is whole or not there: with none, the position is `Nil` and the
-- table is empty.
unfoldable pub get_snapshot : {K V : Type 0} → Journal K V → TableSnapshot K V
get_snapshot q = elim q.snap [ none ↦ (nil_id, []) | some s ↦ s ]

unfoldable pub put_snapshot : {K V : Type 0} → ℕ → Dict K V → Journal K V → Journal K V
put_snapshot at' table q = record q { snap = some (at', table) }

-- `head-at > 10` on uint64.
unfoldable pub far_behind : ℕ → ℕ → Bool
far_behind head at' = ltb 10 ((head + 2 ^ 64 - at') % 2 ^ 64)

-- `Entry.Key` comes from the type of the configurations.
module _ {K V : Type 0} ⦃e : Eq K⦄ (key : V → K) where
  -- The switch in `load` on one entry.
  unfoldable pub apply_entry : StoreEntry K V → Dict K V → Result (Dict K V)
  apply_entry (add v) table = ok (put (key v) v table)
  apply_entry (update v) table =
      if has (key v) table then ok (put (key v) v table) else err bad_update
  apply_entry (delete k) table = ok (remove k table)

  unfoldable pub apply_file : List (StoreEntry K V) → Dict K V → Result (Dict K V)
  unfolding apply_entry
  apply_file [] table = ok table
  apply_file (x ∷ xs) table = apply_entry x table >>= λ table'. apply_file xs table'

  unfoldable pub apply_files : List (List (StoreEntry K V)) → Dict K V → Result (Dict K V)
  unfolding apply_file
  apply_files [] table = ok table
  apply_files (b ∷ bs) table = apply_file b table >>= λ table'. apply_files bs table'

  -- What `load` does once it knows that the table is not current: the files from the snapshot's
  -- position to the head are applied to the snapshot's table.
  unfoldable pub reload : ℕ → Journal K V → Result (Store K V × Journal K V)
  unfolding get_snapshot apply_files far_behind put_snapshot
  reload head q =
      let snap = get_snapshot q in
      open_files head snap.0 q >>= λ bs. apply_files bs snap.1 >>= λ table. ok (
        record { table = table; at_id = head },
        (if far_behind head snap.0 then put_snapshot head table q else q),
      )

  unfoldable pub load : Store K V → Journal K V → Result (Store K V × Journal K V)
  unfolding reload
  load s q = if read_head q == s.at_id then ok (s, q) else reload (read_head q) q

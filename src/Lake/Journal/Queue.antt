-- ===== src/Lake/Journal/Queue.antt =====
-- lake/journal/queue.go and reader.go. The objects that a queue keeps in its storage engine: HEAD
-- and TAIL, parsed, the journal's files by number, and the snapshot of the table above. `Entry` is
-- what a file decodes to.
use zed.Prelude.{
  ◌≡◌, refl, ℕ, zero, suc, ◌+◌, ◌-◌, List, [], ◌∷◌, Bool, Option, none, some, if◌then◌else◌, ◌==◌,
  ◌||◌,
}
use zed.Prelude.Eq.{nat_eq}
use zed.Prelude.Dict.{Dict, get, put, has}

pub data JournalError : Type 0 where
  -- fs.ErrExist of PutIfNotExists, and fs.ErrNotExist of Get
  exist not_exist : JournalError
  -- The errors of journal.Store.
  key_exists no_such_key constraint retries_exceeded bad_update : JournalError

pub data Result {ℓ} (A : Type ℓ) : Type ℓ where
  ok : A → Result A
  err : JournalError → Result A

infixl 5 ◌>>=◌
abbrev pub ◌>>=◌ {ℓ κ} : {S : Type ℓ} {T : Type κ} → Result S → (S → Result T) → Result T
err reason >>= next = err reason
ok value >>= next = next value

pub >>=-eq_ok {ℓ κ} :
    {S : Type ℓ} {T : Type κ} (r : Result S) (next : S → Result T) {t : T}
    → (r >>= next) ≡ ok t
    → (s : S) × (r ≡ ok s) × (next s ≡ ok t)
>>=-eq_ok (err reason) next h = cc
>>=-eq_ok (ok value) next h = (value, refl, h)

-- An ID, a uint64; `Nil` is 0.
abbrev pub nil_id : ℕ
nil_id = 0

pub record Queue (Entry Snap : Type 0) : Type 0 where
  pub head : ℕ
  pub tail : ℕ
  pub base : ℕ
  pub files : Dict ℕ (List Entry)
  pub snap : Option Snap

module _ {Entry Snap : Type 0} where
  -- `Create` on an empty path.
  abbrev pub create : ℕ → Queue Entry Snap
  create base = record { head = nil_id; tail = 1; base = base; files = []; snap = none }

  unfoldable pub read_head : Queue Entry Snap → ℕ
  read_head q = q.head

  unfoldable pub write_head : ℕ → Queue Entry Snap → Queue Entry Snap
  write_head id q = record q { head = id }

  unfoldable pub move_tail : ℕ → ℕ → Queue Entry Snap → Queue Entry Snap
  move_tail id base q = record q { tail = id; base = base }

  unfoldable pub boundaries : Queue Entry Snap → ℕ × ℕ
  boundaries q = (q.head, q.tail)

  -- `engine.PutIfNotExists` of the file `id`; and `engine.Put`, where that is not supported.
  unfoldable pub put_if_not_exists : ℕ → List Entry → Queue Entry Snap → Result (Queue Entry Snap)
  put_if_not_exists id b q =
      if has id q.files then err exist else ok (record q { files = put id b q.files })

  unfoldable pub put_file : ℕ → List Entry → Queue Entry Snap → Queue Entry Snap
  put_file id b q = record q { files = put id b q.files }

  -- `CommitAt`; `supported` says whether the engine has `PutIfNotExists`.
  unfoldable pub commit_at : Bool → ℕ → List Entry → Queue Entry Snap → Result (Queue Entry Snap)
  unfolding put_if_not_exists put_file write_head
  commit_at supported at' b q =
      (if supported then put_if_not_exists (at' + 1) b q else ok (put_file (at' + 1) b q)) >>= λ q'.
      ok (write_head (at' + 1) q')

  -- `Commit`, with the new ID.
  unfoldable pub commit : Bool → List Entry → Queue Entry Snap → Result (ℕ × Queue Entry Snap)
  unfolding commit_at read_head
  commit supported b q = commit_at supported (read_head q) b q >>= λ q'. ok (read_head q + 1, q')

  unfoldable pub load_file : ℕ → Queue Entry Snap → Result (List Entry)
  load_file id q = elim (get id q.files) [ none ↦ err not_exist | some b ↦ ok b ]

  -- The reader's `fill` until its cursor meets the stop: `n` files from the one after `cursor`.
  unfoldable pub read_files : ℕ → ℕ → Queue Entry Snap → Result (List (List Entry))
  unfolding load_file
  read_files zero cursor q = ok []
  read_files (suc n) cursor q =
      load_file (cursor + 1) q >>= λ b. read_files n (cursor + 1) q >>= λ bs. ok (b ∷ bs)

  -- `Open` and the reading of the whole. A head or tail of `Nil` is read from the engine. Of a TAIL
  -- of 0 the cursor `tail - 1` wraps to the greatest uint64, where the reader is at its end.
  unfoldable pub open_files : ℕ → ℕ → Queue Entry Snap → Result (List (List Entry))
  unfolding read_files
  open_files head tail q =
      let head' = if head == nil_id then q.head else head in
      let tail' = if tail == nil_id then q.tail else tail in
      if head' == nil_id || tail' == nil_id
      then ok []
      else read_files (head' - (tail' - 1)) (tail' - 1) q

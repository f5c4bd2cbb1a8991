-- ===== src/Lake/Journal/Transaction/Alone.antt =====
-- A transaction that no other writer disturbs.
use zed.Prelude.{
  ℕ, ◌+◌, ◌≡◌, refl, ◌∙◌, List, [], ◌∷◌, ◌++◌, true, false, none, arith, length, get_elem?-ge,
}
use zed.Prelude.Eq.{Eq, nat_eq}
use zed.Prelude.Dict.{Dict, put, has}
use zed.Lake.Journal.Queue.{ok, commit_at, put_if_not_exists, write_head}
use zed.Lake.Journal.Store.{StoreEntry, Store, Journal}
use zed.Lake.Journal.Store.Log.{TableAt, IsReplayable, IsJournal, IsCurrent}
use zed.Lake.Journal.Store.Load.{load_table}
use zed.Lake.Journal.Transaction.{Check, finish, loaded, checked, commit_loop, commit}
use zed.Lake.Journal.Transaction.Effect.{commit_at_ok}

-- Nothing happens between a load and a write.
abbrev pub undisturbed : {K V : Type 0} → ℕ → Journal K V → Journal K V
undisturbed n q = q

module _ {K V : Type 0} ⦃e : Eq K⦄ (key : V → K) where
  -- A write behind the last file succeeds, and moves the head to it.
  write_succeeds :
      (log : List (List (StoreEntry K V))) (q : Journal K V) (b : List (StoreEntry K V))
      → IsJournal key log q
      → (q' : Journal K V) × (commit_at true (length log) b q ≡ ok q') × (q'.head ≡ length log + 1)
  unfolding commit_at put_if_not_exists write_head
  write_succeeds log q b j =
      let free : has (length log + 1) q.files ≡ false =
        rw (j.files (length log) ∙ get_elem?-ge log (length log) (omega arith)) refl in
      (
        record q { files = put (length log + 1) b q.files; head = length log + 1 },
        rw free refl,
        refl,
      )

  -- Let the journal hold a log that can be replayed, up to its head, and let the check pass on every
  -- table with the contents of the log. Then a transaction that no other writer disturbs succeeds,
  -- with `PutIfNotExists`: the journal holds the log with the transaction's file behind it, and the
  -- head is at that file.
  pub commit_succeeds :
      (check : Check K V) (entries : List (StoreEntry K V)) (log : List (List (StoreEntry K V)))
      (s : Store K V) (q : Journal K V)
      → IsReplayable key log
      → IsJournal key log q
      → IsCurrent key log q s
      → q.head ≡ length log
      → ((t : Dict K V) → TableAt key log (length log) t → check t ≡ none)
      → (s' : Store K V) × (q' : Journal K V) × (commit key true undisturbed check entries s q
          ≡ (ok tt, s', q'))
        × IsJournal key (log ++ (entries ∷ [])) q'
        × (q'.head ≡ length log + 1)
  unfolding commit commit_loop loaded checked finish
  commit_succeeds check entries log s q r j c at_end passes =
      let (s₁, q₁, l, at_head, t, j₁, fs, hd) = load_table key log r s q j c in
      let end : s₁.at_id ≡ length log = at_head ∙ at_end in
      let (q₂, w, head) = write_succeeds log q₁ entries j₁ in
      let (_, j₂) = commit_at_ok key log q₁ q₂ (length log) entries j₁ (omega arith) w in
      let p : check s₁.table ≡ none = passes s₁.table (rw (← at_end) t) in
      (
        record s₁ { at_id = 0 },
        q₂,
        rw (l, loaded) (rw (p, checked) (rw (end, w, finish) refl)),
        j₂,
        head,
      )

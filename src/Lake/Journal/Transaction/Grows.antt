-- ===== src/Lake/Journal/Transaction/Grows.antt =====
-- The log of the journal that a transaction of lake/journal/store.go leaves.
use zed.Prelude.{
  ℕ, zero, suc, ◌+◌, ◌≤◌, ◌≡◌, refl, sym, subst, List, [], ◌∷◌, ◌++◌, true, Option, none, some,
  arith, Bool-cases, inl, inr, length, get_elem?-append, take-length, length-append, ◌==◌,
  append-nil, append_assoc,
}
use zed.Prelude.Eq.{Eq}
use zed.Prelude.Dict.{Dict}
use zed.Lake.Journal.Queue.{
  Result, JournalError, ok, err, exist, commit_at, put_if_not_exists, write_head,
}
use zed.Lake.Journal.Store.{StoreEntry, Store, Journal, max_retries, load, apply_file, apply_files}
use zed.Lake.Journal.Store.Replay.{
  IsTransaction, SameResult, apply_files-append, apply_files-one, file-same,
}
use zed.Lake.Journal.Store.Log.{TableAt, IsReplayable, IsJournal, IsCurrent, same_ok}
use zed.Lake.Journal.Transaction.{Outcome, Check, finish, loaded, checked, commit_loop, commit}
use zed.Lake.Journal.Transaction.Effect.{Extends, Cooperate, commit_at_ok, TableAt-append}
use zed.Lake.Journal.Transaction.Serial.{load-Loaded, current}

module _ {K V : Type 0} ⦃e : Eq K⦄ (key : V → K) where
  -- A store and a journal between operations.
  pub record IsSound (s : Store K V) (q : Journal K V) : Type 0 where
    pub log : List (List (StoreEntry K V))
    pub replayable : IsReplayable key log
    pub journal : IsJournal key log q
    pub current : IsCurrent key log q s

  -- The state that an operation leaves.
  abbrev pub Kept : Outcome K V (Unit {0}) → Type 0
  Kept (_, s, q) = IsSound s q

  -- A sound store and journal whose log is `start` with more behind it.
  pub record Grown (start : List (List (StoreEntry K V))) (s : Store K V) (q : Journal K V)
      : Type 0 where
    pub more : List (List (StoreEntry K V))
    pub replayable : IsReplayable key (start ++ more)
    pub journal : IsJournal key (start ++ more) q
    pub current : IsCurrent key (start ++ more) q s

  Grown-Sound :
      (start : List (List (StoreEntry K V))) (s : Store K V) (q : Journal K V)
      → Grown start s q
      → IsSound s q
  Grown-Sound start s q g = record {
    log = start ++ g.more;
    replayable = g.replayable;
    journal = g.journal;
    current = g.current;
  }

  Grown-none :
      (start : List (List (StoreEntry K V))) (s : Store K V) (q : Journal K V)
      → IsReplayable key start
      → IsJournal key start q
      → IsCurrent key start q s
      → Grown start s q
  Grown-none start s q r j c = record {
    more = [];
    replayable = rw append-nil r;
    journal = rw append-nil j;
    current = rw append-nil c;
  }

  Grown-more :
      (start more : List (List (StoreEntry K V))) (s : Store K V) (q : Journal K V)
      → Grown (start ++ more) s q
      → Grown start s q
  Grown-more start more s q g = record {
    more = more ++ g.more;
    replayable = rw (← append_assoc start more g.more) g.replayable;
    journal = rw (← append_assoc start more g.more) g.journal;
    current = rw (← append_assoc start more g.more) g.current;
  }

  abbrev pub KeptFrom : List (List (StoreEntry K V)) → Outcome K V (Unit {0}) → Type 0
  KeptFrom start (_, s, q) = Grown start s q

  -- What a check lets through can be applied.
  abbrev pub Accepts : Check K V → List (StoreEntry K V) → Type 0
  Accepts check entries =
      IsTransaction entries
      × ((t : Dict K V) → check t ≡ none → (u : Dict K V) × (apply_file key entries t ≡ ok u))

  head-commit_at :
      (at' : ℕ) (b : List (StoreEntry K V)) (q q' : Journal K V)
      → commit_at true at' b q ≡ ok q'
      → q'.head ≡ at' + 1
  unfolding commit_at put_if_not_exists write_head
  head-commit_at at' b q q' h = ground arith

  IsReplayable-snoc :
      (log : List (List (StoreEntry K V))) (b : List (StoreEntry K V)) (t u : Dict K V)
      → IsReplayable key log
      → IsTransaction b
      → TableAt key log (length log) t
      → apply_file key b t ≡ ok u
      → IsReplayable key (log ++ (b ∷ []))
  IsReplayable-snoc log b t u good tx a h =
      let total : apply_files key log [] ≡ ok a.total = rw (take-length log) at a.adds_up in
      let (w, p, sm) = same_ok key (apply_file key b a.total) u (
        subst (SameResult key (apply_file key b a.total)) h
          (file-same key b a.total t (λ k. sym (a.same k)))) in
      record {
        transactions = λ i b' g. elim (Bool-cases (i == length log)) [
          | inl q ↦
              let p' : b ≡ b' = (let z = rw (get_elem?-append log b i, q) at g in cc) in
              subst IsTransaction p' tx
          | inr q ↦ good.transactions i b' (rw (get_elem?-append log b i, q) at g)
        ];
        total = w;
        adds_up =
            rw (apply_files-append key log (b ∷ []) [], total, apply_files-one key b a.total) p;
      }

module _ {K V : Type 0} ⦃e : Eq K⦄ (key : V → K) (others : ℕ → Journal K V → Journal K V)
    (check : Check K V) (entries : List (StoreEntry K V)) (fair : Cooperate key others)
    (accepts : Accepts key check entries) where
  module _ (start : List (List (StoreEntry K V))) where
    finish-Kept :
        (s : Store K V) (q : Journal K V) (r : Result (Journal K V))
        (again : Outcome K V (Unit {0}))
        → Grown key start s q
        → ((q' : Journal K V) → r ≡ ok q' → Grown key start (record s { at_id = 0 }) q')
        → KeptFrom key start again
        → KeptFrom key start (finish s q r again)
    unfolding finish
    finish-Kept s q (ok q') again d h g = h q' refl
    finish-Kept s q (err exist) again d h g = g
    finish-Kept s q (err _) again d h g = d

    loaded-Kept :
        (r : Result (Store K V × Journal K V)) (s : Store K V) (q : Journal K V)
        (next : Store K V → Journal K V → Outcome K V (Unit {0}))
        → Grown key start s q
        → ((s' : Store K V) (q' : Journal K V) → r ≡ ok (s', q') → KeptFrom key start (next s' q'))
        → KeptFrom key start (loaded r s q next)
    unfolding loaded
    loaded-Kept (ok (s', q')) s q next d h = h s' q' refl
    loaded-Kept (err x) s q next d h = d

    checked-Kept :
        (o : Option JournalError) (s : Store K V) (q : Journal K V) (next : Outcome K V (Unit {0}))
        → Grown key start s q
        → (o ≡ none → KeptFrom key start next)
        → KeptFrom key start (checked o s q next)
    unfolding checked
    checked-Kept none s q next d h = h refl
    checked-Kept (some x) s q next d h = d

  -- The state that a successful write leaves.
  write-Grown :
      (log : List (List (StoreEntry K V))) (s' : Store K V) (q' q₃ : Journal K V)
      (x : Extends key log q')
      → s'.at_id ≤ length log
      → TableAt key log s'.at_id s'.table
      → check s'.table ≡ none
      → commit_at true s'.at_id entries q' ≡ ok q₃
      → Grown key log (record s' { at_id = 0 }) q₃
  write-Grown log s' q' q₃ x l t passed w =
      let longer : s'.at_id ≤ length (log ++ x.more) = omega (arith, length-append log x.more) in
      let (end, j) = commit_at_ok key (log ++ x.more) q' q₃ s'.at_id entries x.journal longer w in
      let at_end = TableAt-append key log x.more s'.at_id s'.table l t in
      let (u, applied) = accepts.1 s'.table passed in
      Grown-more key log x.more (record s' { at_id = 0 }) q₃
        (record {
          more = entries ∷ [];
          replayable =
              IsReplayable-snoc key (log ++ x.more) entries s'.table u x.replayable accepts.0
                (rw (← end) at_end) applied;
          journal = j;
          current = λ h. absurd (omega (arith, head-commit_at key s'.at_id entries q' q₃ w));
        })

  loop-Kept :
      (n : ℕ) (log : List (List (StoreEntry K V))) (s : Store K V) (q : Journal K V)
      → IsReplayable key log
      → IsJournal key log q
      → IsCurrent key log q s
      → KeptFrom key log (commit_loop key true others check entries n s q)
  unfolding commit_loop
  loop-Kept zero log s q good j c = Grown-none key log s q good j c
  loop-Kept (suc n) log s q good j c =
      loaded-Kept log (load key s q) s q _ (Grown-none key log s q good j c) λ s' q' l.
        let (le, t, j') = load-Loaded key others check entries fair log s s' q q' good j c l in
        let x = fair n log q' good j' in
        let c' = current key others check entries fair log s' (others n q') x le t in
        let from = Grown-more key log x.more s' (others n q') in
        checked-Kept log (check s'.table) s' q' _
          (Grown-none key log s' q' good j' (λ h. rw (← h) t))
          λ passed.
            finish-Kept log s' (others n q') (commit_at true s'.at_id entries (others n q')) _
              (from (Grown-none key (log ++ x.more) s' (others n q') x.replayable x.journal c'))
              (λ q₃ w. write-Grown log s' (others n q') q₃ x le t passed w)
              (Grown-more key log x.more _ _
                (loop-Kept n (log ++ x.more) s' (others n q') x.replayable x.journal c'))

  -- A transaction leaves what the journal held, whether it succeeds or fails.
  pub commit-Grown :
      (log : List (List (StoreEntry K V))) (s : Store K V) (q : Journal K V)
      → Grown key log s q
      → KeptFrom key log (commit key true others check entries s q)
  unfolding commit
  commit-Grown log s q g =
      Grown-more key log g.more _ _
        (loop-Kept max_retries (log ++ g.more) s q g.replayable g.journal g.current)

  pub commit-Sound :
      (s : Store K V) (q : Journal K V)
      → IsSound key s q
      → Kept key (commit key true others check entries s q)
  commit-Sound s q d =
      Grown-Sound key d.log _ _
        (commit-Grown d.log s q (Grown-none key d.log s q d.replayable d.journal d.current))

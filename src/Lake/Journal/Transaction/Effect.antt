-- ===== src/Lake/Journal/Transaction/Effect.antt =====
-- A write behind the last file of a journal, and what a transaction that takes effect does.
use zed.Prelude.{
  ℕ, suc, ◌+◌, ◌≤◌, ◌≡◌, sym, ap, ◌∙◌, List, [], ◌∷◌, ◌++◌, true, false, none, some, arith,
  Bool-cases, inl, inr, length, get_elem?-lt, get_elem?-append, take-append_le, length-append,
  subst,
}
use native.Mathlib.Decide.{dec_lt}
use zed.Prelude.Eq.{Eq, nat_eq}
use zed.Prelude.Dict.{Dict, put, has, get-put}
use zed.Lake.Journal.Queue.{ok, commit_at}
use zed.Lake.Journal.Store.{StoreEntry, Store, Journal, load}
use zed.Lake.Journal.Store.Log.{TableAt, IsReplayable, IsSnap, IsJournal}
use zed.Lake.Journal.Transaction.{Check}

module _ {K V : Type 0} ⦃e : Eq K⦄ (key : V → K) where
  pub TableAt-append :
      (log more : List (List (StoreEntry K V))) (m : ℕ) (t : Dict K V)
      → m ≤ length log
      → TableAt key log m t
      → TableAt key (log ++ more) m t
  TableAt-append log more m t l a = record {
    total = a.total;
    adds_up = rw (take-append_le m log more l) a.adds_up;
    same = a.same;
  }

  pub IsSnap-append :
      (log : List (List (StoreEntry K V))) (b : List (StoreEntry K V)) (h : ℕ) (o : _)
      → h ≤ length log
      → IsSnap key log h o
      → IsSnap key (log ++ (b ∷ [])) (length log + 1) o
  IsSnap-append log b h none l s = tt
  IsSnap-append log b h (some (a, t)) l s =
      (s.0, omega arith, TableAt-append log (b ∷ []) a t (omega arith) s.2)

  abbrev pub written : Journal K V → ℕ → List (StoreEntry K V) → Journal K V
  written q at' b = record q { files = put (at' + 1) b q.files; head = at' + 1 }

  pub written-IsJournal :
      (log : List (List (StoreEntry K V))) (q : Journal K V) (b : List (StoreEntry K V))
      → IsJournal key log q
      → IsJournal key (log ++ (b ∷ [])) (written q (length log) b)
  written-IsJournal log q b j = record {
    files = λ i.
        ground
          (arith, get-put (length log + 1) (i + 1) b q.files, get_elem?-append log b i, j.files i);
    head_le = omega (arith, length-append log (b ∷ []));
    tail_one = j.tail_one;
    snap = IsSnap-append log b q.head q.snap j.head_le j.snap;
  }

  -- Nothing is in the way of a write only behind the last file.
  pub free_at_end :
      (log : List (List (StoreEntry K V))) (q : Journal K V) (at' : ℕ)
      → IsJournal key log q
      → at' ≤ length log
      → has (at' + 1) q.files ≡ false
      → at' ≡ length log
  free_at_end log q at' j l n = elim (dec_lt at' (length log)) [
    | yes m ↦ let (x, e', _, _) = get_elem?-lt log at' m in ground (arith, j.files at')
    | no m ↦ omega arith
  ]

  -- The file that is written where there was none is written behind the last one.
  pub commit_at_ok :
      (log : List (List (StoreEntry K V))) (q q' : Journal K V) (at' : ℕ)
      (b : List (StoreEntry K V))
      → IsJournal key log q
      → at' ≤ length log
      → commit_at true at' b q ≡ ok q'
      → (at' ≡ length log) × IsJournal key (log ++ (b ∷ [])) q'
  unfolding commit_at
  commit_at_ok log q q' at' b j l h = elim (Bool-cases (has (at' + 1) q.files)) [
    | inl y ↦ (let h' = rw y at h in cc)
    | inr n ↦
        let end = free_at_end log q at' j l n in
        let w : written q at' b ≡ q' = (let h' = rw n at h in cc) in
        (
          end,
          subst (IsJournal key (log ++ (b ∷ []))) (ap (λ (k : ℕ). written q k b) (sym end) ∙ w)
              (written-IsJournal log q b j),
        )
  ]

  -- What other writers may do to a journal: append files that can be replayed.
  pub record Extends (log : List (List (StoreEntry K V))) (q : Journal K V) : Type 0 where
    pub more : List (List (StoreEntry K V))
    pub replayable : IsReplayable key (log ++ more)
    pub journal : IsJournal key (log ++ more) q

  -- The others leave every journal of a replayable log one of an extended log.
  abbrev pub Cooperate : (ℕ → Journal K V → Journal K V) → Type 0
  Cooperate others =
      (n : ℕ) (log : List (List (StoreEntry K V))) (q : Journal K V)
      → IsReplayable key log
      → IsJournal key log q
      → Extends log (others n q)

  -- The attempts of a transaction, up to the write of the last one: each loads, and then the others
  -- have their turn. With the attempts that are left, the store and the journal at the start, and
  -- both before the write.
  pub data Attempts (others : ℕ → Journal K V → Journal K V)
      : ℕ → Store K V → Journal K V → Store K V → Journal K V → Type 0 where
    attempt :
        {n : ℕ} {s s' : Store K V} {q q' : Journal K V}
        → load key s q ≡ ok (s', q')
        → Attempts others (suc n) s q s' (others n q')
    attempt_again :
        {n : ℕ} {s s' t : Store K V} {q q' r : Journal K V}
        → load key s q ≡ ok (s', q')
        → Attempts others n s' (others n q') t r
        → Attempts others (suc n) s q t r

  -- A transaction of `n` attempts, on a journal with the log `start`, took effect. Before its write the
  -- journal was `before`, made of the one at the start by loads and by the others alone, and it held
  -- `start` with `more` behind it; the check passed on a table with the contents of all that, and
  -- the journal now holds all that and the transaction's file.
  pub record TookEffect (others : ℕ → Journal K V → Journal K V) (check : Check K V)
      (entries : List (StoreEntry K V)) (n : ℕ) (start : List (List (StoreEntry K V)))
      (s : Store K V) (q q' : Journal K V) : Type 0 where
    pub store : Store K V
    pub before : Journal K V
    pub attempts : Attempts others n s q store before
    pub more : List (List (StoreEntry K V))
    pub held : IsJournal key (start ++ more) before
    pub passed : check store.table ≡ none
    pub at_end : TableAt key (start ++ more) (length (start ++ more)) store.table
    pub journal : IsJournal key ((start ++ more) ++ (entries ∷ [])) q'

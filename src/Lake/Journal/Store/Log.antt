-- ===== src/Lake/Journal/Store/Log.antt =====
-- What the journal of a store is to hold, and which of its tables are right.
use zed.Prelude.{
  ℕ, zero, suc, ◌+◌, ◌≤◌, ◌≡◌, refl, ◌∙◌, List, [], Option, none, some, arith, length, take, drop,
  get_elem?, get_elem?-lt,
}
use zed.Prelude.Eq.{Eq, nat_eq}
use zed.Prelude.Dict.{Dict, get}
use zed.Lake.Journal.Queue.{Result, ok, err, read_files, load_file}
use zed.Lake.Journal.Store.{StoreEntry, Store, Journal, TableSnapshot, apply_files}
use zed.Lake.Journal.Store.Replay.{SameTable, SameResult, IsTransaction}

-- The files 1, 2, … of the journal are those of the log, and there are no others.
abbrev IsLog : {K V : Type 0} → List (List (StoreEntry K V)) → Journal K V → Type 0
IsLog log q = (i : ℕ) → get (i + 1) q.files ≡ get_elem? log i

module _ {K V : Type 0} (log : List (List (StoreEntry K V))) (q : Journal K V)
    (is_log : IsLog log q) where
  pub read_files_lem : (n c : ℕ) → c + n ≤ length log → read_files n c q ≡ ok (take n (drop c log))
  unfolding read_files
  read_files_lem zero c h = refl
  read_files_lem (suc n) c h =
      let (b, e, d, _) = get_elem?-lt log c (omega arith) in
      let here : get (c + 1) q.files ≡ some b = is_log c ∙ e in
      let s : c + 1 ≡ suc c = omega arith in
      rw (d, here, load_file) (rw (s, read_files_lem n (suc c) (omega arith)) refl)

module _ {K V : Type 0} ⦃e : Eq K⦄ (key : V → K) where
  -- A table with the contents that the first `m` files add up to.
  pub record TableAt (log : List (List (StoreEntry K V))) (m : ℕ) (t : Dict K V) : Type 0 where
    pub total : Dict K V
    pub adds_up : apply_files key (take m log) [] ≡ ok total
    pub same : SameTable t total

  -- What can be replayed: the files of transactions, none of which fails after those before it.
  pub record IsReplayable (log : List (List (StoreEntry K V))) : Type 0 where
    pub transactions :
        (i : ℕ) (b : List (StoreEntry K V)) → get_elem? log i ≡ some b → IsTransaction b
    pub total : Dict K V
    pub adds_up : apply_files key log [] ≡ ok total

  abbrev pub IsSnap : List (List (StoreEntry K V)) → ℕ → Option (TableSnapshot K V) → Type 0
  IsSnap log head none = Unit {0}
  IsSnap log head (some (at', t)) = (1 ≤ at') × (at' ≤ head) × TableAt log at' t

  -- A journal that holds `log`, to whose end the head need not have been moved yet.
  pub record IsJournal (log : List (List (StoreEntry K V))) (q : Journal K V) : Type 0 where
    pub files : IsLog log q
    pub head_le : q.head ≤ length log
    pub tail_one : q.tail ≡ 1
    pub snap : IsSnap log q.head q.snap

  -- What the table of a store is, if its position is the head's.
  abbrev pub IsCurrent : List (List (StoreEntry K V)) → Journal K V → Store K V → Type 0
  IsCurrent log q s = s.at_id ≡ q.head → TableAt log q.head s.table

  pub same_ok :
      (r : Result (Dict K V)) (t : Dict K V)
      → SameResult key r (ok t)
      → (u : Dict K V) × (r ≡ ok u) × SameTable u t
  same_ok (ok u) t h = (u, refl, h)
  same_ok (err x) t h = absurd h

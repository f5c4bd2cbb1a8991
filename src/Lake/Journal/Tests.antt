-- ===== src/Lake/Journal/Tests.antt =====
-- Concrete runs of the journal model, and its theorems at concrete inputs. A configuration is a
-- pair of a key and a value.
use zed.Prelude.{
  subst, none, ◌++◌, ◌∙◌, ℕ, zero, suc, ◌+◌, ◌≡◌, refl, List, [], ◌∷◌, true, some, arith, get_elem?,
  append-nil,
}
use zed.Prelude.Eq.{nat_eq}
use zed.Prelude.Dict.{Dict, get, put, remove}
use zed.Lake.Journal.Queue.{ok, open_files, commit_at, read_head}
use zed.Lake.Journal.Store.{StoreEntry, Store, Journal, add, delete, apply_files, load, max_retries}
use zed.Lake.Journal.Store.Log.{IsReplayable, IsJournal, IsCurrent, TableAt}
use zed.Lake.Journal.Store.Load.{load_table}
use zed.Lake.Journal.Store.Replay.{IsTransaction}
use zed.Lake.Journal.Transaction.{move, delete_key, update_value, insert, commit, insert_check}
use zed.Lake.Journal.Transaction.Grows.{Kept}
use zed.Lake.Journal.Transaction.Keeps.{operations-Sound}
use zed.Lake.Journal.Transaction.Effect.{TookEffect, Cooperate}
use zed.Lake.Journal.Transaction.Alone.{undisturbed, commit_succeeds}
use zed.Lake.Journal.Transaction.Serial.{commit_serial}

abbrev Config : Type 0
Config = ℕ × ℕ

abbrev key : Config → ℕ
key c = c.0

abbrev log : List (List (StoreEntry ℕ Config))
log = (add (1, 5) ∷ []) ∷ (delete 1 ∷ add (2, 5) ∷ []) ∷ []

-- A snapshot at the second file, which `load` will apply once more.
abbrev journal : Journal ℕ Config
journal = record {
  head = 2;
  tail = 1;
  base = 0;
  files = (1, add (1, 5) ∷ []) ∷ (2, delete 1 ∷ add (2, 5) ∷ []) ∷ [];
  snap = some (2, (2, (2, 5)) ∷ []);
}

abbrev stale : Store ℕ Config
stale = record { table = []; at_id = 0 }

journal_loads :
    load key stale journal ≡ ok (record { table = (2, (2, 5)) ∷ []; at_id = 2 }, journal)
unfolding load read_head open_files get put remove
journal_loads = refl

abbrev alone : ℕ → Journal ℕ Config → Journal ℕ Config
alone n q = q

inserts : commit key true alone (insert_check key (3, 7)) (add (3, 7) ∷ []) stale journal ≡ (
  ok tt,
  record { table = (2, (2, 5)) ∷ []; at_id = 0 },
  record journal {
    head = 3;
    files = (1, add (1, 5) ∷ []) ∷ (2, delete 1 ∷ add (2, 5) ∷ []) ∷ (3, add (3, 7) ∷ []) ∷ [];
  },
)
unfolding commit insert_check commit_at read_head open_files get put remove
inserts = refl

log-IsReplayable : IsReplayable key log
unfolding apply_files get put remove
log-IsReplayable = record { transactions = go; total = (2, (2, 5)) ∷ []; adds_up = refl }
  where
    go : (i : ℕ) (b : List (StoreEntry ℕ Config)) → get_elem? log i ≡ some b → IsTransaction b
    go zero b h = subst IsTransaction (let p : (add (1, 5) ∷ []) ≡ b = cc in p) tt
    go (suc zero) b h = subst IsTransaction (let p : (delete 1 ∷ add (2, 5) ∷ []) ≡ b = cc in p) tt
    go (suc (suc i)) b h = cc

journal-IsJournal : IsJournal key log journal
unfolding apply_files get put remove
journal-IsJournal = record {
  files = go;
  head_le = omega arith;
  tail_one = refl;
  snap = (
    omega arith,
    omega arith,
    record { total = (2, (2, 5)) ∷ []; adds_up = refl; same = λ k. refl },
  );
}
  where
    go : (i : ℕ) → get (i + 1) journal.files ≡ get_elem? log i
    go zero = refl
    go (suc zero) = refl
    go (suc (suc i)) = ground arith

stale-IsCurrent : IsCurrent key log journal stale
stale-IsCurrent h = absurd (omega arith)

alone-Cooperate : Cooperate key alone
alone-Cooperate n l q good j = record {
  more = [];
  replayable = rw append-nil good;
  journal = rw append-nil j;
}

load_table_example :
    (s' : Store ℕ Config) × (q' : Journal ℕ Config) × (load key stale journal ≡ ok (s', q'))
    × (s'.at_id ≡ 2)
    × TableAt key log 2 s'.table
    × IsJournal key log q'
    × (q'.files ≡ journal.files)
    × (q'.head ≡ 2)
load_table_example =
    load_table key log log-IsReplayable stale journal journal-IsJournal stale-IsCurrent

commit_serial_example :
    TookEffect key alone
      (insert_check key (3, 7))
      (add (3, 7) ∷ [])
      max_retries
      log
      stale
      journal
      (record journal {
        head = 3;
        files = (1, add (1, 5) ∷ []) ∷ (2, delete 1 ∷ add (2, 5) ∷ []) ∷ (3, add (3, 7) ∷ []) ∷ [];
      })
commit_serial_example =
    commit_serial key alone (insert_check key (3, 7)) (add (3, 7) ∷ []) alone-Cooperate log stale _
      journal _ log-IsReplayable journal-IsJournal stale-IsCurrent inserts

operations-Sound_example :
    Kept key (insert key true alone (3, 7) stale journal)
    × Kept key (move key true alone 2 (3, 7) stale journal)
    × Kept key (delete_key key true alone 2 none stale journal)
    × Kept key (update_value key true alone (3, 7) none stale journal)
operations-Sound_example =
    operations-Sound key alone stale journal (3, 7) 2 none alone-Cooperate
      (record {
        log = log;
        replayable = log-IsReplayable;
        journal = journal-IsJournal;
        current = stale-IsCurrent;
      })

-- The key 3 is in no table with the contents of the log.
free_key : (t : Dict ℕ Config) → TableAt key log 2 t → insert_check key (3, 7) t ≡ none
unfolding insert_check apply_files get put remove
free_key t a =
    let all : a.total ≡ (2, (2, 5)) ∷ [] = (let z = a.adds_up in cc) in
    let absent : get 3 t ≡ none = a.same 3 ∙ rw all refl in rw absent refl

commit_succeeds_example :
    (s' : Store ℕ Config) × (q' : Journal ℕ Config) × (commit key true undisturbed
        (insert_check key (3, 7))
        (add (3, 7) ∷ [])
        stale
        journal
      ≡ (ok tt, s', q'))
    × IsJournal key (log ++ ((add (3, 7) ∷ []) ∷ [])) q'
    × (q'.head ≡ 3)
commit_succeeds_example =
    commit_succeeds key (insert_check key (3, 7)) (add (3, 7) ∷ []) log stale journal
      log-IsReplayable journal-IsJournal stale-IsCurrent refl free_key

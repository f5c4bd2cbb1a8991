-- ===== src/Lake/Branch/Tests.antt =====
-- A concrete run of a branch, and the theorems on branches at concrete inputs.
use Prim.Native.String.{String}
use zed.Prelude.{
  ℕ, zero, suc, ◌+◌, ◌≡◌, ◌≢◌, refl, List, [], ◌∷◌, none, some, true, arith, append-nil, subst,
  get_elem?,
}
use zed.Prelude.Int.{pos}
use zed.Prelude.Eq.{nat_eq, string_eq}
use zed.Prelude.Dict.{get, put, remove_all}
use zed.Lake.Data.{DataObject, nil_ksuid}
use zed.Lake.Result.{ok, err, write_conflict, branch_not_found}
use zed.Lake.Journal.Queue.{read_head, open_files, commit_at}
use zed.Lake.Journal.Store.{StoreEntry, add, apply_files}
use zed.Lake.Journal.Store.Log.{IsReplayable, IsJournal}
use zed.Lake.Journal.Store.Replay.{IsTransaction}
use zed.Lake.Journal.Transaction.Effect.{Cooperate}
use zed.Lake.Commits.Actions.{Stamp, new_deletes_object}
use zed.Lake.Commits.Snapshot.{Snapshot, play, snapshot_writeable}
use zed.Lake.Commits.Cache.{Lru}
use zed.Lake.Branches.{Config, config_key, BranchJournal, Branches}
use zed.Lake.Branch.{PoolState, commit, common_ancestor}
use zed.Lake.Branch.Commit.{BranchesFrom, Committed, branch_commit_serial}
use zed.Lake.Branch.Create.{load_create, delete_object_of}
use zed.Lake.Branch.Deletes.{delete_replays, delete_twice_breaks}
use zed.Lake.Branch.Ancestor.{IsNearest, common_ancestor-IsNearest}

-- A cache that keeps nothing.
abbrev no_cache : Lru
no_cache = record {
  State = λ V. Unit {0};
  find = λ k s. none;
  touch = λ k s. s;
  insert = λ k v s. s;
}

abbrev main : Config
main = record { ts = pos 1; name = "main"; commit = 0 }

abbrev log : List (List (StoreEntry String Config))
log = (add main ∷ []) ∷ []

abbrev branches : Branches
branches = record { table = []; at_id = 0 }

abbrev journal : BranchJournal
journal = record { head = 1; tail = 1; base = 0; files = (1, add main ∷ []) ∷ []; snap = none }

abbrev pool : PoolState no_cache ℕ
pool = record {
  commits = record { objects = []; saved = []; cache = tt; paths = tt; snapshots = tt };
  branches = branches;
  journal = journal;
}

abbrev object : ℕ → DataObject ℕ
object i = record { id = i; min = 0; max = 9; count = 3; size = 40 }

abbrev stamp : Stamp ℕ
stamp = record { commit = 77; now = pos 5; retries = 0; author = "a"; message = "m"; meta = 0 }

abbrev alone : ℕ → ℕ → BranchJournal → BranchJournal
alone n k q = q

abbrev idle : ℕ → PoolState no_cache ℕ → PoolState no_cache ℕ
idle n st = st

abbrev after : PoolState no_cache ℕ
after =
    (commit no_cache true alone idle "main" (load_create no_cache 5 (λ c n. stamp) (object 1 ∷ []))
      pool).1

loads :
    commit no_cache true alone idle "main"
      (load_create no_cache 5 (λ c n. stamp) (object 1 ∷ []))
      pool
    ≡ (ok 77, after)
unfolding commit load_create read_head open_files get put commit_at
loads = refl

log-IsReplayable : IsReplayable config_key log
unfolding apply_files put
log-IsReplayable = record { transactions = go; total = ("main", main) ∷ []; adds_up = refl }
  where
    go : (i : ℕ) (b : List (StoreEntry String Config)) → get_elem? log i ≡ some b → IsTransaction b
    go zero b h = subst IsTransaction (let p : add main ∷ [] ≡ b = cc in p) tt
    go (suc i) b h = cc

journal-IsJournal : IsJournal config_key log journal
unfolding get
journal-IsJournal = record { files = go; head_le = omega arith; tail_one = refl; snap = tt }
  where
    go : (i : ℕ) → get (i + 1) journal.files ≡ get_elem? log i
    go zero = refl
    go (suc i) = ground arith

pool-From : BranchesFrom log pool
pool-From = record {
  more = [];
  replayable = rw append-nil log-IsReplayable;
  journal = rw append-nil journal-IsJournal;
  current = λ h. absurd (omega arith);
}

alone-Cooperate : (n : ℕ) → Cooperate config_key (alone n)
alone-Cooperate m n l q good j = record {
  more = [];
  replayable = rw append-nil good;
  journal = rw append-nil j;
}

branch_commit_serial_example :
    Committed no_cache alone idle "main"
      (load_create no_cache 5 (λ c n. stamp) (object 1 ∷ []))
      log
      77
      after
    × BranchesFrom log after
branch_commit_serial_example =
    branch_commit_serial no_cache alone idle "main"
      (load_create no_cache 5 (λ c n. stamp) (object 1 ∷ [])) alone-Cooperate (λ n l st d. d) log
      pool after 77 pool-From loads

abbrev tip : Snapshot ℕ
tip = record { objects = (1, object 1) ∷ (2, object 2) ∷ (3, object 3) ∷ []; vectors = [] }

deletes : delete_object_of (3 ∷ 1 ∷ []) 5 stamp tip ≡ ok (new_deletes_object 5 stamp (3 ∷ 1 ∷ []))
unfolding delete_object_of get
deletes = refl

delete_replays_example :
    play snapshot_writeable tip (new_deletes_object 5 stamp (3 ∷ 1 ∷ []))
    ≡ ok (record tip { objects = remove_all (3 ∷ 1 ∷ []) tip.objects })
delete_replays_example = delete_replays (3 ∷ 1 ∷ []) tip 5 stamp _ (refl, (refl, tt)) deletes

deletes_twice :
    delete_object_of (3 ∷ 1 ∷ 3 ∷ []) 5 stamp tip ≡ ok (new_deletes_object 5 stamp (3 ∷ 1 ∷ 3 ∷ []))
unfolding delete_object_of get
deletes_twice = refl

delete_twice_breaks_example :
    play snapshot_writeable tip (new_deletes_object 5 stamp (3 ∷ 1 ∷ 3 ∷ [])) ≡ err write_conflict
delete_twice_breaks_example = delete_twice_breaks 3 [] (1 ∷ 3 ∷ []) tip 5 stamp _ refl deletes_twice

nearest : common_ancestor (9 ∷ 5 ∷ 2 ∷ []) (8 ∷ 5 ∷ 2 ∷ []) ≡ 5
unfolding common_ancestor
nearest = refl

nearest_not_nil : common_ancestor (9 ∷ 5 ∷ 2 ∷ []) (8 ∷ 5 ∷ 2 ∷ []) ≢ nil_ksuid
nearest_not_nil h = absurd (omega (arith, nearest, h))

common_ancestor-IsNearest_example :
    IsNearest (9 ∷ 5 ∷ 2 ∷ []) (8 ∷ 5 ∷ 2 ∷ []) (common_ancestor (9 ∷ 5 ∷ 2 ∷ []) (8 ∷ 5 ∷ 2 ∷ []))
common_ancestor-IsNearest_example =
    common_ancestor-IsNearest (9 ∷ 5 ∷ 2 ∷ []) (8 ∷ 5 ∷ 2 ∷ []) nearest_not_nil

fails :
    commit no_cache true alone idle "dev"
      (load_create no_cache 5 (λ c n. stamp) (object 1 ∷ []))
      pool
    ≡ (
      err branch_not_found,
      record pool { branches = record { table = ("main", main) ∷ []; at_id = 1 } },
    )
unfolding commit load_create read_head open_files get put commit_at
fails = refl

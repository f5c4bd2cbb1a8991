-- ===== src/Lake/Pools/Tests.antt =====
-- A concrete rename of a pool.
use Prim.Native.String.{String}
use zed.Prelude.{
  ℕ, zero, suc, ◌+◌, ◌≡◌, refl, List, [], ◌∷◌, none, some, true, arith, append-nil, subst,
  get_elem?,
}
use zed.Prelude.Int.{pos}
use zed.Prelude.Eq.{nat_eq, string_eq}
use zed.Prelude.Dict.{get, put}
use zed.Lake.Result.{ok}
use zed.Lake.Journal.Queue.{read_head, open_files, commit_at}
use zed.Lake.Journal.Store.{StoreEntry, Store, Journal, add, delete, apply_files}
use zed.Lake.Journal.Store.Log.{IsReplayable, IsJournal}
use zed.Lake.Journal.Store.Replay.{IsTransaction}
use zed.Lake.Journal.Transaction.Effect.{Cooperate}
use zed.Lake.Pools.{PoolConfig, pool_key, rename_pool}
use zed.Lake.Pools.Rename.{Renamed, rename_pool-Renamed}

abbrev logs : PoolConfig ℕ
logs = record { ts = pos 1; name = "logs"; id = 9; options = 0 }

abbrev log : List (List (StoreEntry String (PoolConfig ℕ)))
log = (add logs ∷ []) ∷ []

abbrev table : Store String (PoolConfig ℕ)
table = record { table = []; at_id = 0 }

abbrev journal : Journal String (PoolConfig ℕ)
journal = record { head = 1; tail = 1; base = 0; files = (1, add logs ∷ []) ∷ []; snap = none }

abbrev alone : ℕ → Journal String (PoolConfig ℕ) → Journal String (PoolConfig ℕ)
alone n q = q

log-IsReplayable : IsReplayable pool_key log
unfolding apply_files put
log-IsReplayable = record { transactions = go; total = ("logs", logs) ∷ []; adds_up = refl }
  where
    go :
        (i : ℕ) (b : List (StoreEntry String (PoolConfig ℕ)))
        → get_elem? log i ≡ some b
        → IsTransaction b
    go zero b h = subst IsTransaction (let p : add logs ∷ [] ≡ b = cc in p) tt
    go (suc i) b h = cc

journal-IsJournal : IsJournal pool_key log journal
unfolding get
journal-IsJournal = record { files = go; head_le = omega arith; tail_one = refl; snap = tt }
  where
    go : (i : ℕ) → get (i + 1) journal.files ≡ get_elem? log i
    go zero = refl
    go (suc i) = ground arith

alone-Cooperate : Cooperate pool_key alone
alone-Cooperate n l q good j = record {
  more = [];
  replayable = rw append-nil good;
  journal = rw append-nil j;
}

abbrev renamed : Journal String (PoolConfig ℕ)
renamed = record journal {
  head = 2;
  files = (1, add logs ∷ []) ∷ (2, delete "logs" ∷ add (record logs { name = "old" }) ∷ []) ∷ [];
}

renames :
    rename_pool true alone 9 "old" table journal
    ≡ (ok tt, record { table = ("logs", logs) ∷ []; at_id = 0 }, renamed)
unfolding rename_pool read_head open_files get put commit_at
renames = refl

rename_pool-Renamed_example : Renamed alone 9 "old" log table journal renamed
rename_pool-Renamed_example =
    rename_pool-Renamed alone alone-Cooperate 9 "old" log table _ journal renamed log-IsReplayable
      journal-IsJournal (λ h. absurd (omega arith)) renames

-- ===== src/Lake/Commits/Store.antt =====
-- lake/commits/store.go: the commit objects of a pool, and the snapshots that the store computes and
-- keeps. The engine's files are the actions that they hold, by commit.
pub mod Replay
pub mod Valid
pub mod Walk
pub mod Correct
pub mod Paths
pub mod Range
mod Tests
use zed.Prelude.{ℕ, zero, suc, List, [], ◌∷◌, Option, none, some, ◌==◌, if◌then◌else◌}
use zed.Prelude.Eq.{nat_eq}
use zed.Prelude.Dict.{Dict, get, put, remove}
use zed.Lake.Data.{Ksuid, nil_ksuid, DataObject}
use zed.Lake.Result.{Result, ok, err, no_file, endless, ◌>>=◌}
use zed.Lake.Commits.Actions.{Action, CommitObject, serialize_object, decode_object}
use zed.Lake.Commits.Snapshot.{
  Snapshot, new_snapshot, copy, serialize, decode_snapshot, play, snapshot_writeable,
}
use zed.Lake.Commits.Cache.{Lru}

-- The files of the commit objects.
abbrev pub Files : Type 0 → Type 0
Files Val = Dict Ksuid (List (Action Val))

module _ (lru : Lru) where
  pub record CommitStore (Val : Type 0) : Type 0 where
    pub objects : Files Val
    pub saved : Files Val
    pub cache : lru.State (CommitObject Val)
    pub paths : lru.State (List Ksuid)
    pub snapshots : lru.State (Snapshot Val)

-- A file of the engine, read and decoded.
unfoldable pub read_object : {Val : Type 0} → Ksuid → Files Val → Result (CommitObject Val)
unfolding decode_object
read_object c files = elim (get c files) [ none ↦ err no_file | some b ↦ decode_object b ]

-- `getSnapshot`. Its caller takes any error for a missing snapshot.
unfoldable pub read_snapshot : {Val : Type 0} → Ksuid → Files Val → Result (Snapshot Val)
unfolding decode_snapshot
read_snapshot c files = elim (get c files) [ none ↦ err no_file | some b ↦ decode_snapshot b ]

-- The loops over the objects from the last one fetched to the first, and over their actions.
unfoldable pub play_all :
    {Val : Type 0} → Snapshot Val → List (CommitObject Val) → Result (Snapshot Val)
unfolding play
play_all s [] = ok s
play_all s (o ∷ os) = play snapshot_writeable s o >>= λ s'. play_all s' os

-- A copy of the base, or an empty snapshot.
unfoldable pub start : {Val : Type 0} → Option (Snapshot Val) → Snapshot Val
start none = new_snapshot
start (some base) = copy base

-- The outcome of an operation, and the store that it leaves.
abbrev pub Run : Lru → Type 0 → Type 0 → Type 0
Run lru Val A = Result A × CommitStore lru Val

-- The base that the loop of `Snapshot` met, if any, and the objects above it, the last one that it
-- fetched first.
abbrev pub Walked : Type 0 → Type 0
Walked Val = Option (Snapshot Val) × List (CommitObject Val)

module _ (lru : Lru) {Val : Type 0} where
  unfoldable pub cache_object :
      Ksuid → Result (CommitObject Val) → CommitStore lru Val → Run lru Val (CommitObject Val)
  cache_object c (ok o) st = (ok o, record st { cache = lru.insert c o st.cache })
  cache_object c (err e) st = (err e, st)

  -- `Get`, with what the cache answered.
  unfoldable pub get_object_of :
      Ksuid → Option (CommitObject Val) → CommitStore lru Val → Run lru Val (CommitObject Val)
  unfolding cache_object read_object
  get_object_of c (some o) st = (ok o, st)
  get_object_of c none st = cache_object c (read_object c st.objects) st

  unfoldable pub get_object : Ksuid → CommitStore lru Val → Run lru Val (CommitObject Val)
  unfolding get_object_of
  get_object c st =
      get_object_of c (lru.find c st.cache) (record st { cache = lru.touch c st.cache })

  -- `Put`
  unfoldable pub put_object : CommitObject Val → CommitStore lru Val → Run lru Val (Unit {0})
  unfolding serialize_object
  put_object o st = elim (serialize_object o) [
    | ok b ↦ (ok tt, record st { objects = put o.commit b st.objects })
    | err e ↦ (err e, st)
  ]

  -- `Remove`
  unfoldable pub remove_object : CommitObject Val → CommitStore lru Val → CommitStore lru Val
  remove_object o st = record st { objects = remove o.commit st.objects }

  unfoldable pub put_snapshot : Ksuid → Snapshot Val → CommitStore lru Val → CommitStore lru Val
  unfolding serialize
  put_snapshot c snap st = record st { saved = put c (serialize snap) st.saved }

  unfoldable pub cache_snapshot : Ksuid → Snapshot Val → CommitStore lru Val → CommitStore lru Val
  cache_snapshot c snap st = record st { snapshots = lru.insert c snap st.snapshots }

  -- The search of `Snapshot` for one at `c`: in the cache, then in the engine, whose answer goes
  -- into the cache.
  unfoldable pub saved_snapshot :
      Ksuid
      → Result (Snapshot Val)
      → CommitStore lru Val
      → Option (Snapshot Val) × CommitStore lru Val
  unfolding cache_snapshot
  saved_snapshot c (ok snap) st = (some snap, cache_snapshot c snap st)
  saved_snapshot c (err _) st = (none, st)

  unfoldable pub find_snapshot_of :
      Ksuid
      → Option (Snapshot Val)
      → CommitStore lru Val
      → Option (Snapshot Val) × CommitStore lru Val
  unfolding saved_snapshot read_snapshot
  find_snapshot_of c (some snap) st = (some snap, st)
  find_snapshot_of c none st = saved_snapshot c (read_snapshot c st.saved) st

  unfoldable pub find_snapshot :
      Ksuid → CommitStore lru Val → Option (Snapshot Val) × CommitStore lru Val
  unfolding find_snapshot_of
  find_snapshot c st =
      find_snapshot_of c (lru.find c st.snapshots)
        (record st { snapshots = lru.touch c st.snapshots })

  -- The loop of `Snapshot` from `at`, with the rounds left and the objects fetched so far. The code
  -- starts to fetch the object while it looks for a saved snapshot, and drops it when it finds one.
  unfoldable pub walk :
      ℕ → Ksuid → List (CommitObject Val) → CommitStore lru Val → Run lru Val (Walked Val)
  unfolding get_object find_snapshot
  walk zero at' os st = (err endless, st)
  walk (suc n) at' os st =
      let (found, st') = find_snapshot at' st in
      let (fetched, st'') = get_object at' st' in
      let next : Run lru Val (Walked Val) = elim found [
        | some snap ↦ (ok (some snap, os), st')
        | none ↦ elim fetched [ err e ↦ (err e, st'') | ok o ↦ walk n o.parent (o ∷ os) st'' ]
      ] in
      if at' == nil_ksuid then (ok (none, os), st) else next

  -- What `Snapshot` does after the loop.
  unfoldable pub replayed :
      Ksuid → Result (Snapshot Val) → CommitStore lru Val → Run lru Val (Snapshot Val)
  unfolding put_snapshot cache_snapshot
  replayed leaf (ok snap) st = (ok snap, cache_snapshot leaf snap (put_snapshot leaf snap st))
  replayed leaf (err e) st = (err e, st)

  unfoldable pub walked : Ksuid → Run lru Val (Walked Val) → Run lru Val (Snapshot Val)
  unfolding replayed start play_all
  walked leaf (ok (base, os), st) = replayed leaf (play_all (start base) os) st
  walked leaf (err e, st) = (err e, st)

  unfoldable pub snapshot_at : ℕ → Ksuid → CommitStore lru Val → Run lru Val (Snapshot Val)
  unfolding find_snapshot walk walked
  snapshot_at fuel leaf st =
      let (found, st') = find_snapshot leaf st in
      elim found [ some snap ↦ (ok snap, st') | none ↦ walked leaf (walk fuel leaf [] st') ]

-- ===== src/Lake/Commits/Store/Tests.antt =====
-- Concrete runs of the commit store, and its theorems at concrete inputs.
use zed.Prelude.{
  ℕ, zero, suc, ◌≡◌, refl, [], ◌∷◌, ◌⊎◌, inl, inr, some, Bool-cases, take, arith, sym,
}
use zed.Prelude.Eq.{nat_eq}
use zed.Prelude.Int.{pos}
use zed.Prelude.Dict.{Dict, get, put, remove}
use zed.Lake.Data.{Ksuid, DataObject}
use zed.Lake.Result.{ok}
use zed.Lake.Commits.Actions.{CommitInfo, add, delete, commit}
use zed.Lake.Commits.Snapshot.{
  Snapshot, decode_snapshot, play, play_actions, play_action, add_data_object, delete_object,
}
use zed.Lake.Commits.Snapshot.Serial.{SameSnapshot}
use zed.Lake.Commits.Cache.{Lru, IsCache}
use zed.Lake.Commits.Store.{CommitStore, snapshot_at, read_object, read_snapshot}
use zed.Lake.Commits.Store.Replay.{replay, chain}
use zed.Lake.Commits.Store.Valid.{IsValid, SnapshotAt}
use zed.Lake.Commits.Store.Correct.{snapshot_at-replay}
use zed.Lake.Commits.Store.Range.{Answers, path_range-chain}
use zed.Lake.Commits.Store.Paths.{path_range, take_through}

-- A cache of two entries, which drops the oldest.
abbrev two_entries : Lru
two_entries = record {
  State = λ V. Dict Ksuid V;
  find = λ k s. get k s;
  touch = λ k s. s;
  insert = λ k v s. take 2 ((k, v) ∷ s);
}

get-take :
    {V : Type 0} (n : ℕ) (k : Ksuid) (v : V) (d : Dict Ksuid V)
    → get k (take n d) ≡ some v
    → get k d ≡ some v
unfolding get
get-take zero k v d h = cc
get-take (suc n) k v [] h = h
get-take (suc n) k v ((j, w) ∷ d) h = elim (Bool-cases (nat_eq.beq j k)) [
  | inl p ↦ rw p (rw p at h)
  | inr p ↦ rw p (get-take n k v d (rw p at h))
]

two_entries-IsCache : IsCache two_entries
unfolding get
two_entries-IsCache = record {
  touched = λ k j v s h. h;
  inserted = λ k j v w s h. go k j v w s (get-take 2 j w ((k, v) ∷ s) h);
}
  where
    go :
        {V : Type 0} (k j : Ksuid) (v w : V) (s : Dict Ksuid V)
        → get j ((k, v) ∷ s) ≡ some w
        → ((j ≡ k) × (w ≡ v)) ⊎ (get j s ≡ some w)
    go k j v w s h = elim (Bool-cases (nat_eq.beq k j)) [
      | inl p ↦ inl (sym ((nat_eq.beq_iff k j).0 p), (let q = rw p at h in cc))
      | inr p ↦ inr (rw p at h)
    ]

abbrev object : ℕ → DataObject ℕ
object i = record { id = i; min = 0; max = 9; count = 3; size = 40 }

abbrev info : ℕ → ℕ → CommitInfo ℕ
info c p = record {
  id = c;
  parent = p;
  retries = 0;
  author = "a";
  date = pos 5;
  message = "m";
  meta = 0;
}

-- Three commits: 11 adds the object 1, 12 adds 2, 13 deletes 1. A snapshot is saved at 11.
abbrev store : CommitStore two_entries ℕ
store = record {
  objects =
      (11, commit (info 11 0) ∷ add 11 (object 1) ∷ [])
      ∷ (12, commit (info 12 11) ∷ add 12 (object 2) ∷ [])
      ∷ (13, commit (info 13 12) ∷ delete 13 1 ∷ [])
      ∷ [];
  saved = (11, add 0 (object 1) ∷ []) ∷ [];
  cache = [];
  paths = [];
  snapshots = [];
}

abbrev tip : Snapshot ℕ
tip = record { objects = (2, object 2) ∷ []; vectors = [] }

tip_replays : replay 4 13 store.objects ≡ ok tip
unfolding replay read_object get put remove play play_actions play_action add_data_object
    delete_object
tip_replays = refl

tip_chain : chain 4 13 store.objects ≡ ok (13 ∷ 12 ∷ 11 ∷ [])
unfolding chain read_object get
tip_chain = refl

abbrev first : Snapshot ℕ
first = record { objects = (1, object 1) ∷ []; vectors = [] }

first_replays : replay 2 11 store.objects ≡ ok first
unfolding replay read_object get put play play_actions play_action add_data_object
first_replays = refl

first-SnapshotAt : SnapshotAt store.objects 11 first
unfolding get
first-SnapshotAt = record {
  rounds = 2;
  total = first;
  adds_up = first_replays;
  same = record { objects = λ id. refl; vectors = λ id. refl };
  well_formed = record { objects_map = (refl, tt); keyed = (refl, tt); vectors_map = tt };
}

-- The one saved snapshot.
decoded : decode_snapshot (add 0 (object 1) ∷ []) ≡ ok first
unfolding decode_snapshot get put play_actions play_action add_data_object
decoded = refl

saved_only : (c : ℕ) (s : Snapshot ℕ) → read_snapshot c store.saved ≡ ok s → (11 ≡ c) × (first ≡ s)
unfolding read_snapshot get
saved_only c s h = ground (arith, decoded)

saved_lem :
    (c : Ksuid) (s : Snapshot ℕ) → read_snapshot c store.saved ≡ ok s → SnapshotAt store.objects c s
saved_lem c s h = let (p, q) = saved_only c s h in rw (← p, ← q) first-SnapshotAt

store-IsValid : IsValid two_entries store
unfolding get
store-IsValid = record {
  cached = λ c o h. cc;
  paths = λ c ids h. cc;
  snapshots = λ c s h. cc;
  saved = saved_lem;
}

snapshot_at-replay_example :
    (u : Snapshot ℕ) × (st' : CommitStore two_entries ℕ) × (snapshot_at two_entries 5 13 store
      ≡ (ok u, st'))
    × SameSnapshot u tip
    × IsValid two_entries st'
    × (st'.objects ≡ store.objects)
snapshot_at-replay_example =
    snapshot_at-replay two_entries two_entries-IsCache 5 4 13 store tip (omega arith) tip_replays
      store-IsValid

path_range-chain_example :
    Answers two_entries two_entries-IsCache store
      (path_range two_entries 5 13 12 store)
      (take_through 12 (13 ∷ 12 ∷ 11 ∷ []))
path_range-chain_example =
    path_range-chain two_entries two_entries-IsCache 5 4 13 12 store (13 ∷ 12 ∷ 11 ∷ [])
      (omega arith) tip_chain store-IsValid

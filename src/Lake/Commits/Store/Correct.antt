-- ===== src/Lake/Commits/Store/Correct.antt =====
-- `Snapshot` returns the replay of a commit's history, whatever the store has cached or saved.
use zed.Prelude.{ℕ, ◌≤◌, ◌≡◌, refl, ◌∙◌, [], append-nil, Option, some, none}
use zed.Prelude.Eq.{nat_eq}
use zed.Lake.Data.{Ksuid}
use zed.Lake.Result.{ok}
use zed.Lake.Commits.Snapshot.{Snapshot}
use zed.Lake.Commits.Snapshot.Serial.{SameSnapshot}
use zed.Lake.Commits.Cache.{Lru, IsCache}
use zed.Lake.Commits.Store.{
  CommitStore, Run, find_snapshot, cache_snapshot, put_snapshot, walk, walked, replayed,
  snapshot_at,
}
use zed.Lake.Commits.Store.Replay.{replay}
use zed.Lake.Commits.Store.Valid.{
  SnapshotAt, SnapshotAt-same, IsValid, Found, find_snapshot-Found, IsValid-cache_snapshot,
  IsValid-put_snapshot,
}
use zed.Lake.Commits.Store.Walk.{Walks, walk_lem}

module _ (lru : Lru) (is_cache : IsCache lru) {Val : Type 0} where
  -- After the loop: the snapshot is saved and cached.
  walked_lem :
      (n m : ℕ) (leaf : Ksuid) (st st' : CommitStore lru Val) (t : Snapshot Val)
      → replay m leaf st.objects ≡ ok t
      → st'.objects ≡ st.objects
      → Walks lru n leaf [] st' t
      → (u : Snapshot Val) × (st'' : CommitStore lru Val) × (walked lru leaf
            (walk lru n leaf [] st')
          ≡ (ok u, st''))
        × SameSnapshot u t
        × IsValid lru st''
        × (st''.objects ≡ st.objects)
  unfolding walked replayed cache_snapshot put_snapshot
  walked_lem n m leaf st st' t h q w =
      let q' = w.files ∙ q in
      let a : SnapshotAt w.left.objects leaf w.result = record {
        rounds = m;
        total = t;
        adds_up = rw q' h;
        same = w.same;
        well_formed = w.well_formed;
      } in
      let v₁ = IsValid-put_snapshot lru is_cache w.left w.valid leaf w.result a in
      (
        w.result,
        cache_snapshot lru leaf w.result (put_snapshot lru leaf w.result w.left),
        rw (w.ran, append-nil, w.played) refl,
        w.same,
        IsValid-cache_snapshot lru is_cache (put_snapshot lru leaf w.result w.left) v₁ leaf w.result
            a,
        q',
      )

  snapshot_at-none :
      (n : ℕ) (leaf : Ksuid) (st : CommitStore lru Val) {r : Run lru Val (Snapshot Val)}
      → (find_snapshot lru leaf st).0 ≡ none
      → walked lru leaf (walk lru n leaf [] (find_snapshot lru leaf st).1) ≡ r
      → snapshot_at lru n leaf st ≡ r
  unfolding snapshot_at
  snapshot_at-none n leaf st e h = rw (snapshot_at, e) h

  -- Let the history of a commit replay from the root to a snapshot, and let every cached object and
  -- every cached or saved snapshot of the store be right. Then `Snapshot` on as many rounds returns
  -- with no error a snapshot with the same objects and vectors, from whatever caches and saved
  -- snapshots it starts, and leaves a store that is right again, with the same commit objects.
  pub snapshot_at-replay :
      (n m : ℕ) (leaf : Ksuid) (st : CommitStore lru Val) (t : Snapshot Val)
      → m ≤ n
      → replay m leaf st.objects ≡ ok t
      → IsValid lru st
      → (u : Snapshot Val) × (st' : CommitStore lru Val) × (snapshot_at lru n leaf st ≡ (ok u, st'))
        × SameSnapshot u t
        × IsValid lru st'
        × (st'.objects ≡ st.objects)
  unfolding snapshot_at
  snapshot_at-replay n m leaf st t l h v = go (find_snapshot lru leaf st).0 refl
    where
      f : Found st leaf (find_snapshot lru leaf st).0 (find_snapshot lru leaf st).1
      f = find_snapshot-Found lru is_cache st v leaf

      go :
          (found : Option (Snapshot Val))
          → (find_snapshot lru leaf st).0 ≡ found
          → (u : Snapshot Val) × (st' : CommitStore lru Val) × (snapshot_at lru n leaf st
              ≡ (ok u, st'))
            × SameSnapshot u t
            × IsValid lru st'
            × (st'.objects ≡ st.objects)
      go (some s) e = (
        s,
        (find_snapshot lru leaf st).1,
        rw (snapshot_at, e) refl,
        SnapshotAt-same st.objects leaf s t m (f.at_commit s e) h,
        f.valid,
        f.files,
      )
      go none e =
          let (u, st', r, sm, v', q) =
            walked_lem n m leaf st (find_snapshot lru leaf st).1 t h f.files (
              walk_lem lru is_cache n m leaf [] (find_snapshot lru leaf st).1 t l (rw f.files h)
                f.valid) in
          (u, st', snapshot_at-none n leaf st e r, sm, v', q)

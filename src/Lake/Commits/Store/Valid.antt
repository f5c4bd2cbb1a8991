-- ===== src/Lake/Commits/Store/Valid.antt =====
-- What the commit store's files and caches hold, and the searches that keep it so.
use zed.Prelude.{
  ℕ, ◌≡◌, refl, sym, ap, ◌∙◌, subst, List, if◌then◌else◌, Bool-cases, inl, inr, Option, some, none,
}
use zed.Prelude.Eq.{nat_eq}
use zed.Prelude.Dict.{put, get-put}
use zed.Lake.Data.{Ksuid}
use zed.Lake.Result.{Result, ok, err}
use zed.Lake.Commits.Actions.{Action, CommitObject}
use zed.Lake.Commits.Snapshot.{Snapshot, new_snapshot, copy, serialize, decode_snapshot}
use zed.Lake.Commits.Snapshot.Serial.{
  SameSnapshot, IsSnapshot, play_actions-IsSnapshot, decode-serialize, copy-SameSnapshot,
}
use zed.Lake.Commits.Cache.{Lru, IsCache}
use zed.Lake.Commits.Store.{
  Files, CommitStore, read_object, read_snapshot, get_object, get_object_of, cache_object,
  find_snapshot, find_snapshot_of, saved_snapshot, cache_snapshot, put_snapshot,
}
use zed.Lake.Commits.Store.Replay.{replay, replay-determined, chain}

-- A path from `c` to the root.
pub record PathAt {Val : Type 0} (files : Files Val) (c : Ksuid) (ids : List Ksuid) : Type 0 where
  pub rounds : ℕ
  pub chained : chain rounds c files ≡ ok ids

-- A snapshot with the contents that the history of `c` adds up to.
pub record SnapshotAt {Val : Type 0} (files : Files Val) (c : Ksuid) (s : Snapshot Val)
    : Type 0 where
  pub rounds : ℕ
  pub total : Snapshot Val
  pub adds_up : replay rounds c files ≡ ok total
  pub same : SameSnapshot s total
  pub well_formed : IsSnapshot s

module _ {Val : Type 0} where
  pub SameSnapshot-trans :
      (s t u : Snapshot Val) → SameSnapshot s t → SameSnapshot t u → SameSnapshot s u
  SameSnapshot-trans s t u h k = record {
    objects = λ id. h.objects id ∙ k.objects id;
    vectors = λ id. h.vectors id ∙ k.vectors id;
  }

  pub new_snapshot-IsSnapshot : IsSnapshot (new_snapshot {Val = Val})
  new_snapshot-IsSnapshot = record { objects_map = tt; keyed = tt; vectors_map = tt }

  pub copy-IsSnapshot : (s : Snapshot Val) → IsSnapshot s → IsSnapshot (copy s)
  unfolding decode_snapshot
  copy-IsSnapshot s h =
      play_actions-IsSnapshot (serialize s) new_snapshot new_snapshot-IsSnapshot
        (decode-serialize s h)

  pub SnapshotAt-copy :
      (files : Files Val) (c : Ksuid) (s : Snapshot Val)
      → SnapshotAt files c s
      → SnapshotAt files c (copy s)
  SnapshotAt-copy files c s h = record {
    rounds = h.rounds;
    total = h.total;
    adds_up = h.adds_up;
    same = SameSnapshot-trans (copy s) s h.total (copy-SameSnapshot s h.well_formed) h.same;
    well_formed = copy-IsSnapshot s h.well_formed;
  }

  -- It is the same as what any replay gives.
  pub SnapshotAt-same :
      (files : Files Val) (c : Ksuid) (s t : Snapshot Val) (n : ℕ)
      → SnapshotAt files c s
      → replay n c files ≡ ok t
      → SameSnapshot s t
  SnapshotAt-same files c s t n h r =
      subst (SameSnapshot s) (replay-determined h.rounds n c files h.adds_up r) h.same

module _ (lru : Lru) {Val : Type 0} where
  -- The caches hold what the engine holds, and every snapshot, in a cache or in the engine, is the
  -- one of its commit.
  pub record IsValid (st : CommitStore lru Val) : Type 0 where
    pub cached :
        (c : Ksuid) (o : CommitObject Val)
        → lru.find c st.cache ≡ some o
        → read_object c st.objects ≡ ok o
    pub paths :
        (c : Ksuid) (ids : List Ksuid) → lru.find c st.paths ≡ some ids → PathAt st.objects c ids
    pub snapshots :
        (c : Ksuid) (s : Snapshot Val)
        → lru.find c st.snapshots ≡ some s
        → SnapshotAt st.objects c s
    pub saved :
        (c : Ksuid) (s : Snapshot Val) → read_snapshot c st.saved ≡ ok s → SnapshotAt st.objects c s

read_snapshot-put :
    {Val : Type 0} (c j : Ksuid) (b : List (Action Val)) (files : Files Val)
    → read_snapshot j (put c b files)
      ≡ (if nat_eq.beq c j then decode_snapshot b else read_snapshot j files)
unfolding read_snapshot
read_snapshot-put c j b files =
    rw (read_snapshot, get-put c j b files)
      (elim (Bool-cases (nat_eq.beq c j)) [ inl p ↦ rw p refl | inr p ↦ rw p refl ])

module _ (lru : Lru) (is_cache : IsCache lru) {Val : Type 0} (st : CommitStore lru Val)
    (v : IsValid lru st) where
  abbrev touched : Ksuid → CommitStore lru Val
  touched c = record st { cache = lru.touch c st.cache }

  IsValid-touched : (c : Ksuid) → IsValid lru (touched c)
  IsValid-touched c = record {
    paths = v.paths;
    cached = λ j o h. v.cached j o (is_cache.touched c j o st.cache h);
    snapshots = v.snapshots;
    saved = v.saved;
  }

  -- An object that is there is returned, from the cache or from the engine.
  pub get_object_lem :
      (c : Ksuid) (o : CommitObject Val)
      → read_object c st.objects ≡ ok o
      → (st' : CommitStore lru Val) × (get_object lru c st ≡ (ok o, st'))
        × IsValid lru st'
        × (st'.objects ≡ st.objects)
  unfolding get_object get_object_of cache_object
  get_object_lem c o h = go (lru.find c st.cache) refl
    where
      go :
          (found : Option (CommitObject Val))
          → lru.find c st.cache ≡ found
          → (st' : CommitStore lru Val) × (get_object_of lru c found (touched c) ≡ (ok o, st'))
            × IsValid lru st'
            × (st'.objects ≡ st.objects)
      go (some o') e =
          let p : o' ≡ o = (let q : ok o' ≡ ok o = sym (v.cached c o' e) ∙ h in cc) in
          (touched c, ap (λ x. (ok x, touched c)) p, IsValid-touched c, refl)
      go none e = (
        record st { cache = lru.insert c o (lru.touch c st.cache) },
        rw h refl,
        record {
          paths = v.paths;
          cached = λ j w f. elim (is_cache.inserted c j o w (lru.touch c st.cache) f) [
            | inl p ↦ rw (p.0, p.1) h
            | inr p ↦ v.cached j w (is_cache.touched c j w st.cache p)
          ];
          snapshots = v.snapshots;
          saved = v.saved;
        },
        refl,
      )

  pub IsValid-cache_snapshot :
      (c : Ksuid) (s : Snapshot Val)
      → SnapshotAt st.objects c s
      → IsValid lru (cache_snapshot lru c s st)
  unfolding cache_snapshot
  IsValid-cache_snapshot c s a = record {
    paths = v.paths;
    cached = v.cached;
    snapshots = λ j w f. elim (is_cache.inserted c j s w st.snapshots f) [
      | inl p ↦ rw (p.0, p.1) a
      | inr p ↦ v.snapshots j w p
    ];
    saved = v.saved;
  }

  pub IsValid-put_snapshot :
      (c : Ksuid) (s : Snapshot Val)
      → SnapshotAt st.objects c s
      → IsValid lru (put_snapshot lru c s st)
  unfolding put_snapshot
  IsValid-put_snapshot c s a = record {
    paths = v.paths;
    cached = v.cached;
    snapshots = v.snapshots;
    saved = λ j w f.
        let f' = rw (read_snapshot-put c j (serialize s) st.saved) at f in
        elim (Bool-cases (nat_eq.beq c j)) [
          | inl p ↦
              let q : copy s ≡ w =
                (let z = rw p at f' in
                  let y : ok (copy s) ≡ ok w = sym (decode-serialize s a.well_formed) ∙ z in cc) in
              let k : c ≡ j = (nat_eq.beq_iff c j).0 p in
              rw (← k, ← q) (SnapshotAt-copy st.objects c s a)
          | inr p ↦ v.saved j w (rw p at f')
        ];
  }

  abbrev touched_snapshot : Ksuid → CommitStore lru Val
  touched_snapshot c = record st { snapshots = lru.touch c st.snapshots }

  IsValid-touched_snapshot : (c : Ksuid) → IsValid lru (touched_snapshot c)
  IsValid-touched_snapshot c = record {
    paths = v.paths;
    cached = v.cached;
    snapshots = λ j s h. v.snapshots j s (is_cache.touched c j s st.snapshots h);
    saved = v.saved;
  }

-- What the search for a snapshot found, and the store that it left.
pub record Found {lru : Lru} {Val : Type 0} (st : CommitStore lru Val) (c : Ksuid)
    (found : Option (Snapshot Val)) (st' : CommitStore lru Val) : Type 0 where
  pub at_commit : (s : Snapshot Val) → found ≡ some s → SnapshotAt st.objects c s
  pub valid : IsValid lru st'
  pub files : st'.objects ≡ st.objects

module _ (lru : Lru) (is_cache : IsCache lru) {Val : Type 0} (st : CommitStore lru Val)
    (v : IsValid lru st) where
  saved-Found :
      (c : Ksuid) (r : Result (Snapshot Val))
      → ((s : Snapshot Val) → r ≡ ok s → SnapshotAt st.objects c s)
      → Found st c (saved_snapshot lru c r st).0 (saved_snapshot lru c r st).1
  unfolding saved_snapshot cache_snapshot
  saved-Found c (ok s) h = record {
    at_commit = λ s' e. (let p : s ≡ s' = cc in subst (SnapshotAt st.objects c) p (h s refl));
    valid = IsValid-cache_snapshot lru is_cache st v c s (h s refl);
    files = refl;
  }
  saved-Found c (err e) h = record { at_commit = λ s' e'. cc; valid = v; files = refl }

module _ (lru : Lru) (is_cache : IsCache lru) {Val : Type 0} (st : CommitStore lru Val)
    (v : IsValid lru st) where
  pub find_snapshot-Found :
      (c : Ksuid) → Found st c (find_snapshot lru c st).0 (find_snapshot lru c st).1
  unfolding find_snapshot find_snapshot_of
  find_snapshot-Found c = go (lru.find c st.snapshots) refl
    where
      st₁ : CommitStore lru Val
      st₁ = touched_snapshot lru is_cache st v c

      go :
          (found : Option (Snapshot Val))
          → lru.find c st.snapshots ≡ found
          → Found st c (find_snapshot_of lru c found st₁).0 (find_snapshot_of lru c found st₁).1
      go (some s) e = record {
        at_commit = λ s' e'. v.snapshots c s' (e ∙ e');
        valid = IsValid-touched_snapshot lru is_cache st v c;
        files = refl;
      }
      go none e =
          let f =
            saved-Found lru is_cache st₁ (IsValid-touched_snapshot lru is_cache st v c) c
              (read_snapshot c st.saved) (v.saved c) in
          record { at_commit = f.at_commit; valid = f.valid; files = f.files }

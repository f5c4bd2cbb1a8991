-- ===== src/Lake/Commits/Store/Walk.antt =====
-- The loop of `Snapshot`: the base that it finds, and the commit objects above it.
use zed.Prelude.{
  ℕ, zero, suc, ◌≤◌, ◌≡◌, refl, ◌∙◌, subst, List, [], ◌∷◌, ◌++◌, append_assoc, arith, ◌==◌, true,
  false, Bool-cases, inl, inr, Option, some, none,
}
use zed.Prelude.Eq.{nat_eq}
use zed.Lake.Data.{Ksuid, nil_ksuid}
use zed.Lake.Result.{ok, err, endless}
use zed.Lake.Commits.Actions.{CommitObject}
use zed.Lake.Commits.Snapshot.{Snapshot, new_snapshot, copy, play, snapshot_writeable}
use zed.Lake.Commits.Snapshot.Serial.{SameSnapshot, IsSnapshot, play_actions-IsSnapshot}
use zed.Lake.Commits.Cache.{Lru, IsCache}
use zed.Lake.Commits.Store.{CommitStore, get_object, find_snapshot, start, play_all, walk}
use zed.Lake.Commits.Store.Replay.{
  replay, replay-LastStep, play_all-append, play-Same, SameResult, SameResult-ok,
}
use zed.Lake.Commits.Store.Valid.{
  SnapshotAt-copy, SnapshotAt-same, new_snapshot-IsSnapshot, IsValid, Found, find_snapshot-Found,
  get_object_lem,
}

-- The loop of `Snapshot` found a base, and objects on top of `os` that replay on it to `t`.
pub record Walks (lru : Lru) {Val : Type 0} (n : ℕ) (c : Ksuid) (os : List (CommitObject Val))
    (st : CommitStore lru Val) (t : Snapshot Val) : Type 0 where
  pub base : Option (Snapshot Val)
  pub above : List (CommitObject Val)
  pub left : CommitStore lru Val
  pub ran : walk lru n c os st ≡ (ok (base, above ++ os), left)
  pub result : Snapshot Val
  pub played : play_all (start base) above ≡ ok result
  pub same : SameSnapshot result t
  pub well_formed : IsSnapshot result
  pub valid : IsValid lru left
  pub files : left.objects ≡ st.objects

module _ (lru : Lru) (is_cache : IsCache lru) {Val : Type 0} where
  same_refl : (s : Snapshot Val) → SameSnapshot s s
  same_refl s = record { objects = λ id. refl; vectors = λ id. refl }

  play_all-one :
      (u : Snapshot Val) (o : CommitObject Val) {w : Snapshot Val}
      → play snapshot_writeable u o ≡ ok w
      → play_all u (o ∷ []) ≡ ok w
  unfolding play_all
  play_all-one u o h = rw h refl

  play-IsSnapshot :
      (o : CommitObject Val) (u : Snapshot Val) {w : Snapshot Val}
      → IsSnapshot u
      → play snapshot_writeable u o ≡ ok w
      → IsSnapshot w
  unfolding play
  play-IsSnapshot o u h p = play_actions-IsSnapshot o.actions u h p

  -- One object more.
  play_one :
      (base u t : Snapshot Val) (os : List (CommitObject Val)) (o : CommitObject Val)
      (s : Snapshot Val)
      → play_all base os ≡ ok u
      → SameSnapshot u s
      → IsSnapshot u
      → play snapshot_writeable s o ≡ ok t
      → (w : Snapshot Val) × (play_all base (os ++ (o ∷ [])) ≡ ok w)
        × SameSnapshot w t
        × IsSnapshot w
  play_one base u t os o s h same wf p =
      let (w, q, sm) =
        SameResult-ok (play snapshot_writeable u o) t
          (subst (SameResult (play snapshot_writeable u o)) p (play-Same o u s same)) in
      (
        w,
        rw (play_all-append base os (o ∷ []), h) (play_all-one u o q),
        sm,
        play-IsSnapshot o u wf q,
      )

  walk-nil :
      (n m : ℕ) (c : Ksuid) (os : List (CommitObject Val)) (st : CommitStore lru Val)
      (t : Snapshot Val)
      → (c == nil_ksuid) ≡ true
      → replay (suc m) c st.objects ≡ ok t
      → IsValid lru st
      → Walks lru (suc n) c os st t
  unfolding walk replay play_all start
  walk-nil n m c os st t p h v = record {
    base = none;
    above = [];
    left = st;
    ran = rw p refl;
    result = new_snapshot;
    played = refl;
    same =
        (let e : new_snapshot ≡ t = (let h' = rw p at h in cc) in
          subst (SameSnapshot new_snapshot) e (same_refl new_snapshot));
    well_formed = new_snapshot-IsSnapshot;
    valid = v;
    files = refl;
  }

  -- A base that is found ends the loop.
  walk-base :
      (n m : ℕ) (c : Ksuid) (os : List (CommitObject Val)) (st : CommitStore lru Val)
      (t s : Snapshot Val)
      → (c == nil_ksuid) ≡ false
      → replay (suc m) c st.objects ≡ ok t
      → Found st c (find_snapshot lru c st).0 (find_snapshot lru c st).1
      → (find_snapshot lru c st).0 ≡ some s
      → Walks lru (suc n) c os st t
  unfolding walk play_all start
  walk-base n m c os st t s p h f e =
      let a = SnapshotAt-copy st.objects c s (f.at_commit s e) in
      record {
        base = some s;
        above = [];
        left = (find_snapshot lru c st).1;
        ran = rw (p, e) refl;
        result = copy s;
        played = refl;
        same = SnapshotAt-same st.objects c (copy s) t (suc m) a h;
        well_formed = a.well_formed;
        valid = f.valid;
        files = f.files;
      }

  -- With none, the loop goes on from the parent.
  walk-parent :
      (n : ℕ) (c : Ksuid) (os : List (CommitObject Val)) (st st'' : CommitStore lru Val)
      (t s : Snapshot Val) (o : CommitObject Val)
      → (c == nil_ksuid) ≡ false
      → (find_snapshot lru c st).0 ≡ none
      → get_object lru c (find_snapshot lru c st).1 ≡ (ok o, st'')
      → st''.objects ≡ st.objects
      → play snapshot_writeable s o ≡ ok t
      → Walks lru n o.parent (o ∷ os) st'' s
      → Walks lru (suc n) c os st t
  unfolding walk
  walk-parent n c os st st'' t s o p e g q pl w =
      let (u, ps, sm, wf) =
        play_one (start w.base) w.result t w.above o s w.played w.same w.well_formed pl in
      record {
        base = w.base;
        above = w.above ++ (o ∷ []);
        left = w.left;
        ran = rw (p, e, g, g, append_assoc w.above (o ∷ []) os) w.ran;
        result = u;
        played = ps;
        same = sm;
        well_formed = wf;
        valid = w.valid;
        files = w.files ∙ q;
      }

  walk-search :
      (n m : ℕ) (c : Ksuid) (os : List (CommitObject Val)) (st : CommitStore lru Val)
      (t : Snapshot Val)
      → (c == nil_ksuid) ≡ false
      → replay (suc m) c st.objects ≡ ok t
      → Found st c (find_snapshot lru c st).0 (find_snapshot lru c st).1
      → (found : Option (Snapshot Val)) → (find_snapshot lru c st).0 ≡ found
      → ((c' : Ksuid) (os' : List (CommitObject Val)) (st' : CommitStore lru Val) (s : Snapshot Val)
          → replay m c' st'.objects ≡ ok s
          → IsValid lru st'
          → Walks lru n c' os' st' s)
      → Walks lru (suc n) c os st t
  walk-search n m c os st t p h f (some s) e rec = walk-base n m c os st t s p h f e
  walk-search n m c os st t p h f none e rec =
      let last = replay-LastStep m c st.objects p h in
      let (st'', g, v'', q) =
        get_object_lem lru is_cache (find_snapshot lru c st).1 f.valid c last.object
          (rw f.files last.read) in
      let q' = q ∙ f.files in
      walk-parent n c os st st'' t last.before last.object p e g q' last.played
        (rec last.object.parent (last.object ∷ os) st'' last.before (rw q' last.replayed) v'')

  pub walk_lem :
      (n m : ℕ) (c : Ksuid) (os : List (CommitObject Val)) (st : CommitStore lru Val)
      (t : Snapshot Val)
      → m ≤ n
      → replay m c st.objects ≡ ok t
      → IsValid lru st
      → Walks lru n c os st t
  walk_lem n zero c os st t l h v = let e : err endless ≡ ok t = unfold replay in h in cc
  walk_lem zero (suc m) c os st t l h v = absurd (omega arith)
  walk_lem (suc n) (suc m) c os st t l h v = elim (Bool-cases (c == nil_ksuid)) [
    | inl p ↦ walk-nil n m c os st t p h v
    | inr p ↦
        walk-search n m c os st t p h (find_snapshot-Found lru is_cache st v c)
          (find_snapshot lru c st).0 refl
          (λ c' os' st' s r v'. walk_lem n m c' os' st' s (omega arith) r v')
  ]

-- ===== src/Lake/Commits/Store/Replay.antt =====
-- The snapshot at a commit, by the definition: the replay of its whole history. And the replay of
-- actions on two snapshots with the same contents.
use zed.Prelude.{
  ℕ, zero, suc, ◌+◌, ◌≡◌, refl, ap, List, [], ◌∷◌, ◌++◌, arith, ◌==◌, if◌then◌else◌, Bool, true,
  false, Bool-cases, inl, inr,
}
use zed.Prelude.Eq.{nat_eq}
use zed.Prelude.Dict.{has, get-put, get-remove}
use zed.Lake.Data.{Ksuid, nil_ksuid}
use zed.Lake.Result.{Error, Result, ok, err, endless, ◌>>=◌, >>=-eq_ok}
use zed.Lake.Commits.Actions.{Action, CommitObject, add, add_vector, delete, delete_vector, commit}
use zed.Lake.Commits.Snapshot.{
  Snapshot, new_snapshot, play, play_action, play_actions, snapshot_writeable, add_data_object,
  delete_object, add_vector_of, delete_vector_of,
}
use zed.Lake.Commits.Snapshot.Serial.{SameSnapshot}
use zed.Lake.Commits.Store.{Files, read_object, play_all}

-- The replay of the commits from the root to `c`, on `n` rounds.
unfoldable pub replay : {Val : Type 0} → ℕ → Ksuid → Files Val → Result (Snapshot Val)
replay zero c files = err endless
replay (suc n) c files =
    let more =
      read_object c files >>= (λ o. replay n o.parent files >>= λ s. play snapshot_writeable s o) in
    if c == nil_ksuid then ok new_snapshot else more

-- The commits from `c` to the root, on `n` rounds.
unfoldable pub chain : {Val : Type 0} → ℕ → Ksuid → Files Val → Result (List Ksuid)
chain zero c files = err endless
chain (suc n) c files =
    let more = read_object c files >>= (λ o. chain n o.parent files >>= λ ids. ok (c ∷ ids)) in
    if c == nil_ksuid then ok [] else more

module _ {Val : Type 0} where
  -- Both fail, or both succeed with the same contents.
  abbrev pub SameResult : Result (Snapshot Val) → Result (Snapshot Val) → Type 0
  SameResult (ok s) (ok t) = SameSnapshot s t
  SameResult (err e) (err f) = e ≡ f
  SameResult _ _ = ⊥

  SameResult-guard :
      (b : Bool) (e : Error) {s t : Snapshot Val}
      → SameSnapshot s t
      → SameResult (if b then err e else ok s) (if b then err e else ok t)
  SameResult-guard true e h = refl
  SameResult-guard false e h = h

  SameResult-guarded :
      (b : Bool) (e : Error) {s t : Snapshot Val}
      → SameSnapshot s t
      → SameResult (if b then ok s else err e) (if b then ok t else err e)
  SameResult-guarded true e h = h
  SameResult-guarded false e h = refl

  SameResult-bind :
      (r q : Result (Snapshot Val)) (f : Snapshot Val → Result (Snapshot Val))
      → SameResult r q
      → ((s t : Snapshot Val) → SameSnapshot s t → SameResult (f s) (f t))
      → SameResult (r >>= f) (q >>= f)
  SameResult-bind (ok s) (ok t) f h k = k s t h
  SameResult-bind (err e) (err e') f h k = h
  SameResult-bind (ok s) (err e') f h k = absurd h
  SameResult-bind (err e) (ok t) f h k = absurd h

  play_action-Same :
      (a : Action Val) (s t : Snapshot Val)
      → SameSnapshot s t
      → SameResult (play_action snapshot_writeable s a) (play_action snapshot_writeable t a)
  unfolding play_action add_data_object delete_object add_vector_of delete_vector_of
  play_action-Same (add c o) s t h = rw (h.objects o.id) (
      SameResult-guard (has o.id t.objects) _ (record {
        objects = λ j. rw (get-put o.id j o s.objects, get-put o.id j o t.objects, h.objects j);
        vectors = h.vectors;
      }))
  play_action-Same (delete c id) s t h = rw (h.objects id) (
      SameResult-guarded (has id t.objects) _ (record {
        objects = λ j. rw (get-remove id j s.objects, get-remove id j t.objects, h.objects j);
        vectors = h.vectors;
      }))
  play_action-Same (add_vector c id) s t h = rw (h.vectors id) (
      SameResult-guard (has id t.vectors) _ (record {
        objects = h.objects;
        vectors = λ j. rw (get-put id j tt s.vectors, get-put id j tt t.vectors, h.vectors j);
      }))
  play_action-Same (delete_vector c id) s t h = rw (h.vectors id) (
      SameResult-guarded (has id t.vectors) _ (record {
        objects = h.objects;
        vectors = λ j. rw (get-remove id j s.vectors, get-remove id j t.vectors, h.vectors j);
      }))
  play_action-Same (commit i) s t h = h

  pub play_actions-Same :
      (as' : List (Action Val)) (s t : Snapshot Val)
      → SameSnapshot s t
      → SameResult (play_actions snapshot_writeable s as') (play_actions snapshot_writeable t as')
  unfolding play_actions
  play_actions-Same [] s t h = h
  play_actions-Same (a ∷ as') s t h =
      SameResult-bind (play_action snapshot_writeable s a) (play_action snapshot_writeable t a)
        (λ w. play_actions snapshot_writeable w as') (play_action-Same a s t h)
        (play_actions-Same as')

  pub play-Same :
      (o : CommitObject Val) (s t : Snapshot Val)
      → SameSnapshot s t
      → SameResult (play snapshot_writeable s o) (play snapshot_writeable t o)
  unfolding play
  play-Same o = play_actions-Same o.actions

  -- What `ok` there is on the one side is on the other.
  pub SameResult-ok :
      (r : Result (Snapshot Val)) (t : Snapshot Val)
      → SameResult r (ok t)
      → (u : Snapshot Val) × (r ≡ ok u) × SameSnapshot u t
  SameResult-ok (ok u) t h = (u, refl, h)
  SameResult-ok (err e) t h = absurd h

  pub play_all-append :
      (s : Snapshot Val) (xs ys : List (CommitObject Val))
      → play_all s (xs ++ ys) ≡ (play_all s xs >>= λ s'. play_all s' ys)
  unfolding play_all
  play_all-append s [] ys = refl
  play_all-append s (x ∷ xs) ys = go (play snapshot_writeable s x) (λ s'. play_all-append s' xs ys)
    where
      go :
          (r : Result (Snapshot Val))
          → ((s' : Snapshot Val)
              → play_all s' (xs ++ ys) ≡ (play_all s' xs >>= λ s''. play_all s'' ys))
          → (r >>= λ s'. play_all s' (xs ++ ys))
            ≡ ((r >>= λ s'. play_all s' xs) >>= λ s'. play_all s' ys)
      go (ok s') h = h s'
      go (err e) h = refl

  -- The last round of a replay that succeeds.
  pub record LastStep (n : ℕ) (c : Ksuid) (files : Files Val) (t : Snapshot Val) : Type 0 where
    pub object : CommitObject Val
    pub before : Snapshot Val
    pub read : read_object c files ≡ ok object
    pub replayed : replay n object.parent files ≡ ok before
    pub played : play snapshot_writeable before object ≡ ok t

  pub replay-nil :
      (n : ℕ) (files : Files Val) {t : Snapshot Val}
      → replay n nil_ksuid files ≡ ok t
      → new_snapshot ≡ t
  unfolding replay
  replay-nil zero files h = cc
  replay-nil (suc n) files h = cc

  pub replay-LastStep :
      (n : ℕ) (c : Ksuid) (files : Files Val) {t : Snapshot Val}
      → (c == nil_ksuid) ≡ false
      → replay (suc n) c files ≡ ok t
      → LastStep n c files t
  unfolding replay
  replay-LastStep n c files f h =
      let (o, r, h') = >>=-eq_ok (read_object c files) _ (rw f at h) in
      let (s, p, q) = >>=-eq_ok (replay n o.parent files) _ h' in
      record { object = o; before = s; read = r; replayed = p; played = q }

  -- More rounds change nothing.
  replay_more :
      (n m : ℕ) (c : Ksuid) (files : Files Val) {t : Snapshot Val}
      → replay n c files ≡ ok t
      → replay (n + m) c files ≡ ok t
  unfolding replay
  replay_more zero m c files h = cc
  replay_more (suc n) m c files h =
      let e : suc n + m ≡ suc (n + m) = omega arith in
      elim (Bool-cases (c == nil_ksuid)) [
        | inl p ↦ rw (e, p) (rw p at h)
        | inr p ↦
            let l = replay-LastStep n c files p h in
            rw (e, p, l.read, replay_more n m l.object.parent files l.replayed) l.played
      ]

  pub replay-determined :
      (n m : ℕ) (c : Ksuid) (files : Files Val) {s t : Snapshot Val}
      → replay n c files ≡ ok s
      → replay m c files ≡ ok t
      → s ≡ t
  replay-determined n m c files h k =
      let p = replay_more n m c files h in
      let q = replay_more m n c files k in
      let e : n + m ≡ m + n = omega arith in let p' = rw e at p in cc

  -- The first round of a chain.
  pub record FirstStep (n : ℕ) (c : Ksuid) (files : Files Val) (ids : List Ksuid) : Type 0 where
    pub object : CommitObject Val
    pub rest : List Ksuid
    pub read : read_object c files ≡ ok object
    pub behind : chain n object.parent files ≡ ok rest
    pub joined : c ∷ rest ≡ ids

  pub chain-FirstStep :
      (n : ℕ) (c : Ksuid) (files : Files Val) {ids : List Ksuid}
      → (c == nil_ksuid) ≡ false
      → chain (suc n) c files ≡ ok ids
      → FirstStep n c files ids
  unfolding chain
  chain-FirstStep n c files {ids} f h =
      let (o, r, h') = >>=-eq_ok (read_object c files) _ (rw f at h) in
      let (rest, p, q) = >>=-eq_ok (chain n o.parent files) _ h' in
      let j : c ∷ rest ≡ ids = cc in
      record { object = o; rest = rest; read = r; behind = p; joined = j }

  chain_more :
      (n m : ℕ) (c : Ksuid) (files : Files Val) {ids : List Ksuid}
      → chain n c files ≡ ok ids
      → chain (n + m) c files ≡ ok ids
  unfolding chain
  chain_more zero m c files h = cc
  chain_more (suc n) m c files h =
      let e : suc n + m ≡ suc (n + m) = omega arith in
      elim (Bool-cases (c == nil_ksuid)) [
        | inl p ↦ rw (e, p) (rw p at h)
        | inr p ↦
            let l = chain-FirstStep n c files p h in
            rw (e, p, l.read, chain_more n m l.object.parent files l.behind) (ap ok l.joined)
      ]

  pub chain-determined :
      (n m : ℕ) (c : Ksuid) (files : Files Val) {xs ys : List Ksuid}
      → chain n c files ≡ ok xs
      → chain m c files ≡ ok ys
      → xs ≡ ys
  chain-determined n m c files h k =
      let p = chain_more n m c files h in
      let q = chain_more m n c files k in
      let e : n + m ≡ m + n = omega arith in let p' = rw e at p in cc

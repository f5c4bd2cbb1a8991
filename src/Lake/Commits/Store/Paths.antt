-- ===== src/Lake/Commits/Store/Paths.antt =====
-- lake/commits/store.go: the paths from a commit to the root, and what is read along them. Each
-- loop goes from a commit to its parent, on rounds.
use zed.Prelude.{ℕ, zero, suc, List, [], ◌∷◌, ◌++◌, none, some, ◌==◌, if◌then◌else◌}
use zed.Prelude.Eq.{nat_eq}
use zed.Prelude.Dict.{get}
use zed.Lake.Data.{Ksuid, nil_ksuid, DataObject}
use zed.Lake.Result.{Result, ok, err, no_file, no_path, pathless, endless, bad_commit_object, ◌>>=◌}
use zed.Lake.Commits.Actions.{Action, CommitInfo, add, commit}
use zed.Lake.Commits.Snapshot.{Snapshot, new_snapshot, play, exists_in}
use zed.Lake.Commits.Patch.{Patch, snapshot, new_patch, patch_writeable}
use zed.Lake.Commits.Cache.{Lru}
use zed.Lake.Commits.Store.{Files, CommitStore, Run, get_object, snapshot_at}

-- The entries of a cached path down to `to`, or all of them.
unfoldable pub take_through : Ksuid → List Ksuid → List Ksuid
take_through to [] = []
take_through to (id ∷ ids) =
    let rest = take_through to ids in if id == to then id ∷ [] else id ∷ rest

module _ (lru : Lru) {Val : Type 0} where
  unfoldable pub cons_path : Ksuid → Run lru Val (List Ksuid) → Run lru Val (List Ksuid)
  cons_path id (ok ids, st) = (ok (id ∷ ids), st)
  cons_path id (err e, st) = (err e, st)

  -- `PathRange`
  unfoldable pub path_range : ℕ → Ksuid → Ksuid → CommitStore lru Val → Run lru Val (List Ksuid)
  unfolding get_object cons_path take_through
  path_range zero from to st = (err endless, st)
  path_range (suc n) from to st =
      let st' = record st { paths = lru.touch from st.paths } in
      let (fetched, st'') = get_object lru from st' in
      let next : Run lru Val (List Ksuid) = elim (lru.find from st.paths) [
        | some cached ↦ (ok (take_through to cached), st')
        | none ↦ elim fetched [
          | err e ↦ (err e, st'')
          | ok o ↦
              let rest = path_range n o.parent to st'' in
              if from == to then (ok (from ∷ []), st'') else cons_path from rest
        ]
      ] in
      if from == nil_ksuid then (ok [], st) else next

  unfoldable pub cache_path : Ksuid → Run lru Val (List Ksuid) → Run lru Val (List Ksuid)
  cache_path leaf (ok path, st) = (ok path, record st { paths = lru.insert leaf path st.paths })
  cache_path leaf (err e, st) = (err e, st)

  -- `Path`
  unfoldable pub path : ℕ → Ksuid → CommitStore lru Val → Run lru Val (List Ksuid)
  unfolding path_range cache_path
  path fuel leaf st =
      let st' = record st { paths = lru.touch leaf st.paths } in
      let found : Run lru Val (List Ksuid) = elim (lru.find leaf st.paths) [
        | some cached ↦ (ok cached, st')
        | none ↦ cache_path leaf (path_range fuel leaf nil_ksuid st')
      ] in
      if leaf == nil_ksuid then (err no_path, st) else found

  -- The object of a commit, played into a patch.
  unfoldable pub play_commit : Ksuid → Patch Val → CommitStore lru Val → Run lru Val (Patch Val)
  unfolding get_object play
  play_commit c p st =
      let (fetched, st') = get_object lru c st in (fetched >>= (λ o. play patch_writeable p o), st')

  unfoldable pub patch_on : Ksuid → Run lru Val (Snapshot Val) → Run lru Val (Patch Val)
  unfolding play_commit
  patch_on c (ok base, st) = play_commit c (new_patch (snapshot base)) st
  patch_on c (err e, st) = (err e, st)

  unfoldable pub patch_of_path_found :
      ℕ → Ksuid → Run lru Val (List Ksuid) → Run lru Val (Patch Val)
  unfolding snapshot_at patch_on
  patch_of_path_found fuel c (err e, st) = (err e, st)
  patch_of_path_found fuel c (ok [], st) = (err pathless, st)
  patch_of_path_found fuel c (ok (_ ∷ []), st) = patch_on c (ok new_snapshot, st)
  patch_of_path_found fuel c (ok (_ ∷ parent ∷ _), st) = patch_on c (snapshot_at lru fuel parent st)

  -- `PatchOfCommit`
  unfoldable pub patch_of_commit : ℕ → Ksuid → CommitStore lru Val → Run lru Val (Patch Val)
  unfolding path patch_of_path_found
  patch_of_commit fuel c st = patch_of_path_found fuel c (path fuel c st)

  -- The loop of `PatchOfPath` from the last element of the path but one to the first.
  unfoldable pub play_path : List Ksuid → Patch Val → CommitStore lru Val → Run lru Val (Patch Val)
  unfolding play_commit
  play_path [] p st = (ok p, st)
  play_path (_ ∷ []) p st = (ok p, st)
  play_path (c ∷ c' ∷ cs) p st =
      let (before, st') = play_path (c' ∷ cs) p st in
      elim before [ err e ↦ (err e, st') | ok p' ↦ play_commit c p' st' ]

  -- `PatchOfPath`
  unfoldable pub patch_of_path :
      ℕ → Snapshot Val → Ksuid → Ksuid → CommitStore lru Val → Run lru Val (Patch Val)
  unfolding path_range play_path
  patch_of_path fuel base base_id c st =
      let (found, st') = path_range fuel c base_id st in
      elim found [ err e ↦ (err e, st') | ok ids ↦ play_path ids (new_patch (snapshot base)) st' ]

  -- The objects that a commit adds and that are not in the snapshot.
  unfoldable pub vacuumable_of : Snapshot Val → List (Action Val) → List (DataObject Val)
  unfolding exists_in
  vacuumable_of snap [] = []
  vacuumable_of snap (add _ o ∷ as') =
      let rest = vacuumable_of snap as' in if exists_in o.id snap then rest else o ∷ rest
  vacuumable_of snap (_ ∷ as') = vacuumable_of snap as'

  -- The loop of `Vacuumable`, which a failing `Get` ends without an error. It answers what it sends
  -- to the channel, in order, and no more on the rounds' end.
  unfoldable pub vacuum_loop :
      ℕ
      → Snapshot Val
      → Ksuid
      → Ksuid
      → CommitStore lru Val
      → List (DataObject Val) × CommitStore lru Val
  unfolding get_object vacuumable_of
  vacuum_loop zero snap leaf at' st = ([], st)
  vacuum_loop (suc n) snap leaf at' st =
      let (fetched, st') = get_object lru at' st in
      let next : List (DataObject Val) × CommitStore lru Val = elim fetched [
        | err _ ↦ ([], st')
        | ok o ↦
            let (rest, st'') = vacuum_loop n snap leaf o.parent st' in
            let found = vacuumable_of snap o.actions in
            (if o.commit == leaf then rest else found ++ rest, st'')
      ] in
      if at' == nil_ksuid then ([], st) else next

  -- `Vacuumable`
  unfoldable pub vacuumable : ℕ → Ksuid → CommitStore lru Val → Run lru Val (List (DataObject Val))
  unfolding snapshot_at vacuum_loop
  vacuumable fuel leaf st =
      let (found, st') = snapshot_at lru fuel leaf st in
      elim found [
        | err e ↦ (err e, st')
        | ok snap ↦ let (out, st'') = vacuum_loop fuel snap leaf leaf st' in (ok out, st'')
      ]

-- `GetBytes`: the file, and its first action, which must be a commit. A file with no actions has no
-- first record, and fails in the same way.
unfoldable pub first_commit :
    {Val : Type 0} → List (Action Val) → Result (List (Action Val) × CommitInfo Val)
first_commit (commit i ∷ as') = ok (commit i ∷ as', i)
first_commit _ = err bad_commit_object

unfoldable pub get_bytes :
    {Val : Type 0} → Ksuid → Files Val → Result (List (Action Val) × CommitInfo Val)
unfolding first_commit
get_bytes c files = elim (get c files) [ none ↦ err no_file | some b ↦ first_commit b ]

-- `ReadAll`: the files from the one after `stop` to the commit's.
unfoldable pub read_all :
    {Val : Type 0} → ℕ → Ksuid → Ksuid → Files Val → Result (List (Action Val))
unfolding get_bytes
read_all zero c stop files = err endless
read_all (suc n) c stop files =
    let more =
      get_bytes c files
      >>= (λ (b, i). read_all n i.parent stop files >>= λ before. ok (before ++ b)) in
    if c == nil_ksuid then ok [] else if c == stop then ok [] else more

-- ===== src/Lake/Branch/Create.antt =====
-- lake/branch.go: the constructors of commit objects. The snapshot and path loops run on `fuel`
-- rounds. What `NewObject` draws, and the message, are given by a stamp for the branch's
-- configuration and the attempt; CreateVector's files and the rendering of messages are left out.
use zed.Prelude.{ℕ, List, [], ◌∷◌, ◌==◌, if◌then◌else◌, not}
use zed.Prelude.Eq.{nat_eq}
use zed.Lake.Data.{Ksuid, nil_ksuid, DataObject}
use zed.Lake.Result.{
  Result, ok, err, no_ancestor, no_such_object, vector_exists, no_such_vector, not_found, ◌>>=◌,
}
use zed.Lake.Commits.Actions.{
  CommitObject, Stamp, new_adds_object, new_deletes_object, new_add_vectors_object,
  new_delete_vectors_object,
}
use zed.Lake.Commits.Snapshot.{Snapshot, lookup, exists_in, has_vector}
use zed.Lake.Commits.Patch.{
  Patch, snapshot, new_patch, patch_add, patch_delete, patch_add_vector, new_commit_object, revert,
  diff,
}
use zed.Lake.Commits.Cache.{Lru}
use zed.Lake.Commits.Store.{CommitStore, Run, snapshot_at}
use zed.Lake.Commits.Store.Paths.{path, patch_of_commit, patch_of_path}
use zed.Lake.Branches.{Config}
use zed.Lake.Branch.{Constructor, common_ancestor}

module _ {Val : Type 0} where
  -- The loop of `Delete`: `Lookup` of every KSUID.
  unfoldable pub all_found : List Ksuid → Snapshot Val → Result (Unit {0})
  unfolding lookup
  all_found [] snap = ok tt
  all_found (id ∷ ids) snap = lookup id snap >>= λ _. all_found ids snap

  unfoldable pub can_add_vectors : List Ksuid → Snapshot Val → Result (Unit {0})
  unfolding exists_in has_vector
  can_add_vectors [] snap = ok tt
  can_add_vectors (id ∷ ids) snap =
      let rest = can_add_vectors ids snap in
      if not (exists_in id snap)
      then err (no_such_object id)
      else if has_vector id snap
      then err (vector_exists id)
      else rest

  unfoldable pub can_delete_vectors : List Ksuid → Snapshot Val → Result (Unit {0})
  unfolding exists_in has_vector
  can_delete_vectors [] snap = ok tt
  can_delete_vectors (id ∷ ids) snap =
      let rest = can_delete_vectors ids snap in
      if not (exists_in id snap)
      then err (no_such_object id)
      else if not (has_vector id snap)
      then err (no_such_vector id)
      else rest

  -- The three loops of `CommitCompact`.
  unfoldable pub add_rollup : List (DataObject Val) → Patch Val → Result (Patch Val)
  unfolding patch_add
  add_rollup [] p = ok p
  add_rollup (o ∷ os) p = patch_add o p >>= λ p'. add_rollup os p'

  unfoldable pub add_rollup_vectors : List Ksuid → Patch Val → Result (Patch Val)
  unfolding patch_add_vector
  add_rollup_vectors [] p = ok p
  add_rollup_vectors (id ∷ ids) p = patch_add_vector id p >>= λ p'. add_rollup_vectors ids p'

  unfoldable pub delete_sources : List (DataObject Val) → Patch Val → Result (Patch Val)
  unfolding patch_delete
  delete_sources [] p = ok p
  delete_sources (o ∷ os) p = patch_delete o.id p >>= λ p'. delete_sources os p'

  -- What each constructor makes of the snapshot at the branch's tip.
  unfoldable pub delete_object_of :
      List Ksuid → Ksuid → Stamp Val → Snapshot Val → Result (CommitObject Val)
  unfolding all_found new_deletes_object
  delete_object_of ids parent s snap =
      all_found ids snap >>= λ _. ok (new_deletes_object parent s ids)

  unfoldable pub add_vectors_object_of :
      List Ksuid → Ksuid → Stamp Val → Snapshot Val → Result (CommitObject Val)
  unfolding can_add_vectors new_add_vectors_object
  add_vectors_object_of ids parent s snap =
      can_add_vectors ids snap >>= λ _. ok (new_add_vectors_object parent s ids)

  unfoldable pub delete_vectors_object_of :
      List Ksuid → Ksuid → Stamp Val → Snapshot Val → Result (CommitObject Val)
  unfolding can_delete_vectors new_delete_vectors_object
  delete_vectors_object_of ids parent s snap =
      can_delete_vectors ids snap >>= λ _. ok (new_delete_vectors_object parent s ids)

  unfoldable pub compact_object_of :
      List (DataObject Val)
      → List (DataObject Val)
      → List Ksuid
      → Ksuid
      → Stamp Val
      → Snapshot Val
      → Result (CommitObject Val)
  unfolding add_rollup add_rollup_vectors delete_sources new_commit_object
  compact_object_of src rollup vectors parent s base =
      add_rollup rollup (new_patch (snapshot base)) >>= λ p. add_rollup_vectors vectors p >>= λ p'.
      delete_sources src p' >>= λ p''. ok (new_commit_object parent s p'')

module _ (lru : Lru) {Val : Type 0} (fuel : ℕ) (stamp : Config → ℕ → Stamp Val) where
  -- `Load`, of the objects that its writer made.
  unfoldable pub load_create : List (DataObject Val) → Constructor lru Val
  unfolding new_adds_object
  load_create objects config n st =
      (ok (new_adds_object config.commit (stamp config n) objects), st)

  -- A constructor that only needs the snapshot at the tip.
  unfoldable pub on_snapshot :
      (Ksuid → Stamp Val → Snapshot Val → Result (CommitObject Val)) → Constructor lru Val
  unfolding snapshot_at
  on_snapshot make config n st =
      let (found, st') = snapshot_at lru fuel config.commit st in
      (found >>= (λ snap. make config.commit (stamp config n) snap), st')

  unfoldable pub delete_create : List Ksuid → Constructor lru Val
  unfolding on_snapshot delete_object_of
  delete_create ids = on_snapshot (delete_object_of ids)

  unfoldable pub add_vectors_create : List Ksuid → Constructor lru Val
  unfolding on_snapshot add_vectors_object_of
  add_vectors_create ids = on_snapshot (add_vectors_object_of ids)

  unfoldable pub delete_vectors_create : List Ksuid → Constructor lru Val
  unfolding on_snapshot delete_vectors_object_of
  delete_vectors_create ids = on_snapshot (delete_vectors_object_of ids)

  unfoldable pub compact_create :
      List (DataObject Val) → List (DataObject Val) → List Ksuid → Constructor lru Val
  unfolding on_snapshot compact_object_of
  compact_create src rollup vectors = on_snapshot (compact_object_of src rollup vectors)

  -- `Revert`, where any error of `PatchOfCommit` is a commit that is not found.
  unfoldable pub revert_patch :
      Config → ℕ → Run lru Val (Patch Val) → Run lru Val (CommitObject Val)
  unfolding snapshot_at revert
  revert_patch config n (err _, st) = (err not_found, st)
  revert_patch config n (ok p, st) =
      let (found, st') = snapshot_at lru fuel config.commit st in
      (found >>= (λ tip. revert tip config.commit (stamp config n) p), st')

  unfoldable pub revert_create : Ksuid → Constructor lru Val
  unfolding revert_patch patch_of_commit
  revert_create c config n st = revert_patch config n (patch_of_commit lru fuel c st)

  -- `buildMergeObject`, from the two paths on, and from the base's snapshot on.
  unfoldable pub merge_on :
      Ksuid
      → Config
      → ℕ
      → Ksuid
      → Snapshot Val
      → CommitStore lru Val
      → Run lru Val (CommitObject Val)
  unfolding patch_of_path diff new_commit_object
  merge_on child config n base_id base st =
      let (child_patch, st₁) = patch_of_path lru fuel base base_id child st in
      let (parent_patch, st₂) = patch_of_path lru fuel base base_id config.commit st₁ in
      let merged : Run lru Val (CommitObject Val) = (
        parent_patch >>= (λ pp. child_patch >>= λ cp.
            diff pp cp >>= λ d. ok (new_commit_object config.commit (stamp config n) d)),
        st₂,
      ) in
      elim child_patch [ err e ↦ (err e, st₁) | ok _ ↦ merged ]

  unfoldable pub merge_at :
      Ksuid → Config → ℕ → Ksuid → CommitStore lru Val → Run lru Val (CommitObject Val)
  unfolding snapshot_at merge_on
  merge_at child config n base_id st =
      let (found, st') = snapshot_at lru fuel base_id st in
      let merged : Run lru Val (CommitObject Val) = elim found [
        | err e ↦ (err e, st')
        | ok base ↦ merge_on child config n base_id base st'
      ] in
      if base_id == nil_ksuid then (err no_ancestor, st) else merged

  unfoldable pub merge_paths :
      Ksuid → Config → ℕ → List Ksuid → Run lru Val (List Ksuid) → Run lru Val (CommitObject Val)
  unfolding merge_at common_ancestor
  merge_paths child config n child_path (err e, st) = (err e, st)
  merge_paths child config n child_path (ok parent_path, st) =
      merge_at child config n (common_ancestor parent_path child_path) st

  -- `mergeInto`, with the child branch's commit.
  unfoldable pub merge_create : Ksuid → Constructor lru Val
  unfolding path merge_paths
  merge_create child config n st =
      let (child_path, st') = path lru fuel child st in
      elim child_path [
        | err e ↦ (err e, st')
        | ok ids ↦ merge_paths child config n ids (path lru fuel config.commit st')
      ]

-- ===== src/Lake/Branch/Operations.antt =====
-- lake/branch.go: the operations of a branch, made of `commit` and the constructors.
use Prim.Native.String.{String}
use zed.Prelude.{ℕ, List, [], ◌∷◌, ◌++◌, Bool, true, false, ◌==◌, if◌then◌else◌, length}
use zed.Lake.Data.{Ksuid, DataObject}
use zed.Lake.Result.{Result, ok, err, no_rollup, merge_self, empty_transaction}
use zed.Lake.Commits.Actions.{Stamp}
use zed.Lake.Commits.Patch.{data_objects}
use zed.Lake.Commits.Cache.{Lru}
use zed.Lake.Commits.Store.{CommitStore, Run}
use zed.Lake.Commits.Store.Paths.{patch_of_commit}
use zed.Lake.Branches.{Config, BranchJournal}
use zed.Lake.Branch.{PoolState, Committing, commit}
use zed.Lake.Branch.Create.{
  load_create, delete_create, revert_create, compact_create, merge_create, add_vectors_create,
  delete_vectors_create,
}

module _ (lru : Lru) {Val : Type 0} (supported : Bool)
    (others : ℕ → ℕ → BranchJournal → BranchJournal)
    (meanwhile : ℕ → PoolState lru Val → PoolState lru Val) (fuel : ℕ)
    (stamp : Config → ℕ → Stamp Val) (name : String) where
  -- `Load`, of the objects that its writer made.
  unfoldable pub load_objects : List (DataObject Val) → PoolState lru Val → Committing lru Val
  unfolding commit load_create
  load_objects objects st =
      if length objects == 0
      then (err empty_transaction, st)
      else commit lru supported others meanwhile name (load_create lru fuel stamp objects) st

  -- `Delete`
  unfoldable pub delete_objects : List Ksuid → PoolState lru Val → Committing lru Val
  unfolding commit delete_create
  delete_objects ids = commit lru supported others meanwhile name (delete_create lru fuel stamp ids)

  -- `Revert`
  unfoldable pub revert_commit : Ksuid → PoolState lru Val → Committing lru Val
  unfolding commit revert_create
  revert_commit c = commit lru supported others meanwhile name (revert_create lru fuel stamp c)

  unfoldable pub commit_compact :
      List (DataObject Val)
      → List (DataObject Val)
      → List Ksuid
      → PoolState lru Val
      → Committing lru Val
  unfolding commit compact_create
  commit_compact src rollup vectors st =
      if length rollup == 0
      then (err no_rollup, st)
      else commit lru supported others meanwhile name
          (compact_create lru fuel stamp src rollup vectors) st

  -- `mergeInto` of a child at a commit into this branch; `same` says whether it is this branch.
  unfoldable pub merge_into : Bool → Ksuid → PoolState lru Val → Committing lru Val
  unfolding commit merge_create
  merge_into same child st =
      if same
      then (err merge_self, st)
      else commit lru supported others meanwhile name (merge_create lru fuel stamp child) st

  -- `AddVectors`, once the vector files are made.
  unfoldable pub add_vectors : List Ksuid → PoolState lru Val → Committing lru Val
  unfolding commit add_vectors_create
  add_vectors ids =
      commit lru supported others meanwhile name (add_vectors_create lru fuel stamp ids)

  unfoldable pub delete_vectors : List Ksuid → PoolState lru Val → Committing lru Val
  unfolding commit delete_vectors_create
  delete_vectors ids =
      commit lru supported others meanwhile name (delete_vectors_create lru fuel stamp ids)

-- `LookupTags`, with `ObjectExists` of the pool, which asks the storage engine: a tag is an object's
-- or a commit's, and one that is neither is passed over.
module _ (lru : Lru) {Val : Type 0} (fuel : ℕ) (object_exists : Ksuid → Result Bool) where
  unfoldable pub lookup_tags : List Ksuid → CommitStore lru Val → Run lru Val (List Ksuid)
  unfolding patch_of_commit data_objects
  lookup_tags [] st = (ok [], st)
  lookup_tags (tag ∷ tags) st =
      let (patched, st') = patch_of_commit lru fuel tag st in
      let (rest, st₁) = lookup_tags tags st in
      let (rest', st₂) = lookup_tags tags st' in
      let prepend : List Ksuid → Result (List Ksuid) → Result (List Ksuid) =
        λ ids r. elim r [ ok more ↦ ok (ids ++ more) | err e ↦ err e ] in
      elim (object_exists tag) [
        | err e ↦ (err e, st)
        | ok true ↦ (prepend (tag ∷ []) rest, st₁)
        | ok false ↦ elim patched [
          | err _ ↦ (rest', st₂)
          | ok p ↦ (prepend (data_objects p) rest', st₂)
        ]
      ]

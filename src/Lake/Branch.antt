-- ===== src/Lake/Branch.antt =====
-- lake/branch.go: the operations that put a new commit on a branch.
pub mod Commit
pub mod Create
pub mod Operations
pub mod Deletes
pub mod Ancestor
mod Tests
use Prim.Native.String.{String}
use zed.Prelude.{
  ℕ, zero, suc, ◌+◌, List, [], ◌∷◌, Bool, true, false, Option, none, some, ◌==◌, if◌then◌else◌,
}
use zed.Prelude.Eq.{nat_eq}
use zed.Prelude.Dict.{mem}
use zed.Lake.Data.{Ksuid, nil_ksuid, DataObject}
use zed.Lake.Result.{
  Result, ok, err, commit_failed, journal_error, no_ancestor, no_rollup, no_such_object,
  vector_exists, no_such_vector, empty_transaction, ◌>>=◌,
}
use zed.Lake.Journal.Queue.{ok as succeeded, err as failed, constraint}
use zed.Lake.Journal.Transaction.{Outcome}
use zed.Lake.Commits.Actions.{
  CommitObject, Stamp, new_deletes_object, new_add_vectors_object, new_delete_vectors_object,
}
use zed.Lake.Commits.Snapshot.{Snapshot, lookup, exists_in, has_vector}
use zed.Lake.Commits.Patch.{
  Patch, snapshot, new_patch, patch_add, patch_delete, patch_add_vector, new_commit_object, revert,
  diff,
}
use zed.Lake.Commits.Cache.{Lru}
use zed.Lake.Commits.Store.{CommitStore, Run, put_object, remove_object, snapshot_at}
use zed.Lake.Commits.Store.Paths.{path, patch_of_commit, patch_of_path}
use zed.Lake.Branches.{Config, Branches, BranchJournal, lookup_by_name, update_branch}

-- The stores of a pool that a branch works on.
pub record PoolState (lru : Lru) (Val : Type 0) : Type 0 where
  pub commits : CommitStore lru Val
  pub branches : Branches
  pub journal : BranchJournal

abbrev pub max_commit_retries : ℕ
max_commit_retries = 10

abbrev pub Committing : Lru → Type 0 → Type 0
Committing lru Val = Result Ksuid × PoolState lru Val

-- A `constructor`: the branch that it builds on, and the number of the attempt.
abbrev pub Constructor : Lru → Type 0 → Type 0
Constructor lru Val = Config → ℕ → CommitStore lru Val → Run lru Val (CommitObject Val)

-- `parentCheck`
abbrev pub parent_check : Config → Config → Bool
parent_check config entry = entry.commit == config.commit

module _ (lru : Lru) {Val : Type 0} where
  abbrev pub with_branches : PoolState lru Val → Branches → BranchJournal → PoolState lru Val
  with_branches st s q = record st { branches = s; journal = q }

  -- What `commit` does with the answer of `Update`; it removes the commit object on any error, and
  -- tries again if the check failed.
  unfoldable pub updated :
      (PoolState lru Val → Committing lru Val)
      → CommitObject Val
      → Outcome String Config (Unit {0})
      → PoolState lru Val
      → Committing lru Val
  unfolding remove_object
  updated again object (succeeded _, s, q) st = (ok object.commit, with_branches st s q)
  updated again object (failed constraint, s, q) st =
      again (record (with_branches st s q) { commits = remove_object lru object st.commits })
  updated again object (failed x, s, q) st = (
    err (journal_error x),
    record (with_branches st s q) { commits = remove_object lru object st.commits },
  )

  -- `others` is what other processes do to the journal while `Update` runs, and `meanwhile` what
  -- they do before it.
  module _ (supported : Bool) (others : ℕ → ℕ → BranchJournal → BranchJournal)
      (meanwhile : ℕ → PoolState lru Val → PoolState lru Val) (name : String)
      (create : Constructor lru Val) where
    unfoldable pub stored :
        (PoolState lru Val → Committing lru Val)
        → ℕ
        → Config
        → CommitObject Val
        → Run lru Val (Unit {0})
        → PoolState lru Val
        → Committing lru Val
    unfolding updated update_branch
    stored again n config object (ok _, cs) st =
        let st' = meanwhile n (record st { commits = cs }) in
        updated again object
          (update_branch supported (others n) (record config { commit = object.commit })
            (some (parent_check config)) st'.branches st'.journal)
          st'
    stored again n config object (err e, cs) st = (err e, record st { commits = cs })

    unfoldable pub created :
        (PoolState lru Val → Committing lru Val)
        → ℕ
        → Config
        → Run lru Val (CommitObject Val)
        → PoolState lru Val
        → Committing lru Val
    unfolding stored put_object
    created again n config (ok object, cs) st =
        stored again n config object (put_object lru object cs) st
    created again n config (err e, cs) st = (err e, record st { commits = cs })

    unfoldable pub looked_up :
        (PoolState lru Val → Committing lru Val)
        → ℕ
        → Result Config × Branches × BranchJournal
        → PoolState lru Val
        → Committing lru Val
    unfolding created
    looked_up again n (ok config, s, q) st =
        created again n config (create config n st.commits) (with_branches st s q)
    looked_up again n (err e, s, q) st = (err e, with_branches st s q)

    -- The loop of `commit`, with the attempts left and the number of this one.
    unfoldable pub commit_loop : ℕ → ℕ → PoolState lru Val → Committing lru Val
    unfolding looked_up lookup_by_name
    commit_loop zero n st = (err commit_failed, st)
    commit_loop (suc left) n st =
        looked_up (λ st'. commit_loop left (n + 1) st') n
          (lookup_by_name name st.branches st.journal) st

    unfoldable pub commit : PoolState lru Val → Committing lru Val
    unfolding commit_loop
    commit st = commit_loop max_commit_retries 0 st

-- `commonAncestor`
unfoldable pub common_ancestor : List Ksuid → List Ksuid → Ksuid
common_ancestor a [] = nil_ksuid
common_ancestor a (id ∷ ids) = if mem id a then id else common_ancestor a ids

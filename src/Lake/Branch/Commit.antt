-- ===== src/Lake/Branch/Commit.antt =====
-- A commit on a branch, against other processes that commit on it too.
use Prim.Native.String.{String}
use zed.Prelude.{
  List, Bool-cases, inl, inr, ℕ, zero, suc, ◌+◌, ◌≡◌, refl, ap, subst, [], ◌∷◌, ◌++◌, Bool, true,
  Option, some,
}
use zed.Prelude.Eq.{nat_eq, string_eq}
use zed.Lake.Data.{Ksuid}
use zed.Lake.Result.{Result, ok, err}
use zed.Lake.Journal.Queue.{ok as succeeded, err as failed, constraint, Result as JournalResult}
use zed.Lake.Journal.Store.{update, StoreEntry, max_retries}
use zed.Lake.Journal.Store.Log.{IsJournal}
use zed.Lake.Journal.Transaction.{constraint_check, update_value, all_of}
use zed.Lake.Journal.Transaction.Effect.{TookEffect, Cooperate}
use zed.Lake.Journal.Transaction.Serial.{commit_serial}
use zed.Lake.Journal.Transaction.Grows.{Grown}
use zed.Lake.Journal.Transaction.Keeps.{all_of-Grown, update_value-Grown}
use zed.Lake.Commits.Actions.{CommitObject}
use zed.Lake.Commits.Cache.{Lru}
use zed.Lake.Commits.Store.{CommitStore, Run, put_object}
use zed.Lake.Branches.{
  find_name, listed, Config, config_key, Branches, BranchJournal, lookup_by_name, update_branch,
}
use zed.Lake.Branch.{
  PoolState, Committing, Constructor, with_branches, parent_check, updated, stored, created,
  looked_up, commit_loop, commit, max_commit_retries,
}

abbrev pub BranchLog : Type 0
BranchLog = List (List (StoreEntry String Config))

-- Sound, with a journal that holds `log` and perhaps more behind it.
abbrev pub BranchesFrom : {lru : Lru} {Val : Type 0} → BranchLog → PoolState lru Val → Type 0
BranchesFrom log st = Grown config_key log st.branches st.journal

find_name-name :
    (name : String) (cs : List Config) (config : Config)
    → find_name name cs ≡ ok config
    → config.name ≡ name
unfolding find_name
find_name-name name [] config h = cc
find_name-name name (c ∷ cs) config h = elim (Bool-cases (string_eq.beq c.name name)) [
  | inl p ↦
      let q = (string_eq.beq_iff c.name name).0 p in
      let r : c ≡ config = (let z = rw p at h in cc) in rw (← r) q
  | inr p ↦ find_name-name name cs config (rw p at h)
]

module _ (lru : Lru) {Val : Type 0} (others : ℕ → ℕ → BranchJournal → BranchJournal)
    (meanwhile : ℕ → PoolState lru Val → PoolState lru Val) (name : String)
    (create : Constructor lru Val) where
  -- How a commit came to be on the branch of a pool whose journal held `log`: the configuration that
  -- the last attempt saw, the object that it made of it and wrote, and the update that took effect
  -- on the pool that the others had left then, whose journal held `log` and `more`.
  pub record Committed (log : BranchLog) (id : Ksuid) (st : PoolState lru Val) : Type 0 where
    pub attempt : ℕ
    pub seen : Config
    pub from : CommitStore lru Val
    pub after : CommitStore lru Val
    pub object : CommitObject Val
    pub made : create seen attempt from ≡ (ok object, after)
    pub named : seen.name ≡ name
    pub returned : object.commit ≡ id
    pub pool : PoolState lru Val
    pub wrote : put_object lru object after ≡ (ok tt, pool.commits)
    pub more : BranchLog
    pub held : IsJournal config_key (log ++ more) (meanwhile attempt pool).journal
    pub effect :
        TookEffect config_key
          (others attempt)
          (constraint_check seen.name (some (parent_check seen)))
          (update (record seen { commit = id }) ∷ [])
          max_retries
          (log ++ more)
          (meanwhile attempt pool).branches
          (meanwhile attempt pool).journal
          st.journal

  abbrev Good : BranchLog → Committing lru Val → Type 0
  Good log (ok id, st) = Committed log id st × BranchesFrom log st
  Good log (err _, st) = BranchesFrom log st

  module _ (fair : (n : ℕ) → Cooperate config_key (others n))
      (keeps : (n : ℕ) (log : BranchLog) (st : PoolState lru Val)
        → BranchesFrom log st
        → BranchesFrom log (meanwhile n st))
      (log : BranchLog) where
    update_branch-Grown :
        (n : ℕ) (config : Config) (c : Option (Config → Bool)) (st : PoolState lru Val)
        → BranchesFrom log st
        → Grown config_key log
            (update_branch true (others n) config c st.branches st.journal).1
            (update_branch true (others n) config c st.branches st.journal).2
    unfolding update_branch
    update_branch-Grown n config c st d =
        update_value-Grown config_key (others n) config c log st.branches st.journal (fair n) d

    update_branch-TookEffect :
        (n : ℕ) (config : Config) (c : Option (Config → Bool)) (st : PoolState lru Val)
        (s : Branches) (q : BranchJournal) (d : BranchesFrom log st)
        → update_branch true (others n) config c st.branches st.journal ≡ (succeeded tt, s, q)
        → TookEffect config_key
            (others n)
            (constraint_check config.name c)
            (update config ∷ [])
            max_retries
            (log ++ d.more)
            st.branches
            st.journal
            q
    unfolding update_branch update_value
    update_branch-TookEffect n config c st s q d h =
        commit_serial config_key (others n) (constraint_check config.name c) (update config ∷ [])
          (fair n) (log ++ d.more) st.branches s st.journal q d.replayable d.journal d.current h

    updated-Good :
        (again : PoolState lru Val → Committing lru Val) (object : CommitObject Val)
        (r : JournalResult (Unit {0})) (s : Branches) (q : BranchJournal) (st : PoolState lru Val)
        → ((st' : PoolState lru Val) → BranchesFrom log st' → Good log (again st'))
        → Grown config_key log s q
        → (r ≡ succeeded tt → Committed log object.commit (with_branches lru st s q))
        → Good log (updated lru again object (r, s, q) st)
    unfolding updated
    updated-Good again object (succeeded tt) s q st rec d h = (h refl, d)
    updated-Good again object (failed constraint) s q st rec d h = rec _ d
    updated-Good again object (failed _) s q st rec d h = d

    stored-Good :
        (again : PoolState lru Val → Committing lru Val) (n : ℕ) (config : Config)
        (from after : CommitStore lru Val) (object : CommitObject Val) (r : Run lru Val (Unit {0}))
        (st : PoolState lru Val)
        → ((st' : PoolState lru Val) → BranchesFrom log st' → Good log (again st'))
        → config.name ≡ name
        → create config n from ≡ (ok object, after)
        → put_object lru object after ≡ r
        → BranchesFrom log st
        → Good log (stored lru true others meanwhile name create again n config object r st)
    unfolding stored
    stored-Good again n config from after object (err e, cs) st rec nm m wr d = d
    stored-Good again n config from after object (ok u, cs) st rec nm m wr d =
        let st' = meanwhile n (record st { commits = cs }) in
        let d' : BranchesFrom log st' = keeps n log (record st { commits = cs }) d in
        let config' = record config { commit = object.commit } in
        let check = some (parent_check config) in
        let r = update_branch true (others n) config' check st'.branches st'.journal in
        updated-Good again object r.0 r.1 r.2 st' rec (update_branch-Grown n config' check st' d')
          (λ succ. record {
            attempt = n;
            seen = config;
            from = from;
            after = after;
            object = object;
            made = m;
            named = nm;
            returned = refl;
            pool = record st { commits = cs };
            wrote = wr;
            more = d'.more;
            held = d'.journal;
            effect =
                update_branch-TookEffect n config' check st' r.1 r.2 d'
                  (ap (λ z. (z, r.1, r.2)) succ);
          })

    created-Good :
        (again : PoolState lru Val → Committing lru Val) (n : ℕ) (config : Config)
        (from : CommitStore lru Val) (r : Run lru Val (CommitObject Val)) (st : PoolState lru Val)
        → ((st' : PoolState lru Val) → BranchesFrom log st' → Good log (again st'))
        → config.name ≡ name
        → create config n from ≡ r
        → BranchesFrom log st
        → Good log (created lru true others meanwhile name create again n config r st)
    unfolding created
    created-Good again n config from (ok object, cs) st rec nm m d =
        let p = put_object lru object cs in
        stored-Good again n config from cs object p st rec nm m refl d
    created-Good again n config from (err e, cs) st rec nm m d = d

    looked_up-Good :
        (again : PoolState lru Val → Committing lru Val) (n : ℕ) (r : Result Config) (s : Branches)
        (q : BranchJournal) (st : PoolState lru Val)
        → ((st' : PoolState lru Val) → BranchesFrom log st' → Good log (again st'))
        → ((config : Config) → r ≡ ok config → config.name ≡ name)
        → Grown config_key log s q
        → Good log (looked_up lru true others meanwhile name create again n (r, s, q) st)
    unfolding looked_up
    looked_up-Good again n (ok config) s q st rec nm d =
        created-Good again n config st.commits (create config n st.commits)
          (with_branches lru st s q) rec (nm config refl) refl d
    looked_up-Good again n (err e) s q st rec nm d = d

    lookup_by_name-Grown :
        (st : PoolState lru Val)
        → BranchesFrom log st
        → Grown config_key log
            (lookup_by_name name st.branches st.journal).1
            (lookup_by_name name st.branches st.journal).2
    unfolding lookup_by_name
    lookup_by_name-Grown st d = all_of-Grown config_key log st.branches st.journal d

    lookup_by_name-name :
        (st : PoolState lru Val) (config : Config)
        → (lookup_by_name name st.branches st.journal).0 ≡ ok config
        → config.name ≡ name
    unfolding lookup_by_name
    lookup_by_name-name st config h =
        find_name-name name (listed (all_of config_key st.branches st.journal).0) config h

    loop-Good :
        (left n : ℕ) (st : PoolState lru Val)
        → BranchesFrom log st
        → Good log (commit_loop lru true others meanwhile name create left n st)
    unfolding commit_loop
    loop-Good zero n st d = d
    loop-Good (suc left) n st d =
        let l = lookup_by_name name st.branches st.journal in
        looked_up-Good (λ st'. commit_loop lru true others meanwhile name create left (n + 1) st') n
          l.0 l.1 l.2 st (λ st' d'. loop-Good left (n + 1) st' d') (lookup_by_name-name st)
          (lookup_by_name-Grown st d)

    pub branch_commit_serial :
        (st st' : PoolState lru Val) (id : Ksuid)
        → BranchesFrom log st
        → commit lru true others meanwhile name create st ≡ (ok id, st')
        → Committed log id st' × BranchesFrom log st'
    unfolding commit
    branch_commit_serial st st' id d h = subst (Good log) h (loop-Good max_commit_retries 0 st d)

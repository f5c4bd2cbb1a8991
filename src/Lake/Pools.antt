-- ===== src/Lake/Pools.antt =====
-- lake/pools/: the pools of a lake, a table of configurations by name that is kept in a journal. The
-- sort keys, the seek stride and the threshold are of a type that the code here only passes on.
pub mod Rename
mod Tests
use Prim.Native.String.{String}
use zed.Prelude.{ℕ, List, [], ◌∷◌, Bool, true, false, Option, none, some, ◌==◌, if◌then◌else◌}
use zed.Prelude.Int.{ℤ}
use zed.Prelude.Eq.{Eq, nat_eq, string_eq, beq}
use zed.Lake.Data.{Ksuid}
use zed.Lake.Result.{Result, ok, err, pool_exists, pool_not_found, pool_renamed, journal_error}
use zed.Lake.Journal.Queue.{
  ok as succeeded, err as failed, no_such_key, key_exists, constraint, Result as JournalResult,
}
use zed.Lake.Journal.Store.{Store, Journal}
use zed.Lake.Journal.Transaction.{Outcome, all_of, insert, move, delete_key}

pub record PoolConfig (Opt : Type 0) : Type 0 where
  pub ts : ℤ
  pub name : String
  pub id : Ksuid
  pub options : Opt

abbrev pub pool_key : {Opt : Type 0} → PoolConfig Opt → String
pool_key c = c.name

-- The answer of an operation, the table of pools and its journal.
abbrev pub PoolsRun : Type 0 → Type 0 → Type 0
PoolsRun Opt A = A × Store String (PoolConfig Opt) × Journal String (PoolConfig Opt)

-- The errors that `Rename` and `Remove` tell apart.
unfoldable pub rename_error : JournalResult (Unit {0}) → Result (Unit {0})
rename_error (succeeded u) = ok u
rename_error (failed key_exists) = err pool_exists
rename_error (failed no_such_key) = err pool_not_found
rename_error (failed x) = err (journal_error x)

unfoldable pub remove_pool_error : JournalResult (Unit {0}) → Result (Unit {0})
remove_pool_error (succeeded u) = ok u
remove_pool_error (failed no_such_key) = err pool_not_found
remove_pool_error (failed constraint) = err pool_renamed
remove_pool_error (failed x) = err (journal_error x)

module _ {Opt : Type 0} where
  -- The loops of `LookupByID` and `LookupByName`; an error of `All` is taken for an empty list.
  unfoldable pub find_id : Ksuid → JournalResult (List (PoolConfig Opt)) → Option (PoolConfig Opt)
  find_id id (failed _) = none
  find_id id (succeeded []) = none
  find_id id (succeeded (c ∷ cs)) = if c.id == id then some c else find_id id (succeeded cs)

  unfoldable pub find_pool_name :
      String → JournalResult (List (PoolConfig Opt)) → Option (PoolConfig Opt)
  find_pool_name name (failed _) = none
  find_pool_name name (succeeded []) = none
  find_pool_name name (succeeded (c ∷ cs)) =
      if beq c.name name then some c else find_pool_name name (succeeded cs)

  unfoldable pub lookup_pool_id :
      Ksuid
      → Store String (PoolConfig Opt)
      → Journal String (PoolConfig Opt)
      → PoolsRun Opt (Option (PoolConfig Opt))
  unfolding find_id all_of
  lookup_pool_id id s q = let (r, s', q') = all_of pool_key s q in (find_id id r, s', q')

  unfoldable pub lookup_pool_name :
      String
      → Store String (PoolConfig Opt)
      → Journal String (PoolConfig Opt)
      → PoolsRun Opt (Option (PoolConfig Opt))
  unfolding find_pool_name all_of
  lookup_pool_name name s q =
      let (r, s', q') = all_of pool_key s q in (find_pool_name name r, s', q')

  -- The operations that write, with what other processes do to the journal meanwhile.
  module _ (supported : Bool)
      (others : ℕ → Journal String (PoolConfig Opt) → Journal String (PoolConfig Opt)) where
    unfoldable pub add_pool :
        PoolConfig Opt
        → Store String (PoolConfig Opt)
        → Journal String (PoolConfig Opt)
        → Outcome String (PoolConfig Opt) (Unit {0})
    unfolding insert
    add_pool config = insert pool_key supported others config

    -- `Rename`, from the configuration that `LookupByID` found on.
    unfoldable pub rename_found :
        String
        → Option (PoolConfig Opt)
        → Store String (PoolConfig Opt)
        → Journal String (PoolConfig Opt)
        → PoolsRun Opt (Result (Unit {0}))
    unfolding move rename_error
    rename_found new_name none s q = (err pool_not_found, s, q)
    rename_found new_name (some config) s q =
        let (r, s', q') =
          move pool_key supported others config.name (record config { name = new_name }) s q in
        (rename_error r, s', q')

    unfoldable pub rename_pool :
        Ksuid
        → String
        → Store String (PoolConfig Opt)
        → Journal String (PoolConfig Opt)
        → PoolsRun Opt (Result (Unit {0}))
    unfolding lookup_pool_id rename_found
    rename_pool id new_name s q =
        let (found, s', q') = lookup_pool_id id s q in rename_found new_name found s' q'

    unfoldable pub remove_pool :
        PoolConfig Opt
        → Store String (PoolConfig Opt)
        → Journal String (PoolConfig Opt)
        → PoolsRun Opt (Result (Unit {0}))
    unfolding delete_key remove_pool_error
    remove_pool config s q =
        let (r, s', q') =
          delete_key pool_key supported others config.name (some (λ p. p.id == config.id)) s q in
        (remove_pool_error r, s', q')

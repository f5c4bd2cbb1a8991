-- ===== src/Lake/Branches.antt =====
-- lake/branches/: the branches of a pool, a table of configurations by name that is kept in a
-- journal.
use Prim.Native.String.{String}
use zed.Prelude.{ℕ, List, [], ◌∷◌, Bool, Option, some, ◌==◌, if◌then◌else◌}
use zed.Prelude.Int.{ℤ}
use zed.Prelude.Eq.{nat_eq, string_eq, beq}
use zed.Lake.Data.{Ksuid}
use zed.Lake.Result.{Result, ok, err, branch_not_found, branch_changed, journal_error}
use zed.Lake.Journal.Queue.{
  ok as succeeded, err as failed, no_such_key, constraint, Result as JournalResult,
}
use zed.Lake.Journal.Store.{Store, Journal}
use zed.Lake.Journal.Transaction.{Outcome, all_of, insert, update_value, delete_key}

pub record Config : Type 0 where
  pub ts : ℤ
  pub name : String
  pub commit : Ksuid

abbrev pub config_key : Config → String
config_key c = c.name

abbrev pub Branches : Type 0
Branches = Store String Config

abbrev pub BranchJournal : Type 0
BranchJournal = Journal String Config

-- The loop of `LookupByName`.
unfoldable pub find_name : String → List Config → Result Config
find_name name [] = err branch_not_found
find_name name (c ∷ cs) = if beq c.name name then ok c else find_name name cs

-- The list is nil where `All` failed: its error is dropped.
unfoldable pub listed : JournalResult (List Config) → List Config
listed (succeeded cs) = cs
listed (failed _) = []

unfoldable pub lookup_by_name :
    String → Branches → BranchJournal → Result Config × Branches × BranchJournal
unfolding find_name listed all_of
lookup_by_name name s q =
    let (r, s', q') = all_of config_key s q in (find_name name (listed r), s', q')

-- `Add` and `Update`, with what other processes do to the journal meanwhile.
module _ (supported : Bool) (others : ℕ → BranchJournal → BranchJournal) where
  unfoldable pub add_branch : Config → Branches → BranchJournal → Outcome String Config (Unit {0})
  unfolding insert
  add_branch config = insert config_key supported others config

  unfoldable pub update_branch :
      Config → Option (Config → Bool) → Branches → BranchJournal → Outcome String Config (Unit {0})
  unfolding update_value
  update_branch config c = update_value config_key supported others config c

  -- The errors that `Remove` tells apart.
  unfoldable pub remove_error : JournalResult (Unit {0}) → Result (Unit {0})
  remove_error (succeeded u) = ok u
  remove_error (failed no_such_key) = err branch_not_found
  remove_error (failed constraint) = err branch_changed
  remove_error (failed x) = err (journal_error x)

  -- `Remove`, if the branch is where the caller saw it.
  unfoldable pub remove_branch :
      Config → Branches → BranchJournal → Result (Unit {0}) × Branches × BranchJournal
  unfolding delete_key remove_error
  remove_branch config s q =
      let (r, s', q') =
        delete_key config_key supported others config.name (some (λ p. p.commit == config.commit)) s
          q in
      (remove_error r, s', q')

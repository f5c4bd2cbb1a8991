-- ===== src/Lake/Pools/Rename.antt =====
-- A rename of a pool, against other processes that write to the journal of pools too.
use Prim.Native.String.{String}
use zed.Prelude.{
  arith, ℕ, ◌≡◌, refl, ap, List, [], ◌∷◌, true, Option, some, none, Bool-cases, inl, inr, ◌==◌, sym,
  ◌∙◌, ◌≤◌, length,
}
use mathlib.Core.List.{Memᴰ}
use zed.Prelude.Eq.{nat_eq, string_eq}
use zed.Lake.Data.{Ksuid}
use zed.Lake.Result.{ok, err, pool_not_found}
use zed.Lake.Journal.Queue.{
  ok as succeeded, err as failed, key_exists, no_such_key, Result as JournalResult,
}
use zed.Lake.Journal.Store.{Store, StoreEntry, Journal, add, delete, max_retries}
use zed.Lake.Journal.Store.Log.{TableAt, IsReplayable, IsJournal, IsCurrent}
use zed.Prelude.Dict.{Dict, values}
use zed.Lake.Journal.Transaction.{all_of, move, move_check}
use zed.Lake.Journal.Transaction.Effect.{TookEffect, Cooperate}
use zed.Lake.Journal.Transaction.Serial.{commit_serial}
use zed.Lake.Journal.Transaction.Keeps.{all_of-IsCurrent, all_of-values}
use zed.Lake.Pools.{
  PoolConfig, pool_key, find_id, lookup_pool_id, rename_error, rename_found, rename_pool,
}

-- How a pool came to be renamed, when the journal of pools held `log`: the configuration was found
-- under the pool's KSUID among those of a table with the contents of the log up to some file, and
-- the move of that configuration from its name to the new one took effect.
pub record Renamed {Opt : Type 0}
    (others : ℕ → Journal String (PoolConfig Opt) → Journal String (PoolConfig Opt)) (id : Ksuid)
    (new_name : String) (log : List (List (StoreEntry String (PoolConfig Opt))))
    (s : Store String (PoolConfig Opt)) (q q' : Journal String (PoolConfig Opt)) : Type 0 where
  pub found : PoolConfig Opt
  pub table : Dict String (PoolConfig Opt)
  pub position : ℕ
  pub in_log : position ≤ length log
  pub at_position : TableAt pool_key log position table
  pub in_table : Memᴰ found (values table)
  pub same_id : found.id ≡ id
  pub effect :
      TookEffect pool_key others
        (move_check pool_key found.name (record found { name = new_name }))
        (delete found.name ∷ add (record found { name = new_name }) ∷ [])
        max_retries
        log
        (all_of pool_key s q).1
        (all_of pool_key s q).2
        q'

rename_error-ok : (r : JournalResult (Unit {0})) → rename_error r ≡ ok tt → r ≡ succeeded tt
unfolding rename_error
rename_error-ok (succeeded u) h = refl
rename_error-ok (failed key_exists) h = cc
rename_error-ok (failed no_such_key) h = cc
rename_error-ok (failed _) h = cc

module _ {Opt : Type 0} where
  -- What is found is one of the configurations, and has the KSUID.
  found_in :
      (id : Ksuid) (cs : List (PoolConfig Opt)) (c : PoolConfig Opt)
      → find_id id (succeeded cs) ≡ some c
      → Memᴰ c cs × (c.id ≡ id)
  unfolding find_id
  found_in id [] c h = cc
  found_in id (d ∷ cs) c h = elim (Bool-cases (d.id == id)) [
    | inl p ↦
        let q = (nat_eq.beq_iff d.id id).0 p in
        let r : d ≡ c = (let z = rw p at h in cc) in rw (← r) (Memᴰ.head refl, q)
    | inr p ↦ let (m, q) = found_in id cs c (rw p at h) in (Memᴰ.tail m, q)
  ]

  module _ (others : ℕ → Journal String (PoolConfig Opt) → Journal String (PoolConfig Opt))
      (fair : Cooperate pool_key others) (id : Ksuid) (new_name : String)
      (log : List (List (StoreEntry String (PoolConfig Opt)))) where
    -- The move of what was found.
    moved :
        (found : Option (PoolConfig Opt)) (s s' : Store String (PoolConfig Opt))
        (q q' : Journal String (PoolConfig Opt))
        → IsReplayable pool_key log
        → IsJournal pool_key log q
        → IsCurrent pool_key log q s
        → rename_found true others new_name found s q ≡ (ok tt, s', q')
        → (c : PoolConfig Opt) × (found ≡ some c)
          × TookEffect pool_key others
              (move_check pool_key c.name (record c { name = new_name }))
              (delete c.name ∷ add (record c { name = new_name }) ∷ [])
              max_retries
              log
              s
              q
              q'
    unfolding rename_found move
    moved none s s' q q' r j cur h =
        absurd (let z : err pool_not_found ≡ ok tt = ap (λ r. r.0) h in ground arith)
    moved (some c) s s' q q' r j cur h =
        let m = move pool_key true others c.name (record c { name = new_name }) s q in
        let z = rename_error-ok m.0 (ap (λ r. r.0) h) in
        let z₁ : m.1 ≡ s' = ap (λ r. r.1) h in
        let z₂ : m.2 ≡ q' = ap (λ r. r.2) h in
        let e : m ≡ (succeeded tt, s', q') = cc in
        (c, refl, commit_serial pool_key others _ _ fair log s s' q q' r j cur e)

    -- Let the journal of pools hold a log that can be replayed, with a table that is right if it is
    -- current; let other processes only append to the journal, at any time between a load and a
    -- write; and let the engine have `PutIfNotExists`. A rename that succeeds moved the very
    -- configuration that it found under the pool's KSUID, in a table of that log. The move was
    -- checked on all that the journal held before the write, where the configuration's name was in
    -- the table and the new name was not, and stands directly behind it.
    pub rename_pool-Renamed :
        (s s' : Store String (PoolConfig Opt)) (q q' : Journal String (PoolConfig Opt))
        → IsReplayable pool_key log
        → IsJournal pool_key log q
        → IsCurrent pool_key log q s
        → rename_pool true others id new_name s q ≡ (ok tt, s', q')
        → Renamed others id new_name log s q q'
    unfolding rename_pool lookup_pool_id
    rename_pool-Renamed s s' q q' r j cur h =
        let (j', cur') = all_of-IsCurrent pool_key log s q r j cur in
        let (c, e, effect) = moved (find_id id (all_of pool_key s q).0) _ s' _ q' r j' cur' h in
        let (t, answer, (m, le, at')) = all_of-values pool_key log s q r j cur in
        let (mem, same) = found_in id (values t) c (ap (find_id id) (sym answer) ∙ e) in
        record {
          found = c;
          table = t;
          position = m;
          in_log = le;
          at_position = at';
          in_table = mem;
          same_id = same;
          effect = effect;
        }

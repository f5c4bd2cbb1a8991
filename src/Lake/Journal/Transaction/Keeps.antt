-- ===== src/Lake/Journal/Transaction/Keeps.antt =====
-- The state that the operations of a store of lake/journal/store.go leave.
use zed.Prelude.{
  ℕ, ◌≤◌, ◌≡◌, refl, List, [], ◌∷◌, ◌++◌, Bool, true, Option, none, some, arith, length,
}
use zed.Prelude.Eq.{Eq}
use zed.Prelude.Dict.{values, Dict, get, put}
use zed.Lake.Journal.Queue.{ok}
use zed.Lake.Journal.Store.{
  StoreEntry, add, update, delete, Store, Journal, apply_entry, apply_file,
}
use zed.Lake.Journal.Store.Log.{TableAt, IsReplayable, IsJournal, IsCurrent}
use zed.Lake.Journal.Store.Load.{load_table}
use zed.Lake.Journal.Transaction.{
  all_of, after_load, insert_check, move_check, constraint_check, insert, move, delete_key,
  update_value,
}
use zed.Lake.Journal.Transaction.Effect.{Cooperate}
use zed.Lake.Journal.Transaction.Grows.{
  IsSound, Kept, Grown, KeptFrom, Accepts, commit-Grown, commit-Sound,
}

module _ {K V : Type 0} ⦃e : Eq K⦄ (key : V → K) where
  insert-Accepts : (v : V) → Accepts key (insert_check key v) (add v ∷ [])
  unfolding apply_file apply_entry
  insert-Accepts v = (tt, λ t h. (put (key v) v t, refl))

  move-Accepts : (k : K) (v : V) → Accepts key (move_check key k v) (delete k ∷ add v ∷ [])
  unfolding apply_file apply_entry
  move-Accepts k v = (tt, λ t h. (_, refl))

  delete-Accepts :
      (k : K) (c : Option (V → Bool)) → Accepts key (constraint_check k c) (delete k ∷ [])
  unfolding apply_file apply_entry
  delete-Accepts k c = (tt, λ t h. (_, refl))

  update-Accepts :
      (v : V) (c : Option (V → Bool)) → Accepts key (constraint_check (key v) c) (update v ∷ [])
  unfolding apply_file apply_entry constraint_check
  update-Accepts v c = (tt, λ t h. go t (get (key v) t) refl h)
    where
      go :
          (t : Dict K V) (o : Option V)
          → get (key v) t ≡ o
          → constraint_check (key v) c t ≡ none
          → (u : Dict K V) × (apply_file key (update v ∷ []) t ≡ ok u)
      go t none p h = absurd (let z = rw (constraint_check, p) at h in ground arith)
      go t (some w) p h = (put (key v) v t, rw p refl)

  -- Let a store and a journal be sound: the journal holds a log that can be replayed, and if the
  -- store's position is the head's, its table has the contents there. Let other writers only append
  -- to such journals, at any time between a load and a write. Then each of the four operations, run
  -- with `PutIfNotExists`, leaves a sound store and journal, whether it succeeds or fails, with
  -- whatever constraints.
  pub operations-Sound :
      (others : ℕ → Journal K V → Journal K V) (s : Store K V) (q : Journal K V) (v : V) (k : K)
      (c : Option (V → Bool))
      → Cooperate key others
      → IsSound key s q
      → Kept key (insert key true others v s q)
        × Kept key (move key true others k v s q)
        × Kept key (delete_key key true others k c s q)
        × Kept key (update_value key true others v c s q)
  unfolding insert move delete_key update_value
  operations-Sound others s q v k c fair d = (
    commit-Sound key others _ _ fair (insert-Accepts v) s q d,
    commit-Sound key others _ _ fair (move-Accepts k v) s q d,
    commit-Sound key others _ _ fair (delete-Accepts k c) s q d,
    commit-Sound key others _ _ fair (update-Accepts v c) s q d,
  )

module _ {K V : Type 0} ⦃e : Eq K⦄ (key : V → K) where
  -- An update leaves what the journal held.
  pub update_value-Grown :
      (others : ℕ → Journal K V → Journal K V) (v : V) (c : Option (V → Bool))
      (log : List (List (StoreEntry K V))) (s : Store K V) (q : Journal K V)
      → Cooperate key others
      → Grown key log s q
      → KeptFrom key log (update_value key true others v c s q)
  unfolding update_value
  update_value-Grown others v c log s q fair g =
      commit-Grown key others _ _ fair (update-Accepts key v c) log s q g

  -- A store that is loaded, for `All`, keeps the log.
  pub all_of-IsCurrent :
      (log : List (List (StoreEntry K V))) (s : Store K V) (q : Journal K V)
      → IsReplayable key log
      → IsJournal key log q
      → IsCurrent key log q s
      → IsJournal key log (all_of key s q).2
        × IsCurrent key log (all_of key s q).2 (all_of key s q).1
  unfolding all_of after_load
  all_of-IsCurrent log s q r j c =
      let (s', q', l, at_head, t, j', fs, hd) = load_table key log r s q j c in
      let a : all_of key s q ≡ (ok (values s'.table), s', q') = rw (all_of, after_load, l) refl in
      rw a (j', λ h. rw hd t)

  pub all_of-Grown :
      (log : List (List (StoreEntry K V))) (s : Store K V) (q : Journal K V)
      → Grown key log s q
      → Grown key log (all_of key s q).1 (all_of key s q).2
  all_of-Grown log s q g =
      let (j, c) = all_of-IsCurrent (log ++ g.more) s q g.replayable g.journal g.current in
      record { more = g.more; replayable = g.replayable; journal = j; current = c }

  -- What `All` answers: the values of a table with the contents of the log up to some file.
  pub all_of-values :
      (log : List (List (StoreEntry K V))) (s : Store K V) (q : Journal K V)
      → IsReplayable key log
      → IsJournal key log q
      → IsCurrent key log q s
      → (t : Dict K V) × ((all_of key s q).0 ≡ ok (values t))
        × ((m : ℕ) × (m ≤ length log) × TableAt key log m t)
  unfolding all_of after_load
  all_of-values log s q r j c =
      let (s', q', l, at_head, t, j', fs, hd) = load_table key log r s q j c in
      (s'.table, rw (all_of, after_load, l) refl, (q.head, j.head_le, t))

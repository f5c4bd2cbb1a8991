-- ===== src/Lake/Journal/Transaction/Serial.antt =====
-- The effect of a transaction of lake/journal/store.go, against other writers between its loads and
-- its writes.
use zed.Prelude.{
  ℕ, zero, suc, ◌≤◌, ◌≡◌, refl, sym, ◌∙◌, List, ◌++◌, true, Option, none, some, arith, length,
  length-append, subst, append_assoc,
}
use zed.Prelude.Eq.{Eq, nat_eq}
use zed.Lake.Journal.Queue.{Result, JournalError, ok, err, exist, not_exist, commit_at}
use zed.Lake.Journal.Store.{StoreEntry, Store, Journal, max_retries, load}
use zed.Lake.Journal.Store.Log.{TableAt, IsReplayable, IsJournal, IsCurrent}
use zed.Lake.Journal.Store.Load.{load_table}
use zed.Lake.Journal.Transaction.{Outcome, Check, finish, loaded, checked, commit_loop, commit}
use zed.Lake.Journal.Transaction.Effect.{
  attempt, attempt_again, TableAt-append, commit_at_ok, Extends, Cooperate, TookEffect,
}

module _ {K V : Type 0} ⦃e : Eq K⦄ (key : V → K) (others : ℕ → Journal K V → Journal K V)
    (check : Check K V) (entries : List (StoreEntry K V)) (fair : Cooperate key others) where
  abbrev Good :
      ℕ → List (List (StoreEntry K V)) → Store K V → Journal K V → Outcome K V (Unit {0}) → Type 0
  Good n start s q (ok _, t, q') = TookEffect key others check entries n start s q q'
  Good n start s q (err _, t, q') = Unit {0}

  module _ (n : ℕ) (start : List (List (StoreEntry K V))) (s₀ : Store K V) (q₀ : Journal K V) where
    finish-Good :
        (s : Store K V) (q : Journal K V) (r : Result (Journal K V))
        (again : Outcome K V (Unit {0}))
        → ((q' : Journal K V) → r ≡ ok q' → TookEffect key others check entries n start s₀ q₀ q')
        → Good n start s₀ q₀ again
        → Good n start s₀ q₀ (finish s q r again)
    unfolding finish
    finish-Good s q (ok q') again h g = h q' refl
    finish-Good s q (err exist) again h g = g
    finish-Good s q (err not_exist) again h g = tt
    finish-Good s q (err _) again h g = tt

    loaded-Good :
        (r : Result (Store K V × Journal K V)) (s : Store K V) (q : Journal K V)
        (next : Store K V → Journal K V → Outcome K V (Unit {0}))
        → ((s' : Store K V) (q' : Journal K V) → r ≡ ok (s', q') → Good n start s₀ q₀ (next s' q'))
        → Good n start s₀ q₀ (loaded r s q next)
    unfolding loaded
    loaded-Good (ok (s', q')) s q next h = h s' q' refl
    loaded-Good (err x) s q next h = tt

    checked-Good :
        (o : Option JournalError) (s : Store K V) (q : Journal K V) (next : Outcome K V (Unit {0}))
        → (o ≡ none → Good n start s₀ q₀ next)
        → Good n start s₀ q₀ (checked o s q next)
    unfolding checked
    checked-Good none s q next h = h refl
    checked-Good (some x) s q next h = tt

  -- A later attempt's effect is the effect of all the attempts.
  again-Good :
      (n : ℕ) (start more : List (List (StoreEntry K V))) (s s' : Store K V) (q q' : Journal K V)
      (o : Outcome K V (Unit {0}))
      → load key s q ≡ ok (s', q')
      → Good n (start ++ more) s' (others n q') o
      → Good (suc n) start s q o
  again-Good n start more s s' q q' (err x, t, r) l g = tt
  again-Good n start more s s' q q' (ok _, t, r) l g = record {
    store = g.store;
    before = g.before;
    attempts = attempt_again l g.attempts;
    more = more ++ g.more;
    held = rw (← append_assoc start more g.more) g.held;
    passed = g.passed;
    at_end = rw (← append_assoc start more g.more) g.at_end;
    journal = rw (← append_assoc start more g.more) g.journal;
  }

  -- What is known of a store and a journal that `load` returned.
  abbrev Loaded : List (List (StoreEntry K V)) → Store K V → Journal K V → Type 0
  Loaded log s' q' =
      (s'.at_id ≤ length log) × TableAt key log s'.at_id s'.table × IsJournal key log q'

  pub load-Loaded :
      (log : List (List (StoreEntry K V))) (s s' : Store K V) (q q' : Journal K V)
      → IsReplayable key log
      → IsJournal key log q
      → IsCurrent key log q s
      → load key s q ≡ ok (s', q')
      → Loaded log s' q'
  load-Loaded log s s' q q' good j c l =
      let (s₁, q₁, l₁, at_head, t, j', fs, hd) = load_table key log good s q j c in
      let first : Loaded log s₁ q₁ = (omega (arith, at_head, j.head_le), rw at_head t, j') in
      let p : (s₁, q₁) ≡ (s', q') = (let z : ok (s₁, q₁) ≡ ok (s', q') = sym l₁ ∙ l in cc) in
      subst (λ (r : Store K V × Journal K V). Loaded log r.0 r.1) p first

  took_effect :
      (n : ℕ) (log : List (List (StoreEntry K V))) (s s' : Store K V) (q q' q₃ : Journal K V)
      (x : Extends key log (others n q'))
      → load key s q ≡ ok (s', q')
      → s'.at_id ≤ length log
      → TableAt key log s'.at_id s'.table
      → check s'.table ≡ none
      → commit_at true s'.at_id entries (others n q') ≡ ok q₃
      → TookEffect key others check entries (suc n) log s q q₃
  took_effect n log s s' q q' q₃ x loads l t passed w =
      let longer : s'.at_id ≤ length (log ++ x.more) = omega (arith, length-append log x.more) in
      let (end, j) =
        commit_at_ok key (log ++ x.more) (others n q') q₃ s'.at_id entries x.journal longer w in
      record {
        store = s';
        before = others n q';
        attempts = attempt loads;
        more = x.more;
        held = x.journal;
        passed = passed;
        at_end = rw (← end) (TableAt-append key log x.more s'.at_id s'.table l t);
        journal = j;
      }

  pub current :
      (log : List (List (StoreEntry K V))) (s' : Store K V) (q' : Journal K V)
      (x : Extends key log q')
      → s'.at_id ≤ length log
      → TableAt key log s'.at_id s'.table
      → IsCurrent key (log ++ x.more) q' s'
  current log s' q' x l t eq = rw (← eq) (TableAt-append key log x.more s'.at_id s'.table l t)

  loop-Good :
      (n : ℕ) (log : List (List (StoreEntry K V))) (s : Store K V) (q : Journal K V)
      → IsReplayable key log
      → IsJournal key log q
      → IsCurrent key log q s
      → Good n log s q (commit_loop key true others check entries n s q)
  unfolding commit_loop
  loop-Good zero log s q good j c = tt
  loop-Good (suc n) log s q good j c = loaded-Good (suc n) log s q (load key s q) s q _ λ s' q' l.
      let (le, t, j') = load-Loaded log s s' q q' good j c l in
      let x = fair n log q' good j' in
      checked-Good (suc n) log s q (check s'.table) s' q' _ λ passed.
        finish-Good (suc n) log s q s' (others n q') (commit_at true s'.at_id entries (others n q'))
          _ (λ q₃ w. took_effect n log s s' q q' q₃ x l le t passed w)
          (again-Good n log x.more s s' q q' _ l (
            loop-Good n (log ++ x.more) s' (others n q') x.replayable x.journal
              (current log s' (others n q') x le t)))

  -- Let the journal hold a log that can be replayed, let other writers only append such files, at
  -- any time between a load and a write, and let the engine have `PutIfNotExists`. If a transaction
  -- succeeds, after any of its attempts, then its check passed on a table with the contents of all
  -- that the journal held before the write: the log at the start and what the others, who alone and
  -- with the loads changed the journal until then, had put behind it. The journal that the
  -- transaction leaves holds all that, with its own file behind it.
  pub commit_serial :
      (log : List (List (StoreEntry K V))) (s s' : Store K V) (q q' : Journal K V)
      → IsReplayable key log
      → IsJournal key log q
      → IsCurrent key log q s
      → commit key true others check entries s q ≡ (ok tt, s', q')
      → TookEffect key others check entries max_retries log s q q'
  unfolding commit
  commit_serial log s s' q q' good j c h =
      subst (Good max_retries log s q) h (loop-Good max_retries log s q good j c)

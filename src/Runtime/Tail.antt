-- ===== src/Runtime/Tail.antt =====
-- `Op` of runtime/sam/op/tail/tail.go.
pub mod Last
use zed.Prelude.{
  ℕ, zero, suc, ◌+◌, ◌-◌, ◌<◌, ◌≤◌, Bool, true, false, List, [], ◌∷◌, ◌++◌, append-nil,
  append_assoc, ◌≡◌, refl, sym, ap, ◌∙◌, leb, ltb, length, drop, if◌then◌else◌, arith, Bool-cases,
  inl, inr, length-append,
}
use zed.Runtime.{
  Answer, batch, eos, failure, crash, Puller, all_values, Streams, ended, pulled, HeedsDone,
}

pub record TailOp (V : Type 0) : Type 0 where
  pub batches : List (List V)
  pub at_eos : Bool

abbrev pub emptied : {V : Type 0} → TailOp V
emptied = record { batches = []; at_eos = false }

abbrev is_empty : {A : Type 0} → List A → Bool
is_empty [] = true
is_empty (x ∷ xs) = false

-- What `tail` returns.
pub data Loaded (E V : Type 0) : Type 0 where
  loaded : List (List V) → Loaded E V
  load_failure : E → Loaded E V
  load_crash : Loaded E V

module _ {V : Type 0} (limit : ℕ) where
  -- The inner loop of `tail`, which drops batches that are not needed; with `n`.
  unfoldable pub drop_batches : ℕ → List (List V) → List (List V) × ℕ
  drop_batches n [] = ([], n)
  drop_batches n (b ∷ bs) =
      let rest = drop_batches (n - length b) bs in
      if leb limit (n - length b) then rest else (b ∷ bs, n)

module _ {E V : Type 0} (limit : ℕ) where
  -- After the loop: too many values go from the first batch.
  unfoldable pub cut_first : ℕ → List (List V) → Loaded E V
  cut_first n [] = if ltb limit n then load_crash else loaded []
  cut_first n (b ∷ bs) = if ltb limit n then loaded (drop (n - limit) b ∷ bs) else loaded (b ∷ bs)

module _ {S E V : Type 0} (parent : Puller S E V) (limit : ℕ) where
  -- What the loop of `tail` does with the parent's answer; `again` is its next round.
  unfoldable pub tail_answered :
      (List (List V) → ℕ → S → Loaded E V × S) → List (List V) → ℕ → Answer E V × S → Loaded E V × S
  unfolding drop_batches cut_first
  tail_answered again batches n (failure e, t) = (load_failure e, t)
  tail_answered again batches n (crash, t) = (load_crash, t)
  tail_answered again batches n (eos, t) = (cut_first limit n batches, t)
  tail_answered again batches n (batch b, t) =
      let (kept, m) = drop_batches limit (n + length b) (batches ++ (b ∷ [])) in again kept m t

  -- The loop of `tail`, on the rounds that are left.
  unfoldable pub tail_loop : ℕ → List (List V) → ℕ → S → Loaded E V × S
  unfolding tail_answered
  tail_loop zero batches n s = (load_crash, s)
  tail_loop (suc k) batches n s = tail_answered (tail_loop k) batches n (parent false s)

  unfoldable pub give : List (List V) → S → Answer E V × (TailOp V × S)
  give [] s = (eos, (emptied, s))
  give (b ∷ bs) s = (batch b, (record { batches = bs; at_eos = is_empty bs }, s))

  unfoldable pub give_loaded : Loaded E V × S → Answer E V × (TailOp V × S)
  unfolding give
  give_loaded (loaded bs, s) = give bs s
  give_loaded (load_failure e, s) = (failure e, (emptied, s))
  give_loaded (load_crash, s) = (crash, (emptied, s))

  unfoldable pub tail_ready : ℕ → List (List V) → S → Answer E V × (TailOp V × S)
  unfolding give give_loaded tail_loop
  tail_ready fuel [] s = give_loaded (tail_loop fuel [] 0 s)
  tail_ready fuel (b ∷ bs) s = give (b ∷ bs) s

  -- `fuel` is the rounds of the loop. The limit is not negative; for one that is, the code panics.
  unfoldable pub tail_pull : ℕ → Puller (TailOp V × S) E V
  unfolding tail_ready
  tail_pull fuel done (o, s) =
      if o.at_eos
      then (eos, (emptied, s))
      else if done
      then (let (a, t) = parent true s in (a, (emptied, t)))
      else tail_ready fuel o.batches s

abbrev pub last : {V : Type 0} → ℕ → List V → List V
last n xs = drop (length xs - n) xs

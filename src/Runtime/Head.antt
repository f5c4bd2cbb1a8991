-- ===== src/Runtime/Head.antt =====
-- `Op` of runtime/sam/op/head/head.go. Its state is `count` with the state of the parent.
use zed.Prelude.{
  ℕ, zero, suc, ◌+◌, ◌-◌, ◌<◌, ◌≤◌, true, false, List, [], ◌∷◌, ◌++◌, append-nil, ◌≡◌, refl, sym,
  ap, ◌∙◌, leb, ltb, length, take, if◌then◌else◌, arith, Bool-cases, inl, inr, take-append_le,
}
use zed.Runtime.{
  Answer, batch, eos, failure, crash, Puller, all_values, Streams, ended, pulled, HeedsDone,
}

module _ {S E V : Type 0} (parent : Puller S E V) (limit : ℕ) where
  -- The answer of the parent to `done`; a batch is a panic.
  unfoldable pub head_done : ℕ → Answer E V × S → Answer E V × (ℕ × S)
  head_done count (failure e, s) = (failure e, (count, s))
  head_done count (batch b, s) = (crash, (count, s))
  head_done count (eos, s) = (eos, (0, s))
  head_done count (crash, s) = (crash, (count, s))

  -- The batch that reaches the limit, with the parent's answer to `done`.
  unfoldable pub head_last : ℕ → List V → Answer E V × S → Answer E V × (ℕ × S)
  head_last count vals (failure e, s) = (failure e, (count, s))
  head_last count vals (crash, s) = (crash, (count, s))
  head_last count vals (batch b, s) = (batch (take (limit - count) vals), (limit, s))
  head_last count vals (eos, s) = (batch (take (limit - count) vals), (limit, s))

  -- From `again:` on. `count` is below the limit, so the jump back is never taken.
  unfoldable pub head_batch : ℕ → Answer E V × S → Answer E V × (ℕ × S)
  unfolding head_last
  head_batch count (eos, s) = (eos, (0, s))
  head_batch count (failure e, s) = (failure e, (0, s))
  head_batch count (crash, s) = (crash, (count, s))
  head_batch count (batch vals, s) =
      if ltb (length vals) (limit - count)
      then (batch vals, (count + length vals, s))
      else head_last count vals (parent true s)

  unfoldable pub head_pull : Puller (ℕ × S) E V
  unfolding head_done head_batch
  head_pull done (count, s) =
      if leb limit count
      then (eos, (0, s))
      else if done
      then head_done count (parent true s)
      else head_batch count (parent false s)

  at_limit : (s : S) → head_pull false (limit, s) ≡ (eos, (0, s))
  unfolding head_pull
  at_limit s = ground arith

  -- Below the limit the parent is asked.
  below :
      (count : ℕ) (s : S)
      → count < limit
      → head_pull false (count, s) ≡ head_batch count (parent false s)
  unfolding head_pull
  below count s h = let e : leb limit count ≡ false = ground arith in rw e refl

  head_heeds : HeedsDone parent → HeedsDone head_pull
  unfolding head_pull head_done
  head_heeds heeds (count, s) = elim (Bool-cases (leb limit count)) [
    | inl p ↦ ((0, s), rw p refl)
    | inr p ↦ let (t, e) = heeds s in ((0, t), rw p (rw e refl))
  ]

  take-nil : (n : ℕ) → ◌≡◌ {A = List V} (take n []) []
  take-nil zero = refl
  take-nil (suc n) = refl

  take_more :
      (n : ℕ) (xs ys : List V) → length xs ≤ n → take n (xs ++ ys) ≡ xs ++ take (n - length xs) ys
  take_more n [] ys h = ap (λ k. take k ys) (omega arith)
  take_more zero (x ∷ xs) ys h = absurd (omega arith)
  take_more (suc n) (x ∷ xs) ys h =
      ap (λ r. x ∷ r) (take_more n xs ys (omega arith) ∙ ap (λ k. xs ++ take k ys) (omega arith))

  Streams-from :
      (count : ℕ) {s t : S} {bs : List (List V)}
      → HeedsDone parent
      → count < limit
      → Streams parent s bs t
      → (out : List (List V)) × (u : S) × Streams head_pull (count, s) out (0, u)
        × (all_values out ≡ take (limit - count) (all_values bs))
  unfolding head_batch head_last
  Streams-from count heeds h (ended {s} {t} e) =
      ([], t, ended (below count s h ∙ rw e refl), sym (take-nil (limit - count)))
  Streams-from count heeds h (pulled {s} {t} {u} {b} {bs} e more) =
      elim (Bool-cases (ltb (length b) (limit - count))) [
        | inl p ↦
            let (out, v, rest, same) =
              Streams-from (count + length b) heeds (ground (arith, p)) more in
            (
              b ∷ out,
              v,
              pulled (below count s h ∙ rw e (rw p refl)) rest,
              ap (λ r. b ++ r) (same ∙ ap (λ k. take k (all_values bs)) (omega arith))
                  ∙ sym (take_more (limit - count) b (all_values bs) (ground (arith, p))),
            )
        | inr p ↦
            let (v, d) = heeds t in
            (
              take (limit - count) b ∷ [],
              v,
              pulled (below count s h ∙ rw e (rw p (rw d refl))) (ended (at_limit v)),
              append-nil (take (limit - count) b)
                  ∙ sym (take-append_le (limit - count) b (all_values bs) (ground (arith, p))),
            )
      ]

  -- When the parent heeds `done`, `head` does too, and from any stream of the parent that ends it
  -- makes a stream that ends, with the first `limit` values of it, and is then as at the start.
  pub head_pull-first :
      (s t : S) (bs : List (List V))
      → HeedsDone parent
      → 0 < limit
      → Streams parent s bs t
      → HeedsDone head_pull
        × ((out : List (List V)) × (u : S) × Streams head_pull (0, s) out (0, u)
            × (all_values out ≡ take limit (all_values bs)))
  head_pull-first s t bs heeds h streams =
      let (out, u, made, same) = Streams-from 0 heeds h streams in
      (head_heeds heeds, (out, u, made, same ∙ ap (λ k. take k (all_values bs)) (omega arith)))

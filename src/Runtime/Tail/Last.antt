-- ===== src/Runtime/Tail/Last.antt =====
-- What `tail` of runtime/sam/op/tail/tail.go makes of a stream.
use zed.Prelude.{
  ℕ, zero, suc, ◌+◌, ◌-◌, ◌<◌, ◌≤◌, false, List, [], ◌∷◌, ◌++◌, append-nil, append_assoc, ◌≡◌, refl,
  sym, ap, ◌∙◌, leb, ltb, length, drop, arith, Bool-cases, inl, inr, length-append,
}
use zed.Runtime.{Puller, all_values, Streams, ended, pulled, HeedsDone}
use zed.Runtime.Tail.{
  emptied, loaded, drop_batches, cut_first, tail_answered, tail_loop, give, give_loaded, tail_ready,
  tail_pull, last,
}

drop_more :
    {V : Type 0} (n : ℕ) (xs ys : List V)
    → length xs ≤ n
    → drop n (xs ++ ys) ≡ drop (n - length xs) ys
drop_more n [] ys h = ap (λ k. drop k ys) (omega arith)
drop_more zero (x ∷ xs) ys h = absurd (omega arith)
drop_more (suc n) (x ∷ xs) ys h =
    drop_more n xs ys (omega arith) ∙ ap (λ k. drop k ys) (omega arith)

drop_less :
    {V : Type 0} (n : ℕ) (xs ys : List V) → n ≤ length xs → drop n (xs ++ ys) ≡ drop n xs ++ ys
drop_less zero xs ys h = refl
drop_less (suc n) [] ys h = absurd (omega arith)
drop_less (suc n) (x ∷ xs) ys h = drop_less n xs ys (omega arith)

last-append : {V : Type 0} (n : ℕ) (xs ys : List V) → n ≤ length ys → last n (xs ++ ys) ≡ last n ys
last-append n xs ys h =
    drop_more (length (xs ++ ys) - n) xs ys (omega (arith, length-append xs ys))
    ∙ ap (λ k. drop k ys) (omega (arith, length-append xs ys))

-- The first batch is needed for `limit` values.
abbrev FirstNeeded : {V : Type 0} → ℕ → List (List V) → Type 0
FirstNeeded limit [] = Unit {0}
FirstNeeded limit (b ∷ bs) = length (all_values bs) < limit

all_values-append :
    {V : Type 0} (bs cs : List (List V)) → all_values (bs ++ cs) ≡ all_values bs ++ all_values cs
all_values-append [] cs = refl
all_values-append (b ∷ bs) cs =
    ap (λ r. b ++ r) (all_values-append bs cs)
    ∙ sym (append_assoc b (all_values bs) (all_values cs))

regroup :
    {V : Type 0} (bs : List (List V)) (b more : List V)
    → all_values (bs ++ (b ∷ [])) ++ more ≡ all_values bs ++ (b ++ more)
regroup [] b more = ap (λ r. r ++ more) (append-nil b)
regroup (c ∷ bs) b more =
    append_assoc c (all_values (bs ++ (b ∷ []))) more
    ∙ (ap (λ r. c ++ r) (regroup bs b more) ∙ sym (append_assoc c (all_values bs) (b ++ more)))

drop-nil : {V : Type 0} (n : ℕ) → ◌≡◌ {A = List V} [] (drop n [])
drop-nil zero = refl
drop-nil (suc n) = refl

module _ {V : Type 0} (limit : ℕ) where
  -- What is dropped is not among the last `limit` values, now and later.
  drop_batches_keeps :
      (n : ℕ) (bs : List (List V)) (more : List V)
      → n ≡ length (all_values bs)
      → ((drop_batches limit n bs).1 ≡ length (all_values (drop_batches limit n bs).0))
        × FirstNeeded limit (drop_batches limit n bs).0
        × (last limit (all_values (drop_batches limit n bs).0 ++ more)
            ≡ last limit (all_values bs ++ more))
  unfolding drop_batches
  drop_batches_keeps n [] more h = (h, tt, refl)
  drop_batches_keeps n (b ∷ bs) more h =
      let total = length-append b (all_values bs) in
      elim (Bool-cases (leb limit (n - length b))) [
        | inl p ↦
            let (m, first, same) =
              drop_batches_keeps (n - length b) bs more (omega (arith, h, total)) in
            rw p (
              m,
              first,
              same
                  ∙ sym (
                      last-append limit b (all_values bs ++ more)
                        (ground (arith, p, h, total, length-append (all_values bs) more)))
                  ∙ ap (λ r. last limit r) (sym (append_assoc b (all_values bs) more)),
            )
        | inr p ↦ rw p (h, ground (arith, p, h, total), refl)
      ]

  -- After the loop the last `limit` values are left.
  cut_first-last :
      {E : Type 0} (n : ℕ) (bs : List (List V))
      → n ≡ length (all_values bs)
      → FirstNeeded limit bs
      → (out : List (List V)) × (cut_first {E = E} limit n bs ≡ loaded out)
        × (all_values out ≡ last limit (all_values bs))
  unfolding cut_first
  cut_first-last n [] h first =
      let e : ltb limit n ≡ false = ground (arith, h) in ([], rw e refl, drop-nil (0 - limit))
  cut_first-last n (b ∷ bs) h first =
      let total = length-append b (all_values bs) in
      elim (Bool-cases (ltb limit n)) [
        | inl p ↦ (
          drop (n - limit) b ∷ bs,
          rw p refl,
          sym (drop_less (n - limit) b (all_values bs) (omega (arith, first, h, total)))
              ∙ ap (λ k. drop k (b ++ all_values bs)) (omega (arith, h)),
        )
        | inr p ↦
            let whole : 0 ≡ length (b ++ all_values bs) - limit = ground (arith, p, h) in
            (b ∷ bs, rw p refl, ap (λ k. drop k (b ++ all_values bs)) whole)
      ]

module _ {S E V : Type 0} (parent : Puller S E V) (limit : ℕ) where
  tail_loop-last :
      (k : ℕ) (batches : List (List V)) (n : ℕ) (s t : S) (bs : List (List V))
      → n ≡ length (all_values batches)
      → FirstNeeded limit batches
      → length bs < k
      → Streams parent s bs t
      → (out : List (List V)) × (tail_loop parent limit k batches n s ≡ (loaded out, t))
        × (all_values out ≡ last limit (all_values batches ++ all_values bs))
  unfolding tail_loop tail_answered
  tail_loop-last zero batches n s t bs h first le streams = absurd (omega (arith, le))
  tail_loop-last (suc k) batches n s t [] h first le (ended e) =
      let (out, q, same) = cut_first-last limit {E = E} n batches h first in
      (out, rw e (rw q refl), same ∙ ap (λ r. last limit r) (sym (append-nil (all_values batches))))
  tail_loop-last (suc k) batches n s t (b ∷ bs) h first le (pulled e more) =
      let grown = all_values-append batches (b ∷ []) in
      let one : length (b ++ []) ≡ length b = ap length (append-nil b) in
      let size : n + length b ≡ length (all_values (batches ++ (b ∷ []))) =
        omega (arith, h, one, ap length grown, length-append (all_values batches) (b ++ [])) in
      let (m, needed, same) =
        drop_batches_keeps limit (n + length b) (batches ++ (b ∷ [])) (all_values bs) size in
      let (out, q, values) =
        tail_loop-last k (drop_batches limit (n + length b) (batches ++ (b ∷ []))).0
          (drop_batches limit (n + length b) (batches ++ (b ∷ []))).1 _ t bs m needed
          (omega (arith, le)) more in
      (out, rw e q, values ∙ (same ∙ ap (λ r. last limit r) (regroup batches b (all_values bs))))

  give-Streams :
      (fuel : ℕ) (b : List V) (bs : List (List V)) (s : S)
      → Streams
          (tail_pull parent limit fuel)
          (record { batches = b ∷ bs; at_eos = false }, s)
          (b ∷ bs)
          (emptied, s)
  unfolding tail_pull tail_ready give
  give-Streams fuel b [] s = pulled refl (ended refl)
  give-Streams fuel b (c ∷ bs) s = pulled refl (give-Streams fuel c bs s)

  tail_heeds : (fuel : ℕ) → HeedsDone parent → HeedsDone (tail_pull parent limit fuel)
  unfolding tail_pull
  tail_heeds fuel heeds (o, s) = elim (Bool-cases o.at_eos) [
    | inl p ↦ ((emptied, s), rw p refl)
    | inr p ↦ let (t, e) = heeds s in ((emptied, t), rw p (rw e refl))
  ]

  -- The first pull loads.
  first_pull :
      (fuel : ℕ) (s : S)
      → tail_pull parent limit fuel false (emptied, s)
        ≡ give_loaded parent limit (tail_loop parent limit fuel [] 0 s)
  unfolding tail_pull tail_ready
  first_pull fuel s = refl

  starts :
      (fuel : ℕ) (out : List (List V)) (s t : S)
      → tail_loop parent limit fuel [] 0 s ≡ (loaded out, t)
      → Streams (tail_pull parent limit fuel) (emptied, s) out (emptied, t)
  unfolding tail_pull tail_ready give_loaded give
  starts fuel [] s t e = ended (first_pull fuel s ∙ ap (give_loaded parent limit) e)
  starts fuel (b ∷ []) s t e =
      pulled (first_pull fuel s ∙ ap (give_loaded parent limit) e) (ended refl)
  starts fuel (b ∷ c ∷ bs) s t e =
      pulled (first_pull fuel s ∙ ap (give_loaded parent limit) e) (give-Streams fuel c bs t)

  -- When the parent heeds `done`, `tail` does too, and with more rounds than a stream of the parent
  -- that ends has batches it makes a stream that ends, with the last `limit` values of it, and is
  -- then as at the start.
  pub tail_pull-last :
      (fuel : ℕ) (s t : S) (bs : List (List V))
      → HeedsDone parent
      → length bs < fuel
      → Streams parent s bs t
      → HeedsDone (tail_pull parent limit fuel)
        × ((out : List (List V)) × Streams
              (tail_pull parent limit fuel)
              (emptied, s)
              out
              (emptied, t)
            × (all_values out ≡ last limit (all_values bs)))
  tail_pull-last fuel s t bs heeds le streams =
      let (out, e, same) = tail_loop-last fuel [] 0 s t bs refl tt le streams in
      (tail_heeds fuel heeds, (out, starts fuel out s t e, same))

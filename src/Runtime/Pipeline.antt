-- ===== src/Runtime/Pipeline.antt =====
-- Operators in a row: one is the parent of the next.
use zed.Prelude.{ℕ, ◌<◌, ◌≡◌, List, length, take, ap, ◌∙◌}
use zed.Runtime.{Puller, all_values, Streams, HeedsDone}
use zed.Runtime.Head.{head_pull, head_pull-first}
use zed.Runtime.Tail.{TailOp, emptied, tail_pull, last}
use zed.Runtime.Tail.Last.{tail_pull-last}

module _ {S E V : Type 0} (parent : Puller S E V) where
  -- `tail n | head m`: from a stream of the parent that ends, with more rounds than it has batches,
  -- a stream that ends with the first `m` of the last `n` values, for `m` from 1 on.
  pub tail_head :
      (m n fuel : ℕ) (s t : S) (bs : List (List V))
      → HeedsDone parent
      → 0 < m
      → length bs < fuel
      → Streams parent s bs t
      → (out : List (List V)) × (u : TailOp V × S) × Streams
          (head_pull (tail_pull parent n fuel) m)
          (0, (emptied, s))
          out
          (0, u)
        × (all_values out ≡ take m (last n (all_values bs)))
  tail_head m n fuel s t bs heeds positive rounds streams =
      let (heeds', (mid, made, lasts)) = tail_pull-last parent n fuel s t bs heeds rounds streams in
      let (_, (out, u, done, firsts)) =
        head_pull-first (tail_pull parent n fuel) m (emptied, s) (emptied, t) mid heeds' positive
          made in
      (out, u, done, firsts ∙ ap (λ r. take m r) lasts)

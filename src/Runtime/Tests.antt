-- ===== src/Runtime/Tests.antt =====
-- Runs of the operators over a parent that has its batches in a list.
use zed.Prelude.{ℕ, true, false, List, [], ◌∷◌, ◌≡◌, refl, arith, take}
use zed.Runtime.{batch, eos, Puller, all_values, Streams, ended, pulled, HeedsDone}
use zed.Runtime.Head.{head_pull, head_pull-first}
use zed.Runtime.Tail.{TailOp, emptied, tail_pull, last}
use zed.Runtime.Tail.Last.{tail_pull-last}
use zed.Runtime.Pipeline.{tail_head}

abbrev listed : Puller (List (List ℕ)) ℕ ℕ
listed true bs = (eos, [])
listed false [] = (eos, [])
listed false (b ∷ bs) = (batch b, bs)

listed-HeedsDone : HeedsDone listed
listed-HeedsDone s = ([], refl)

listed-Streams : (bs : List (List ℕ)) → Streams listed bs bs []
listed-Streams [] = ended refl
listed-Streams (b ∷ bs) = pulled refl (listed-Streams bs)

abbrev three : List (List ℕ)
three = (1 ∷ 2 ∷ []) ∷ (3 ∷ []) ∷ (4 ∷ 5 ∷ 6 ∷ []) ∷ []

head_run : head_pull listed 4 false (3, (4 ∷ 5 ∷ 6 ∷ []) ∷ []) ≡ (batch (4 ∷ []), (4, []))
unfolding head_pull
head_run = refl

tail_run :
    tail_pull listed 4 9 false (emptied, three)
    ≡ (batch (3 ∷ []), (record { batches = (4 ∷ 5 ∷ 6 ∷ []) ∷ []; at_eos = false }, []))
unfolding tail_pull
tail_run = refl

head_pull-first_example :
    HeedsDone (head_pull listed 4)
    × ((out : List (List ℕ)) × (u : List (List ℕ)) × Streams
          (head_pull listed 4)
          (0, three)
          out
          (0, u)
        × (all_values out ≡ take 4 (all_values three)))
head_pull-first_example =
    head_pull-first listed 4 three [] three listed-HeedsDone (omega arith) (listed-Streams three)

tail_pull-last_example :
    HeedsDone (tail_pull listed 4 9)
    × ((out : List (List ℕ)) × Streams (tail_pull listed 4 9) (emptied, three) out (emptied, [])
        × (all_values out ≡ last 4 (all_values three)))
tail_pull-last_example =
    tail_pull-last listed 4 9 three [] three listed-HeedsDone (omega arith) (listed-Streams three)

tail_head_example :
    (out : List (List ℕ)) × (u : TailOp ℕ × List (List ℕ)) × Streams
      (head_pull (tail_pull listed 4 9) 2)
      (0, (emptied, three))
      out
      (0, u)
    × (all_values out ≡ take 2 (last 4 (all_values three)))
tail_head_example =
    tail_head listed 2 4 9 three [] three listed-HeedsDone (omega arith) (omega arith)
      (listed-Streams three)

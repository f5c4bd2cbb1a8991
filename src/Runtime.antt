-- ===== src/Runtime.antt =====
-- runtime/sam/op: operators that pull batches of values from a parent and are pulled from.
-- A `zbuf.Puller` is a function of its state, and a batch is the list of its values; the reference
-- counts of batches serve only the reuse of memory. The values stay abstract, as the operators here
-- do not look at them.
pub mod Head
pub mod Tail
pub mod Pipeline
mod Tests
use zed.Prelude.{ℕ, Bool, true, false, List, [], ◌∷◌, ◌++◌, ◌≡◌}

-- What `Pull` returns: a batch, nil for the end of the stream (EOS), or an error; `crash` is a
-- panic.
pub data Answer (E V : Type 0) : Type 0 where
  batch : List V → Answer E V
  eos : Answer E V
  failure : E → Answer E V
  crash : Answer E V

-- The Boolean is `done`.
abbrev pub Puller : Type 0 → Type 0 → Type 0 → Type 0
Puller S E V = Bool → S → Answer E V × S

abbrev pub all_values : {V : Type 0} → List (List V) → List V
all_values [] = []
all_values (b ∷ bs) = b ++ all_values bs

module _ {S E V : Type 0} (pull : Puller S E V) where
  -- Pulls from a state that give these batches and then EOS, and the state after it.
  pub data Streams : S → List (List V) → S → Type 0 where
    ended : {s t : S} → pull false s ≡ (eos, t) → Streams s [] t
    pulled :
        {s t u : S} {b : List V} {bs : List (List V)}
        → pull false s ≡ (batch b, t)
        → Streams t bs u
        → Streams s (b ∷ bs) u

  -- The contract of `done`: EOS, from any state.
  abbrev pub HeedsDone : Type 0
  HeedsDone = (s : S) → (t : S) × (pull true s ≡ (eos, t))

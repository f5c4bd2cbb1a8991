-- ===== src/Lake/SeekIndex/Tests.antt =====
-- A run of the seek index over an object of three runs of values.
use zed.Prelude.{ℕ, Bool, true, false, List, [], ◌∷◌, ◌≡◌, refl, arith}
use zed.Lake.SeekIndex.{new_writer, filter}
use zed.Lake.SeekIndex.Cover.{Call, write_all, covered, asked, filter-write_all}

-- Three values in 100 bytes, two in the next 50 and one in the last 30.
abbrev calls : List (Call ℕ)
calls =
    record { lo = 1; hi = 4; to_val = 3; to_byte = 100 }
    ∷ record { lo = 5; hi = 7; to_val = 5; to_byte = 150 }
    ∷ record { lo = 8; hi = 8; to_val = 6; to_byte = 180 }
    ∷ []

-- A bit in the first run and one in the last.
abbrev bits : List Bool
bits = false ∷ true ∷ true ∷ false ∷ false ∷ true ∷ []

filter_run :
    filter (write_all new_writer calls) bits
    ≡ record { offset = 0; len = 100 } ∷ record { offset = 150; len = 30 } ∷ []
unfolding filter write_all
filter_run = refl

filter-write_all_example :
    covered 120 (filter (write_all new_writer calls) bits) ≡ asked 120 bits new_writer calls
filter-write_all_example = filter-write_all 120 bits calls (
  omega arith,
  omega arith,
  omega arith,
  omega arith,
  (
    omega arith,
    omega arith,
    omega arith,
    omega arith,
    (omega arith, omega arith, omega arith, omega arith, tt),
  ),
)

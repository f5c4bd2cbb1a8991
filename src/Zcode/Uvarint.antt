-- ===== src/Zcode/Uvarint.antt =====
-- Go's `encoding/binary` varints, which zcode's tags are written with, and `SizeOfUvarint` of
-- zcode/bytes.go. A byte slice is a list of numbers below 256. Two numbers that share no bit are
-- joined by `+`, where the library writes `|`.
pub mod RoundTrip
use Prim.Native.Nat.{min}
use zed.Prelude.{
  ℕ, zero, suc, ◌+◌, ◌*◌, ◌/◌, ◌%◌, ◌^◌, ◌<◌, ◌≡◌, refl, List, [], ◌∷◌, ◌++◌, ltb, length, drop,
  arith, if◌then◌else◌, ◌==◌, ◌&&◌, Option, none, some,
}

-- `binary.AppendUvarint` without its `dst`: a group of seven bits a round while `x >= 0x80`. The
-- first argument is the rounds left; after nine of them a uint64 is below 2.
unfoldable pub put_groups : ℕ → ℕ → List ℕ
put_groups zero x = x ∷ []
put_groups (suc k) x =
    let more = put_groups k (x / 128) in if ltb x 128 then x ∷ [] else (x % 128 + 128) ∷ more

abbrev pub max_groups : ℕ
max_groups = 9

unfoldable pub append_uvarint : List ℕ → ℕ → List ℕ
append_uvarint dst x = dst ++ put_groups max_groups x

-- `binary.PutUvarint`: it overwrites the front of the buffer, and panics (`none`) if that is too
-- short.
unfoldable pub overwrite : List ℕ → List ℕ → Option (List ℕ)
overwrite [] buf = some buf
overwrite (b ∷ bs) [] = none
overwrite (b ∷ bs) (_ ∷ buf) = elim (overwrite bs buf) [ none ↦ none | some r ↦ some (b ∷ r) ]

-- `SizeOfUvarint`: the loop on `u64`, with the rounds left and the count `n`.
unfoldable pub size_loop : ℕ → ℕ → ℕ → ℕ
size_loop zero n u64 = n
size_loop (suc k) n u64 =
    let more = size_loop k (n + 1) (u64 / 128) in if ltb u64 128 then n else more

unfoldable pub size_of_uvarint : ℕ → ℕ
unfolding size_loop
size_of_uvarint u64 = size_loop max_groups 1 u64

-- What `binary.Uvarint` answers: a value with the bytes that it took, `n = 0` for a buffer that
-- is too small, or `n < 0` for a value over 64 bits.
pub data Read : Type 0 where
  value : ℕ → ℕ → Read
  short : Read
  overflow : Read

-- The loop of `binary.Uvarint` over `buf[i:]`, with `x` and the index `i`; its `s` is `7 * i`.
unfoldable pub uvarint_loop : List ℕ → ℕ → ℕ → Read
uvarint_loop [] x i = short
uvarint_loop (b ∷ buf) x i =
    let more = uvarint_loop buf (x + b % 128 * 2 ^ (7 * i)) (i + 1) in
    if i == 10
    then overflow
    else if ltb b 128
    then (if i == 9 && ltb 1 b then overflow else value (x + b * 2 ^ (7 * i)) (i + 1))
    else more

unfoldable pub uvarint : List ℕ → Read
unfolding uvarint_loop
uvarint buf = uvarint_loop buf 0 0

-- ===== src/Zcode/Uvarint/RoundTrip.antt =====
-- What `binary.Uvarint` reads of what `binary.AppendUvarint` wrote, and the size of it.
use zed.Prelude.{
  ℕ, zero, suc, ◌+◌, ◌*◌, ◌/◌, ◌%◌, ◌^◌, ◌<◌, ◌≤◌, ◌≡◌, refl, ap, List, [], ◌∷◌, ◌++◌, length,
  arith, some,
}
use zed.Zcode.Uvarint.{
  put_groups, max_groups, size_loop, size_of_uvarint, value, uvarint_loop, uvarint, overwrite,
}
use native.Mathlib.Nat.{div-add-mod}
use native.Mathlib.Numerals.{towards_suc}

-- The place value of the next group.
next_place : (i : ℕ) → 2 ^ (7 * (i + 1)) ≡ 128 * 2 ^ (7 * i)
next_place i =
    let e : 7 * (i + 1) ≡ 7 * i + 7 = omega arith in rw e (simp towards_suc (omega arith))

groups_split : (x i : ℕ) → x * 2 ^ (7 * i) ≡ x % 128 * 2 ^ (7 * i) + x / 128 * 2 ^ (7 * (i + 1))
groups_split x i = omega (
  arith,
  ap (λ (t : ℕ). t * 2 ^ (7 * i)) (div-add-mod x 128),
  ap (λ (t : ℕ). x / 128 * t) (next_place i),
)

pub length-put_groups_pos : (k x : ℕ) → 1 ≤ length (put_groups k x)
unfolding put_groups
length-put_groups_pos zero x = omega arith
length-put_groups_pos (suc k) x = ground arith

pub length-put_groups_le : (k x : ℕ) → length (put_groups k x) ≤ k + 1
unfolding put_groups
length-put_groups_le zero x = omega arith
length-put_groups_le (suc k) x = ground (arith, length-put_groups_le k (x / 128))

-- `i + k = 9`: the last round that is left is the tenth group, which must be below 2.
uvarint_loop-put_groups :
    (k x acc i : ℕ) (rest : List ℕ)
    → i + k ≡ 9
    → x < 2 * 128 ^ k
    → uvarint_loop (put_groups k x ++ rest) acc i
      ≡ value (acc + x * 2 ^ (7 * i)) (i + length (put_groups k x))
unfolding put_groups uvarint_loop
uvarint_loop-put_groups zero x acc i rest hi hx = ground arith
uvarint_loop-put_groups (suc k) x acc i rest hi hx = ground (
  arith,
  groups_split x i,
  uvarint_loop-put_groups k (x / 128) (acc + x % 128 * 2 ^ (7 * i)) (i + 1) rest (omega arith)
      (omega arith),
)

-- A uint64 that was appended is read back, with the count of its bytes, whatever follows.
pub uvarint-append_uvarint :
    (x : ℕ) (rest : List ℕ)
    → x < 2 ^ 64
    → uvarint (put_groups max_groups x ++ rest) ≡ value x (length (put_groups max_groups x))
unfolding uvarint
uvarint-append_uvarint x rest h =
    ground (arith, uvarint_loop-put_groups 9 x 0 0 rest (omega arith) (omega arith))

size_loop-put_groups : (k n x : ℕ) → size_loop k n x + 1 ≡ n + length (put_groups k x)
unfolding size_loop put_groups
size_loop-put_groups zero n x = omega arith
size_loop-put_groups (suc k) n x = ground (arith, size_loop-put_groups k (n + 1) (x / 128))

pub size_of_uvarint-length : (x : ℕ) → size_of_uvarint x ≡ length (put_groups max_groups x)
unfolding size_of_uvarint
size_of_uvarint-length x = omega (arith, size_loop-put_groups max_groups 1 x)

-- A tag needs more than one byte only from 128 on.
pub size_of_uvarint_small : (x : ℕ) → 1 < size_of_uvarint x → 128 ≤ x
unfolding size_of_uvarint
size_of_uvarint_small x h = ground arith

pub size_of_uvarint_le : (x : ℕ) → size_of_uvarint x ≤ 10
size_of_uvarint_le x = omega (arith, size_of_uvarint-length x, length-put_groups_le max_groups x)

-- `PutUvarint` over a buffer that is long enough.
pub overwrite_fits :
    (bs old rest : List ℕ) → length old ≡ length bs → overwrite bs (old ++ rest) ≡ some (bs ++ rest)
unfolding overwrite
overwrite_fits [] [] rest h = refl
overwrite_fits [] (o ∷ old) rest h = absurd (omega arith)
overwrite_fits (b ∷ bs) [] rest h = absurd (omega arith)
overwrite_fits (b ∷ bs) (o ∷ old) rest h = ground (arith, overwrite_fits bs old rest)

-- `uvarint` takes at least one byte and no more than there are.
uvarint_loop_takes :
    (buf : List ℕ) (x i v n : ℕ) → uvarint_loop buf x i ≡ value v n → (i < n) × (n ≤ i + length buf)
unfolding uvarint_loop
uvarint_loop_takes [] x i v n e = cc
uvarint_loop_takes (b ∷ buf) x i v n e =
    ground (arith, uvarint_loop_takes buf (x + b % 128 * 2 ^ (7 * i)) (i + 1) v n)

pub uvarint_takes : (buf : List ℕ) (v n : ℕ) → uvarint buf ≡ value v n → (0 < n) × (n ≤ length buf)
unfolding uvarint
uvarint_takes buf v n e = ground (arith, uvarint_loop_takes buf 0 0 v n)

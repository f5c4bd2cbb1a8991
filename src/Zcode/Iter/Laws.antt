-- ===== src/Zcode/Iter/Laws.antt =====
-- What an iterator reads of values that `Append` wrote, and of any other bytes.
use zed.Prelude.{
  ℕ, ◌+◌, ◌-◌, ◌^◌, ◌<◌, ◌≤◌, ◌≡◌, refl, ap, List, [], ◌++◌, none, some, length, drop,
  length-append, take-append_length, drop-append_length, append_assoc, append-nil, arith, ◌==◌, leb,
  true, false,
}
use zed.Prelude.Outcome.{ok, slice}
use zed.Zcode.Uvarint.{put_groups, max_groups, uvarint, value}
use zed.Zcode.Uvarint.RoundTrip.{uvarint-append_uvarint, length-put_groups_le}
use zed.Zcode.Bytes.{Body, word, append, decode_tag_length, decode_tag_length_of}
use zed.Zcode.Iter.{next_of, next_tag_and_body_of, next, next_tag_and_body}

-- A Go slice is shorter than 2 ^ 63.
abbrev pub IsSlice : Body → Type 0
IsSlice none = Unit {0}
IsSlice (some val) = length val < 2 ^ 63

abbrev tag_bytes : Body → List ℕ
tag_bytes none = put_groups max_groups 0
tag_bytes (some val) = put_groups max_groups (length val + 1)

abbrev tag_of : Body → ℕ
tag_of none = 0
tag_of (some val) = length val + 1

abbrev body_bytes : Body → List ℕ
body_bytes none = []
body_bytes (some val) = val

pub append_shape :
    (dst : List ℕ) (v : Body) → IsSlice v → append dst v ≡ dst ++ (tag_bytes v ++ body_bytes v)
unfolding append
append_shape dst none h = rw append-nil
append_shape dst (some val) h =
    let e : word (length val + 1) ≡ length val + 1 = omega arith in rw (e, append_assoc)

uvarint-tag :
    (v : Body) (rest : List ℕ)
    → IsSlice v
    → uvarint (tag_bytes v ++ rest) ≡ value (tag_of v) (length (tag_bytes v))
uvarint-tag none rest h = uvarint-append_uvarint 0 rest (omega arith)
uvarint-tag (some val) rest h = uvarint-append_uvarint (length val + 1) rest (omega arith)

-- A slice between two cuts of a list.
slice_middle {ℓ} :
    {A : Type ℓ} (xs ys zs : List A) (n : ℕ)
    → n ≡ length xs + length ys
    → slice (xs ++ (ys ++ zs)) (length xs) n ≡ ok ys
slice_middle xs ys zs n h =
    let d : n - length xs ≡ length ys = omega arith in
    let l : leb (length xs) n ≡ true = ground arith in
    let r : leb n (length (xs ++ (ys ++ zs))) ≡ true =
      ground (arith, length-append xs (ys ++ zs), length-append ys zs) in
    rw (l, r, d, drop-append_length, take-append_length) refl

tag_bytes_le : (v : Body) → length (tag_bytes v) ≤ 10
tag_bytes_le none = length-put_groups_le max_groups 0
tag_bytes_le (some val) = length-put_groups_le max_groups (length val + 1)

-- The bytes that a value takes.
abbrev pub extent : Body → ℕ
extent none = length (tag_bytes none)
extent (some val) = length (tag_bytes (some val)) + length val

drop-middle {ℓ} :
    {A : Type ℓ} (xs ys zs : List A) → drop (length xs + length ys) (xs ++ (ys ++ zs)) ≡ zs
drop-middle xs ys zs =
    rw (← append_assoc xs ys zs, ← length-append xs ys) (drop-append_length (xs ++ ys) zs)

word_end :
    (val : List ℕ)
    → length val < 2 ^ 63
    → word (length (tag_bytes (some val)) + (length val + 1 - 1))
      ≡ length (tag_bytes (some val)) + length val
word_end val h = omega (arith, tag_bytes_le (some val))

next-tag :
    (v : Body) (rest : List ℕ)
    → IsSlice v
    → next_of (tag_bytes v ++ (body_bytes v ++ rest)) (value (tag_of v) (length (tag_bytes v)))
      ≡ ok (v, rest)
unfolding next_of
next-tag none rest h = ap (λ (r : List ℕ). ok (none, r)) (drop-append_length (tag_bytes none) rest)
next-tag (some val) rest h =
    let t = tag_bytes (some val) in
    let nz : (length val + 1 == 0) ≡ false = ground arith in
    rw (nz, word_end val h, slice_middle t val rest (length t + length val) refl)
      (ap (λ (r : List ℕ). ok (some val, r)) (drop-middle t val rest))

append-append :
    (v : Body) (rest : List ℕ)
    → IsSlice v
    → append [] v ++ rest ≡ tag_bytes v ++ (body_bytes v ++ rest)
append-append v rest h = rw (append_shape [] v h) (append_assoc (tag_bytes v) (body_bytes v) rest)

-- `Next` returns the value that `Append` wrote, and leaves what follows it.
pub next-append : (v : Body) (rest : List ℕ) → IsSlice v → next (append [] v ++ rest) ≡ ok (v, rest)
unfolding next
next-append v rest h =
    rw (append-append v rest h, uvarint-tag v (body_bytes v ++ rest) h) (next-tag v rest h)

length-append_lem : (v : Body) → IsSlice v → length (append [] v) ≡ extent v
length-append_lem none h = rw (append_shape [] none h, append-nil)
length-append_lem (some val) h =
    rw (append_shape [] (some val) h) (length-append (tag_bytes (some val)) val)

next_tag_and_body-tag :
    (v : Body) (rest : List ℕ)
    → IsSlice v
    → next_tag_and_body_of
        (tag_bytes v ++ (body_bytes v ++ rest))
        (value (tag_of v) (length (tag_bytes v)))
      ≡ ok (tag_bytes v ++ body_bytes v, rest)
unfolding next_tag_and_body_of
next_tag_and_body-tag none rest h =
    let t = tag_bytes none in
    rw (slice_middle [] t rest (length t) (omega arith), drop-append_length, append-nil)
next_tag_and_body-tag (some val) rest h =
    let t = tag_bytes (some val) in
    let nz : (length val + 1 == 0) ≡ false = ground arith in
    let e : length t + length val ≡ length (t ++ val) = omega (arith, length-append t val) in
    rw
      (
        nz,
        word_end val h,
        e,
        ← append_assoc t val rest,
        slice_middle [] (t ++ val) rest (length (t ++ val)) (omega arith),
        drop-append_length,
      )
      refl

-- `NextTagAndBody` returns the very bytes that `Append` wrote.
pub next_tag_and_body-append :
    (v : Body) (rest : List ℕ)
    → IsSlice v
    → next_tag_and_body (append [] v ++ rest) ≡ ok (append [] v, rest)
unfolding next_tag_and_body
next_tag_and_body-append v rest h =
    rw (append-append v rest h, uvarint-tag v (body_bytes v ++ rest) h, append_shape [] v h)
      (next_tag_and_body-tag v rest h)

decode_tag_length-tag :
    (v : Body)
    → IsSlice v
    → decode_tag_length_of (value (tag_of v) (length (tag_bytes v))) ≡ ok (extent v)
unfolding decode_tag_length_of
decode_tag_length-tag none h = refl
decode_tag_length-tag (some val) h =
    let nz : (length val + 1 == 0) ≡ false = ground arith in
    let e : word (length val + 1 + length (tag_bytes (some val)) - 1) ≡ extent (some val) =
      omega (arith, tag_bytes_le (some val)) in
    rw (nz, e)

-- `DecodeTagLength` returns the number of bytes that `Append` wrote.
pub decode_tag_length-append :
    (v : Body) (rest : List ℕ)
    → IsSlice v
    → decode_tag_length (append [] v ++ rest) ≡ ok (length (append [] v))
unfolding decode_tag_length
decode_tag_length-append v rest h =
    rw (append-append v rest h, uvarint-tag v (body_bytes v ++ rest) h, length-append_lem v h)
      (decode_tag_length-tag v h)

-- ===== src/Zcode/Iter/Safety.antt =====
-- An iterator on any bytes, well formed or not.
use zed.Prelude.{
  ℕ, zero, suc, ◌+◌, ◌-◌, ◌/◌, ◌^◌, ◌<◌, ◌≤◌, ◌≡◌, refl, List, ◌++◌, length, take, drop,
  length-append, take-append-drop, length-drop, arith, ◌==◌, ltb, true, false,
}
use zed.Prelude.Outcome.{ok, panic}
use zed.Zcode.Uvarint.{put_groups, max_groups, Read, uvarint, value}
use zed.Zcode.Uvarint.RoundTrip.{uvarint-append_uvarint, uvarint_takes}
use zed.Zcode.Bytes.{Body, word}
use zed.Zcode.Iter.{next, next_of, next_tag_and_body, next_tag_and_body_of}

next_of_shrinks :
    (i : List ℕ) (r : Read) (v : Body) (rest : List ℕ)
    → uvarint i ≡ r
    → next_of i r ≡ ok (v, rest)
    → length rest < length i
unfolding next_of
next_of_shrinks i (value u n) v rest e h =
    ground (arith, uvarint_takes i u n e, length-drop n i, length-drop (word (n + (u - 1))) i)
next_of_shrinks i _ v rest e h = cc

-- Every `Next` that returns takes at least one byte, so that a loop until `Done` ends.
pub next_shrinks :
    (i : List ℕ) (v : Body) (rest : List ℕ) → next i ≡ ok (v, rest) → length rest < length i
unfolding next
next_shrinks i v rest h = next_of_shrinks i (uvarint i) v rest refl h

next_of-next_tag_and_body_of :
    (i : List ℕ) (r : Read) (v : Body) (rest : List ℕ)
    → uvarint i ≡ r
    → next_of i r ≡ ok (v, rest)
    → (taken : List ℕ) × (next_tag_and_body_of i r ≡ ok (taken, rest)) × (i ≡ taken ++ rest)
unfolding next_of next_tag_and_body_of
next_of-next_tag_and_body_of i (value u n) v rest e h =
    let n' : ℕ = (elim (u == 0) [ true ↦ n | false ↦ word (n + (u - 1)) ]) in
    (take n' i, ground (arith, uvarint_takes i u n e), ground (arith, take-append-drop n' i))
next_of-next_tag_and_body_of i _ v rest e h = cc

-- Where `Next` returns, `NextTagAndBody` returns the bytes in front of the same rest.
pub next-next_tag_and_body :
    (i : List ℕ) (v : Body) (rest : List ℕ)
    → next i ≡ ok (v, rest)
    → (taken : List ℕ) × (next_tag_and_body i ≡ ok (taken, rest)) × (i ≡ taken ++ rest)
unfolding next next_tag_and_body
next-next_tag_and_body i v rest h = next_of-next_tag_and_body_of i (uvarint i) v rest refl h

pow_pos : (k : ℕ) → 1 ≤ 128 ^ k
pow_pos zero = omega arith
pow_pos (suc k) = omega (arith, pow_pos k)

length-put_groups_ge : (k x : ℕ) → 128 ^ k ≤ x → length (put_groups k x) ≡ k + 1
unfolding put_groups
length-put_groups_ge zero x h = omega arith
length-put_groups_ge (suc k) x h =
    let big : ltb x 128 ≡ false = ground (arith, pow_pos k, omega_le) in
    rw big (omega (arith, length-put_groups_ge k (x / 128) (omega arith)))
  where
    omega_le : 128 ≤ x
    omega_le = omega (arith, pow_pos k)

-- A tag among the nine largest makes `tagLength` negative. `Next` panics on it, as it should on a
-- malformed value; `NextTagAndBody` returns some of the tag's own bytes, none at all at the last.
pub next_tag_and_body_malformed :
    (k : ℕ) (rest : List ℕ)
    → 0 < k
    → k ≤ 9
    → (next (put_groups max_groups (2 ^ 64 - k) ++ rest) ≡ panic)
      × (next_tag_and_body (put_groups max_groups (2 ^ 64 - k) ++ rest)
          ≡ ok (
            take (9 - k) (put_groups max_groups (2 ^ 64 - k) ++ rest),
            drop (9 - k) (put_groups max_groups (2 ^ 64 - k) ++ rest),
          ))
unfolding next next_tag_and_body next_of next_tag_and_body_of
next_tag_and_body_malformed k rest h l =
    let t = put_groups max_groups (2 ^ 64 - k) in
    let n : length t ≡ 10 = length-put_groups_ge 9 (2 ^ 64 - k) (omega arith) in
    let r = uvarint-append_uvarint (2 ^ 64 - k) rest (omega arith) in
    rw (r, n) (ground (arith, length-append t rest, n), ground (arith, length-append t rest, n))

-- ===== src/Zcode/Iter.antt =====
-- zcode/iter.go, and `Body` of zcode/bytes.go. An iterator is the bytes that are left.
pub mod Laws
pub mod Safety
use zed.Prelude.{ℕ, ◌+◌, List, [], ◌∷◌, none, some, length, drop, if◌then◌else◌, Bool, true, false}
use zed.Prelude.Outcome.{Outcome, ok, panic, ◌>>=◌, slice}
use zed.Zcode.Uvarint.{Read, uvarint, value}
use zed.Zcode.Bytes.{Body, word, tag_is_null, tag_length}

unfoldable pub done : List ℕ → Bool
done [] = true
done (_ ∷ _) = false

-- What `Next` does with the answer of `binary.Uvarint`.
unfoldable pub next_of : List ℕ → Read → Outcome (Body × List ℕ)
unfolding tag_is_null tag_length
next_of i (value u64 n) =
    if tag_is_null u64
    then ok (none, drop n i)
    else (let end = word (n + tag_length u64) in do val ← slice i n end; ok (some val, drop end i))
next_of i _ = panic

unfoldable pub next : List ℕ → Outcome (Body × List ℕ)
unfolding next_of
next i = next_of i (uvarint i)

unfoldable pub body : List ℕ → Outcome Body
unfolding next
body b = do (val, _) ← next b; ok val

unfoldable pub next_tag_and_body_of : List ℕ → Read → Outcome (List ℕ × List ℕ)
unfolding tag_is_null tag_length
next_tag_and_body_of i (value u64 n) =
    let n' = if tag_is_null u64 then n else word (n + tag_length u64) in
    do val ← slice i 0 n'; ok (val, drop n' i)
next_tag_and_body_of i _ = panic

unfoldable pub next_tag_and_body : List ℕ → Outcome (List ℕ × List ℕ)
unfolding next_tag_and_body_of
next_tag_and_body i = next_tag_and_body_of i (uvarint i)

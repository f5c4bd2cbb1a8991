-- ===== src/Zcode/Builder.antt =====
-- zcode/builder.go. A builder holds the bytes written so far and the stack of open containers, each
-- as the offset of its body; the top of the stack is the head of the list.
pub mod Close
pub mod Nesting
use zed.Prelude.{
  ℕ, zero, suc, ◌+◌, ◌-◌, ◌^◌, List, [], ◌∷◌, ◌++◌, Option, none, some, length, take, ltb, ◌==◌,
  if◌then◌else◌,
}
use zed.Prelude.Outcome.{Outcome, ok, panic, ◌>>=◌, slice}
use zed.Zcode.Uvarint.{put_groups, max_groups, overwrite, size_of_uvarint}
use zed.Zcode.Bytes.{Body, word, to_tag, append}

pub record Builder : Type 0 where
  pub bytes : List ℕ
  pub containers : List ℕ

-- `NewBuilder`, and what `Reset` and `Truncate` leave (they differ in the storage that is kept).
abbrev pub new_builder : Builder
new_builder = record { bytes = []; containers = [] }

unfoldable pub reset : Builder → Builder
reset b = new_builder

unfoldable pub begin_container : Builder → Builder
begin_container b =
    let bytes' = b.bytes ++ (0 ∷ []) in
    record { bytes = bytes'; containers = length bytes' ∷ b.containers }

-- `binary.PutUvarint(b.bytes[tagOff:], tag) != tagSize`, and the bytes that it leaves.
unfoldable pub write_tag : List ℕ → ℕ → ℕ → ℕ → Outcome (List ℕ)
write_tag bytes tag_off tag tag_size = do
  buf ← slice bytes tag_off (length bytes)
  buf' ← (elim (overwrite (put_groups max_groups tag) buf) [ none ↦ panic | some r ↦ ok r ])
  if length (put_groups max_groups tag) == tag_size then ok (take tag_off bytes ++ buf') else panic

-- Moves the body over when its tag takes more than the one byte that was kept for it.
unfoldable pub make_room : List ℕ → ℕ → ℕ → ℕ → Outcome (List ℕ)
make_room bytes body_off tag_off tag_size =
    if ltb 1 tag_size
    then (do
      front ← slice bytes 0 (tag_off + tag_size)
      back ← slice bytes body_off (length bytes)
      ok (front ++ back))
    else ok bytes

-- `EndContainer` on the stack of containers. An offset is at least 1, for the byte of its tag.
unfoldable pub end_of : List ℕ → List ℕ → Outcome Builder
end_of bytes [] = panic
end_of bytes (zero ∷ stack) = panic
end_of bytes (suc tag_off ∷ stack) =
    let tag = to_tag (word (length bytes + 2 ^ 64 - suc tag_off)) in
    let tag_size = size_of_uvarint tag in
    do
      moved ← make_room bytes (suc tag_off) tag_off tag_size
      bytes' ← write_tag moved tag_off tag tag_size
      ok (record { bytes = bytes'; containers = stack })

unfoldable pub end_container : Builder → Outcome Builder
end_container b = end_of b.bytes b.containers

unfoldable pub transform_of : (List ℕ → List ℕ) → List ℕ → List ℕ → Outcome Builder
transform_of transform bytes [] = panic
transform_of transform bytes (body_off ∷ stack) = do
  old ← slice bytes body_off (length bytes)
  front ← slice bytes 0 body_off
  ok (record { bytes = front ++ transform old; containers = body_off ∷ stack })

unfoldable pub transform_container : (List ℕ → List ℕ) → Builder → Outcome Builder
unfolding transform_of
transform_container transform b = transform_of transform b.bytes b.containers

unfoldable pub append_value : Body → Builder → Builder
append_value val b = record b { bytes = append b.bytes val }

unfoldable pub bytes_of : Builder → Outcome (List ℕ)
bytes_of b = elim b.containers [ [] ↦ ok b.bytes | _ ∷ _ ↦ panic ]

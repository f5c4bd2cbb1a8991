-- ===== src/Zcode/Tests.antt =====
-- Concrete runs of the zcode model, and its theorems at concrete inputs.
use zed.Prelude.{
  ℕ, ◌+◌, ◌≤◌, ◌≡◌, ◌-◌, ◌^◌, refl, arith, List, [], ◌∷◌, ◌++◌, none, some, length, take, drop,
}
use zed.Prelude.Int.{negsuc}
use zed.Prelude.Outcome.{ok, panic, ◌>>=◌}
use zed.Zcode.Uvarint.{put_groups, max_groups, uvarint}
use zed.Zcode.Bytes.{append}
use zed.Zcode.Iter.{next, next_tag_and_body}
use zed.Zcode.Iter.Laws.{next-append}
use zed.Zcode.Iter.Safety.{next-next_tag_and_body, next_tag_and_body_malformed}
use zed.Zcode.Counted.{
  decode_counted_uvarint, append_counted_uvarint, decode_counted_varint, append_counted_varint,
}
use zed.Zcode.Counted.RoundTrip.{
  decode_counted_uvarint-append_counted_uvarint, decode_counted_varint-append_counted_varint,
}
use zed.Zcode.Builder.{Builder, new_builder, bytes_of}
use zed.Zcode.Builder.Nesting.{
  Items, leaf, container, nil, cons, encode, encode_items, build_items, build_items-encode_items,
  read_all, read_all-build_items, bodies,
}

abbrev abc : List ℕ
abc = b'a' ∷ b'b' ∷ b'c' ∷ []

append-abc : append (7 ∷ []) (some abc) ≡ 7 ∷ 4 ∷ abc
unfolding append put_groups
append-abc = refl

append_null : append [] none ≡ 0 ∷ []
unfolding append put_groups
append_null = refl

abbrev nested : Items
nested = cons (leaf none) (cons (container (cons (leaf (some abc)) nil)) nil)

encode_nested : encode_items nested ≡ 0 ∷ 5 ∷ 4 ∷ abc
unfolding encode_items encode append put_groups
encode_nested = refl

least_int64 : append_counted_varint [] (negsuc (2 ^ 63 - 1)) ≡ 1 ∷ []
unfolding append_counted_varint
least_int64 = refl

next-append_example : next (append [] (some abc) ++ (0 ∷ [])) ≡ ok (some abc, 0 ∷ [])
next-append_example = next-append (some abc) (0 ∷ []) (omega arith)

next-abc : next (4 ∷ b'a' ∷ b'b' ∷ b'c' ∷ 0 ∷ []) ≡ ok (some abc, 0 ∷ [])
unfolding next uvarint
next-abc = refl

next-next_tag_and_body_example :
    (taken : List ℕ) × (next_tag_and_body (4 ∷ b'a' ∷ b'b' ∷ b'c' ∷ 0 ∷ []) ≡ ok (taken, 0 ∷ []))
    × ((4 ∷ b'a' ∷ b'b' ∷ b'c' ∷ 0 ∷ []) ≡ taken ++ (0 ∷ []))
next-next_tag_and_body_example =
    next-next_tag_and_body (4 ∷ b'a' ∷ b'b' ∷ b'c' ∷ 0 ∷ []) (some abc) (0 ∷ []) next-abc

next_tag_and_body_malformed_example :
    (next (put_groups max_groups (2 ^ 64 - 9) ++ abc) ≡ panic)
    × (next_tag_and_body (put_groups max_groups (2 ^ 64 - 9) ++ abc)
        ≡ ok (
          take (9 - 9) (put_groups max_groups (2 ^ 64 - 9) ++ abc),
          drop (9 - 9) (put_groups max_groups (2 ^ 64 - 9) ++ abc),
        ))
next_tag_and_body_malformed_example = next_tag_and_body_malformed 9 abc (omega arith) (omega arith)

decode_counted_uvarint-append_counted_uvarint_example :
    (decode_counted_uvarint (append_counted_uvarint [] 300) ≡ 300)
    × (length (append_counted_uvarint [] 300) ≤ 8)
decode_counted_uvarint-append_counted_uvarint_example =
    decode_counted_uvarint-append_counted_uvarint 300 (omega arith)

decode_counted_varint-append_counted_varint_example :
    decode_counted_varint (append_counted_varint [] (negsuc (2 ^ 63 - 1))) ≡ negsuc (2 ^ 63 - 1)
decode_counted_varint-append_counted_varint_example =
    decode_counted_varint-append_counted_varint (negsuc (2 ^ 63 - 1)) (omega arith)

abbrev opened : Builder
opened = record { bytes = 9 ∷ 0 ∷ []; containers = 2 ∷ [] }

build_items-encode_items_example :
    build_items nested opened
    ≡ ok (record { bytes = (9 ∷ 0 ∷ []) ++ encode_items nested; containers = 2 ∷ [] })
build_items-encode_items_example =
    build_items-encode_items nested opened (rw encode_nested (omega arith))

read_all-build_items_example :
    (build_items nested new_builder >>= λ b. bytes_of b >>= λ bs. read_all (length bs + 1) bs)
    ≡ ok (bodies nested)
read_all-build_items_example = read_all-build_items nested (rw encode_nested (omega arith))

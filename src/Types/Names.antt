-- ===== src/Types/Names.antt =====
-- What type.go and context.go use of Go's library on names: `strings.Compare`, `sort.Strings` and
-- `utf8.ValidString`; and `duplicateField` of context.go.
use Prim.Native.Nat.{compare, Ordering}
use zed.Prelude.{
  ℕ, zero, suc, List, [], ◌∷◌, Bool, true, false, ◌&&◌, Option, none, some, if◌then◌else◌, ltb, leb,
  ◌==◌,
}
use zed.Prelude.Eq.{beq, list_eq}
use zed.Types.{Bytes, Fields, no_fields, field}

-- `cmp != 0` ends a comparison.
abbrev pub then_compare : Ordering → Ordering → Ordering
then_compare Ordering.eq o = o
then_compare o p = o

unfoldable pub compare_strings : Bytes → Bytes → Ordering
compare_strings [] [] = Ordering.eq
compare_strings [] (_ ∷ _) = Ordering.lt
compare_strings (_ ∷ _) [] = Ordering.gt
compare_strings (x ∷ xs) (y ∷ ys) = then_compare (compare x y) (compare_strings xs ys)

abbrev pub is_less : Ordering → Bool
is_less Ordering.lt = true
is_less _ = false

-- `sort.Strings`, by insertion.
unfoldable pub insert_string : Bytes → List Bytes → List Bytes
unfolding compare_strings
insert_string s [] = s ∷ []
insert_string s (t ∷ ts) =
    let rest = insert_string s ts in if is_less (compare_strings t s) then t ∷ rest else s ∷ t ∷ ts

unfoldable pub sort_strings : List Bytes → List Bytes
unfolding insert_string
sort_strings [] = []
sort_strings (s ∷ ss) = insert_string s (sort_strings ss)

-- The loop over the sorted names, with `prev`.
unfoldable pub repeated_from : Bytes → List Bytes → Option Bytes
repeated_from prev [] = none
repeated_from prev (n ∷ ns) = let rest = repeated_from n ns in if beq n prev then some n else rest

abbrev pub field_names : Fields → List Bytes
field_names no_fields = []
field_names (field name t fs) = name ∷ field_names fs

abbrev pub first_repeated : List Bytes → Option Bytes
unfolding repeated_from
first_repeated [] = none
first_repeated (n ∷ ns) = repeated_from n ns

-- `duplicateField`; its test for fewer than two fields saves only work.
unfoldable pub duplicate_field : Fields → Option Bytes
unfolding repeated_from sort_strings
duplicate_field fs = first_repeated (sort_strings (field_names fs))

-- What a first byte of UTF-8 asks for: how many more bytes, and the range of the next one.
unfoldable pub utf8_first : ℕ → Option (ℕ × ℕ × ℕ)
utf8_first b =
    if ltb b 0x80
    then some (0, 0, 0)
    else if ltb b 0xc2
    then none
    else if ltb b 0xe0
    then some (1, 0x80, 0xbf)
    else if b == 0xe0
    then some (2, 0xa0, 0xbf)
    else if b == 0xed
    then some (2, 0x80, 0x9f)
    else if ltb b 0xf0
    then some (2, 0x80, 0xbf)
    else if b == 0xf0
    then some (3, 0x90, 0xbf)
    else if ltb b 0xf4
    then some (3, 0x80, 0xbf)
    else if b == 0xf4
    then some (3, 0x80, 0x8f)
    else none

-- `more` bytes are still due, the next of them from `lo` to `hi`.
unfoldable pub utf8_from : ℕ → ℕ → ℕ → Bytes → Bool
unfolding utf8_first
utf8_from zero lo hi [] = true
utf8_from (suc more) lo hi [] = false
utf8_from zero lo hi (b ∷ bs) = elim (utf8_first b) [
  | none ↦ false
  | some (more, l, h) ↦ utf8_from more l h bs
]
utf8_from (suc more) lo hi (b ∷ bs) = leb lo b && leb b hi && utf8_from more 0x80 0xbf bs

unfoldable pub valid_string : Bytes → Bool
unfolding utf8_from
valid_string s = utf8_from 0 0 0 s

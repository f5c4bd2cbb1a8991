-- ===== src/Zcode/Builder/Nesting.antt =====
-- Nested values written by a builder, against the encoding that zcode's package comment describes.
use zed.Prelude.{
  ℕ, zero, suc, ◌+◌, ◌-◌, ◌^◌, ◌<◌, ◌≤◌, ◌≡◌, refl, ap, List, [], ◌∷◌, ◌++◌, none, some, length,
  length-append, append_assoc, append-nil, arith, false, if◌then◌else◌,
}
use zed.Prelude.Outcome.{Outcome, ok, panic, ◌>>=◌}
use zed.Zcode.Uvarint.{put_groups, max_groups, append_uvarint}
use zed.Zcode.Uvarint.RoundTrip.{length-put_groups_pos}
use zed.Zcode.Bytes.{Body, append, to_tag}
use zed.Zcode.Iter.{done, next}
use zed.Zcode.Iter.Laws.{IsSlice, next-append}
use zed.Zcode.Builder.{Builder, new_builder, begin_container, end_container, append_value, bytes_of}
use zed.Zcode.Builder.Close.{end_container_lem}

mutual
  pub data Item : Type 0 where
    leaf : Body → Item
    container : Items → Item

  pub data Items : Type 0 where
    nil : Items
    cons : Item → Items → Items

-- The encoding: a container is the value whose body is the encoding of its items.
unfoldable mutual
  pub encode : Item → List ℕ
  encode (leaf v) = append [] v
  encode (container xs) = append [] (some (encode_items xs))

  pub encode_items : Items → List ℕ
  encode_items nil = []
  encode_items (cons x xs) = encode x ++ encode_items xs

-- The calls on a builder that write a value: `BeginContainer`, the items, `EndContainer`.
unfoldable mutual
  pub build : Item → Builder → Outcome Builder
  build (leaf v) b = ok (append_value v b)
  build (container xs) b = build_items xs (begin_container b) >>= λ b'. end_container b'

  pub build_items : Items → Builder → Outcome Builder
  build_items nil b = ok b
  build_items (cons x xs) b = build x b >>= λ b'. build_items xs b'

pub append-dst : (dst : List ℕ) (v : Body) → append dst v ≡ dst ++ append [] v
unfolding append
append-dst dst none = refl
append-dst dst (some val) = append_assoc dst (put_groups max_groups (to_tag (length val))) val

pub length-append-some : (val : List ℕ) → suc (length val) ≤ length (append [] (some val))
unfolding append
length-append-some val =
    let t = put_groups max_groups (to_tag (length val)) in
    omega (arith, length-append t val, length-put_groups_pos max_groups (to_tag (length val)))

-- There is room for the bytes: a slice is shorter than 2 ^ 63.
abbrev pub Room : Builder → List ℕ → Type 0
Room b bs = length b.bytes + length bs < 2 ^ 63 - 1

abbrev pub extended : Builder → List ℕ → Builder
extended b bs = record b { bytes = b.bytes ++ bs }

mutual
  unfolding encode encode_items build build_items append_value begin_container

  build_lem : (x : Item) (b : Builder) → Room b (encode x) → build x b ≡ ok (extended b (encode x))
  build_lem (leaf v) b h =
      ap (λ (r : List ℕ). ok (record { bytes = r; containers = b.containers }))
        (append-dst b.bytes v)
  build_lem (container xs) b h =
      let body = encode_items xs in
      let open_len : length (b.bytes ++ (0 ∷ [])) ≡ suc (length b.bytes) =
        omega (arith, length-append b.bytes (0 ∷ [])) in
      let ih =
        build_items_lem xs (begin_container b) (omega (arith, open_len, length-append-some body)) in
      let closed =
        end_container_lem b.bytes body b.containers (omega (arith, length-append-some body)) in
      rw (ih, append_assoc, open_len, closed)
        (ap (λ (r : List ℕ). ok (record { bytes = r; containers = b.containers }))
          (append-dst b.bytes (some body)))

  build_items_lem :
      (xs : Items) (b : Builder)
      → Room b (encode_items xs)
      → build_items xs b ≡ ok (extended b (encode_items xs))
  build_items_lem nil b h = rw append-nil
  build_items_lem (cons x xs) b h =
      let lens = length-append (encode x) (encode_items xs) in
      let ih = build_lem x b (omega (arith, lens)) in
      let rest =
        build_items_lem xs (extended b (encode x))
          (omega (arith, lens, length-append b.bytes (encode x))) in
      rw (ih, rest, append_assoc)

-- A builder that is given nested items, on top of whatever it holds and has open, appends exactly
-- their encoding, and leaves the open containers as they were, if there is room for the bytes.
pub build_items-encode_items :
    (xs : Items) (b : Builder)
    → Room b (encode_items xs)
    → build_items xs b
      ≡ ok (record { bytes = b.bytes ++ encode_items xs; containers = b.containers })
build_items-encode_items xs b h = build_items_lem xs b h

-- The body of an item, which an iterator over its siblings returns.
abbrev pub body_of : Item → Body
body_of (leaf v) = v
body_of (container xs) = some (encode_items xs)

abbrev pub bodies : Items → List Body
bodies nil = []
bodies (cons x xs) = body_of x ∷ bodies xs

-- A client's loop, `for !it.Done() { it.Next() }`.
pub read_all : ℕ → List ℕ → Outcome (List Body)
read_all zero i = panic
read_all (suc fuel) i =
    let rest = next i >>= (λ (v, i'). read_all fuel i' >>= λ vs. ok (v ∷ vs)) in
    if done i then ok [] else rest

encode-append : (x : Item) → encode x ≡ append [] (body_of x)
unfolding encode
encode-append (leaf v) = refl
encode-append (container xs) = refl

body_of-IsSlice : (x : Item) → length (encode x) < 2 ^ 63 - 1 → IsSlice (body_of x)
unfolding encode
body_of-IsSlice (leaf none) h = tt
body_of-IsSlice (leaf (some val)) h = omega (arith, length-append-some val)
body_of-IsSlice (container xs) h = omega (arith, length-append-some (encode_items xs))

length-encode_pos : (x : Item) → 1 ≤ length (encode x)
length-encode_pos x = rw encode-append (go (body_of x))
  where
    go : (v : Body) → 1 ≤ length (append [] v)
    go none = unfold append append_uvarint in length-put_groups_pos max_groups 0
    go (some val) = omega (arith, length-append-some val)

done_pos : (i : List ℕ) → 1 ≤ length i → done i ≡ false
unfolding done
done_pos [] h = absurd (omega arith)
done_pos (x ∷ i) h = refl

read_all_lem :
    (xs : Items) (fuel : ℕ)
    → length (encode_items xs) < fuel
    → length (encode_items xs) < 2 ^ 63 - 1
    → read_all fuel (encode_items xs) ≡ ok (bodies xs)
unfolding read_all encode_items
read_all_lem xs zero h k = absurd (omega arith)
read_all_lem nil (suc fuel) h k = unfold done in refl
read_all_lem (cons x xs) (suc fuel) h k =
    let lens = length-append (encode x) (encode_items xs) in
    let pos = length-encode_pos x in
    let ih = read_all_lem xs fuel (omega (arith, lens, pos)) (omega (arith, lens)) in
    let one : next (encode x ++ encode_items xs) ≡ ok (body_of x, encode_items xs) =
      rw (encode-append x)
        (next-append (body_of x) (encode_items xs) (body_of-IsSlice x (omega (arith, lens)))) in
    rw (done_pos (encode x ++ encode_items xs) (omega (arith, lens, pos)), one, ih)

-- What a builder wrote, taken by `Bytes` and read by an iterator until it is done, is the bodies of
-- the items, in order: null for null, and for a container its encoded items.
pub read_all-build_items :
    (xs : Items)
    → Room new_builder (encode_items xs)
    → (build_items xs new_builder >>= λ b. bytes_of b >>= λ bs. read_all (length bs + 1) bs)
      ≡ ok (bodies xs)
unfolding bytes_of
read_all-build_items xs h =
    rw (build_items_lem xs new_builder h)
      (read_all_lem xs (length (encode_items xs) + 1) (omega arith) (omega arith))

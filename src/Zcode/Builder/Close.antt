-- ===== src/Zcode/Builder/Close.antt =====
-- What `EndContainer` and `TransformContainer` do to a container whose body is known.
use zed.Prelude.{
  ℕ, zero, suc, ◌+◌, ◌-◌, ◌^◌, ◌<◌, ◌≤◌, ◌≡◌, refl, sym, ap, ◌∙◌, List, [], ◌∷◌, ◌++◌, some, length,
  take, drop, length-append, take-append-drop, take-append_length, drop-append_length,
  length-take_le, append_assoc, arith, ltb, leb, ◌==◌, true, Bool-cases, inl, inr,
}
use zed.Prelude.Outcome.{ok, slice}
use zed.Zcode.Uvarint.{put_groups, max_groups, size_of_uvarint}
use zed.Zcode.Uvarint.RoundTrip.{
  size_of_uvarint-length, size_of_uvarint_small, size_of_uvarint_le, overwrite_fits,
  length-put_groups_pos,
}
use zed.Zcode.Bytes.{word, to_tag, append}
use zed.Zcode.Builder.{write_tag, make_room, end_of, end_container, transform_container}

pub slice_front {ℓ} : {A : Type ℓ} (xs ys : List A) → slice (xs ++ ys) 0 (length xs) ≡ ok xs
slice_front xs ys =
    let l : leb 0 (length xs) ≡ true = ground arith in
    let r : leb (length xs) (length (xs ++ ys)) ≡ true = ground (arith, length-append xs ys) in
    let e : length xs - 0 ≡ length xs = omega arith in rw (l, r, e, take-append_length) refl

take_all {ℓ} : {A : Type ℓ} (xs : List A) → take (length xs) xs ≡ xs
take_all [] = refl
take_all (x ∷ xs) = ap (λ r. x ∷ r) (take_all xs)

pub slice_back {ℓ} :
    {A : Type ℓ} (xs ys : List A) → slice (xs ++ ys) (length xs) (length (xs ++ ys)) ≡ ok ys
slice_back xs ys =
    let l : leb (length xs) (length (xs ++ ys)) ≡ true = ground (arith, length-append xs ys) in
    let r : leb (length (xs ++ ys)) (length (xs ++ ys)) ≡ true = ground arith in
    let e : length (xs ++ ys) - length xs ≡ length ys = omega (arith, length-append xs ys) in
    rw (l, r, e, drop-append_length, take_all) refl

write_tag_lem :
    (pre old body : List ℕ) (tag size : ℕ)
    → length old ≡ length (put_groups max_groups tag)
    → size ≡ length (put_groups max_groups tag)
    → write_tag (pre ++ (old ++ body)) (length pre) tag size
      ≡ ok (pre ++ (put_groups max_groups tag ++ body))
unfolding write_tag
write_tag_lem pre old body tag size h k =
    let e : (length (put_groups max_groups tag) == size) ≡ true = ground arith in
    rw (
      slice_back pre (old ++ body),
      overwrite_fits (put_groups max_groups tag) old body h,
      e,
      take-append_length,
    )

slice_front_at {ℓ} :
    {A : Type ℓ} (zs xs ys : List A) (n : ℕ) → zs ≡ xs ++ ys → n ≡ length xs → slice zs 0 n ≡ ok xs
slice_front_at zs xs ys n e f = rw (e, f) (slice_front xs ys)

slice_back_at {ℓ} :
    {A : Type ℓ} (zs xs ys : List A) (n : ℕ)
    → zs ≡ xs ++ ys
    → n ≡ length xs
    → slice zs n (length zs) ≡ ok ys
slice_back_at zs xs ys n e f = rw (e, f) (slice_back xs ys)

-- The byte kept for the tag, or the front of the body that the longer tag will overwrite.
make_room_lem :
    (pre body : List ℕ) (size : ℕ)
    → 1 ≤ size
    → size ≤ length body + 1
    → (old : List ℕ) × (length old ≡ size)
      × (make_room (pre ++ (0 ∷ body)) (suc (length pre)) (length pre) size
          ≡ ok (pre ++ (old ++ body)))
unfolding make_room
make_room_lem pre body zero h k = absurd (omega arith)
make_room_lem pre body (suc zero) h k = (0 ∷ [], refl, refl)
make_room_lem pre body (suc (suc m)) h k =
    let n = suc (suc m) in
    let old = take n (0 ∷ body) in
    let len : length old ≡ n = length-take_le n (0 ∷ body) (omega arith) in
    let moves : ltb 1 n ≡ true = ground arith in
    let whole : pre ++ (0 ∷ body) ≡ (pre ++ old) ++ drop n (0 ∷ body) =
      rw (append_assoc, take-append-drop) in
    let seam : pre ++ (0 ∷ body) ≡ (pre ++ (0 ∷ [])) ++ body = rw append_assoc in
    let front =
      slice_front_at _ (pre ++ old) (drop n (0 ∷ body)) (length pre + n) whole
        (omega (arith, length-append pre old)) in
    let back =
      slice_back_at _ (pre ++ (0 ∷ [])) body (suc (length pre)) seam
        (omega (arith, length-append pre (0 ∷ []))) in
    (old, len, rw (moves, front, back) (ap ok (append_assoc pre old body)))

-- The tag of a body never takes more room than its kept byte and the body.
tag_fits : (n : ℕ) → n < 2 ^ 63 → size_of_uvarint (to_tag n) ≤ n + 1
unfolding to_tag
tag_fits n h = elim (Bool-cases (ltb 1 (size_of_uvarint (to_tag n)))) [
  | inl e ↦
      omega (arith, size_of_uvarint_le (to_tag n), size_of_uvarint_small (to_tag n) (ground arith))
  | inr e ↦ ground arith
]

-- Closing a container whose body is `body` gives what `Append` writes for that body.
pub end_container_lem :
    (pre body stack : List ℕ)
    → length pre + length body < 2 ^ 63 - 1
    → end_container (record { bytes = pre ++ (0 ∷ body); containers = suc (length pre) ∷ stack })
      ≡ ok (record { bytes = append pre (some body); containers = stack })
unfolding end_container end_of append
end_container_lem pre body stack h =
    let n : word (length (pre ++ (0 ∷ body)) + 2 ^ 64 - suc (length pre)) ≡ length body =
      omega (arith, length-append pre (0 ∷ body)) in
    let tag = to_tag (length body) in
    let size = size_of_uvarint tag in
    let big : size ≤ length body + 1 = tag_fits (length body) (omega arith) in
    let (old, len, room) =
      make_room_lem pre body size
        (omega (arith, size_of_uvarint-length tag, length-put_groups_pos max_groups tag)) big in
    rw
      (
        n,
        room,
        write_tag_lem pre old body tag size (len ∙ size_of_uvarint-length tag)
            (size_of_uvarint-length tag),
      )
      (let e : pre ++ (put_groups max_groups tag ++ body) ≡ append pre (some body) =
          sym (append_assoc pre (put_groups max_groups tag) body) in
        ap (λ (r : List ℕ). ok (record { bytes = r; containers = stack })) e)

-- `TransformContainer` replaces the body of the innermost open container and nothing else.
pub transform_container_lem :
    (f : List ℕ → List ℕ) (pre body stack : List ℕ)
    → transform_container f
        (record { bytes = pre ++ (0 ∷ body); containers = suc (length pre) ∷ stack })
      ≡ ok (record { bytes = pre ++ (0 ∷ f body); containers = suc (length pre) ∷ stack })
unfolding transform_container
transform_container_lem f pre body stack =
    let kept : pre ++ (0 ∷ body) ≡ (pre ++ (0 ∷ [])) ++ body = rw append_assoc in
    let n : suc (length pre) ≡ length (pre ++ (0 ∷ [])) =
      omega (arith, length-append pre (0 ∷ [])) in
    rw
      (
        slice_back_at _ (pre ++ (0 ∷ [])) body (suc (length pre)) kept n,
        slice_front_at _ (pre ++ (0 ∷ [])) body (suc (length pre)) kept n,
      )
      (ap (λ (r : List ℕ). ok (record { bytes = r; containers = suc (length pre) ∷ stack }))
        (append_assoc pre (0 ∷ []) (f body)))

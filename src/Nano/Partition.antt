-- ===== src/Nano/Partition.antt =====
-- `SubSpan` cuts a span into parts that meet.
use native.Mathlib.Nat.{div-add-mod}
use zed.Prelude.{
  ℕ, suc, ◌+◌, ◌-◌, ◌*◌, ◌/◌, ◌<◌, ◌≤◌, ◌≡◌, refl, arith, if◌then◌else◌, ◌==◌, ◌∙◌, Bool-cases, inl,
  inr, true, false,
}
use zed.Nano.{Span, end_of_span, sub_span}
use zed.Nano.Sets.{IsSpan}

product_le : (i q n : ℕ) → i ≤ n → i * q ≤ n * q
product_le i q n h = grind arith

product_suc : (i q : ℕ) → suc i * q ≡ i * q + q
product_suc i q = grind arith

parts_fit : (i n d : ℕ) → i ≤ n → i * (d / n) ≤ d
parts_fit i n d h = omega (arith, product_le i (d / n) n h, div-add-mod d n)

module _ (s : Span) (i n : ℕ) (h : IsSpan s) where
  start_of_part : i ≤ n → (sub_span s i n).ts ≡ s.ts + i * (s.dur / n)
  unfolding sub_span
  start_of_part le = omega (arith, h, parts_fit i n s.dur le)

  -- The last part takes the rest.
  length_of_last : suc i ≡ n → (sub_span s i n).dur ≡ s.dur - i * (s.dur / n)
  unfolding sub_span
  length_of_last last =
      let e : (i == n - 1) ≡ true = ground (arith, last) in
      rw e (omega (arith, h, parts_fit i n s.dur (omega (arith, last))))

  length_of_part : suc i < n → (sub_span s i n).dur ≡ s.dur / n
  unfolding sub_span
  length_of_part more = let e : (i == n - 1) ≡ false = ground (arith, more) in rw e refl

-- The parts of a span from 1970 on, whose end is an int64: the first starts where the span does, each
-- is such a span itself and ends where the next starts, and the last ends where the span does.
pub sub_span_tiles :
    (s : Span) (i n : ℕ)
    → IsSpan s
    → i < n
    → ((sub_span s 0 n).ts ≡ s.ts)
      × IsSpan (sub_span s i n)
      × (end_of_span (sub_span s i n)
          ≡ (if suc i == n then end_of_span s else (sub_span s (suc i) n).ts))
sub_span_tiles s i n h lt =
    let q = s.dur / n in
    let le : i ≤ n = omega (arith, lt) in
    let start = start_of_part s i n h le in
    let fits = parts_fit i n s.dur le in
    let next = parts_fit (suc i) n s.dur (omega (arith, lt)) in
    let step = product_suc i q in
    (
      start_of_part s 0 n h (omega arith) ∙ omega arith,
      elim (Bool-cases (suc i == n)) [
        | inl p ↦ omega (arith, start, length_of_last s i n h (ground (arith, p)), h, fits)
        | inr p ↦
            omega (arith, start, length_of_part s i n h (ground (arith, p, lt)), h, next, step)
      ],
      elim (Bool-cases (suc i == n)) [
        | inl p ↦ rw p (omega (arith, start, length_of_last s i n h (ground (arith, p)), h, fits))
        | inr p ↦
            let following = start_of_part s (suc i) n h (omega (arith, lt)) in
            let size = length_of_part s i n h (ground (arith, p, lt)) in
            rw p (omega (arith, start, size, following, h, next, step))
      ],
    )

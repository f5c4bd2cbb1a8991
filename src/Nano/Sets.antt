-- ===== src/Nano/Sets.antt =====
-- Spans as sets of instants.
use zed.Prelude.{
  ℕ, ◌+◌, ◌^◌, ◌<◌, ◌≤◌, ◌≡◌, refl, ap, ◌∙◌, Bool, true, false, not, ◌&&◌, ◌||◌, List, [], ◌∷◌,
  arith, ltb, leb,
}
use zed.Prelude.Word64.{max64}
use zed.Nano.{Span, contains, overlaps, overlaps_or_adjacent, intersect, union, subtract, outside}

-- A span from an instant on that is not before 1970, with an end that is an int64.
abbrev pub IsSpan : Span → Type 0
IsSpan s = s.ts + s.dur < 2 ^ 63

abbrev pub any_contains : List Span → ℕ → Bool
any_contains [] t = false
any_contains (s ∷ ss) t = contains s t || any_contains ss t

contains_plain :
    (s : Span) (t : ℕ) → IsSpan s → t < 2 ^ 63 → contains s t ≡ (leb s.ts t && ltb t (s.ts + s.dur))
unfolding contains
contains_plain s t h b = ground arith

contains-intersect :
    (s b : Span) (t : ℕ)
    → IsSpan s
    → IsSpan b
    → t < 2 ^ 63
    → contains (intersect s b) t ≡ (contains s t && contains b t)
unfolding contains intersect
contains-intersect s b t hs hb ht = ground arith

-- The intersection of two spans that overlap lies within the first, and ends no earlier than it
-- starts.
intersect_within :
    (s b : Span)
    → IsSpan s
    → IsSpan b
    → overlaps s b ≡ true
    → (s.ts ≤ (intersect s b).ts)
      × IsSpan (intersect s b)
      × ((intersect s b).ts + (intersect s b).dur ≤ s.ts + s.dur)
unfolding intersect overlaps
intersect_within s b hs hb o = ground arith

contains-outside :
    (s i : Span) (t : ℕ)
    → IsSpan s
    → IsSpan i
    → s.ts ≤ i.ts
    → i.ts + i.dur ≤ s.ts + s.dur
    → t < 2 ^ 63
    → any_contains (outside s i) t ≡ (contains s t && not (contains i t))
unfolding contains outside
contains-outside s i t hs hi lo hi' ht = ground arith

and_not : (x y : Bool) → (x && not (x && y)) ≡ (x && not y)
and_not true y = refl
and_not false y = refl

contains-subtract :
    (s b : Span) (t : ℕ)
    → IsSpan s
    → IsSpan b
    → t < 2 ^ 63
    → overlaps s b ≡ true
    → any_contains (subtract s b) t ≡ (contains s t && not (contains b t))
unfolding subtract
contains-subtract s b t hs hb ht o =
    let (lo, within, hi) = intersect_within s b hs hb o in
    contains-outside s (intersect s b) t hs within lo hi ht
    ∙ (ap (λ c. contains s t && not c) (contains-intersect s b t hs hb ht)
        ∙ and_not (contains s t) (contains b t))

contains-union :
    (s b : Span) (t : ℕ)
    → IsSpan s
    → IsSpan b
    → t < 2 ^ 63
    → overlaps_or_adjacent s b ≡ true
    → contains (union s b) t ≡ (contains s t || contains b t)
unfolding contains union overlaps_or_adjacent
contains-union s b t hs hb ht o = ground arith

overlaps_common :
    (s b : Span)
    → IsSpan s
    → IsSpan b
    → 0 < s.dur
    → 0 < b.dur
    → overlaps s b ≡ (contains s (max64 s.ts b.ts) && contains b (max64 s.ts b.ts))
unfolding contains overlaps
overlaps_common s b hs hb ps pb = ground arith

touching :
    (s b : Span) → IsSpan s → IsSpan b → overlaps s b ≡ true → overlaps_or_adjacent s b ≡ true
unfolding overlaps overlaps_or_adjacent
touching s b hs hb o = ground arith

-- For two spans that overlap, from 1970 on and with ends that are int64s, an instant is in their
-- intersection when it is in both, in their union when it is in one of them, and in what `Subtract`
-- leaves of the first when it is not in the second.
pub span_sets :
    (s b : Span) (t : ℕ)
    → IsSpan s
    → IsSpan b
    → t < 2 ^ 63
    → overlaps s b ≡ true
    → (contains (intersect s b) t ≡ (contains s t && contains b t))
      × (contains (union s b) t ≡ (contains s t || contains b t))
      × (any_contains (subtract s b) t ≡ (contains s t && not (contains b t)))
span_sets s b t hs hb ht o = (
  contains-intersect s b t hs hb ht,
  contains-union s b t hs hb ht (touching s b hs hb o),
  contains-subtract s b t hs hb ht o,
)

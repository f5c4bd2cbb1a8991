-- ===== src/Nano.antt =====
-- pkg/nano/span.go, with `Ts.Add` of time.go.
pub mod Sets
pub mod Partition
mod Tests
use zed.Prelude.{
  ℕ, ◌+◌, ◌-◌, ◌*◌, ◌/◌, ◌%◌, ◌^◌, Bool, not, ◌&&◌, List, [], ◌∷◌, ◌++◌, ltb, if◌then◌else◌, ◌==◌,
}
use zed.Prelude.Word64.{add64, sub64, less64, at_most64, min64, max64}

pub record Span : Type 0 where
  pub ts : ℕ
  pub dur : ℕ

abbrev pub new_span_ts : ℕ → ℕ → Span
new_span_ts start stop = record { ts = start; dur = sub64 stop start }

-- `End`, by `Ts.Add`.
abbrev pub end_of_span : Span → ℕ
end_of_span s = add64 s.ts s.dur

unfoldable pub contains : Span → ℕ → Bool
contains s t = at_most64 s.ts t && less64 t (end_of_span s)

unfoldable pub contains_closed : Span → ℕ → Bool
contains_closed s t = at_most64 s.ts t && at_most64 t (end_of_span s)

unfoldable pub covers : Span → Span → Bool
covers s c = at_most64 s.ts c.ts && at_most64 (end_of_span c) (end_of_span s)

unfoldable pub overlaps : Span → Span → Bool
overlaps s c = if less64 s.ts c.ts then less64 c.ts (end_of_span s) else less64 s.ts (end_of_span c)

unfoldable pub overlaps_or_adjacent : Span → Span → Bool
overlaps_or_adjacent s c =
    if less64 s.ts c.ts then at_most64 c.ts (end_of_span s) else at_most64 s.ts (end_of_span c)

unfoldable pub intersect : Span → Span → Span
intersect s b =
    let start = max64 s.ts b.ts in
    let stop = min64 (end_of_span s) (end_of_span b) in
    if less64 stop start then record { ts = 0; dur = 0 } else new_span_ts start stop

unfoldable pub union : Span → Span → Span
union s b = new_span_ts (min64 s.ts b.ts) (max64 (end_of_span s) (end_of_span b))

-- The parts of a span before and after its intersection with another.
unfoldable pub outside : Span → Span → List Span
outside s i =
    (if less64 s.ts i.ts then new_span_ts s.ts i.ts ∷ [] else [])
    ++ (if less64 (end_of_span i) (end_of_span s)
        then new_span_ts (end_of_span i) (end_of_span s) ∷ []
        else [])

unfoldable pub subtract : Span → Span → List Span
unfolding intersect outside
subtract s b = outside s (intersect s b)

-- `SubSpan` of a span whose duration is not negative, in one part or more: Go's division of such
-- numbers. Elsewhere it rounds towards zero, and panics for no parts.
unfoldable pub sub_span : Span → ℕ → ℕ → Span
sub_span s i n =
    let partition_size = s.dur / n in
    let start = add64 s.ts ((i * partition_size) % 2 ^ 64) in
    record { ts = start; dur = if i == n - 1 then sub64 (end_of_span s) start else partition_size }

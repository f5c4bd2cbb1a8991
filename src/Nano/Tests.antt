-- ===== src/Nano/Tests.antt =====
-- Spans of a few nanoseconds.
use zed.Prelude.{true, not, ◌&&◌, ◌||◌, [], ◌∷◌, ◌≡◌, refl, arith, if◌then◌else◌, ◌==◌}
use zed.Nano.{Span, contains, overlaps, intersect, union, subtract, sub_span, end_of_span}
use zed.Nano.Sets.{IsSpan, any_contains, span_sets}
use zed.Nano.Partition.{sub_span_tiles}

abbrev first_span : Span
first_span = record { ts = 10; dur = 7 }

abbrev second_span : Span
second_span = record { ts = 12; dur = 3 }

subtract_run :
    subtract first_span second_span ≡ record { ts = 10; dur = 2 } ∷ record { ts = 15; dur = 2 } ∷ []
unfolding subtract
subtract_run = refl

sub_span_run : sub_span first_span 2 3 ≡ record { ts = 14; dur = 3 }
unfolding sub_span
sub_span_run = refl

they_overlap : overlaps first_span second_span ≡ true
unfolding overlaps
they_overlap = refl

span_sets_example :
    (contains (intersect first_span second_span) 13
      ≡ (contains first_span 13 && contains second_span 13))
    × (contains (union first_span second_span) 13
        ≡ (contains first_span 13 || contains second_span 13))
    × (any_contains (subtract first_span second_span) 13
        ≡ (contains first_span 13 && not (contains second_span 13)))
span_sets_example =
    span_sets first_span second_span 13 (omega arith) (omega arith) (omega arith) they_overlap

sub_span_tiles_example :
    ((sub_span first_span 0 3).ts ≡ 10)
    × IsSpan (sub_span first_span 1 3)
    × (end_of_span (sub_span first_span 1 3)
        ≡ (if 2 == 3 then end_of_span first_span else (sub_span first_span 2 3).ts))
sub_span_tiles_example = sub_span_tiles first_span 1 3 (omega arith) (omega arith)

-- ===== src/Types/Compare/Sort.antt =====
-- The stable sort of `LookupTypeUnion`: what it sorts stays as it is when it is sorted again.
use zed.Prelude.{◌≡◌, refl, ap, ◌∙◌, true, false, Bool-cases, inl, inr, suc, ◌+◌, arith}
use Prim.Native.Nat.{Ordering}
use zed.Types.{ZedType, Types, no_types, and_type, count_types}
use zed.Types.Names.{is_less}
use zed.Types.Compare.{compare_types, move_down, sort_onto, reverse_onto, sort_types}
use zed.Types.Compare.Flip.{flip, compare_types-flip}

-- No element of a reversed slice is less than the one that comes next to it.
abbrev Below : ZedType → Types → Type 0
Below t no_types = Unit {0}
Below t (and_type u us) = is_less (compare_types t u) ≡ false

abbrev Settled : Types → Type 0
Settled no_types = Unit {0}
Settled (and_type t ts) = Below t ts × Settled ts

less_flip :
    (t u : ZedType) → is_less (compare_types t u) ≡ true → is_less (compare_types u t) ≡ false
less_flip t u h = rw (compare_types-flip u t) (opposite (compare_types t u) h)
  where
    opposite : (o : Ordering) → is_less o ≡ true → is_less (flip o) ≡ false
    opposite Ordering.lt h = refl
    opposite Ordering.eq h = refl
    opposite Ordering.gt h = absurd (cc)

Below-move_down :
    (u t : ZedType) (us : Types)
    → is_less (compare_types u t) ≡ false
    → Below u us
    → Below u (move_down t us)
unfolding move_down
Below-move_down u t no_types h b = h
Below-move_down u t (and_type v us) h b = elim (Bool-cases (is_less (compare_types t v))) [
  | inl p ↦ rw p b
  | inr p ↦ rw p h
]

move_down-Settled : (t : ZedType) (us : Types) → Settled us → Settled (move_down t us)
unfolding move_down
move_down-Settled t no_types h = (tt, tt)
move_down-Settled t (and_type u us) h = elim (Bool-cases (is_less (compare_types t u))) [
  | inl p ↦ rw p (Below-move_down u t us (less_flip t u p) h.0, move_down-Settled t us h.1)
  | inr p ↦ rw p (p, h)
]

sort_onto-Settled : (front ts : Types) → Settled front → Settled (sort_onto front ts)
unfolding sort_onto
sort_onto-Settled front no_types h = h
sort_onto-Settled front (and_type t ts) h =
    sort_onto-Settled (move_down t front) ts (move_down-Settled t front h)

-- An element that is already in its place does not move.
stays : (t : ZedType) (us : Types) → Below t us → move_down t us ≡ and_type t us
unfolding move_down
stays t no_types b = refl
stays t (and_type u us) b = rw b refl

sort_onto-reverse :
    (out ts : Types) → Settled ts → sort_onto no_types (reverse_onto out ts) ≡ sort_onto ts out
unfolding sort_onto
sort_onto-reverse out no_types h = refl
sort_onto-reverse out (and_type t ts) h =
    sort_onto-reverse (and_type t out) ts h.1 ∙ ap (λ f. sort_onto f out) (stays t ts h.0)

-- Sorting a slice of types that has been sorted changes nothing.
pub sort_types_idempotent : (ts : Types) → sort_types (sort_types ts) ≡ sort_types ts
unfolding sort_types sort_onto
sort_types_idempotent ts =
    ap (reverse_onto no_types)
      (sort_onto-reverse no_types (sort_onto no_types ts) (sort_onto-Settled no_types ts tt))

count-move_down : (t : ZedType) (us : Types) → count_types (move_down t us) ≡ suc (count_types us)
unfolding move_down
count-move_down t no_types = omega arith
count-move_down t (and_type u us) = elim (Bool-cases (is_less (compare_types t u))) [
  | inl p ↦ rw p (omega (arith, count-move_down t us))
  | inr p ↦ rw p (omega arith)
]

count-sort_onto :
    (front ts : Types) → count_types (sort_onto front ts) ≡ count_types front + count_types ts
unfolding sort_onto
count-sort_onto front no_types = omega arith
count-sort_onto front (and_type t ts) =
    omega (arith, count-sort_onto (move_down t front) ts, count-move_down t front)

count-reverse :
    (out ts : Types) → count_types (reverse_onto out ts) ≡ count_types out + count_types ts
count-reverse out no_types = omega arith
count-reverse out (and_type t ts) = omega (arith, count-reverse (and_type t out) ts)

-- The sort only moves the types.
pub count_types-sort_types : (ts : Types) → count_types (sort_types ts) ≡ count_types ts
unfolding sort_types
count_types-sort_types ts =
    omega (arith, count-reverse no_types (sort_onto no_types ts), count-sort_onto no_types ts)

abbrev pub EachType : (ZedType → Type 0) → Types → Type 0
EachType P no_types = Unit {0}
EachType P (and_type t ts) = P t × EachType P ts

module _ (P : ZedType → Type 0) where
  each_move_down : (t : ZedType) (us : Types) → P t → EachType P us → EachType P (move_down t us)
  unfolding move_down
  each_move_down t no_types p h = (p, tt)
  each_move_down t (and_type u us) p h = elim (Bool-cases (is_less (compare_types t u))) [
    | inl q ↦ rw q (h.0, each_move_down t us p h.1)
    | inr q ↦ rw q (p, h)
  ]

  each_sort_onto :
      (front ts : Types) → EachType P front → EachType P ts → EachType P (sort_onto front ts)
  unfolding sort_onto
  each_sort_onto front no_types f h = f
  each_sort_onto front (and_type t ts) f h =
      each_sort_onto (move_down t front) ts (each_move_down t front h.0 f) h.1

  each_reverse :
      (out ts : Types) → EachType P out → EachType P ts → EachType P (reverse_onto out ts)
  each_reverse out no_types o h = o
  each_reverse out (and_type t ts) o h = each_reverse (and_type t out) ts (h.0, o) h.1

  pub EachType-sort_types : (ts : Types) → EachType P ts → EachType P (sort_types ts)
  unfolding sort_types
  EachType-sort_types ts h =
      each_reverse no_types (sort_onto no_types ts) tt (each_sort_onto no_types ts tt h)

-- ===== src/Types/Compare.antt =====
-- `CompareTypes` of type.go, and `sort.SliceStable` by it.
use Prim.Native.Nat.{compare, Ordering}
pub mod Flip
pub mod Sort
use zed.Prelude.{ℕ, List, [], ◌∷◌, Bool, if◌then◌else◌, ◌==◌, length}
use zed.Types.{
  Bytes, ZedType, primitive, type_record, type_array, type_set, type_map, type_union, type_enum,
  type_error, type_named, Fields, no_fields, field, Types, no_types, and_type, primitive_id, id_of,
  kind, type_under, count_fields, count_types,
}
use zed.Types.Names.{then_compare, compare_strings, is_less, field_names}

-- The loop over the names of the fields; it stops with the first list, as the lengths are equal.
unfoldable pub compare_names : List Bytes → List Bytes → Ordering
unfolding compare_strings
compare_names (x ∷ xs) (y ∷ ys) = then_compare (compare_strings x y) (compare_names xs ys)
compare_names _ _ = Ordering.eq

-- Two types with one id: they differ in their names at most.
unfoldable pub compare_named : ZedType → ZedType → Ordering
unfolding compare_strings
compare_named (type_named i m s) (type_named j n t) = compare_strings m n
compare_named (type_named i m s) b = Ordering.gt
compare_named a (type_named j n t) = Ordering.lt
compare_named a b = Ordering.eq

-- `CompareTypes` up to its `switch`, which gives `below`.
unfoldable pub compare_above : ZedType → ZedType → Ordering → Ordering
unfolding compare_named id_of kind
compare_above a b below =
    if id_of a == id_of b then compare_named a b else then_compare (compare (kind a) (kind b)) below

-- The `switch`, on the types under the two; its cases are reached with equal kinds.
unfoldable mutual
  unfolding compare_above compare_names compare_strings type_under

  pub compare_below : ZedType → ZedType → Ordering
  compare_below (type_named i n a) b = compare_below a b
  compare_below a (type_named j n b) = compare_below a b
  compare_below (primitive p) (primitive q) = compare (primitive_id p) (primitive_id q)
  compare_below (type_record i fs) (type_record j gs) =
      then_compare (compare (count_fields fs) (count_fields gs))
        (then_compare (compare_names (field_names fs) (field_names gs)) (compare_fields fs gs))
  compare_below (type_array i a) (type_array j b) = compare_above a b (compare_below a b)
  compare_below (type_set i a) (type_set j b) = compare_above a b (compare_below a b)
  compare_below (type_map i k v) (type_map j l w) =
      then_compare (compare_above k l (compare_below k l)) (compare_above v w (compare_below v w))
  compare_below (type_union i as') (type_union j bs) =
      then_compare (compare (count_types as') (count_types bs)) (compare_members as' bs)
  compare_below (type_enum i ss) (type_enum j us) =
      then_compare (compare (length ss) (length us)) (compare_names ss us)
  compare_below (type_error i a) (type_error j b) = compare_above a b (compare_below a b)
  compare_below _ _ = Ordering.eq

  pub compare_fields : Fields → Fields → Ordering
  compare_fields (field m a fs) (field n b gs) =
      then_compare (compare_above a b (compare_below a b)) (compare_fields fs gs)
  compare_fields _ _ = Ordering.eq

  pub compare_members : Types → Types → Ordering
  compare_members (and_type a as') (and_type b bs) =
      then_compare (compare_above a b (compare_below a b)) (compare_members as' bs)
  compare_members _ _ = Ordering.eq

unfoldable pub compare_types : ZedType → ZedType → Ordering
unfolding compare_above compare_below
compare_types a b = compare_above a b (compare_below a b)

-- `sort.SliceStable`, by insertion: the sorted front of the slice is kept with its last element
-- first, and the next element moves down while it is less than the one before it.
unfoldable pub move_down : ZedType → Types → Types
unfolding compare_types
move_down t no_types = and_type t no_types
move_down t (and_type u us) =
    let rest = move_down t us in
    if is_less (compare_types t u) then and_type u rest else and_type t (and_type u us)

unfoldable pub sort_onto : Types → Types → Types
unfolding move_down
sort_onto front no_types = front
sort_onto front (and_type t ts) = sort_onto (move_down t front) ts

abbrev pub reverse_onto : Types → Types → Types
reverse_onto out no_types = out
reverse_onto out (and_type t ts) = reverse_onto (and_type t out) ts

unfoldable pub sort_types : Types → Types
unfolding sort_onto
sort_types ts = reverse_onto no_types (sort_onto no_types ts)

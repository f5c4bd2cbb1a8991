-- ===== src/Lake/SeekIndex.antt =====
-- lake/seekindex/: which bytes of a data object hold the values at which positions.  The bounds of an entry are not looked at.
pub mod Cover
mod Tests
use zed.Prelude.{
  ℕ, zero, suc, ◌+◌, ◌-◌, ◌%◌, ◌^◌, Bool, true, false, ◌&&◌, List, [], ◌∷◌, ltb, length,
  if◌then◌else◌, get_elem?, Option, none, some,
}
use zed.Prelude.Word64.{add64, sub64, less64}

pub record Range : Type 0 where
  pub offset : ℕ
  pub len : ℕ

pub record Entry (V : Type 0) : Type 0 where
  pub min : V
  pub max : V
  pub val_off : ℕ
  pub val_cnt : ℕ
  pub offset : ℕ
  pub len : ℕ

abbrev pub range_of : {V : Type 0} → Entry V → Range
range_of e = record { offset = e.offset; len = e.len }

-- `Ranges.Append`: the last range grows, or a new one begins.
unfoldable pub append_range : {V : Type 0} → List Range → Entry V → List Range
append_range [] e = range_of e ∷ []
append_range (r ∷ []) e =
    if less64 (add64 r.offset r.len) e.offset
    then r ∷ range_of e ∷ []
    else record r { len = add64 r.len e.len } ∷ []
append_range (r ∷ q ∷ rs) e = r ∷ append_range (q ∷ rs) e

abbrev pub bit_at : List Bool → ℕ → Bool
bit_at [] i = false
bit_at (b ∷ bs) zero = b
bit_at (b ∷ bs) (suc i) = bit_at bs i

-- The inner loop of `Filter` from `off`, on the rounds that are left; `b` is the vector's bits.
unfoldable pub any_set : List Bool → ℕ → ℕ → ℕ → Bool
any_set b zero off end_off = false
any_set b (suc k) off end_off =
    let rest = any_set b k (off + 1) end_off in
    if ltb off (length b) && ltb off end_off then (if bit_at b off then true else rest) else false

module _ {V : Type 0} where
  abbrev pub wanted : List Bool → Entry V → Bool
  unfolding any_set
  wanted b e = any_set b (length b) e.val_off (add64 e.val_off e.val_cnt)

  unfoldable pub filter_from : List Range → List Bool → List (Entry V) → List Range
  unfolding any_set append_range
  filter_from ranges b [] = ranges
  filter_from ranges b (e ∷ es) =
      filter_from (if wanted b e then append_range ranges e else ranges) b es

  -- `Index.Filter`.
  unfoldable pub filter : List (Entry V) → List Bool → List Range
  unfolding filter_from
  filter index b = filter_from [] b index

pub record Writer : Type 0 where
  pub offset : ℕ
  pub valoff : ℕ

-- `Writer.Write`: the entry that it marshals and writes, and the writer after it. Both positions are
-- moved before an error is looked at.
unfoldable pub write : {V : Type 0} → V → V → ℕ → ℕ → Writer → Entry V × Writer
write lo hi valoff offset w = (
  record {
    min = lo;
    max = hi;
    val_off = w.valoff;
    val_cnt = sub64 valoff w.valoff;
    offset = w.offset;
    len = sub64 offset w.offset;
  },
  record { offset = offset; valoff = valoff },
)

-- `NewWriter`.
abbrev pub new_writer : Writer
new_writer = record { offset = 0; valoff = 0 }

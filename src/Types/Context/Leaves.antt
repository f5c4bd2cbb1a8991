-- ===== src/Types/Context/Leaves.antt =====
-- How many bytes the decoders leave.
use zed.Prelude.{
  ℕ, zero, suc, ◌≤◌, ◌≡◌, ap, ◌∙◌, none, some, Option, inl, inr, Bool-cases, ◌⊎◌, arith, length,
  ltb, length-drop,
}
use zed.Prelude.Int.{ℤ, pos, negsuc}
use zed.Prelude.Outcome.{ok, panic, Outcome}
use zed.Zcode.Uvarint.{uvarint, value, short, overflow, Read}
use zed.Types.{Bytes, ZedType}
use zed.Types.Context.{Context, LookupError}
use zed.Types.Context.Decode.{
  Decoded, then_decode, member_or_panic, reading, leaving, leaving_or_nil, decode_symbols,
  decode_name, name_of, decode_length, length_of, count_of, symbol_count, max_enum_symbols,
}

-- At most `m` bytes are left.
abbrev pub Leaves : {A : Type 0} → ℕ → Decoded A → Type 0
Leaves m (ok (some (a, tv), d)) = length tv ≤ m
Leaves m (ok (none, d)) = Unit {0}
Leaves m panic = Unit {0}

pub Leaves-more : {A : Type 0} (m n : ℕ) (o : Decoded A) → m ≤ n → Leaves m o → Leaves n o
Leaves-more m n (ok (some (a, tv), d)) le h = omega (arith, h)
Leaves-more m n (ok (none, d)) le h = tt
Leaves-more m n panic le h = tt

module _ {A B : Type 0} (m : ℕ) where
  pub Leaves-then :
      (o : Decoded A) (f : A → Bytes → Context → Decoded B)
      → Leaves m o
      → ((a : A) (tv : Bytes) (d : Context) → length tv ≤ m → Leaves m (f a tv d))
      → Leaves m (then_decode o f)
  Leaves-then (ok (some (a, tv), d)) f h k = k a tv d h
  Leaves-then (ok (none, d)) f h k = tt
  Leaves-then panic f h k = tt

  pub Leaves-member :
      (o : Decoded A) (f : A → Bytes → Context → Decoded B)
      → Leaves m o
      → ((a : A) (tv : Bytes) (d : Context) → length tv ≤ m → Leaves m (f a tv d))
      → Leaves m (member_or_panic o f)
  Leaves-member (ok (some (a, tv), d)) f h k = k a tv d h
  Leaves-member (ok (none, d)) f h k = tt
  Leaves-member panic f h k = tt

  pub same-then :
      (o p : Decoded A) (f g : A → Bytes → Context → Decoded B)
      → o ≡ p
      → Leaves m o
      → ((a : A) (tv : Bytes) (d : Context) → length tv ≤ m → f a tv d ≡ g a tv d)
      → then_decode o f ≡ then_decode p g
  same-then (ok (some (a, tv), d)) p f g e h k = k a tv d h ∙ ap (λ q. then_decode q g) e
  same-then (ok (none, d)) p f g e h k = ap (λ q. then_decode q g) e
  same-then panic p f g e h k = ap (λ q. then_decode q g) e

  pub same-member :
      (o p : Decoded A) (f g : A → Bytes → Context → Decoded B)
      → o ≡ p
      → Leaves m o
      → ((a : A) (tv : Bytes) (d : Context) → length tv ≤ m → f a tv d ≡ g a tv d)
      → member_or_panic o f ≡ member_or_panic p g
  same-member (ok (some (a, tv), d)) p f g e h k = k a tv d h ∙ ap (λ q. member_or_panic q g) e
  same-member (ok (none, d)) p f g e h k = ap (λ q. member_or_panic q g) e
  same-member panic p f g e h k = ap (λ q. member_or_panic q g) e

pub Leaves-leaving :
    (tv : Bytes) (m : ℕ) (o : Outcome (ZedType × Context)) → length tv ≤ m → Leaves m (leaving tv o)
Leaves-leaving tv m (ok (t, c)) h = h
Leaves-leaving tv m panic h = tt

pub Leaves-or_nil :
    (tv : Bytes) (m : ℕ) (o : Outcome ((LookupError ⊎ ZedType) × Context))
    → length tv ≤ m
    → Leaves m (leaving_or_nil tv o)
Leaves-or_nil tv m (ok (inr t, c)) h = h
Leaves-or_nil tv m (ok (inl e, c)) h = tt
Leaves-or_nil tv m panic h = tt

abbrev LeavesInt : ℕ → Option (ℤ × Bytes) → Type 0
LeavesInt m none = Unit {0}
LeavesInt m (some (n, tv)) = length tv ≤ m

pub length_leaves : (tv : Bytes) (r : Read) → LeavesInt (length tv) (length_of tv r)
unfolding length_of
length_leaves tv (value v n) = omega (arith, length-drop n tv)
length_leaves tv short = tt
length_leaves tv overflow = tt

name_of-Leaves :
    (m : ℕ) (c : Context) (o : Option (ℤ × Bytes))
    → LeavesInt m o
    → Leaves m (reading c (name_of o))
unfolding name_of
name_of-Leaves m c none h = tt
name_of-Leaves m c (some (negsuc n, tv)) h = tt
name_of-Leaves m c (some (pos n, tv)) h = elim (Bool-cases (ltb (length tv) n)) [
  | inl p ↦ rw p tt
  | inr p ↦ rw p (omega (arith, h, length-drop n tv))
]

pub count_of-Leaves :
    (m max : ℕ) (c : Context) (o : Option (ℤ × Bytes))
    → LeavesInt m o
    → Leaves m (reading c (count_of max o))
unfolding count_of
count_of-Leaves m max c none h = tt
count_of-Leaves m max c (some (negsuc n, tv)) h = tt
count_of-Leaves m max c (some (pos n, tv)) h = elim (Bool-cases (ltb max n)) [
  | inl p ↦ rw p tt
  | inr p ↦ rw p h
]

pub symbol_count-Leaves :
    (m : ℕ) (c : Context) (o : Option (ℤ × Bytes))
    → LeavesInt m o
    → Leaves m (ok (symbol_count o, c))
unfolding symbol_count
symbol_count-Leaves m c none h = tt
symbol_count-Leaves m c (some (negsuc n, tv)) h = h
symbol_count-Leaves m c (some (pos n, tv)) h = elim (Bool-cases (ltb max_enum_symbols n)) [
  | inl p ↦ rw p tt
  | inr p ↦ rw p h
]

pub name-Leaves :
    (m : ℕ) (c : Context) (tv : Bytes) → length tv ≤ m → Leaves m (reading c (decode_name tv))
unfolding decode_name decode_length
name-Leaves m c tv h =
    Leaves-more (length tv) m _ h
      (name_of-Leaves (length tv) c (decode_length tv) (length_leaves tv (uvarint tv)))

pub symbols_leave :
    (n m : ℕ) (c : Context) (tv : Bytes) → length tv ≤ m → Leaves m (decode_symbols n tv c)
unfolding decode_symbols
symbols_leave zero m c tv h = h
symbols_leave (suc n) m c tv h = Leaves-then m _ _ (name-Leaves m c tv h) (λ s tv1 d h1.
    Leaves-then m (decode_symbols n tv1 d) _ (symbols_leave n m d tv1 h1) (λ ss tv2 e h2. h2))

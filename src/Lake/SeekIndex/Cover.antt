-- ===== src/Lake/SeekIndex/Cover.antt =====
-- Which bytes a filtered seek index asks for.
use zed.Prelude.{
  ℕ, zero, suc, ◌+◌, ◌^◌, ◌<◌, ◌≤◌, Bool, true, false, ◌&&◌, ◌||◌, List, [], ◌∷◌, ◌≡◌, refl, sym,
  ap, ◌∙◌, ltb, leb, length, if◌then◌else◌, arith, Bool-cases, inl, inr,
}
use zed.Prelude.Word64.{add64, sub64}
use zed.Lake.SeekIndex.{
  Range, Entry, Writer, range_of, append_range, bit_at, any_set, wanted, filter_from, filter, write,
  new_writer,
}

abbrev pub contains : Range → ℕ → Bool
contains r p = leb r.offset p && ltb p (r.offset + r.len)

abbrev pub covered : ℕ → List Range → Bool
covered p [] = false
covered p (r ∷ rs) = contains r p || covered p rs

-- The ranges end at or before `stop`.
abbrev EndBy : ℕ → List Range → Type 0
EndBy stop [] = Unit {0}
EndBy stop (r ∷ rs) = (r.offset + r.len ≤ stop) × EndBy stop rs

EndBy-later : (m n : ℕ) (rs : List Range) → m ≤ n → EndBy m rs → EndBy n rs
EndBy-later m n [] le h = tt
EndBy-later m n (r ∷ rs) le h = (omega (arith, le, h.0), EndBy-later m n rs le h.1)

module _ {V : Type 0} where
  append_range-EndBy :
      (rs : List Range) (e : Entry V)
      → EndBy e.offset rs
      → e.offset + e.len < 2 ^ 63
      → EndBy (e.offset + e.len) (append_range rs e)
  unfolding append_range
  append_range-EndBy [] e h b = (omega arith, tt)
  append_range-EndBy (r ∷ []) e h b = ground (arith, h.0, b)
  append_range-EndBy (r ∷ q ∷ rs) e h b = (omega (arith, h.0), append_range-EndBy (q ∷ rs) e h.1 b)

  -- An entry at or behind the end of the ranges adds its own bytes.
  covered-append_range :
      (p : ℕ) (rs : List Range) (e : Entry V)
      → EndBy e.offset rs
      → e.offset + e.len < 2 ^ 63
      → covered p (append_range rs e) ≡ (covered p rs || contains (range_of e) p)
  unfolding append_range
  covered-append_range p [] e h b = ground arith
  covered-append_range p (r ∷ []) e h b = ground (arith, h.0, b)
  covered-append_range p (r ∷ q ∷ rs) e h b =
      ap (λ c. contains r p || c) (covered-append_range p (q ∷ rs) e h.1 b) ∙ ground arith

-- Is there a bit from the position `from` on and before `to`?
unfoldable pub any_in : List Bool → ℕ → ℕ → Bool
any_in [] from to = false
any_in (b ∷ bs) zero zero = false
any_in (b ∷ bs) zero (suc to) = b || any_in bs zero to
any_in (b ∷ bs) (suc from) zero = false
any_in (b ∷ bs) (suc from) (suc to) = any_in bs from to

any_in_step :
    (b : List Bool) (from to : ℕ)
    → from < length b
    → from < to
    → any_in b from to ≡ (bit_at b from || any_in b (suc from) to)
unfolding any_in
any_in_step [] from to h k = absurd (omega (arith, h))
any_in_step (b ∷ bs) from zero h k = absurd (omega (arith, k))
any_in_step (b ∷ bs) zero (suc to) h k = refl
any_in_step (b ∷ bs) (suc from) (suc to) h k =
    any_in_step bs from to (omega (arith, h)) (omega (arith, k))

any_in_beyond : (b : List Bool) (from to : ℕ) → length b ≤ from → any_in b from to ≡ false
unfolding any_in
any_in_beyond [] from to h = refl
any_in_beyond (b ∷ bs) zero to h = absurd (omega (arith, h))
any_in_beyond (b ∷ bs) (suc from) zero h = refl
any_in_beyond (b ∷ bs) (suc from) (suc to) h = any_in_beyond bs from to (omega (arith, h))

any_in_empty : (b : List Bool) (from to : ℕ) → to ≤ from → any_in b from to ≡ false
unfolding any_in
any_in_empty [] from to h = refl
any_in_empty (b ∷ bs) zero zero h = refl
any_in_empty (b ∷ bs) zero (suc to) h = absurd (omega (arith, h))
any_in_empty (b ∷ bs) (suc from) zero h = refl
any_in_empty (b ∷ bs) (suc from) (suc to) h = any_in_empty bs from to (omega (arith, h))

-- The loop of `Filter` looks for such a bit.
any_set-any_in :
    (b : List Bool) (k off to : ℕ) → length b ≤ off + k → any_set b k off to ≡ any_in b off to
unfolding any_set
any_set-any_in b zero off to h = sym (any_in_beyond b off to (omega (arith, h)))
any_set-any_in b (suc k) off to h =
    let e : off + 1 ≡ suc off = omega arith in
    let rest = any_set-any_in b k (off + 1) to (omega (arith, h)) ∙ ap (λ n. any_in b n to) e in
    elim (Bool-cases (ltb off (length b))) [
      | inr p ↦ rw p (sym (any_in_beyond b off to (ground (arith, p))))
      | inl p ↦ elim (Bool-cases (ltb off to)) [
        | inr q ↦ rw (p, q) (sym (any_in_empty b off to (ground (arith, q))))
        | inl q ↦
            rw (p, q)
              (rw rest (
                or_if (bit_at b off) (any_in b (suc off) to)
                ∙ sym (any_in_step b off to (ground (arith, p)) (ground (arith, q)))))
      ]
    ]
  where
    or_if : (x y : Bool) → (if x then true else y) ≡ (x || y)
    or_if true y = refl
    or_if false y = refl

or_assoc : (x y z : Bool) → ((x || y) || z) ≡ (x || (y || z))
or_assoc true y z = refl
or_assoc false y z = refl

-- The calls of `Write` on a writer: bounds, the position of the value and that of the byte.
pub record Call (V : Type 0) : Type 0 where
  pub lo : V
  pub hi : V
  pub to_val : ℕ
  pub to_byte : ℕ

module _ {V : Type 0} where
  abbrev after : Call V → Writer
  after x = record { offset = x.to_byte; valoff = x.to_val }

  unfoldable pub write_all : Writer → List (Call V) → List (Entry V)
  unfolding write
  write_all w [] = []
  write_all w (x ∷ xs) = let (e, w') = write x.lo x.hi x.to_val x.to_byte w in e ∷ write_all w' xs

  -- Positions that never go back and stay within an int64.
  abbrev pub Forward : Writer → List (Call V) → Type 0
  Forward w [] = Unit {0}
  Forward w (x ∷ xs) =
      (w.valoff ≤ x.to_val)
      × (x.to_val < 2 ^ 63)
      × (w.offset ≤ x.to_byte)
      × (x.to_byte < 2 ^ 63)
      × Forward (after x) xs

  -- The byte `p` was written between two calls that have a set bit between their values.
  abbrev pub asked : ℕ → List Bool → Writer → List (Call V) → Bool
  asked p b w [] = false
  asked p b w (x ∷ xs) =
      any_in b w.valoff x.to_val && (leb w.offset p && ltb p x.to_byte) || asked p b (after x) xs

  filter_from-asked :
      (p : ℕ) (b : List Bool) (xs : List (Call V)) (w : Writer) (rs : List Range)
      → Forward w xs
      → EndBy w.offset rs
      → covered p (filter_from rs b (write_all w xs)) ≡ (covered p rs || asked p b w xs)
  unfolding filter_from write_all write
  filter_from-asked p b [] w rs f h = ground arith
  filter_from-asked p b (x ∷ xs) w rs f h =
      let e : Entry V = (write x.lo x.hi x.to_val x.to_byte w).0 in
      let vals : add64 w.valoff (sub64 x.to_val w.valoff) ≡ x.to_val = omega (arith, f.0, f.1) in
      let bytes : w.offset + sub64 x.to_byte w.offset ≡ x.to_byte = omega (arith, f.2, f.3) in
      let looked : wanted b e ≡ any_in b w.valoff x.to_val =
        any_set-any_in b (length b) w.valoff (add64 w.valoff (sub64 x.to_val w.valoff))
          (omega arith)
        ∙ ap (λ n. any_in b w.valoff n) vals in
      let fits : w.offset + sub64 x.to_byte w.offset < 2 ^ 63 = omega (arith, bytes, f.3) in
      let grown = append_range rs e in
      let after_step : Bool → Bool =
        λ c. covered p (filter_from (if c then grown else rs) b (write_all (after x) xs)) in
      elim (Bool-cases (any_in b w.valoff x.to_val)) [
        | inl q ↦
            let end_by =
              EndBy-later (w.offset + sub64 x.to_byte w.offset) x.to_byte grown
                (omega (arith, bytes)) (append_range-EndBy rs e h fits) in
            let rest = filter_from-asked p b xs (after x) grown f.4 end_by in
            let adds = covered-append_range p rs e h fits in
            ap after_step (looked ∙ q)
            ∙ rw q (
                rest
                ∙ (ap (λ c. c || asked p b (after x) xs)
                      (adds ∙ ap (λ n. covered p rs || (leb w.offset p && ltb p n)) bytes)
                    ∙ or_assoc (covered p rs) _ _))
        | inr q ↦
            let rest =
              filter_from-asked p b xs (after x) rs f.4 (EndBy-later w.offset x.to_byte rs f.2 h) in
            ap after_step (looked ∙ q) ∙ rw q rest
      ]

  -- A byte is in one of the ranges that `Filter` makes of an index exactly when it was written between
  -- two calls of `Write` that have a set bit among the values between them, where the positions of
  -- the calls do not go back and are below 2^63.
  pub filter-write_all :
      (p : ℕ) (b : List Bool) (xs : List (Call V))
      → Forward new_writer xs
      → covered p (filter (write_all new_writer xs) b) ≡ asked p b new_writer xs
  unfolding filter
  filter-write_all p b xs f = filter_from-asked p b xs new_writer [] f tt

-- ===== src/Lake/Journal/Store/Replay.antt =====
-- Applying the files of a journal: prefixes, tables with the same contents, and a file applied twice.
use zed.Prelude.{
  ◌≡◌, refl, List, [], ◌∷◌, ◌++◌, Bool, true, false, arith, Bool-cases, inl, inr, if◌then◌else◌,
}
use zed.Prelude.Eq.{Eq}
use zed.Prelude.Dict.{Dict, get, put, remove, has, get-put, get-remove}
use zed.Lake.Journal.Queue.{Result, ok, err, bad_update, ◌>>=◌}
use zed.Lake.Journal.Store.{StoreEntry, add, update, delete, apply_entry, apply_file, apply_files}

-- The same contents.
abbrev pub SameTable : {K V : Type 0} ⦃e : Eq K⦄ → Dict K V → Dict K V → Type 0
SameTable {K} s t = (k : K) → get k s ≡ get k t

-- What `commit` is called with: one entry, or the two of `Move`.
abbrev pub IsTransaction : {K V : Type 0} → List (StoreEntry K V) → Type 0
IsTransaction [] = ⊥
IsTransaction (x ∷ []) = Unit {0}
IsTransaction (delete k ∷ add v ∷ []) = Unit {0}
IsTransaction _ = ⊥

module _ {K V : Type 0} ⦃e : Eq K⦄ (key : V → K) where
  pub apply_files-append :
      (as' bs : List (List (StoreEntry K V))) (t : Dict K V)
      → apply_files key (as' ++ bs) t ≡ (apply_files key as' t >>= λ t'. apply_files key bs t')
  unfolding apply_files
  apply_files-append [] bs t = refl
  apply_files-append (a ∷ as') bs t = go (apply_file key a t) (λ t'. apply_files-append as' bs t')
    where
      go :
          (r : Result (Dict K V))
          → ((t' : Dict K V)
              → apply_files key (as' ++ bs) t'
                ≡ (apply_files key as' t' >>= λ t''. apply_files key bs t''))
          → (r >>= λ t'. apply_files key (as' ++ bs) t')
            ≡ ((r >>= λ t'. apply_files key as' t') >>= λ t'. apply_files key bs t')
      go (ok t') h = h t'
      go (err x) h = refl

  has-same : (k : K) (s t : Dict K V) → SameTable s t → has k s ≡ has k t
  has-same k s t h = rw (h k)

  put-same : (k : K) (v : V) (s t : Dict K V) → SameTable s t → SameTable (put k v s) (put k v t)
  put-same k v s t h j = rw (get-put k j v s, get-put k j v t, h j)

  remove-same : (k : K) (s t : Dict K V) → SameTable s t → SameTable (remove k s) (remove k t)
  remove-same k s t h j = rw (get-remove k j s, get-remove k j t, h j)

  -- On tables with the same contents a file has the same outcome.
  abbrev pub SameResult : Result (Dict K V) → Result (Dict K V) → Type 0
  SameResult (ok s) (ok t) = SameTable s t
  SameResult (err x) (err y) = x ≡ y
  SameResult _ _ = ⊥

  entry-same :
      (x : StoreEntry K V) (s t : Dict K V)
      → SameTable s t
      → SameResult (apply_entry key x s) (apply_entry key x t)
  unfolding apply_entry
  entry-same (add v) s t h = put-same (key v) v s t h
  entry-same (update v) s t h = elim (Bool-cases (has (key v) t)) [
    | inl p ↦ rw (has-same (key v) s t h, p) (put-same (key v) v s t h)
    | inr p ↦ rw (has-same (key v) s t h, p) refl
  ]
  entry-same (delete k) s t h = remove-same k s t h

  bind-same :
      (r q : Result (Dict K V)) (f : Dict K V → Result (Dict K V))
      → SameResult r q
      → ((s t : Dict K V) → SameTable s t → SameResult (f s) (f t))
      → SameResult (r >>= f) (q >>= f)
  bind-same (ok s) (ok t) f h k = k s t h
  bind-same (ok s) (err y) f h k = absurd h
  bind-same (err x) (ok t) f h k = absurd h
  bind-same (err x) (err y) f h k = h

  pub file-same :
      (b : List (StoreEntry K V)) (s t : Dict K V)
      → SameTable s t
      → SameResult (apply_file key b s) (apply_file key b t)
  unfolding apply_file
  file-same [] s t h = h
  file-same (x ∷ b) s t h =
      bind-same (apply_entry key x s) (apply_entry key x t) (apply_file key b) (entry-same x s t h)
        (file-same b)

  pub files-same :
      (bs : List (List (StoreEntry K V))) (s t : Dict K V)
      → SameTable s t
      → SameResult (apply_files key bs s) (apply_files key bs t)
  unfolding apply_files
  files-same [] s t h = h
  files-same (b ∷ bs) s t h =
      bind-same (apply_file key b s) (apply_file key b t) (apply_files key bs) (file-same b s t h)
        (files-same bs)

  guarded :
      (b : Bool) (x : Dict K V) {t : Dict K V}
      → ((if b then ok x else err bad_update) >>= λ t'. ok t') ≡ ok t
      → x ≡ t
  guarded true x h = cc
  guarded false x h = cc

  -- The file of a transaction that has just been applied changes nothing when it is applied again.
  pub apply_file_twice :
      (b : List (StoreEntry K V))
      → IsTransaction b
      → (s t : Dict K V) → apply_file key b s ≡ ok t
      → (u : Dict K V) × (apply_file key b t ≡ ok u) × SameTable u t
  unfolding apply_file apply_entry
  apply_file_twice (add v ∷ []) i s t h =
      (put (key v) v t, refl, λ k. ground (arith, get-put (key v) k v t, get-put (key v) k v s))
  apply_file_twice (update v ∷ []) i s t h =
      let q : put (key v) v s ≡ t = guarded (has (key v) s) (put (key v) v s) h in
      let there : has (key v) t ≡ true =
        ground (arith, get-put (key v) (key v) v s, e.beq_iff (key v) (key v)) in
      (put (key v) v t, rw there, λ k. ground (arith, get-put (key v) k v t, get-put (key v) k v s))
  apply_file_twice (delete k ∷ []) i s t h =
      (remove k t, refl, λ j. ground (arith, get-remove k j t, get-remove k j s))
  apply_file_twice (delete k ∷ add v ∷ []) i s t h = (
    put (key v) v (remove k t),
    refl,
    λ j. ground (
      arith,
      get-put (key v) j v (remove k t),
      get-remove k j t,
      get-put (key v) j v (remove k s),
      get-remove k j s,
    ),
  )
  apply_file_twice _ i s t h = absurd i

  bind_ok : (r : Result (Dict K V)) → (r >>= λ t. ok t) ≡ r
  bind_ok (ok t) = refl
  bind_ok (err x) = refl

  pub apply_files-one :
      (b : List (StoreEntry K V)) (t : Dict K V) → apply_files key (b ∷ []) t ≡ apply_file key b t
  unfolding apply_files
  apply_files-one b t = bind_ok (apply_file key b t)

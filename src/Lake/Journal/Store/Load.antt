-- ===== src/Lake/Journal/Store/Load.antt =====
-- `load` gives the table that the journal's files add up to, with a snapshot or without.
use zed.Prelude.{
  ℕ, zero, suc, ◌+◌, ◌-◌, ◌<◌, ◌≤◌, ◌≡◌, refl, sym, ap, ◌∙◌, List, [], ◌∷◌, ◌++◌, false, Option,
  none, some, arith, Bool-cases, inl, inr, if◌then◌else◌, length, take, drop, get_elem?,
  get_elem?-lt, take-add, take-length, ◌==◌, subst,
}
use zed.Prelude.Eq.{Eq, nat_eq}
use zed.Prelude.Dict.{Dict, get}
use zed.Lake.Journal.Queue.{ok, >>=-eq_ok, open_files, read_head}
use zed.Lake.Journal.Store.{
  StoreEntry, Store, Journal, TableSnapshot, apply_file, apply_files, get_snapshot, put_snapshot,
  far_behind, reload, load,
}
use zed.Lake.Journal.Store.Replay.{
  SameTable, apply_files-append, apply_files-one, file-same, files-same, apply_file_twice,
}
use zed.Lake.Journal.Store.Log.{
  read_files_lem, TableAt, IsReplayable, IsSnap, IsJournal, IsCurrent, same_ok,
}

module _ {K V : Type 0} ⦃e : Eq K⦄ (key : V → K) where
  module _ (log : List (List (StoreEntry K V))) (good : IsReplayable key log) where
    prefix_ok :
        (m n : ℕ)
        → m ≤ n
        → n ≤ length log
        → (T : Dict K V) → apply_files key (take n log) [] ≡ ok T
        → (S : Dict K V) × (apply_files key (take m log) [] ≡ ok S)
          × (apply_files key (take (n - m) (drop m log)) S ≡ ok T)
    prefix_ok m n h l T p =
        let s : n ≡ m + (n - m) = omega arith in
        let p' : apply_files key (take (m + (n - m)) log) [] ≡ ok T =
          subst (λ k. apply_files key (take k log) [] ≡ ok T) s p in
        >>=-eq_ok (apply_files key (take m log) [])
          (λ t. apply_files key (take (n - m) (drop m log)) t)
          (rw
            (
              take-add m (n - m) log,
              apply_files-append key (take m log) (take (n - m) (drop m log)) [],
            )
            at p')

    total_ok : (n : ℕ) → n ≤ length log → (S : Dict K V) × (apply_files key (take n log) [] ≡ ok S)
    total_ok n l =
        let whole : apply_files key (take (length log) log) [] ≡ ok good.total =
          rw take-length good.adds_up in
        let (S, p, _) = prefix_ok n (length log) l (omega arith) good.total whole in (S, p)

    -- The files from `m` on take a table at `m` to one at `n`.
    advance :
        (m n : ℕ) (t : Dict K V)
        → m ≤ n
        → n ≤ length log
        → TableAt key log m t
        → (u : Dict K V) × (apply_files key (take (n - m) (drop m log)) t ≡ ok u)
          × TableAt key log n u
    advance m n t h l a =
        let (T, p) = total_ok n l in
        let (S, q, r) = prefix_ok m n h l T p in
        let eq : a.total ≡ S = (let z : ok a.total ≡ ok S = sym a.adds_up ∙ q in cc) in
        let t_S : SameTable t S = λ k. a.same k ∙ ap (get k) eq in
        let (u, w, v) =
          same_ok key (apply_files key (take (n - m) (drop m log)) t) T
            (rw r at (files-same key (take (n - m) (drop m log)) t S t_S)) in
        (u, w, record { total = T; adds_up = p; same = v })

    -- The file before `m` can be applied once more.
    again :
        (c : ℕ) (t : Dict K V) (b : List (StoreEntry K V))
        → c < length log
        → get_elem? log c ≡ some b
        → take (suc c) log ≡ take c log ++ (b ∷ [])
        → TableAt key log (suc c) t
        → (u : Dict K V) × (apply_file key b t ≡ ok u) × TableAt key log (suc c) u
    again c t b l e cut a =
        let both : apply_files key (take c log ++ (b ∷ [])) [] ≡ ok a.total =
          subst (λ z. apply_files key z [] ≡ ok a.total) cut a.adds_up in
        let (S, p, one) =
          >>=-eq_ok (apply_files key (take c log) []) (λ s. apply_files key (b ∷ []) s)
            (rw (apply_files-append key (take c log) (b ∷ []) []) at both) in
        let last : apply_file key b S ≡ ok a.total = sym (apply_files-one key b S) ∙ one in
        let (U, w, v) = apply_file_twice key b (good.transactions c b e) S a.total last in
        let (u, w', v') =
          same_ok key (apply_file key b t) U (rw w at (file-same key b t a.total a.same)) in
        (u, w', record { total = a.total; adds_up = a.adds_up; same = λ k. v' k ∙ v k })

    -- From a snapshot's position, or from none, the files that `load` reads.
    from_none :
        (h : ℕ)
        → h ≤ length log
        → (u : Dict K V) × (apply_files key (take h log) [] ≡ ok u) × TableAt key log h u
    from_none h l =
        let (u, p) = total_ok h l in (u, p, record { total = u; adds_up = p; same = λ k. refl })

    from_snapshot :
        (c h : ℕ) (t : Dict K V)
        → suc c ≤ h
        → h ≤ length log
        → TableAt key log (suc c) t
        → (u : Dict K V) × (apply_files key (take (h - c) (drop c log)) t ≡ ok u)
          × TableAt key log h u
    unfolding apply_files
    from_snapshot c h t g l a =
        let (b, e, d, cut) = get_elem?-lt log c (omega arith) in
        let (u, p, a') = again c t b (omega arith) e cut a in
        let (w, r, a'') = advance (suc c) h u g l a' in
        let n : h - c ≡ suc (h - suc c) = omega arith in (w, rw (n, d, p) r, a'')

    open_none :
        (q : Journal K V) → IsJournal key log q → open_files q.head 0 q ≡ ok (take q.head log)
    unfolding open_files
    open_none q j = elim (Bool-cases (q.head == 0)) [
      | inl z ↦ let z' : q.head ≡ 0 = ground arith in rw z' refl
      | inr z ↦
          let m : q.head - 0 ≡ q.head = omega arith in
          simp (z, j.tail_one, m) (read_files_lem log q j.files q.head 0 (omega (arith, j.head_le)))
    ]

    open_snapshot :
        (q : Journal K V) (c : ℕ)
        → IsJournal key log q
        → suc c ≤ q.head
        → open_files q.head (suc c) q ≡ ok (take (q.head - c) (drop c log))
    unfolding open_files
    open_snapshot q c j l =
        let z : (q.head == 0) ≡ false = ground arith in
        let z' : (suc c == 0) ≡ false = ground arith in
        let p : suc c - 1 ≡ c = omega arith in
        simp (z, z', p) (read_files_lem log q j.files (q.head - c) c (omega (arith, j.head_le)))

    -- The state that `reload` leaves, for the table that it made and the snapshot's position.
    abbrev reloaded : ℕ → ℕ → Dict K V → Journal K V → Store K V × Journal K V
    reloaded h a u q =
        (record { table = u; at_id = h }, (if far_behind h a then put_snapshot h u q else q))

    abbrev Reloads : Journal K V → Type 0
    Reloads q =
        (a : ℕ) × (u : Dict K V) × (reload key q.head q ≡ ok (reloaded q.head a u q))
        × (a ≤ q.head)
        × TableAt key log q.head u

    reload_none : (q : Journal K V) → IsJournal key log q → q.snap ≡ none → Reloads q
    unfolding reload
    reload_none q j sn =
        let (u, p, a) = from_none q.head j.head_le in
        let s : get_snapshot q ≡ (0, []) = rw sn in
        (0, u, rw (s, open_none q j, p) refl, omega arith, a)

    reload_snapshot :
        (q : Journal K V) (a : ℕ) (t : Dict K V)
        → IsJournal key log q
        → q.snap ≡ some (a, t)
        → IsSnap key log q.head (some (a, t))
        → Reloads q
    unfolding reload
    reload_snapshot q zero t j sn ok' = absurd (omega (arith, ok'.0))
    reload_snapshot q (suc c) t j sn ok' =
        let (u, p, a) = from_snapshot c q.head t ok'.1 j.head_le ok'.2 in
        let s : get_snapshot q ≡ (suc c, t) = rw sn in
        (suc c, u, rw (s, open_snapshot q c j ok'.1, p) refl, ok'.1, a)

    reload_lem : (q : Journal K V) → IsJournal key log q → Reloads q
    reload_lem q j = go q.snap refl
      where
        go : (o : Option (TableSnapshot K V)) → q.snap ≡ o → Reloads q
        go none e' = reload_none q j e'
        go (some (a, t)) e' = reload_snapshot q a t j e' (rw e' at j.snap)

    IsSnap-weaken :
        (h : ℕ) (o : Option (TableSnapshot K V)) (h' : ℕ)
        → h ≤ h'
        → IsSnap key log h o
        → IsSnap key log h' o
    IsSnap-weaken h none h' l s = tt
    IsSnap-weaken h (some (a, t)) h' l s = (s.0, omega arith, s.2)

    put_snapshot-IsJournal :
        (q : Journal K V) (u : Dict K V)
        → IsJournal key log q
        → 1 ≤ q.head
        → TableAt key log q.head u
        → IsJournal key log (put_snapshot q.head u q)
    unfolding put_snapshot
    put_snapshot-IsJournal q u j l a = record {
      files = j.files;
      head_le = j.head_le;
      tail_one = j.tail_one;
      snap = (l, omega arith, a);
    }

    reloaded-IsJournal :
        (q : Journal K V) (a : ℕ) (u : Dict K V)
        → IsJournal key log q
        → a ≤ q.head
        → TableAt key log q.head u
        → IsJournal key log (reloaded q.head a u q).1
    reloaded-IsJournal q a u j l t = elim (Bool-cases (far_behind q.head a)) [
      | inl f ↦ rw f (put_snapshot-IsJournal q u j (unfold far_behind in ground arith) t)
      | inr f ↦ rw f j
    ]

    reloaded_same :
        (q : Journal K V) (a : ℕ) (u : Dict K V)
        → ((reloaded q.head a u q).1.files ≡ q.files) × ((reloaded q.head a u q).1.head ≡ q.head)
    unfolding put_snapshot
    reloaded_same q a u = ground arith

    -- A store that is out of date, or current with the right table, loads with no error from a
    -- journal that holds a log which can be replayed. Its table then has the contents that the
    -- files up to the head add up to, whether `load` started from a snapshot, whose last file it
    -- applies once more, or not, and whether it wrote a new snapshot or not. The journal still
    -- holds the log, with the same files and the same head.
    pub load_table :
        (s : Store K V) (q : Journal K V)
        → IsJournal key log q
        → IsCurrent key log q s
        → (s' : Store K V) × (q' : Journal K V) × (load key s q ≡ ok (s', q'))
          × (s'.at_id ≡ q.head)
          × TableAt key log q.head s'.table
          × IsJournal key log q'
          × (q'.files ≡ q.files)
          × (q'.head ≡ q.head)
    unfolding load read_head
    load_table s q j c = elim (Bool-cases (q.head == s.at_id)) [
      | inl y ↦ (s, q, rw y refl, ground arith, c (ground arith), j, refl, refl)
      | inr n ↦
          let (a, u, r, l, t) = reload_lem q j in
          let (f, h) = reloaded_same q a u in
          (
            (reloaded q.head a u q).0,
            (reloaded q.head a u q).1,
            rw n r,
            refl,
            t,
            reloaded-IsJournal q a u j l t,
            f,
            h,
          )
    ]

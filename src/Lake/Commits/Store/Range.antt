-- ===== src/Lake/Commits/Store/Range.antt =====
-- The paths that the store computes are the chains of parents, whatever it has cached.
use zed.Prelude.{
  ℕ, zero, suc, ◌≤◌, ◌≡◌, refl, ◌∙◌, List, [], ◌∷◌, arith, ◌==◌, true, false, Bool-cases, inl, inr,
  Option, some, none,
}
use zed.Prelude.Eq.{nat_eq}
use zed.Lake.Data.{Ksuid, nil_ksuid}
use zed.Lake.Result.{ok, err, endless}
use zed.Lake.Commits.Actions.{CommitObject}
use zed.Lake.Commits.Cache.{Lru, IsCache}
use zed.Lake.Commits.Store.{CommitStore, Run, get_object}
use zed.Lake.Commits.Store.Replay.{chain, chain-FirstStep, chain-determined}
use zed.Lake.Commits.Store.Valid.{PathAt, IsValid, get_object_lem}
use zed.Lake.Commits.Store.Paths.{take_through, cons_path, path_range}

module _ (lru : Lru) (is_cache : IsCache lru) {Val : Type 0} where
  abbrev touched_path : Ksuid → CommitStore lru Val → CommitStore lru Val
  touched_path c st = record st { paths = lru.touch c st.paths }

  IsValid-touched_path :
      (c : Ksuid) (st : CommitStore lru Val) → IsValid lru st → IsValid lru (touched_path c st)
  IsValid-touched_path c st v = record {
    cached = v.cached;
    paths = λ j ids h. v.paths j ids (is_cache.touched c j ids st.paths h);
    snapshots = v.snapshots;
    saved = v.saved;
  }

  IsValid-insert_path :
      (c : Ksuid) (ids : List Ksuid) (st : CommitStore lru Val)
      → PathAt st.objects c ids
      → IsValid lru st
      → IsValid lru (record st { paths = lru.insert c ids st.paths })
  IsValid-insert_path c ids st a v = record {
    cached = v.cached;
    paths = λ j w f. elim (is_cache.inserted c j ids w st.paths f) [
      | inl p ↦ rw (p.0, p.1) a
      | inr p ↦ v.paths j w p
    ];
    snapshots = v.snapshots;
    saved = v.saved;
  }

  -- A run that answers `ids`, from a state that is right to another with the same objects.
  pub record Answers (st : CommitStore lru Val) (run : Run lru Val (List Ksuid)) (ids : List Ksuid)
      : Type 0 where
    pub left : CommitStore lru Val
    pub ran : run ≡ (ok ids, left)
    pub valid : IsValid lru left
    pub files : left.objects ≡ st.objects

  module _ (n m : ℕ) (from to : Ksuid) (st : CommitStore lru Val) (ids : List Ksuid)
      (h : chain (suc m) from st.objects ≡ ok ids) (v : IsValid lru st) where
    range-nil :
        (from == nil_ksuid) ≡ true
        → Answers st (path_range lru (suc n) from to st) (take_through to ids)
    unfolding path_range chain take_through
    range-nil p =
        let e : [] ≡ ids = (let h' = rw p at h in cc) in
        record { left = st; ran = rw (p, ← e) refl; valid = v; files = refl }

    range-cached :
        (ids' : List Ksuid)
        → (from == nil_ksuid) ≡ false
        → lru.find from st.paths ≡ some ids'
        → Answers st (path_range lru (suc n) from to st) (take_through to ids)
    unfolding path_range
    range-cached ids' p e =
        let a = v.paths from ids' e in
        let q : ids' ≡ ids = chain-determined a.rounds (suc m) from st.objects a.chained h in
        record {
          left = touched_path from st;
          ran = rw (p, e, q) refl;
          valid = IsValid-touched_path from st v;
          files = refl;
        }

    range-stop :
        (o : CommitObject Val) (st'' : CommitStore lru Val) (rest : List Ksuid)
        → (from == nil_ksuid) ≡ false
        → lru.find from st.paths ≡ none
        → get_object lru from (touched_path from st) ≡ (ok o, st'')
        → IsValid lru st''
        → st''.objects ≡ st.objects
        → from ∷ rest ≡ ids
        → (from == to) ≡ true
        → Answers st (path_range lru (suc n) from to st) (take_through to ids)
    unfolding path_range take_through
    range-stop o st'' rest p e g v'' q j t = record {
      left = st'';
      ran = rw (p, e, g, g, t, ← j, t) refl;
      valid = v'';
      files = q;
    }

    range-next :
        (o : CommitObject Val) (st'' : CommitStore lru Val) (rest : List Ksuid)
        → (from == nil_ksuid) ≡ false
        → lru.find from st.paths ≡ none
        → get_object lru from (touched_path from st) ≡ (ok o, st'')
        → st''.objects ≡ st.objects
        → from ∷ rest ≡ ids
        → (from == to) ≡ false
        → Answers st'' (path_range lru n o.parent to st'') (take_through to rest)
        → Answers st (path_range lru (suc n) from to st) (take_through to ids)
    unfolding path_range take_through cons_path
    range-next o st'' rest p e g q j t a = record {
      left = a.left;
      ran = rw (p, e, g, g, t, a.ran, ← j, t) refl;
      valid = a.valid;
      files = a.files ∙ q;
    }

    range-search :
        ((c : Ksuid) (st' : CommitStore lru Val) (rest : List Ksuid)
          → chain m c st'.objects ≡ ok rest
          → IsValid lru st'
          → Answers st' (path_range lru n c to st') (take_through to rest))
        → (from == nil_ksuid) ≡ false
        → (found : Option (List Ksuid)) → lru.find from st.paths ≡ found
        → Answers st (path_range lru (suc n) from to st) (take_through to ids)
    range-search rec p (some ids') e = range-cached ids' p e
    range-search rec p none e =
        let f = chain-FirstStep m from st.objects p h in
        let (st'', g, v'', q) =
          get_object_lem lru is_cache (touched_path from st) (IsValid-touched_path from st v) from
            f.object f.read in
        elim (Bool-cases (from == to)) [
          | inl t ↦ range-stop f.object st'' f.rest p e g v'' q f.joined t
          | inr t ↦
              range-next f.object st'' f.rest p e g q f.joined t
                (rec f.object.parent st'' f.rest (rw q f.behind) v'')
        ]

  -- Let the parents of a commit lead to the root by `ids`, and let the caches of the store be right.
  -- Then `PathRange` on as many rounds answers, with no error, those of `ids` down to the commit
  -- `to`, or all of them if `to` is not there, and leaves a store that is right again, with the same
  -- objects.
  pub path_range-chain :
      (n m : ℕ) (from to : Ksuid) (st : CommitStore lru Val) (ids : List Ksuid)
      → m ≤ n
      → chain m from st.objects ≡ ok ids
      → IsValid lru st
      → Answers st (path_range lru n from to st) (take_through to ids)
  path_range-chain n zero from to st ids l h v =
      let e : err endless ≡ ok ids = unfold chain in h in cc
  path_range-chain zero (suc m) from to st ids l h v = absurd (omega arith)
  path_range-chain (suc n) (suc m) from to st ids l h v = elim (Bool-cases (from == nil_ksuid)) [
    | inl p ↦ range-nil n m from to st ids h v p
    | inr p ↦
        range-search n m from to st ids h v
          (λ c st' rest h' v'. path_range-chain n m c to st' rest (omega arith) h' v') p
          (lru.find from st.paths) refl
  ]

-- ===== src/Lake/Commits/Patch/RevertLoops.antt =====
-- The two loops of `Revert`: what the commit object plays to on the tip after each of them.
use zed.Prelude.{
  ◌≡◌, refl, ◌∙◌, List, [], ◌∷◌, true, false, Option, none, some, arith, Bool-cases, inl, inr,
  if◌then◌else◌,
}
use zed.Prelude.Eq.{nat_eq}
use zed.Prelude.Dict.{Dict, get, put, remove, has, mem, Distinct, over, get-remove}
use zed.Lake.Data.{Ksuid, DataObject}
use zed.Lake.Result.{ok, >>=-eq_ok}
use zed.Lake.Commits.Actions.{CommitObject, Stamp, add, delete, append_action, new_object}
use zed.Lake.Commits.Snapshot.{Snapshot, play, play_action, play_actions, snapshot_writeable}
use zed.Lake.Commits.Patch.{View, snapshot, view_lookup, revert_adds, revert_deletes}
use zed.Lake.Commits.Patch.RevertSteps.{
  ids_of, SameOn, SameOn-remove, SameOn-put, exists_in-has, play_action-delete, play_action-add,
  play-append_action, kept, restored, view_lookup-get, absent,
}

module _ {Val : Type 0} where
  -- What a loop made of `object`, from a state where it played to `u`.
  pub record Played (tip u : Snapshot Val) (object : CommitObject Val)
      (new : Ksuid → Option (DataObject Val)) : Type 0 where
    pub left : Snapshot Val
    pub plays : play snapshot_writeable tip object ≡ ok left
    pub objects : (j : Ksuid) → get j left.objects ≡ new j
    pub vectors : left.vectors ≡ u.vectors

  module _ (tip : Snapshot Val) where
    pub adds_lem :
        (os : List (DataObject Val)) (object : CommitObject Val) (u : Snapshot Val)
        → Distinct (ids_of os)
        → SameOn (ids_of os) u.objects tip.objects
        → play snapshot_writeable tip object ≡ ok u
        → Played tip u
            (revert_adds tip os object)
            (λ j. if mem j (ids_of os) then none else get j u.objects)
    unfolding revert_adds
    adds_lem [] object u d s h = record { left = u; plays = h; objects = λ j. refl; vectors = refl }
    adds_lem (o ∷ os) object u d s h = elim (Bool-cases (has o.id tip.objects)) [
      | inl p ↦
          let u₁ : Snapshot Val = record u { objects = remove o.id u.objects } in
          let r =
            adds_lem os (append_action object (delete object.commit o.id)) u₁ d.1
              (SameOn-remove o.id (ids_of os) u.objects tip.objects d.0 s.1)
              (play-append_action tip u object (delete object.commit o.id) h
                ∙ play_action-delete object.commit o.id u (s.0 ∙ p)) in
          rw (exists_in-has o.id tip, p)
            (record {
              left = r.left;
              plays = r.plays;
              vectors = r.vectors;
              objects = λ j. r.objects j ∙ ground (arith, get-remove o.id j u.objects);
            })
      | inr p ↦
          let r = adds_lem os object u d.1 s.1 h in
          rw (exists_in-has o.id tip, p)
            (record {
              left = r.left;
              plays = r.plays;
              vectors = r.vectors;
              objects = λ j. r.objects j ∙ absent o u.objects j (s.0 ∙ p) (ids_of os);
            })
    ]

    pub deletes_lem :
        (s : Snapshot Val) (base : View Val) (ids : List Ksuid) (object object' : CommitObject Val)
        (u : Snapshot Val)
        → base ≡ snapshot s
        → ((j : Ksuid) (o : DataObject Val) → get j s.objects ≡ some o → o.id ≡ j)
        → Distinct ids
        → SameOn ids u.objects tip.objects
        → play snapshot_writeable tip object ≡ ok u
        → revert_deletes tip base ids object ≡ ok object'
        → Played tip u object'
            (λ j. if mem j ids then over (get j u.objects) (get j s.objects) else get j u.objects)
    unfolding revert_deletes
    deletes_lem s base [] object object' u b k d sm h e =
        let p : object ≡ object' = cc in
        record { left = u; plays = rw (← p) h; objects = λ j. refl; vectors = refl }
    deletes_lem s base (id ∷ ids) object object' u b k d sm h e =
        let (o, l, rest) = >>=-eq_ok (view_lookup id base) _ e in
        let g = view_lookup-get id base s o b l in
        let i : o.id ≡ id = k id o g in
        elim (Bool-cases (has id tip.objects)) [
          | inl p ↦
              let r =
                deletes_lem s base ids object object' u b k d.1 sm.1 h
                  (rw (exists_in-has o.id tip, i, p) at rest) in
              record {
                left = r.left;
                plays = r.plays;
                vectors = r.vectors;
                objects = λ j. r.objects j ∙ kept id j ids u.objects s.objects (sm.0 ∙ p);
              }
          | inr p ↦
              let u₁ : Snapshot Val = record u { objects = put o.id o u.objects } in
              let r =
                deletes_lem s base ids (append_action object (add object.commit o)) object' u₁ b k
                  d.1 (rw i (SameOn-put id o ids u.objects tip.objects d.0 sm.1))
                  (play-append_action tip u object (add object.commit o) h
                    ∙ play_action-add object.commit o u (rw i (sm.0 ∙ p)))
                  (rw (exists_in-has o.id tip, i, p) at rest) in
              record {
                left = r.left;
                plays = r.plays;
                vectors = r.vectors;
                objects = λ j.
                    r.objects j
                    ∙ (let z = restored id j ids o u.objects s.objects g (sm.0 ∙ p) d.0 in rw i z);
              }
        ]

  pub SameOn-adds :
      (ks js : List Ksuid) (d e : Dict Ksuid (DataObject Val))
      → ((j : Ksuid) → mem j js ≡ true → mem j ks ≡ false)
      → ((j : Ksuid) → get j d ≡ (if mem j ks then none else get j e))
      → SameOn js d e
  SameOn-adds ks [] d e h g = tt
  SameOn-adds ks (j ∷ js) d e h g = (
    (let m = h j (let t = (nat_eq.beq_iff j j).1 refl in rw t refl) in rw (g j, m) refl),
    SameOn-adds ks js d e (λ i m. h i (ground arith)) g,
  )

  pub play-new_object :
      (tip : Snapshot Val) (parent : Ksuid) (st : Stamp Val)
      → play snapshot_writeable tip (new_object parent st) ≡ ok tip
  unfolding play play_actions play_action new_object
  play-new_object tip parent st = refl

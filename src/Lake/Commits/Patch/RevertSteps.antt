-- ===== src/Lake/Commits/Patch/RevertSteps.antt =====
-- One step of a loop of `Revert`: an action more, or none.
use zed.Prelude.{
  ◌≡◌, refl, List, [], ◌∷◌, true, false, Option, none, some, arith, Bool-cases, inl, inr,
  if◌then◌else◌,
}
use zed.Prelude.Eq.{nat_eq}
use zed.Prelude.Dict.{
  Dict, get, put, remove, has, mem, Distinct, IsMap, values, over, get-put, get-remove,
}
use zed.Lake.Data.{Ksuid, DataObject}
use zed.Lake.Result.{Result, ok, err, ◌>>=◌}
use zed.Lake.Commits.Actions.{Action, CommitObject, add, delete, append_action}
use zed.Lake.Commits.Snapshot.{
  Snapshot, play, play_action, play_actions, snapshot_writeable, lookup, exists_in, add_data_object,
  delete_object,
}
use zed.Lake.Commits.Snapshot.Play.{IsKeyed, play_actions-append}
use zed.Lake.Commits.Patch.{View, snapshot, view_lookup}
use zed.Lake.Commits.Patch.Inverse.{has-lookup}

abbrev pub ids_of : {Val : Type 0} → List (DataObject Val) → List Ksuid
ids_of [] = []
ids_of (o ∷ os) = o.id ∷ ids_of os

-- Each KSUID is in both or in neither.
abbrev pub SameOn : {V : Type 0} → List Ksuid → Dict Ksuid V → Dict Ksuid V → Type 0
SameOn [] d e = Unit {0}
SameOn (k ∷ ks) d e = (has k d ≡ has k e) × SameOn ks d e

module _ {Val : Type 0} where
  pub mem-ids_of :
      (j : Ksuid) (d : Dict Ksuid (DataObject Val))
      → IsKeyed d
      → mem j (ids_of (values d)) ≡ has j d
  unfolding get
  mem-ids_of j [] h = refl
  mem-ids_of j ((k, o) ∷ d) h = ground (arith, h.0, mem-ids_of j d h.1)

  pub ids_of-Distinct :
      (d : Dict Ksuid (DataObject Val)) → IsKeyed d → IsMap d → Distinct (ids_of (values d))
  ids_of-Distinct [] h m = tt
  ids_of-Distinct ((k, o) ∷ d) h m =
      (ground (arith, h.0, m.0, mem-ids_of o.id d h.1), ids_of-Distinct d h.1 m.1)

  pub SameOn-refl : (ks : List Ksuid) (d : Dict Ksuid (DataObject Val)) → SameOn ks d d
  SameOn-refl [] d = tt
  SameOn-refl (k ∷ ks) d = (refl, SameOn-refl ks d)

  pub SameOn-remove :
      (k : Ksuid) (ks : List Ksuid) (d e : Dict Ksuid (DataObject Val))
      → mem k ks ≡ false
      → SameOn ks d e
      → SameOn ks (remove k d) e
  SameOn-remove k [] d e m h = tt
  SameOn-remove k (j ∷ ks) d e m h =
      (ground (arith, get-remove k j d, h.0), SameOn-remove k ks d e (ground arith) h.1)

  pub SameOn-put :
      (k : Ksuid) (o : DataObject Val) (ks : List Ksuid) (d e : Dict Ksuid (DataObject Val))
      → mem k ks ≡ false
      → SameOn ks d e
      → SameOn ks (put k o d) e
  SameOn-put k o [] d e m h = tt
  SameOn-put k o (j ∷ ks) d e m h =
      (ground (arith, get-put k j o d, h.0), SameOn-put k o ks d e (ground arith) h.1)

  pub exists_in-has : (id : Ksuid) (s : Snapshot Val) → exists_in id s ≡ has id s.objects
  unfolding exists_in
  exists_in-has id s = has-lookup id s

  pub play_action-delete :
      (c id : Ksuid) (u : Snapshot Val)
      → has id u.objects ≡ true
      → play_action snapshot_writeable u (delete c id)
        ≡ ok (record u { objects = remove id u.objects })
  unfolding play_action delete_object
  play_action-delete c id u h = rw h refl

  pub play_action-add :
      (c : Ksuid) (o : DataObject Val) (u : Snapshot Val)
      → has o.id u.objects ≡ false
      → play_action snapshot_writeable u (add c o)
        ≡ ok (record u { objects = put o.id o u.objects })
  unfolding play_action add_data_object
  play_action-add c o u h = rw h refl

  pub play-append_action :
      (tip u : Snapshot Val) (o : CommitObject Val) (a : Action Val)
      → play snapshot_writeable tip o ≡ ok u
      → play snapshot_writeable tip (append_action o a) ≡ play_action snapshot_writeable u a
  unfolding play append_action
  play-append_action tip u o a h =
      rw (play_actions-append snapshot_writeable tip o.actions (a ∷ []), h)
        (one (play_action snapshot_writeable u a))
    where
      one : (r : Result (Snapshot Val)) → (r >>= λ w. play_actions snapshot_writeable w []) ≡ r
      one (ok w) = unfold play_actions in refl
      one (err e) = refl

  pub get-none : (j : Ksuid) (d : Dict Ksuid (DataObject Val)) → has j d ≡ false → get j d ≡ none
  get-none j d h = ground arith

  over-has :
      (j : Ksuid) (d : Dict Ksuid (DataObject Val)) (b : Option (DataObject Val))
      → has j d ≡ true
      → over (get j d) b ≡ get j d
  over-has j d b h = ground arith

  -- An object that is there need not be added.
  pub kept :
      (id j : Ksuid) (ids : List Ksuid) (d e : Dict Ksuid (DataObject Val))
      → has id d ≡ true
      → (if mem j ids then over (get j d) (get j e) else get j d)
        ≡ (if mem j (id ∷ ids) then over (get j d) (get j e) else get j d)
  kept id j ids d e h = elim (Bool-cases (nat_eq.beq id j)) [
    | inl p ↦
        let q = (nat_eq.beq_iff id j).0 p in
        let n = over-has j d (get j e) (rw q at h) in ground (arith, n)
    | inr p ↦ rw p refl
  ]

  -- An object that is not there is added as the base has it.
  pub restored :
      (id j : Ksuid) (ids : List Ksuid) (o : DataObject Val) (d e : Dict Ksuid (DataObject Val))
      → get id e ≡ some o
      → has id d ≡ false
      → mem id ids ≡ false
      → (if mem j ids then over (get j (put id o d)) (get j e) else get j (put id o d))
        ≡ (if mem j (id ∷ ids) then over (get j d) (get j e) else get j d)
  restored id j ids o d e g h m = elim (Bool-cases (nat_eq.beq id j)) [
    | inl p ↦
        let q = (nat_eq.beq_iff id j).0 p in
        let n = get-none id d h in
        rw (← q) (rw (get-put id id o d, m, n, g, (nat_eq.beq_iff id id).1 refl) refl)
    | inr p ↦ rw (get-put id j o d, p) refl
  ]

  pub view_lookup-get :
      (id : Ksuid) (base : View Val) (s : Snapshot Val) (o : DataObject Val)
      → base ≡ snapshot s
      → view_lookup id base ≡ ok o
      → get id s.objects ≡ some o
  unfolding view_lookup lookup
  view_lookup-get id base s o b h = let h' = rw b at h in ground arith

  -- An object that is not there need not be deleted.
  pub absent :
      (o : DataObject Val) (d : Dict Ksuid (DataObject Val)) (j : Ksuid)
      → has o.id d ≡ false
      → (ks : List Ksuid)
      → (if mem j ks then none else get j d) ≡ (if mem j (o.id ∷ ks) then none else get j d)
  absent o d j h ks = elim (Bool-cases (nat_eq.beq o.id j)) [
    | inl p ↦
        (let q = (nat_eq.beq_iff o.id j).0 p in
          let n = get-none j d (rw q at h) in ground (arith, n))
    | inr p ↦ rw p refl
  ]

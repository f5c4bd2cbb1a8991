-- ===== src/Lake/Commits/Snapshot/Serial.antt =====
-- A snapshot is rebuilt from the actions that it is serialised to, and stays well formed.
use zed.Prelude.{
  ◌≡◌, refl, ◌∙◌, List, [], ◌∷◌, map, Bool, true, false, Option, none, some, Bool-cases, inl, inr,
  subst, if◌then◌else◌,
}
use zed.Prelude.Eq.{nat_eq}
use zed.Prelude.Dict.{
  Dict, get, put, remove, put_all, keys, values, IsMap, IsMap-put, IsMap-remove, get-put_all, over,
}
use zed.Lake.Data.{Ksuid, DataObject, nil_ksuid}
use zed.Lake.Result.{Error, ok, err, >>=-eq_ok}
use zed.Lake.Commits.Actions.{Action, add, add_vector, delete, delete_vector, commit}
use zed.Lake.Commits.Snapshot.{
  Snapshot, new_snapshot, play_action, play_actions, snapshot_writeable, add_data_object,
  delete_object, add_vector_of, delete_vector_of, serialize, decode_snapshot, copy,
}
use zed.Lake.Commits.Snapshot.Play.{
  IsKeyed, AllFresh, play_actions-append, play_adds, play_add_vectors,
}

-- What Go's maps give, and that each object stands under its KSUID.
pub record IsSnapshot {Val : Type 0} (s : Snapshot Val) : Type 0 where
  pub objects_map : IsMap s.objects
  pub keyed : IsKeyed s.objects
  pub vectors_map : IsMap s.vectors

-- The same objects under the same KSUIDs, and the same vectors.
pub record SameSnapshot {Val : Type 0} (s t : Snapshot Val) : Type 0 where
  pub objects : (id : Ksuid) → get id s.objects ≡ get id t.objects
  pub vectors : (id : Ksuid) → get id s.vectors ≡ get id t.vectors

module _ {Val : Type 0} where
  pub IsKeyed-put :
      (o : DataObject Val) (d : Dict Ksuid (DataObject Val)) → IsKeyed d → IsKeyed (put o.id o d)
  unfolding put
  IsKeyed-put o [] h = (refl, tt)
  IsKeyed-put o ((k, w) ∷ d) h = elim (Bool-cases (nat_eq.beq k o.id)) [
    | inl p ↦ rw p (refl, h.1)
    | inr p ↦ rw p (h.0, IsKeyed-put o d h.1)
  ]

  pub IsKeyed-remove :
      (k : Ksuid) (d : Dict Ksuid (DataObject Val)) → IsKeyed d → IsKeyed (remove k d)
  unfolding remove
  IsKeyed-remove k [] h = tt
  IsKeyed-remove k ((j, w) ∷ d) h = elim (Bool-cases (nat_eq.beq j k)) [
    | inl p ↦ rw p (IsKeyed-remove k d h.1)
    | inr p ↦ rw p (h.0, IsKeyed-remove k d h.1)
  ]

AllFresh-nil : {V : Type 0} (es : Dict Ksuid V) → AllFresh es []
unfolding get
AllFresh-nil [] = tt
AllFresh-nil ((k, v) ∷ es) = (refl, AllFresh-nil es)

over-none {ℓ} : {V : Type ℓ} (o : Option V) → over o none ≡ o
over-none none = refl
over-none (some v) = refl

-- A guarded step that succeeded gave the state that it guards.
pub guarded {ℓ} :
    {A : Type ℓ} (b : Bool) (e : Error) (x : A) {t : A} → (if b then err e else ok x) ≡ ok t → x ≡ t
guarded true e x h = cc
guarded false e x h = cc

pub guarded_not {ℓ} :
    {A : Type ℓ} (b : Bool) (e : Error) (x : A) {t : A} → (if b then ok x else err e) ≡ ok t → x ≡ t
guarded_not true e x h = cc
guarded_not false e x h = cc

module _ {Val : Type 0} where
  play_action-IsSnapshot :
      (a : Action Val) (s : Snapshot Val) {t : Snapshot Val}
      → IsSnapshot s
      → play_action snapshot_writeable s a ≡ ok t
      → IsSnapshot t
  unfolding play_action add_data_object delete_object add_vector_of delete_vector_of
  play_action-IsSnapshot (add c o) s h e = subst IsSnapshot (guarded _ _ _ e) (record {
    objects_map = IsMap-put o.id o s.objects h.objects_map;
    keyed = IsKeyed-put o s.objects h.keyed;
    vectors_map = h.vectors_map;
  })
  play_action-IsSnapshot (delete c id) s h e = subst IsSnapshot (guarded_not _ _ _ e) (record {
    objects_map = IsMap-remove id s.objects h.objects_map;
    keyed = IsKeyed-remove id s.objects h.keyed;
    vectors_map = h.vectors_map;
  })
  play_action-IsSnapshot (add_vector c id) s h e = subst IsSnapshot (guarded _ _ _ e) (record {
    objects_map = h.objects_map;
    keyed = h.keyed;
    vectors_map = IsMap-put id tt s.vectors h.vectors_map;
  })
  play_action-IsSnapshot (delete_vector c id) s h e =
      subst IsSnapshot (guarded_not _ _ _ e) (record {
        objects_map = h.objects_map;
        keyed = h.keyed;
        vectors_map = IsMap-remove id s.vectors h.vectors_map;
      })
  play_action-IsSnapshot (commit i) s {t} h e = subst IsSnapshot (let p : s ≡ t = cc in p) h

  -- A well-formed snapshot stays one.
  pub play_actions-IsSnapshot :
      (as' : List (Action Val)) (s : Snapshot Val) {t : Snapshot Val}
      → IsSnapshot s
      → play_actions snapshot_writeable s as' ≡ ok t
      → IsSnapshot t
  unfolding play_actions
  play_actions-IsSnapshot [] s {t} h e = subst IsSnapshot (let p : s ≡ t = cc in p) h
  play_actions-IsSnapshot (a ∷ as') s h e =
      let (s', one, rest) =
        >>=-eq_ok (play_action snapshot_writeable s a) (λ w. play_actions snapshot_writeable w as')
          e in
      play_actions-IsSnapshot as' s' (play_action-IsSnapshot a s h one) rest

  pub decode-serialize :
      (s : Snapshot Val) → IsSnapshot s → decode_snapshot (serialize s) ≡ ok (copy s)
  unfolding decode_snapshot serialize copy
  decode-serialize s h =
      rw
        (
          play_actions-append snapshot_writeable new_snapshot
              (map (add nil_ksuid) (values s.objects))
              (map (add_vector nil_ksuid) (keys s.vectors)),
          play_adds nil_ksuid s.objects new_snapshot h.objects_map h.keyed (AllFresh-nil s.objects),
        )
        (play_add_vectors nil_ksuid s.vectors
          (record { objects = put_all [] s.objects; vectors = [] }) h.vectors_map
          (AllFresh-nil s.vectors))

  pub copy-SameSnapshot : (s : Snapshot Val) → IsSnapshot s → SameSnapshot (copy s) s
  unfolding copy get
  copy-SameSnapshot s h = record {
    objects = λ id. get-put_all id [] s.objects h.objects_map ∙ over-none (get id s.objects);
    vectors = λ id. get-put_all id [] s.vectors h.vectors_map ∙ over-none (get id s.vectors);
  }

  -- A well-formed snapshot that is written out as actions is read back, with no error, as a
  -- snapshot with the same objects under the same KSUIDs and the same vectors.
  pub decode_snapshot-serialize :
      (s : Snapshot Val)
      → IsSnapshot s
      → (t : Snapshot Val) × (decode_snapshot (serialize s) ≡ ok t) × SameSnapshot t s
  decode_snapshot-serialize s h = (copy s, decode-serialize s h, copy-SameSnapshot s h)

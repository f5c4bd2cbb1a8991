-- ===== src/Lake/Commits/Patch/Inverse.antt =====
-- What a patch over a snapshot was and becomes, where one of its operations succeeds.
use zed.Prelude.{◌≡◌, [], ◌∷◌, ◌++◌, true, false, arith, ◌⊎◌}
use zed.Prelude.Eq.{nat_eq}
use zed.Prelude.Dict.{put, remove, has}
use zed.Lake.Data.{Ksuid, DataObject}
use zed.Lake.Result.{ok, is_ok}
use zed.Lake.Commits.Snapshot.{
  Snapshot, lookup, exists_in, has_vector, add_data_object, delete_object, add_vector_of,
  delete_vector_of,
}
use zed.Lake.Commits.Patch.{
  snapshot, Patch, view_has_vector, view_exists, patch_add, patch_delete, patch_add_vector,
  patch_delete_vector,
}

module _ {Val : Type 0} where
  pub has-lookup : (id : Ksuid) (s : Snapshot Val) → is_ok (lookup id s) ≡ has id s.objects
  unfolding lookup
  has-lookup id s = ground arith

  abbrev pub put_object : DataObject Val → Patch Val → Patch Val
  put_object o p = record p { diff = record p.diff { objects = put o.id o p.diff.objects } }

  abbrev pub drop_object : Ksuid → Patch Val → Patch Val
  drop_object id p = record p { diff = record p.diff { objects = remove id p.diff.objects } }

  abbrev pub delete_base : Ksuid → Patch Val → Patch Val
  delete_base id p = record p { deleted_objects = p.deleted_objects ++ (id ∷ []) }

  abbrev pub put_vector : Ksuid → Patch Val → Patch Val
  put_vector id p = record p { diff = record p.diff { vectors = put id tt p.diff.vectors } }

  abbrev pub drop_vector : Ksuid → Patch Val → Patch Val
  drop_vector id p = record p { diff = record p.diff { vectors = remove id p.diff.vectors } }

  abbrev pub delete_base_vector : Ksuid → Patch Val → Patch Val
  delete_base_vector id p = record p { deleted_vectors = p.deleted_vectors ++ (id ∷ []) }

  module _ (s : Snapshot Val) (p p' : Patch Val) (based : p.base ≡ snapshot s) where
    pub patch_add_ok :
        (o : DataObject Val)
        → patch_add o p ≡ ok p'
        → (has o.id s.objects ≡ false) × (has o.id p.diff.objects ≡ false) × (put_object o p ≡ p')
    unfolding patch_add view_exists add_data_object
    patch_add_ok o h = let h' = rw (based, has-lookup o.id s) at h in ground arith

    exists_based : (id : Ksuid) → view_exists id p.base ≡ has id s.objects
    unfolding view_exists
    exists_based id = rw based (has-lookup id s)

    -- A deletion finds the object in the patch or, failing that, in the base.
    pub patch_delete_ok :
        (id : Ksuid)
        → patch_delete id p ≡ ok p'
        → ((has id p.diff.objects ≡ true) × (drop_object id p ≡ p'))
          ⊎ ((has id p.diff.objects ≡ false) × (has id s.objects ≡ true) × (delete_base id p ≡ p'))
    unfolding patch_delete exists_in delete_object
    patch_delete_ok id h = ground (arith, has-lookup id s, has-lookup id p.diff, exists_based id)

    pub patch_add_vector_ok :
        (id : Ksuid)
        → patch_add_vector id p ≡ ok p'
        → (has id s.vectors ≡ false) × (has id p.diff.vectors ≡ false) × (put_vector id p ≡ p')
    unfolding patch_add_vector view_has_vector has_vector add_vector_of
    patch_add_vector_ok id h = let h' = rw based at h in ground arith

    pub patch_delete_vector_ok :
        (id : Ksuid)
        → patch_delete_vector id p ≡ ok p'
        → ((has id p.diff.vectors ≡ true) × (drop_vector id p ≡ p'))
          ⊎ ((has id p.diff.vectors ≡ false)
              × (has id s.vectors ≡ true)
              × (delete_base_vector id p ≡ p'))
    unfolding patch_delete_vector view_has_vector has_vector delete_vector_of
    patch_delete_vector_ok id h = let h' = rw based at h in ground arith

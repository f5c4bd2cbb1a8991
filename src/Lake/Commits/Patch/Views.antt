-- ===== src/Lake/Commits/Patch/Views.antt =====
-- What a patch over a snapshot shows as a view, and the errors that its operations return.
use zed.Prelude.{◌≡◌, refl, List, [], ◌∷◌, true, ◌||◌, arith, ◌⊎◌}
use zed.Prelude.Eq.{nat_eq}
use zed.Prelude.Dict.{Dict, has, mem}
use zed.Lake.Data.{Ksuid, DataObject}
use zed.Lake.Result.{Result, Error, ok, err, write_conflict, exists, not_found, is_ok}
use zed.Lake.Commits.Snapshot.{Snapshot, lookup, add_data_object, delete_object}
use zed.Lake.Commits.Snapshot.Play.{AllIn}
use zed.Lake.Commits.Patch.{
  snapshot, Patch, as_view, view_lookup, view_exists, patch_add, patch_delete, first_of_two,
}

module _ {Val : Type 0} where
  view_exists-snapshot :
      (id : Ksuid) (s : Snapshot Val) → view_exists id (snapshot s) ≡ has id s.objects
  unfolding view_exists lookup
  view_exists-snapshot id s = ground arith

  first_of_two_ok :
      (r q : Result (DataObject Val)) → is_ok (first_of_two r q) ≡ (is_ok r || is_ok q)
  first_of_two_ok (ok o) q = refl
  first_of_two_ok (err e) q = refl

  lookup_ok : (id : Ksuid) (s : Snapshot Val) → is_ok (lookup id s) ≡ has id s.objects
  unfolding lookup
  lookup_ok id s = ground arith

  -- A patch shows the objects of its difference and of its base; those it deletes are not hidden.
  pub view_exists-patch :
      (id : Ksuid) (s : Snapshot Val) (p : Patch Val)
      → p.base ≡ snapshot s
      → view_exists id (as_view p) ≡ (has id p.diff.objects || has id s.objects)
  unfolding view_exists
  view_exists-patch id s p based =
      rw
        (
          first_of_two_ok (lookup id p.diff) (view_lookup id p.base),
          lookup_ok id p.diff,
          based,
          view_exists-snapshot id s,
        )
        refl

  pub mem-AllIn :
      (id : Ksuid) (ids : List Ksuid) (d : Dict Ksuid (DataObject Val))
      → AllIn ids d
      → mem id ids ≡ true
      → has id d ≡ true
  mem-AllIn id [] d h m = cc
  mem-AllIn id (k ∷ ids) d h m = ground (arith, h.0, mem-AllIn id ids d h.1)

  -- The errors of the two operations.
  pub patch_add_errors :
      (o : DataObject Val) (p : Patch Val) (e : Error)
      → patch_add o p ≡ err e
      → (e ≡ exists) ⊎ (e ≡ write_conflict)
  unfolding patch_add add_data_object
  patch_add_errors o p e h = ground arith

  pub patch_delete_errors :
      (id : Ksuid) (p : Patch Val) (e : Error)
      → patch_delete id p ≡ err e
      → (e ≡ not_found) ⊎ (e ≡ write_conflict)
  unfolding patch_delete delete_object
  patch_delete_errors id p e h = ground arith

-- ===== src/Lake/Commits/Patch.antt =====
-- lake/commits/patch.go: the changes on top of a base view, and the commit objects made of them.
-- `View` has a constructor for each Go type that implements the interface.
pub mod Entries
pub mod Inverse
pub mod Replay
pub mod Squash
pub mod Views
pub mod Conflict
pub mod DoubleDelete
pub mod RevertSteps
pub mod RevertLoops
pub mod Revert
use zed.Prelude.{
  ℕ, List, [], ◌∷◌, ◌++◌, map, Bool, true, false, ◌||◌, Option, none, some, if◌then◌else◌, ◌==◌,
  length,
}
use zed.Prelude.Eq.{nat_eq}
use zed.Prelude.Dict.{keys, values, mem}
use zed.Lake.Data.{Ksuid, DataObject}
use zed.Lake.Result.{
  Result, ok, err, exists, not_found, parent_deletes, delete_conflict, empty_difference,
  empty_revert, ◌>>=◌, is_ok,
}
use zed.Lake.Commits.Actions.{
  Action, CommitObject, Stamp, add, add_vector, delete, delete_vector, new_object, append_action,
  append_all,
}
use zed.Lake.Commits.Snapshot.{
  Snapshot, Writeable, new_snapshot, lookup, has_vector, exists_in, select_all, add_data_object,
  delete_object, add_vector_of, delete_vector_of,
}

-- `deletedObjects` and `deletedVectors` are the two lists of a patch.
pub data View (Val : Type 0) : Type 0 where
  snapshot : Snapshot Val → View Val
  patch : View Val → Snapshot Val → List Ksuid → List Ksuid → View Val

pub record Patch (Val : Type 0) : Type 0 where
  pub base : View Val
  pub diff : Snapshot Val
  pub deleted_objects : List Ksuid
  pub deleted_vectors : List Ksuid

module _ {Val : Type 0} where
  abbrev pub as_view : Patch Val → View Val
  as_view p = patch p.base p.diff p.deleted_objects p.deleted_vectors

  abbrev pub new_patch : View Val → Patch Val
  new_patch base = record {
    base = base;
    diff = new_snapshot;
    deleted_objects = [];
    deleted_vectors = [];
  }

  abbrev pub first_of_two :
      Result (DataObject Val) → Result (DataObject Val) → Result (DataObject Val)
  first_of_two (ok o) r = ok o
  first_of_two (err _) r = r

  -- The methods of the interface, for both types.
  unfoldable pub view_lookup : Ksuid → View Val → Result (DataObject Val)
  view_lookup id (snapshot s) = lookup id s
  view_lookup id (patch base diff ds vs) = first_of_two (lookup id diff) (view_lookup id base)

  unfoldable pub view_has_vector : Ksuid → View Val → Bool
  view_has_vector id (snapshot s) = has_vector id s
  view_has_vector id (patch base diff ds vs) = has_vector id diff || view_has_vector id base

  unfoldable pub view_select_all : View Val → List (DataObject Val)
  view_select_all (snapshot s) = select_all s
  view_select_all (patch base diff ds vs) = view_select_all base ++ select_all diff

  -- `Exists`
  unfoldable pub view_exists : Ksuid → View Val → Bool
  unfolding view_lookup
  view_exists id v = is_ok (view_lookup id v)

  -- `DataObjects`
  unfoldable pub data_objects : Patch Val → List Ksuid
  data_objects p = map (λ o. o.id) (select_all p.diff)

  unfoldable pub with_diff : Patch Val → Snapshot Val → Result (Patch Val)
  with_diff p diff' = ok (record p { diff = diff' })

  unfoldable pub patch_add : DataObject Val → Patch Val → Result (Patch Val)
  unfolding with_diff
  patch_add object p =
      if view_exists object.id p.base
      then err exists
      else add_data_object object p.diff >>= with_diff p

  unfoldable pub patch_delete : Ksuid → Patch Val → Result (Patch Val)
  unfolding with_diff
  patch_delete id p =
      if exists_in id p.diff
      then delete_object id p.diff >>= with_diff p
      else if view_exists id p.base
      then ok (record p { deleted_objects = p.deleted_objects ++ (id ∷ []) })
      else err not_found

  unfoldable pub patch_add_vector : Ksuid → Patch Val → Result (Patch Val)
  unfolding with_diff
  patch_add_vector id p =
      if view_has_vector id (as_view p) then err exists else add_vector_of id p.diff >>= with_diff p

  unfoldable pub patch_delete_vector : Ksuid → Patch Val → Result (Patch Val)
  unfolding with_diff
  patch_delete_vector id p =
      if has_vector id p.diff
      then delete_vector_of id p.diff >>= with_diff p
      else if view_has_vector id p.base
      then ok (record p { deleted_vectors = p.deleted_vectors ++ (id ∷ []) })
      else err not_found

  abbrev pub patch_writeable : Writeable Val (Patch Val)
  patch_writeable = record {
    add_data_object = patch_add;
    delete_object = patch_delete;
    add_vector_of = patch_add_vector;
    delete_vector_of = patch_delete_vector;
  }

  -- The actions that the four loops of `NewCommitObject` append.
  abbrev pub patch_actions : Ksuid → Patch Val → List (Action Val)
  patch_actions c p =
      map (delete c) p.deleted_objects
      ++ (map (add c) (values p.diff.objects)
          ++ (map (delete_vector c) p.deleted_vectors ++ map (add_vector c) (keys p.diff.vectors)))

  unfoldable pub new_commit_object : Ksuid → Stamp Val → Patch Val → CommitObject Val
  unfolding new_object append_all
  new_commit_object parent s p = append_all (new_object parent s) (patch_actions s.commit p)

  -- `Patch.Revert`: the first loop, over the objects that the patch adds.
  unfoldable pub revert_adds :
      Snapshot Val → List (DataObject Val) → CommitObject Val → CommitObject Val
  unfolding append_action
  revert_adds tip [] object = object
  revert_adds tip (o ∷ os) object =
      revert_adds tip os
        (if exists_in o.id tip then append_action object (delete object.commit o.id) else object)

  -- The second loop, over the objects that the patch deletes. No view here returns a nil object
  -- without an error.
  unfoldable pub revert_deletes :
      Snapshot Val → View Val → List Ksuid → CommitObject Val → Result (CommitObject Val)
  unfolding append_action
  revert_deletes tip base [] object = ok object
  revert_deletes tip base (id ∷ ids) object = view_lookup id base >>= λ o.
      revert_deletes tip base ids
        (if exists_in o.id tip then object else append_action object (add object.commit o))

  unfoldable pub revert : Snapshot Val → Ksuid → Stamp Val → Patch Val → Result (CommitObject Val)
  unfolding new_object revert_adds revert_deletes
  revert tip parent s p =
      revert_deletes tip p.base p.deleted_objects
        (revert_adds tip (select_all p.diff) (new_object parent s))
      >>= λ object. if length object.actions == 1 then err empty_revert else ok object

  -- `Diff`: the first loop, with the set of the child's deletions, the patch and `dirty`.
  unfoldable pub diff_adds :
      Patch Val → List Ksuid → List (DataObject Val) → Patch Val → Bool → Result (Patch Val × Bool)
  diff_adds parent deleted [] p dirty = ok (p, dirty)
  diff_adds parent deleted (o ∷ os) p dirty =
      if view_exists o.id (as_view parent)
      then diff_adds parent deleted os p dirty
      else if mem o.id deleted
      then err (parent_deletes o.id)
      else patch_add o p >>= λ p'. diff_adds parent deleted os p' true

  -- The second loop, over the child's deletions.
  unfoldable pub diff_deletes :
      Patch Val → List Ksuid → Patch Val → Bool → Result (Patch Val × Bool)
  diff_deletes parent [] p dirty = ok (p, dirty)
  diff_deletes parent (id ∷ ids) p dirty =
      if view_exists id (as_view parent)
      then patch_delete id p >>= (λ p'. diff_deletes parent ids p' true)
      else err (delete_conflict id)

  unfoldable pub diff : Patch Val → Patch Val → Result (Patch Val)
  unfolding diff_adds diff_deletes
  diff parent child =
      diff_adds parent child.deleted_objects (view_select_all (as_view child))
        (new_patch (as_view parent)) false
      >>= λ (p, dirty). diff_deletes parent child.deleted_objects p dirty >>= λ (p', dirty').
          if dirty' then ok p' else err empty_difference

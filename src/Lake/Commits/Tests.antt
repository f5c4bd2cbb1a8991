-- ===== src/Lake/Commits/Tests.antt =====
-- Concrete runs of the commits model, and its theorems at concrete inputs.
use zed.Prelude.{none, if◌then◌else◌, ℕ, ◌≡◌, ◌≢◌, refl, List, [], ◌∷◌}
use zed.Prelude.Eq.{nat_eq}
use zed.Prelude.Int.{pos}
use zed.Prelude.Dict.{get, put, remove, has, mem, over}
use zed.Lake.Data.{Ksuid, DataObject}
use zed.Lake.Result.{ok, err, write_conflict, delete_conflict}
use zed.Lake.Commits.Actions.{
  CommitObject, new_object, append_action, Action, Stamp, add, delete, delete_vector,
}
use zed.Lake.Commits.Snapshot.{
  Snapshot, play, play_actions, snapshot_writeable, serialize, decode_snapshot, add_data_object,
  delete_object, delete_vector_of, exists_in, has_vector, select_all, lookup,
}
use zed.Lake.Commits.Snapshot.Serial.{IsSnapshot, SameSnapshot, decode_snapshot-serialize}
use zed.Lake.Commits.Snapshot.Balance.{Balanced, play_actions-Balanced}
use zed.Lake.Commits.Patch.{
  revert, view_lookup, Patch, snapshot, new_patch, patch_writeable, new_commit_object, diff,
  patch_add, patch_delete, view_exists, view_select_all, patch_delete_vector, view_has_vector,
  as_view,
}
use zed.Lake.Commits.Patch.Squash.{new_commit_object-squashes, Stands-run, Stands-new}
use zed.Lake.Commits.Patch.Conflict.{diff-no_conflict}
use zed.Lake.Commits.Patch.Revert.{revert_replays, revert_restores}
use zed.Lake.Commits.Patch.DoubleDelete.{double_delete_breaks}

abbrev object : ℕ → DataObject ℕ
object i = record { id = i; min = 0; max = 9; count = 3; size = 40 }

abbrev stamp : Stamp ℕ
stamp = record { commit = 77; now = pos 5; retries = 0; author = "a"; message = "m"; meta = 0 }

abbrev base : Snapshot ℕ
base = record { objects = (1, object 1) ∷ (2, object 2) ∷ []; vectors = (1, tt) ∷ [] }

base-IsSnapshot : IsSnapshot base
unfolding get
base-IsSnapshot = record {
  objects_map = (refl, (refl, tt));
  keyed = (refl, (refl, tt));
  vectors_map = (refl, tt);
}

decode_snapshot-serialize_example :
    (t : Snapshot ℕ) × (decode_snapshot (serialize base) ≡ ok t) × SameSnapshot t base
decode_snapshot-serialize_example = decode_snapshot-serialize base base-IsSnapshot

-- The parent branch deletes object 1 and adds 3; the child deletes 1 and the vector, and adds 4.
abbrev on_parent : List (Action ℕ)
on_parent = delete 5 1 ∷ add 5 (object 3) ∷ []

abbrev on_child : List (Action ℕ)
on_child = delete 6 1 ∷ delete_vector 6 1 ∷ add 6 (object 4) ∷ delete 6 4 ∷ add 6 (object 8) ∷ []

abbrev parent_tip : Snapshot ℕ
parent_tip = record { objects = (2, object 2) ∷ (3, object 3) ∷ []; vectors = (1, tt) ∷ [] }

abbrev child_tip : Snapshot ℕ
child_tip = record { objects = (2, object 2) ∷ (8, object 8) ∷ []; vectors = [] }

abbrev parent_patch : Patch ℕ
parent_patch = record {
  base = snapshot base;
  diff = record { objects = (3, object 3) ∷ []; vectors = [] };
  deleted_objects = 1 ∷ [];
  deleted_vectors = [];
}

abbrev child_patch : Patch ℕ
child_patch = record {
  base = snapshot base;
  diff = record { objects = (8, object 8) ∷ []; vectors = [] };
  deleted_objects = 1 ∷ [];
  deleted_vectors = 1 ∷ [];
}

abbrev merged : Patch ℕ
merged = record {
  base = as_view parent_patch;
  diff = record { objects = (8, object 8) ∷ []; vectors = [] };
  deleted_objects = 1 ∷ [];
  deleted_vectors = [];
}

parent_plays : play_actions snapshot_writeable base on_parent ≡ ok parent_tip
unfolding play_actions add_data_object delete_object get put remove lookup
parent_plays = refl

child_plays : play_actions snapshot_writeable base on_child ≡ ok child_tip
unfolding play_actions add_data_object delete_object delete_vector_of get put remove lookup
child_plays = refl

parent_patches :
    play_actions patch_writeable (new_patch (snapshot base)) on_parent ≡ ok parent_patch
unfolding play_actions patch_add patch_delete view_exists add_data_object delete_object exists_in
    get put remove lookup
parent_patches = refl

child_patches : play_actions patch_writeable (new_patch (snapshot base)) on_child ≡ ok child_patch
unfolding play_actions patch_add patch_delete patch_delete_vector view_exists view_has_vector
    has_vector add_data_object delete_object exists_in get put remove lookup
child_patches = refl

they_merge : diff parent_patch child_patch ≡ ok merged
unfolding diff patch_add patch_delete view_exists view_select_all select_all add_data_object
    delete_object exists_in get put remove lookup
they_merge = refl

play_actions-Balanced_example :
    IsSnapshot child_tip × ((id : Ksuid) → Balanced id base child_tip on_child)
play_actions-Balanced_example =
    play_actions-Balanced on_child base child_tip base-IsSnapshot child_plays

new_commit_object-squashes_example :
    (u : Snapshot ℕ) × (play snapshot_writeable base (new_commit_object 0 stamp child_patch) ≡ ok u)
    × SameSnapshot u child_tip
new_commit_object-squashes_example =
    new_commit_object-squashes base on_child child_patch child_tip 0 stamp child_patches child_plays

diff-no_conflict_example : diff parent_patch child_patch ≢ err (delete_conflict 1)
diff-no_conflict_example =
    diff-no_conflict base parent_patch child_patch
      (Stands-run base on_parent (new_patch (snapshot base)) parent_patch base parent_tip
        (Stands-new base) parent_patches parent_plays).patch_ok
      (Stands-run base on_child (new_patch (snapshot base)) child_patch base child_tip
        (Stands-new base) child_patches child_plays).patch_ok
      (delete_conflict 1) tt

double_delete_breaks_example :
    play snapshot_writeable parent_tip (new_commit_object 5 stamp merged) ≡ err write_conflict
double_delete_breaks_example =
    double_delete_breaks base parent_tip on_parent on_child parent_patch child_patch merged
      child_tip 1 5 stamp parent_plays parent_patches child_plays child_patches refl refl they_merge

-- What reverts the parent's commit.
abbrev reverting : CommitObject ℕ
reverting = append_action (append_action (new_object 5 stamp) (delete 77 3)) (add 77 (object 1))

they_revert : revert parent_tip 5 stamp parent_patch ≡ ok reverting
unfolding revert select_all exists_in lookup view_lookup get
they_revert = refl

revert_restores_example :
    (u : Snapshot ℕ) × (play snapshot_writeable parent_tip reverting ≡ ok u)
    × (u.vectors ≡ parent_tip.vectors)
    × ((j : ℕ) → get j u.objects ≡ get j base.objects)
revert_restores_example =
    revert_restores base on_parent parent_patch parent_tip 5 stamp reverting base-IsSnapshot
      parent_patches parent_plays they_revert

-- On another branch's tip.
abbrev reverting_child : CommitObject ℕ
reverting_child = append_action (new_object 5 stamp) (add 77 (object 1))

they_revert_child : revert child_tip 5 stamp parent_patch ≡ ok reverting_child
unfolding revert select_all exists_in lookup view_lookup get
they_revert_child = refl

revert_replays_example :
    (u : Snapshot ℕ) × (play snapshot_writeable child_tip reverting_child ≡ ok u)
    × (u.vectors ≡ [])
    × ((j : ℕ)
        → get j u.objects ≡ (
            if has j parent_patch.diff.objects
            then none
            else if mem j (1 ∷ [])
            then over (get j child_tip.objects) (get j base.objects)
            else get j child_tip.objects))
revert_replays_example =
    revert_replays base parent_patch child_tip 5 stamp reverting_child
      (Stands-run base on_parent (new_patch (snapshot base)) parent_patch base parent_tip
        (Stands-new base) parent_patches parent_plays).patch_ok
      base-IsSnapshot.keyed they_revert_child

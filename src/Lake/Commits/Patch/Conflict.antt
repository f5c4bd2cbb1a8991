-- ===== src/Lake/Commits/Patch/Conflict.antt =====
-- The conflict checks of `Diff`.
use zed.Prelude.{
  ◌≡◌, refl, List, [], ◌∷◌, map, Bool, true, false, arith, Bool-cases, inl, inr, ◌⊎◌, ◌≢◌,
  if◌then◌else◌,
}
use zed.Prelude.Eq.{nat_eq}
use zed.Prelude.Dict.{has, mem, remove, get-remove}
use zed.Lake.Data.{Ksuid, DataObject}
use zed.Lake.Result.{
  Result, Error, ok, err, write_conflict, exists, not_found, parent_deletes, delete_conflict, ◌>>=◌,
}
use zed.Lake.Commits.Actions.{delete}
use zed.Lake.Commits.Snapshot.{Snapshot, play_actions, snapshot_writeable, delete_object}
use zed.Lake.Commits.Patch.{
  Patch, as_view, view_exists, patch_add, patch_delete, new_patch, diff, diff_adds, diff_deletes,
  view_select_all,
}
use zed.Lake.Commits.Patch.Replay.{IsPatch}
use zed.Lake.Commits.Patch.Views.{
  view_exists-patch, mem-AllIn, patch_add_errors, patch_delete_errors,
}

-- The two errors by which `Diff` reports a conflict.
abbrev pub IsConflict : Error → Type 0
IsConflict (parent_deletes _) = Unit {0}
IsConflict (delete_conflict _) = Unit {0}
IsConflict _ = ⊥

abbrev NoConflict {ℓ} : {A : Type ℓ} → Result A → Type 0
NoConflict (ok _) = Unit {0}
NoConflict (err e) = ¬ IsConflict e

NoConflict-bind {ℓ κ} :
    {A : Type ℓ} {B : Type κ} (m : Result A) (f : A → Result B)
    → NoConflict m
    → ((a : A) → NoConflict (f a))
    → NoConflict (m >>= f)
NoConflict-bind (ok a) f h k = k a
NoConflict-bind (err e) f h k = h

NoConflict-if {ℓ} :
    {A : Type ℓ} (b : Bool) (r q : Result A)
    → (b ≡ true → NoConflict r)
    → (b ≡ false → NoConflict q)
    → NoConflict (if b then r else q)
NoConflict-if true r q h k = h refl
NoConflict-if false r q h k = k refl

module _ {Val : Type 0} where
  add_NoConflict : (o : DataObject Val) (p : Patch Val) → NoConflict (patch_add o p)
  add_NoConflict o p = go (patch_add o p) (patch_add_errors o p)
    where
      go :
          (r : Result (Patch Val))
          → ((e : Error) → r ≡ err e → (e ≡ exists) ⊎ (e ≡ write_conflict))
          → NoConflict r
      go (ok x) h = tt
      go (err e) h = elim (h e refl) [ inl q ↦ rw q (λ z. z) | inr q ↦ rw q (λ z. z) ]

  delete_NoConflict : (id : Ksuid) (p : Patch Val) → NoConflict (patch_delete id p)
  delete_NoConflict id p = go (patch_delete id p) (patch_delete_errors id p)
    where
      go :
          (r : Result (Patch Val))
          → ((e : Error) → r ≡ err e → (e ≡ not_found) ⊎ (e ≡ write_conflict))
          → NoConflict r
      go (ok x) h = tt
      go (err e) h = elim (h e refl) [ inl q ↦ rw q (λ z. z) | inr q ↦ rw q (λ z. z) ]

module _ {Val : Type 0} (s : Snapshot Val) (parent child : Patch Val) (hp : IsPatch s parent)
    (hc : IsPatch s child) where
  -- What the child deletes is in the common base, where the parent's view finds it whatever the
  -- parent deletes.
  child_delete_exists :
      (id : Ksuid) → mem id child.deleted_objects ≡ true → view_exists id (as_view parent) ≡ true
  child_delete_exists id m = ground (
    arith,
    view_exists-patch id s parent hp.based,
    mem-AllIn id child.deleted_objects s.objects hc.objects.present m,
  )

  adds_NoConflict :
      (os : List (DataObject Val)) (p : Patch Val) (dirty : Bool)
      → NoConflict (diff_adds parent child.deleted_objects os p dirty)
  unfolding diff_adds
  adds_NoConflict [] p dirty = tt
  adds_NoConflict (o ∷ os) p dirty =
      NoConflict-if (view_exists o.id (as_view parent)) _ _ (λ _. adds_NoConflict os p dirty)
        (λ e.
          NoConflict-if (mem o.id child.deleted_objects) _ _ (λ m. cc (child_delete_exists o.id m))
            (λ _.
              NoConflict-bind (patch_add o p) _ (add_NoConflict o p)
                (λ p'. adds_NoConflict os p' true)))

  deletes_NoConflict :
      (ids : List Ksuid) (p : Patch Val) (dirty : Bool)
      → ((id : Ksuid) → mem id ids ≡ true → mem id child.deleted_objects ≡ true)
      → NoConflict (diff_deletes parent ids p dirty)
  unfolding diff_deletes
  deletes_NoConflict [] p dirty h = tt
  deletes_NoConflict (id ∷ ids) p dirty h =
      NoConflict-if (view_exists id (as_view parent)) _ _
        (λ _.
          NoConflict-bind (patch_delete id p) _ (delete_NoConflict id p)
            (λ p'. deletes_NoConflict ids p' true (λ j m. h j (ground arith))))
        (λ e. cc (child_delete_exists id (h id (ground arith))))

  diff_NoConflict : NoConflict (diff parent child)
  unfolding diff
  diff_NoConflict =
      NoConflict-bind
        (diff_adds parent child.deleted_objects (view_select_all (as_view child))
          (new_patch (as_view parent)) false)
        _ (adds_NoConflict (view_select_all (as_view child)) (new_patch (as_view parent)) false)
        (λ r.
          NoConflict-bind (diff_deletes parent child.deleted_objects r.0 r.1) _
            (deletes_NoConflict child.deleted_objects r.0 r.1 (λ id m. m))
            (λ r'. NoConflict-if r'.1 _ _ (λ _. tt) (λ _ z. z)))

  -- For two patches over one snapshot, as a merge of two branches has them over the common
  -- ancestor, `Diff` never returns a conflict, neither of a deletion nor of an addition, whatever
  -- the two patches add and delete.
  pub diff-no_conflict : (e : Error) → IsConflict e → diff parent child ≢ err e
  diff-no_conflict e c h = go (diff parent child) h diff_NoConflict
    where
      go : (r : Result (Patch Val)) → r ≡ err e → NoConflict r → ⊥
      go (ok x) q n = cc
      go (err e') q n = n (rw (let z : e' ≡ e = cc in z) c)

-- What a run of deletions does without an object that it deletes.
module _ {Val : Type 0} where
  pub play_deletes_missing :
      (c : Ksuid) (id : Ksuid) (ids : List Ksuid) (t : Snapshot Val)
      → mem id ids ≡ true
      → has id t.objects ≡ false
      → play_actions snapshot_writeable t (map (delete c) ids) ≡ err write_conflict
  unfolding play_actions delete_object
  play_deletes_missing c id [] t m h = cc
  play_deletes_missing c id (j ∷ ids) t m h = elim (Bool-cases (has j t.objects)) [
    | inl e ↦ rw e (
        play_deletes_missing c id ids (record t { objects = remove j t.objects }) (ground arith)
          (ground (arith, get-remove j id t.objects)))
    | inr e ↦ rw e
  ]

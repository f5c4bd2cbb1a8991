-- ===== src/Lake/Commits/Patch/DoubleDelete.antt =====
-- A merge of two branches that both delete one object.
use zed.Prelude.{
  ◌≡◌, refl, ◌∙◌, List, [], ◌∷◌, map, Bool, true, false, arith, Bool-cases, inl, inr, ◌⊎◌,
  if◌then◌else◌, ◌==◌,
}
use zed.Prelude.Eq.{nat_eq}
use zed.Prelude.Dict.{get, has, mem, get-put, get-remove}
use zed.Lake.Data.{Ksuid, DataObject}
use zed.Lake.Result.{ok, err, write_conflict, Ensures, Ensures-ok, Ensures-if, Ensures-bind}
use zed.Lake.Commits.Actions.{Action, Stamp, delete, new_object}
use zed.Lake.Commits.Snapshot.{
  Snapshot, play, play_actions, snapshot_writeable, delete_object, exists_in, add_data_object,
}
use zed.Lake.Commits.Snapshot.Play.{play_actions-append}
use zed.Lake.Commits.Patch.{
  snapshot, Patch, as_view, view_exists, patch_add, patch_delete, new_patch, diff, diff_adds,
  diff_deletes, new_commit_object, patch_actions, view_select_all, patch_writeable,
}
use zed.Lake.Commits.Patch.Replay.{IsPatch, actions-append_all}
use zed.Lake.Commits.Patch.Squash.{Stands-run, Stands-new}
use zed.Lake.Commits.Patch.Entries.{mem-snoc, get_fresh}
use zed.Lake.Commits.Patch.Inverse.{has-lookup}
use zed.Lake.Commits.Patch.Views.{view_exists-patch, mem-AllIn}
use zed.Lake.Commits.Patch.Conflict.{play_deletes_missing}

module _ {Val : Type 0} (parent : Patch Val) (dels : List Ksuid) (id : Ksuid)
    (known : view_exists id (as_view parent) ≡ true) where
  -- The patch that `Diff` builds has the parent for its base and never adds an object that the
  -- parent shows.
  abbrev Clean : Patch Val → Type 0
  Clean p = (has id p.diff.objects ≡ false) × (p.base ≡ as_view parent)

  add-Clean :
      (o : DataObject Val) (p : Patch Val)
      → view_exists o.id (as_view parent) ≡ false
      → Clean p
      → Ensures Clean (patch_add o p)
  unfolding patch_add add_data_object
  add-Clean o p n h =
      Ensures-if Clean (view_exists o.id p.base) _ _ (λ _. tt)
        (λ _.
          Ensures-bind Clean (λ d. has id d.objects ≡ false)
            (if has o.id p.diff.objects then _ else _) _
            (Ensures-if (λ d. has id d.objects ≡ false) (has o.id p.diff.objects) _ _ (λ _. tt)
              (λ _. ground (arith, get-put o.id id o p.diff.objects, h.0, known, n)))
            (λ d e. (e, h.1)))

  adds-Clean :
      (os : List (DataObject Val)) (p : Patch Val) (dirty : Bool)
      → Clean p
      → Ensures (λ r. Clean r.0) (diff_adds parent dels os p dirty)
  unfolding diff_adds
  adds-Clean [] p dirty h = h
  adds-Clean (o ∷ os) p dirty h =
      Ensures-if (λ r. Clean r.0) (view_exists o.id (as_view parent)) _ _
        (λ _. adds-Clean os p dirty h)
        (λ n.
          Ensures-if (λ r. Clean r.0) (mem o.id dels) _ _ (λ _. tt)
            (λ _.
              Ensures-bind (λ r. Clean r.0) Clean (patch_add o p) _ (add-Clean o p n h)
                (λ p' h'. adds-Clean os p' true h')))

  -- A deletion goes to the list of deletions, not to the difference.
  abbrev Deleting : List Ksuid → Ksuid → Patch Val → Type 0
  Deleting before j p' =
      Clean p'
      × (mem id before ≡ true → mem id p'.deleted_objects ≡ true)
      × (j ≡ id → mem id p'.deleted_objects ≡ true)

  delete-Clean :
      (j : Ksuid) (p : Patch Val)
      → Clean p
      → Ensures (Deleting p.deleted_objects j) (patch_delete j p)
  unfolding patch_delete delete_object exists_in
  delete-Clean j p h = elim (Bool-cases (has j p.diff.objects)) [
    | inl e ↦
        rw (has-lookup j p.diff ∙ e, e)
          (
            ((ground (arith, get-remove j id p.diff.objects, h.0)), h.1),
            (λ m. m),
            (λ q. ground (arith, h.0)),
          )
    | inr e ↦ rw (has-lookup j p.diff ∙ e) (
        Ensures-if (Deleting p.deleted_objects j) (view_exists j p.base) _ _
          (λ _. (
            h,
            (λ m. ground (arith, mem-snoc id j p.deleted_objects)),
            (λ q. ground (arith, mem-snoc id j p.deleted_objects)),
          ))
          (λ _. tt))
  ]

  abbrev Deleted : Patch Val × Bool → Type 0
  Deleted r = mem id r.0.deleted_objects ≡ true

  deletes_keep :
      (ids : List Ksuid) (p : Patch Val) (dirty : Bool)
      → Clean p
      → (mem id ids ≡ true) ⊎ (mem id p.deleted_objects ≡ true)
      → Ensures Deleted (diff_deletes parent ids p dirty)
  unfolding diff_deletes
  deletes_keep [] p dirty h m = ground arith
  deletes_keep (j ∷ ids) p dirty h m =
      Ensures-if Deleted (view_exists j (as_view parent)) _ _
        (λ _.
          Ensures-bind Deleted (Deleting p.deleted_objects j) (patch_delete j p) _
            (delete-Clean j p h) (λ p' h'. deletes_keep ids p' true h'.0 (next p' h')))
        (λ _. tt)
    where
      next :
          (p' : Patch Val)
          → Deleting p.deleted_objects j p'
          → (mem id ids ≡ true) ⊎ (mem id p'.deleted_objects ≡ true)
      next p' h' = elim m [
        | inr x ↦ inr (h'.1 x)
        | inl x ↦ elim (Bool-cases (j == id)) [
          | inl y ↦ inr (h'.2 (ground arith))
          | inr y ↦ inl (ground arith)
        ]
      ]

module _ {Val : Type 0} (s : Snapshot Val) (parent child : Patch Val) (hp : IsPatch s parent)
    (hc : IsPatch s child) (id : Ksuid) (m : mem id child.deleted_objects ≡ true) where
  diff_deletes_it : {d : Patch Val} → diff parent child ≡ ok d → mem id d.deleted_objects ≡ true
  unfolding diff
  diff_deletes_it {d} e =
      let known : view_exists id (as_view parent) ≡ true = ground (
        arith,
        view_exists-patch id s parent hp.based,
        mem-AllIn id child.deleted_objects s.objects hc.objects.present m,
      ) in
      Ensures-ok (λ d. mem id d.deleted_objects ≡ true) (diff parent child)
        (Ensures-bind _ (λ r. Clean parent child.deleted_objects id known r.0)
          (diff_adds parent child.deleted_objects (view_select_all (as_view child))
            (new_patch (as_view parent)) false)
          _
          (adds-Clean parent child.deleted_objects id known (view_select_all (as_view child))
            (new_patch (as_view parent)) false (unfold get in refl, refl))
          (λ r h.
            Ensures-bind _ (λ r'. mem id r'.0.deleted_objects ≡ true)
              (diff_deletes parent child.deleted_objects r.0 r.1) _
              (deletes_keep parent child.deleted_objects id known child.deleted_objects r.0 r.1 h
                (inl m))
              (λ r' q.
                Ensures-if (λ d. mem id d.deleted_objects ≡ true) r'.1 _ _ (λ _. q) (λ _. tt))))
        e

-- Replaying the commit object of a patch that deletes what is not there.
play-deletes_missing :
    {Val : Type 0} (d : Patch Val) (id : Ksuid) (t : Snapshot Val) (parent : Ksuid) (st : Stamp Val)
    → mem id d.deleted_objects ≡ true
    → has id t.objects ≡ false
    → play snapshot_writeable t (new_commit_object parent st d) ≡ err write_conflict
unfolding play new_commit_object
play-deletes_missing d id t parent st m h = rw (
  actions-append_all (new_object parent st) (patch_actions st.commit d),
  play_actions-append snapshot_writeable t (map (delete st.commit) d.deleted_objects),
  play_deletes_missing st.commit id d.deleted_objects t m h,
)

-- Let two branches each have committed actions on one ancestor, and let both have deleted an
-- object of it. If `Diff` of the two patches makes a patch, then the commit object that the merge
-- puts on the parent's tip can not be replayed there: the replay ends in a write conflict.
pub double_delete_breaks :
    {Val : Type 0} (s t : Snapshot Val) (on_parent on_child : List (Action Val))
    (parent child d : Patch Val) (u : Snapshot Val) (id : Ksuid) (tip : Ksuid) (st : Stamp Val)
    → play_actions snapshot_writeable s on_parent ≡ ok t
    → play_actions patch_writeable (new_patch (snapshot s)) on_parent ≡ ok parent
    → play_actions snapshot_writeable s on_child ≡ ok u
    → play_actions patch_writeable (new_patch (snapshot s)) on_child ≡ ok child
    → mem id parent.deleted_objects ≡ true
    → mem id child.deleted_objects ≡ true
    → diff parent child ≡ ok d
    → play snapshot_writeable t (new_commit_object tip st d) ≡ err write_conflict
double_delete_breaks s t on_parent on_child parent child d u id tip st ht hp hu hc mp mc e =
    let p = Stands-run s on_parent (new_patch (snapshot s)) parent s t (Stands-new s) hp ht in
    let c = Stands-run s on_child (new_patch (snapshot s)) child s u (Stands-new s) hc hu in
    let there : has id s.objects ≡ true =
      mem-AllIn id child.deleted_objects s.objects c.patch_ok.objects.present mc in
    let gone : has id t.objects ≡ false = elim (Bool-cases (has id parent.diff.objects)) [
      | inl y ↦
          ground (arith, get_fresh id parent.diff.objects s.objects p.patch_ok.objects.fresh y)
      | inr y ↦ ground (arith, p.objects id)
    ] in
    play-deletes_missing d id t tip st
      (diff_deletes_it s parent child p.patch_ok c.patch_ok id mc e) gone

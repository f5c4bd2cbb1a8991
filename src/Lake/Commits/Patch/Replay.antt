-- ===== src/Lake/Commits/Patch/Replay.antt =====
-- The commit object of a well-formed patch replays on the base.
use zed.Prelude.{◌≡◌, ◌∙◌, List, [], ◌∷◌, ◌++◌, append_assoc, append-nil, arith}
use zed.Prelude.Eq.{nat_eq}
use zed.Prelude.Dict.{Dict, put_all, remove_all, get-remove_all}
use zed.Lake.Data.{Ksuid}
use zed.Lake.Result.{ok}
use zed.Lake.Commits.Actions.{Action, CommitObject, Stamp, new_object, append_action, append_all}
use zed.Lake.Commits.Snapshot.{Snapshot, play_actions, play, snapshot_writeable}
use zed.Lake.Commits.Snapshot.Play.{
  IsKeyed, AllFresh, play_actions-append, play_deletes, play_adds, play_delete_vectors,
  play_add_vectors,
}
use zed.Lake.Commits.Patch.Entries.{Overlay}
use zed.Lake.Commits.Patch.{snapshot, Patch, new_commit_object, patch_actions}

-- What the operations keep of a patch over `s`, but for a KSUID that is deleted twice.
pub record IsPatch {Val : Type 0} (s : Snapshot Val) (p : Patch Val) : Type 0 where
  pub based : p.base ≡ snapshot s
  pub keyed : IsKeyed p.diff.objects
  pub objects : Overlay s.objects p.diff.objects p.deleted_objects
  pub vectors : Overlay s.vectors p.diff.vectors p.deleted_vectors

-- The snapshot that the patch stands for.
abbrev pub patched : {Val : Type 0} → Snapshot Val → Patch Val → Snapshot Val
patched s p = record {
  objects = put_all (remove_all p.deleted_objects s.objects) p.diff.objects;
  vectors = put_all (remove_all p.deleted_vectors s.vectors) p.diff.vectors;
}

pub actions-append_all :
    {Val : Type 0} (o : CommitObject Val) (as' : List (Action Val))
    → (append_all o as').actions ≡ o.actions ++ as'
unfolding append_all
actions-append_all o [] = rw append-nil
actions-append_all o (a ∷ as') =
    actions-append_all (append_action o a) as' ∙ append_assoc o.actions (a ∷ []) as'

AllFresh-remove_all :
    {V : Type 0} (es : Dict Ksuid V) (ks : List Ksuid) (d : Dict Ksuid V)
    → AllFresh es d
    → AllFresh es (remove_all ks d)
AllFresh-remove_all [] ks d h = tt
AllFresh-remove_all ((k, v) ∷ es) ks d h =
    (ground (arith, get-remove_all k ks d, h.0), AllFresh-remove_all es ks d h.1)

module _ {Val : Type 0} (s : Snapshot Val) (p : Patch Val) (h : IsPatch s p) where
  open h use {keyed, objects, vectors}

  play-patch_actions :
      (c : Ksuid) → play_actions snapshot_writeable s (patch_actions c p) ≡ ok (patched s p)
  play-patch_actions c =
      let s₁ : Snapshot Val = record s { objects = remove_all p.deleted_objects s.objects } in
      let s₂ : Snapshot Val = record s { objects = put_all s₁.objects p.diff.objects } in
      let s₃ : Snapshot Val = record s₂ { vectors = remove_all p.deleted_vectors s.vectors } in
      rw
        (
          play_actions-append,
          play_deletes c p.deleted_objects s objects.once objects.present,
          play_actions-append,
          play_adds c p.diff.objects s₁ objects.map keyed
              (AllFresh-remove_all p.diff.objects p.deleted_objects s.objects objects.fresh),
          play_actions-append,
          play_delete_vectors c p.deleted_vectors s₂ vectors.once vectors.present,
        )
        (play_add_vectors c p.diff.vectors s₃ vectors.map
          (AllFresh-remove_all p.diff.vectors p.deleted_vectors s.vectors vectors.fresh))

  pub play-new_commit_object :
      (parent : Ksuid) (st : Stamp Val)
      → play snapshot_writeable s (new_commit_object parent st p) ≡ ok (patched s p)
  unfolding play new_commit_object
  play-new_commit_object parent st =
      rw (actions-append_all (new_object parent st) (patch_actions st.commit p))
        (play-patch_actions st.commit)

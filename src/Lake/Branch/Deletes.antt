-- ===== src/Lake/Branch/Deletes.antt =====
-- The commit objects of `Delete`, replayed on the tip that they were made for.
use zed.Prelude.{subst, ◌≡◌, refl, List, [], ◌∷◌, ◌++◌, map, true, arith, Bool-cases, inl, inr}
use zed.Prelude.Eq.{nat_eq}
use zed.Prelude.Dict.{has, remove, remove_all, mem, Distinct, get-remove}
use zed.Lake.Data.{Ksuid, DataObject}
use zed.Lake.Result.{ok, err, write_conflict, >>=-eq_ok}
use zed.Lake.Commits.Actions.{Stamp, CommitObject, delete, new_object, new_deletes_object}
use zed.Lake.Commits.Snapshot.{
  Snapshot, delete_object, play, play_action, play_actions, snapshot_writeable, lookup,
}
use zed.Lake.Commits.Snapshot.Play.{AllIn, play_deletes}
use zed.Lake.Commits.Patch.Conflict.{play_deletes_missing}
use zed.Lake.Commits.Patch.Replay.{actions-append_all}
use zed.Lake.Branch.Create.{all_found, delete_object_of}

module _ {Val : Type 0} where
  all_found-AllIn :
      (ids : List Ksuid) (s : Snapshot Val) → all_found ids s ≡ ok tt → AllIn ids s.objects
  unfolding all_found lookup
  all_found-AllIn [] s h = tt
  all_found-AllIn (id ∷ ids) s h =
      let (o, l, rest) = >>=-eq_ok (lookup id s) (λ _. all_found ids s) h in
      (found l, all_found-AllIn ids s rest)
    where
      found : {o : DataObject Val} → lookup id s ≡ ok o → has id s.objects ≡ true
      found l = ground arith

  play-new_deletes_object :
      (ids : List Ksuid) (s : Snapshot Val) (parent : Ksuid) (st : Stamp Val)
      → Distinct ids
      → AllIn ids s.objects
      → play snapshot_writeable s (new_deletes_object parent st ids)
        ≡ ok (record s { objects = remove_all ids s.objects })
  unfolding play play_actions play_action new_deletes_object new_object
  play-new_deletes_object ids s parent st d a =
      rw (actions-append_all (new_object parent st) (map (delete st.commit) ids))
        (play_deletes st.commit ids s d a)

  -- If `Delete` makes a commit object of KSUIDs that differ from each other, it replays on the
  -- snapshot that it was made for, to the snapshot without those objects.
  pub delete_replays :
      (ids : List Ksuid) (s : Snapshot Val) (parent : Ksuid) (st : Stamp Val) (o : CommitObject Val)
      → Distinct ids
      → delete_object_of ids parent st s ≡ ok o
      → play snapshot_writeable s o ≡ ok (record s { objects = remove_all ids s.objects })
  unfolding delete_object_of
  delete_replays ids s parent st o d h =
      let (u, found, made) =
        >>=-eq_ok (all_found ids s) (λ _. ok (new_deletes_object parent st ids)) h in
      let p : new_deletes_object parent st ids ≡ o = cc in
      subst
        (λ x. play snapshot_writeable s x ≡ ok (record s { objects = remove_all ids s.objects })) p
        (play-new_deletes_object ids s parent st d (all_found-AllIn ids s found))

  play_deletes_twice :
      (c id : Ksuid) (before after : List Ksuid) (s : Snapshot Val)
      → mem id after ≡ true
      → play_actions snapshot_writeable s (map (delete c) (before ++ (id ∷ after)))
        ≡ err write_conflict
  unfolding play_actions delete_object
  play_deletes_twice c id [] after s m = elim (Bool-cases (has id s.objects)) [
    | inl p ↦ rw p (
        play_deletes_missing c id after (record s { objects = remove id s.objects }) m
          (ground (arith, get-remove id id s.objects, nat_eq.beq_iff id id)))
    | inr p ↦ rw p refl
  ]
  play_deletes_twice c id (b ∷ before) after s m = elim (Bool-cases (has b s.objects)) [
    | inl p ↦
        rw p (play_deletes_twice c id before after (record s { objects = remove b s.objects }) m)
    | inr p ↦ rw p refl
  ]

  play-new_deletes_twice :
      (id : Ksuid) (before after : List Ksuid) (s : Snapshot Val) (parent : Ksuid) (st : Stamp Val)
      → mem id after ≡ true
      → play snapshot_writeable s (new_deletes_object parent st (before ++ (id ∷ after)))
        ≡ err write_conflict
  unfolding play play_actions play_action new_deletes_object new_object
  play-new_deletes_twice id before after s parent st m =
      rw
        (actions-append_all (new_object parent st)
          (map (delete st.commit) (before ++ (id ∷ after))))
        (play_deletes_twice st.commit id before after s m)

  -- If `Delete` is given a KSUID twice and makes a commit object, then that object can not be
  -- replayed on the snapshot that it was made for: the replay ends in a write conflict.
  pub delete_twice_breaks :
      (id : Ksuid) (before after : List Ksuid) (s : Snapshot Val) (parent : Ksuid) (st : Stamp Val)
      (o : CommitObject Val)
      → mem id after ≡ true
      → delete_object_of (before ++ (id ∷ after)) parent st s ≡ ok o
      → play snapshot_writeable s o ≡ err write_conflict
  unfolding delete_object_of
  delete_twice_breaks id before after s parent st o m h =
      let ids = before ++ (id ∷ after) in
      let (u, found, made) =
        >>=-eq_ok (all_found ids s) (λ _. ok (new_deletes_object parent st ids)) h in
      let p : new_deletes_object parent st ids ≡ o = cc in
      subst (λ x. play snapshot_writeable s x ≡ err write_conflict) p
        (play-new_deletes_twice id before after s parent st m)

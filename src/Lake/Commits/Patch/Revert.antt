-- ===== src/Lake/Commits/Patch/Revert.antt =====
-- `Revert`: the commit object that it makes, replayed on the tip.
use zed.Prelude.{
  ◌≡◌, refl, sym, ◌∙◌, subst, List, [], ◌∷◌, Bool, true, false, Option, none, some, arith,
  Bool-cases, inl, inr, ◌==◌, if◌then◌else◌, length,
}
use zed.Prelude.Eq.{nat_eq}
use zed.Prelude.Dict.{Dict, get, has, mem, values, over}
use zed.Lake.Data.{Ksuid, DataObject}
use zed.Lake.Result.{ok, >>=-eq_ok, empty_revert}
use zed.Lake.Commits.Actions.{Action, CommitObject, Stamp, new_object}
use zed.Lake.Commits.Snapshot.{Snapshot, play, play_actions, snapshot_writeable, select_all}
use zed.Lake.Commits.Snapshot.Play.{IsKeyed}
use zed.Lake.Commits.Patch.{
  snapshot, Patch, new_patch, patch_writeable, revert, revert_adds, revert_deletes,
}
use zed.Lake.Commits.Patch.Entries.{get_fresh}
use zed.Lake.Commits.Patch.Replay.{IsPatch}
use zed.Lake.Commits.Patch.Squash.{Stands, Stands-run, Stands-new}
use zed.Lake.Commits.Patch.Views.{mem-AllIn}
use zed.Lake.Commits.Snapshot.Serial.{guarded, IsSnapshot}
use zed.Lake.Commits.Patch.RevertSteps.{ids_of, mem-ids_of, ids_of-Distinct, SameOn-refl, get-none}
use zed.Lake.Commits.Patch.RevertLoops.{adds_lem, deletes_lem, SameOn-adds, play-new_object}

module _ {Val : Type 0} where
  get-IsKeyed :
      (d : Dict Ksuid (DataObject Val))
      → IsKeyed d
      → (j : Ksuid) (o : DataObject Val) → get j d ≡ some o
      → o.id ≡ j
  unfolding get
  get-IsKeyed [] h j o e = cc
  get-IsKeyed ((k, w) ∷ d) h j o e = elim (Bool-cases (nat_eq.beq k j)) [
    | inl p ↦
        (let q = (nat_eq.beq_iff k j).0 p in
          let r : w ≡ o = (let z = rw p at e in cc) in rw (← r) (sym h.0 ∙ q))
    | inr p ↦ get-IsKeyed d h.1 j o (rw p at e)
  ]

  -- A patch deletes objects of its base, and its own objects are not in the base.
  disjoint :
      (s : Snapshot Val) (p : Patch Val)
      → IsPatch s p
      → (j : Ksuid) → mem j p.deleted_objects ≡ true
      → has j p.diff.objects ≡ false
  disjoint s p h j m = elim (Bool-cases (has j p.diff.objects)) [
    | inl q ↦
        let n = get_fresh j p.diff.objects s.objects h.objects.fresh q in
        let y = mem-AllIn j p.deleted_objects s.objects h.objects.present m in
        absurd (ground (arith, n, y))
    | inr q ↦ q
  ]

  -- The two loops together, on one KSUID.
  reverted :
      (added deleted : Bool) (l b t : Option (DataObject Val))
      → (deleted ≡ true → added ≡ false)
      → l ≡ (if added then none else t)
      → (if deleted then over l b else l)
        ≡ (if added then none else if deleted then over t b else t)
  reverted true true l b t d e = let z = d refl in cc
  reverted true false l b t d e = e
  reverted false true l b t d e = rw e refl
  reverted false false l b t d e = e

  pub revert_replays :
      (s : Snapshot Val) (p : Patch Val) (tip : Snapshot Val) (parent : Ksuid) (st : Stamp Val)
      (o : CommitObject Val)
      → IsPatch s p
      → IsKeyed s.objects
      → revert tip parent st p ≡ ok o
      → (u : Snapshot Val) × (play snapshot_writeable tip o ≡ ok u)
        × (u.vectors ≡ tip.vectors)
        × ((j : Ksuid)
            → get j u.objects ≡ (
                if has j p.diff.objects
                then none
                else if mem j p.deleted_objects
                then over (get j tip.objects) (get j s.objects)
                else get j tip.objects))
  unfolding revert select_all
  revert_replays s p tip parent st o h k e =
      let os = values p.diff.objects in
      let a =
        adds_lem tip os (new_object parent st) tip
          (ids_of-Distinct p.diff.objects h.keyed h.objects.map)
          (SameOn-refl (ids_of os) tip.objects) (play-new_object tip parent st) in
      let (o₁, e₁, e₂) =
        >>=-eq_ok
          (revert_deletes tip p.base p.deleted_objects (revert_adds tip os (new_object parent st)))
          _ e in
      let q : o₁ ≡ o = guarded (length o₁.actions == 1) empty_revert o₁ e₂ in
      let b =
        deletes_lem tip s p.base p.deleted_objects (revert_adds tip os (new_object parent st)) o₁
          a.left h.based (get-IsKeyed s.objects k) h.objects.once
          (SameOn-adds (ids_of os) p.deleted_objects a.left.objects tip.objects
            (λ j m. mem-ids_of j p.diff.objects h.keyed ∙ disjoint s p h j m) a.objects)
          a.plays e₁ in
      (
        b.left,
        subst (λ x. play snapshot_writeable tip x ≡ ok b.left) q b.plays,
        b.vectors ∙ a.vectors,
        λ j.
            b.objects j
            ∙ reverted (has j p.diff.objects) (mem j p.deleted_objects) (get j a.left.objects)
                (get j s.objects) (get j tip.objects) (λ m. disjoint s p h j m)
                (let w = a.objects j in rw (mem-ids_of j p.diff.objects h.keyed) at w),
      )

  -- What the patch made of the snapshot, undone on one KSUID.
  undone :
      (s : Snapshot Val) (p : Patch Val) (tip : Snapshot Val)
      → Stands s p tip
      → (j : Ksuid)
      → (if has j p.diff.objects
          then none
          else if mem j p.deleted_objects
          then over (get j tip.objects) (get j s.objects)
          else get j tip.objects)
        ≡ get j s.objects
  undone s p tip h j = elim (Bool-cases (has j p.diff.objects)) [
    | inl q ↦
        let n = get_fresh j p.diff.objects s.objects h.patch_ok.objects.fresh q in rw (q, n) refl
    | inr q ↦ let n = get-none j p.diff.objects q in ground (arith, h.objects j, n)
  ]

  -- Let a well-formed snapshot accept a sequence of actions, and a new patch over it too. If `Revert`
  -- of that patch makes a commit object for the tip that the actions lead to, then it replays on the
  -- tip with no error and gives the objects of the snapshot back. It leaves the vectors as they are.
  pub revert_restores :
      (s : Snapshot Val) (as' : List (Action Val)) (p : Patch Val) (tip : Snapshot Val)
      (parent : Ksuid) (st : Stamp Val) (o : CommitObject Val)
      → IsSnapshot s
      → play_actions patch_writeable (new_patch (snapshot s)) as' ≡ ok p
      → play_actions snapshot_writeable s as' ≡ ok tip
      → revert tip parent st p ≡ ok o
      → (u : Snapshot Val) × (play snapshot_writeable tip o ≡ ok u)
        × (u.vectors ≡ tip.vectors)
        × ((j : Ksuid) → get j u.objects ≡ get j s.objects)
  revert_restores s as' p tip parent st o k hp ht e =
      let h = Stands-run s as' (new_patch (snapshot s)) p s tip (Stands-new s) hp ht in
      let (u, plays, vs, os) = revert_replays s p tip parent st o h.patch_ok k.keyed e in
      (u, plays, vs, λ j. os j ∙ undone s p tip h j)

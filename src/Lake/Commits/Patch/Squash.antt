-- ===== src/Lake/Commits/Patch/Squash.antt =====
-- A patch squashes a sequence of actions: its commit object has the effect of all of them.
use zed.Prelude.{◌≡◌, refl, sym, ◌∙◌, List, [], ◌∷◌, Bool, true, false, inl, inr, if◌then◌else◌}
use zed.Prelude.Eq.{nat_eq}
use zed.Prelude.Dict.{get, put, remove, has}
use zed.Lake.Data.{Ksuid, DataObject}
use zed.Lake.Result.{Error, ok, err, >>=-eq_ok}
use zed.Lake.Commits.Actions.{Action, Stamp, add, add_vector, delete, delete_vector, commit}
use zed.Lake.Commits.Snapshot.{
  Snapshot, play_action, play_actions, play, snapshot_writeable, add_data_object, delete_object,
  add_vector_of, delete_vector_of,
}
use zed.Lake.Commits.Snapshot.Serial.{
  SameSnapshot, IsKeyed-put, IsKeyed-remove, guarded, guarded_not,
}
use mathlib.Core.Path.{subst₂}
use zed.Lake.Commits.Patch.{snapshot, Patch, new_patch, patch_writeable, new_commit_object}
use zed.Lake.Commits.Patch.Entries.{
  Shows, Overlay-put, Overlay-remove, Overlay-delete, Shows-put, Shows-remove, Shows-delete,
  Shows-patched,
}
use zed.Lake.Commits.Patch.Inverse.{
  patch_add_ok, patch_delete_ok, patch_add_vector_ok, patch_delete_vector_ok, put_object,
  drop_object, delete_base, put_vector, drop_vector, delete_base_vector,
}
use zed.Lake.Commits.Patch.Replay.{IsPatch, patched, play-new_commit_object}

-- `t` is what the patch `p` makes of `s`.
pub record Stands {Val : Type 0} (s : Snapshot Val) (p : Patch Val) (t : Snapshot Val)
    : Type 0 where
  pub patch_ok : IsPatch s p
  pub objects : Shows s.objects p.diff.objects p.deleted_objects t.objects
  pub vectors : Shows s.vectors p.diff.vectors p.deleted_vectors t.vectors

module _ {Val : Type 0} (s : Snapshot Val) (p : Patch Val) (t : Snapshot Val)
    (h : Stands s p t) where
  open h use {patch_ok as ok', objects as os, vectors as vs}

  Stands-add :
      (o : DataObject Val)
      → has o.id s.objects ≡ false
      → Stands s (put_object o p) (record t { objects = put o.id o t.objects })
  Stands-add o e = record {
    patch_ok = record {
      based = ok'.based;
      keyed = IsKeyed-put o p.diff.objects ok'.keyed;
      objects = Overlay-put ok'.objects o.id o e;
      vectors = ok'.vectors;
    };
    objects = Shows-put ok'.objects t.objects os o.id o;
    vectors = vs;
  }

  Stands-drop :
      (id : Ksuid)
      → has id p.diff.objects ≡ true
      → Stands s (drop_object id p) (record t { objects = remove id t.objects })
  Stands-drop id e = record {
    patch_ok = record {
      based = ok'.based;
      keyed = IsKeyed-remove id p.diff.objects ok'.keyed;
      objects = Overlay-remove ok'.objects id;
      vectors = ok'.vectors;
    };
    objects = Shows-remove ok'.objects t.objects os id e;
    vectors = vs;
  }

  Stands-delete :
      (id : Ksuid)
      → has id p.diff.objects ≡ false
      → has id s.objects ≡ true
      → has id t.objects ≡ true
      → Stands s (delete_base id p) (record t { objects = remove id t.objects })
  Stands-delete id e b u = record {
    patch_ok = record {
      based = ok'.based;
      keyed = ok'.keyed;
      objects = Overlay-delete ok'.objects t.objects os id e b u;
      vectors = ok'.vectors;
    };
    objects = Shows-delete ok'.objects t.objects os id e;
    vectors = vs;
  }

  Stands-add_vector :
      (id : Ksuid)
      → has id s.vectors ≡ false
      → Stands s (put_vector id p) (record t { vectors = put id tt t.vectors })
  Stands-add_vector id e = record {
    patch_ok = record {
      based = ok'.based;
      keyed = ok'.keyed;
      objects = ok'.objects;
      vectors = Overlay-put ok'.vectors id tt e;
    };
    objects = os;
    vectors = Shows-put ok'.vectors t.vectors vs id tt;
  }

  Stands-drop_vector :
      (id : Ksuid)
      → has id p.diff.vectors ≡ true
      → Stands s (drop_vector id p) (record t { vectors = remove id t.vectors })
  Stands-drop_vector id e = record {
    patch_ok = record {
      based = ok'.based;
      keyed = ok'.keyed;
      objects = ok'.objects;
      vectors = Overlay-remove ok'.vectors id;
    };
    objects = os;
    vectors = Shows-remove ok'.vectors t.vectors vs id e;
  }

  Stands-delete_vector :
      (id : Ksuid)
      → has id p.diff.vectors ≡ false
      → has id s.vectors ≡ true
      → has id t.vectors ≡ true
      → Stands s (delete_base_vector id p) (record t { vectors = remove id t.vectors })
  Stands-delete_vector id e b u = record {
    patch_ok = record {
      based = ok'.based;
      keyed = ok'.keyed;
      objects = ok'.objects;
      vectors = Overlay-delete ok'.vectors t.vectors vs id e b u;
    };
    objects = os;
    vectors = Shows-delete ok'.vectors t.vectors vs id e;
  }

-- The test that a guarded step passed.
passed {ℓ} :
    {A : Type ℓ} (b : Bool) (e : Error) (x : A) {t : A}
    → (if b then ok x else err e) ≡ ok t
    → b ≡ true
passed true e x h = refl
passed false e x h = cc

module _ {Val : Type 0} (s : Snapshot Val) where
  -- One action that both accept keeps the patch and the snapshot in step.
  Stands-step :
      (a : Action Val) (p p' : Patch Val) (t t' : Snapshot Val)
      → Stands s p t
      → play_action patch_writeable p a ≡ ok p'
      → play_action snapshot_writeable t a ≡ ok t'
      → Stands s p' t'
  unfolding play_action add_data_object delete_object add_vector_of delete_vector_of
  Stands-step (add c o) p p' t t' h hp ht =
      let (e, _, q) = patch_add_ok s p p' h.patch_ok.based o hp in
      subst₂ (Stands s) q (guarded _ _ _ ht) (Stands-add s p t h o e)
  Stands-step (delete c id) p p' t t' h hp ht =
      elim (patch_delete_ok s p p' h.patch_ok.based id hp) [
        | inl (e, q) ↦ subst₂ (Stands s) q (guarded_not _ _ _ ht) (Stands-drop s p t h id e)
        | inr (e, b, q) ↦
            subst₂ (Stands s) q (guarded_not _ _ _ ht)
              (Stands-delete s p t h id e b (passed _ _ _ ht))
      ]
  Stands-step (add_vector c id) p p' t t' h hp ht =
      let (e, _, q) = patch_add_vector_ok s p p' h.patch_ok.based id hp in
      subst₂ (Stands s) q (guarded _ _ _ ht) (Stands-add_vector s p t h id e)
  Stands-step (delete_vector c id) p p' t t' h hp ht =
      elim (patch_delete_vector_ok s p p' h.patch_ok.based id hp) [
        | inl (e, q) ↦ subst₂ (Stands s) q (guarded_not _ _ _ ht) (Stands-drop_vector s p t h id e)
        | inr (e, b, q) ↦
            subst₂ (Stands s) q (guarded_not _ _ _ ht)
              (Stands-delete_vector s p t h id e b (passed _ _ _ ht))
      ]
  Stands-step (commit i) p p' t t' h hp ht =
      subst₂ (Stands s) (let q : p ≡ p' = cc in q) (let q : t ≡ t' = cc in q) h

  pub Stands-run :
      (as' : List (Action Val)) (p p' : Patch Val) (t t' : Snapshot Val)
      → Stands s p t
      → play_actions patch_writeable p as' ≡ ok p'
      → play_actions snapshot_writeable t as' ≡ ok t'
      → Stands s p' t'
  unfolding play_actions
  Stands-run [] p p' t t' h hp ht =
      subst₂ (Stands s) (let q : p ≡ p' = cc in q) (let q : t ≡ t' = cc in q) h
  Stands-run (a ∷ as') p p' t t' h hp ht =
      let (p₁, one, rest) =
        >>=-eq_ok (play_action patch_writeable p a) (λ w. play_actions patch_writeable w as') hp in
      let (t₁, one', rest') =
        >>=-eq_ok (play_action snapshot_writeable t a) (λ w. play_actions snapshot_writeable w as')
          ht in
      Stands-run as' p₁ p' t₁ t' (Stands-step a p p₁ t t₁ h one one') rest rest'

  pub Stands-new : Stands s (new_patch (snapshot s)) s
  unfolding get
  Stands-new = record {
    patch_ok = record {
      based = refl;
      keyed = tt;
      objects = record { map = tt; fresh = tt; present = tt; once = tt };
      vectors = record { map = tt; fresh = tt; present = tt; once = tt };
    };
    objects = λ id. refl;
    vectors = λ id. refl;
  }

  -- Let a snapshot accept a sequence of actions, and a new patch over it too. Then the commit
  -- object made of the patch replays on the snapshot with no error, and the result has the same
  -- objects and the same vectors as the sequence of actions itself gives.
  pub new_commit_object-squashes :
      (as' : List (Action Val)) (p : Patch Val) (t : Snapshot Val) (parent : Ksuid) (st : Stamp Val)
      → play_actions patch_writeable (new_patch (snapshot s)) as' ≡ ok p
      → play_actions snapshot_writeable s as' ≡ ok t
      → (u : Snapshot Val) × (play snapshot_writeable s (new_commit_object parent st p) ≡ ok u)
        × SameSnapshot u t
  new_commit_object-squashes as' p t parent st hp ht =
      let h = Stands-run as' (new_patch (snapshot s)) p s t Stands-new hp ht in
      (
        patched s p,
        play-new_commit_object s p h.patch_ok parent st,
        record {
          objects = λ id. Shows-patched h.patch_ok.objects id ∙ sym (h.objects id);
          vectors = λ id. Shows-patched h.patch_ok.vectors id ∙ sym (h.vectors id);
        },
      )

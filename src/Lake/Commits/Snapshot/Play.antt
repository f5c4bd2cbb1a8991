-- ===== src/Lake/Commits/Snapshot/Play.antt =====
-- Replaying runs of actions of one kind into a snapshot.
use zed.Prelude.{◌≡◌, refl, List, [], ◌∷◌, ◌++◌, map, true, false, none, arith}
use zed.Prelude.Eq.{nat_eq}
use zed.Prelude.Dict.{
  Dict, get, put, remove, has, put_all, remove_all, keys, values, mem, Distinct, IsMap, get-put,
  get-remove,
}
use zed.Lake.Data.{Ksuid, DataObject}
use zed.Lake.Result.{Result, ok, err, ◌>>=◌}
use zed.Lake.Commits.Actions.{Action, add, add_vector, delete, delete_vector}
use zed.Lake.Commits.Snapshot.{
  Snapshot, Writeable, play_action, play_actions, snapshot_writeable, add_data_object,
  delete_object, add_vector_of, delete_vector_of,
}

module _ {Val W : Type 0} (iface : Writeable Val W) where
  pub play_actions-append :
      (w : W) (xs ys : List (Action Val))
      → play_actions iface w (xs ++ ys)
        ≡ (play_actions iface w xs >>= λ w'. play_actions iface w' ys)
  unfolding play_actions
  play_actions-append w [] ys = refl
  play_actions-append w (x ∷ xs) ys =
      go (play_action iface w x) (λ w'. play_actions-append w' xs ys)
    where
      go :
          (r : Result W)
          → ((w' : W)
              → play_actions iface w' (xs ++ ys)
                ≡ (play_actions iface w' xs >>= λ w''. play_actions iface w'' ys))
          → (r >>= λ w'. play_actions iface w' (xs ++ ys))
            ≡ ((r >>= λ w'. play_actions iface w' xs) >>= λ w'. play_actions iface w' ys)
      go (ok w') h = h w'
      go (err e) h = refl

-- Every entry stands under its object's own KSUID.
abbrev pub IsKeyed : {Val : Type 0} → Dict Ksuid (DataObject Val) → Type 0
IsKeyed [] = Unit {0}
IsKeyed ((k, o) ∷ d) = (k ≡ o.id) × IsKeyed d

-- Every one of the keys is there; no key of the entries is there.
abbrev pub AllIn : {V : Type 0} → List Ksuid → Dict Ksuid V → Type 0
AllIn [] d = Unit {0}
AllIn (k ∷ ks) d = (has k d ≡ true) × AllIn ks d

abbrev pub AllFresh : {V : Type 0} → Dict Ksuid V → Dict Ksuid V → Type 0
AllFresh [] d = Unit {0}
AllFresh ((k, _) ∷ es) d = (get k d ≡ none) × AllFresh es d

AllIn-remove :
    {V : Type 0} (k : Ksuid) (ks : List Ksuid) (d : Dict Ksuid V)
    → mem k ks ≡ false
    → AllIn ks d
    → AllIn ks (remove k d)
AllIn-remove k [] d h a = tt
AllIn-remove k (j ∷ ks) d h a =
    (ground (arith, get-remove k j d, a.0), AllIn-remove k ks d (ground arith) a.1)

AllFresh-put :
    {V : Type 0} (k : Ksuid) (v : V) (es d : Dict Ksuid V)
    → get k es ≡ none
    → AllFresh es d
    → AllFresh es (put k v d)
unfolding get
AllFresh-put k v [] d h a = tt
AllFresh-put k v ((j, w) ∷ es) d h a =
    (ground (arith, get-put k j v d, a.0), AllFresh-put k v es d (ground arith) a.1)

module _ {Val : Type 0} where
  pub play_deletes :
      (c : Ksuid) (ids : List Ksuid) (s : Snapshot Val)
      → Distinct ids
      → AllIn ids s.objects
      → play_actions snapshot_writeable s (map (delete c) ids)
        ≡ ok (record s { objects = remove_all ids s.objects })
  unfolding play_actions remove_all delete_object
  play_deletes c [] s h a = refl
  play_deletes c (id ∷ ids) s h a = rw a.0 (
      play_deletes c ids (record s { objects = remove id s.objects }) h.1
        (AllIn-remove id ids s.objects h.0 a.1))

  pub play_delete_vectors :
      (c : Ksuid) (ids : List Ksuid) (s : Snapshot Val)
      → Distinct ids
      → AllIn ids s.vectors
      → play_actions snapshot_writeable s (map (delete_vector c) ids)
        ≡ ok (record s { vectors = remove_all ids s.vectors })
  unfolding play_actions remove_all delete_vector_of
  play_delete_vectors c [] s h a = refl
  play_delete_vectors c (id ∷ ids) s h a = rw a.0 (
      play_delete_vectors c ids (record s { vectors = remove id s.vectors }) h.1
        (AllIn-remove id ids s.vectors h.0 a.1))

  pub play_adds :
      (c : Ksuid) (es : Dict Ksuid (DataObject Val)) (s : Snapshot Val)
      → IsMap es
      → IsKeyed es
      → AllFresh es s.objects
      → play_actions snapshot_writeable s (map (add c) (values es))
        ≡ ok (record s { objects = put_all s.objects es })
  unfolding play_actions put_all add_data_object
  play_adds c [] s m k a = refl
  play_adds c ((i, o) ∷ es) s m k a =
      rw (k.0, (rw k.0 at a.0))
        (play_adds c es (record s { objects = put o.id o s.objects }) m.1 k.1
          (AllFresh-put o.id o es s.objects (rw k.0 at m.0) a.1))

  pub play_add_vectors :
      (c : Ksuid) (es : Dict Ksuid (Unit {0})) (s : Snapshot Val)
      → IsMap es
      → AllFresh es s.vectors
      → play_actions snapshot_writeable s (map (add_vector c) (keys es))
        ≡ ok (record s { vectors = put_all s.vectors es })
  unfolding play_actions put_all add_vector_of
  play_add_vectors c [] s m a = refl
  play_add_vectors c ((i, o) ∷ es) s m a = rw a.0 (
      play_add_vectors c es (record s { vectors = put i tt s.vectors }) m.1
        (AllFresh-put i tt es s.vectors m.0 a.1))

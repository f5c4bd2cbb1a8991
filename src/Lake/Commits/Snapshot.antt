-- ===== src/Lake/Commits/Snapshot.antt =====
-- lake/commits/snapshot.go: the objects and vectors of a pool at one commit, and the replay of
-- actions into whatever can be written.
pub mod Play
pub mod Serial
pub mod Balance
use zed.Prelude.{ℕ, List, [], ◌∷◌, ◌++◌, map, Bool, true, false, Option, none, some, if◌then◌else◌}
use zed.Prelude.Eq.{nat_eq}
use zed.Prelude.Dict.{Dict, get, put, remove, has, put_all, keys, values}
use zed.Lake.Data.{Ksuid, nil_ksuid, DataObject}
use zed.Lake.Result.{Result, ok, err, write_conflict, not_found, ◌>>=◌, is_ok}
use zed.Lake.Commits.Actions.{Action, add, add_vector, delete, delete_vector, commit, CommitObject}

pub record Snapshot (Val : Type 0) : Type 0 where
  pub objects : Dict Ksuid (DataObject Val)
  pub vectors : Dict Ksuid (Unit {0})

-- The interface `Writeable`, as far as `PlayAction` calls it.
pub record Writeable (Val W : Type 0) : Type 0 where
  pub add_data_object : DataObject Val → W → Result W
  pub delete_object : Ksuid → W → Result W
  pub add_vector_of : Ksuid → W → Result W
  pub delete_vector_of : Ksuid → W → Result W

module _ {Val : Type 0} where
  abbrev pub new_snapshot : Snapshot Val
  new_snapshot = record { objects = []; vectors = [] }

  unfoldable pub add_data_object : DataObject Val → Snapshot Val → Result (Snapshot Val)
  add_data_object object s =
      if has object.id s.objects
      then err write_conflict
      else ok (record s { objects = put object.id object s.objects })

  unfoldable pub delete_object : Ksuid → Snapshot Val → Result (Snapshot Val)
  delete_object id s =
      if has id s.objects
      then ok (record s { objects = remove id s.objects })
      else err write_conflict

  unfoldable pub add_vector_of : Ksuid → Snapshot Val → Result (Snapshot Val)
  add_vector_of id s =
      if has id s.vectors
      then err write_conflict
      else ok (record s { vectors = put id tt s.vectors })

  unfoldable pub delete_vector_of : Ksuid → Snapshot Val → Result (Snapshot Val)
  delete_vector_of id s =
      if has id s.vectors
      then ok (record s { vectors = remove id s.vectors })
      else err write_conflict

  unfoldable pub lookup : Ksuid → Snapshot Val → Result (DataObject Val)
  lookup id s = elim (get id s.objects) [ none ↦ err not_found | some o ↦ ok o ]

  unfoldable pub exists_in : Ksuid → Snapshot Val → Bool
  unfolding lookup
  exists_in id s = is_ok (lookup id s)

  unfoldable pub has_vector : Ksuid → Snapshot Val → Bool
  has_vector id s = has id s.vectors

  unfoldable pub select_all : Snapshot Val → List (DataObject Val)
  select_all s = values s.objects

  unfoldable pub copy : Snapshot Val → Snapshot Val
  unfolding put_all
  copy s = record { objects = put_all [] s.objects; vectors = put_all [] s.vectors }

  -- The actions that `serialize` writes; they name no commit.
  unfoldable pub serialize : Snapshot Val → List (Action Val)
  serialize s =
      map (add nil_ksuid) (values s.objects) ++ map (add_vector nil_ksuid) (keys s.vectors)

  abbrev pub snapshot_writeable : Writeable Val (Snapshot Val)
  snapshot_writeable = record {
    add_data_object = add_data_object;
    delete_object = delete_object;
    add_vector_of = add_vector_of;
    delete_vector_of = delete_vector_of;
  }

module _ {Val W : Type 0} (iface : Writeable Val W) where
  unfoldable pub play_action : W → Action Val → Result W
  play_action w (add _ object) = iface.add_data_object object w
  play_action w (delete _ id) = iface.delete_object id w
  play_action w (add_vector _ id) = iface.add_vector_of id w
  play_action w (delete_vector _ id) = iface.delete_vector_of id w
  play_action w (commit _) = ok w

  -- The loop over the actions, which stops at the first error.
  unfoldable pub play_actions : W → List (Action Val) → Result W
  unfolding play_action
  play_actions w [] = ok w
  play_actions w (a ∷ as') = play_action w a >>= λ w'. play_actions w' as'

  unfoldable pub play : W → CommitObject Val → Result W
  unfolding play_actions
  play w o = play_actions w o.actions

-- `decodeSnapshot` after the deserialiser: every entry is an action.
unfoldable pub decode_snapshot : {Val : Type 0} → List (Action Val) → Result (Snapshot Val)
unfolding play_actions
decode_snapshot entries = play_actions snapshot_writeable new_snapshot entries

module _ {Val : Type 0} where
  -- The loop of `Vectors`, which drops the error of `AddDataObject`.
  unfoldable pub vectors_loop : (Ksuid → Bool) → List (DataObject Val) → Snapshot Val → Snapshot Val
  unfolding add_data_object
  vectors_loop has_vec [] snap = snap
  vectors_loop has_vec (o ∷ os) snap =
      let added : Snapshot Val = elim (add_data_object o snap) [ ok s ↦ s | err _ ↦ snap ] in
      vectors_loop has_vec os (if has_vec o.id then added else snap)

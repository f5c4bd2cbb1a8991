-- ===== src/Lake/Commits/Actions.antt =====
-- lake/commits/actions.go and object.go: the actions of a commit, and the commit objects that are
-- built of them. The new commit's KSUID and the time, which the code draws, are arguments.
use Prim.Native.String.{String}
use zed.Lake.Result.{Result, ok, err, bad_commit_object, empty_transaction}
use zed.Prelude.{ℕ, ◌%◌, List, [], ◌∷◌, ◌++◌, map}
use zed.Prelude.Int.{ℤ}
use zed.Lake.Data.{Ksuid, nil_ksuid, DataObject}

-- The struct `Commit`.
pub record CommitInfo (Val : Type 0) : Type 0 where
  pub id : Ksuid
  pub parent : Ksuid
  pub retries : ℕ
  pub author : String
  pub date : ℤ
  pub message : String
  pub meta : Val

pub data Action (Val : Type 0) : Type 0 where
  add : Ksuid → DataObject Val → Action Val
  add_vector : Ksuid → Ksuid → Action Val
  delete : Ksuid → Ksuid → Action Val
  delete_vector : Ksuid → Ksuid → Action Val
  commit : CommitInfo Val → Action Val

unfoldable pub commit_id : {Val : Type 0} → Action Val → Ksuid
commit_id (add c o) = c
commit_id (add_vector c id) = c
commit_id (delete c id) = c
commit_id (delete_vector c id) = c
commit_id (commit i) = i.id

-- The struct `Object` of a commit.
pub record CommitObject (Val : Type 0) : Type 0 where
  pub commit : Ksuid
  pub parent : Ksuid
  pub actions : List (Action Val)

-- What `NewObject` draws and is given, but for the parent.
pub record Stamp (Val : Type 0) : Type 0 where
  pub commit : Ksuid
  pub now : ℤ
  pub retries : ℕ
  pub author : String
  pub message : String
  pub meta : Val

module _ {Val : Type 0} where
  unfoldable pub new_object : Ksuid → Stamp Val → CommitObject Val
  new_object parent s = record {
    commit = s.commit;
    parent = parent;
    actions =
        commit (record {
          id = s.commit;
          parent = parent;
          retries = s.retries % 256;
          author = s.author;
          date = s.now;
          message = s.message;
          meta = s.meta;
        })
        ∷ [];
  }

  -- `append`
  unfoldable pub append_action : CommitObject Val → Action Val → CommitObject Val
  append_action o a = record o { actions = o.actions ++ (a ∷ []) }

  -- The loops that append one action for each element.
  unfoldable pub append_all : CommitObject Val → List (Action Val) → CommitObject Val
  unfolding append_action
  append_all o [] = o
  append_all o (a ∷ as') = append_all (append_action o a) as'

  unfoldable pub new_adds_object : Ksuid → Stamp Val → List (DataObject Val) → CommitObject Val
  unfolding new_object append_all
  new_adds_object parent s objects = append_all (new_object parent s) (map (add s.commit) objects)

  unfoldable pub new_deletes_object : Ksuid → Stamp Val → List Ksuid → CommitObject Val
  unfolding new_object append_all
  new_deletes_object parent s ids = append_all (new_object parent s) (map (delete s.commit) ids)

  unfoldable pub new_add_vectors_object : Ksuid → Stamp Val → List Ksuid → CommitObject Val
  unfolding new_object append_all
  new_add_vectors_object parent s ids =
      append_all (new_object parent s) (map (add_vector s.commit) ids)

  unfoldable pub new_delete_vectors_object : Ksuid → Stamp Val → List Ksuid → CommitObject Val
  unfolding new_object append_all
  new_delete_vectors_object parent s ids =
      append_all (new_object parent s) (map (delete_vector s.commit) ids)

  -- `Serialize`, at the level of the actions that a file holds: with none it is empty.
  unfoldable pub serialize_object : CommitObject Val → Result (List (Action Val))
  serialize_object o = elim o.actions [ [] ↦ err empty_transaction | a ∷ as' ↦ ok (a ∷ as') ]

  -- `DecodeObject`, whose deserialiser finds actions only.
  unfoldable pub decode_object : List (Action Val) → Result (CommitObject Val)
  decode_object [] = ok (record { commit = nil_ksuid; parent = nil_ksuid; actions = [] })
  decode_object (commit i ∷ as') =
      ok (record { commit = i.id; parent = i.parent; actions = commit i ∷ as' })
  decode_object (_ ∷ _) = err bad_commit_object

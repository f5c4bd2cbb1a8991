-- ===== src/Lake/Commits/Snapshot/Balance.antt =====
-- How many of the actions on a KSUID a replay accepts: `PlayAction` and the methods of `Snapshot` that
-- it calls, of lake/commits/snapshot.go.
use zed.Prelude.{
  ℕ, ◌+◌, ◌≡◌, refl, List, [], ◌∷◌, Bool, true, false, arith, ◌==◌, Bool-cases, inl, inr, subst,
  if◌then◌else◌, ==_iff,
}
use zed.Prelude.Eq.{nat_eq}
use zed.Prelude.Dict.{Dict, put, remove, has, get-put, get-remove}
use zed.Lake.Data.{Ksuid}
use zed.Lake.Result.{Error, ok, err, >>=-eq_ok}
use zed.Lake.Commits.Actions.{Action, add, add_vector, delete, delete_vector, commit}
use zed.Lake.Commits.Snapshot.{
  Snapshot, play_action, play_actions, snapshot_writeable, add_data_object, delete_object,
  add_vector_of, delete_vector_of,
}
use zed.Lake.Commits.Snapshot.Serial.{IsSnapshot, play_actions-IsSnapshot}

abbrev one : Bool → ℕ
one true = 1
one false = 0

-- What an action adds and deletes of one KSUID: the object, and the vector.
module _ {Val : Type 0} (id : Ksuid) where
  abbrev added : Action Val → ℕ
  added (add c o) = one (o.id == id)
  added _ = 0

  abbrev deleted : Action Val → ℕ
  deleted (delete c k) = one (k == id)
  deleted _ = 0

  abbrev vector_added : Action Val → ℕ
  vector_added (add_vector c k) = one (k == id)
  vector_added _ = 0

  abbrev vector_deleted : Action Val → ℕ
  vector_deleted (delete_vector c k) = one (k == id)
  vector_deleted _ = 0

abbrev total : {Val : Type 0} → (Action Val → ℕ) → List (Action Val) → ℕ
total f [] = 0
total f (a ∷ as') = f a + total f as'

put_balance :
    {V : Type 0} (k id : Ksuid) (v : V) (d : Dict Ksuid V)
    → has k d ≡ false
    → one (has id (put k v d)) ≡ one (has id d) + one (k == id)
put_balance k id v d h = elim (Bool-cases (k == id)) [
  | inl p ↦ rw (get-put k id v d, p, subst (λ i. has i d ≡ false) ((==_iff k id).0 p) h) refl
  | inr p ↦ rw (get-put k id v d, p) (omega arith)
]

remove_balance :
    {V : Type 0} (k id : Ksuid) (d : Dict Ksuid V)
    → has k d ≡ true
    → one (has id (remove k d)) + one (k == id) ≡ one (has id d)
remove_balance k id d h = elim (Bool-cases (k == id)) [
  | inl p ↦ rw (get-remove k id d, p, subst (λ i. has i d ≡ true) ((==_iff k id).0 p) h) refl
  | inr p ↦ rw (get-remove k id d, p) (omega arith)
]

refused {ℓ} :
    {A : Type ℓ} (b : Bool) (e : Error) (x : A) {t : A}
    → (if b then err e else ok x) ≡ ok t
    → (b ≡ false) × (x ≡ t)
refused true e x h = cc
refused false e x h = (refl, cc)

required {ℓ} :
    {A : Type ℓ} (b : Bool) (e : Error) (x : A) {t : A}
    → (if b then ok x else err e) ≡ ok t
    → (b ≡ true) × (x ≡ t)
required true e x h = (refl, cc)
required false e x h = cc

module _ {Val : Type 0} (id : Ksuid) where
  -- The accounts of one KSUID over some actions.
  pub record Balanced (s t : Snapshot Val) (as' : List (Action Val)) : Type 0 where
    pub objects :
        one (has id s.objects) + total (added id) as'
        ≡ one (has id t.objects) + total (deleted id) as'
    pub vectors :
        one (has id s.vectors) + total (vector_added id) as'
        ≡ one (has id t.vectors) + total (vector_deleted id) as'

  action_Balanced :
      (a : Action Val) (s t : Snapshot Val)
      → play_action snapshot_writeable s a ≡ ok t
      → Balanced s t (a ∷ [])
  unfolding play_action add_data_object delete_object add_vector_of delete_vector_of
  action_Balanced (add c o) s t e =
      let (free, q) = refused _ _ _ e in
      rw (← q)
        (record { objects = omega (arith, put_balance o.id id o s.objects free); vectors = refl })
  action_Balanced (delete c k) s t e =
      let (there, q) = required _ _ _ e in
      rw (← q)
        (record { objects = omega (arith, remove_balance k id s.objects there); vectors = refl })
  action_Balanced (add_vector c k) s t e =
      let (free, q) = refused _ _ _ e in
      rw (← q)
        (record { objects = refl; vectors = omega (arith, put_balance k id tt s.vectors free) })
  action_Balanced (delete_vector c k) s t e =
      let (there, q) = required _ _ _ e in
      rw (← q)
        (record { objects = refl; vectors = omega (arith, remove_balance k id s.vectors there) })
  action_Balanced (commit i) s t e =
      let q : s ≡ t = cc in rw (← q) (record { objects = refl; vectors = refl })

  actions_Balanced :
      (as' : List (Action Val)) (s t : Snapshot Val)
      → play_actions snapshot_writeable s as' ≡ ok t
      → Balanced s t as'
  unfolding play_actions
  actions_Balanced [] s t e =
      let q : s ≡ t = cc in rw (← q) (record { objects = refl; vectors = refl })
  actions_Balanced (a ∷ as') s t e =
      let (s', one_step, rest) =
        >>=-eq_ok (play_action snapshot_writeable s a) (λ w. play_actions snapshot_writeable w as')
          e in
      let first = action_Balanced a s s' one_step in
      let others = actions_Balanced as' s' t rest in
      record {
        objects = omega (arith, first.objects, others.objects);
        vectors = omega (arith, first.vectors, others.vectors);
      }

-- Actions that are replayed with success on a well-formed snapshot leave a well-formed one, and the
-- accounts of every KSUID are even: being there at the start and its additions are as many as
-- being there at the end and its deletions, for objects and for vectors.
pub play_actions-Balanced :
    {Val : Type 0} (as' : List (Action Val)) (s t : Snapshot Val)
    → IsSnapshot s
    → play_actions snapshot_writeable s as' ≡ ok t
    → IsSnapshot t × ((id : Ksuid) → Balanced id s t as')
play_actions-Balanced as' s t h e =
    (play_actions-IsSnapshot as' s h e, λ id. actions_Balanced id as' s t e)

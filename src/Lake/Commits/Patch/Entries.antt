-- ===== src/Lake/Commits/Patch/Entries.antt =====
-- The conditions on a patch's lists and maps, under the changes that its operations make.
use zed.Prelude.{
  ◌≡◌, refl, List, [], ◌∷◌, ◌++◌, true, false, none, arith, Bool-cases, inl, inr, ◌||◌, ◌==◌,
  if◌then◌else◌,
}
use zed.Prelude.Eq.{nat_eq}
use zed.Prelude.Dict.{
  Dict, get, put, remove, has, mem, Distinct, get-put, get-remove, IsMap, IsMap-put, IsMap-remove,
  over, put_all, remove_all, get-put_all, get-remove_all,
}
use zed.Lake.Data.{Ksuid}
use zed.Lake.Commits.Snapshot.Play.{AllIn, AllFresh}

module _ {V : Type 0} where
  pub get_fresh :
      (k : Ksuid) (es d : Dict Ksuid V) → AllFresh es d → has k es ≡ true → get k d ≡ none
  unfolding get
  get_fresh k [] d h e = cc
  get_fresh k ((j, v) ∷ es) d h e = elim (Bool-cases (nat_eq.beq j k)) [
    | inl p ↦ ground (arith, h.0)
    | inr p ↦ get_fresh k es d h.1 (rw p at e)
  ]

  AllFresh-put_entry :
      (k : Ksuid) (v : V) (es d : Dict Ksuid V)
      → get k d ≡ none
      → AllFresh es d
      → AllFresh (put k v es) d
  unfolding put
  AllFresh-put_entry k v [] d e h = (e, tt)
  AllFresh-put_entry k v ((j, w) ∷ es) d e h = elim (Bool-cases (nat_eq.beq j k)) [
    | inl p ↦ rw p (e, h.1)
    | inr p ↦ rw p (h.0, AllFresh-put_entry k v es d e h.1)
  ]

  AllFresh-remove_entry :
      (k : Ksuid) (es d : Dict Ksuid V) → AllFresh es d → AllFresh (remove k es) d
  unfolding remove
  AllFresh-remove_entry k [] d h = tt
  AllFresh-remove_entry k ((j, w) ∷ es) d h = elim (Bool-cases (nat_eq.beq j k)) [
    | inl p ↦ rw p (AllFresh-remove_entry k es d h.1)
    | inr p ↦ rw p (h.0, AllFresh-remove_entry k es d h.1)
  ]

  AllIn-snoc :
      (k : Ksuid) (ks : List Ksuid) (d : Dict Ksuid V)
      → has k d ≡ true
      → AllIn ks d
      → AllIn (ks ++ (k ∷ [])) d
  AllIn-snoc k [] d e h = (e, tt)
  AllIn-snoc k (j ∷ ks) d e h = (h.0, AllIn-snoc k ks d e h.1)

pub mem-snoc : (j k : Ksuid) (ks : List Ksuid) → mem j (ks ++ (k ∷ [])) ≡ (mem j ks || (k == j))
mem-snoc j k [] = ground arith
mem-snoc j k (i ∷ ks) = ground (arith, mem-snoc j k ks)

Distinct-snoc :
    (k : Ksuid) (ks : List Ksuid) → mem k ks ≡ false → Distinct ks → Distinct (ks ++ (k ∷ []))
Distinct-snoc k [] e h = (refl, tt)
Distinct-snoc k (j ∷ ks) e h =
    (ground (arith, mem-snoc j k ks, h.0), Distinct-snoc k ks (ground arith) h.1)

-- The objects of a patch, or its vectors: those of the base, those of the difference, and the
-- KSUIDs that the patch deletes from the base.
pub record Overlay {V : Type 0} (base diff : Dict Ksuid V) (deleted : List Ksuid) : Type 0 where
  pub map : IsMap diff
  pub fresh : AllFresh diff base
  pub present : AllIn deleted base
  pub once : Distinct deleted

-- `t` holds what the overlay shows.
abbrev pub Shows : {V : Type 0} → Dict Ksuid V → Dict Ksuid V → List Ksuid → Dict Ksuid V → Type 0
Shows base diff deleted t =
    (id : Ksuid) → get id t ≡ over (get id diff) (if mem id deleted then none else get id base)

module _ {V : Type 0} {base diff : Dict Ksuid V} {deleted : List Ksuid}
    (h : Overlay base diff deleted) where
  pub Overlay-put : (k : Ksuid) (v : V) → has k base ≡ false → Overlay base (put k v diff) deleted
  Overlay-put k v e = record {
    map = IsMap-put k v diff h.map;
    fresh = AllFresh-put_entry k v diff base (ground arith) h.fresh;
    present = h.present;
    once = h.once;
  }

  pub Overlay-remove : (k : Ksuid) → Overlay base (remove k diff) deleted
  Overlay-remove k = record {
    map = IsMap-remove k diff h.map;
    fresh = AllFresh-remove_entry k diff base h.fresh;
    present = h.present;
    once = h.once;
  }

  module _ (t : Dict Ksuid V) (shows : Shows base diff deleted t) where
    pub Shows-put : (k : Ksuid) (v : V) → Shows base (put k v diff) deleted (put k v t)
    Shows-put k v id = ground (arith, shows id, get-put k id v t, get-put k id v diff)

    pub Shows-remove :
        (k : Ksuid) → has k diff ≡ true → Shows base (remove k diff) deleted (remove k t)
    Shows-remove k e id =
        ground (
          arith,
          shows id,
          get-remove k id t,
          get-remove k id diff,
          get_fresh k diff base h.fresh e,
        )

    -- The object that `t` still has was not deleted before.
    pub Overlay-delete :
        (k : Ksuid)
        → has k diff ≡ false
        → has k base ≡ true
        → has k t ≡ true
        → Overlay base diff (deleted ++ (k ∷ []))
    Overlay-delete k e b p = record {
      map = h.map;
      fresh = h.fresh;
      present = AllIn-snoc k deleted base b h.present;
      once = Distinct-snoc k deleted (ground (arith, shows k)) h.once;
    }

    pub Shows-delete :
        (k : Ksuid) → has k diff ≡ false → Shows base diff (deleted ++ (k ∷ [])) (remove k t)
    Shows-delete k e id = ground (arith, shows id, get-remove k id t, mem-snoc id k deleted)

  pub Shows-patched : Shows base diff deleted (put_all (remove_all deleted base) diff)
  Shows-patched id = rw (get-put_all id (remove_all deleted base) diff h.map, get-remove_all)

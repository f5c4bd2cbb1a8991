-- ===== src/Lake/Branch/Ancestor.antt =====
-- The common ancestor of a merge.
use zed.Prelude.{◌≡◌, ◌≢◌, refl, ap, List, [], ◌∷◌, ◌++◌, true, false, Bool-cases, inl, inr}
use zed.Prelude.Eq.{nat_eq}
use zed.Prelude.Dict.{mem}
use zed.Lake.Data.{Ksuid, nil_ksuid}
use zed.Lake.Branch.{common_ancestor}

-- None of the commits is among the others.
abbrev pub NoneIn : List Ksuid → List Ksuid → Type 0
NoneIn [] a = Unit {0}
NoneIn (id ∷ ids) a = (mem id a ≡ false) × NoneIn ids a

-- `c` is on both paths, and no commit before it on the second path is on the first.
pub record IsNearest (a b : List Ksuid) (c : Ksuid) : Type 0 where
  pub before : List Ksuid
  pub after : List Ksuid
  pub split : b ≡ before ++ (c ∷ after)
  pub shared : mem c a ≡ true
  pub first : NoneIn before a

-- Where `commonAncestor` is not Nil, it is the first commit of the second path that is on the first
-- path too.
pub common_ancestor-IsNearest :
    (a b : List Ksuid) → common_ancestor a b ≢ nil_ksuid → IsNearest a b (common_ancestor a b)
unfolding common_ancestor
common_ancestor-IsNearest a [] h = absurd (h refl)
common_ancestor-IsNearest a (id ∷ ids) h = elim (Bool-cases (mem id a)) [
  | inl p ↦ rw p (record { before = []; after = ids; split = refl; shared = p; first = tt })
  | inr p ↦
      let n = common_ancestor-IsNearest a ids (rw p at h) in
      rw p (record {
        before = id ∷ n.before;
        after = n.after;
        split = ap (λ l. id ∷ l) n.split;
        shared = n.shared;
        first = (p, n.first);
      })
]

-- ===== src/Lake/Commits/Cache.antt =====
-- The cache of github.com/hashicorp/golang-lru that the commit store keeps in front of its engine:
-- the operations that the store calls, and what it relies on, which is that a cache never returns
-- anything for a key but what was last added for it.
use zed.Prelude.{◌≡◌, ◌⊎◌, Option, some}
use zed.Lake.Data.{Ksuid}

-- `find` and `touch` are the two halves of `Get`: the answer, and what it does to the cache.
pub record Lru : Type 1 where
  pub State : Type 0 → Type 0
  pub find : {V : Type 0} → Ksuid → State V → Option V
  pub touch : {V : Type 0} → Ksuid → State V → State V
  pub insert : {V : Type 0} → Ksuid → V → State V → State V

-- Any entry may go at any time.
pub record IsCache (lru : Lru) : Type 1 where
  pub touched :
      {V : Type 0} (k j : Ksuid) (v : V) (s : lru.State V)
      → lru.find j (lru.touch k s) ≡ some v
      → lru.find j s ≡ some v
  pub inserted :
      {V : Type 0} (k j : Ksuid) (v w : V) (s : lru.State V)
      → lru.find j (lru.insert k v s) ≡ some w
      → ((j ≡ k) × (w ≡ v)) ⊎ (lru.find j s ≡ some w)

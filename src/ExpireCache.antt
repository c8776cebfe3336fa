-- ===== src/ExpireCache.antt =====
-- AccessExpireCache and ExpireCache of gradido_blockchain, as src/cache and src/blockchain call them: a
-- parameter with its operations and what the code relies on.
use gradido_node.Prelude.{◌≡◌, ◌≢◌, Option, some}

-- Reading counts as an access and so changes the cache.
pub record ExpireCache (K V C : Type 0) : Type 0 where
  pub add : K → V → C → C
  pub get : K → C → Option V × C
  pub clear : C → C

-- A value that was added is found, and the cache finds nothing that was not added: adding another key
-- and reading may only drop entries.
pub record IsCache {K V C : Type 0} (cache : ExpireCache K V C) : Type 0 where
  pub get-add : (c : C) (k : K) (v : V) → (cache.get k (cache.add k v c)).0 ≡ some v
  pub get-add_other :
      (c : C) (k j : K) (v w : V)
      → k ≢ j
      → (cache.get j (cache.add k v c)).0 ≡ some w
      → (cache.get j c).0 ≡ some w
  pub get-get :
      (c : C) (k j : K) (w : V)
      → (cache.get j (cache.get k c).1).0 ≡ some w
      → (cache.get j c).0 ≡ some w

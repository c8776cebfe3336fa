-- ===== src/Dictionary/Laws.antt =====
-- src/model/files/LevelDBWrapper.cpp: what the dictionary relies on in its level db file.
use gradido_node.Prelude.{true, ℕ, ◌≡◌, ◌≢◌, List, none, some}
use gradido_node.Dictionary.{Store}

-- A value whose put succeeded is found under its key, the other keys then keep theirs, and a folder that was
-- removed has none.
pub record IsStore {S : Type 0} (db : Store S) : Type 0 where
  pub get-set :
      (s : S) (k : ℕ) (v : List ℕ) → (db.set s k v).0 ≡ true → db.get (db.set s k v).1 k ≡ some v
  pub get-set_other :
      (s : S) (k j : ℕ) (v : List ℕ)
      → (db.set s k v).0 ≡ true
      → k ≢ j
      → db.get (db.set s k v).1 j ≡ db.get s j
  pub get-cleared : (s : S) (k : ℕ) → db.get (db.cleared s) k ≡ none

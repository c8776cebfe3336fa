-- ===== src/Tests/Stores.antt =====
-- A level db file and a cache that keep what was put last in front.
use gradido_node.Prelude.{
  ℕ, ◌≡◌, ◌≢◌, refl, List, [], ◌∷◌, Option, none, some, if◌then◌else◌, arith, Bool-cases, inl, inr,
}
use gradido_node.OrderedMap.{Map, find}
use gradido_node.IndexFile.Reader.{bytes_eq}
use gradido_node.IndexFile.RoundTrip.{bytes_eq_self, bytes_eq-eq}
use gradido_node.ExpireCache.{ExpireCache, IsCache}
use gradido_node.LevelDb.{LevelDb, fine}
use gradido_node.LevelDb.Laws.{IsLevelDb}

abbrev pub Folder : Type 0
Folder = List (List ℕ × List ℕ)

abbrev pub get_text : List ℕ → Folder → Option (List ℕ)
get_text k [] = none
get_text k ((j, v) ∷ d) = if bytes_eq j k then some v else get_text k d

abbrev pub level_db : LevelDb Folder
level_db = record {
  open_folder = λ d. (fine, d);
  get = get_text;
  put = λ k v d. (fine, (k, v) ∷ d);
  delete = λ k d. d;
  pairs = λ d. (d, fine);
  remove_all = λ d. [];
}

other_text : (k j v : List ℕ) (d : Folder) → k ≢ j → get_text j ((k, v) ∷ d) ≡ get_text j d
other_text k j v d ne = elim (Bool-cases (bytes_eq k j)) [
  | inl same ↦ absurd (ne (bytes_eq-eq k j same))
  | inr other ↦ rw other refl
]

pub level_db-IsLevelDb : IsLevelDb level_db
level_db-IsLevelDb = record {
  get-put = λ k v d e. rw (bytes_eq_self k) refl;
  get-put_other = λ k j v d e ne. other_text k j v d ne;
}

module _ {V : Type 0} where
  abbrev pub cache : ExpireCache ℕ V (Map V)
  cache = record { add = λ k v c. (k, v) ∷ c; get = λ k c. (find k c, c); clear = λ c. [] }

  pub cache-IsCache : IsCache cache
  unfolding find
  cache-IsCache = record {
    get-add = λ c k v. ground arith;
    get-add_other = λ c k j v w ne e. ground arith;
    get-get = λ c k j w e. e;
  }

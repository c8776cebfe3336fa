-- ===== src/Dictionary.antt =====
-- src/cache/Dictionary.{h,cpp}: the indices that stand for strings. The level db file is a parameter
-- with its operations, keyed by the index (the code keys it by the index in decimal). What a call that throws
-- has changed stays. `octet` is the SignatureOctet of a string, by which the reverse lookup is keyed.
pub mod Laws
pub mod Indices
use gradido_node.Prelude.{
  ℕ, ◌+◌, ◌%◌, ◌^◌, Bool, true, false, not, List, [], ◌∷◌, Option, none, some, ◌==◌, if◌then◌else◌,
  length, is_some, Outcome, ok, throw, ◌>>=◌, invalid_data, dictionary_not_found,
  dictionary_invalid_new_key, level_db_status,
}
use gradido_node.OrderedMap.{Map, find, insert}
use gradido_node.IndexFile.Reader.{bytes_eq}

-- LevelDBWrapper: `getValueForKey`, `reset` and the put of `setKeyValue`, which says whether it succeeded.
pub record Store (S : Type 0) : Type 0 where
  pub get : S → ℕ → Option (List ℕ)
  pub set : S → ℕ → List ℕ → Bool × S
  pub cleared : S → S

pub record Dictionary (S : Type 0) : Type 0 where
  pub last_index : ℕ
  pub file : S
  pub reverse_lookup : Map ℕ

-- The body of the loop in `findIndexForString`.
unfoldable pub same_or_zero : List ℕ → ℕ → Option (List ℕ) → ℕ
same_or_zero string i none = 0
same_or_zero string i (some value) = if bytes_eq string value then i else 0

module _ {S : Type 0} (db : Store S) (octet : List ℕ → ℕ) where
  -- The loop over the range of equal keys, which has one element at most.
  unfoldable pub confirm : S → List ℕ → Option ℕ → ℕ
  confirm file string none = 0
  confirm file string (some i) = same_or_zero string i (db.get file i)

  unfoldable pub find_index_for_string : List ℕ → Dictionary S → Outcome ℕ
  find_index_for_string [] d = throw invalid_data
  find_index_for_string (b ∷ bs) d =
      ok (confirm d.file (b ∷ bs) (find (octet (b ∷ bs)) d.reverse_lookup))

  unfoldable pub has_string : List ℕ → Dictionary S → Outcome Bool
  has_string string d = find_index_for_string string d >>= λ i. ok (not (i == 0))

  unfoldable pub get_index_for_string : List ℕ → Dictionary S → Outcome ℕ
  get_index_for_string string d =
      find_index_for_string string d >>= λ i. if i == 0 then throw dictionary_not_found else ok i

  unfoldable pub get_string_for_index : ℕ → Dictionary S → Outcome (List ℕ)
  get_string_for_index index d = elim (db.get d.file index) [
    | none ↦ throw dictionary_not_found
    | some value ↦ ok value
  ]

  unfoldable pub has_index : ℕ → Dictionary S → Bool
  has_index index d = is_some (db.get d.file index)

  -- The state after the put of a string, where it succeeded and where it failed.
  unfoldable pub kept : ℕ → List ℕ → Dictionary S → Dictionary S
  kept index string d = record {
    last_index = index;
    file = (db.set d.file index string).1;
    reverse_lookup = insert (octet string) index d.reverse_lookup;
  }

  unfoldable pub failed : ℕ → List ℕ → Dictionary S → Dictionary S
  failed index string d = record d { last_index = index; file = (db.set d.file index string).1 }

  -- The writes that `getOrAddIndexForString` and `addStringIndex` share. The last index is raised before
  -- the put, which may throw.
  unfoldable pub store : {A : Type 0} → A → ℕ → List ℕ → Dictionary S → Outcome A × Dictionary S
  store result index string d =
      if (db.set d.file index string).0
      then (ok result, kept index string d)
      else (throw level_db_status, failed index string d)

  unfoldable pub add_if_missing : List ℕ → Dictionary S → ℕ → Outcome ℕ × Dictionary S
  add_if_missing string d i =
      let new = (d.last_index + 1) % 2 ^ 32 in if i == 0 then store new new string d else (ok i, d)

  unfoldable pub found_or_added : List ℕ → Dictionary S → Outcome ℕ → Outcome ℕ × Dictionary S
  found_or_added string d (throw e) = (throw e, d)
  found_or_added string d (ok i) = add_if_missing string d i

  unfoldable pub get_or_add_index_for_string : List ℕ → Dictionary S → Outcome ℕ × Dictionary S
  get_or_add_index_for_string string d = found_or_added string d (find_index_for_string string d)

  unfoldable pub has_string_index_pair : List ℕ → ℕ → Dictionary S → Bool
  has_string_index_pair string index d = elim (find (octet string) d.reverse_lookup) [
    | none ↦ false
    | some i ↦ i == index
  ]

  unfoldable pub add_string_index : List ℕ → ℕ → Dictionary S → Outcome Bool × Dictionary S
  add_string_index string index d =
      if has_string_index_pair string index d
      then (ok false, d)
      else if not ((d.last_index + 1) % 2 ^ 32 == index)
      then (throw dictionary_invalid_new_key, d)
      else store true index string d

  -- `init`, for the entries that the iteration over the opened file delivers.
  unfoldable pub load : List (ℕ × List ℕ) → Map ℕ → Map ℕ
  load [] m = m
  load ((index, string) ∷ es) m = load es (insert (octet string) index m)

  unfoldable pub init : List (ℕ × List ℕ) → Dictionary S → Dictionary S
  init entries d =
      let m = load entries d.reverse_lookup in
      record d { reverse_lookup = m; last_index = length m % 2 ^ 32 }

  unfoldable pub reset : Dictionary S → Dictionary S
  reset d = record d { file = db.cleared d.file; last_index = 0 }

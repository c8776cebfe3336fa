-- ===== src/BlockIndex/Persist.antt =====
-- src/cache/BlockIndex.{h,cpp}: the index and its file, and the wait for a file cursor. The asserts,
-- which a release build leaves out, are left out.
pub mod Saved
pub mod Waiting
use gradido_node.Prelude.{
  ℕ, zero, suc, ◌*◌, Bool, true, false, ◌&&◌, List, [], ◌∷◌, Option, none, some, ltb, ◌==◌,
  if◌then◌else◌, length, take, ℤ, pos, Outcome, ok, throw, ◌>>=◌, invalid_data,
}
use gradido_node.OrderedMap.{Map, find}
use gradido_node.IndexFile.{
  Platform, IndexFile, empty_file, add_year_block, add_month_block, add_data_block, write_to_file,
}
use gradido_node.IndexFile.Reader.{Indices, read_from_file}
use gradido_node.BlockIndex.{Entry, Months, BlockIndex, clear, add_indices, is_zero}

module _ (p : Platform) where
  -- The body of the loop over the entries, for what `find` gives.
  unfoldable pub save_entry : Option ℤ → Entry → IndexFile → Outcome IndexFile
  save_entry none e t = throw invalid_data
  save_entry (some cursor) e t = ok (
      add_data_block p e.transaction_nr cursor e.transaction_type e.coin_community_id_index
        (take e.address_indice_count e.address_indices) t)

  unfoldable pub save_entries : Map ℤ → List Entry → IndexFile → Outcome IndexFile
  save_entries cursors [] t = ok t
  save_entries cursors (e ∷ es) t =
      save_entry (find e.transaction_nr cursors) e t >>= save_entries cursors es

  unfoldable pub save_months : Map ℤ → Months → IndexFile → Outcome IndexFile
  save_months cursors [] t = ok t
  save_months cursors ((m, es) ∷ ms) t =
      save_entries cursors es (add_month_block p m t) >>= save_months cursors ms

  unfoldable pub save_years : Map ℤ → Map Months → IndexFile → Outcome IndexFile
  save_years cursors [] t = ok t
  save_years cursors ((y, ms) ∷ ys) t =
      save_months cursors ms (add_year_block p y t) >>= save_years cursors ys

  -- `serialize`: none if there is nothing to save.
  unfoldable pub is_unused : BlockIndex → Bool
  is_unused x =
      length x.year_month_address_index_entries == 0
      && length x.transaction_nrs_file_cursors == 0
      && x.max_transaction_nr == 0
      && x.min_transaction_nr == 0

  unfoldable pub serialize : BlockIndex → Outcome (Option IndexFile)
  serialize x =
      if is_unused x
      then ok none
      else (save_years x.transaction_nrs_file_cursors x.year_month_address_index_entries empty_file
          >>= λ t. ok (some t))

  -- The bytes of the file, if it is written.
  unfoldable pub write_serialized : Option IndexFile → Outcome (Option (List ℕ))
  write_serialized none = ok none
  write_serialized (some t) = write_to_file p t >>= λ (bytes, t'). ok (some bytes)

  -- `writeIntoFile`: false is none.
  unfoldable pub write_into_file : BlockIndex → Outcome (Option (List ℕ))
  write_into_file x = serialize x >>= write_serialized

  -- `exit`: the file is written and the memory cleared.
  unfoldable pub exit : BlockIndex → Outcome (Option (List ℕ) × BlockIndex)
  exit x = write_into_file x >>= λ file. ok (file, clear x)

-- The index as the receiver of `readFromFile`.
unfoldable pub received : Outcome Bool × BlockIndex → Outcome BlockIndex
received (ok added, x) = ok x
received (throw e, x) = throw e

unfoldable pub receive : Indices → BlockIndex → Outcome BlockIndex
receive i x = received (add_indices i x)

-- `loadFromFile`
unfoldable pub load_from_file : Platform → List ℕ → BlockIndex → Outcome (Bool × BlockIndex)
load_from_file p bytes x = read_from_file p receive bytes x

-- The loop that waits for a file cursor that is not zero; `cursors` are the file cursors as they are
-- after each sleep. The last look counts as it is.
unfoldable pub wait_for_cursor : ℕ → (ℕ → Map ℤ) → ℕ → ℕ → Option ℤ
wait_for_cursor zero cursors k nr = find nr (cursors k)
wait_for_cursor (suc n) cursors k nr =
    let rest = wait_for_cursor n cursors (suc k) nr in
    elim (find nr (cursors k)) [ none ↦ none | some c ↦ if is_zero c then rest else some c ]

-- `getFileCursorForTransactionNr`: false is none. By transaction number 1 the file cursor starts
-- with 0.
unfoldable pub get_file_cursor_for_transaction_nr : (ℕ → Map ℤ) → ℕ → Option ℤ
get_file_cursor_for_transaction_nr cursors nr = elim (find nr (cursors 0)) [
  | none ↦ none
  | some c ↦ if is_zero c && ltb 1 nr then wait_for_cursor 100 cursors 0 nr else some c
]

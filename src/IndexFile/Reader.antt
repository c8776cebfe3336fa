-- ===== src/IndexFile/Reader.antt =====
-- src/model/files/BlockIndex.cpp: `DataBlock::readFromFile` and `BlockIndex::readFromFile`. A read
-- past the end of the file throws, so no read returns false.
use gradido_node.Prelude.{
  ℕ, zero, suc, ◌*◌, Bool, true, false, ◌&&◌, not, Option, none, some, List, [], ◌∷◌, none, some,
  ◌==◌, ltb, if◌then◌else◌, length, take, drop, ℤ, pos, ltb_ℤ, signed32, Outcome, ok, throw,
  throw_if, ◌>>=◌, ◌>>◌, unknown_enum, runtime_error, hash_mismatch, out_of_fuel,
}
use gradido_node.Bytes.{le_value}
use gradido_node.VirtualFile.{VirtualFile, read, get_size, of_bytes}
use gradido_node.IndexFile.{
  Platform, DataBlock, Block, year_block, month_block, data_block, update_hash, year_type,
  month_type, data_type, hash_type, generichash_bytes,
}

-- An array of `n` numbers of type uint32_t.
unfoldable pub indices_of : ℕ → List ℕ → List ℕ
indices_of zero bytes = []
indices_of (suc n) bytes = le_value (take 4 bytes) ∷ indices_of n (drop 4 bytes)

-- The arguments of `IBlockIndexReceiver::addIndicesForTransaction`.
pub record Indices : Type 0 where
  pub transaction_type : ℕ
  pub coin_community_id_index : ℕ
  pub year : ℕ
  pub month : ℕ
  pub transaction_nr : ℕ
  pub file_cursor : ℤ
  pub address_indices : List ℕ
  pub address_indice_count : ℕ

unfoldable pub indices_at : ℕ → ℕ → DataBlock → Indices
indices_at year month d = record {
  transaction_type = d.transaction_type;
  coin_community_id_index = d.coin_community_id_index;
  year = year;
  month = month;
  transaction_nr = d.transaction_nr;
  file_cursor = d.file_cursor;
  address_indices = d.address_indices;
  address_indice_count = d.address_indices_count;
}

-- The variables of the loop: the cursors for year and month and what was hashed.
pub record Reading : Type 0 where
  pub year_cursor : ℕ
  pub month_cursor : ℕ
  pub hashed : List ℕ

-- One round reads a block, or ends the loop with what stands in `hashFromFile`.
pub data Round : Type 0 where
  more : Block → VirtualFile → Round
  last : List ℕ → Round

module _ (p : Platform) where
  -- `DataBlock::readFromFile`
  unfoldable pub read_data_block : VirtualFile → Outcome (DataBlock × VirtualFile)
  unfolding indices_of
  read_data_block f0 = do
    (nr, f1) ← read 8 f0
    (cursor, f2) ← read 4 f1
    (type, f3) ← read p.type_size f2
    throw_if (not (p.is_type (le_value type))) unknown_enum
    (coin, f4) ← read 4 f3
    (count, f5) ← read 1 f4
    (indices, f6) ← read (4 * le_value count) f5
    ok (
      record {
        transaction_nr = le_value nr;
        file_cursor = signed32 (le_value cursor);
        transaction_type = le_value type;
        coin_community_id_index = le_value coin;
        address_indices_count = le_value count;
        address_indices = indices_of (le_value count) indices;
      },
      f6,
    )

  -- The switch on the type of the block.
  unfoldable pub read_block : ℕ → VirtualFile → Outcome Round
  unfolding read_data_block
  read_block type f =
      if type == data_type
      then (read_data_block f >>= λ (d, f'). ok (more (data_block d) f'))
      else if type == month_type
      then (read 1 f >>= λ (m, f'). ok (more (month_block (le_value m)) f'))
      else if type == year_type
      then (read 2 f >>= λ (y, f'). ok (more (year_block (le_value y)) f'))
      else if type == hash_type
      then (read generichash_bytes f >>= λ (h, f'). ok (last h))
      else ok (last p.uninitialized)

  unfoldable pub next_round : VirtualFile → Outcome Round
  unfolding read_block
  next_round f = read 1 f >>= λ (type, f'). read_block (le_value type) f'

  module _ {R : Type 0} (receive : Indices → R → Outcome R) where
    -- `updateHash`, then the year and month cursors or the call of the receiver.
    unfoldable pub take_block : Block → Reading → R → Outcome (Reading × R)
    unfolding indices_at
    take_block (year_block y) s r =
        ok (record s { year_cursor = y; hashed = update_hash p s.hashed (year_block y) }, r)
    take_block (month_block m) s r =
        ok (record s { month_cursor = m; hashed = update_hash p s.hashed (month_block m) }, r)
    take_block (data_block d) s r = do
      throw_if (ltb_ℤ d.file_cursor (pos 0)) runtime_error
      r' ← receive (indices_at s.year_cursor s.month_cursor d) r
      ok (record s { hashed = update_hash p s.hashed (data_block d) }, r')

    -- The loop: what stands in `hashFromFile`, what was hashed and the receiver.
    unfoldable pub read_blocks : ℕ → Reading → VirtualFile → R → Outcome (List ℕ × List ℕ × R)
    unfolding take_block next_round
    read_blocks zero s f r = throw out_of_fuel
    read_blocks (suc n) s f r =
        if ltb f.cursor (get_size f)
        then (next_round f >>= elim [
          | last h ↦ ok (h, s.hashed, r)
          | more b f' ↦ take_block b s r >>= λ (s', r'). read_blocks n s' f' r'
        ])
        else ok (p.uninitialized, s.hashed, r)

-- `sodium_compare` gives 0.
unfoldable pub bytes_eq : List ℕ → List ℕ → Bool
bytes_eq [] [] = true
bytes_eq (x ∷ xs) (y ∷ ys) = (x == y) && bytes_eq xs ys
bytes_eq _ _ = false

abbrev pub start : Reading
start = record { year_cursor = 0; month_cursor = 0; hashed = [] }

-- The body of `readFromFile` behind the opening of the file.
unfoldable pub read_opened :
    (p : Platform) {R : Type 0}
    → (Indices → R → Outcome R)
    → ℕ
    → Option VirtualFile
    → R
    → Outcome (Bool × R)
unfolding bytes_eq
read_opened p receive fuel none r = ok (false, r)
read_opened p receive fuel (some f) r = do
  (hash_from_file, hashed, r') ← read_blocks p receive fuel start f r
  throw_if (not (bytes_eq hash_from_file (p.hash hashed))) hash_mismatch
  ok (true, r')

-- `readFromFile`: false if there is no file or it is empty. Each round reads a byte at least, so
-- as many rounds as there are bytes, and one, are enough.
unfoldable pub read_from_file :
    (p : Platform) {R : Type 0} → (Indices → R → Outcome R) → List ℕ → R → Outcome (Bool × R)
unfolding read_opened
read_from_file p receive bytes r = read_opened p receive (suc (length bytes)) (of_bytes bytes) r

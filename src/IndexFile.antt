-- ===== src/IndexFile.antt =====
-- src/model/files/BlockIndex.{h,cpp}: the index file of a block of transactions. Year, month and
-- data blocks follow one another, and a hash block ends the file.
pub mod Reader
pub mod Codec
pub mod Writing
pub mod Scanning
pub mod RoundTrip
pub mod Integrity
use mathlib.Core.List.{flatten}
use gradido_node.Prelude.{
  ℕ, ◌+◌, ◌*◌, ◌%◌, ◌≡◌, Bool, List, [], ◌∷◌, ◌++◌, length, take, ℤ, bits32, Outcome, ok, ◌>>=◌,
}
use gradido_node.Bytes.{le_bytes}
use gradido_node.VirtualFile.{VirtualFile, new_file, write, contents}

-- What the code takes from gradido_blockchain, magic_enum, libsodium and the run-time: the size of
-- the enum TransactionType and the test for its values, BLAKE2b over all the bytes that the calls of
-- `crypto_generichash_update` gave (crypto_generichash_BYTES is 32), the bytes of a fresh buffer, and
-- those of an array on the stack that nothing has written.
pub record Platform : Type 0 where
  pub type_size : ℕ
  pub is_type : ℕ → Bool
  pub hash : List ℕ → List ℕ
  pub length-hash : (bytes : List ℕ) → length (hash bytes) ≡ 32
  pub malloc : ℕ → List ℕ
  pub length-malloc : (n : ℕ) → length (malloc n) ≡ n
  pub uninitialized : List ℕ

pub record DataBlock : Type 0 where
  pub transaction_nr : ℕ
  pub file_cursor : ℤ
  pub transaction_type : ℕ
  pub coin_community_id_index : ℕ
  pub address_indices_count : ℕ
  pub address_indices : List ℕ

-- The constructor: the count is a uint8_t, and as many indices are copied.
unfoldable pub new_data_block : ℕ → ℤ → ℕ → ℕ → List ℕ → DataBlock
new_data_block nr cursor type coin indices = record {
  transaction_nr = nr;
  file_cursor = cursor;
  transaction_type = type;
  coin_community_id_index = coin;
  address_indices_count = length indices % 256;
  address_indices = take (length indices % 256) indices;
}

pub data Block : Type 0 where
  year_block : ℕ → Block
  month_block : ℕ → Block
  data_block : DataBlock → Block

-- The numbers of `enum BlockTypes`.
abbrev pub year_type : ℕ
year_type = 0xad

abbrev pub month_type : ℕ
month_type = 0x50

abbrev pub data_type : ℕ
data_type = 0xdd

abbrev pub hash_type : ℕ
hash_type = 0x17

abbrev pub generichash_bytes : ℕ
generichash_bytes = 32

unfoldable pub block_type : Block → ℕ
block_type (year_block y) = year_type
block_type (month_block m) = month_type
block_type (data_block d) = data_type

-- An array of uint32_t.
unfoldable pub index_bytes : List ℕ → List ℕ
index_bytes [] = []
index_bytes (i ∷ is) = le_bytes 4 i ++ index_bytes is

module _ (p : Platform) where
  -- `size()`: a date::year takes two bytes and a date::month one.
  unfoldable pub size : Block → ℕ
  size (year_block y) = 1 + 2
  size (month_block m) = 1 + 1
  size (data_block d) = 1 + 8 + 4 + p.type_size + 4 + (1 + 4 * d.address_indices_count)

  -- The calls of `vFile->write` that `writeIntoFile` makes, in order.
  unfoldable pub written : Block → List (List ℕ)
  written (year_block y) = le_bytes 1 year_type ∷ le_bytes 2 y ∷ []
  written (month_block m) = le_bytes 1 month_type ∷ le_bytes 1 m ∷ []
  written (data_block d) =
      le_bytes 1 data_type
      ∷ le_bytes 8 d.transaction_nr
      ∷ le_bytes 4 (bits32 d.file_cursor)
      ∷ le_bytes p.type_size d.transaction_type
      ∷ le_bytes 4 d.coin_community_id_index
      ∷ le_bytes 1 d.address_indices_count
      ∷ index_bytes d.address_indices
      ∷ []

  -- The calls of `crypto_generichash_update` that `updateHash` makes, in order.
  unfoldable pub hash_updates : Block → List (List ℕ)
  hash_updates (year_block y) = le_bytes 1 year_type ∷ le_bytes 2 y ∷ []
  hash_updates (month_block m) = le_bytes 1 month_type ∷ le_bytes 1 m ∷ []
  hash_updates (data_block d) =
      le_bytes 1 data_type
      ∷ le_bytes 8 d.transaction_nr
      ∷ le_bytes 4 (bits32 d.file_cursor)
      ∷ le_bytes 4 d.coin_community_id_index
      ∷ le_bytes 1 d.address_indices_count
      ∷ index_bytes d.address_indices
      ∷ []

unfoldable pub write_all : List (List ℕ) → VirtualFile → Outcome VirtualFile
write_all [] f = ok f
write_all (c ∷ cs) f = write c f >>= write_all cs

module _ (p : Platform) where
  unfoldable pub write_into_file : Block → VirtualFile → Outcome VirtualFile
  unfolding written write_all
  write_into_file b = write_all (written p b)

  -- What the state of the hash has been given, after a block more.
  unfoldable pub update_hash : List ℕ → Block → List ℕ
  unfolding hash_updates
  update_hash state b = state ++ flatten (hash_updates p b)

-- `class BlockIndex`: the queue of blocks and the sum of their sizes.
pub record IndexFile : Type 0 where
  pub data_blocks : List Block
  pub data_block_sum_size : ℕ

unfoldable pub empty_file : IndexFile
empty_file = record { data_blocks = []; data_block_sum_size = 0 }

module _ (p : Platform) where
  unfoldable pub push : Block → IndexFile → IndexFile
  push b t = record {
    data_blocks = t.data_blocks ++ b ∷ [];
    data_block_sum_size = t.data_block_sum_size + size p b;
  }

  unfoldable pub add_year_block : ℕ → IndexFile → IndexFile
  unfolding push size
  add_year_block y = push (year_block y)

  unfoldable pub add_month_block : ℕ → IndexFile → IndexFile
  unfolding push size
  add_month_block m = push (month_block m)

  unfoldable pub add_data_block : ℕ → ℤ → ℕ → ℕ → List ℕ → IndexFile → IndexFile
  unfolding push size new_data_block
  add_data_block nr cursor type coin indices =
      push (data_block (new_data_block nr cursor type coin indices))

  -- The loop over the queue in `writeToFile` and `serialize`: the file and what was hashed.
  unfoldable pub write_blocks : List Block → VirtualFile → List ℕ → Outcome (VirtualFile × List ℕ)
  unfolding write_into_file update_hash
  write_blocks [] f state = ok (f, state)
  write_blocks (b ∷ bs) f state =
      write_into_file p b f >>= λ f'. write_blocks bs f' (update_hash p state b)

  -- `serialize`. The queue is emptied; the sum of the sizes stays.
  unfoldable pub serialize : IndexFile → Outcome (VirtualFile × IndexFile)
  unfolding new_file
  serialize t = do
    (f, state) ←
        write_blocks t.data_blocks
          (new_file (p.malloc (t.data_block_sum_size + generichash_bytes + 1))) []
    f' ← write_all (le_bytes 1 hash_type ∷ p.hash state ∷ []) f
    ok (f', record t { data_blocks = [] })

  -- `writeToFile`: the bytes that go to disk.
  unfoldable pub write_to_file : IndexFile → Outcome (List ℕ × IndexFile)
  unfolding serialize contents
  write_to_file t = serialize t >>= λ (f, t'). ok (contents f, t')

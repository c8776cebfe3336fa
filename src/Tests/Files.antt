-- ===== src/Tests/Files.antt =====
-- The block file and the index file at concrete inputs.
use gradido_node.Prelude.{
  ◌↔◌, ℕ, ◌≡◌, ◌≢◌, refl, ap, suc, All, true, List, [], ◌∷◌, ◌++◌, length, pos, some, Outcome, ok,
  throw, ◌>>=◌, hash_mismatch, arith,
}
use gradido_node.Bytes.{le_bytes, length-le_bytes}
use gradido_node.IndexFile.{
  Platform, DataBlock, Block, year_block, month_block, data_block, IndexFile, hash_type,
  write_to_file, size,
}
use gradido_node.IndexFile.Reader.{Indices, read_from_file}
use gradido_node.IndexFile.Codec.{IsDataWritable, IsWritable}
use gradido_node.IndexFile.Scanning.{entries, deliver, IsPlaced}
use gradido_node.IndexFile.Writing.{encode_all, hash_input, total_size}
use gradido_node.IndexFile.RoundTrip.{write_to_file-read, read_from_file_mismatch}
use gradido_node.IndexFile.Integrity.{retype, read_from_file_retyped}
use gradido_node.BlockFile.{
  BlockFile, append_lines, read_line, rebuild_block_index, get_open_file, zeros, calculate_hash,
  validate_hash,
}
use gradido_node.BlockFile.Lines.{
  IsBlockFile, append_lines-IsBlockFile, read_line-IsBlockFile, records, positions, chain,
}
use gradido_node.BlockFile.Hashing.{validate_hash-IsBlockFile}
use gradido_node.BlockFile.Rebuilding.{
  rebuild_block_index-IsBlockFile, get_open_file-IsBlockFile, placed,
}

-- A platform whose hash is 1 and the length in 31 bytes.
abbrev pub platform : Platform
platform = record {
  type_size = 1;
  is_type = λ t. true;
  hash = λ bytes. 1 ∷ le_bytes 31 (length bytes);
  length-hash = λ bytes. ap suc (length-le_bytes 31 (length bytes));
  malloc = λ n. le_bytes n 0;
  length-malloc = λ n. length-le_bytes n 0;
  uninitialized = [];
}

abbrev first : DataBlock
first = record {
  transaction_nr = 1;
  file_cursor = pos 0;
  transaction_type = 2;
  coin_community_id_index = 0;
  address_indices_count = 2;
  address_indices = 7 ∷ 8 ∷ [];
}

abbrev blocks : List Block
blocks = year_block 2024 ∷ month_block 5 ∷ data_block first ∷ []

abbrev index_file : IndexFile
index_file = record { data_blocks = blocks; data_block_sum_size = total_size platform blocks }

abbrev collect : Indices → List Indices → Outcome (List Indices)
collect i is = ok (is ++ i ∷ [])

first-IsDataWritable : IsDataWritable platform first
first-IsDataWritable = record {
  nr_fits = omega arith;
  cursor_fits = ground arith;
  type_fits = omega arith;
  type_known = refl;
  coin_fits = omega arith;
  count_fits = omega arith;
  count_eq = refl;
  indices_fit = omega arith;
}

writable : All (IsWritable platform) blocks
writable = (omega arith, (omega arith, (first-IsDataWritable, tt)))

IsPlaced-blocks : All IsPlaced blocks
IsPlaced-blocks = (tt, (tt, (refl, tt)))

write_to_file-read_example :
    (write_to_file platform index_file >>= λ (bytes, _). read_from_file platform collect bytes [])
    ≡ (deliver collect (entries 0 0 blocks) [] >>= λ r'. ok (true, r'))
unfolding size
write_to_file-read_example =
    write_to_file-read platform collect index_file [] refl writable IsPlaced-blocks (omega arith)

zeros_differ : le_bytes 32 0 ≢ platform.hash (hash_input platform blocks)
unfolding le_bytes
zeros_differ h = ground arith

read_from_file_mismatch_example :
    read_from_file platform collect
      (encode_all platform blocks ++ (le_bytes 1 hash_type ++ le_bytes 32 0))
      []
    ≡ throw hash_mismatch
unfolding size
read_from_file_mismatch_example =
    read_from_file_mismatch platform collect blocks (le_bytes 32 0) [] _ writable IsPlaced-blocks
      (length-le_bytes 32 0) (omega arith) refl zeros_differ

read_from_file_retyped_example :
    read_from_file platform collect
      (encode_all platform (retype (λ t. 3) blocks)
        ++ (le_bytes 1 hash_type ++ platform.hash (hash_input platform blocks)))
      []
    ≡ (deliver collect (entries 0 0 (retype (λ t. 3) blocks)) [] >>= λ r'. ok (true, r'))
unfolding size
read_from_file_retyped_example =
    read_from_file_retyped platform collect (λ t. 3) blocks []
      (
        omega arith,
        (
          omega arith,
          (
            record {
              nr_fits = omega arith;
              cursor_fits = ground arith;
              type_fits = omega arith;
              type_known = refl;
              coin_fits = omega arith;
              count_fits = omega arith;
              count_eq = refl;
              indices_fit = omega arith;
            },
            tt,
          ),
        ),
      )
      (tt, (tt, (refl, tt))) (omega arith)

-- Two lines of 30 bytes.
abbrev pub line1 : List ℕ
line1 = le_bytes 30 1

abbrev pub line2 : List ℕ
line2 = le_bytes 30 2

abbrev pub empty_block_file : BlockFile
empty_block_file = record { bytes = []; current_file_size = 0 }

abbrev pub full_block_file : BlockFile
full_block_file = record {
  bytes = records (line1 ∷ line2 ∷ []) ++ chain platform (line1 ∷ line2 ∷ []) zeros;
  current_file_size = length (records (line1 ∷ line2 ∷ []));
}

pub empty-IsBlockFile : IsBlockFile platform [] empty_block_file
empty-IsBlockFile = record {
  tail = [];
  bytes_eq = refl;
  size_eq = refl;
  tail_fits = omega arith;
  tail_eq = λ h. absurd (h refl);
}

pub full-IsBlockFile : IsBlockFile platform (line1 ∷ line2 ∷ []) full_block_file
unfolding le_bytes
full-IsBlockFile = record {
  tail = chain platform (line1 ∷ line2 ∷ []) zeros;
  bytes_eq = refl;
  size_eq = refl;
  tail_fits = omega (arith, length-le_bytes 31 62);
  tail_eq = λ h. refl;
}

append_lines-IsBlockFile_example :
    ((append_lines platform (line1 ∷ line2 ∷ []) empty_block_file).0
      ≡ positions (length (records [])) (line1 ∷ line2 ∷ []))
    × IsBlockFile platform
        (line1 ∷ line2 ∷ [])
        (append_lines platform (line1 ∷ line2 ∷ []) empty_block_file).1
unfolding le_bytes
append_lines-IsBlockFile_example =
    append_lines-IsBlockFile platform [] (line1 ∷ line2 ∷ []) empty_block_file empty-IsBlockFile
      (omega arith, (omega arith, tt)) (omega arith)

read_line-IsBlockFile_example : read_line (length (records (line1 ∷ []))) full_block_file ≡ ok line2
unfolding le_bytes
read_line-IsBlockFile_example =
    read_line-IsBlockFile platform (line1 ∷ []) [] line2 full_block_file full-IsBlockFile
      (omega arith) (omega arith) (omega arith)

rebuild_block_index-IsBlockFile_example :
    rebuild_block_index platform 5 full_block_file ≡ ok (placed 0 (line1 ∷ line2 ∷ []))
unfolding le_bytes
rebuild_block_index-IsBlockFile_example =
    rebuild_block_index-IsBlockFile platform line1 (line2 ∷ []) full_block_file 5 full-IsBlockFile
      ((omega arith, omega arith), ((omega arith, omega arith), tt)) (omega arith)

get_open_file-IsBlockFile_example :
    IsBlockFile platform (line1 ∷ line2 ∷ []) (get_open_file full_block_file.bytes)
unfolding le_bytes
get_open_file-IsBlockFile_example =
    get_open_file-IsBlockFile platform (line1 ∷ line2 ∷ []) full_block_file full-IsBlockFile
      (omega arith)

validate_hash-IsBlockFile_example :
    (calculate_hash platform (1 ∷ []) full_block_file
      ≡ ok (some (chain platform (line1 ∷ line2 ∷ []) (1 ∷ []))))
    × (validate_hash platform (1 ∷ []) full_block_file ≡ ok true
        ↔ chain platform (line1 ∷ line2 ∷ []) zeros ≡ chain platform (line1 ∷ line2 ∷ []) (1 ∷ []))
    × (validate_hash platform zeros full_block_file ≡ ok true)
unfolding le_bytes
validate_hash-IsBlockFile_example =
    validate_hash-IsBlockFile platform (1 ∷ []) line1 (line2 ∷ []) full_block_file full-IsBlockFile
      (omega arith, (omega arith, tt))

-- ===== src/BlockFile.antt =====
-- src/model/files/Block.{h,cpp}: the file of a block's transactions, one line each, behind its size in
-- two bytes, and a hash over all lines at the end. The file lock is free and the stream does not
-- fail; a `seekp` stays inside of the file. The hash is that of the platform of the index file.
pub mod Lines
pub mod Rebuilding
pub mod Hashing
use gradido_node.Prelude.{
  ℕ, zero, suc, ◌+◌, ◌-◌, ◌%◌, ◌^◌, Bool, true, false, List, [], ◌∷◌, ◌++◌, ltb, leb, not, ◌==◌,
  if◌then◌else◌, length, take, drop, Outcome, ok, throw, ◌>>=◌, ◌>>◌, throw_if, end_reaching,
  null_pointer, Option, none, some, invalid_read_block_size, hash_mismatch, out_of_fuel,
}
use gradido_node.Bytes.{le_bytes, le_value}
use gradido_node.IndexFile.{Platform}
use gradido_node.IndexFile.Reader.{bytes_eq}

pub record BlockFile : Type 0 where
  pub bytes : List ℕ
  pub current_file_size : ℕ

-- crypto_generichash_KEYBYTES
abbrev pub keybytes : ℕ
keybytes = 32

-- `sizeof(uint16_t) + MAGIC_NUMBER_MINIMAL_TRANSACTION_SIZE`
abbrev pub minimal_file_size : ℕ
minimal_file_size = 27

abbrev pub zeros : List ℕ
zeros = le_bytes 32 0

-- `getOpenFile` of a file that is there.
unfoldable pub get_open_file : List ℕ → BlockFile
get_open_file bytes = record {
  bytes = bytes;
  current_file_size = if ltb keybytes (length bytes) then (length bytes - keybytes) % 2 ^ 32 else 0;
}

-- `readLine` behind the guards, for the size that the file has at the start.
unfoldable pub read_sized : ℕ → BlockFile → ℕ → Outcome (List ℕ)
read_sized start f size =
    if ltb f.current_file_size ((start + size) % 2 ^ 32)
    then throw end_reaching
    else if ltb size minimal_file_size
    then throw invalid_read_block_size
    else ok (take size (drop (start + 2) f.bytes))

unfoldable pub read_line : ℕ → BlockFile → Outcome (List ℕ)
read_line start f =
    if leb f.current_file_size minimal_file_size
    then throw end_reaching
    else if ltb (f.current_file_size - minimal_file_size) start
    then throw end_reaching
    else read_sized start f (le_value (take 2 (drop start f.bytes)))

-- Writing at a position.
abbrev pub overwrite : ℕ → List ℕ → List ℕ → List ℕ
overwrite at new bytes = take at bytes ++ new ++ drop (at + length new) bytes

-- The loop over the lines of `appendLines`: the cursor positions, the bytes and the last hash.
pub record Appended : Type 0 where
  pub cursor_positions : List ℕ
  pub written : List ℕ
  pub last_hash : List ℕ

module _ (p : Platform) where
  unfoldable pub calculate_one_hash_step : List ℕ → List ℕ → List ℕ
  calculate_one_hash_step hash content = p.hash (hash ++ content)

  -- A line is cut to its size as a uint16_t.
  unfoldable pub append_loop : List (List ℕ) → ℕ → List ℕ → Appended
  append_loop [] cursor hash = record { cursor_positions = []; written = []; last_hash = hash }
  append_loop (line ∷ lines) cursor hash =
      let size = length line % 2 ^ 16 in
      let content = take size line in
      let rest = append_loop lines (cursor + (2 + size)) (calculate_one_hash_step hash content) in
      record {
        cursor_positions = cursor ∷ rest.cursor_positions;
        written = le_bytes 2 size ++ content ++ rest.written;
        last_hash = rest.last_hash;
      }

  -- The hash that the lines go on from.
  unfoldable pub current_hash : BlockFile → List ℕ
  current_hash f =
      if ltb 0 f.current_file_size then take keybytes (drop f.current_file_size f.bytes) else zeros

  unfoldable pub append_lines : List (List ℕ) → BlockFile → List ℕ × BlockFile
  append_lines lines f =
      let a = append_loop lines f.current_file_size (current_hash f) in
      (
        a.cursor_positions,
        record {
          bytes = overwrite f.current_file_size (a.written ++ a.last_hash) f.bytes;
          current_file_size = (f.current_file_size + length a.written) % 2 ^ 32;
        },
      )

  -- The loop of `rebuildBlockIndex`: the lines with their file cursors, the hash over them and where
  -- the stream stands after it. Each round reads 29 bytes at least.
  unfoldable pub read_lines :
      ℕ → BlockFile → ℕ → ℕ → List ℕ → Outcome (List (ℕ × List ℕ) × List ℕ × ℕ)
  read_lines zero f cursor position hash = throw out_of_fuel
  read_lines (suc n) f cursor position hash =
      if ltb f.current_file_size (cursor + minimal_file_size)
      then ok ([], hash, position)
      else (read_line cursor f >>= λ line.
          let next = cursor + (length line + 2) in
          read_lines n f next next (calculate_one_hash_step hash line)
          >>= λ (lines, hash', position'). ok ((cursor, line) ∷ lines, hash', position'))

  abbrev pub compare_hash : BlockFile → List (ℕ × List ℕ) × List ℕ × ℕ → Outcome (List (ℕ × List ℕ))
  compare_hash f (lines, hash, position) =
      throw_if (not (bytes_eq hash (take keybytes (drop position f.bytes)))) hash_mismatch
      >> ok lines

  -- `rebuildBlockIndex`, which queues the lines for the task, from where the stream stands.
  unfoldable pub rebuild_block_index : ℕ → BlockFile → Outcome (List (ℕ × List ℕ))
  rebuild_block_index position f =
      read_lines (suc f.current_file_size) f 0 position zeros >>= compare_hash f

  -- The loop of `calculateHash`, over the bytes of all lines. Each round goes on by two bytes at least.
  unfoldable pub hash_loop : ℕ → List ℕ → ℕ → List ℕ → Outcome (List ℕ)
  hash_loop zero bytes cursor hash = throw out_of_fuel
  hash_loop (suc n) bytes cursor hash =
      let size = le_value (take 2 (drop cursor bytes)) in
      let content = take size (drop (cursor + 2) bytes) in
      let rest = hash_loop n bytes (cursor + 2 + size) (calculate_one_hash_step hash content) in
      if ltb cursor (length bytes) then rest else ok hash

  -- `calculateHash`: a file without lines has none. `fresh` is what the memory of a new block holds.
  unfoldable pub calculate_hash : List ℕ → BlockFile → Outcome (Option (List ℕ))
  calculate_hash fresh f =
      if f.current_file_size == 0
      then ok none
      else (hash_loop (suc f.current_file_size) (take f.current_file_size f.bytes) 0 fresh
          >>= λ hash. ok (some hash))

  abbrev compare_with : List ℕ → Option (List ℕ) → Outcome Bool
  compare_with stored none = throw null_pointer
  compare_with stored (some hash) = ok (bytes_eq stored hash)

  -- `validateHash`
  unfoldable pub validate_hash : List ℕ → BlockFile → Outcome Bool
  validate_hash fresh f =
      calculate_hash fresh f >>= compare_with (take keybytes (drop f.current_file_size f.bytes))

-- `findLastBlockFileInFolder`, for the block numbers of the files that match.
unfoldable pub find_last_block_file_in_folder : List ℕ → ℕ
find_last_block_file_in_folder numbers = largest 0 numbers
  where
    largest : ℕ → List ℕ → ℕ
    largest largest_block_nr [] = largest_block_nr
    largest largest_block_nr (nr ∷ nrs) =
        largest (if ltb largest_block_nr nr then nr else largest_block_nr) nrs

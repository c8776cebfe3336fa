-- ===== src/VirtualFile.antt =====
-- src/lib/VirtualFile.cpp: a buffer in memory with a cursor, read and written like a file.
-- A size_t wraps at 2 ^ 64. The locks of FileLockManager and the disk itself are not modelled: what
-- `writeToFile` puts on disk is `contents`, and what `readFromFile` gets is the argument of `of_bytes`.
pub mod Laws
use gradido_node.Prelude.{
  ℕ, ◌+◌, ◌%◌, ◌^◌, Bool, true, false, List, [], ◌++◌, Option, none, some, ◌==◌, ltb, if◌then◌else◌,
  length, take, drop, Outcome, ok, throw, buffer_overflow,
}

pub record VirtualFile : Type 0 where
  pub buffer : List ℕ
  pub cursor : ℕ

-- `malloc(bufferSize)`: the bytes that happen to stand in the new buffer.
unfoldable pub new_file : List ℕ → VirtualFile
new_file raw = record { buffer = raw; cursor = 0 }

unfoldable pub get_size : VirtualFile → ℕ
get_size f = length f.buffer

-- `VirtualFile::readFromFile`: an empty file gives nullptr.
unfoldable pub of_bytes : List ℕ → Option VirtualFile
unfolding new_file
of_bytes bytes = if length bytes == 0 then none else some (new_file bytes)

abbrev pub size_t_mod : ℕ
size_t_mod = 2 ^ 64

unfoldable pub read : ℕ → VirtualFile → Outcome (List ℕ × VirtualFile)
unfolding get_size
read size f =
    if ltb (get_size f) ((f.cursor + size) % size_t_mod)
    then throw buffer_overflow
    else ok
        (take size (drop f.cursor f.buffer), record f { cursor = (f.cursor + size) % size_t_mod })

unfoldable pub write : List ℕ → VirtualFile → Outcome VirtualFile
unfolding get_size
write src f =
    if ltb (get_size f) ((f.cursor + length src) % size_t_mod)
    then throw buffer_overflow
    else ok (record {
      buffer = take f.cursor f.buffer ++ (src ++ drop (f.cursor + length src) f.buffer);
      cursor = (f.cursor + length src) % size_t_mod;
    })

unfoldable pub set_cursor : ℕ → VirtualFile → VirtualFile × Bool
unfolding get_size
set_cursor dst f = if ltb (get_size f) dst then (f, false) else (record f { cursor = dst }, true)

-- What `writeToFile` puts on disk: the buffer up to the cursor.
unfoldable pub contents : VirtualFile → List ℕ
contents f = take f.cursor f.buffer

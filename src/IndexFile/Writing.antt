-- ===== src/IndexFile/Writing.antt =====
-- src/model/files/BlockIndex.cpp: what `writeToFile` puts on disk.
use mathlib.Core.List.{flatten}
use gradido_node.Prelude.{
  ℕ, ◌+◌, ◌^◌, ◌≤◌, ◌<◌, ◌≡◌, refl, ◌∙◌, List, [], ◌∷◌, ◌++◌, append_assoc, append-nil, length,
  drop, All, length-append, length-drop, ok, arith,
}
use gradido_node.Bytes.{le_bytes, length-le_bytes}
use gradido_node.VirtualFile.{new_file}
use gradido_node.VirtualFile.Laws.{at, write-at, contents-at}
use gradido_node.IndexFile.{
  Platform, Block, IndexFile, size, hash_updates, write_all, write_into_file, update_hash,
  write_blocks, serialize, write_to_file, push, hash_type, written, generichash_bytes,
}
use gradido_node.IndexFile.Codec.{IsWritable, encode, length-encode}

drop-drop-length :
    (xs ys free : List ℕ) → drop (length ys) (drop (length xs) free) ≡ drop (length (xs ++ ys)) free
drop-drop-length [] ys free = refl
drop-drop-length (x ∷ xs) [] [] = refl
drop-drop-length (x ∷ xs) (y ∷ ys) [] = refl
drop-drop-length (x ∷ xs) ys (f ∷ free) = drop-drop-length xs ys free

write_all-at :
    (cs : List (List ℕ)) (before free : List ℕ)
    → length (flatten cs) ≤ length free
    → length before + length free < 2 ^ 64
    → write_all cs (at before free)
      ≡ ok (at (before ++ flatten cs) (drop (length (flatten cs)) free))
unfolding write_all flatten
write_all-at [] before free h k = simp append-nil
write_all-at (c ∷ cs) before free h k =
    let sizes = length-append c (flatten cs) in
    rw (write-at c before free (omega arith) k) (
      write_all-at cs (before ++ c) (drop (length c) free)
        (omega (arith, length-drop (length c) free))
        (omega (arith, length-drop (length c) free, length-append before c))
      ∙ rw (drop-drop-length c (flatten cs) free, append_assoc before c (flatten cs)))

-- The blocks of a file one after another, and what is hashed of them.
abbrev pub encode_all : Platform → List Block → List ℕ
encode_all p [] = []
encode_all p (b ∷ bs) = encode p b ++ encode_all p bs

abbrev pub hash_input : Platform → List Block → List ℕ
hash_input p [] = []
hash_input p (b ∷ bs) = flatten (hash_updates p b) ++ hash_input p bs

abbrev pub file_bytes : Platform → List Block → List ℕ
file_bytes p bs = encode_all p bs ++ (le_bytes 1 hash_type ++ p.hash (hash_input p bs))

abbrev pub total_size : Platform → List Block → ℕ
total_size p [] = 0
total_size p (b ∷ bs) = size p b + total_size p bs

module _ (p : Platform) where
  pub length-encode_all :
      (bs : List Block) → All (IsWritable p) bs → length (encode_all p bs) ≡ total_size p bs
  length-encode_all [] w = refl
  length-encode_all (b ∷ bs) w = omega (
    arith,
    length-append (encode p b) (encode_all p bs),
    length-encode p b w.0,
    length-encode_all bs w.1,
  )

  write_blocks-at :
      (bs : List Block) (before free state : List ℕ)
      → All (IsWritable p) bs
      → total_size p bs ≤ length free
      → length before + length free < 2 ^ 64
      → write_blocks p bs (at before free) state
        ≡ ok (
          at (before ++ encode_all p bs) (drop (length (encode_all p bs)) free),
          state ++ hash_input p bs,
        )
  unfolding write_blocks write_into_file update_hash
  write_blocks-at [] before free state w h k = simp append-nil
  write_blocks-at (b ∷ bs) before free state w h k =
      let here = length-encode p b w.0 in
      let left = length-drop (length (encode p b)) free in
      rw (write_all-at (written p b) before free (omega arith) k) (
        write_blocks-at bs (before ++ encode p b) (drop (length (encode p b)) free)
          (state ++ flatten (hash_updates p b)) w.1 (omega arith)
          (omega (arith, length-append before (encode p b)))
        ∙ rw (
          drop-drop-length (encode p b) (encode_all p bs) free,
          append_assoc before (encode p b) (encode_all p bs),
          append_assoc state (flatten (hash_updates p b)) (hash_input p bs),
        ))

  total_size-append :
      (bs cs : List Block) → total_size p (bs ++ cs) ≡ total_size p bs + total_size p cs
  total_size-append [] cs = omega arith
  total_size-append (b ∷ bs) cs = omega (arith, total_size-append bs cs)

  -- The sum that the object keeps is that of the queued blocks.
  abbrev pub IsSized : IndexFile → Type 0
  IsSized t = t.data_block_sum_size ≡ total_size p t.data_blocks

  pub push-IsSized : (b : Block) (t : IndexFile) → IsSized t → IsSized (push p b t)
  unfolding push
  push-IsSized b t e = omega (arith, total_size-append t.data_blocks (b ∷ []))

  tail-flatten :
      (state : List ℕ)
      → flatten (le_bytes 1 hash_type ∷ p.hash state ∷ []) ≡ le_bytes 1 hash_type ++ p.hash state
  unfolding flatten
  tail-flatten state = simp append-nil

  tail-length : (state : List ℕ) → length (flatten (le_bytes 1 hash_type ∷ p.hash state ∷ [])) ≡ 33
  tail-length state = rw (tail-flatten state) (
      omega (
        arith,
        length-append (le_bytes 1 hash_type) (p.hash state),
        length-le_bytes 1 hash_type,
        p.length-hash state,
      ))

  -- What goes to disk is every queued block in its order and the hash block. The queue is left empty.
  pub write_to_file-bytes :
      (t : IndexFile)
      → IsSized t
      → All (IsWritable p) t.data_blocks
      → t.data_block_sum_size + 33 < 2 ^ 64
      → write_to_file p t ≡ ok (file_bytes p t.data_blocks, record t { data_blocks = [] })
  unfolding write_to_file serialize new_file
  write_to_file-bytes t sized w h =
      let bs = t.data_blocks in
      let raw = p.malloc (t.data_block_sum_size + generichash_bytes + 1) in
      let enc = encode_all p bs in
      let free = drop (length enc) raw in
      let tail = le_bytes 1 hash_type ∷ p.hash (hash_input p bs) ∷ [] in
      let raw_size = p.length-malloc (t.data_block_sum_size + generichash_bytes + 1) in
      let enc_size = length-encode_all bs w in
      let free_size = length-drop (length enc) raw in
      let tail_size : length (flatten tail) ≡ 33 = tail-length (hash_input p bs) in
      rw (
        write_blocks-at bs [] raw [] w (omega arith) (omega arith),
        write_all-at tail enc free (omega arith) (omega arith),
        contents-at (enc ++ flatten tail) (drop (length (flatten tail)) free),
        tail-flatten (hash_input p bs),
      )

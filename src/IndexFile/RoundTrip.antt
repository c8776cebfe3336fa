-- ===== src/IndexFile/RoundTrip.antt =====
-- src/model/files/BlockIndex.cpp: `writeToFile` and `readFromFile` together.
use gradido_node.Prelude.{
  if◌then◌else◌, not, throw_if, ◌>>◌, Bool-cases, inl, inr, ℕ, ◌+◌, ◌^◌, ◌≤◌, ◌<◌, ◌≡◌, ◌≢◌, refl,
  ◌∙◌, true, Bool, ==_refl, List, [], ◌∷◌, ◌++◌, length, All, length-append, some, Outcome, ok,
  throw, hash_mismatch, arith, ◌>>=◌,
}
use gradido_node.Bytes.{le_bytes, length-le_bytes}
use gradido_node.VirtualFile.{of_bytes, new_file}
use gradido_node.VirtualFile.Laws.{at}
use gradido_node.IndexFile.{Platform, Block, IndexFile, hash_type, write_to_file}
use gradido_node.IndexFile.Reader.{Indices, bytes_eq, read_from_file, start}
use gradido_node.IndexFile.Codec.{IsWritable}
use gradido_node.IndexFile.Writing.{
  IsSized, encode_all, hash_input, total_size, length-encode_all, write_to_file-bytes,
}
use gradido_node.IndexFile.Scanning.{IsPlaced, entries, deliver, read_blocks-encode_all, size-pos}

pub bytes_eq_self : (xs : List ℕ) → bytes_eq xs xs ≡ true
unfolding bytes_eq
bytes_eq_self [] = refl
bytes_eq_self (x ∷ xs) = rw (==_refl x) (bytes_eq_self xs)

pub bytes_eq-eq : (xs ys : List ℕ) → bytes_eq xs ys ≡ true → xs ≡ ys
unfolding bytes_eq
bytes_eq-eq [] [] h = refl
bytes_eq-eq [] (y ∷ ys) h = cc
bytes_eq-eq (x ∷ xs) [] h = cc
bytes_eq-eq (x ∷ xs) (y ∷ ys) h = ground (arith, bytes_eq-eq xs ys)

of_bytes-at : (bytes : List ℕ) → 0 < length bytes → of_bytes bytes ≡ some (at [] bytes)
unfolding of_bytes new_file
of_bytes-at bytes h = ground arith

length_le_total : (p : Platform) (bs : List Block) → length bs ≤ total_size p bs
length_le_total p [] = omega arith
length_le_total p (b ∷ bs) = omega (arith, size-pos p b, length_le_total p bs)

module _ (p : Platform) {R : Type 0} (receive : Indices → R → Outcome R) where
  -- The blocks of a file with any hash behind them are delivered, and then the hash decides.
  pub read_from_file-blocks :
      (bs : List Block) (hash : List ℕ) (r : R)
      → All (IsWritable p) bs
      → All IsPlaced bs
      → length hash ≡ 32
      → total_size p bs + 34 < 2 ^ 64
      → read_from_file p receive (encode_all p bs ++ (le_bytes 1 hash_type ++ hash)) r ≡ (
          deliver receive (entries 0 0 bs) r >>= λ r'.
          if bytes_eq hash (p.hash (hash_input p bs)) then ok (true, r') else throw hash_mismatch)
  unfolding read_from_file
  read_from_file-blocks bs hash r w c e h =
      let tag = le_bytes 1 hash_type in
      let bytes = encode_all p bs ++ (tag ++ hash) in
      let fits : length bs + 33 ≤ length bytes = omega (
        arith,
        length-append (encode_all p bs) (tag ++ hash),
        length-append tag hash,
        length-le_bytes 1 hash_type,
        length-encode_all p bs w,
        length_le_total p bs,
      ) in
      rw
        (
          of_bytes-at bytes (omega arith),
          read_blocks-encode_all p receive bs (length bytes) start [] hash r w c e (omega arith)
              (omega arith),
        )
        (delivered (deliver receive (entries 0 0 bs) r))
    where
      finish : List ℕ × List ℕ × R → Outcome (Bool × R)
      finish (h, hashed, r') =
          throw_if (not (bytes_eq h (p.hash hashed))) hash_mismatch >> ok (true, r')

      delivered :
          (m : Outcome R)
          → (◌>>=◌ {B = List ℕ × List ℕ × R} m (λ r'. ok (hash, hash_input p bs, r')) >>= finish)
            ≡ (m >>= λ r'.
                if bytes_eq hash (p.hash (hash_input p bs))
                then ok (true, r')
                else throw hash_mismatch)
      delivered (throw x) = refl
      delivered (ok r') = ground arith

  -- Writing an index file and reading it gives the receiver every data block of the queue, in its
  -- order and below the year and month blocks that stand before it, and the read returns true.
  -- An exception of the receiver passes through. It holds where the sum of the sizes is that of the
  -- queued blocks, their fields fit their types, their file cursors are not negative, and the file
  -- stays below 2 ^ 64 bytes.
  pub write_to_file-read :
      (t : IndexFile) (r : R)
      → IsSized p t
      → All (IsWritable p) t.data_blocks
      → All IsPlaced t.data_blocks
      → t.data_block_sum_size + 34 < 2 ^ 64
      → (write_to_file p t >>= λ (bytes, _). read_from_file p receive bytes r)
        ≡ (deliver receive (entries 0 0 t.data_blocks) r >>= λ r'. ok (true, r'))
  write_to_file-read t r sized w c h =
      let bs = t.data_blocks in
      rw (write_to_file-bytes p t sized w (omega arith)) (
        read_from_file-blocks bs (p.hash (hash_input p bs)) r w c (p.length-hash _) (omega arith)
        ∙ rw (bytes_eq_self (p.hash (hash_input p bs))))

  -- A file of these blocks whose last bytes are not the hash of what was read throws, if the
  -- receiver takes all its calls.
  pub read_from_file_mismatch :
      (bs : List Block) (hash : List ℕ) (r r' : R)
      → All (IsWritable p) bs
      → All IsPlaced bs
      → length hash ≡ 32
      → total_size p bs + 34 < 2 ^ 64
      → deliver receive (entries 0 0 bs) r ≡ ok r'
      → hash ≢ p.hash (hash_input p bs)
      → read_from_file p receive (encode_all p bs ++ (le_bytes 1 hash_type ++ hash)) r
        ≡ throw hash_mismatch
  read_from_file_mismatch bs hash r r' w c e h taken ne =
      read_from_file-blocks bs hash r w c e h
      ∙ rw taken (elim (Bool-cases (bytes_eq hash (p.hash (hash_input p bs)))) [
        | inl same ↦ absurd (ne (bytes_eq-eq _ _ same))
        | inr differ ↦ rw differ
      ])

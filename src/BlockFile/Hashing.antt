-- ===== src/BlockFile/Hashing.antt =====
-- src/model/files/Block.cpp, calculateHash and validateHash: a file that only appendLines has written.
use gradido_node.Prelude.{
  ℕ, zero, suc, ◌+◌, ◌<◌, ◌≡◌, refl, sym, ap, ◌∙◌, true, false, List, [], ◌∷◌, ◌++◌, append_assoc,
  ltb, ◌==◌, length, take, drop, ok, All, length-append, take-append, drop-append, take-all, arith,
  lt→ltb, some, ok_injective, ◌↔◌,
}
use gradido_node.Bytes.{le_bytes, le_value, length-le_bytes, le_value-le_bytes}
use gradido_node.IndexFile.{Platform}
use gradido_node.IndexFile.RoundTrip.{bytes_eq_self, bytes_eq-eq}
use gradido_node.IndexFile.Reader.{bytes_eq}
use gradido_node.BlockFile.{
  BlockFile, keybytes, zeros, calculate_one_hash_step, hash_loop, calculate_hash, validate_hash,
}
use gradido_node.BlockFile.Lines.{
  record_of, records, IsShort, length-record_of, chain, length-chain, IsBlockFile,
}

-- The size of the record behind a prefix, and its line.
size_behind :
    (before line rest : List ℕ)
    → IsShort line
    → le_value (take 2 (drop (length before) (before ++ (record_of line ++ rest)))) ≡ length line
size_behind before line rest short =
    rw
      (
        drop-append before (record_of line ++ rest),
        append_assoc (le_bytes 2 (length line)) line rest,
      )
      (ap (λ n. le_value (take n (le_bytes 2 (length line) ++ (line ++ rest))))
          (sym (length-le_bytes 2 (length line)))
        ∙ ap le_value (take-append (le_bytes 2 (length line)) (line ++ rest))
        ∙ le_value-le_bytes 2 (length line) (omega arith))

line_behind :
    (before line rest : List ℕ)
    → take (length line) (drop (length before + 2) (before ++ (record_of line ++ rest))) ≡ line
line_behind before line rest =
    let front = before ++ le_bytes 2 (length line) in
    let two : length before + 2 ≡ length front =
      omega
        (arith, length-append before (le_bytes 2 (length line)), length-le_bytes 2 (length line)) in
    let split : before ++ (record_of line ++ rest) ≡ front ++ (line ++ rest) = simp append_assoc in
    rw (two, split)
      (ap (take (length line)) (drop-append front (line ++ rest)) ∙ take-append line rest)

module _ (p : Platform) where
  hash_loop_lem :
      (n : ℕ) (before : List ℕ) (ls : List (List ℕ)) (hash : List ℕ)
      → length (records ls) < n
      → All IsShort ls
      → hash_loop p n (before ++ records ls) (length before) hash ≡ ok (chain p ls hash)
  unfolding hash_loop calculate_one_hash_step
  hash_loop_lem zero before ls hash few short = absurd (omega arith)
  hash_loop_lem (suc n) before [] hash few short =
      let none_left : ltb (length before) (length (before ++ [])) ≡ false =
        ground (arith, length-append before []) in
      rw none_left refl
  hash_loop_lem (suc n) before (line ∷ ls) hash few short =
      let rest = records ls in
      let whole = before ++ (record_of line ++ rest) in
      let more : ltb (length before) (length whole) ≡ true = lt→ltb (length before) (length whole) (
        omega (
          arith,
          length-append before (record_of line ++ rest),
          length-append (record_of line) rest,
          length-record_of line,
        )) in
      let next : length before + 2 + length line ≡ length (before ++ record_of line) =
        omega (arith, length-append before (record_of line), length-record_of line) in
      let same : whole ≡ (before ++ record_of line) ++ rest =
        sym (append_assoc before (record_of line) rest) in
      rw (more, size_behind before line rest short.0, line_behind before line rest, next, same)
        (hash_loop_lem n (before ++ record_of line) ls (p.hash (hash ++ line))
          (omega (arith, few, length-append (record_of line) rest, length-record_of line)) short.1)

  calculate_hash-IsBlockFile :
      (fresh line : List ℕ) (ls : List (List ℕ)) (f : BlockFile)
      → IsBlockFile p (line ∷ ls) f
      → All IsShort (line ∷ ls)
      → calculate_hash p fresh f ≡ ok (some (chain p (line ∷ ls) fresh))
  unfolding calculate_hash
  calculate_hash-IsBlockFile fresh line ls f v short =
      let all = records (line ∷ ls) in
      let filled : (f.current_file_size == 0) ≡ false =
        ground
          (arith, v.size_eq, length-append (record_of line) (records ls), length-record_of line) in
      let held : take f.current_file_size f.bytes ≡ all =
        rw (v.size_eq, v.bytes_eq) (take-append all v.tail) in
      rw
        (
          filled,
          held,
          hash_loop_lem (suc f.current_file_size) [] (line ∷ ls) fresh (omega (arith, v.size_eq))
              short,
        )
        refl

  stored_hash-IsBlockFile :
      (line : List ℕ) (ls : List (List ℕ)) (f : BlockFile)
      → IsBlockFile p (line ∷ ls) f
      → take keybytes (drop f.current_file_size f.bytes) ≡ chain p (line ∷ ls) zeros
  stored_hash-IsBlockFile line ls f v =
      let hash = chain p (line ∷ ls) zeros in
      let tail : v.tail ≡ hash = v.tail_eq (λ h. ground arith) in
      let size : length hash ≡ keybytes = length-chain p (line ∷ ls) zeros (length-le_bytes 32 0) in
      rw (v.size_eq, v.bytes_eq, drop-append (records (line ∷ ls)) v.tail, tail)
        (ap (λ n. take n hash) (sym size) ∙ take-all hash)

  -- In a file that holds lines of less than 2 ^ 16 bytes, one at least, the hash is the chain over the lines that
  -- starts with what the memory of a new block holds, which nothing sets. The file is found valid exactly if
  -- that chain is the one from zeros, with which the file ends, and so where the memory is zero.
  pub validate_hash-IsBlockFile :
      (fresh line : List ℕ) (ls : List (List ℕ)) (f : BlockFile)
      → IsBlockFile p (line ∷ ls) f
      → All IsShort (line ∷ ls)
      → (calculate_hash p fresh f ≡ ok (some (chain p (line ∷ ls) fresh)))
        × (validate_hash p fresh f ≡ ok true
            ↔ chain p (line ∷ ls) zeros ≡ chain p (line ∷ ls) fresh)
        × (validate_hash p zeros f ≡ ok true)
  unfolding validate_hash
  validate_hash-IsBlockFile fresh line ls f v short =
      let from_fresh = calculate_hash-IsBlockFile fresh line ls f v short in
      let from_zeros = calculate_hash-IsBlockFile zeros line ls f v short in
      let stored = chain p (line ∷ ls) zeros in
      let hash = chain p (line ∷ ls) fresh in
      let same : validate_hash p fresh f ≡ ok (bytes_eq stored hash) =
        rw (from_fresh, stored_hash-IsBlockFile line ls f v) refl in
      (
        from_fresh,
        (
          (λ e. bytes_eq-eq stored hash (ok_injective (bytes_eq stored hash) true (sym same ∙ e))),
          (λ e. same ∙ ap ok (ap (bytes_eq stored) (sym e) ∙ bytes_eq_self stored)),
        ),
        rw (from_zeros, stored_hash-IsBlockFile line ls f v)
            (ap ok (bytes_eq_self (chain p (line ∷ ls) zeros))),
      )

-- ===== src/IndexFile/Scanning.antt =====
-- src/model/files/BlockIndex.cpp: the loop of `readFromFile` over the blocks of a written file.
use gradido_node.Prelude.{
  ℕ, zero, suc, ltb_ℤ, le→ltb, false, ◌+◌, ◌^◌, ◌≤◌, ◌<◌, ◌≡◌, refl, ◌∙◌, true, List, [], ◌∷◌, ◌++◌,
  append_assoc, append-nil, length, All, length-append, ltb, lt→ltb, pos, neg_part, Outcome, ok,
  throw, arith, ◌>>=◌,
}
use gradido_node.Bytes.{le_bytes, length-le_bytes}
use gradido_node.VirtualFile.{get_size, read}
use gradido_node.VirtualFile.Laws.{at, read-at}
use gradido_node.IndexFile.{
  Platform, Block, year_block, month_block, data_block, size, update_hash, hash_type,
}
use gradido_node.IndexFile.Reader.{
  Indices, Reading, last, indices_at, read_block, next_round, take_block, read_blocks,
}
use gradido_node.IndexFile.Codec.{
  IsWritable, encode, length-encode, next_round-encode, next_round-type,
}
use gradido_node.IndexFile.Writing.{encode_all, hash_input, total_size, length-encode_all}

-- The calls of the receiver that the blocks stand for, below a year and a month.
abbrev pub entries : ℕ → ℕ → List Block → List Indices
entries y m [] = []
entries y m (year_block y' ∷ bs) = entries y' m bs
entries y m (month_block m' ∷ bs) = entries y m' bs
entries y m (data_block d ∷ bs) = indices_at y m d ∷ entries y m bs

-- The receiver gets the calls one after another, until one throws.
abbrev pub deliver : {R : Type 0} → (Indices → R → Outcome R) → List Indices → R → Outcome R
deliver receive [] r = ok r
deliver receive (i ∷ is) r = receive i r >>= deliver receive is

-- A data block has a file cursor that is not negative.
abbrev pub IsPlaced : Block → Type 0
IsPlaced (year_block y) = Unit
IsPlaced (month_block m) = Unit
IsPlaced (data_block d) = neg_part d.file_cursor ≡ 0

pub size-pos : (p : Platform) (x : Block) → 1 ≤ size p x
unfolding size
size-pos p (year_block y) = omega arith
size-pos p (month_block m) = omega arith
size-pos p (data_block d) = omega arith

module _ (p : Platform) {R : Type 0} (receive : Indices → R → Outcome R) where
  read_blocks-encode :
      (x : Block) (n : ℕ) (s : Reading) (b after : List ℕ) (r : R)
      → IsWritable p x
      → length b + (1 + size p x + length after) < 2 ^ 64
      → read_blocks p receive (suc n) s (at b (encode p x ++ after)) r ≡ (
          take_block p receive x s r >>= λ (s', r').
          read_blocks p receive n s' (at (b ++ encode p x) after) r')
  unfolding read_blocks get_size
  read_blocks-encode x n s b after r w h =
      let guard : ltb (length b) (get_size (at b (encode p x ++ after))) ≡ true =
        lt→ltb (length b) _ (
          omega (
            arith,
            length-append b (encode p x ++ after),
            length-append (encode p x) after,
            length-encode p x w,
            size-pos p x,
          )) in
      rw (guard, next_round-encode p x b after w h)

  read_hash :
      (b hash : List ℕ)
      → length hash ≡ 32
      → length b + 32 < 2 ^ 64
      → read_block p hash_type (at b hash) ≡ ok (last hash)
  unfolding read_block
  read_hash b hash e h =
      let got = read-at 32 b hash [] e (omega arith) in
      let here : read 32 (at b hash) ≡ ok (hash, at (b ++ hash) []) = rw (append-nil hash) at got in
      rw here

  read_blocks-hash :
      (n : ℕ) (s : Reading) (b hash : List ℕ) (r : R)
      → length hash ≡ 32
      → length b + 33 < 2 ^ 64
      → read_blocks p receive (suc n) s (at b (le_bytes 1 hash_type ++ hash)) r
        ≡ ok (hash, s.hashed, r)
  unfolding read_blocks get_size next_round read_block
  read_blocks-hash n s b hash r e h =
      let tag = le_bytes 1 hash_type in
      let guard : ltb (length b) (get_size (at b (tag ++ hash))) ≡ true = lt→ltb (length b) _ (
        omega (
          arith,
          length-append b (tag ++ hash),
          length-append tag hash,
          length-le_bytes 1 hash_type,
        )) in
      rw (guard, next_round-type p hash_type b hash (omega arith) (omega arith))
        (rw (
          read_hash (b ++ tag) hash e
            (omega (arith, length-append b tag, length-le_bytes 1 hash_type))))

  -- A block is taken, and what follows delivers the rest.
  take_block-deliver :
      (x : Block) (bs : List Block) (s : Reading) (hash : List ℕ) (r : R)
      (rest : Reading × R → Outcome (List ℕ × List ℕ × R))
      → IsPlaced x
      → ((s' : Reading) (r' : R)
          → rest (s', r') ≡ (
              deliver receive (entries s'.year_cursor s'.month_cursor bs) r' >>= λ r''.
              ok (hash, s'.hashed ++ hash_input p bs, r'')))
      → (take_block p receive x s r >>= rest) ≡ (
          deliver receive (entries s.year_cursor s.month_cursor (x ∷ bs)) r >>= λ r'.
          ok (hash, s.hashed ++ hash_input p (x ∷ bs), r'))
  unfolding take_block update_hash
  take_block-deliver (year_block y) bs s hash r rest c ih = rw (ih _ r) (simp append_assoc)
  take_block-deliver (month_block m) bs s hash r rest c ih = rw (ih _ r) (simp append_assoc)
  take_block-deliver (data_block d) bs s hash r rest c ih =
      let placed : ltb_ℤ d.file_cursor (pos 0) ≡ false = le→ltb _ _ (omega arith) in
      rw placed (received (receive (indices_at s.year_cursor s.month_cursor d) r))
    where
      received :
          (m : Outcome R)
          → (m
              >>= (λ r'. ok (record s { hashed = update_hash p s.hashed (data_block d) }, r'))
              >>= rest)
            ≡ (m >>= deliver receive (entries s.year_cursor s.month_cursor bs) >>= λ r'.
                ok (hash, s.hashed ++ hash_input p (data_block d ∷ bs), r'))
      received (throw x) = refl
      received (ok r') = rw (ih _ r') (simp append_assoc)

  -- The loop over a written file gives the receiver every data block, below its year and month, in
  -- the order in which they were written, and ends with the hash of the file.
  pub read_blocks-encode_all :
      (bs : List Block) (n : ℕ) (s : Reading) (b hash : List ℕ) (r : R)
      → All (IsWritable p) bs
      → All IsPlaced bs
      → length hash ≡ 32
      → length bs ≤ n
      → length b + (total_size p bs + 34) < 2 ^ 64
      → read_blocks p receive (suc n) s (at b (encode_all p bs ++ (le_bytes 1 hash_type ++ hash))) r
        ≡ (deliver receive (entries s.year_cursor s.month_cursor bs) r >>= λ r'.
            ok (hash, s.hashed ++ hash_input p bs, r'))
  read_blocks-encode_all [] n s b hash r w c e fuel h =
      rw (append-nil s.hashed) (read_blocks-hash n s b hash r e (omega arith))
  read_blocks-encode_all (x ∷ bs) zero s b hash r w c e fuel h = absurd (omega arith)
  read_blocks-encode_all (x ∷ bs) (suc n) s b hash r w c e fuel h =
      let tag = le_bytes 1 hash_type in
      let here = length-encode p x w.0 in
      let left = length-encode_all p bs w.1 in
      let sizes = length-append (encode_all p bs) (tag ++ hash) in
      let tail_size : length (tag ++ hash) ≡ 33 =
        omega (arith, length-append tag hash, length-le_bytes 1 hash_type) in
      rw (append_assoc (encode p x) (encode_all p bs) (tag ++ hash)) (
        read_blocks-encode x (suc n) s b (encode_all p bs ++ (tag ++ hash)) r w.0 (omega arith)
        ∙ take_block-deliver x bs s hash r _ c.0 λ s' r'.
          read_blocks-encode_all bs n s' (b ++ encode p x) hash r' w.1 c.1 e (omega arith)
            (omega (arith, length-append b (encode p x))))

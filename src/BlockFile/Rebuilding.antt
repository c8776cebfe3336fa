-- ===== src/BlockFile/Rebuilding.antt =====
-- src/model/files/Block.cpp, rebuildBlockIndex: reading a block file from its start.
use gradido_node.Prelude.{
  ℕ, zero, suc, ◌+◌, ◌^◌, ◌≤◌, ◌<◌, ◌≡◌, refl, sym, ap, ◌∙◌, true, false, List, [], ◌∷◌, ◌++◌,
  append_assoc, append-nil, ltb, length, take, drop, Outcome, ok, ◌>>=◌, All, length-append,
  take-all, drop-append, arith, lt→ltb, le→ltb,
}
use gradido_node.Bytes.{length-le_bytes}
use gradido_node.IndexFile.{Platform}
use gradido_node.IndexFile.RoundTrip.{bytes_eq_self}
use gradido_node.BlockFile.{
  BlockFile, keybytes, minimal_file_size, zeros, get_open_file, read_line, calculate_one_hash_step,
  read_lines, compare_hash, rebuild_block_index,
}
use gradido_node.BlockFile.Lines.{
  record_of, records, IsShort, length-record_of, records-append, chain, length-chain, IsBlockFile,
  read_line-IsBlockFile,
}

-- A line that `readLine` accepts: its size fits in two bytes and is 27 at least.
abbrev pub IsReadable : List ℕ → Type 0
IsReadable line = IsShort line × (27 ≤ length line)

-- Lines with the cursor positions where they start, from one on, and the position behind them.
abbrev pub placed : ℕ → List (List ℕ) → List (ℕ × List ℕ)
placed cursor [] = []
placed cursor (line ∷ lines) = (cursor, line) ∷ placed (cursor + (length line + 2)) lines

abbrev end_of : ℕ → ℕ → List (List ℕ) → ℕ
end_of position cursor [] = position
end_of position cursor (line ∷ lines) =
    end_of (cursor + (length line + 2)) (cursor + (length line + 2)) lines

end_of-records :
    (line : List ℕ) (lines : List (List ℕ)) (position cursor : ℕ)
    → end_of position cursor (line ∷ lines) ≡ cursor + length (records (line ∷ lines))
end_of-records line [] position cursor =
    omega (arith, length-append (record_of line) [], length-record_of line)
end_of-records line (next ∷ lines) position cursor = omega (
  arith,
  end_of-records next lines (cursor + (length line + 2)) (cursor + (length line + 2)),
  length-append (record_of line) (records (next ∷ lines)),
  length-record_of line,
)

module _ (p : Platform) where
  read_lines-step :
      (n : ℕ) (f : BlockFile) (cursor position : ℕ) (hash line : List ℕ)
      → cursor + 27 ≤ f.current_file_size
      → read_line cursor f ≡ ok line
      → read_lines p (suc n) f cursor position hash
        ≡ ◌>>=◌ {B = List (ℕ × List ℕ) × List ℕ × ℕ}
            (read_lines p n f
              (cursor + (length line + 2))
              (cursor + (length line + 2))
              (p.hash (hash ++ line)))
            (λ (lines, hash', position'). ok ((cursor, line) ∷ lines, hash', position'))
  unfolding read_lines calculate_one_hash_step
  read_lines-step n f cursor position hash line h e =
      let more : ltb f.current_file_size (cursor + minimal_file_size) ≡ false = le→ltb _ _ h in
      rw more (rw e refl)

  read_lines-IsBlockFile :
      (n : ℕ) (f : BlockFile) (ls before after : List (List ℕ)) (position : ℕ) (hash : List ℕ)
      → ls ≡ before ++ after
      → IsBlockFile p ls f
      → All IsReadable after
      → length (records ls) < 2 ^ 31
      → length (records after) < n
      → read_lines p n f (length (records before)) position hash
        ≡ ok (
          placed (length (records before)) after,
          chain p after hash,
          end_of position (length (records before)) after,
        )
  unfolding read_lines
  read_lines-IsBlockFile zero f ls before after position hash e v r small lt = absurd (omega arith)
  read_lines-IsBlockFile (suc n) f ls before [] position hash e v r small lt =
      let stop : ltb f.current_file_size (length (records before) + minimal_file_size) ≡ true =
        lt→ltb _ _
          (omega (arith, v.size_eq, ap (λ l. length (records l)) (e ∙ append-nil before))) in
      rw stop refl
  read_lines-IsBlockFile (suc n) f ls before (line ∷ after) position hash e v ((short, long), r)
        small lt =
      read_lines-step n f (length (records before)) position hash line enough read
      ∙ ap
          (λ (o : Outcome (List (ℕ × List ℕ) × List ℕ × ℕ)).
            ◌>>=◌ {B = List (ℕ × List ℕ) × List ℕ × ℕ} o (λ (lines, hash', position').
              ok ((length (records before), line) ∷ lines, hash', position')))
          (rest (
            read_lines-IsBlockFile n f ls (before ++ line ∷ []) after
              (length (records (before ++ line ∷ []))) (p.hash (hash ++ line))
              (e ∙ sym (append_assoc before (line ∷ []) after)) v r small less))
    where
      next : length (records (before ++ line ∷ [])) ≡ length (records before) + (length line + 2)
      next = omega (
        arith,
        ap length (records-append before (line ∷ [])),
        length-append (records before) (records (line ∷ [])),
        length-append (record_of line) [],
        length-record_of line,
      )

      read : read_line (length (records before)) f ≡ ok line
      read =
          read_line-IsBlockFile p before after line f (rw (sym e) v) short long (rw (sym e) small)

      enough : length (records before) + 27 ≤ f.current_file_size
      enough = omega (
        arith,
        v.size_eq,
        ap (λ l. length (records l)) e,
        ap length (records-append before (line ∷ after)),
        length-append (records before) (records (line ∷ after)),
        length-append (record_of line) (records after),
        length-record_of line,
      )

      cursor : ℕ
      cursor = length (records before) + (length line + 2)

      less : length (records after) < n
      less = omega (arith, length-append (record_of line) (records after), length-record_of line)

      rest :
          read_lines p n f
              (length (records (before ++ line ∷ [])))
              (length (records (before ++ line ∷ [])))
              (p.hash (hash ++ line))
            ≡ ok (
              placed (length (records (before ++ line ∷ []))) after,
              chain p after (p.hash (hash ++ line)),
              end_of
                  (length (records (before ++ line ∷ [])))
                  (length (records (before ++ line ∷ [])))
                  after,
            )
          → read_lines p n f cursor cursor (p.hash (hash ++ line))
            ≡ ok (
              placed cursor after,
              chain p after (p.hash (hash ++ line)),
              end_of cursor cursor after,
            )
      rest h = rw next at h

  -- Rebuilding the index from a file that holds lines, one at least and all of them readable, below
  -- 2 ^ 31 bytes, delivers every line with the position where it starts, in their order, from wherever
  -- the stream stands; the hash at the end of the file is confirmed.
  pub rebuild_block_index-IsBlockFile :
      (line : List ℕ) (lines : List (List ℕ)) (f : BlockFile) (position : ℕ)
      → IsBlockFile p (line ∷ lines) f
      → All IsReadable (line ∷ lines)
      → length (records (line ∷ lines)) < 2 ^ 31
      → rebuild_block_index p position f ≡ ok (placed 0 (line ∷ lines))
  unfolding rebuild_block_index
  rebuild_block_index-IsBlockFile line lines f position v r small =
      ap (λ (o : Outcome (List (ℕ × List ℕ) × List ℕ × ℕ)). o >>= compare_hash p f)
        (read_lines-IsBlockFile (suc f.current_file_size) f (line ∷ lines) [] (line ∷ lines)
          position zeros refl v r small (omega (arith, v.size_eq)))
      ∙ confirmed
    where
      hash : List ℕ
      hash = chain p (line ∷ lines) zeros

      tail : v.tail ≡ hash
      tail = v.tail_eq (λ h. ground arith)

      stored : take keybytes (drop (end_of position 0 (line ∷ lines)) f.bytes) ≡ hash
      stored =
          ap (λ n. take keybytes (drop n f.bytes))
            (end_of-records line lines position 0
              ∙ (let z : 0 + length (records (line ∷ lines)) ≡ length (records (line ∷ lines)) =
                    omega arith in
                  z))
          ∙ ap (λ l. take keybytes (drop (length (records (line ∷ lines))) l)) v.bytes_eq
          ∙ ap (take keybytes) (drop-append (records (line ∷ lines)) v.tail ∙ tail)
          ∙ ap (λ n. take n hash) (sym (length-chain p (line ∷ lines) zeros (length-le_bytes 32 0)))
          ∙ take-all hash

      confirmed :
          compare_hash p f (placed 0 (line ∷ lines), hash, end_of position 0 (line ∷ lines))
          ≡ ok (placed 0 (line ∷ lines))
      confirmed = rw (stored, bytes_eq_self hash) refl

  -- Opening the bytes of a file that holds lines again, below 2 ^ 31 bytes, finds the same lines.
  pub get_open_file-IsBlockFile :
      (ls : List (List ℕ)) (f : BlockFile)
      → IsBlockFile p ls f
      → length (records ls) < 2 ^ 31
      → IsBlockFile p ls (get_open_file f.bytes)
  unfolding get_open_file
  get_open_file-IsBlockFile [] f v small =
      let short : ltb keybytes (length f.bytes) ≡ false =
        le→ltb _ _ (omega (arith, ap length v.bytes_eq, v.tail_fits)) in
      record {
        tail = v.tail;
        bytes_eq = v.bytes_eq;
        size_eq = rw short refl;
        tail_fits = v.tail_fits;
        tail_eq = v.tail_eq;
      }
  get_open_file-IsBlockFile (l ∷ ls) f v small = record {
    tail = v.tail;
    bytes_eq = v.bytes_eq;
    size_eq = rw long (omega (arith, total));
    tail_fits = v.tail_fits;
    tail_eq = v.tail_eq;
  }
    where
      total : length f.bytes ≡ length (records (l ∷ ls)) + 32
      total =
          ap length v.bytes_eq
          ∙ length-append (records (l ∷ ls)) v.tail
          ∙ ap (λ n. length (records (l ∷ ls)) + n)
              (ap length (v.tail_eq (λ h. ground arith))
                ∙ length-chain p (l ∷ ls) zeros (length-le_bytes 32 0))

      long : ltb keybytes (length f.bytes) ≡ true
      long =
          lt→ltb _ _
            (omega (arith, total, length-append (record_of l) (records ls), length-record_of l))

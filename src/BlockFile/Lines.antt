-- ===== src/BlockFile/Lines.antt =====
-- src/model/files/Block.cpp, appendLines and readLine: a block file as the lines that it holds.
use gradido_node.Prelude.{
  ℕ, zero, suc, ◌+◌, ◌%◌, ◌^◌, ◌≤◌, ◌<◌, ◌≡◌, ◌≢◌, refl, sym, ap, ◌∙◌, true, false, List, [], ◌∷◌,
  ◌++◌, append_assoc, append-nil, ltb, length, take, drop, ok, All, length-append, take-all,
  take-append, drop-append, arith, lt→ltb,
}
use gradido_node.Bytes.{le_bytes, le_value, length-le_bytes, le_value-le_bytes}
use gradido_node.IndexFile.{Platform}
use gradido_node.BlockFile.{
  BlockFile, zeros, read_sized, read_line, overwrite, calculate_one_hash_step, append_loop,
  current_hash, append_lines,
}

-- The bytes of a line and of lines.
abbrev pub record_of : List ℕ → List ℕ
record_of line = le_bytes 2 (length line) ++ line

abbrev pub records : List (List ℕ) → List ℕ
records [] = []
records (line ∷ lines) = record_of line ++ records lines

-- The cursor positions of lines from one on.
abbrev pub positions : ℕ → List (List ℕ) → List ℕ
positions cursor [] = []
positions cursor (line ∷ lines) = cursor ∷ positions (cursor + (2 + length line)) lines

-- A line whose size fits in two bytes.
abbrev pub IsShort : List ℕ → Type 0
IsShort line = length line < 2 ^ 16

pub length-record_of : (line : List ℕ) → length (record_of line) ≡ 2 + length line
length-record_of line =
    omega (arith, length-append (le_bytes 2 (length line)) line, length-le_bytes 2 (length line))

pub records-append : (xs ys : List (List ℕ)) → records (xs ++ ys) ≡ records xs ++ records ys
records-append [] ys = refl
records-append (x ∷ xs) ys =
    ap (λ l. record_of x ++ l) (records-append xs ys)
    ∙ sym (append_assoc (record_of x) (records xs) (records ys))

pub records_empty : (ls : List (List ℕ)) → length (records ls) ≡ 0 → ls ≡ []
records_empty [] h = refl
records_empty (l ∷ ls) h =
    absurd (omega (arith, length-append (record_of l) (records ls), length-record_of l))

pub drop_all : (k : ℕ) (xs : List ℕ) → length xs ≤ k → drop k xs ≡ []
drop_all zero [] h = refl
drop_all zero (x ∷ xs) h = absurd (omega arith)
drop_all (suc k) [] h = refl
drop_all (suc k) (x ∷ xs) h = drop_all k xs (omega arith)

module _ (p : Platform) where
  -- The hash over lines, from a hash on.
  abbrev pub chain : List (List ℕ) → List ℕ → List ℕ
  chain [] hash = hash
  chain (line ∷ lines) hash = chain lines (p.hash (hash ++ line))

  pub chain-append :
      (xs ys : List (List ℕ)) (hash : List ℕ) → chain (xs ++ ys) hash ≡ chain ys (chain xs hash)
  chain-append [] ys hash = refl
  chain-append (x ∷ xs) ys hash = chain-append xs ys (p.hash (hash ++ x))

  pub length-chain :
      (xs : List (List ℕ)) (hash : List ℕ) → length hash ≡ 32 → length (chain xs hash) ≡ 32
  length-chain [] hash h = h
  length-chain (x ∷ xs) hash h = length-chain xs (p.hash (hash ++ x)) (p.length-hash (hash ++ x))

  -- The file holds the lines and, where there are any, the hash over them behind them.
  pub record IsBlockFile (ls : List (List ℕ)) (f : BlockFile) : Type 0 where
    pub tail : List ℕ
    pub bytes_eq : f.bytes ≡ records ls ++ tail
    pub size_eq : f.current_file_size ≡ length (records ls)
    pub tail_fits : length tail ≤ 32
    pub tail_eq : ls ≢ [] → tail ≡ chain ls zeros

  pub append_loop_lem :
      (lines : List (List ℕ)) (cursor : ℕ) (hash : List ℕ)
      → All IsShort lines
      → append_loop p lines cursor hash ≡ record {
        cursor_positions = positions cursor lines;
        written = records lines;
        last_hash = chain lines hash;
      }
  unfolding append_loop calculate_one_hash_step
  append_loop_lem [] cursor hash h = refl
  append_loop_lem (line ∷ lines) cursor hash (short, h) =
      let size : length line % 2 ^ 16 ≡ length line = omega arith in
      rw (size, take-all line)
        (rw (append_loop_lem lines (cursor + (2 + length line)) (p.hash (hash ++ line)) h) refl)

  pub current_hash_lem :
      (ls : List (List ℕ)) (f : BlockFile) → IsBlockFile ls f → current_hash p f ≡ chain ls zeros
  unfolding current_hash
  current_hash_lem [] f v =
      let none_yet : ltb 0 f.current_file_size ≡ false = rw v.size_eq refl in rw none_yet refl
  current_hash_lem (l ∷ ls) f v =
      let e : v.tail ≡ chain (l ∷ ls) zeros = v.tail_eq (λ h. ground arith) in
      let some_yet : ltb 0 f.current_file_size ≡ true =
        lt→ltb 0 _ (
          omega (arith, v.size_eq, length-append (record_of l) (records ls), length-record_of l)) in
      let size : length v.tail ≡ 32 =
        ap length e ∙ length-chain (l ∷ ls) zeros (length-le_bytes 32 0) in
      rw some_yet (
        rw (v.size_eq, v.bytes_eq, drop-append (records (l ∷ ls)) v.tail)
          (ap (λ n. take n v.tail) (sym size) ∙ take-all v.tail ∙ e))

  -- Appending short lines to a file that holds lines, below 2 ^ 31 bytes in all, returns where each of
  -- them starts and gives the file that holds them behind the lines that it had.
  pub append_lines-IsBlockFile :
      (ls lines : List (List ℕ)) (f : BlockFile)
      → IsBlockFile ls f
      → All IsShort lines
      → length (records (ls ++ lines)) < 2 ^ 31
      → ((append_lines p lines f).0 ≡ positions (length (records ls)) lines)
        × IsBlockFile (ls ++ lines) (append_lines p lines f).1
  unfolding append_lines
  append_lines-IsBlockFile ls lines f v short small =
      rw (append_loop_lem lines f.current_file_size (current_hash p f) short)
        (ap (λ n. positions n lines) v.size_eq, valid)
    where
      c : List ℕ
      c = chain lines (current_hash p f)

      new : List ℕ
      new = records lines ++ c

      c_eq : c ≡ chain (ls ++ lines) zeros
      c_eq = ap (chain lines) (current_hash_lem ls f v) ∙ sym (chain-append ls lines zeros)

      c_length : length c ≡ 32
      c_length = ap length c_eq ∙ length-chain (ls ++ lines) zeros (length-le_bytes 32 0)

      rest_eq : drop (f.current_file_size + length new) f.bytes ≡ []
      rest_eq = drop_all _ f.bytes (
          omega (
            arith,
            v.size_eq,
            c_length,
            v.tail_fits,
            length-append (records lines) c,
            ap length v.bytes_eq,
            length-append (records ls) v.tail,
          ))

      start_eq : take f.current_file_size f.bytes ≡ records ls
      start_eq = rw (v.size_eq, v.bytes_eq) (take-append (records ls) v.tail)

      held : overwrite f.current_file_size new f.bytes ≡ records (ls ++ lines) ++ c
      held =
          rw (start_eq, rest_eq)
            (append-nil (records ls ++ new)
              ∙ sym (append_assoc (records ls) (records lines) c)
              ∙ ap (λ l. l ++ c) (sym (records-append ls lines)))

      valid : IsBlockFile (ls ++ lines) (record {
        bytes = overwrite f.current_file_size new f.bytes;
        current_file_size = (f.current_file_size + length (records lines)) % 2 ^ 32;
      })
      valid = record {
        tail = c;
        bytes_eq = held;
        size_eq = omega (
          arith,
          v.size_eq,
          ap length (records-append ls lines),
          length-append (records ls) (records lines),
        );
        tail_fits = omega (arith, c_length);
        tail_eq = λ h. c_eq;
      }

  -- A line of 27 bytes at least and below 2 ^ 16 bytes that the file holds is read from where it
  -- starts, in a file below 2 ^ 31 bytes.
  pub read_line-IsBlockFile :
      (before after : List (List ℕ)) (line : List ℕ) (f : BlockFile)
      → IsBlockFile (before ++ line ∷ after) f
      → IsShort line
      → 27 ≤ length line
      → length (records (before ++ line ∷ after)) < 2 ^ 31
      → read_line (length (records before)) f ≡ ok line
  unfolding read_line read_sized
  read_line-IsBlockFile before after line f v short long small =
      ground (arith, size, drop_two, whole, end_of_line)
    where
      rest : List ℕ
      rest = records after ++ v.tail

      held : f.bytes ≡ records before ++ (le_bytes 2 (length line) ++ (line ++ rest))
      held = v.bytes_eq ∙ rw (records-append before (line ∷ after)) (simp append_assoc)

      start : ℕ
      start = length (records before)

      drop_start : drop start f.bytes ≡ le_bytes 2 (length line) ++ (line ++ rest)
      drop_start = rw held (drop-append (records before) _)

      size : le_value (take 2 (drop start f.bytes)) ≡ length line
      size =
          ap (λ l. le_value (take 2 l)) drop_start
          ∙ ap (λ n. le_value (take n (le_bytes 2 (length line) ++ (line ++ rest))))
              (sym (length-le_bytes 2 (length line)))
          ∙ ap le_value (take-append (le_bytes 2 (length line)) (line ++ rest))
          ∙ le_value-le_bytes 2 (length line) (omega arith)

      two : start + 2 ≡ length (records before ++ le_bytes 2 (length line))
      two = omega (
        arith,
        length-append (records before) (le_bytes 2 (length line)),
        length-le_bytes 2 (length line),
      )

      drop_two : take (length line) (drop (start + 2) f.bytes) ≡ line
      drop_two =
          ap (λ l. take (length line) (drop (start + 2) l))
            (held ∙ sym (append_assoc (records before) (le_bytes 2 (length line)) (line ++ rest)))
          ∙ ap
              (λ n.
                take (length line)
                  (drop n ((records before ++ le_bytes 2 (length line)) ++ (line ++ rest))))
              two
          ∙ ap (take (length line))
              (drop-append (records before ++ le_bytes 2 (length line)) (line ++ rest))
          ∙ take-append line rest

      whole : f.current_file_size ≡ start + (2 + length line) + length (records after)
      whole = omega (
        arith,
        v.size_eq,
        ap length (records-append before (line ∷ after)),
        length-append (records before) (records (line ∷ after)),
        length-append (record_of line) (records after),
        length-record_of line,
      )

      end_of_line : (start + length line) % 2 ^ 32 ≡ start + length line
      end_of_line = omega (arith, whole, v.size_eq)

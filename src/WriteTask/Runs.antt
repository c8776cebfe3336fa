-- ===== src/WriteTask/Runs.antt =====
-- src/task/WriteTransactionsToBlockTask.cpp, run: where the transactions of a task are found after it.
use gradido_node.Prelude.{
  ℕ, suc, ◌+◌, ◌^◌, ◌≤◌, ◌<◌, ◌≡◌, ◌⊎◌, inl, inr, refl, sym, ap, Bool, true, false, List, [], ◌∷◌,
  ◌++◌, append_assoc, some, none, Option, length, All, length-append, Outcome, ok, throw, ℤ, pos,
  arith,
}
use mathlib.Core.Path.{subst}
use gradido_node.OrderedMap.{Map, find}
use gradido_node.IndexFile.{Platform}
use gradido_node.BlockIndex.Validity.{IsValid}
use gradido_node.BlockFile.{BlockFile, read_line}
use gradido_node.BlockFile.Lines.{
  IsBlockFile, IsShort, records, record_of, records-append, length-record_of,
  append_lines-IsBlockFile, read_line-IsBlockFile,
}
use gradido_node.WriteTask.{
  Heap, Shared, narrow, is_gap, has_gap, lines_of, unless_thrown, saved, save_index,
  append_transactions, run,
}
use gradido_node.WriteTask.Placing.{Follows, IsSame, ArePlaced, HavePlaced, place_all_lem}

narrow-small : (n : ℕ) → n < 2 ^ 31 → narrow n ≡ pos n
narrow-small n h = ground arith

is_gap-next : (last n : ℕ) → n < 2 ^ 31 → (last ≡ 0) ⊎ (suc last ≡ n) → is_gap (pos last) n ≡ false
is_gap-next last n h l = ground arith

has_gap_none :
    (h : Heap) (es : Map ℕ) (last n : ℕ)
    → Follows h n es
    → n + length es ≤ 2 ^ 31
    → (last ≡ 0) ⊎ (suc last ≡ n)
    → has_gap h (pos last) es ≡ false
unfolding has_gap
has_gap_none h [] last n f fits l = refl
has_gap_none h ((k, ptr) ∷ es) last n f fits l =
    let rest : has_gap h (pos n) es ≡ false =
      has_gap_none h es n (suc n) f.2 (omega arith) (inr refl) in
    rw (f.1, is_gap-next last n (omega arith) l, narrow-small n (omega arith)) rest

-- Each transaction has a file cursor in the index, and the file has its line there.
abbrev pub AreStored : Heap → Map ℕ → Map ℤ → BlockFile → Type 0
AreStored h [] cursors f = Unit
AreStored h ((k, ptr) ∷ es) cursors f =
    ((c : ℕ) × (find k cursors ≡ some (pos c))
      × (read_line c f ≡ ok (h.at ptr).serialized_transaction))
    × AreStored h es cursors f

-- A line that the file can give back.
abbrev pub IsLine : List ℕ → Type 0
IsLine line = IsShort line × (27 ≤ length line)

All-IsShort : (lines : List (List ℕ)) → All IsLine lines → All IsShort lines
All-IsShort [] a = tt
All-IsShort (line ∷ lines) a = (a.0.0, All-IsShort lines a.1)

module _ (p : Platform) where
  stored_lem :
      (h : Heap) (before : List (List ℕ)) (es : Map ℕ) (s : Shared)
      → IsBlockFile p (before ++ lines_of h es) s.block_file
      → All IsLine (lines_of h es)
      → length (records (before ++ lines_of h es)) < 2 ^ 31
      → ArePlaced h s.block_index.transaction_nrs_file_cursors (length (records before)) es
      → AreStored h es s.block_index.transaction_nrs_file_cursors s.block_file
  unfolding lines_of
  stored_lem h before [] s v a small placed = tt
  stored_lem h before ((k, ptr) ∷ es) s v a small placed =
      let line = (h.at ptr).serialized_transaction in
      let assoc : (before ++ line ∷ []) ++ lines_of h es ≡ before ++ line ∷ lines_of h es =
        append_assoc before (line ∷ []) (lines_of h es) in
      let start : length (records (before ++ line ∷ []))
          ≡ length (records before) + (2 + length line) =
        omega (
          arith,
          ap length (records-append before (line ∷ [])),
          length-append (records before) (record_of line ++ []),
          length-append (record_of line) [],
          length-record_of line,
        ) in
      (
        (
          length (records before),
          placed.0,
          read_line-IsBlockFile p before (lines_of h es) line s.block_file v a.0.0 a.0.1 small,
        ),
        stored_lem h (before ++ line ∷ []) es s
            (subst (λ ls. IsBlockFile p ls s.block_file) (sym assoc) v) a.1 (rw assoc small)
            (subst (λ n. ArePlaced h s.block_index.transaction_nrs_file_cursors n es) (sym start)
              placed.1),
      )

  -- What a run leaves, seen from the heap before it.
  pub record HasRun (h : Heap) (es : Map ℕ) (ls : List (List ℕ)) (s : Shared) : Type 0 where
    pub stored : AreStored h es s.block_index.transaction_nrs_file_cursors s.block_file
    pub file : IsBlockFile p (ls ++ lines_of h es) s.block_file
    pub valid : IsValid s.block_index
    pub same : IsSame h s.heap

  saved-HasRun :
      (h : Heap) (es : Map ℕ) (ls : List (List ℕ)) (o : Outcome (Option (List ℕ))) (s : Shared)
      → HasRun h es ls s
      → HasRun h es ls (saved o s).1
  saved-HasRun h es ls (throw e) s r = r
  saved-HasRun h es ls (ok none) s r = r
  saved-HasRun h es ls (ok (some bytes)) s r = record {
    stored = r.stored;
    file = r.file;
    valid = r.valid;
    same = r.same;
  }

  finished_lem :
      (h : Heap) (es : Map ℕ) (ls : List (List ℕ)) (n start : ℕ) (s0 : Shared)
      (r : Outcome Bool × Shared)
      → start ≡ length (records ls)
      → HavePlaced h n start es s0 r
      → IsBlockFile p (ls ++ lines_of h es) s0.block_file
      → All IsLine (lines_of h es)
      → length (records (ls ++ lines_of h es)) < 2 ^ 31
      → HasRun h es ls (unless_thrown r (save_index p)).1
  unfolding save_index
  finished_lem h es ls n start s0 (throw e, s) at placed file long small =
      let no : throw e ≡ ok true = placed.result in absurd (ground arith)
  finished_lem h es ls n start s0 (ok b, s) at placed file long small =
      let file' : IsBlockFile p (ls ++ lines_of h es) s.block_file = rw placed.file_eq file in
      let placed' : ArePlaced h s.block_index.transaction_nrs_file_cursors (length (records ls))
          es =
        subst (λ k. ArePlaced h s.block_index.transaction_nrs_file_cursors k es) at placed.placed in
      saved-HasRun h es ls _ s (record {
        stored = stored_lem h ls es s file' long small placed';
        file = file';
        valid = placed.valid;
        same = placed.same;
      })

  -- Running a task writes every transaction of it, whether or not the index file can be written: the
  -- index then has a file cursor for each at which the block file has exactly its line, the lines that
  -- the file had stay in front, and the index stays valid. It holds in a block file that holds lines and
  -- a valid index, for transactions with numbers below 2 ^ 31 without a gap that have no file cursor yet, with lines
  -- of 27 to 65535 bytes, below 2 ^ 31 bytes in all, where the file is not empty or the first number is
  -- the smallest of the block.
  pub run-HasRun :
      (ls : List (List ℕ)) (es : Map ℕ) (n : ℕ) (s : Shared)
      → IsBlockFile p ls s.block_file
      → IsValid s.block_index
      → Follows s.heap n es
      → n + length es ≤ 2 ^ 31
      → ((j : ℕ) → n ≤ j → find j s.block_index.transaction_nrs_file_cursors ≡ none)
      → All IsLine (lines_of s.heap es)
      → length (records (ls ++ lines_of s.heap es)) < 2 ^ 31
      → (0 < length (records ls)) ⊎ (n ≤ s.block_index.min_transaction_nr)
      → HasRun s.heap es ls (run p es s).1
  unfolding run append_transactions
  run-HasRun ls es n s v u f fits new long small first =
      let lines = lines_of s.heap es in
      let appended =
        append_lines-IsBlockFile p ls lines s.block_file v (All-IsShort lines long) small in
      let s1 = (append_transactions p es s).1 in
      let bound : length (records ls) + length (records lines) < 2 ^ 31 = omega (
        arith,
        small,
        ap length (records-append ls lines),
        length-append (records ls) (records lines),
      ) in
      let placed =
        place_all_lem s.heap es (length (records ls)) n s1 u
          (record { nr_eq = λ q. refl; line_eq = λ q. refl }) f new bound first in
      rw (has_gap_none s.heap es 0 n f fits (inl refl), appended.0)
        (finished_lem s.heap es ls n (length (records ls)) s1 _ refl placed appended.1 long small)

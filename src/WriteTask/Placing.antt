-- ===== src/WriteTask/Placing.antt =====
-- src/task/WriteTransactionsToBlockTask.cpp, run: the loop over the cursor positions.
use gradido_node.Prelude.{
  ℕ, suc, ◌+◌, ◌^◌, ◌≤◌, ◌<◌, ◌≡◌, ◌⊎◌, inl, refl, ◌∙◌, Bool, true, [], ◌∷◌, some, none, ltb, ◌==◌,
  if◌then◌else◌, length, length-append, Outcome, ok, throw, ℤ, pos, arith, lt→ltb,
}
use gradido_node.OrderedMap.{Map, find, find-insert}
use gradido_node.BlockIndex.{BlockIndex, add_file_cursor}
use gradido_node.BlockIndex.Validity.{IsValid, add_file_cursor-IsValid}
use gradido_node.BlockFile.Lines.{positions, records, record_of, length-record_of}
use gradido_node.WriteTask.{
  Heap, Shared, transaction_nr_at, set_file_cursor, with_cursor, lines_of, unless_thrown, place,
  place_all,
}

-- The transactions of a task have the numbers from one on, each under its number.
abbrev pub Follows : Heap → ℕ → Map ℕ → Type 0
Follows h n [] = Unit
Follows h n ((k, ptr) ∷ es) = (k ≡ n) × (transaction_nr_at h ptr ≡ n) × Follows h (suc n) es

-- A new file cursor is taken, unless it is zero and a smaller number is in the block.
add_file_cursor_new :
    (nr c j : ℕ) (x : BlockIndex)
    → IsValid x
    → find nr x.transaction_nrs_file_cursors ≡ none
    → (0 < c) ⊎ (nr ≤ x.min_transaction_nr)
    → let (result, y) = add_file_cursor nr (pos c) x in
      (result ≡ ok true)
      × (find j y.transaction_nrs_file_cursors
          ≡ (if nr == j then some (pos c) else find j x.transaction_nrs_file_cursors))
      × (y.min_transaction_nr ≡ x.min_transaction_nr)
unfolding add_file_cursor
add_file_cursor_new nr c j x v new h =
    let found = find-insert nr j (pos c) 0 x.transaction_nrs_file_cursors v.cursors new in
    ground arith

-- Two heaps with the same entries but for the file cursors.
pub record IsSame (h g : Heap) : Type 0 where
  pub nr_eq : (q : ℕ) → transaction_nr_at g q ≡ transaction_nr_at h q
  pub line_eq : (q : ℕ) → (g.at q).serialized_transaction ≡ (h.at q).serialized_transaction

pub set_file_cursor-IsSame :
    (h g : Heap) (ptr : ℕ) (c : ℤ) → IsSame h g → IsSame h (set_file_cursor ptr c g)
unfolding set_file_cursor with_cursor
set_file_cursor-IsSame h g ptr c s = record {
  nr_eq = λ q. ground (arith, s.nr_eq q);
  line_eq = λ q. ground (arith, s.line_eq q);
}

-- Each transaction has its file cursor in the index, from a position on.
abbrev pub ArePlaced : Heap → Map ℤ → ℕ → Map ℕ → Type 0
ArePlaced h cursors start [] = Unit
ArePlaced h cursors start ((k, ptr) ∷ es) =
    (find k cursors ≡ some (pos start))
    × ArePlaced h cursors (start + (2 + length (h.at ptr).serialized_transaction)) es

-- What placing the transaction of a number leaves.
record HasPlaced (h : Heap) (n c : ℕ) (s : Shared) (r : Outcome Bool × Shared) : Type 0 where
  result : r.0 ≡ ok true
  valid : IsValid r.1.block_index
  same : IsSame h r.1.heap
  found :
      (j : ℕ)
      → find j r.1.block_index.transaction_nrs_file_cursors
        ≡ (if n == j then some (pos c) else find j s.block_index.transaction_nrs_file_cursors)
  min_eq : r.1.block_index.min_transaction_nr ≡ s.block_index.min_transaction_nr
  file_eq : r.1.block_file ≡ s.block_file

place_lem :
    (h : Heap) (ptr c n : ℕ) (s : Shared)
    → IsValid s.block_index
    → IsSame h s.heap
    → transaction_nr_at h ptr ≡ n
    → find n s.block_index.transaction_nrs_file_cursors ≡ none
    → c < 2 ^ 31
    → (0 < c) ⊎ (n ≤ s.block_index.min_transaction_nr)
    → HasPlaced h n c s (place ptr c s)
unfolding place
place_lem h ptr c n s v same nr new fits first =
    let nr' : transaction_nr_at s.heap ptr ≡ n = same.nr_eq ptr ∙ nr in
    let fits' : ltb c (2 ^ 31) ≡ true = lt→ltb c (2 ^ 31) fits in
    let step = λ (j : ℕ). add_file_cursor_new n c j s.block_index v new first in
    rw (nr', fits')
      (record {
        result = (step 0).0;
        valid = add_file_cursor-IsValid n (pos c) s.block_index v;
        same = set_file_cursor-IsSame h s.heap ptr (pos c) same;
        found = λ j. (step j).1;
        min_eq = (step 0).2;
        file_eq = refl;
      })

-- What the loop leaves: every transaction placed, the smaller numbers as they were.
pub record HavePlaced (h : Heap) (n start : ℕ) (es : Map ℕ) (s : Shared) (r : Outcome Bool × Shared)
    : Type 0 where
  pub result : r.0 ≡ ok true
  pub valid : IsValid r.1.block_index
  pub same : IsSame h r.1.heap
  pub placed : ArePlaced h r.1.block_index.transaction_nrs_file_cursors start es
  pub kept :
      (j : ℕ)
      → j < n
      → find j r.1.block_index.transaction_nrs_file_cursors
        ≡ find j s.block_index.transaction_nrs_file_cursors
  pub file_eq : r.1.block_file ≡ s.block_file

placed_then :
    (h : Heap) (k ptr : ℕ) (es : Map ℕ) (n start : ℕ) (s : Shared) (r : Outcome Bool × Shared)
    (next : Shared → Outcome Bool × Shared)
    → k ≡ n
    → HasPlaced h n start s r
    → HavePlaced h
        (suc n)
        (start + (2 + length (h.at ptr).serialized_transaction))
        es
        r.1
        (next r.1)
    → HavePlaced h n start ((k, ptr) ∷ es) s (unless_thrown r next)
placed_then h k ptr es n start s (throw e, s1) next eq one rest =
    let no : throw e ≡ ok true = one.result in absurd (ground arith)
placed_then h k ptr es n start s (ok b, s1) next eq one rest = record {
  result = rest.result;
  valid = rest.valid;
  same = rest.same;
  placed = (rw eq (rest.kept n (omega arith) ∙ one.found n ∙ ground arith), rest.placed);
  kept = λ j l. rest.kept j (omega arith) ∙ one.found j ∙ ground arith;
  file_eq = rest.file_eq ∙ one.file_eq;
}

pub place_all_lem :
    (h : Heap) (es : Map ℕ) (start n : ℕ) (s : Shared)
    → IsValid s.block_index
    → IsSame h s.heap
    → Follows h n es
    → ((j : ℕ) → n ≤ j → find j s.block_index.transaction_nrs_file_cursors ≡ none)
    → start + length (records (lines_of h es)) < 2 ^ 31
    → (0 < start) ⊎ (n ≤ s.block_index.min_transaction_nr)
    → HavePlaced h n start es s (place_all es (positions start (lines_of h es)) s)
unfolding place_all lines_of
place_all_lem h [] start n s v same f new fits first = record {
  result = refl;
  valid = v;
  same = same;
  placed = tt;
  kept = λ j l. refl;
  file_eq = refl;
}
place_all_lem h ((k, ptr) ∷ es) start n s v same f new fits first =
    let line = (h.at ptr).serialized_transaction in
    let size = length-record_of line in
    let all = length-append (record_of line) (records (lines_of h es)) in
    let one =
      place_lem h ptr start n s v same f.1 (new n (omega arith)) (omega (arith, fits)) first in
    let s1 = (place ptr start s).1 in
    let rest : HavePlaced h (suc n) (start + (2 + length line)) es s1
        (place_all es (positions (start + (2 + length line)) (lines_of h es)) s1) =
      place_all_lem h es (start + (2 + length line)) (suc n) s1 one.valid one.same f.2
        (λ j l. one.found j ∙ ground (arith, new j (omega arith))) (omega (arith, fits, size, all))
        (inl (omega arith)) in
    placed_then h k ptr es n start s (place ptr start s) _ f.0 one rest

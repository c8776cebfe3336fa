-- ===== src/CacheBlock/Finding.antt =====
-- src/cache/Block.cpp, getTransaction: what it answers for a transaction that the block has.
use gradido_node.Prelude.{
  ℕ, zero, suc, ◌<◌, ◌≡◌, ◌⊎◌, inl, inr, refl, ap, ◌∙◌, sym, true, false, List, Option, none, some,
  ltb, ◌&&◌, Outcome, ok, ℤ, pos, arith, Option-cases, Bool-cases,
}
use gradido_node.OrderedMap.{Map, find}
use gradido_node.BlockIndex.{NodeTransactionEntry, is_zero}
use gradido_node.BlockIndex.Persist.{wait_for_cursor, get_file_cursor_for_transaction_nr}
use gradido_node.BlockFile.{read_line}
use gradido_node.TaskObserver.{is_transaction_pending}
use gradido_node.WriteTask.{Heap, WriteTask, make_shared}
use gradido_node.WriteTask
use gradido_node.TaskObserver
use gradido_node.ExpireCache.{ExpireCache, IsCache}
use gradido_node.CacheBlock.{Block}
use gradido_node.CacheBlock.Getting.{
  cached, add_transaction_line, catch_end_reaching, got_after_reading, got_after_adding,
  read_transaction, second_look, read_at, look_again, get_from_file, found_or, get_from_observer,
  get_from_task, get_uncached, get_transaction,
}

-- The pointer is one of the heap, and its entry has the serialized transaction.
pub record Holds (h : Heap) (line : List ℕ) (ptr : ℕ) : Type 0 where
  pub allocated : ptr < h.next
  pub line_eq : (h.at ptr).serialized_transaction ≡ line

-- While file cursors do not change, the wait for one changes nothing.
wait_for_cursor_still : (n : ℕ) (m : Map ℤ) (k nr : ℕ) → wait_for_cursor n (λ j. m) k nr ≡ find nr m
unfolding wait_for_cursor
wait_for_cursor_still zero m k nr = refl
wait_for_cursor_still (suc n) m k nr = ground (arith, wait_for_cursor_still n m (suc k) nr)

file_cursor_still :
    (m : Map ℤ) (nr : ℕ) → get_file_cursor_for_transaction_nr (λ j. m) nr ≡ find nr m
unfolding get_file_cursor_for_transaction_nr
file_cursor_still m nr = ground (arith, wait_for_cursor_still 100 m 0 nr)

module _ {C : Type 0} (cache : ExpireCache ℕ ℕ C)
    (deserialize : List ℕ → ℤ → Outcome NodeTransactionEntry) where
  -- The transaction stands in the block file where the index says, and is one of that number.
  pub record IsInFile (nr : ℕ) (line : List ℕ) (b : Block C) : Type 0 where
    pub cursor : ℕ
    pub cursor_eq : find nr b.shared.block_index.transaction_nrs_file_cursors ≡ some (pos cursor)
    pub line_eq : read_line cursor b.shared.block_file ≡ ok line
    pub node : NodeTransactionEntry
    pub node_eq : deserialize line (pos cursor) ≡ ok node
    pub nr_eq : node.transaction_nr ≡ nr
    pub open_eq : b.exit_called ≡ false

  -- It depends on the file cursors, the file and whether the block is in use.
  pub IsInFile-move :
      (nr : ℕ) (line : List ℕ) (b b' : Block C)
      → b'.shared.block_index.transaction_nrs_file_cursors
        ≡ b.shared.block_index.transaction_nrs_file_cursors
      → b'.shared.block_file ≡ b.shared.block_file
      → b'.exit_called ≡ b.exit_called
      → IsInFile nr line b
      → IsInFile nr line b'
  IsInFile-move nr line b b' cursors file exited v = record {
    cursor = v.cursor;
    cursor_eq = ap (find nr) cursors ∙ v.cursor_eq;
    line_eq = ap (read_line v.cursor) file ∙ v.line_eq;
    node = v.node;
    node_eq = v.node_eq;
    nr_eq = v.nr_eq;
    open_eq = exited ∙ v.open_eq;
  }

  -- What holds the transaction for sure.
  abbrev pub IsKept : ℕ → List ℕ → Block C → Type 0
  IsKept nr line b =
      ((t : WriteTask) × (ptr : ℕ) × (b.transaction_write_task ≡ some t)
        × (find nr t.transactions ≡ some ptr))
      ⊎ ((is_transaction_pending nr b.task_observer ≡ true)
          × (ptr : ℕ) × (TaskObserver.get_transaction nr b.task_observer ≡ some ptr))
      ⊎ IsInFile nr line b

  -- The block has the transaction of a number with its bytes, and nothing else under the number.
  pub record Provides (nr : ℕ) (line : List ℕ) (b : Block C) : Type 0 where
    pub in_cache :
        (ptr : ℕ)
        → (cache.get nr b.serialized_transactions).0 ≡ some ptr
        → Holds b.shared.heap line ptr
    pub in_task :
        (t : WriteTask) (ptr : ℕ)
        → b.transaction_write_task ≡ some t
        → find nr t.transactions ≡ some ptr
        → Holds b.shared.heap line ptr
    pub in_observer :
        (ptr : ℕ)
        → TaskObserver.get_transaction nr b.task_observer ≡ some ptr
        → Holds b.shared.heap line ptr
    pub kept : IsKept nr line b

  -- An answer with the transaction.
  abbrev pub Answers : List ℕ → Outcome ℕ × Block C → Type 0
  Answers line r = (ptr : ℕ) × (r.0 ≡ ok ptr) × Holds r.1.shared.heap line ptr

  module _ (laws : IsCache cache) where
    got_after_reading_lem :
        (line : List ℕ) (r : Option ℕ × C) (b : Block C) (ptr : ℕ)
        → r.0 ≡ some ptr
        → Holds b.shared.heap line ptr
        → Answers line (got_after_reading cache deserialize r b)
    unfolding got_after_reading
    got_after_reading_lem line (none, c) b ptr e h = absurd (ground arith)
    got_after_reading_lem line (some q, c) b ptr e h = (ptr, ap ok (ground arith), h)

    read_transaction_lem :
        (nr : ℕ) (line : List ℕ) (b : Block C) (v : IsInFile nr line b)
        → Answers line (read_transaction cache deserialize nr (pos v.cursor) b)
    unfolding read_transaction catch_end_reaching add_transaction_line cached make_shared
        got_after_adding
    read_transaction_lem nr line b v =
        let got = laws.get-add b.serialized_transactions nr b.shared.heap.next in
        rw (v.line_eq, v.node_eq, v.open_eq, v.nr_eq)
          (got_after_reading_lem line _ _ b.shared.heap.next got
            (record { allocated = omega arith; line_eq = ground arith }))

    get_from_file_lem :
        (nr : ℕ) (line : List ℕ) (b : Block C) (v : IsInFile nr line b)
        → Answers line (get_from_file cache deserialize nr b)
    unfolding get_from_file look_again second_look read_at
    get_from_file_lem nr line b v =
        let m = b.shared.block_index.transaction_nrs_file_cursors in
        let first = file_cursor_still m nr ∙ v.cursor_eq in
        let found = read_transaction_lem nr line b v in
        rw first
          (elim (Bool-cases
            (is_zero (pos v.cursor) && ltb nr b.shared.block_index.max_transaction_nr)) [
              | inl again ↦ rw (again, first) found
              | inr once ↦ rw once found
            ])

    get_from_observer_lem :
        (nr : ℕ) (line : List ℕ) (b : Block C)
        → ((ptr : ℕ)
            → TaskObserver.get_transaction nr b.task_observer ≡ some ptr
            → Holds b.shared.heap line ptr)
        → ((is_transaction_pending nr b.task_observer ≡ true)
            × (ptr : ℕ) × (TaskObserver.get_transaction nr b.task_observer ≡ some ptr))
          ⊎ IsInFile nr line b
        → Answers line (get_from_observer cache deserialize nr b)
    unfolding get_from_observer found_or
    get_from_observer_lem nr line b held (inl (pending, ptr, e)) =
        rw (pending, e) (ptr, refl, held ptr e)
    get_from_observer_lem nr line b held (inr file) =
        let answer = get_from_file_lem nr line b file in
        elim (Bool-cases (is_transaction_pending nr b.task_observer)) [
          | inl pending ↦ elim (Option-cases (TaskObserver.get_transaction nr b.task_observer)) [
            | inl e ↦ rw (pending, e) answer
            | inr (ptr, e) ↦ rw (pending, e) (ptr, refl, held ptr e)
          ]
          | inr idle ↦ rw idle answer
        ]

    get_from_task_lem :
        (nr : ℕ) (line : List ℕ) (b : Block C) (task : Option WriteTask)
        → task ≡ b.transaction_write_task
        → Provides nr line b
        → Answers line (get_from_task cache deserialize nr task b)
    unfolding get_from_task found_or WriteTask.get_transaction
    get_from_task_lem nr line b none e v =
        get_from_observer_lem nr line b v.in_observer (elim v.kept [
          | inl (t, ptr, some_task, found) ↦ absurd (ground arith)
          | inr elsewhere ↦ elsewhere
        ])
    get_from_task_lem nr line b (some t) e v = elim (Option-cases (find nr t.transactions)) [
      | inr (ptr, found) ↦ rw found (ptr, refl, v.in_task t ptr (sym e) found)
      | inl missing ↦ rw missing (
          get_from_observer_lem nr line b v.in_observer (elim v.kept [
            | inl (t', ptr, some_task, found) ↦ absurd (ground arith)
            | inr elsewhere ↦ elsewhere
          ]))
    ]

    after_get :
        (nr n : ℕ) (line : List ℕ) (b : Block C)
        → Provides nr line b
        → Provides nr line
            (record b { serialized_transactions = (cache.get n b.serialized_transactions).1 })
    after_get nr n line b v = record {
      in_cache = λ ptr e. v.in_cache ptr (laws.get-get b.serialized_transactions n nr ptr e);
      in_task = v.in_task;
      in_observer = v.in_observer;
      kept = elim v.kept [
        | inl waits ↦ inl waits
        | inr (inl observed) ↦ inr (inl observed)
        | inr (inr file) ↦ inr (inr (IsInFile-move nr line b _ refl refl refl file))
      ];
    }

    -- A block that has a transaction answers its number with an entry that has exactly its bytes, be it in
    -- the cache, in the write task, in the task observer or only in the file, whatever the cache has
    -- dropped.
    pub get_transaction-Provides :
        (nr : ℕ) (line : List ℕ) (b : Block C)
        → Provides nr line b
        → Answers line (get_transaction cache deserialize nr b)
    unfolding get_transaction get_uncached
    get_transaction-Provides nr line b v =
        elim (Option-cases (cache.get nr b.serialized_transactions).0) [
          | inr (ptr, e) ↦ rw e (ptr, refl, v.in_cache ptr e)
          | inl missing ↦
              rw missing (
                get_from_task_lem nr line _ b.transaction_write_task refl
                  (after_get nr nr line b v))
        ]

-- ===== src/WriteTask.antt =====
-- src/task/WriteTransactionsToBlockTask.{h,cpp} and src/blockchain/NodeTransactionEntry.{h,cpp}: the
-- task that writes the new transactions of a block. Entries are shared: a pointer is the number of an
-- entry in the heap. The task holds its mutex, and a run is one step.
pub mod Placing
pub mod Runs
use gradido_node.Prelude.{
  ℕ, suc, ◌+◌, ◌-◌, ◌%◌, ◌^◌, Bool, true, false, not, ◌&&◌, List, [], ◌∷◌, Option, none, some, ltb,
  ◌==◌, if◌then◌else◌, map, Outcome, ok, throw, ℤ, pos, negsuc, blockchain_order,
}
use gradido_node.OrderedMap.{Map, find, insert}
use gradido_node.IndexFile.{Platform}
use gradido_node.BlockIndex.{BlockIndex, NodeTransactionEntry, add_transaction, add_file_cursor}
use gradido_node.BlockIndex.Persist.{write_into_file}
use gradido_node.BlockFile.{BlockFile, append_lines}

-- A NodeTransactionEntry with its serialized transaction.
pub record TransactionEntry : Type 0 where
  pub serialized_transaction : List ℕ
  pub node : NodeTransactionEntry

pub record Heap : Type 0 where
  pub at : ℕ → TransactionEntry
  pub next : ℕ

-- `std::make_shared`
unfoldable pub make_shared : TransactionEntry → Heap → ℕ × Heap
make_shared e h =
    (h.next, record { at = λ q. if q == h.next then e else h.at q; next = suc h.next })

unfoldable pub with_cursor : ℤ → TransactionEntry → TransactionEntry
with_cursor c e = record e { node = record e.node { file_cursor = c } }

-- `setFileCursor`
unfoldable pub set_file_cursor : ℕ → ℤ → Heap → Heap
set_file_cursor ptr c h = record h {
  at = λ q. if q == ptr then with_cursor c (h.at ptr) else h.at q;
}

abbrev pub transaction_nr_at : Heap → ℕ → ℕ
transaction_nr_at h ptr = (h.at ptr).node.transaction_nr

pub record WriteTask : Type 0 where
  pub id : ℕ
  pub creation_date : ℕ
  pub transactions : Map ℕ

-- What the block and its tasks share: the block file, the index, the file of the index and the heap.
pub record Shared : Type 0 where
  pub block_file : BlockFile
  pub block_index : BlockIndex
  pub index_file : Option (List ℕ)
  pub heap : Heap

-- A uint32_t as an int32_t.
abbrev pub int32 : ℕ → ℤ
int32 c = if ltb c (2 ^ 31) then pos c else negsuc (2 ^ 32 - suc c)

-- `addSerializedTransaction`: the task keeps the transaction where the index throws.
unfoldable pub add_serialized_transaction :
    (List ℕ → ℕ) → ℕ → WriteTask → Shared → Outcome Bool × WriteTask × Shared
add_serialized_transaction community_index ptr t s =
    let (result, index) = add_transaction community_index (s.heap.at ptr).node s.block_index in
    (
      result,
      record t { transactions = insert (transaction_nr_at s.heap ptr) ptr t.transactions },
      record s { block_index = index },
    )

-- `getTransaction`
unfoldable pub get_transaction : ℕ → WriteTask → Option ℕ
get_transaction nr t = find nr t.transactions

-- A transaction number as an int, as `lastTransactionNr` keeps it.
abbrev pub narrow : ℕ → ℤ
narrow nr = int32 (nr % 2 ^ 32)

-- An int as a uint64_t, where it is compared with a transaction number.
abbrev pub widened : ℤ → ℕ
widened (pos n) = n
widened (negsuc n) = 2 ^ 64 - suc n

-- Whether a number is out of order behind the last one. The sum of ints wraps behind the largest one, which
-- the language leaves undefined.
abbrev pub is_gap : ℤ → ℕ → Bool
is_gap (pos last) nr = ltb 0 last && not (widened (int32 (suc last)) == nr)
is_gap (negsuc n) nr = false

-- The first loop of `run`: whether a transaction is out of order behind the last one.
unfoldable pub has_gap : Heap → ℤ → Map ℕ → Bool
has_gap h last [] = false
has_gap h last ((key, ptr) ∷ es) =
    let nr = transaction_nr_at h ptr in
    let rest = has_gap h (narrow nr) es in if is_gap last nr then true else rest

unfoldable pub lines_of : Heap → Map ℕ → List (List ℕ)
lines_of h [] = []
lines_of h ((key, ptr) ∷ es) = (h.at ptr).serialized_transaction ∷ lines_of h es

-- The rest of a sequence runs where the call did not throw.
abbrev pub unless_thrown {ℓ κ} :
    {A : Type ℓ} {S : Type κ} → Outcome A × S → (S → Outcome Bool × S) → Outcome Bool × S
unless_thrown (ok result, s) next = next s
unless_thrown (throw e, s) next = (throw e, s)

-- The body of the second loop.
unfoldable pub place : ℕ → ℕ → Shared → Outcome Bool × Shared
place ptr cursor s =
    let (result, index) =
      add_file_cursor (transaction_nr_at s.heap ptr) (int32 cursor) s.block_index in
    (result, record s { block_index = index; heap = set_file_cursor ptr (int32 cursor) s.heap })

-- The second loop, with the cursor positions in step.
unfoldable pub place_all : Map ℕ → List ℕ → Shared → Outcome Bool × Shared
place_all [] cursors s = (ok true, s)
place_all (e ∷ es) [] s = (ok true, s)
place_all ((key, ptr) ∷ es) (c ∷ cs) s = unless_thrown (place ptr c s) (place_all es cs)

-- The index file stays where there is nothing to save.
abbrev pub saved : Outcome (Option (List ℕ)) → Shared → Outcome Bool × Shared
saved (throw e) s = (throw e, s)
saved (ok none) s = (ok true, s)
saved (ok (some bytes)) s = (ok true, record s { index_file = some bytes })

module _ (p : Platform) where
  unfoldable pub save_index : Shared → Outcome Bool × Shared
  save_index s = saved (write_into_file p s.block_index) s

  unfoldable pub append_transactions : Map ℕ → Shared → List ℕ × Shared
  append_transactions es s =
      let (cursors, file) = append_lines p (lines_of s.heap es) s.block_file in
      (cursors, record s { block_file = file })

  -- `run`, for the transactions of the task.
  unfoldable pub run : Map ℕ → Shared → Outcome Bool × Shared
  run es s =
      if has_gap s.heap (pos 0) es
      then (throw blockchain_order, s)
      else (let (cursors, s1) = append_transactions es s in
          unless_thrown (place_all es cursors s1) save_index)

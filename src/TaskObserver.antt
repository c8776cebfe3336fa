-- ===== src/TaskObserver.antt =====
-- src/controller/TaskObserver.{h,cpp} and src/task/WriteTransactionsToBlockTask.cpp, getTransaction: the
-- transactions that wait to be written. A task is known by the number that stands for its address and
-- has the entries of its transactions by their numbers. Each call holds the mutex.
pub mod Pending
pub mod Lookups
use gradido_node.Prelude.{
  ℕ, Bool, true, false, List, [], ◌∷◌, Option, none, some, ◌==◌, if◌then◌else◌, is_some,
}
use gradido_node.OrderedMap.{Map, find, insert, erase}

pub record TaskObserver : Type 0 where
  pub block_write_tasks : Map (Map ℕ)
  pub transactions_from_pending_tasks : Map ℕ

unfoldable pub insert_all : Map ℕ → Map ℕ → Map ℕ
insert_all [] m = m
insert_all ((nr, e) ∷ es) m = insert_all es (insert nr e m)

unfoldable pub erase_all : Map ℕ → Map ℕ → Map ℕ
erase_all [] m = m
erase_all ((nr, e) ∷ es) m = erase_all es (erase nr m)

unfoldable pub add_block_write_task : ℕ → Map ℕ → TaskObserver → Bool × TaskObserver
add_block_write_task id entries o = if is_some (find id o.block_write_tasks) then (false, o) else (
  true,
  record {
    block_write_tasks = insert id entries o.block_write_tasks;
    transactions_from_pending_tasks = insert_all entries o.transactions_from_pending_tasks;
  },
)

unfoldable pub remove_entries : ℕ → Option (Map ℕ) → TaskObserver → Bool × TaskObserver
remove_entries id none o = (false, o)
remove_entries id (some entries) o = (
  true,
  record {
    block_write_tasks = erase id o.block_write_tasks;
    transactions_from_pending_tasks = erase_all entries o.transactions_from_pending_tasks;
  },
)

unfoldable pub remove_block_write_task : ℕ → TaskObserver → Bool × TaskObserver
remove_block_write_task id o = remove_entries id (find id o.block_write_tasks) o

unfoldable pub is_transaction_pending : ℕ → TaskObserver → Bool
is_transaction_pending nr o = is_some (find nr o.transactions_from_pending_tasks)

-- The loop over the tasks of `getTransaction`.
unfoldable pub find_in_tasks : ℕ → Map (Map ℕ) → Option ℕ
find_in_tasks nr [] = none
find_in_tasks nr ((id, entries) ∷ ts) =
    let rest = find_in_tasks nr ts in elim (find nr entries) [ none ↦ rest | some e ↦ some e ]

unfoldable pub get_transaction : ℕ → TaskObserver → Option ℕ
get_transaction nr o = elim (find_in_tasks nr o.block_write_tasks) [
  | none ↦ find nr o.transactions_from_pending_tasks
  | some e ↦ some e
]

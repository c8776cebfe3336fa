-- ===== src/CacheBlock.antt =====
-- src/cache/Block.{h,cpp}: a block of transactions behind its cache, its write task, the task observer
-- of the blockchain, its index and its file. The mutex is held by every method for its whole time. The
-- cache AccessExpireCache, the scheduler's order and the deserialization are given from outside; the
-- file cursors do not change while one call of getTransaction waits. The asserts and what is only
-- logged are left out.
pub mod Loading
pub mod Getting
pub mod Finding
pub mod Handing
pub mod Pushing
use gradido_node.Prelude.{
  ℕ, ◌+◌, ◌-◌, ◌*◌, ◌<◌, ◌^◌, ◌%◌, Bool, true, false, not, ◌&&◌, List, [], ◌∷◌, ◌++◌, Option, none,
  some, ltb, leb, ◌==◌, if◌then◌else◌, Outcome, ok, throw, ◌>>=◌, ℤ, pos, negsuc,
  transaction_not_found, blockchain_order, end_reaching, Exception,
}
use gradido_node.OrderedMap.{Map, find}
use gradido_node.IndexFile.{Platform}
use gradido_node.BlockIndex.{BlockIndex, NodeTransactionEntry, add_transaction, is_zero, clear}
use gradido_node.BlockIndex.Persist.{load_from_file, get_file_cursor_for_transaction_nr}
use gradido_node.ExpireCache.{ExpireCache}
use gradido_node.BlockFile.{BlockFile, read_line, rebuild_block_index}
use gradido_node.FuzzyTimer.{TimerReturn, go_on, remove_me}
use gradido_node.TaskObserver.{
  TaskObserver, add_block_write_task, remove_block_write_task, is_transaction_pending,
}
use gradido_node.WriteTask
use gradido_node.TaskObserver
use gradido_node.WriteTask.{
  TransactionEntry, Shared, WriteTask, make_shared, transaction_nr_at, add_serialized_transaction,
  run, unless_thrown, int32,
}

pub record Block (C : Type 0) : Type 0 where
  pub serialized_transactions : C
  pub shared : Shared
  pub transaction_write_task : Option WriteTask
  pub task_observer : TaskObserver
  pub scheduled : List WriteTask
  pub exit_called : Bool

-- GRADIDO_NODE_CACHE_BLOCK_MAX_FILE_SIZE_BYTE
abbrev pub max_file_size : ℕ
max_file_size = 128 * 1024 * 1024

-- An int32_t as a uint32_t.
abbrev pub uint32 : ℤ → ℕ
uint32 (pos c) = c
uint32 (negsuc c) = 2 ^ 32 - (c + 1)

-- `mTransactionWriteTask` as it is, or a new one with an address that is not in use. Nothing sets the
-- creation date of a task, so it is what a time point is constructed with, the epoch of the clock.
unfoldable pub current_task : ℕ → Option WriteTask → WriteTask
current_task id none = record { id = id; creation_date = 0; transactions = [] }
current_task id (some t) = t

-- Whether a task has waited for the time limit.
unfoldable pub is_due : ℕ → ℕ → WriteTask → Bool
is_due now write_to_disk_timeout t = ltb write_to_disk_timeout (now - t.creation_date)

module _ {C : Type 0} where
  -- `hasSpaceLeft`, with the sum of two uint32_t.
  unfoldable pub has_space_left : Block C → Bool
  has_space_left b = ltb ((b.shared.block_file.current_file_size + 32) % 2 ^ 32) max_file_size

  -- The task is observed, leaves the block and is put behind the scheduled ones.
  unfoldable pub hand_over : WriteTask → Block C → Block C
  hand_over t b = record b {
    task_observer = (add_block_write_task t.id t.transactions b.task_observer).1;
    transaction_write_task = none;
    scheduled = b.scheduled ++ t ∷ [];
  }

  unfoldable pub hand_over_due : ℕ → ℕ → Option WriteTask → Block C → Block C
  hand_over_due now timeout none b = b
  hand_over_due now timeout (some t) b = if is_due now timeout t then hand_over t b else b

  -- The timer is removed after `exit`.
  unfoldable pub timer_unless : Bool → Block C → Block C → TimerReturn × Block C
  timer_unless true b after = (remove_me, b)
  timer_unless false b after = (go_on, after)

  -- `callFromTimer`, where `locked` says whether another thread has the mutex.
  unfoldable pub call_from_timer : Bool → ℕ → ℕ → Block C → TimerReturn × Block C
  call_from_timer locked now timeout b =
      if locked
      then (go_on, b)
      else timer_unless b.exit_called b (hand_over_due now timeout b.transaction_write_task b)

module _ {C : Type 0} (cache : ExpireCache ℕ ℕ C) where
  abbrev pushed : ℕ → Block C → Outcome Bool × WriteTask × Shared → Outcome Bool × Block C
  pushed ptr b (throw e, t, s) = (throw e, record b { shared = s; transaction_write_task = some t })
  pushed ptr b (ok added, t, s) = (
    ok true,
    record b {
      shared = s;
      transaction_write_task = some t;
      serialized_transactions =
          cache.add (transaction_nr_at s.heap ptr) ptr b.serialized_transactions;
    },
  )

  -- Nothing is pushed after `exit`.
  unfoldable pub push_unless :
      Bool → ℕ → Block C → Outcome Bool × WriteTask × Shared → Outcome Bool × Block C
  push_unless true ptr b r = (ok false, b)
  push_unless false ptr b r = pushed ptr b r

  -- `pushTransaction`, with the address that a new task gets.
  unfoldable pub push_transaction : (List ℕ → ℕ) → ℕ → ℕ → Block C → Outcome Bool × Block C
  push_transaction community_index id ptr b = push_unless b.exit_called ptr b (
      add_serialized_transaction community_index ptr (current_task id b.transaction_write_task)
        b.shared)

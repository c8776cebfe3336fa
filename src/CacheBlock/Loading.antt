-- ===== src/CacheBlock/Loading.antt =====
-- src/cache/Block.cpp, init and exit, with the tasks that they and the timer leave to others:
-- src/model/files/Block.cpp, RebuildBlockIndexTask, and a worker that runs the write task.
use gradido_node.Prelude.{
  ℕ, Bool, true, false, List, [], ◌∷◌, Option, none, some, leb, ◌==◌, if◌then◌else◌, Outcome, ok,
  throw, ◌>>=◌, ℤ, blockchain_order,
}
use gradido_node.IndexFile.{Platform}
use gradido_node.BlockIndex.{BlockIndex, NodeTransactionEntry, add_transaction, clear}
use gradido_node.BlockIndex.Persist.{load_from_file}
use gradido_node.BlockFile.{rebuild_block_index}
use gradido_node.TaskObserver.{remove_block_write_task}
use gradido_node.WriteTask.{Shared, WriteTask, run, int32}
use gradido_node.CacheBlock.{Block}

-- The loop of `init` over the entries that the rebuilding task has, each above the last one.
unfoldable pub add_entry :
    (List ℕ → ℕ) → ℕ → NodeTransactionEntry → BlockIndex → Outcome Bool × BlockIndex
add_entry community_index previous t x =
    if leb t.transaction_nr previous
    then (throw blockchain_order, x)
    else add_transaction community_index t x

abbrev then_index :
    Outcome Bool × BlockIndex → (BlockIndex → Outcome Bool × BlockIndex) → Outcome Bool × BlockIndex
then_index (throw e, x) next = (throw e, x)
then_index (ok added, x) next = next x

unfoldable pub add_entries :
    (List ℕ → ℕ) → ℕ → List NodeTransactionEntry → BlockIndex → Outcome Bool × BlockIndex
add_entries community_index previous [] x = (ok true, x)
add_entries community_index previous (t ∷ ts) x =
    then_index (add_entry community_index previous t x)
      (add_entries community_index t.transaction_nr ts)

-- `run` of the RebuildBlockIndexTask, for lines with their file cursors; an exception ends the process.
unfoldable pub rebuild_entries :
    (List ℕ → ℤ → Outcome NodeTransactionEntry)
    → List (ℕ × List ℕ)
    → Outcome (List NodeTransactionEntry)
rebuild_entries deserialize [] = ok []
rebuild_entries deserialize ((cursor, line) ∷ rest) =
    deserialize line (int32 cursor) >>= λ t. rebuild_entries deserialize rest >>= λ ts. ok (t ∷ ts)

module _ (p : Platform) where
  -- The first look of `init` at the file of the index: false if it is not there.
  unfoldable pub load_index : Option (List ℕ) → BlockIndex → Outcome (Bool × BlockIndex)
  load_index none x = ok (false, x)
  load_index (some bytes) x = load_from_file p bytes x

  module _ (community_index : List ℕ → ℕ)
      (deserialize : List ℕ → ℤ → Outcome NodeTransactionEntry) where
    abbrev indexed : Shared → Outcome Bool × BlockIndex → Outcome (Bool × Shared)
    indexed s (throw e, x) = throw e
    indexed s (ok added, x) = ok (true, record s { block_index = x; index_file = none })

    -- The part of `init` that rebuilds the index, from where the stream of the block file stands. The
    -- task has all lines done within the second that `init` waits.
    unfoldable pub rebuild : ℕ → Shared → Outcome (Bool × Shared)
    rebuild position s =
        rebuild_block_index p position s.block_file >>= rebuild_entries deserialize >>= λ ts.
        indexed s (add_entries community_index 0 ts (clear s.block_index))

    unfoldable pub init_loaded : ℕ → Shared → Bool × BlockIndex → Outcome (Bool × Shared)
    init_loaded position s (true, x) = ok (true, record s { block_index = x })
    init_loaded position s (false, x) =
        if s.block_file.current_file_size == 0
        then ok (false, record s { block_index = x })
        else rebuild position (record s { block_index = x })

    -- `init`
    unfoldable pub init : ℕ → Shared → Outcome (Bool × Shared)
    init position s = load_index s.index_file s.block_index >>= init_loaded position s

  module _ {C : Type 0} where
    abbrev exited : WriteTask → Block C → Outcome Bool × Shared → Outcome Bool × Block C
    exited t b (throw e, s) = (throw e, record b { shared = s; transaction_write_task = some t })
    exited t b (ok done, s) = (ok true, record b { shared = s; transaction_write_task = none })

    unfoldable pub run_at_exit : Option WriteTask → Block C → Outcome Bool × Block C
    run_at_exit none b = (ok true, b)
    run_at_exit (some t) b = exited t b (run p t.transactions b.shared)

    -- `exit`
    unfoldable pub exit : Block C → Outcome Bool × Block C
    exit b = run_at_exit b.transaction_write_task (record b { exit_called = true })

    -- A worker runs a scheduled task; where it returns, the finish command ends its observation.
    abbrev worked : WriteTask → Block C → Outcome Bool × Shared → Outcome Bool × Block C
    worked t b (throw e, s) = (throw e, record b { shared = s })
    worked t b (ok done, s) = (
      ok true,
      record b { shared = s; task_observer = (remove_block_write_task t.id b.task_observer).1 },
    )

    unfoldable pub run_first : List WriteTask → Block C → Outcome Bool × Block C
    run_first [] b = (ok true, b)
    run_first (t ∷ ts) b = worked t (record b { scheduled = ts }) (run p t.transactions b.shared)

    unfoldable pub work : Block C → Outcome Bool × Block C
    work b = run_first b.scheduled b

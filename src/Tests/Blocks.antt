-- ===== src/Tests/Blocks.antt =====
-- The write task and the block cache at concrete inputs.
use gradido_node.Prelude.{
  ℕ, ◌≡◌, inl, inr, refl, ap, ◌∙◌, true, false, List, [], ◌∷◌, Option, none, some, ℤ, pos, negsuc,
  Outcome, ok, arith,
}
use gradido_node.OrderedMap.{Map, find, insert, assign}
use gradido_node.Bytes.{le_bytes}
use gradido_node.BlockIndex.{
  BlockIndex, NodeTransactionEntry, add_transaction, add_known_cursor, widen, indices_of_entry,
  add_indices, make_month, push_entry, set_month, month_entries, entry_of, out_of_order, last_entry,
  add_file_cursor,
}
use mathlib.Core.Option.{some-injective}
use gradido_node.BlockIndex.Validity.{IsValid}
use gradido_node.BlockFile.{BlockFile}
use gradido_node.BlockFile.Lines.{read_line-IsBlockFile}
use gradido_node.TaskObserver
use gradido_node.TaskObserver.{TaskObserver, find_in_tasks}
use gradido_node.WriteTask.{Heap, Shared, WriteTask, run, lines_of, add_serialized_transaction}
use gradido_node.WriteTask.Runs.{HasRun, run-HasRun}
use gradido_node.CacheBlock.{Block, push_transaction, push_unless, call_from_timer, current_task}
use gradido_node.CacheBlock.Getting.{get_transaction}
use gradido_node.CacheBlock.Finding.{IsInFile, Provides, Answers, get_transaction-Provides}
use gradido_node.CacheBlock.Pushing.{push_transaction-Provides, push_transaction_keeps}
use gradido_node.CacheBlock.Handing.{call_from_timer-Provides}
use gradido_node.Tests.Stores.{cache, cache-IsCache}
use gradido_node.Tests.Files.{platform, line1, line2, full_block_file, full-IsBlockFile}

abbrev node : ℕ → NodeTransactionEntry
node nr = record {
  transaction_type = 2;
  coin_community_id = [];
  year = 2024;
  month = 5;
  transaction_nr = nr;
  file_cursor = negsuc 9;
  address_indices = 7 ∷ [];
}

-- One new transaction, with the number 3.
abbrev heap : Heap
heap = record { at = λ q. record { serialized_transaction = line1; node = node 3 }; next = 1 }

abbrev index_with : ℕ → Map ℤ → BlockIndex
index_with nr cursors = record {
  max_transaction_nr = nr;
  min_transaction_nr = 1;
  transaction_nrs_file_cursors = cursors;
  year_month_address_index_entries = [];
  dirty = true;
}

abbrev shared : BlockFile → ℕ → Map ℤ → Shared
shared f nr cursors = record {
  block_file = f;
  block_index = index_with nr cursors;
  index_file = none;
  heap = heap;
}

index-IsValid : IsValid (index_with 3 ((1, pos 0) ∷ (2, pos 32) ∷ []))
index-IsValid = record {
  bounds = inr (omega arith, omega arith);
  years = tt;
  rows = tt;
  cursors = (omega arith, (omega arith, tt));
}

abbrev written : Shared
written = shared full_block_file 3 ((1, pos 0) ∷ (2, pos 32) ∷ [])

-- The third transaction goes behind the two lines of the file.
run-HasRun_example :
    HasRun platform heap ((3, 0) ∷ []) (line1 ∷ line2 ∷ []) (run platform ((3, 0) ∷ []) written).1
unfolding lines_of find le_bytes
run-HasRun_example =
    run-HasRun platform (line1 ∷ line2 ∷ []) ((3, 0) ∷ []) 3 written full-IsBlockFile index-IsValid
      (refl, refl, tt) (omega arith) (λ j h. ground arith) ((omega arith, omega arith), tt)
      (omega arith) (inl (omega arith))

abbrev no_tasks : TaskObserver
no_tasks = record { block_write_tasks = []; transactions_from_pending_tasks = [] }

-- Nothing is cached or waits.
abbrev idle : Block (Map ℕ)
idle = record {
  serialized_transactions = [];
  shared = written;
  transaction_write_task = none;
  task_observer = no_tasks;
  scheduled = [];
  exit_called = false;
}

abbrev deserialize : List ℕ → ℤ → Outcome NodeTransactionEntry
deserialize line cursor = ok (node 2)

-- The second line of the file, in a block with a write task or without one.
found-IsInFile :
    (task : Option WriteTask)
    → IsInFile cache deserialize 2 line2 (record idle { transaction_write_task = task })
unfolding find le_bytes
found-IsInFile task = record {
  cursor = 32;
  cursor_eq = refl;
  line_eq =
      read_line-IsBlockFile platform (line1 ∷ []) [] line2 full_block_file full-IsBlockFile
        (omega arith) (omega arith) (omega arith);
  node = node 2;
  node_eq = refl;
  nr_eq = refl;
  open_eq = refl;
}

abbrev task : WriteTask
task = record { id = 1; creation_date = 100; transactions = (3, 0) ∷ [] }

abbrev busy : Block (Map ℕ)
busy = record idle { transaction_write_task = some task }

idle-Provides : Provides cache deserialize 2 line2 idle
unfolding find TaskObserver.get_transaction find_in_tasks
idle-Provides = record {
  in_cache = λ ptr e. absurd (ground arith);
  in_task = λ t ptr e found. absurd (ground arith);
  in_observer = λ ptr e. absurd (ground arith);
  kept = inr (inr (found-IsInFile none));
}

busy-Provides : Provides cache deserialize 2 line2 busy
unfolding find TaskObserver.get_transaction find_in_tasks
busy-Provides = record {
  in_cache = λ ptr e. absurd (ground arith);
  in_task = λ t ptr e found.
      let same : task ≡ t = some-injective task t e in
      let found' : find 2 task.transactions ≡ some ptr =
        ap (λ (w : WriteTask). find 2 w.transactions) same ∙ found in
      absurd (ground arith);
  in_observer = λ ptr e. absurd (ground arith);
  kept = inr (inr (found-IsInFile (some task)));
}

get_transaction-Provides_example :
    Answers cache deserialize line2 (get_transaction cache deserialize 2 idle)
get_transaction-Provides_example =
    get_transaction-Provides cache deserialize cache-IsCache 2 line2 idle idle-Provides

succeeds : (push_transaction cache (λ id. 0) 1 0 idle).0 ≡ ok true
unfolding push_transaction push_unless add_serialized_transaction current_task add_transaction
    add_known_cursor widen indices_of_entry add_indices make_month push_entry set_month
    month_entries entry_of out_of_order last_entry add_file_cursor find insert assign
succeeds = refl

push_transaction-Provides_example :
    Provides cache deserialize 3 line1 (push_transaction cache (λ id. 0) 1 0 idle).1
unfolding current_task find TaskObserver.get_transaction find_in_tasks
push_transaction-Provides_example =
    push_transaction-Provides cache cache-IsCache deserialize (λ id. 0) 1 0 line1 idle
      (record { allocated = omega arith; line_eq = refl }) refl tt refl refl succeeds

push_transaction_keeps_example :
    Provides cache deserialize 2 line2 (push_transaction cache (λ id. 0) 1 0 idle).1
unfolding current_task
push_transaction_keeps_example =
    push_transaction_keeps cache cache-IsCache deserialize (λ id. 0) 1 0 2 line2 idle tt
      (λ h. ground arith) refl idle-Provides

-- The block with the third transaction in its write task, at a time when that is due.
call_from_timer-Provides_example :
    Provides cache deserialize 2 line2 (call_from_timer false 200 60 busy).1
unfolding find
call_from_timer-Provides_example =
    call_from_timer-Provides cache deserialize 2 line2 busy tt busy-Provides false 200 60
      (λ t e. refl)

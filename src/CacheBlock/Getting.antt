-- ===== src/CacheBlock/Getting.antt =====
-- src/cache/Block.cpp, getTransaction and addTransaction.
use gradido_node.Prelude.{
  ℕ, ◌&&◌, List, Option, none, some, ltb, if◌then◌else◌, Outcome, ok, throw, ◌>>=◌, ℤ,
  transaction_not_found, end_reaching,
}
use gradido_node.BlockIndex.{BlockIndex, NodeTransactionEntry, is_zero}
use gradido_node.BlockIndex.Persist.{get_file_cursor_for_transaction_nr}
use gradido_node.ExpireCache.{ExpireCache}
use gradido_node.BlockFile.{read_line}
use gradido_node.TaskObserver.{
  TaskObserver, add_block_write_task, remove_block_write_task, is_transaction_pending,
}
use gradido_node.WriteTask
use gradido_node.TaskObserver
use gradido_node.WriteTask.{
  TransactionEntry, Shared, WriteTask, make_shared, transaction_nr_at, add_serialized_transaction,
  run, unless_thrown, int32,
}
use gradido_node.CacheBlock.{Block, uint32}

module _ {C : Type 0} (cache : ExpireCache ℕ ℕ C)
    (deserialize : List ℕ → ℤ → Outcome NodeTransactionEntry) where
  -- `addTransaction`
  unfoldable pub cached : List ℕ → NodeTransactionEntry → Block C → Block C
  cached line node b =
      let (ptr, heap) =
        make_shared (record { serialized_transaction = line; node = node }) b.shared.heap in
      if b.exit_called then b else record b {
        shared = record b.shared { heap = heap };
        serialized_transactions = cache.add node.transaction_nr ptr b.serialized_transactions;
      }

  unfoldable pub add_transaction_line : List ℕ → ℤ → Block C → Outcome (Block C)
  add_transaction_line line cursor b = deserialize line cursor >>= λ node. ok (cached line node b)

  -- `readLine` as getTransaction calls it, which catches EndReachingException.
  unfoldable pub catch_end_reaching : Outcome (List ℕ) → Outcome (List ℕ)
  catch_end_reaching (ok line) = ok line
  catch_end_reaching (throw end_reaching) = throw transaction_not_found
  catch_end_reaching (throw e) = throw e

  unfoldable pub got_after_reading : Option ℕ × C → Block C → Outcome ℕ × Block C
  got_after_reading (none, c) b =
      (throw transaction_not_found, record b { serialized_transactions = c })
  got_after_reading (some ptr, c) b = (ok ptr, record b { serialized_transactions = c })

  unfoldable pub got_after_adding : ℕ → Block C → Outcome (Block C) → Outcome ℕ × Block C
  got_after_adding nr b (throw e) = (throw e, b)
  got_after_adding nr b (ok b') = got_after_reading (cache.get nr b'.serialized_transactions) b'

  -- The part that reads from the block file, at a file cursor.
  unfoldable pub read_transaction : ℕ → ℤ → Block C → Outcome ℕ × Block C
  read_transaction nr cursor b = got_after_adding nr b (
      catch_end_reaching (read_line (uint32 cursor) b.shared.block_file) >>= λ line.
      add_transaction_line line cursor b)

  -- The second look for a file cursor, where the first gave zero below the highest number.
  unfoldable pub second_look : ℕ → ℤ → BlockIndex → Option ℤ
  second_look nr cursor x =
      if is_zero cursor && ltb nr x.max_transaction_nr
      then get_file_cursor_for_transaction_nr (λ k. x.transaction_nrs_file_cursors) nr
      else some cursor

  unfoldable pub read_at : ℕ → Option ℤ → Block C → Outcome ℕ × Block C
  read_at nr none b = (throw transaction_not_found, b)
  read_at nr (some cursor) b = read_transaction nr cursor b

  unfoldable pub look_again : ℕ → Option ℤ → Block C → Outcome ℕ × Block C
  look_again nr none b = (throw transaction_not_found, b)
  look_again nr (some cursor) b = read_at nr (second_look nr cursor b.shared.block_index) b

  unfoldable pub get_from_file : ℕ → Block C → Outcome ℕ × Block C
  get_from_file nr b =
      look_again nr
        (get_file_cursor_for_transaction_nr (λ k. b.shared.block_index.transaction_nrs_file_cursors)
          nr)
        b

  -- A transaction that is found at once, or what is tried otherwise.
  unfoldable pub found_or : Outcome ℕ × Block C → Block C → Option ℕ → Outcome ℕ × Block C
  found_or other b none = other
  found_or other b (some ptr) = (ok ptr, b)

  -- The task observer is asked where it says that the transaction is pending.
  unfoldable pub get_from_observer : ℕ → Block C → Outcome ℕ × Block C
  get_from_observer nr b =
      let file = get_from_file nr b in
      if is_transaction_pending nr b.task_observer
      then found_or file b (TaskObserver.get_transaction nr b.task_observer)
      else file

  unfoldable pub get_from_task : ℕ → Option WriteTask → Block C → Outcome ℕ × Block C
  get_from_task nr none b = get_from_observer nr b
  get_from_task nr (some t) b = found_or (get_from_observer nr b) b (WriteTask.get_transaction nr t)

  unfoldable pub get_uncached : ℕ → Option ℕ → Block C → Outcome ℕ × Block C
  get_uncached nr none b = get_from_task nr b.transaction_write_task b
  get_uncached nr (some ptr) b = (ok ptr, b)

  -- `getTransaction`
  unfoldable pub get_transaction : ℕ → Block C → Outcome ℕ × Block C
  get_transaction nr b =
      let (entry, c) = cache.get nr b.serialized_transactions in
      get_uncached nr entry (record b { serialized_transactions = c })

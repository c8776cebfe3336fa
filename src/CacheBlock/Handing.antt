-- ===== src/CacheBlock/Handing.antt =====
-- src/cache/Block.cpp, callFromTimer, with src/controller/TaskObserver.cpp: that the block keeps what it
-- has when its write task is handed to the observer.
use gradido_node.Prelude.{
  ℕ, ◌≡◌, ◌⊎◌, inl, inr, refl, ap, ◌∙◌, sym, Bool, true, false, List, Option, none, some, is_some,
  Outcome, ℤ, arith, Bool-cases,
}
use mathlib.Core.Option.{some-injective}
use gradido_node.OrderedMap.{find, IsSorted}
use gradido_node.BlockIndex.{NodeTransactionEntry}
use gradido_node.TaskObserver
use gradido_node.TaskObserver.{TaskObserver, is_transaction_pending, add_block_write_task}
use gradido_node.TaskObserver.Lookups.{get_transaction-add, get_transaction-add-is_some}
use gradido_node.WriteTask.{WriteTask}
use gradido_node.ExpireCache.{ExpireCache}
use gradido_node.CacheBlock.{Block, is_due, hand_over, hand_over_due, timer_unless, call_from_timer}
use gradido_node.CacheBlock.Finding.{IsInFile-move, Provides}

module _ {C : Type 0} (cache : ExpireCache ℕ ℕ C)
    (deserialize : List ℕ → ℤ → Outcome NodeTransactionEntry) (nr : ℕ) (line : List ℕ) (b : Block C)
    (sorted : IsSorted b.task_observer.transactions_from_pending_tasks)
    (v : Provides cache deserialize nr line b) where
  -- What is_some says.
  found_of : (o : Option ℕ) → is_some o ≡ true → (q : ℕ) × (o ≡ some q)
  found_of none h = absurd (ground arith)
  found_of (some q) h = (q, refl)

  hand_over_keeps :
      (t : WriteTask)
      → b.transaction_write_task ≡ some t
      → find t.id b.task_observer.block_write_tasks ≡ none
      → Provides cache deserialize nr line (hand_over t b)
  unfolding hand_over
  hand_over_keeps t is_task new =
      let o = b.task_observer in
      let o' : TaskObserver = (add_block_write_task t.id t.transactions o).1 in
      let answered = get_transaction-add-is_some nr t.id t.transactions o sorted new in
      let observed : (is_some (find nr t.transactions) ≡ true)
            ⊎ (is_transaction_pending nr o ≡ true)
          → (is_transaction_pending nr o' ≡ true)
            × (q : ℕ) × (TaskObserver.get_transaction nr o' ≡ some q) =
        λ h. let (q, e) = found_of _ (answered h).1 in ((answered h).0, q, e) in
      record {
        in_cache = v.in_cache;
        in_task = λ u q e at. absurd (ground arith);
        in_observer = λ q e. elim (get_transaction-add nr t.id q t.transactions o sorted new e) [
          | inl of_task ↦ v.in_task t q is_task of_task
          | inr before ↦ v.in_observer q before
        ];
        kept = elim v.kept [
          | inl (u, q, e, found) ↦ inr (
              inl (
                observed (
                  inl (
                    ap (λ (w : WriteTask). is_some (find nr w.transactions))
                      (some-injective t u (sym is_task ∙ e))
                    ∙ ap is_some found))))
          | inr (inl (pending, q, e)) ↦ inr (inl (observed (inr pending)))
          | inr (inr file) ↦
              inr (inr (IsInFile-move cache deserialize nr line b _ refl refl refl file))
        ];
      }

  hand_over_due_keeps :
      (now timeout : ℕ) (task : Option WriteTask)
      → b.transaction_write_task ≡ task
      → ((t : WriteTask)
          → b.transaction_write_task ≡ some t
          → find t.id b.task_observer.block_write_tasks ≡ none)
      → Provides cache deserialize nr line (hand_over_due now timeout task b)
  unfolding hand_over_due
  hand_over_due_keeps now timeout none e new = v
  hand_over_due_keeps now timeout (some t) e new = elim (Bool-cases (is_due now timeout t)) [
    | inl due ↦ rw due (hand_over_keeps t e (new t e))
    | inr early ↦ rw early v
  ]

  unless_exited :
      (exited : Bool) (after : Block C)
      → Provides cache deserialize nr line after
      → Provides cache deserialize nr line (timer_unless exited b after).1
  unfolding timer_unless
  unless_exited true after a = v
  unless_exited false after a = a

  -- The timer keeps every transaction that the block has, whether or not its mutex is free and its write
  -- task is due, where the observer does not know the write task and its pending transactions are sorted.
  pub call_from_timer-Provides :
      (locked : Bool) (now timeout : ℕ)
      → ((t : WriteTask)
          → b.transaction_write_task ≡ some t
          → find t.id b.task_observer.block_write_tasks ≡ none)
      → Provides cache deserialize nr line (call_from_timer locked now timeout b).1
  unfolding call_from_timer
  call_from_timer-Provides true now timeout new = v
  call_from_timer-Provides false now timeout new =
      unless_exited b.exit_called _
        (hand_over_due_keeps now timeout b.transaction_write_task refl new)

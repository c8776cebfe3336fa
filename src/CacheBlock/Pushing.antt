-- ===== src/CacheBlock/Pushing.antt =====
-- src/cache/Block.cpp, pushTransaction: that the block has what was pushed, and keeps what it had.
use gradido_node.Prelude.{
  ℕ, ◌≡◌, ◌≢◌, inl, inr, refl, ap, ◌∙◌, sym, Bool, true, false, List, Option, none, some, Outcome,
  ok, throw, ℤ, pos, ltb_ℤ, arith, Option-cases,
}
use mathlib.Core.Path.{subst}
use mathlib.Core.Option.{some-injective}
use gradido_node.OrderedMap.{Map, find, insert, IsSorted, find-insert, insert_kept}
use gradido_node.BlockIndex.{
  BlockIndex, NodeTransactionEntry, widen, add_file_cursor, add_indices, add_transaction,
  add_known_cursor, indices_of_entry, make_month, push_entry,
}
use gradido_node.BlockIndex.Validity.{with_result-state}
use gradido_node.IndexFile.Reader.{Indices}
use gradido_node.WriteTask.{WriteTask, Shared, transaction_nr_at, add_serialized_transaction}
use gradido_node.TaskObserver
use gradido_node.ExpireCache.{ExpireCache, IsCache}
use gradido_node.CacheBlock.{Block, current_task, pushed, push_unless, push_transaction}
use gradido_node.CacheBlock.Finding.{Holds, IsInFile-move, Provides}

-- Adding a transaction without a file cursor leaves the file cursors alone.
add_file_cursor_unknown :
    (nr : ℕ) (cursor : ℤ) (x : BlockIndex)
    → ltb_ℤ cursor (pos 0) ≡ true
    → (add_file_cursor nr cursor x).1 ≡ x
unfolding add_file_cursor
add_file_cursor_unknown nr cursor x h = rw h refl

add_indices_unknown :
    (i : Indices) (x : BlockIndex)
    → ltb_ℤ i.file_cursor (pos 0) ≡ true
    → (add_indices i x).1.transaction_nrs_file_cursors ≡ x.transaction_nrs_file_cursors
unfolding add_indices make_month push_entry widen
add_indices_unknown i x h = ground (
  arith,
  with_result-state true
      (add_file_cursor i.transaction_nr i.file_cursor (push_entry i (make_month i x))),
  add_file_cursor_unknown i.transaction_nr i.file_cursor (push_entry i (make_month i x)) h,
)

pub add_transaction_unknown :
    (community_index : List ℕ → ℕ) (t : NodeTransactionEntry) (x : BlockIndex)
    → ltb_ℤ t.file_cursor (pos 0) ≡ true
    → (add_transaction community_index t x).1.transaction_nrs_file_cursors
      ≡ x.transaction_nrs_file_cursors
unfolding add_transaction add_known_cursor indices_of_entry widen
add_transaction_unknown f t x h = rw h (add_indices_unknown _ _ h)

module _ {C : Type 0} (cache : ExpireCache ℕ ℕ C) (laws : IsCache cache)
    (deserialize : List ℕ → ℤ → Outcome NodeTransactionEntry) (community_index : List ℕ → ℕ) where
  -- What the write task leaves when it takes a transaction in.
  record HasTaken (ptr : ℕ) (t : WriteTask) (s : Shared) (r : Outcome Bool × WriteTask × Shared)
      : Type 0 where
    transactions_eq : r.1.transactions ≡ insert (transaction_nr_at s.heap ptr) ptr t.transactions
    heap_eq : r.2.heap ≡ s.heap
    file_eq : r.2.block_file ≡ s.block_file
    cursors_eq :
        r.2.block_index.transaction_nrs_file_cursors ≡ s.block_index.transaction_nrs_file_cursors

  taken_lem :
      (ptr : ℕ) (t : WriteTask) (s : Shared)
      → ltb_ℤ (s.heap.at ptr).node.file_cursor (pos 0) ≡ true
      → HasTaken ptr t s (add_serialized_transaction community_index ptr t s)
  unfolding add_serialized_transaction
  taken_lem ptr t s h = record {
    transactions_eq = refl;
    heap_eq = refl;
    file_eq = refl;
    cursors_eq = add_transaction_unknown community_index _ s.block_index h;
  }

  -- The write task that a push goes to, in a block.
  abbrev pub target : ℕ → Block C → WriteTask
  target id b = current_task id b.transaction_write_task

  pushed-Provides :
      (line : List ℕ) (ptr : ℕ) (t : WriteTask) (b : Block C)
      (r : Outcome Bool × WriteTask × Shared)
      → HasTaken ptr t b.shared r
      → Holds b.shared.heap line ptr
      → IsSorted t.transactions
      → find (transaction_nr_at b.shared.heap ptr) t.transactions ≡ none
      → TaskObserver.get_transaction (transaction_nr_at b.shared.heap ptr) b.task_observer ≡ none
      → (pushed cache ptr b r).0 ≡ ok true
      → Provides cache deserialize
          (transaction_nr_at b.shared.heap ptr)
          line
          (pushed cache ptr b r).1
  pushed-Provides line ptr t b (throw e, t', s) taken held sorted new unobserved done =
      absurd (ground arith)
  pushed-Provides line ptr t b (ok added, t', s) taken held sorted new unobserved done =
      let nr = transaction_nr_at b.shared.heap ptr in
      let found : find nr t'.transactions ≡ some ptr =
        ap (find nr) taken.transactions_eq
        ∙ find-insert nr nr ptr 0 t.transactions sorted new
        ∙ ground arith in
      let key : transaction_nr_at s.heap ptr ≡ nr =
        ap (λ h. transaction_nr_at h ptr) taken.heap_eq in
      let held' : Holds s.heap line ptr = subst (λ h. Holds h line ptr) (sym taken.heap_eq) held in
      rw key (record {
        in_cache = λ q e.
            let same : ptr ≡ q =
              some-injective ptr q (sym (laws.get-add b.serialized_transactions nr ptr) ∙ e) in
            subst (Holds s.heap line) same held';
        in_task = λ u q e at.
            let task : t' ≡ u = some-injective t' u e in
            let same : ptr ≡ q =
              some-injective ptr q
                (sym found ∙ ap (λ (w : WriteTask). find nr w.transactions) task ∙ at) in
            subst (Holds s.heap line) same held';
        in_observer = λ q e. absurd (ground (arith, unobserved));
        kept = inl (t', ptr, refl, found);
      })

  push_unless-Provides :
      (exited : Bool) (line : List ℕ) (ptr : ℕ) (t : WriteTask) (b : Block C)
      (r : Outcome Bool × WriteTask × Shared)
      → ((pushed cache ptr b r).0 ≡ ok true
          → Provides cache deserialize
              (transaction_nr_at b.shared.heap ptr)
              line
              (pushed cache ptr b r).1)
      → (push_unless cache exited ptr b r).0 ≡ ok true
      → Provides cache deserialize
          (transaction_nr_at b.shared.heap ptr)
          line
          (push_unless cache exited ptr b r).1
  unfolding push_unless
  push_unless-Provides true line ptr t b r h done = absurd (ground arith)
  push_unless-Provides false line ptr t b r h done = h done

  -- Pushing a transaction that has no file cursor yet, and that neither the write task nor the observer
  -- has, gives a block that has it with its bytes, where the push succeeds.
  pub push_transaction-Provides :
      (id ptr : ℕ) (line : List ℕ) (b : Block C)
      → Holds b.shared.heap line ptr
      → ltb_ℤ (b.shared.heap.at ptr).node.file_cursor (pos 0) ≡ true
      → IsSorted (target id b).transactions
      → find (transaction_nr_at b.shared.heap ptr) (target id b).transactions ≡ none
      → TaskObserver.get_transaction (transaction_nr_at b.shared.heap ptr) b.task_observer ≡ none
      → (push_transaction cache community_index id ptr b).0 ≡ ok true
      → Provides cache deserialize
          (transaction_nr_at b.shared.heap ptr)
          line
          (push_transaction cache community_index id ptr b).1
  unfolding push_transaction
  push_transaction-Provides id ptr line b held unplaced sorted new unobserved done =
      push_unless-Provides b.exit_called line ptr (target id b) b _
        (pushed-Provides line ptr (target id b) b _ (taken_lem ptr (target id b) b.shared unplaced)
          held sorted new unobserved)
        done

  -- The tasks that a push starts from: the write task of the block, or a new one without transactions.
  in_target :
      (id nr ptr : ℕ) (task : Option WriteTask) (t : WriteTask)
      → task ≡ some t
      → find nr t.transactions ≡ some ptr
      → find nr (current_task id task).transactions ≡ some ptr
  unfolding current_task
  in_target id nr ptr none t e found = absurd (ground arith)
  in_target id nr ptr (some u) t e found =
      ap (λ (w : WriteTask). find nr w.transactions) (some-injective u t e) ∙ found

  from_target :
      (id nr ptr : ℕ) (task : Option WriteTask)
      → find nr (current_task id task).transactions ≡ some ptr
      → (t : WriteTask) × (task ≡ some t) × (find nr t.transactions ≡ some ptr)
  unfolding current_task find
  from_target id nr ptr none found = absurd (ground arith)
  from_target id nr ptr (some u) found = (u, refl, found)

  insert_other : (k j v : ℕ) (m : Map ℕ) → IsSorted m → k ≢ j → find j (insert k v m) ≡ find j m
  insert_other k j v m sorted other = elim (Option-cases (find k m)) [
    | inl new ↦ find-insert k j v 0 m sorted new ∙ ground arith
    | inr (w, there) ↦ ap (find j) (insert_kept k v w 0 m sorted there)
  ]

  module _ (id ptr nr : ℕ) (line : List ℕ) (b : Block C)
      (sorted : IsSorted (target id b).transactions)
      (other : transaction_nr_at b.shared.heap ptr ≢ nr)
      (v : Provides cache deserialize nr line b) where
    -- What a block with the new write task and the shared part after it still has.
    kept_lem :
        (t : WriteTask) (s : Shared) (c : C) (r : Outcome Bool)
        → HasTaken ptr (target id b) b.shared (r, t, s)
        → ((q : ℕ)
            → (cache.get nr c).0 ≡ some q
            → (cache.get nr b.serialized_transactions).0 ≡ some q)
        → Provides cache deserialize nr line
            (record b { shared = s; transaction_write_task = some t; serialized_transactions = c })
    kept_lem t s c r taken dropped =
        let b' : Block C = record b {
          shared = s;
          transaction_write_task = some t;
          serialized_transactions = c;
        } in
        let still = λ (q : ℕ) (h : Holds b.shared.heap line q).
          subst (λ h. Holds h line q) (sym taken.heap_eq) h in
        let same : find nr t.transactions ≡ find nr (target id b).transactions =
          ap (find nr) taken.transactions_eq
          ∙ insert_other (transaction_nr_at b.shared.heap ptr) nr ptr (target id b).transactions
              sorted other in
        record {
          in_cache = λ q e. still q (v.in_cache q (dropped q e));
          in_task = λ u q e at.
              let at' : find nr t.transactions ≡ some q =
                ap (λ (w : WriteTask). find nr w.transactions) (some-injective t u e) ∙ at in
              let (w, is_task, found) =
                from_target id nr q b.transaction_write_task (sym same ∙ at') in
              still q (v.in_task w q is_task found);
          in_observer = λ q e. still q (v.in_observer q e);
          kept = elim v.kept [
            | inl (w, q, is_task, found) ↦
                inl (t, q, refl, same ∙ in_target id nr q b.transaction_write_task w is_task found)
            | inr (inl observed) ↦ inr (inl observed)
            | inr (inr file) ↦ inr (
                inr (
                  IsInFile-move cache deserialize nr line b b' taken.cursors_eq taken.file_eq refl
                    file))
          ];
        }

    pushed_keeps :
        (r : Outcome Bool × WriteTask × Shared)
        → HasTaken ptr (target id b) b.shared r
        → Provides cache deserialize nr line (pushed cache ptr b r).1
    pushed_keeps (throw e, t, s) taken =
        kept_lem t s b.serialized_transactions (throw e) taken (λ q e. e)
    pushed_keeps (ok added, t, s) taken = kept_lem t s _ (ok added) taken (λ q e.
        laws.get-add_other b.serialized_transactions (transaction_nr_at s.heap ptr) nr ptr q
          (subst (λ h. transaction_nr_at h ptr ≢ nr) (sym taken.heap_eq) other) e)

    push_unless_keeps :
        (exited : Bool) (r : Outcome Bool × WriteTask × Shared)
        → HasTaken ptr (target id b) b.shared r
        → Provides cache deserialize nr line (push_unless cache exited ptr b r).1
    unfolding push_unless
    push_unless_keeps true r taken = v
    push_unless_keeps false r taken = pushed_keeps r taken

  -- Pushing a transaction of another number that has no file cursor yet keeps what the block has,
  -- whether the push succeeds, is refused or throws.
  pub push_transaction_keeps :
      (id ptr nr : ℕ) (line : List ℕ) (b : Block C)
      → IsSorted (target id b).transactions
      → transaction_nr_at b.shared.heap ptr ≢ nr
      → ltb_ℤ (b.shared.heap.at ptr).node.file_cursor (pos 0) ≡ true
      → Provides cache deserialize nr line b
      → Provides cache deserialize nr line (push_transaction cache community_index id ptr b).1
  unfolding push_transaction
  push_transaction_keeps id ptr nr line b sorted other unplaced v =
      push_unless_keeps id ptr nr line b sorted other v b.exit_called _
        (taken_lem ptr (target id b) b.shared unplaced)

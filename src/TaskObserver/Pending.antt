-- ===== src/TaskObserver/Pending.antt =====
-- src/controller/TaskObserver.cpp: which transactions are pending.
use gradido_node.Prelude.{
  ℕ, ◌≡◌, ◌≢◌, ◌⊎◌, inl, inr, refl, sym, ◌∙◌, true, false, List, [], ◌∷◌, none, some, All,
  Bool-cases, ◌==◌, if◌then◌else◌, is_some, arith, Option-cases,
}
use mathlib.Core.Path.{subst}
use mathlib.Core.Option.{some-injective}
use gradido_node.OrderedMap.{
  Map, find, insert, erase, IsSorted, find-insert, find-erase, insert-Above, erase-Above,
  insert_kept,
}
use gradido_node.TaskObserver.{
  TaskObserver, insert_all, erase_all, add_block_write_task, remove_entries,
  remove_block_write_task, is_transaction_pending,
}

-- Inserting finds its key and keeps what was found.
insert-is_some :
    (k j : ℕ) (v : ℕ) (m : Map ℕ)
    → IsSorted m
    → is_some (find j (insert k v m)) ≡ (if k == j then true else is_some (find j m))
insert-is_some k j v m s = elim (Option-cases (find k m)) [
  | inl absent ↦ let e = find-insert k j v 0 m s absent in ground arith
  | inr (w, present) ↦ let e = insert_kept k v w 0 m s present in ground arith
]

pub insert_all-is_some :
    (es m : Map ℕ) (j : ℕ)
    → IsSorted m
    → (is_some (find j es) ≡ true) ⊎ (is_some (find j m) ≡ true)
    → is_some (find j (insert_all es m)) ≡ true
unfolding insert_all find
insert_all-is_some [] m j s (inl h) = absurd (ground arith)
insert_all-is_some [] m j s (inr h) = h
insert_all-is_some ((k, e) ∷ es) m j s h =
    let step = insert-is_some k j e m s in
    insert_all-is_some es (insert k e m) j (insert-Above k 0 e m (omega arith) s) (ground arith)

pub insert_all-IsSorted : (es m : Map ℕ) → IsSorted m → IsSorted (insert_all es m)
unfolding insert_all
insert_all-IsSorted [] m s = s
insert_all-IsSorted ((k, e) ∷ es) m s =
    insert_all-IsSorted es (insert k e m) (insert-Above k 0 e m (omega arith) s)

erase_all-find :
    (es m : Map ℕ) (j : ℕ)
    → IsSorted m
    → find j (erase_all es m) ≡ (if is_some (find j es) then none else find j m)
unfolding erase_all find
erase_all-find [] m j s = refl
erase_all-find ((k, e) ∷ es) m j s =
    let rest = erase_all-find es (erase k m) j (erase-Above k 0 m s) in
    let step = find-erase k j 0 m s in ground arith

erase_all-IsSorted : (es m : Map ℕ) → IsSorted m → IsSorted (erase_all es m)
unfolding erase_all
erase_all-IsSorted [] m s = s
erase_all-IsSorted ((k, e) ∷ es) m s = erase_all-IsSorted es (erase k m) (erase-Above k 0 m s)

==-other : (i j : ℕ) → i ≢ j → (i == j) ≡ false
==-other i j ne = ground arith

-- What other calls do to the observer in between.
pub data Call : Type 0 where
  adds : ℕ → Map ℕ → Call
  removes : ℕ → Call

abbrev pub after : List Call → TaskObserver → TaskObserver
after [] o = o
after (adds id entries ∷ calls) o = after calls (add_block_write_task id entries o).1
after (removes id ∷ calls) o = after calls (remove_block_write_task id o).1

-- A call is for another task, and does not add the transaction.
abbrev pub IsApart : ℕ → ℕ → Call → Type 0
IsApart id nr (adds other entries) = (other ≢ id) × (find nr entries ≡ none)
IsApart id nr (removes other) = other ≢ id

-- The task is observed, and it alone has the transaction, which is pending.
record Observes (id nr : ℕ) (entries : Map ℕ) (o : TaskObserver) : Type 0 where
  tasks : IsSorted o.block_write_tasks
  sorted : IsSorted o.transactions_from_pending_tasks
  known : find id o.block_write_tasks ≡ some entries
  pending : is_some (find nr o.transactions_from_pending_tasks) ≡ true
  alone : (j : ℕ) (es : Map ℕ) → j ≢ id → find j o.block_write_tasks ≡ some es → find nr es ≡ none

add-Observes :
    (id nr : ℕ) (entries : Map ℕ) (other : ℕ) (es : Map ℕ) (o : TaskObserver)
    → other ≢ id
    → find nr es ≡ none
    → Observes id nr entries o
    → Observes id nr entries (add_block_write_task other es o).1
unfolding add_block_write_task
add-Observes id nr entries other es o apart without v =
    elim (Option-cases (find other o.block_write_tasks)) [
      | inl absent ↦
          let found = λ (j : ℕ). find-insert other j es 0 o.block_write_tasks v.tasks absent in
          rw absent (record {
            tasks = insert-Above other 0 es o.block_write_tasks (omega arith) v.tasks;
            sorted = insert_all-IsSorted es o.transactions_from_pending_tasks v.sorted;
            known = (let e = found id in let k = v.known in ground arith);
            pending =
                insert_all-is_some es o.transactions_from_pending_tasks nr v.sorted (inr v.pending);
            alone = λ j fs ne e. elim (Bool-cases (other == j)) [
              | inl same ↦
                  let f = found j in
                  let stored : some es ≡ some fs = sym (rw same at f) ∙ e in
                  subst (λ l. find nr l ≡ none) (some-injective es fs stored) without
              | inr differ ↦ let f = found j in v.alone j fs ne (sym (rw differ at f) ∙ e)
            ];
          })
      | inr (w, present) ↦ rw present v
    ]

remove-Observes :
    (id nr : ℕ) (entries : Map ℕ) (other : ℕ) (o : TaskObserver)
    → other ≢ id
    → Observes id nr entries o
    → Observes id nr entries (remove_block_write_task other o).1
unfolding remove_block_write_task remove_entries
remove-Observes id nr entries other o apart v =
    elim (Option-cases (find other o.block_write_tasks)) [
      | inl absent ↦ rw absent v
      | inr (es, present) ↦
          let found = λ (j : ℕ). find-erase other j 0 o.block_write_tasks v.tasks in
          let without : find nr es ≡ none = v.alone other es apart present in
          let kept = erase_all-find es o.transactions_from_pending_tasks nr v.sorted in
          rw present (record {
            tasks = erase-Above other 0 o.block_write_tasks v.tasks;
            sorted = erase_all-IsSorted es o.transactions_from_pending_tasks v.sorted;
            known = (let e = found id in let k = v.known in ground arith);
            pending = (let k = v.pending in ground arith);
            alone = λ j fs ne e. elim (Bool-cases (other == j)) [
              | inl same ↦
                  let f = found j in
                  let gone : none ≡ some fs = sym (rw same at f) ∙ e in absurd (ground arith)
              | inr differ ↦ let f = found j in v.alone j fs ne (sym (rw differ at f) ∙ e)
            ];
          })
    ]

after-Observes :
    (id nr : ℕ) (entries : Map ℕ) (calls : List Call) (o : TaskObserver)
    → All (IsApart id nr) calls
    → Observes id nr entries o
    → Observes id nr entries (after calls o)
after-Observes id nr entries [] o a v = v
after-Observes id nr entries (adds other es ∷ calls) o a v =
    after-Observes id nr entries calls (add_block_write_task other es o).1 a.1
      (add-Observes id nr entries other es o a.0.0 a.0.1 v)
after-Observes id nr entries (removes other ∷ calls) o a v =
    after-Observes id nr entries calls (remove_block_write_task other o).1 a.1
      (remove-Observes id nr entries other o a.0 v)

added-Observes :
    (id nr : ℕ) (entries : Map ℕ) (o : TaskObserver)
    → IsSorted o.block_write_tasks
    → IsSorted o.transactions_from_pending_tasks
    → find id o.block_write_tasks ≡ none
    → is_some (find nr entries) ≡ true
    → ((j : ℕ) (es : Map ℕ) → find j o.block_write_tasks ≡ some es → find nr es ≡ none)
    → Observes id nr entries (add_block_write_task id entries o).1
unfolding add_block_write_task
added-Observes id nr entries o s t new has others =
    let found = λ (j : ℕ). find-insert id j entries 0 o.block_write_tasks s new in
    rw new (record {
      tasks = insert-Above id 0 entries o.block_write_tasks (omega arith) s;
      sorted = insert_all-IsSorted entries o.transactions_from_pending_tasks t;
      known = (let e = found id in ground arith);
      pending = insert_all-is_some entries o.transactions_from_pending_tasks nr t (inl has);
      alone = λ j es ne e.
          let f = found j in others j es (sym (rw (==-other id j (λ q. ne (sym q))) at f) ∙ e);
    })

removed_lem :
    (id nr : ℕ) (entries : Map ℕ) (o : TaskObserver)
    → Observes id nr entries o
    → is_some (find nr entries) ≡ true
    → let (is_removed, o') = remove_block_write_task id o in
      (is_removed ≡ true) × (is_transaction_pending nr o' ≡ false)
unfolding remove_block_write_task remove_entries is_transaction_pending
removed_lem id nr entries o v has =
    let gone = erase_all-find entries o.transactions_from_pending_tasks nr v.sorted in
    rw v.known (refl, ground arith)

-- In an observer whose maps are sorted and where the task is not known, a transaction of a task that is added is
-- pending from then on until the task is removed, whatever is added and removed in between, and is then
-- pending no more. It holds where no other task that is observed or added has a transaction of the number.
pub add_remove-is_transaction_pending :
    (id nr : ℕ) (entries : Map ℕ) (calls : List Call) (o : TaskObserver)
    → IsSorted o.block_write_tasks
    → IsSorted o.transactions_from_pending_tasks
    → find id o.block_write_tasks ≡ none
    → is_some (find nr entries) ≡ true
    → ((j : ℕ) (es : Map ℕ) → find j o.block_write_tasks ≡ some es → find nr es ≡ none)
    → All (IsApart id nr) calls
    → let o1 = after calls (add_block_write_task id entries o).1 in
      let (is_removed, o2) = remove_block_write_task id o1 in
      (is_transaction_pending nr o1 ≡ true)
      × (is_removed ≡ true)
      × (is_transaction_pending nr o2 ≡ false)
unfolding is_transaction_pending
add_remove-is_transaction_pending id nr entries calls o s t new has others apart =
    let v =
      after-Observes id nr entries calls (add_block_write_task id entries o).1 apart
        (added-Observes id nr entries o s t new has others) in
    let (is_removed, gone) = removed_lem id nr entries _ v has in (v.pending, is_removed, gone)

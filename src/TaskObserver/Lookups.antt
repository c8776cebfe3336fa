-- ===== src/TaskObserver/Lookups.antt =====
-- src/controller/TaskObserver.cpp, getTransaction: what it finds after a task is added.
use gradido_node.Prelude.{
  ℕ, ◌≡◌, ◌⊎◌, inl, inr, ◌∙◌, sym, true, ◌||◌, [], ◌∷◌, Option, none, some, is_some, arith,
  Option-cases,
}
use gradido_node.OrderedMap.{Map, find, insert, IsSorted, find-insert, insert_kept, insert-Above}
use gradido_node.TaskObserver.{
  TaskObserver, insert_all, find_in_tasks, get_transaction, add_block_write_task,
  is_transaction_pending,
}
use gradido_node.TaskObserver.Pending.{insert_all-is_some}

-- The first task that has the transaction decides.
find_in_tasks-cons :
    (nr j : ℕ) (ds : Map ℕ) (m : Map (Map ℕ))
    → ((q : ℕ) × (find nr ds ≡ some q) × (find_in_tasks nr ((j, ds) ∷ m) ≡ some q))
      ⊎ ((find nr ds ≡ none) × (find_in_tasks nr ((j, ds) ∷ m) ≡ find_in_tasks nr m))
unfolding find_in_tasks
find_in_tasks-cons nr j ds m = elim (Option-cases (find nr ds)) [
  | inl e ↦ inr (e, ground arith)
  | inr (q, e) ↦ inl (q, e, ground arith)
]

-- What the tasks find after one is added is of the new one or was found before.
find_in_tasks-insert :
    (nr id q : ℕ) (es : Map ℕ) (m : Map (Map ℕ))
    → find_in_tasks nr (insert id es m) ≡ some q
    → (find nr es ≡ some q) ⊎ (find_in_tasks nr m ≡ some q)
unfolding insert
find_in_tasks-insert nr id q es [] e = elim (find_in_tasks-cons nr id es []) [
  | inl (r, has, found) ↦ inl (has ∙ sym found ∙ e)
  | inr (missing, rest) ↦ inr (sym rest ∙ e)
]
find_in_tasks-insert nr id q es ((j, ds) ∷ m) e =
    let hyp = find_in_tasks-insert nr id q es m in
    let front = find_in_tasks-cons nr id es ((j, ds) ∷ m) in
    let before = find_in_tasks-cons nr j ds m in
    let after = find_in_tasks-cons nr j ds (insert id es m) in ground arith

find_in_tasks-insert-is_some :
    (nr id : ℕ) (es : Map ℕ) (m : Map (Map ℕ))
    → find id m ≡ none
    → is_some (find_in_tasks nr (insert id es m))
      ≡ (is_some (find nr es) || is_some (find_in_tasks nr m))
unfolding insert find
find_in_tasks-insert-is_some nr id es [] new =
    let front = find_in_tasks-cons nr id es [] in ground arith
find_in_tasks-insert-is_some nr id es ((j, ds) ∷ m) new =
    let hyp = find_in_tasks-insert-is_some nr id es m in
    let front = find_in_tasks-cons nr id es ((j, ds) ∷ m) in
    let before = find_in_tasks-cons nr j ds m in
    let after = find_in_tasks-cons nr j ds (insert id es m) in ground arith

abbrev first_of : Option ℕ → Option ℕ → Option ℕ
first_of none o = o
first_of (some v) o = some v

insert_all-find :
    (nr : ℕ) (es m : Map ℕ)
    → IsSorted m
    → find nr (insert_all es m) ≡ first_of (find nr m) (find nr es)
unfolding insert_all find
insert_all-find nr [] m s = ground arith
insert_all-find nr ((k, v) ∷ es) m s =
    let hyp = insert_all-find nr es (insert k v m) (insert-Above k 0 v m (omega arith) s) in
    elim (Option-cases (find k m)) [
      | inl new ↦ let step = find-insert k nr v 0 m s new in ground arith
      | inr (w, there) ↦ let step = insert_kept k v w 0 m s there in ground arith
    ]

-- The observer's answer after a task is added is of the task or was given before.
pub get_transaction-add :
    (nr id q : ℕ) (es : Map ℕ) (o : TaskObserver)
    → IsSorted o.transactions_from_pending_tasks
    → find id o.block_write_tasks ≡ none
    → get_transaction nr (add_block_write_task id es o).1 ≡ some q
    → (find nr es ≡ some q) ⊎ (get_transaction nr o ≡ some q)
unfolding get_transaction add_block_write_task
get_transaction-add nr id q es o s new e =
    let pending = insert_all-find nr es o.transactions_from_pending_tasks s in
    let tasks = find_in_tasks-insert nr id q es o.block_write_tasks in
    let found = find_in_tasks-insert-is_some nr id es o.block_write_tasks new in ground arith

-- What was answered before or is of the task is answered after it is added, and pending.
pub get_transaction-add-is_some :
    (nr id : ℕ) (es : Map ℕ) (o : TaskObserver)
    → IsSorted o.transactions_from_pending_tasks
    → find id o.block_write_tasks ≡ none
    → (is_some (find nr es) ≡ true) ⊎ (is_transaction_pending nr o ≡ true)
    → (is_transaction_pending nr (add_block_write_task id es o).1 ≡ true)
      × (is_some (get_transaction nr (add_block_write_task id es o).1) ≡ true)
unfolding get_transaction add_block_write_task is_transaction_pending
get_transaction-add-is_some nr id es o s new h =
    let pending = insert_all-is_some es o.transactions_from_pending_tasks nr s in
    let found = find_in_tasks-insert-is_some nr id es o.block_write_tasks new in ground arith

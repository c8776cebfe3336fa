-- ===== src/OrderingManager/Push.antt =====
-- src/controller/SimpleOrderingManager.cpp, pushTransaction and findCrossGroupTransactionPair.
use gradido_node.Prelude.{
  inl, inr, All, ◌≤◌, Bool, true, false, ◌∷◌, if◌then◌else◌, ℕ, refl, suc, ◌≡◌, ◌≢◌, ◌⊎◌, List,
  Option, arith, length,
}
use gradido_node.OrderedMap.Multi.{
  FromMulti, insert_multi-FromMulti, AreKeyed, insert_multi-AreKeyed, Inserted,
  insert_multi-Inserted, insert_multi, length-insert_multi, insert_multi-All,
}
use gradido_node.OrderingManager.{
  Work, Manager, PushResult, in_shutdown, found_in_last_transactions, found_in_transactions, added,
  scheduled, push_transaction,
}

-- The manager after a push of a new response.
abbrev with_pushed : Work → ℕ → Manager → Manager
with_pushed w now m = record m {
  last_transactions = (w.running_hash, w.consensus_timestamp) ∷ m.last_transactions;
  transactions =
      insert_multi w.consensus_timestamp (record w { put_into_list_time = now; task = scheduled })
        m.transactions;
}

-- A push leaves the manager as it is or adds the response.
push_transaction-cases :
    (Q : PushResult × Manager → Type 0) (get : List (ℕ × ℕ) → ℕ → Option ℕ) (w : Work) (now : ℕ)
    (m : Manager)
    → ((r : PushResult) → r ≢ added → Q (r, m))
    → Q (added, with_pushed w now m)
    → Q (push_transaction get w now m)
unfolding push_transaction
push_transaction-cases Q get w now m same_kept new = chosen m.exit_called _ _
  where
    chosen :
        (a b c : Bool)
        → Q (
            if a
            then (in_shutdown, m)
            else if b
            then (found_in_last_transactions, m)
            else if c
            then (found_in_transactions, m)
            else (added, with_pushed w now m))
    chosen true b c = same_kept in_shutdown (ground arith)
    chosen false true c = same_kept found_in_last_transactions (ground arith)
    chosen false false true = same_kept found_in_transactions (ground arith)
    chosen false false false = new

-- What a push leaves.
abbrev pub HasPushed : Work → ℕ → Manager → PushResult × Manager → Type 0
HasPushed w now m (result, m') =
    FromMulti 0 m'.transactions
    × AreKeyed (λ (v : Work). v.consensus_timestamp) m'.transactions
    × (((result ≡ added)
          × Inserted w.consensus_timestamp (record w { put_into_list_time = now; task = scheduled })
              m.transactions m'.transactions)
        ⊎ ((result ≢ added) × (m' ≡ m)))

-- Pushing a response keeps the transactions in the order of their consensus timestamps, each under its own.
-- Exactly if the result is `added`, the response is there once more, under its timestamp, with the time of
-- the push and its task, and the others are as they were; in every other case the manager is as it was.
pub push_transaction-FromMulti :
    (get : List (ℕ × ℕ) → ℕ → Option ℕ) (w : Work) (now : ℕ) (m : Manager)
    → FromMulti 0 m.transactions
    → AreKeyed (λ (v : Work). v.consensus_timestamp) m.transactions
    → HasPushed w now m (push_transaction get w now m)
unfolding push_transaction
push_transaction-FromMulti get w now m h keyed =
    let v : Work = record w { put_into_list_time = now; task = scheduled } in
    push_transaction-cases (HasPushed w now m) get w now m (λ r ne. (h, keyed, inr (ne, refl)))
      (
        insert_multi-FromMulti w.consensus_timestamp 0 v m.transactions (omega arith) h,
        insert_multi-AreKeyed (λ (x : Work). x.consensus_timestamp) w.consensus_timestamp v
            m.transactions refl keyed,
        inl (refl, insert_multi-Inserted w.consensus_timestamp v m.transactions),
      )

-- What holds of the pushed response and of all transactions holds of all after the push, which adds one at
-- most and handles no message.
pub record OnePush (P : ℕ × Work → Type 0) (m : Manager) (r : PushResult × Manager) : Type 0 where
  pub history_eq : r.1.history ≡ m.history
  pub number_eq : r.1.last_sequence_number ≡ m.last_sequence_number
  pub at_most : length r.1.transactions ≤ suc (length m.transactions)
  pub holds : All P m.transactions → All P r.1.transactions

pub push_transaction-OnePush :
    (P : ℕ × Work → Type 0) (get : List (ℕ × ℕ) → ℕ → Option ℕ) (w : Work) (now : ℕ) (m : Manager)
    → P (w.consensus_timestamp, record w { put_into_list_time = now; task = scheduled })
    → OnePush P m (push_transaction get w now m)
push_transaction-OnePush P get w now m new =
    let v : Work = record w { put_into_list_time = now; task = scheduled } in
    push_transaction-cases (OnePush P m) get w now m
      (λ r ne. record {
        history_eq = refl;
        number_eq = refl;
        at_most = omega arith;
        holds = λ a. a;
      })
      (record {
        history_eq = refl;
        number_eq = refl;
        at_most = omega (arith, length-insert_multi w.consensus_timestamp v m.transactions);
        holds = insert_multi-All P w.consensus_timestamp v m.transactions new;
      })

-- ===== src/OrderingManager.antt =====
-- src/controller/SimpleOrderingManager.{h,cpp}: the messages of a hiero topic are handled in the
-- order of their sequence numbers. A timestamp is the number of nanoseconds that it stands for, as
-- the code only compares it. The thread holds the mutex of the transactions for a whole round.
pub mod Sequence
pub mod Rounds
pub mod Totality
pub mod Push
use gradido_node.Prelude.{
  ℕ, zero, suc, ◌+◌, ◌%◌, ◌^◌, Bool, true, false, ◌&&◌, ◌||◌, not, List, [], ◌∷◌, ◌++◌, Option,
  none, some, ltb, leb, ◌==◌, if◌then◌else◌, length, Outcome, ok, throw, ◌>>=◌, invalid_data,
  runtime_error, null_pointer, community_not_found, out_of_fuel,
}
use gradido_node.OrderedMap.{Map}
use gradido_node.OrderedMap.Multi.{insert_multi}

-- What the code reads of a gradido transaction: whether it is inbound, its other group, and its
-- pairing id as a hiero transaction id, if that can be deserialized.
pub record Transaction : Type 0 where
  pub is_inbound : Bool
  pub other_group : ℕ
  pub pairing_id : Option ℕ
  pub content : ℕ

-- HieroMessageToTransactionTask; without a transaction the pointer is null.
pub record Task : Type 0 where
  pub is_task_finished : Bool
  pub is_success : Bool
  pub transaction : Option Transaction

-- TopicResponseDeserializer with what is read of its ConsensusTopicResponse. The running hash stands
-- for its SignatureOctet. The transaction id may
-- be empty, and `message` is all that `isMessageSame` compares.
pub record Work : Type 0 where
  pub sequence_number : ℕ
  pub consensus_timestamp : ℕ
  pub running_hash : ℕ
  pub transaction_id : Option ℕ
  pub message : ℕ
  pub put_into_list_time : ℕ
  pub task : Task

-- What happened to a message in the thread.
pub data Fate : Type 0 where
  processed skipped timed_out target_unknown pairing_id_invalid pairing_invalid dropped : Fate

pub record Manager : Type 0 where
  pub last_sequence_number : ℕ
  pub transactions : Map Work
  pub last_transactions : List (ℕ × ℕ)
  pub exit_called : Bool
  pub known_sequence_number : ℕ
  pub history : List (ℕ × Fate)

-- How a call ends: it returns, it throws a GradidoBlockchainException, or it throws another exception.
pub data Called : Type 0 where
  returns throws_gradido throws_other : Called

-- The rest of the node as a round of the thread meets it: the time and the longest wait for a pair,
-- whether a community is known, the other community's `findCrossGroupTransactionPair`, the
-- comparison of the pair, and how the calls of `processTransaction` end: `createAndAddConfirmedTransaction`,
-- `updateLastKnownSequenceNumber` behind it and in the handler, and the notification in the handler;
-- and how the notification of a message that is given up ends.
pub record World : Type 0 where
  pub now : ℕ
  pub max_timespan : ℕ
  pub own_community_known : Bool
  pub community_known : ℕ → Bool
  pub find_pair : ℕ → ℕ → Option Task
  pub is_pairing : Transaction → Transaction → Bool
  pub create_and_add : Work → Called
  pub update_known : Work → Called
  pub notificate_failed : Work → Called
  pub notificate_skipped : Work → Called
  pub update_known_again : Work → Called

unfoldable pub update_sequence_number : ℕ → Manager → Outcome Manager
update_sequence_number new m =
    if m.last_sequence_number == 0
    then ok (record m { last_sequence_number = new })
    else if (m.last_sequence_number + 1) % 2 ^ 64 == new || 1 == new
    then ok (record m { last_sequence_number = new })
    else throw invalid_data

-- `erase` of the first transaction. What happened to it goes to the history, which stands for the log
-- and the notified community server.
unfoldable pub erase_first : Fate → Work → Manager → Manager
erase_first fate w m = record m {
  transactions = elim m.transactions [ [] ↦ [] | _ ∷ rest ↦ rest ];
  history = m.history ++ (w.sequence_number, fate) ∷ [];
}

unfoldable pub close : Fate → Work → Manager → Outcome Manager
close fate w m = update_sequence_number w.sequence_number (erase_first fate w m)

abbrev pub known : Manager → Manager
known m = record m { known_sequence_number = m.last_sequence_number }

-- The handler of GradidoBlockchainException: the notification may throw out of it, the update of the
-- sequence number may not.
abbrev pub handled : Called → Called → Manager → Outcome Manager
handled returns returns m = ok (known m)
handled returns throws_gradido m = ok m
handled returns throws_other m = ok m
handled throws_gradido again m = throw runtime_error
handled throws_other again m = throw runtime_error

-- Behind the update of the sequence number, and behind `createAndAddConfirmedTransaction`. An exception
-- of another class is not caught.
abbrev pub noted : World → Work → Called → Manager → Outcome Manager
noted e w returns m = ok (known m)
noted e w throws_gradido m = handled (e.notificate_failed w) (e.update_known_again w) m
noted e w throws_other m = throw runtime_error

abbrev pub created : World → Work → Called → Manager → Outcome Manager
created e w returns m = noted e w (e.update_known w) m
created e w throws_gradido m = handled (e.notificate_failed w) (e.update_known_again w) m
created e w throws_other m = throw runtime_error

-- `processTransaction`
unfoldable pub process_transaction : World → Work → Manager → Outcome Manager
process_transaction e w m =
    if not e.own_community_known then throw community_not_found else elim w.transaction_id [
      | none ↦ throw invalid_data
      | some _ ↦ created e w (e.create_and_add w) m
    ]

-- What the checks of an inbound transaction come to.
pub data Pairing : Type 0 where
  complete missing crashed : Pairing
  failed : Fate → Pairing

-- A pair that could not be deserialized is a null pointer, of which `isPairing` is asked.
unfoldable pub check_task : World → Transaction → Option Task → Pairing
check_task e t none = missing
check_task e t (some p) = if not p.is_task_finished then missing else elim p.transaction [
  | none ↦ crashed
  | some other ↦ if e.is_pairing other t then complete else failed pairing_invalid
]

unfoldable pub check_pair : World → Transaction → Option ℕ → Pairing
check_pair e t none = failed pairing_id_invalid
check_pair e t (some id) = check_task e t (e.find_pair t.other_group id)

unfoldable pub check_pairing : World → Work → Transaction → Pairing
check_pairing e w t =
    if not t.is_inbound
    then complete
    else if ltb (w.put_into_list_time + e.max_timespan) e.now
    then failed timed_out
    else if not (e.community_known t.other_group)
    then failed target_unknown
    else check_pair e t t.pairing_id

-- How a round ends: `return 0`, `continue`, or at the end of the body with the number of
-- transactions counted.
pub data Exit : Type 0 where
  returned continued : Exit
  counted : ℕ → Exit

unfoldable pub process_and_close : World → Work → Manager → Outcome Manager
process_and_close e w m = process_transaction e w m >>= close processed w

unfoldable pub conclude : World → Work → Manager → Outcome Manager
conclude e w m = if w.task.is_success then process_and_close e w m else close skipped w m

abbrev pub count_rest : Manager → Outcome (Exit × Manager)
count_rest m = ok (counted (length m.transactions), m)

abbrev pub go_on : Manager → Outcome (Exit × Manager)
go_on m = ok (continued, m)

-- What follows the notification of a message that is given up.
abbrev pub told : Called → Outcome Manager → Outcome Manager
told returns next = next
told throws_gradido next = throw runtime_error
told throws_other next = throw runtime_error

unfoldable pub settle : World → Work → Manager → Pairing → Outcome (Exit × Manager)
settle e w m crashed = throw null_pointer
settle e w m missing = ok (continued, m)
settle e w m (failed fate) = told (e.notificate_skipped w) (close fate w m) >>= go_on
settle e w m complete = conclude e w m >>= count_rest

-- A transaction that could not be deserialized is a null pointer, of which the body is asked.
unfoldable pub handle : World → Work → Manager → Option Transaction → Outcome (Exit × Manager)
handle e w m none = throw null_pointer
handle e w m (some t) = settle e w m (check_pairing e w t)

unfoldable pub round_of : World → Manager → Map Work → Outcome (Exit × Manager)
round_of e m [] = ok (returned, m)
round_of e m ((_, w) ∷ _) =
    let last = m.last_sequence_number in
    if not w.task.is_task_finished
    then ok (returned, m)
    else if ltb ((last + 1) % 2 ^ 64) w.sequence_number
    then ok (returned, m)
    else if not (last == 0) && leb w.sequence_number last
    then ok (continued, erase_first dropped w m)
    else handle e w m w.task.transaction

-- The body of the loop in `ThreadFunction`.
unfoldable pub round : World → Manager → Outcome (Exit × Manager)
round e m = round_of e m m.transactions

abbrev pub count_after : ℕ → Exit → ℕ
count_after count returned = 0
count_after count continued = count
count_after count (counted c) = c

-- `do … while (transactionsCount)`: a `continue` goes to the condition too, with the count as it
-- is, and a return ends the loop as a count of 0 would. Between two rounds the mutex is free, and the
-- other threads push transactions and finish tasks: `others`.
unfoldable pub thread_loop :
    ℕ → (ℕ → World) → (ℕ → Manager → Manager) → ℕ → ℕ → Manager → Outcome Manager
thread_loop zero worlds others k count m = throw out_of_fuel
thread_loop (suc n) worlds others k count m = round (worlds k) m >>= λ (exit, m').
    elim (count_after count exit == 0) [
      | true ↦ ok m'
      | false ↦ thread_loop n worlds others (suc k) (count_after count exit) (others k m')
    ]

unfoldable pub thread_function :
    ℕ → (ℕ → World) → (ℕ → Manager → Manager) → Manager → Outcome Manager
thread_function fuel worlds others m = thread_loop fuel worlds others 0 0 m

pub data PushResult : Type 0 where
  found_in_last_transactions found_in_transactions added in_shutdown : PushResult

abbrev is_time : Option ℕ → ℕ → Bool
is_time none t = false
is_time (some s) t = s == t

-- A transaction with the same timestamp and the same message.
unfoldable pub has_same : Work → Map Work → Bool
has_same w [] = false
has_same w ((t, v) ∷ m) = t == w.consensus_timestamp && v.message == w.message || has_same w m

-- The task of a new transaction.
abbrev pub scheduled : Task
scheduled = record { is_task_finished = false; is_success = false; transaction = none }

-- `mLastTransactions` is a cache of the blockchain library: `last_transactions` holds what was added
-- to it, the newest first, and `cache_get` is what it answers for a running hash after that.
unfoldable pub push_transaction :
    (List (ℕ × ℕ) → ℕ → Option ℕ) → Work → ℕ → Manager → PushResult × Manager
push_transaction cache_get w now m =
    if m.exit_called
    then (in_shutdown, m)
    else if is_time (cache_get m.last_transactions w.running_hash) w.consensus_timestamp
    then (found_in_last_transactions, m)
    else if has_same w m.transactions
    then (found_in_transactions, m)
    else (
      added,
      record m {
        last_transactions = (w.running_hash, w.consensus_timestamp) ∷ m.last_transactions;
        transactions =
            insert_multi w.consensus_timestamp
              (record w { put_into_list_time = now; task = scheduled }) m.transactions;
      },
    )

unfoldable pub find_in : ℕ → Map Work → Option Task
find_in id [] = none
find_in id ((_, w) ∷ m) = if is_time w.transaction_id id then some w.task else find_in id m

unfoldable pub find_cross_group_transaction_pair : ℕ → Manager → Option Task
find_cross_group_transaction_pair id m = if m.exit_called then none else find_in id m.transactions

-- `init`
unfoldable pub init : ℕ → Manager → Manager
init last_known m = record m { last_sequence_number = last_known }

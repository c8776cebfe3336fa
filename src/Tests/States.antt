-- ===== src/Tests/States.antt =====
-- The state, the transaction ids and the blockchain at concrete inputs.
use gradido_node.Prelude.{
  some, none, if◌then◌else◌, ◌==◌, false, List, Option, ltb, All, ℕ, suc, ◌≡◌, ◌≢◌, refl, Bool,
  true, [], ◌∷◌, length, pos, negsuc, Outcome, ok, throw, ◌>>=◌, out_of_fuel, arith,
}
use gradido_node.OrderedMap.{Map, find, insert}
use gradido_node.IndexFile.Reader.{bytes_eq}
use gradido_node.BlockIndex.{BlockIndex}
use gradido_node.BlockIndex.Search.{desc, find_transactions}
use gradido_node.LevelDb.{LevelDbWrapper, set_key_value}
use gradido_node.State.{
  State, update_state, update_state_number, read_int32_state, read_int64_state, read_state,
}
use gradido_node.State.Values.{update_state_number-read}
use gradido_node.Decimal.{to_string_int, to_string, digits}
use gradido_node.TransactionIds.{
  TransactionIds, add, get_transaction_nr, has, get_cached, add_new, write_if,
}
use gradido_node.TransactionIds.Lookups.{add-get_transaction_nr}
use gradido_node.Dictionary.{
  get_or_add_index_for_string, found_or_added, kept, find_index_for_string, confirm, same_or_zero,
  add_if_missing, store,
}
use gradido_node.LevelDb.{get_value_for_key}
use gradido_node.State.{read_with}
use gradido_node.TransactionHash.{push, push-has}
use gradido_node.TransactionHash
use gradido_node.FileBased.Adding.{
  Confirmed, Chain, StateKeys, AddingCalls, create_and_add_confirmed_transaction, unless_exited,
  add_confirmed, add_addresses, if_pushed, add_entry, note_transaction, update, add_message_id,
  push_hash_of,
}
use gradido_node.FileBased.Added.{create_and_add_confirmed_transaction_noted}
use gradido_node.Tests.Caches.{Pairs, db, dictionary}
use gradido_node.FileBased.{
  BlockCalls, FileBased, iterate_blocks, find_all_fast, find_all_result_count,
}
use gradido_node.FileBased.Iterating.{iterate_blocks-total}
use gradido_node.FileBased.Filtering.{find_all}
use gradido_node.FileBased.Filtering.Taken.{find_all-find_all_fast, found}
use gradido_node.FileBased.Searching.{find_all_result_count-find_all_fast}
use gradido_node.Tests.Stores.{Folder, level_db, level_db-IsLevelDb, cache, cache-IsCache}
use gradido_node.Tests.Indices.{
  surroundings, surroundings-IsOrderly, unpaged, unpaged-IsUnpaged, index,
}

abbrev file : Folder → LevelDbWrapper Folder
file d = record { folder = d; is_open = true }

abbrev state : Folder → State Folder
state d = record { initialized = true; state_file = file d }

-- The texts 7 and -12 under two keys.
update_state_number-read_example :
    (read_int32_state level_db
        (1 ∷ [])
        (pos 0)
        (state ((1 ∷ [], 45 ∷ 49 ∷ 50 ∷ []) ∷ (2 ∷ [], 55 ∷ []) ∷ []))
      ≡ ok (negsuc 11))
    × (read_int64_state level_db
          (1 ∷ [])
          (pos 0)
          (state ((1 ∷ [], 45 ∷ 49 ∷ 50 ∷ []) ∷ (2 ∷ [], 55 ∷ []) ∷ []))
        ≡ ok (negsuc 11))
    × (read_state level_db
          (2 ∷ [])
          []
          (state ((1 ∷ [], 45 ∷ 49 ∷ 50 ∷ []) ∷ (2 ∷ [], 55 ∷ []) ∷ []))
        ≡ read_state level_db (2 ∷ []) [] (state ((2 ∷ [], 55 ∷ []) ∷ [])))
unfolding update_state_number update_state set_key_value to_string_int to_string digits
update_state_number-read_example =
    update_state_number-read level_db level_db-IsLevelDb (1 ∷ []) (2 ∷ []) [] (negsuc 11) (pos 0)
      (state ((2 ∷ [], 55 ∷ []) ∷ []))
      (state ((1 ∷ [], 45 ∷ 49 ∷ 50 ∷ []) ∷ (2 ∷ [], 55 ∷ []) ∷ [])) refl (omega arith, omega arith)
      (λ h. ground arith)

abbrev ids : TransactionIds (Map ℕ) Folder
ids = record { initialized = true; level_db_file = file []; transaction_nrs = [] }

-- An id stands for its length. The cache drops everything after the call.
add-get_transaction_nr_example :
    let s' = record (add level_db cache (λ id. ok (length id)) (λ id. id) (7 ∷ []) 5 ids).1 {
      transaction_nrs = [];
    } in
    ((get_transaction_nr level_db cache (λ id. ok (length id)) (λ id. id) (7 ∷ []) s').0 ≡ ok 5)
    × ((has level_db cache (λ id. ok (length id)) (λ id. id) (7 ∷ []) s').0 ≡ ok true)
unfolding add get_cached add_new write_if set_key_value find
add-get_transaction_nr_example =
    add-get_transaction_nr level_db level_db-IsLevelDb cache (λ id. ok (length id)) (λ id. id) 1
      (7 ∷ []) 5 ids [] refl refl (omega arith) (omega arith) refl (λ v e. absurd (ground arith))

-- Signatures by their first byte, and a transaction with the number 4 whose signature is 7, 1.
abbrev first_byte : List ℕ → ℕ
first_byte [] = 0
first_byte (x ∷ xs) = x

abbrev first_signature_of : ℕ → Outcome (Option (List ℕ))
first_signature_of nr = if nr == 4 then ok (some (7 ∷ 1 ∷ [])) else ok none

push-has_example :
    (TransactionHash.has first_byte cache first_signature_of
      (7 ∷ 2 ∷ [])
      (push first_byte cache (7 ∷ 1 ∷ []) 4 []).1).0
    ≡ ok (bytes_eq (7 ∷ 1 ∷ []) (7 ∷ 2 ∷ []))
unfolding push find
push-has_example =
    push-has first_byte cache first_signature_of cache-IsCache (7 ∷ 1 ∷ []) (7 ∷ 2 ∷ []) 4 [] refl
      refl refl

abbrev calls : BlockCalls BlockIndex ℕ
calls = record { block_index = λ x. x; get_transaction = λ id x. ok id }

abbrev chain : FileBased (Map BlockIndex) Folder
chain = record { blockchain_state = state ((1 ∷ [], 50 ∷ []) ∷ []); cached_blocks = [] }

abbrev init_block : ℕ → Outcome (Bool × BlockIndex)
init_block nr = ok (true, index)

abbrev count_up : BlockIndex → ℕ → Outcome (Bool × ℕ)
count_up x n = ok (true, suc n)

iterate_blocks-total_example :
    iterate_blocks level_db cache calls (1 ∷ []) init_block count_up desc 0 chain
    ≢ throw out_of_fuel
iterate_blocks-total_example =
    iterate_blocks-total level_db cache calls (1 ∷ []) init_block (λ nr h. ground arith) count_up
      (λ x n h. ground arith) desc 0 chain

find_all_result_count-find_all_fast_example :
    find_all_result_count level_db cache calls
      (1 ∷ [])
      init_block
      surroundings
      (λ n. unpaged)
      0
      (λ n. n)
      chain
    ≡ find_all_fast level_db cache calls
        (1 ∷ [])
        init_block
        surroundings
        (λ n. unpaged)
        0
        (λ n. n)
        chain
      >>= λ (r, b'). ok (length r.numbers, b')
find_all_result_count-find_all_fast_example =
    find_all_result_count-find_all_fast level_db cache calls (1 ∷ []) init_block surroundings
      (λ n. unpaged) (λ n. n) surroundings-IsOrderly unpaged-IsUnpaged chain

abbrev all_of : {P : ℕ → Type 0} → ((n : ℕ) → P n) → (xs : List ℕ) → All P xs
all_of p [] = tt
all_of p (x ∷ xs) = (p x, all_of p xs)

-- A filter function that uses the numbers above 5.
abbrev above_5 : ℕ → Bool × Bool
above_5 n = (ltb 5 n, false)

find_all-find_all_fast_example :
    find_all level_db cache calls
      (1 ∷ [])
      init_block
      surroundings
      (λ n. unpaged)
      0
      (λ n. n)
      above_5
      chain
    ≡ find_all_fast level_db cache calls
        (1 ∷ [])
        init_block
        surroundings
        (λ n. unpaged)
        0
        (λ n. n)
        chain
      >>= λ (r, b'). ok (found above_5 (λ n. n) r, b')
find_all-find_all_fast_example =
    find_all-find_all_fast level_db cache calls (1 ∷ []) init_block surroundings (λ n. unpaged)
      (λ n. n) above_5 (λ n. n) unpaged-IsUnpaged (λ t. refl)
      (λ block. all_of (λ n. refl) (find_transactions surroundings unpaged block)) chain

-- A chain whose state has three keys, and a transaction with the number 5 and an address that is new.
abbrev keys : StateKeys
keys = record { last_block_nr = 1 ∷ []; last_transaction_id = 2 ∷ []; last_address_index = 3 ∷ [] }

abbrev confirmed : Confirmed
confirmed = record { id = 5; message_id = 7 ∷ []; involved_addresses = (9 ∷ []) ∷ [] }

-- The others are the number of the blocks' transactions.
abbrev adding_calls : AddingCalls ℕ ℕ
adding_calls = record {
  confirm = λ t id at o. ok (some confirmed);
  get_block = λ nr o. (ok true, o);
  push_to_block = λ nr t o. (ok true, suc o);
  run_past_add_to_blockchain = λ t o. (ok true, o);
  push_hash = λ t o. (ok true, o);
}

abbrev new_chain : Chain Pairs (Map ℕ) Folder ℕ
new_chain = record {
  exit_called = false;
  blockchain_state = state ((1 ∷ [], 50 ∷ []) ∷ []);
  public_keys_index = dictionary;
  message_ids = ids;
  others = 4;
}

added :
    (create_and_add_confirmed_transaction level_db db length cache
      (λ id. ok (length id))
      (λ id. id)
      keys
      adding_calls
      (some 0)
      (some (7 ∷ []))
      100
      new_chain).0
    ≡ ok true
unfolding create_and_add_confirmed_transaction unless_exited add_confirmed add_addresses if_pushed
    note_transaction update add_message_id push_hash_of read_int32_state update_state_number
    update_state set_key_value get_value_for_key read_with add get_cached add_new write_if find
    get_or_add_index_for_string find_index_for_string confirm same_or_zero add_if_missing store
    add_entry found_or_added kept bytes_eq insert
added = refl

create_and_add_confirmed_transaction_noted_example :
    let d =
      (create_and_add_confirmed_transaction level_db db length cache
        (λ id. ok (length id))
        (λ id. id)
        keys
        adding_calls
        (some 0)
        (some (7 ∷ []))
        100
        new_chain).1 in
    (read_int64_state level_db keys.last_transaction_id (pos 0) d.blockchain_state ≡ ok (pos 5))
    × ((get_transaction_nr level_db cache
          (λ id. ok (length id))
          (λ id. id)
          (7 ∷ [])
          (record d.message_ids { transaction_nrs = [] })).0
        ≡ ok 5)
unfolding find
create_and_add_confirmed_transaction_noted_example =
    create_and_add_confirmed_transaction_noted level_db db length cache (λ id. ok (length id))
      (λ id. id) keys adding_calls level_db-IsLevelDb 0 (7 ∷ []) 100 confirmed 1 [] (pos 0)
      new_chain refl (λ h. ground arith) (omega arith) (omega arith) refl refl
      (λ v e. absurd (ground arith)) added

-- ===== src/FileBased/Adding.antt =====
-- src/blockchain/FileBased.cpp, createAndAddConfirmedTransaction. The confirmation of a transaction and
-- what its role does afterwards, which gradido_blockchain has, are given from outside, with the block
-- that takes the transaction and the cache of the hashes; the notice to a community server is left out.
-- What a call that throws has changed stays.
use gradido_node.Prelude.{
  ℕ, Bool, true, false, List, [], ◌∷◌, Option, none, some, ℤ, pos, Outcome, ok, throw, null_pointer,
}
use gradido_node.Dictionary.{Store, Dictionary, get_or_add_index_for_string}
use gradido_node.ExpireCache.{ExpireCache}
use gradido_node.LevelDb.{LevelDb}
use gradido_node.State.{State, read_int32_state, update_state_number}
use gradido_node.TransactionIds
use gradido_node.TransactionIds.{TransactionIds, then_do}

-- What the code asks of a confirmed transaction.
pub record Confirmed : Type 0 where
  pub id : ℕ
  pub message_id : List ℕ
  pub involved_addresses : List (List ℕ)

-- The parts of the blockchain that a new transaction changes; `others` are its blocks, the hashes of its
-- transactions and its trigger events.
pub record Chain (S C D O : Type 0) : Type 0 where
  pub exit_called : Bool
  pub blockchain_state : State D
  pub public_keys_index : Dictionary S
  pub message_ids : TransactionIds C D
  pub others : O

-- The keys of the state, as texts.
pub record StateKeys : Type 0 where
  pub last_block_nr : List ℕ
  pub last_transaction_id : List ℕ
  pub last_address_index : List ℕ

-- What is called of gradido_blockchain, of the block and of the hashes; false is a block that is stopped.
-- That `getBlock` raises the last block number in the state is left out.
pub record AddingCalls (T O : Type 0) : Type 0 where
  pub confirm : T → List ℕ → ℕ → O → Outcome (Option Confirmed)
  pub get_block : ℤ → O → Outcome Bool × O
  pub push_to_block : ℤ → Confirmed → O → Outcome Bool × O
  pub run_past_add_to_blockchain : Confirmed → O → Outcome Bool × O
  pub push_hash : Confirmed → O → Outcome Bool × O

module _ {S K C D O T : Type 0} (db : LevelDb D) (store : Store S) (octet : List ℕ → ℕ)
    (cache : ExpireCache K ℕ C) (from_protobuf : List ℕ → Outcome K) (base64 : List ℕ → List ℕ)
    (keys : StateKeys) (calls : AddingCalls T O) where
  abbrev Step : Type 0
  Step = Chain S C D O → Outcome Bool × Chain S C D O

  abbrev pub on_others : Chain S C D O → Outcome Bool × O → Outcome Bool × Chain S C D O
  on_others c (result, o) = (result, record c { others = o })

  abbrev pub with_keys : Chain S C D O → Outcome ℕ × Dictionary S → Outcome Bool × Chain S C D O
  with_keys c (throw e, d) = (throw e, record c { public_keys_index = d })
  with_keys c (ok index, d) = (ok true, record c { public_keys_index = d })

  -- The loop over the involved addresses, as the constructor of the entry has it too.
  unfoldable pub add_addresses : List (List ℕ) → Chain S C D O → Outcome Bool × Chain S C D O
  add_addresses [] c = (ok true, c)
  add_addresses (a ∷ rest) c =
      then_do (with_keys c (get_or_add_index_for_string store octet a c.public_keys_index))
        λ added c. add_addresses rest c

  abbrev pub with_state : Chain S C D O → Outcome (State D) → Outcome Bool × Chain S C D O
  with_state c (throw e) = (throw e, c)
  with_state c (ok s) = (ok true, record c { blockchain_state = s })

  unfoldable pub update : List ℕ → ℕ → Chain S C D O → Outcome Bool × Chain S C D O
  update key value c = with_state c (update_state_number db key (pos value) c.blockchain_state)

  -- `mMessageIdsCache.add`
  unfoldable pub add_message_id : Confirmed → Chain S C D O → Outcome Bool × Chain S C D O
  add_message_id t c =
      let (result, ids) =
        TransactionIds.add db cache from_protobuf base64 t.message_id t.id c.message_ids in
      (result, record c { message_ids = ids })

  unfoldable pub push_hash_of : Confirmed → Chain S C D O → Outcome Bool × Chain S C D O
  push_hash_of t c = on_others c (calls.push_hash t c.others)

  -- The part behind `runPastAddToBlockchain`.
  unfoldable pub note_transaction : Confirmed → Chain S C D O → Outcome Bool × Chain S C D O
  note_transaction t c = then_do (update keys.last_transaction_id t.id c) λ r c.
      then_do (update keys.last_address_index c.public_keys_index.last_index c) λ r c.
        then_do (push_hash_of t c)
          λ r c. then_do (add_message_id t c) λ r c. add_addresses t.involved_addresses c

  unfoldable pub if_pushed : Confirmed → Bool → Chain S C D O → Outcome Bool × Chain S C D O
  if_pushed t false c = (ok false, c)
  if_pushed t true c =
      then_do (on_others c (calls.run_past_add_to_blockchain t c.others))
        λ r c. note_transaction t c

  -- The entry, whose constructor adds the addresses, goes to the block.
  unfoldable pub add_entry : Confirmed → ℤ → Chain S C D O → Outcome Bool × Chain S C D O
  add_entry t block_nr c =
      then_do (add_addresses t.involved_addresses c)
        λ r c. then_do (on_others c (calls.push_to_block block_nr t c.others)) (if_pushed t)

  -- The part behind the confirmation: none if the transaction already exists.
  unfoldable pub add_confirmed : Option Confirmed → Chain S C D O → Outcome Bool × Chain S C D O
  add_confirmed none c = (ok false, c)
  add_confirmed (some t) c =
      then_do (read_int32_state db keys.last_block_nr (pos 1) c.blockchain_state, c)
        λ block_nr c.
          then_do (on_others c (calls.get_block block_nr c.others)) λ r c. add_entry t block_nr c

  unfoldable pub unless_exited :
      Bool → T → List ℕ → ℕ → Chain S C D O → Outcome Bool × Chain S C D O
  unless_exited true t message_id confirmed_at c = (ok false, c)
  unless_exited false t message_id confirmed_at c =
      then_do (calls.confirm t message_id confirmed_at c.others, c) add_confirmed

  -- `createAndAddConfirmedTransaction`: a pointer that is null is none.
  unfoldable pub create_and_add_confirmed_transaction :
      Option T → Option (List ℕ) → ℕ → Chain S C D O → Outcome Bool × Chain S C D O
  create_and_add_confirmed_transaction none message_id confirmed_at c = (throw null_pointer, c)
  create_and_add_confirmed_transaction (some t) none confirmed_at c = (throw null_pointer, c)
  create_and_add_confirmed_transaction (some t) (some message_id) confirmed_at c =
      unless_exited c.exit_called t message_id confirmed_at c

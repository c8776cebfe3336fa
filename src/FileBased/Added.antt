-- ===== src/FileBased/Added.antt =====
-- src/blockchain/FileBased.cpp, createAndAddConfirmedTransaction: what it leaves when it succeeds.
use gradido_node.Prelude.{
  ℕ, ◌<◌, ◌^◌, ◌≡◌, ◌≢◌, refl, ap, sym, ◌∙◌, Bool, true, false, List, some, ℤ, pos, Outcome, ok,
  arith,
}
use gradido_node.Dictionary.{Store}
use gradido_node.ExpireCache.{ExpireCache}
use gradido_node.LevelDb.{LevelDb}
use gradido_node.LevelDb.Laws.{IsLevelDb}
use gradido_node.State.{read_int32_state, read_int64_state}
use gradido_node.TransactionIds
use gradido_node.TransactionIds.{TransactionIds, then_do, get_transaction_nr}
use gradido_node.TransactionIds.Lookups.{add-get_transaction_nr}
use gradido_node.FileBased.Adding.{
  Confirmed, Chain, StateKeys, AddingCalls, add_addresses, if_pushed, add_entry, add_confirmed,
  unless_exited, create_and_add_confirmed_transaction, on_others,
}
use gradido_node.FileBased.Noting.{then_lem, add_addresses-Keeps, IsNoted, note_transaction_lem}

module _ {S K C D O T : Type 0} (db : LevelDb D) (store : Store S) (octet : List ℕ → ℕ)
    (cache : ExpireCache K ℕ C) (from_protobuf : List ℕ → Outcome K) (base64 : List ℕ → List ℕ)
    (keys : StateKeys) (calls : AddingCalls T O) where
  module _ (laws : IsLevelDb db) where
    from_before :
        (t : Confirmed) (c c1 d : Chain S C D O)
        → c1.message_ids ≡ c.message_ids
        → IsNoted db store octet cache from_protobuf base64 keys calls laws t c1 d
        → IsNoted db store octet cache from_protobuf base64 keys calls laws t c d
    from_before t c c1 d e v = record {
      id_read = v.id_read;
      added = v.added;
      added_eq =
          ap (λ ids. (TransactionIds.add db cache from_protobuf base64 t.message_id t.id ids).0)
            (sym e)
          ∙ v.added_eq;
      ids_eq =
          v.ids_eq
          ∙ ap (λ ids. (TransactionIds.add db cache from_protobuf base64 t.message_id t.id ids).1)
              e;
    }

    if_pushed_lem :
        (t : Confirmed) (b : Bool) (c : Chain S C D O)
        → keys.last_address_index ≢ keys.last_transaction_id
        → (if_pushed db store octet cache from_protobuf base64 keys calls t b c).0 ≡ ok true
        → IsNoted db store octet cache from_protobuf base64 keys calls laws t c
            (if_pushed db store octet cache from_protobuf base64 keys calls t b c).1
    unfolding if_pushed
    if_pushed_lem t false c differ done = absurd (ground arith)
    if_pushed_lem t true c differ done =
        then_lem (IsNoted db store octet cache from_protobuf base64 keys calls laws t c)
          (on_others db store octet cache from_protobuf base64 keys calls c
            (calls.run_past_add_to_blockchain t c.others))
          _
          (λ r e d. from_before t c _ _ refl (
            note_transaction_lem db store octet cache from_protobuf base64 keys calls laws t _
              differ d))
          done

    add_entry_lem :
        (t : Confirmed) (nr : ℤ) (c : Chain S C D O)
        → keys.last_address_index ≢ keys.last_transaction_id
        → (add_entry db store octet cache from_protobuf base64 keys calls t nr c).0 ≡ ok true
        → IsNoted db store octet cache from_protobuf base64 keys calls laws t c
            (add_entry db store octet cache from_protobuf base64 keys calls t nr c).1
    unfolding add_entry
    add_entry_lem t nr c differ done =
        let c1 =
          (add_addresses db store octet cache from_protobuf base64 keys calls t.involved_addresses
            c).1 in
        then_lem (IsNoted db store octet cache from_protobuf base64 keys calls laws t c)
          (add_addresses db store octet cache from_protobuf base64 keys calls t.involved_addresses
            c)
          _
          (λ r e1 d1.
            then_lem (IsNoted db store octet cache from_protobuf base64 keys calls laws t c)
              (on_others db store octet cache from_protobuf base64 keys calls c1
                (calls.push_to_block nr t c1.others))
              _
              (λ b e2 d2.
                from_before t c _ _
                  (add_addresses-Keeps db store octet cache from_protobuf base64 keys calls
                    t.involved_addresses c).ids_eq
                  (if_pushed_lem t b _ differ d2))
              d1)
          done

    add_confirmed_lem :
        (t : Confirmed) (c : Chain S C D O)
        → keys.last_address_index ≢ keys.last_transaction_id
        → (add_confirmed db store octet cache from_protobuf base64 keys calls (some t) c).0
          ≡ ok true
        → IsNoted db store octet cache from_protobuf base64 keys calls laws t c
            (add_confirmed db store octet cache from_protobuf base64 keys calls (some t) c).1
    unfolding add_confirmed
    add_confirmed_lem t c differ done =
        then_lem (IsNoted db store octet cache from_protobuf base64 keys calls laws t c)
          (read_int32_state db keys.last_block_nr (pos 1) c.blockchain_state, c) _
          (λ nr e0 d0.
            then_lem (IsNoted db store octet cache from_protobuf base64 keys calls laws t c)
              (on_others db store octet cache from_protobuf base64 keys calls c
                (calls.get_block nr c.others))
              _ (λ b e d. from_before t c _ _ refl (add_entry_lem t nr _ differ d)) d0)
          done

    unless_exited_lem :
        (exited : Bool) (g : T) (m : List ℕ) (at : ℕ) (t : Confirmed) (c : Chain S C D O)
        → calls.confirm g m at c.others ≡ ok (some t)
        → keys.last_address_index ≢ keys.last_transaction_id
        → (unless_exited db store octet cache from_protobuf base64 keys calls exited g m at c).0
          ≡ ok true
        → IsNoted db store octet cache from_protobuf base64 keys calls laws t c
            (unless_exited db store octet cache from_protobuf base64 keys calls exited g m at c).1
    unfolding unless_exited
    unless_exited_lem true g m at t c confirmed differ done = absurd (ground arith)
    unless_exited_lem false g m at t c confirmed differ done =
        rw confirmed (add_confirmed_lem t c differ (rw confirmed at done))

    -- Where a transaction is confirmed and added with success, the state has its number as the last one and its
    -- message id is answered with the number, whatever the cache has dropped since, as long as it holds no
    -- other number for it. It holds where the keys of the state differ, the number is positive and below
    -- 2 ^ 63, the message id can be read and the message ids are in use.
    pub create_and_add_confirmed_transaction_noted :
        (gradido_transaction : T) (message_id : List ℕ) (confirmed_at : ℕ) (t : Confirmed) (k : K)
        (ids : C) (default : ℤ) (c : Chain S C D O)
        → calls.confirm gradido_transaction message_id confirmed_at c.others ≡ ok (some t)
        → keys.last_address_index ≢ keys.last_transaction_id
        → 0 < t.id
        → t.id < 2 ^ 63
        → from_protobuf t.message_id ≡ ok k
        → c.message_ids.initialized ≡ true
        → ((v : ℕ) → (cache.get k ids).0 ≡ some v → v ≡ t.id)
        → (create_and_add_confirmed_transaction db store octet cache from_protobuf base64 keys calls
            (some gradido_transaction)
            (some message_id)
            confirmed_at
            c).0
          ≡ ok true
        → let d =
            (create_and_add_confirmed_transaction db store octet cache from_protobuf base64 keys
              calls
              (some gradido_transaction)
              (some message_id)
              confirmed_at
              c).1 in
          (read_int64_state db keys.last_transaction_id default d.blockchain_state ≡ ok (pos t.id))
          × ((get_transaction_nr db cache from_protobuf base64 t.message_id
                (record d.message_ids { transaction_nrs = ids })).0
              ≡ ok t.id)
    unfolding create_and_add_confirmed_transaction
    create_and_add_confirmed_transaction_noted g m at t k ids default c confirmed differ above below
          parsed ready only done =
        let v = unless_exited_lem c.exit_called g m at t c confirmed differ done in
        (
          v.id_read default below,
          ap
                (λ (i : TransactionIds C D).
                  (get_transaction_nr db cache from_protobuf base64 t.message_id
                    (record i { transaction_nrs = ids })).0)
                v.ids_eq
              ∙ (add-get_transaction_nr db laws cache from_protobuf base64 k t.message_id t.id
                  c.message_ids ids parsed ready above (omega arith) v.added_eq only).0,
        )

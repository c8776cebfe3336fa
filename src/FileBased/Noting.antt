-- ===== src/FileBased/Noting.antt =====
-- src/blockchain/FileBased.cpp, createAndAddConfirmedTransaction: its last part, which notes what was added.
use gradido_node.Prelude.{
  ℕ, ◌<◌, ◌^◌, ◌≡◌, ◌≢◌, refl, ap, sym, ◌∙◌, Bool, true, List, [], ◌∷◌, ℤ, pos, Outcome, ok, throw,
  arith,
}
use gradido_node.Dictionary.{Store, Dictionary, get_or_add_index_for_string}
use gradido_node.Decimal.{to_string_int, strtoll, strtoll-to_string_int}
use gradido_node.ExpireCache.{ExpireCache}
use gradido_node.LevelDb.{LevelDb}
use gradido_node.LevelDb.Laws.{IsLevelDb}
use gradido_node.State.{State, read_with, read_int64_state, update_state_number}
use gradido_node.State.Values.{HasUpdated, update_state_lem, read_with_found, read_with_other}
use gradido_node.TransactionIds
use gradido_node.TransactionIds.{TransactionIds, then_do, get_transaction_nr}
use gradido_node.FileBased.Adding.{
  Confirmed, Chain, StateKeys, AddingCalls, add_addresses, with_keys, with_state, update,
  add_message_id, push_hash_of, note_transaction,
}

-- What holds where a sequence returns true is shown for what follows its first part.
pub then_lem :
    {A S : Type 0} (P : S → Type 0) (first : Outcome A × S) (next : A → S → Outcome Bool × S)
    → ((a : A) → first.0 ≡ ok a → (next a first.1).0 ≡ ok true → P (next a first.1).1)
    → (then_do first next).0 ≡ ok true
    → P (then_do first next).1
then_lem P (ok a, s) next h e = h a refl e
then_lem P (throw x, s) next h e = absurd (ground arith)

module _ {S K C D O T : Type 0} (db : LevelDb D) (store : Store S) (octet : List ℕ → ℕ)
    (cache : ExpireCache K ℕ C) (from_protobuf : List ℕ → Outcome K) (base64 : List ℕ → List ℕ)
    (keys : StateKeys) (calls : AddingCalls T O) where
  -- A part that leaves the state and the message ids alone.
  pub record Keeps (c c' : Chain S C D O) : Type 0 where
    pub state_eq : c'.blockchain_state ≡ c.blockchain_state
    pub ids_eq : c'.message_ids ≡ c.message_ids

  Keeps-then :
      {A : Type 0} (c : Chain S C D O) (first : Outcome A × Chain S C D O)
      (next : A → Chain S C D O → Outcome Bool × Chain S C D O)
      → Keeps c first.1
      → ((a : A) (d : Chain S C D O) → Keeps d (next a d).1)
      → Keeps c (then_do first next).1
  Keeps-then c (throw e, d) next k h = k
  Keeps-then c (ok a, d) next k h = record {
    state_eq = (h a d).state_eq ∙ k.state_eq;
    ids_eq = (h a d).ids_eq ∙ k.ids_eq;
  }

  with_keys-Keeps :
      (c : Chain S C D O) (r : Outcome ℕ × Dictionary S)
      → Keeps c (with_keys db store octet cache from_protobuf base64 keys calls c r).1
  with_keys-Keeps c (throw e, d) = record { state_eq = refl; ids_eq = refl }
  with_keys-Keeps c (ok i, d) = record { state_eq = refl; ids_eq = refl }

  pub add_addresses-Keeps :
      (addresses : List (List ℕ)) (c : Chain S C D O)
      → Keeps c (add_addresses db store octet cache from_protobuf base64 keys calls addresses c).1
  unfolding add_addresses
  add_addresses-Keeps [] c = record { state_eq = refl; ids_eq = refl }
  add_addresses-Keeps (a ∷ rest) c =
      Keeps-then c _ _
        (with_keys-Keeps c (get_or_add_index_for_string store octet a c.public_keys_index))
        (λ added d. add_addresses-Keeps rest d)

  module _ (laws : IsLevelDb db) where
    -- What an update of the state leaves.
    record HasNoted (key : List ℕ) (value : ℕ) (c d : Chain S C D O) : Type 0 where
      updated :
          HasUpdated db laws key (to_string_int (pos value)) c.blockchain_state d.blockchain_state
      same_ids : d.message_ids ≡ c.message_ids

    with_state_lem :
        {b : Bool} (c : Chain S C D O) (key : List ℕ) (value : ℕ) (r : Outcome (State D))
        → update_state_number db key (pos value) c.blockchain_state ≡ r
        → (with_state db store octet cache from_protobuf base64 keys calls c r).0 ≡ ok b
        → HasNoted key value c
            (with_state db store octet cache from_protobuf base64 keys calls c r).1
    unfolding update_state_number
    with_state_lem c key value (throw e) h done = absurd (ground arith)
    with_state_lem c key value (ok s) h done = record {
      updated = update_state_lem db laws key (to_string_int (pos value)) c.blockchain_state s h;
      same_ids = refl;
    }

    update_lem :
        {b : Bool} (key : List ℕ) (value : ℕ) (c : Chain S C D O)
        → (update db store octet cache from_protobuf base64 keys calls key value c).0 ≡ ok b
        → HasNoted key value c
            (update db store octet cache from_protobuf base64 keys calls key value c).1
    unfolding update
    update_lem key value c done = with_state_lem c key value _ refl done

    -- What a noted transaction leaves, from the chain before.
    pub record IsNoted (t : Confirmed) (c d : Chain S C D O) : Type 0 where
      pub id_read :
          (default : ℤ)
          → t.id < 2 ^ 63
          → read_int64_state db keys.last_transaction_id default d.blockchain_state ≡ ok (pos t.id)
      pub added : Bool
      pub added_eq :
          (TransactionIds.add db cache from_protobuf base64 t.message_id t.id c.message_ids).0
          ≡ ok added
      pub ids_eq :
          d.message_ids
          ≡ (TransactionIds.add db cache from_protobuf base64 t.message_id t.id c.message_ids).1

    noted_lem :
        (t : Confirmed) (c c1 c2 : Chain S C D O) (r : Bool) (last_index : ℕ) {d : Chain S C D O}
        → keys.last_address_index ≢ keys.last_transaction_id
        → HasNoted keys.last_transaction_id t.id c c1
        → HasNoted keys.last_address_index last_index c1 c2
        → (TransactionIds.add db cache from_protobuf base64 t.message_id t.id c2.message_ids).0
          ≡ ok r
        → d.blockchain_state ≡ c2.blockchain_state
        → d.message_ids
          ≡ (TransactionIds.add db cache from_protobuf base64 t.message_id t.id c2.message_ids).1
        → IsNoted t c d
    unfolding read_int64_state
    noted_lem t c c1 c2 r last_index {d = d} differ n1 n2 e same_state same_ids =
        let ids : c2.message_ids ≡ c.message_ids = n2.same_ids ∙ n1.same_ids in
        record {
          id_read = λ default small.
              ap (read_with db strtoll keys.last_transaction_id default) same_state
              ∙ read_with_other db laws strtoll keys.last_address_index
                  (to_string_int (pos last_index)) keys.last_transaction_id default
                  c1.blockchain_state c2.blockchain_state n2.updated differ
              ∙ read_with_found db laws strtoll keys.last_transaction_id (to_string_int (pos t.id))
                  default c.blockchain_state c1.blockchain_state n1.updated
              ∙ ap ok (strtoll-to_string_int (pos t.id) (omega arith, omega arith));
          added = r;
          added_eq =
              ap (λ ids. (TransactionIds.add db cache from_protobuf base64 t.message_id t.id ids).0)
                (sym ids)
              ∙ e;
          ids_eq =
              same_ids
              ∙ ap
                  (λ ids.
                    (TransactionIds.add db cache from_protobuf base64 t.message_id t.id ids).1)
                  ids;
        }

    pub note_transaction_lem :
        (t : Confirmed) (c : Chain S C D O)
        → keys.last_address_index ≢ keys.last_transaction_id
        → (note_transaction db store octet cache from_protobuf base64 keys calls t c).0 ≡ ok true
        → IsNoted t c (note_transaction db store octet cache from_protobuf base64 keys calls t c).1
    unfolding note_transaction push_hash_of add_message_id read_int64_state
    note_transaction_lem t c differ done =
        let P = IsNoted t c in
        then_lem P
          (update db store octet cache from_protobuf base64 keys calls keys.last_transaction_id t.id
            c)
          _
          (λ r1 e1 d1.
            let c1 =
              (update db store octet cache from_protobuf base64 keys calls keys.last_transaction_id
                t.id c).1 in
            then_lem P
              (update db store octet cache from_protobuf base64 keys calls keys.last_address_index
                c1.public_keys_index.last_index c1)
              _
              (λ r2 e2 d2.
                let c2 =
                  (update db store octet cache from_protobuf base64 keys calls
                    keys.last_address_index c1.public_keys_index.last_index c1).1 in
                then_lem P (push_hash_of db store octet cache from_protobuf base64 keys calls t c2)
                  _
                  (λ r3 e3 d3.
                    let c3 =
                      (push_hash_of db store octet cache from_protobuf base64 keys calls t c2).1 in
                    then_lem P
                      (add_message_id db store octet cache from_protobuf base64 keys calls t c3) _
                      (λ r4 e4 d4.
                        let c4 =
                          (add_message_id db store octet cache from_protobuf base64 keys calls t
                            c3).1 in
                        let k = add_addresses-Keeps t.involved_addresses c4 in
                        noted_lem t c c1 c2 r4 c1.public_keys_index.last_index differ
                          (update_lem keys.last_transaction_id t.id c e1)
                          (update_lem keys.last_address_index c1.public_keys_index.last_index c1 e2)
                          e4 k.state_eq k.ids_eq)
                      d3)
                  d2)
              d1)
          done

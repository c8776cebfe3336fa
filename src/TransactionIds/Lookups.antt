-- ===== src/TransactionIds/Lookups.antt =====
-- src/cache/HieroTransactionId.cpp: what is found after an id was added.
use gradido_node.Prelude.{
  ℕ, ◌<◌, ◌^◌, ◌≡◌, refl, ap, Bool, true, false, List, Option, none, some, Outcome, ok, throw,
  arith,
}
use gradido_node.Decimal.{to_string, stoull-to_string}
use gradido_node.ExpireCache.{ExpireCache}
use gradido_node.LevelDb
use gradido_node.LevelDb.{LevelDb, LevelDbWrapper, set_key_value}
use gradido_node.LevelDb.Laws.{IsLevelDb, set_key_value_lem}
use gradido_node.TransactionIds.{
  TransactionIds, get_cached, written, write_if, add_new, add, read_from_level_db, cached_or_read,
  get_transaction_nr, cached_or_there, is_there, has,
}

module _ {K C D : Type 0} (db : LevelDb D) (laws : IsLevelDb db) (cache : ExpireCache K ℕ C)
    (from_protobuf : List ℕ → Outcome K) (base64 : List ℕ → List ℕ) where
  -- The level db file has the number of an id.
  record HasStored (id : List ℕ) (nr : ℕ) (s : TransactionIds C D) : Type 0 where
    initialized_eq : s.initialized ≡ true
    open_eq : s.level_db_file.is_open ≡ true
    found : db.get (base64 id) s.level_db_file.folder ≡ some (to_string nr)

  written_lem :
      {b' : Bool} (id : List ℕ) (nr : ℕ) (s : TransactionIds C D) (r : Outcome (LevelDbWrapper D))
      → s.initialized ≡ true
      → set_key_value db (base64 id) (to_string nr) s.level_db_file ≡ r
      → (written db cache from_protobuf base64 s r).0 ≡ ok b'
      → HasStored id nr (written db cache from_protobuf base64 s r).1
  written_lem id nr s (throw e) ready put done = absurd (ground arith)
  written_lem id nr s (ok w) ready put done =
      let set = set_key_value_lem db laws (base64 id) (to_string nr) s.level_db_file w put in
      record { initialized_eq = ready; open_eq = set.open_eq; found = set.found }

  write_if_lem :
      {b' : Bool} (id : List ℕ) (nr : ℕ) (s : TransactionIds C D) (b : Bool)
      → b ≡ true
      → s.initialized ≡ true
      → (write_if db cache from_protobuf base64 b id nr s).0 ≡ ok b'
      → HasStored id nr (write_if db cache from_protobuf base64 b id nr s).1
  unfolding write_if
  write_if_lem id nr s false b ready done = absurd (ground arith)
  write_if_lem id nr s true b ready done = written_lem id nr s _ ready refl done

  add_new_lem :
      {b' : Bool} (k : K) (id : List ℕ) (nr : ℕ) (r : Option ℕ × TransactionIds C D)
      → r.1.initialized ≡ true
      → (add_new db cache from_protobuf base64 k id nr r).0 ≡ ok b'
      → HasStored id nr (add_new db cache from_protobuf base64 k id nr r).1
  unfolding add_new
  add_new_lem k id nr (some old, s) ready done = absurd (ground arith)
  add_new_lem k id nr (none, s) ready done = write_if_lem id nr _ s.initialized ready ready done

  add_lem :
      {b' : Bool} (k : K) (id : List ℕ) (nr : ℕ) (s : TransactionIds C D)
      → from_protobuf id ≡ ok k
      → s.initialized ≡ true
      → (add db cache from_protobuf base64 id nr s).0 ≡ ok b'
      → HasStored id nr (add db cache from_protobuf base64 id nr s).1
  unfolding add get_cached
  add_lem k id nr s parsed ready done = rw parsed (add_new_lem k id nr _ ready (rw parsed at done))

  read_lem :
      (k : K) (id : List ℕ) (nr : ℕ) (s : TransactionIds C D)
      → nr < 2 ^ 64
      → HasStored id nr s
      → (b : Bool) → b ≡ true
      → (read_from_level_db db cache from_protobuf base64 b id k s).0 ≡ ok nr
  unfolding read_from_level_db LevelDb.get_value_for_key
  read_lem k id nr s fits h false e = absurd (ground arith)
  read_lem k id nr s fits h true e = rw (h.open_eq, h.found, stoull-to_string nr fits) refl

  there_lem :
      (nr : ℕ) (r : Outcome ℕ × TransactionIds C D)
      → 0 < nr
      → r.0 ≡ ok nr
      → (is_there db cache from_protobuf base64 r).0 ≡ ok true
  there_lem nr (ok n, s) above e = ground arith
  there_lem nr (throw x, s) above e = absurd (ground arith)

  cached_or_read_lem :
      (k : K) (id : List ℕ) (nr : ℕ) (r : Option ℕ × TransactionIds C D)
      → nr < 2 ^ 64
      → ((v : ℕ) → r.0 ≡ some v → v ≡ nr)
      → HasStored id nr r.1
      → ((cached_or_read db cache from_protobuf base64 k id r).0 ≡ ok nr)
        × (0 < nr → (cached_or_there db cache from_protobuf base64 k id r).0 ≡ ok true)
  unfolding cached_or_read cached_or_there
  cached_or_read_lem k id nr (some v, s) fits only h = (ap ok (only v refl), λ above. refl)
  cached_or_read_lem k id nr (none, s) fits only h =
      let read = read_lem k id nr s fits h s.initialized h.initialized_eq in
      (read, λ above. there_lem nr _ above read)

  -- After an id was added with a positive number below 2 ^ 64 to a container that is in use, the id is there
  -- and is answered with its number, whatever the cache has dropped since, as long as it holds no other
  -- number for the id.
  pub add-get_transaction_nr :
      {b' : Bool} (k : K) (id : List ℕ) (nr : ℕ) (s : TransactionIds C D) (c : C)
      → from_protobuf id ≡ ok k
      → s.initialized ≡ true
      → 0 < nr
      → nr < 2 ^ 64
      → (add db cache from_protobuf base64 id nr s).0 ≡ ok b'
      → ((v : ℕ) → (cache.get k c).0 ≡ some v → v ≡ nr)
      → let s' = record (add db cache from_protobuf base64 id nr s).1 { transaction_nrs = c } in
        ((get_transaction_nr db cache from_protobuf base64 id s').0 ≡ ok nr)
        × ((has db cache from_protobuf base64 id s').0 ≡ ok true)
  unfolding get_transaction_nr has get_cached
  add-get_transaction_nr k id nr s c parsed ready above fits done only =
      let h = add_lem k id nr s parsed ready done in
      let s' : TransactionIds C D = record (add db cache from_protobuf base64 id nr s).1 {
        transaction_nrs = (cache.get k c).1;
      } in
      let h' : HasStored id nr s' = record {
        initialized_eq = h.initialized_eq;
        open_eq = h.open_eq;
        found = h.found;
      } in
      let answers = cached_or_read_lem k id nr ((cache.get k c).0, s') fits only h' in
      rw parsed (answers.0, answers.1 above)

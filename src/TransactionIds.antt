-- ===== src/TransactionIds.antt =====
-- src/cache/HieroTransactionId.{h,cpp}: the transaction numbers of hiero transaction ids, in a cache and
-- in a level db file. The reading of an id from protobuf, which throws where it is not one, and base 64
-- are parameters. What a call that throws has changed stays. src/cache/MessageId.{h,cpp} has the same
-- operations for the message ids of iota, with hexadecimal text in place of base 64.
pub mod Lookups
use gradido_node.Prelude.{
  ℕ, Bool, true, false, not, List, Option, none, some, ◌==◌, if◌then◌else◌, Outcome, ok, throw,
  ◌>>=◌, already_initialized, already_exist,
}
use gradido_node.Decimal.{to_string, stoull}
use gradido_node.ExpireCache.{ExpireCache}
use gradido_node.LevelDb
use gradido_node.LevelDb.{LevelDb, LevelDbWrapper}

pub record TransactionIds (C D : Type 0) : Type 0 where
  pub initialized : Bool
  pub level_db_file : LevelDbWrapper D
  pub transaction_nrs : C

-- A step that may throw, on a state that stays.
abbrev pub then_do {ℓ κ ν} :
    {A : Type ℓ} {B : Type κ} {S : Type ν} → Outcome A × S → (A → S → Outcome B × S) → Outcome B × S
then_do (ok a, s) next = next a s
then_do (throw e, s) next = (throw e, s)

module _ {K C D : Type 0} (db : LevelDb D) (cache : ExpireCache K ℕ C)
    (from_protobuf : List ℕ → Outcome K) (base64 : List ℕ → List ℕ) where
  abbrev inited : C → Bool × LevelDbWrapper D → Bool × TransactionIds C D
  inited c (is_ok, w) =
      (is_ok, record { initialized = is_ok; level_db_file = w; transaction_nrs = c })

  -- `init`
  unfoldable pub init : TransactionIds C D → Outcome (Bool × TransactionIds C D)
  init s =
      if s.initialized
      then throw already_initialized
      else ok (inited s.transaction_nrs (LevelDb.init db s.level_db_file))

  -- `exit`
  unfoldable pub exit : TransactionIds C D → TransactionIds C D
  exit s = record s { initialized = false; level_db_file = LevelDb.exit db s.level_db_file }

  -- `reset`
  unfoldable pub reset : TransactionIds C D → TransactionIds C D
  reset s = record s {
    level_db_file = LevelDb.reset db s.level_db_file;
    transaction_nrs = cache.clear s.transaction_nrs;
  }

  -- What the cache has for an id.
  unfoldable pub get_cached : K → TransactionIds C D → Option ℕ × TransactionIds C D
  get_cached k s =
      let (found, c) = cache.get k s.transaction_nrs in (found, record s { transaction_nrs = c })

  abbrev pub written :
      TransactionIds C D → Outcome (LevelDbWrapper D) → Outcome Bool × TransactionIds C D
  written s (ok w) = (ok true, record s { level_db_file = w })
  written s (throw e) = (throw e, s)

  -- The write to the level db file, which is left out where it is not in use.
  unfoldable pub write_if :
      Bool → List ℕ → ℕ → TransactionIds C D → Outcome Bool × TransactionIds C D
  write_if false id nr s = (ok true, s)
  write_if true id nr s =
      written s (LevelDb.set_key_value db (base64 id) (to_string nr) s.level_db_file)

  unfoldable pub add_new :
      K → List ℕ → ℕ → Option ℕ × TransactionIds C D → Outcome Bool × TransactionIds C D
  add_new k id nr (some old, s) = (throw already_exist, s)
  add_new k id nr (none, s) =
      write_if s.initialized id nr (record s { transaction_nrs = cache.add k nr s.transaction_nrs })

  -- `add`
  unfoldable pub add : List ℕ → ℕ → TransactionIds C D → Outcome Bool × TransactionIds C D
  add id nr s = then_do (from_protobuf id, s) λ k s. add_new k id nr (get_cached k s)

  abbrev pub cache_number : K → TransactionIds C D → Outcome ℕ → Outcome ℕ × TransactionIds C D
  cache_number k s (throw e) = (throw e, s)
  cache_number k s (ok nr) =
      (ok nr, record s { transaction_nrs = cache.add k nr s.transaction_nrs })

  abbrev pub read_value :
      K → TransactionIds C D → Outcome (Option (List ℕ)) → Outcome ℕ × TransactionIds C D
  read_value k s (throw e) = (throw e, s)
  read_value k s (ok none) = (ok 0, s)
  read_value k s (ok (some text)) = cache_number k s (stoull text)

  -- `readFromLevelDb`
  unfoldable pub read_from_level_db :
      Bool → List ℕ → K → TransactionIds C D → Outcome ℕ × TransactionIds C D
  read_from_level_db false id k s = (ok 0, s)
  read_from_level_db true id k s =
      read_value k s (LevelDb.get_value_for_key db (base64 id) s.level_db_file)

  unfoldable pub cached_or_read :
      K → List ℕ → Option ℕ × TransactionIds C D → Outcome ℕ × TransactionIds C D
  cached_or_read k id (some nr, s) = (ok nr, s)
  cached_or_read k id (none, s) = read_from_level_db s.initialized id k s

  -- `getTransactionNrForHieroTransactionId`
  unfoldable pub get_transaction_nr : List ℕ → TransactionIds C D → Outcome ℕ × TransactionIds C D
  get_transaction_nr id s =
      then_do (from_protobuf id, s) λ k s. cached_or_read k id (get_cached k s)

  abbrev pub is_there : Outcome ℕ × TransactionIds C D → Outcome Bool × TransactionIds C D
  is_there (ok nr, s) = (ok (not (nr == 0)), s)
  is_there (throw e, s) = (throw e, s)

  unfoldable pub cached_or_there :
      K → List ℕ → Option ℕ × TransactionIds C D → Outcome Bool × TransactionIds C D
  cached_or_there k id (some nr, s) = (ok true, s)
  cached_or_there k id (none, s) = is_there (read_from_level_db s.initialized id k s)

  -- `has`
  unfoldable pub has : List ℕ → TransactionIds C D → Outcome Bool × TransactionIds C D
  has id s = then_do (from_protobuf id, s) λ k s. cached_or_there k id (get_cached k s)

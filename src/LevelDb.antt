-- ===== src/LevelDb.antt =====
-- src/model/files/LevelDBWrapper.{h,cpp}: a level db file. The library leveldb and the folder on the disk
-- are a parameter with their operations. The mutex is held by every method that opens or closes.
pub mod Laws
use gradido_node.Prelude.{
  ℕ, zero, suc, Bool, true, false, List, [], ◌∷◌, Option, none, some, if◌then◌else◌, Outcome, ok,
  throw, null_pointer, level_db_status,
}

-- leveldb::Status, as far as the code asks it.
pub data Status : Type 0 where
  fine io_error other_error : Status

abbrev pub is_ok : Status → Bool
is_ok fine = true
is_ok io_error = false
is_ok other_error = false

-- `Open`, `Get`, `Put`, `Delete` and an iteration of leveldb, and the removal of its folder.
pub record LevelDb (D : Type 0) : Type 0 where
  pub open_folder : D → Status × D
  pub get : List ℕ → D → Option (List ℕ)
  pub put : List ℕ → List ℕ → D → Status × D
  pub delete : List ℕ → D → D
  pub pairs : D → List (List ℕ × List ℕ) × Status
  pub remove_all : D → D

pub record LevelDbWrapper (D : Type 0) : Type 0 where
  pub folder : D
  pub is_open : Bool

module _ {D : Type 0} (db : LevelDb D) where
  -- The loop of `init`, which tries again while the error is one of input or output.
  unfoldable pub open_again : ℕ → Status × D → Status × D
  open_again (suc max_try) (io_error, d) = open_again max_try (db.open_folder d)
  open_again (suc max_try) (fine, d) = (fine, d)
  open_again (suc max_try) (other_error, d) = (other_error, d)
  open_again zero result = result

  abbrev opened : Status × D → Bool × LevelDbWrapper D
  opened (status, d) = (is_ok status, record { folder = d; is_open = is_ok status })

  -- `init`
  unfoldable pub init : LevelDbWrapper D → Bool × LevelDbWrapper D
  init w = opened (open_again 100 (db.open_folder w.folder))

  -- `exit`
  unfoldable pub exit : LevelDbWrapper D → LevelDbWrapper D
  exit w = record w { is_open = false }

  -- `reset`
  unfoldable pub reset : LevelDbWrapper D → LevelDbWrapper D
  reset w = (init (record (exit w) { folder = db.remove_all w.folder })).1

  -- A file that is not open is a null pointer.
  abbrev when_open {ℓ} : {A : Type ℓ} → LevelDbWrapper D → Outcome A → Outcome A
  when_open w result = if w.is_open then result else throw null_pointer

  -- `getValueForKey`: false is none.
  unfoldable pub get_value_for_key : List ℕ → LevelDbWrapper D → Outcome (Option (List ℕ))
  get_value_for_key key w = when_open w (ok (db.get key w.folder))

  abbrev pub stored : LevelDbWrapper D → Status × D → Outcome (LevelDbWrapper D)
  stored w (fine, d) = ok (record w { folder = d })
  stored w (io_error, d) = throw level_db_status
  stored w (other_error, d) = throw level_db_status

  -- `setKeyValue`
  unfoldable pub set_key_value : List ℕ → List ℕ → LevelDbWrapper D → Outcome (LevelDbWrapper D)
  set_key_value key value w = when_open w (stored w (db.put key value w.folder))

  -- `removeKey`
  unfoldable pub remove_key : List ℕ → LevelDbWrapper D → Outcome (LevelDbWrapper D)
  remove_key key w = when_open w (ok (record w { folder = db.delete key w.folder }))

  module _ {ℓ} {A : Type ℓ} (callback : List ℕ → List ℕ → A → A) where
    unfoldable pub call_all : List (List ℕ × List ℕ) → A → A
    call_all [] a = a
    call_all ((key, value) ∷ rest) a = call_all rest (callback key value a)

    abbrev iterated : A → List (List ℕ × List ℕ) × Status → Outcome A
    iterated a (found, status) =
        if is_ok status then ok (call_all found a) else throw level_db_status

    -- `iterate`, where the callback changes a state of the caller.
    unfoldable pub iterate : A → LevelDbWrapper D → Outcome A
    iterate a w = when_open w (iterated a (db.pairs w.folder))

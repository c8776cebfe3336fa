-- ===== src/State.antt =====
-- src/cache/State.{h,cpp}: named values of a blockchain in a level db file. A key is its text; the
-- enumeration of the default keys stands for the text of its names.
pub mod Values
use gradido_node.Prelude.{
  ℕ, Bool, true, false, List, Option, none, some, if◌then◌else◌, ℤ, pos, Outcome, ok, throw, ◌>>=◌,
  already_initialized, not_initialized,
}
use gradido_node.Decimal.{to_string_int, atoi, strtoll}
use gradido_node.LevelDb.{LevelDb, LevelDbWrapper}
use gradido_node.LevelDb

pub record State (D : Type 0) : Type 0 where
  pub initialized : Bool
  pub state_file : LevelDbWrapper D

module _ {D : Type 0} (db : LevelDb D) where
  abbrev inited : Bool × LevelDbWrapper D → Bool × State D
  inited (is_ok, w) = (is_ok, record { initialized = is_ok; state_file = w })

  -- `init`
  unfoldable pub init : State D → Outcome (Bool × State D)
  init s =
      if s.initialized
      then throw already_initialized
      else ok (inited (LevelDb.init db s.state_file))

  -- `exit`
  unfoldable pub exit : State D → State D
  exit s = record { initialized = false; state_file = LevelDb.exit db s.state_file }

  -- `reset`
  unfoldable pub reset : State D → State D
  reset s = record s { state_file = LevelDb.reset db s.state_file }

  -- `updateState` of a text.
  unfoldable pub update_state : List ℕ → List ℕ → State D → Outcome (State D)
  update_state key value s =
      if s.initialized
      then (LevelDb.set_key_value db key value s.state_file >>= λ w.
          ok (record s { state_file = w }))
      else throw not_initialized

  -- `updateState` of a number of 32 or 64 bits, with or without a sign.
  unfoldable pub update_state_number : List ℕ → ℤ → State D → Outcome (State D)
  update_state_number key value s = update_state key (to_string_int value) s

  -- `removeState`
  unfoldable pub remove_state : List ℕ → State D → Outcome (State D)
  remove_state key s =
      if s.initialized
      then (LevelDb.remove_key db key s.state_file >>= λ w. ok (record s { state_file = w }))
      else ok s

  abbrev value_or {ℓ} : {A : Type ℓ} → (List ℕ → A) → A → Option (List ℕ) → Outcome A
  value_or read default none = ok default
  value_or read default (some text) = ok (read text)

  unfoldable pub read_with {ℓ} : {A : Type ℓ} → (List ℕ → A) → List ℕ → A → State D → Outcome A
  read_with read key default s =
      if s.initialized
      then (LevelDb.get_value_for_key db key s.state_file >>= value_or read default)
      else ok default

  -- `readState`, `readInt32State` and `readInt64State`
  unfoldable pub read_state : List ℕ → List ℕ → State D → Outcome (List ℕ)
  read_state key default s = read_with (λ text. text) key default s

  unfoldable pub read_int32_state : List ℕ → ℤ → State D → Outcome ℤ
  read_int32_state key default s = read_with atoi key default s

  unfoldable pub read_int64_state : List ℕ → ℤ → State D → Outcome ℤ
  read_int64_state key default s = read_with strtoll key default s

  -- `readAllStates`
  unfoldable pub read_all_states {ℓ} :
      {A : Type ℓ} → (List ℕ → List ℕ → A → A) → A → State D → Outcome A
  read_all_states callback a s = LevelDb.iterate db callback a s.state_file

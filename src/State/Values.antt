-- ===== src/State/Values.antt =====
-- src/cache/State.cpp: what is read after an update.
use gradido_node.Prelude.{
  ℕ, ◌≡◌, ◌≢◌, refl, ap, ◌∙◌, true, List, ok, arith, >>=-eq-ok, ℤ, IsInt32, not_initialized,
  guarded_lem, ok_injective,
}
use mathlib.Core.Path.{subst}
use gradido_node.Decimal.{to_string_int, atoi, strtoll, atoi-to_string_int, strtoll-to_string_int}
use gradido_node.LevelDb
use gradido_node.LevelDb.{LevelDb, LevelDbWrapper, get_value_for_key, set_key_value}
use gradido_node.LevelDb.Laws.{IsLevelDb, HasSet, set_key_value_lem}
use gradido_node.State.{
  State, update_state, update_state_number, read_with, read_state, read_int32_state,
  read_int64_state,
}

module _ {D : Type 0} (db : LevelDb D) (laws : IsLevelDb db) where
  -- What an update leaves of the state.
  pub record HasUpdated (k v : List ℕ) (s s' : State D) : Type 0 where
    initialized_before : s.initialized ≡ true
    pub initialized_eq : s'.initialized ≡ true
    file : HasSet db k v s.state_file s'.state_file

  pub update_state_lem :
      (k v : List ℕ) (s s' : State D) → update_state db k v s ≡ ok s' → HasUpdated k v s s'
  unfolding update_state
  update_state_lem k v s s' e =
      let (ready, done) = guarded_lem not_initialized s.initialized _ s' e in
      let (w, put, made) = >>=-eq-ok (set_key_value db k v s.state_file) _ done in
      let same : record s { state_file = w } ≡ s' =
        ok_injective (record s { state_file = w }) s' made in
      subst (HasUpdated k v s) same (record {
        initialized_before = ready;
        initialized_eq = ready;
        file = set_key_value_lem db laws k v s.state_file w put;
      })

  pub read_with_found {ℓ} :
      {A : Type ℓ} (read : List ℕ → A) (k v : List ℕ) (default : A) (s s' : State D)
      → HasUpdated k v s s'
      → read_with db read k default s' ≡ ok (read v)
  unfolding read_with LevelDb.get_value_for_key
  read_with_found read k v default s s' u = rw (u.initialized_eq, u.file.open_eq, u.file.found) refl

  pub read_with_other {ℓ} :
      {A : Type ℓ} (read : List ℕ → A) (k v j : List ℕ) (default : A) (s s' : State D)
      → HasUpdated k v s s'
      → k ≢ j
      → read_with db read j default s' ≡ read_with db read j default s
  unfolding read_with LevelDb.get_value_for_key
  read_with_other read k v j default s s' u other =
      rw
        (
          u.initialized_eq,
          u.initialized_before,
          u.file.open_eq,
          u.file.open_before,
          u.file.others j other,
        )
        refl

  -- After an update of a key with a number of 32 bits, the key reads as that number, also as one of 64
  -- bits, and every other key reads as before.
  pub update_state_number-read :
      (k j text : List ℕ) (z default : ℤ) (s s' : State D)
      → update_state_number db k z s ≡ ok s'
      → IsInt32 z
      → k ≢ j
      → (read_int32_state db k default s' ≡ ok z)
        × (read_int64_state db k default s' ≡ ok z)
        × (read_state db j text s' ≡ read_state db j text s)
  unfolding update_state_number read_int32_state read_int64_state read_state
  update_state_number-read k j text z default s s' e fits other =
      let u = update_state_lem k (to_string_int z) s s' e in
      (
        read_with_found atoi k (to_string_int z) default s s' u ∙ ap ok (atoi-to_string_int z fits),
        read_with_found strtoll k (to_string_int z) default s s' u
            ∙ ap ok (strtoll-to_string_int z (omega arith, omega arith)),
        read_with_other (λ text. text) k (to_string_int z) j text s s' u other,
      )

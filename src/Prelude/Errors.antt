-- ===== src/Prelude/Errors.antt =====
-- What a call that may throw comes to, with the exceptions of the modelled code.
use mathlib.Core.Path.{◌≡◌, refl}
use mathlib.Core.Bool.{Bool, true, false}
use gradido_node.Prelude.Tests.{if◌then◌else◌}

-- One constructor for each class of exception that the modelled code throws, and one for a loop of
-- the model that runs out of fuel.
pub data Exception : Type 0 where
  buffer_overflow unknown_enum runtime_error hash_mismatch : Exception
  invalid_data block_index_exception invalid_file_cursor : Exception
  dictionary_not_found dictionary_invalid_new_key : Exception
  already_exist transaction_not_found already_initialized not_initialized : Exception
  blockchain_order null_pointer community_not_found cannot_lock_mutex end_reaching
        invalid_read_block_size level_db_status invalid_argument out_of_range out_of_fuel :
      Exception

pub data Outcome {ℓ} (A : Type ℓ) : Type ℓ where
  ok : A → Outcome A
  throw : Exception → Outcome A

abbrev pub throw_if : Bool → Exception → Outcome (Unit {0})
throw_if false e = ok tt
throw_if true e = throw e

-- What follows a call that may throw.
module _ {ℓ κ} {A : Type ℓ} {B : Type κ} where
  infixl 5 ◌>>=◌
  abbrev pub ◌>>=◌ : Outcome A → (A → Outcome B) → Outcome B
  throw e >>= next = throw e
  ok result >>= next = next result

  -- A call with what follows it returns only if both do.
  pub >>=-eq-ok :
      (call : Outcome A) (next : A → Outcome B) {result : B}
      → call >>= next ≡ ok result
      → (between : A) × (call ≡ ok between) × (next between ≡ ok result)
  >>=-eq-ok (throw e) next eq = cc
  >>=-eq-ok (ok between) next eq = (between, refl, eq)

infixl 5 ◌>>◌
abbrev pub ◌>>◌ {ℓ} : {A : Type ℓ} → Outcome (Unit {0}) → Outcome A → Outcome A
first >> second = first >>= λ _. second

-- A result behind a guard.
pub guarded_lem {ℓ} :
    {A : Type ℓ} (e : Exception) (b : Bool) (r : Outcome A) (a : A)
    → (if b then r else throw e) ≡ ok a
    → (b ≡ true) × (r ≡ ok a)
guarded_lem e true r a h = (refl, h)
guarded_lem e false r a h = cc

pub ok_injective {ℓ} : {A : Type ℓ} (a b : A) → ok a ≡ ok b → a ≡ b
ok_injective a b e = cc

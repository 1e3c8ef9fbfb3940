-- ===== src/Outcome.antt =====
-- Errors as values: the error conditions of the vault, of the crypto package and of the database.
use vibe_coding_secret_manag.Prelude.{Bool, true, false, Option, none, some, ◌≡◌}

pub data Error : Type 0 where
  -- the vault's named errors
  locked already_exists not_found invalid_password : Error
  -- internal/securecrypto
  weak_memory weak_iterations weak_parallelism empty_password long_password short_salt : Error
  bad_key bad_nonce authentication_failed derivation_failed : Error
  -- the random source, the database and encoding/json
  no_random disk no_rows unique_violation foreign_key_violation bad_json : Error
  -- other errors of the vault
  changed_concurrently no_active_version missing_fields unsupported_schema : Error
  chain_inconsistent event_authentication_failed : Error
  -- the generator and the broker
  unknown_profile endless_generator not_initialized unknown_operation unsafe_name : Error
  no_executable bad_output_policy bad_secret_mapping : Error
  no_power process_failed connection_lost not_encodable already_listening : Error

pub data Result {ℓ} (V : Type ℓ) : Type ℓ where
  ok : V → Result V
  err : (reason : Error) → Result V

-- an Option whose absence is the error `e`
abbrev pub require {ℓ} : {A : Type ℓ} → Error → Option A → Result A
require e none = err e
require e (some a) = ok a

abbrev pub guard : Bool → Error → Result (Unit {0})
guard true reason = ok tt
guard false reason = err reason

-- What was required was there.
pub require-ok : {A : Type 0} (e : Error) (o : Option A) {a : A} → require e o ≡ ok a → o ≡ some a
require-ok e none h = absurd (cc)
require-ok e (some b) h = cc

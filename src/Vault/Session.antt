-- ===== src/Vault/Session.antt =====
-- The life of the vault's keys: Initialize, Open, Unlock, VerifyPassword, Lock.
pub mod Roundtrip
pub mod Reopened
use vibe_coding_secret_manag.Prelude.{
  [], not, Bool, true, false, Option, none, some, Bytes, codes, equal, if◌then◌else◌,
}
use vibe_coding_secret_manag.Outcome.{
  Error, bad_json, already_exists, unsupported_schema, invalid_password, authentication_failed,
  no_rows, Result, ok, err, require, guard,
}
use vibe_coding_secret_manag.Machine.Tables.{Db, WrapperRow}
use vibe_coding_secret_manag.Machine.Env.{Env, KdfParams, Json}
use vibe_coding_secret_manag.Machine.Exec.{
  KeySet, Machine, Exec, pure, raise, lift, query, statement, clock, transaction, file_call, ◌>>=◌,
  ◌>>◌,
}
use vibe_coding_secret_manag.SecureCrypto.{
  key_size, salt_size, random_bytes, validate_kdf_params, derive_kek, expand_key, seal, open_sealed,
}
use vibe_coding_secret_manag.Vault.Rows.{
  insert_metadata, insert_wrapper, select_wrapper, select_metadata,
}
use vibe_coding_secret_manag.Vault.Context.{wrapper_aad, random_id, stamp}

abbrev pub schema_version : Bytes
schema_version = codes "2"

-- store.vaultID = vaultID
unfoldable pub set_vault_id : Bytes → Exec (Unit {0})
set_vault_id id s = (ok tt, record s { vault_id = id })

unfoldable pub get_machine : Exec Machine
get_machine s = (ok s, s)

unfoldable pub set_keys : Option KeySet → Exec (Unit {0})
set_keys keys s = (ok tt, record s { keys = keys })

-- Lock, which zeroes the keys and forgets them
unfoldable pub lock : Exec (Unit {0})
unfolding set_keys
lock = set_keys none

-- IsUnlocked
unfoldable pub is_unlocked : Machine → Bool
is_unlocked s = elim s.keys [ none ↦ false | some keys ↦ true ]

-- What a path without a file holds.
abbrev pub no_tables : Db
no_tables = record { metadata = []; wrappers = []; objects = []; versions = []; audits = [] }

-- store.Close and os.Remove of the file, whose errors are dropped, where Initialize has failed
unfoldable pub close_removing : Bool → Result (Unit {0}) × Machine → Result (Unit {0}) × Machine
close_removing removes (ok a, s) = (ok a, s)
close_removing removes (err e, s) =
    (err e, record s { db = if removes then no_tables else s.db; keys = none })

-- Any error of Open on the wrapper is reported as a wrong password.
as_invalid_password : Result Bytes → Result Bytes
as_invalid_password (ok dek) = ok dek
as_invalid_password (err e) = err invalid_password

module _ (env : Env) where
  -- The deferred removal of the database file where Initialize fails.
  unfoldable pub removed_on_error : Exec (Unit {0}) → Exec (Unit {0})
  unfolding close_removing
  removed_on_error m s = close_removing env.removes (m s)

  -- The keys that installKeysLocked derives and installs.
  unfoldable pub install_keys : Bytes → Exec (Unit {0})
  install_keys dek = do
    metadata ← lift (expand_key env dek (codes "metadata"))
    lookup ← lift (expand_key env dek (codes "lookup"))
    audit ← lift (expand_key env dek (codes "audit"))
    set_keys (some (record { dek = dek; metadata = metadata; lookup = lookup; audit = audit }))

  -- unwrapDEK
  unfoldable pub unwrap_dek : Bytes → Exec Bytes
  unfolding as_invalid_password
  unwrap_dek password = do
    wrapper ← query env select_wrapper
    params ← lift (require bad_json (env.params_json.unmarshal wrapper.params))
    kek ← lift (derive_kek env password wrapper.salt params)
    wrap_key ← lift (expand_key env kek (codes "password-wrapper"))
    s ← get_machine
    lift (
        as_invalid_password
          (open_sealed env wrap_key wrapper.nonce wrapper.ciphertext (wrapper_aad s.vault_id)))

  -- Unlock, where the vault is locked
  unfoldable pub unlock_locked : Bytes → Exec (Unit {0})
  unfolding unwrap_dek install_keys
  unlock_locked password = do dek ← unwrap_dek password; install_keys dek

  -- Unlock
  unfoldable pub unlock : Bytes → Exec (Unit {0})
  unfolding unlock_locked
  unlock password s = if is_unlocked s then (ok tt, s) else unlock_locked password s

  -- VerifyPassword
  unfoldable pub verify_password : Bytes → Exec (Unit {0})
  unfolding unwrap_dek
  verify_password password = do unwrap_dek password; pure tt

  -- The rows that Initialize writes in one transaction.
  unfoldable pub insert_vault : Bytes → WrapperRow → Exec (Unit {0})
  insert_vault vault_id wrapper = do
    now ← clock env
    statement env (insert_metadata (codes "schema_version") schema_version)
    statement env (insert_metadata (codes "vault_id") vault_id)
    statement env (insert_metadata (codes "created_at") (stamp env now))
    later ← clock env
    statement env (insert_wrapper (record wrapper { created_at = stamp env later }))

  -- Initialize behind its checks. The database is a new one, with empty tables.
  unfoldable pub initialize_new : Bytes → KdfParams → Exec (Unit {0})
  initialize_new password params = do
    transaction env (pure tt)
    vault_id ← random_id env
    dek ← random_bytes env key_size
    salt ← random_bytes env salt_size
    kek ← lift (derive_kek env password salt params)
    wrap_key ← lift (expand_key env kek (codes "password-wrapper"))
    (nonce, ciphertext) ← seal env wrap_key dek (wrapper_aad vault_id)
    params_json ← lift (require bad_json (env.params_json.marshal params))
    transaction env (
        insert_vault vault_id (record {
          wrapper_id = codes "password-primary";
          params = params_json;
          salt = salt;
          nonce = nonce;
          ciphertext = ciphertext;
          is_active = true;
          created_at = codes "";
        }))
    file_call env
    set_vault_id vault_id
    install_keys dek

  -- Initialize, where `path_exists` says whether os.Stat found a file.
  unfoldable pub initialize : Bool → Bytes → KdfParams → Exec (Unit {0})
  initialize path_exists password params = do
    lift (validate_kdf_params params)
    lift (guard (not path_exists) already_exists)
    file_call env
    removed_on_error (initialize_new password params)

  -- Open, on a database that is there
  unfoldable pub open_vault : Exec (Unit {0})
  open_vault = do
    version ← query env (select_metadata (codes "schema_version"))
    lift (guard (equal version schema_version) unsupported_schema)
    vault_id ← query env (select_metadata (codes "vault_id"))
    set_vault_id vault_id

-- ===== src/Tests/Stale.antt =====
-- Runs of the theorems on operations that come in another order than what they have read.
use vibe_coding_secret_manag.Prelude.{refl, [], ◌∷◌, Option, some, none, Bytes, codes}
use vibe_coding_secret_manag.Outcome.{Result, ok, err}
use vibe_coding_secret_manag.Model.{SecretMetadata}
use vibe_coding_secret_manag.Machine.Tables.{pending, ObjectRow, VersionRow}
use vibe_coding_secret_manag.Machine.Env.{Env}
use vibe_coding_secret_manag.Machine.Exec.{Machine, Exec, transaction}
use vibe_coding_secret_manag.Vault.Secrets.{
  create_secret, rotate_secret, find_secret_metadata, prepare_rotate, promote_version,
  prepare_revoke, close_secret,
}
use vibe_coding_secret_manag.Vault.Secrets.Stale.{
  FailsCleanly, promote_version-twice, rotate_secret-close_secret,
}
use vibe_coding_secret_manag.Tests.Toy.{toy, toy_keys, fresh, sample_scope, sample_secret}
use vibe_coding_secret_manag.Vault.Audit.{event_id, event_time}
use vibe_coding_secret_manag.Vault.Rows.{
  activate, by_time, change_object, close_active, count_at, find_id, find_token, has_clash,
  has_event, has_version, insert_audit, insert_metadata, insert_object, insert_version,
  insert_wrapper, newest_hmac, newest_audit, place, select_last_hmac, select_object, update_object,
  update_object_at,
}
use vibe_coding_secret_manag.Prelude.{decimal, equal, text_ltb}
use vibe_coding_secret_manag.Machine.Exec.{
  clock, copy_keys, draw, file_call, lift, no_rows_as, pure, query, statement, unique_as, ◌>>=◌,
}
use vibe_coding_secret_manag.SecureCrypto.{
  derive_kek, expand_key, lookup_message, lookup_token, open_sealed, random_bytes, seal,
  validate_kdf_params,
}
use vibe_coding_secret_manag.Vault.Context.{
  hex, hex_digit, id_text, modify, object_aad, padded, random_id, secret_aad, secret_lookup, stamp,
  trimmed, wrapper_aad,
}
use vibe_coding_secret_manag.Vault.Session.{
  initialize_new, insert_vault, install_keys, removed_on_error, set_keys, set_vault_id,
}
use vibe_coding_secret_manag.Vault.Audit.{append_audit}
use vibe_coding_secret_manag.Vault.Secrets.{
  given_or_random_id, insert_secret, open_metadata, prepare_create,
}
use vibe_coding_secret_manag.Vault.Actions.{prepare_action}

-- Metadata whose version, time of change and state read back.
abbrev metadata_of : Bytes → Option SecretMetadata
metadata_of (version ∷ sec ∷ state) = some (record sample_secret {
  version = version;
  updated_at = record { sec = sec; nano = 0 };
  state = state;
})
metadata_of _ = none

abbrev exact : Env
exact = record toy {
  secret_json = record {
    marshal = λ m. some (m.version ∷ m.updated_at.sec ∷ m.state);
    unmarshal = metadata_of;
  };
}

abbrev created : Machine
created = (create_secret exact sample_secret (codes "one") fresh).1

abbrev Rotation : Type 0
Rotation = SecretMetadata × VersionRow × (ObjectRow → ObjectRow)

abbrev no_version : VersionRow
no_version = record {
  version_id = [];
  secret_id = [];
  version_number = 0;
  state = pending;
  value_nonce = [];
  value_ciphertext = [];
  created_at = [];
  activated_at = none;
  retired_at = none;
}

abbrev rotation_in : Result Rotation × Machine → Rotation
rotation_in (ok made, s) = made
rotation_in (err e, s) = (sample_secret, no_version, λ row. row)

abbrev rotates : Bytes → Exec Rotation
rotates value = prepare_rotate exact toy_keys sample_secret 1 (codes "alnum") 261 value

abbrev commits : Rotation → Exec (Unit {0})
commits made = transaction exact (promote_version exact toy_keys made.1 made.2 1)

abbrev early : Rotation
early = rotation_in (rotates (codes "two") created)

abbrev late : Rotation
late = rotation_in (rotates (codes "three") (rotates (codes "two") created).1)

abbrev both_prepared : Machine
both_prepared = (rotates (codes "three") (rotates (codes "two") created).1).1

abbrev late_committed : Machine
late_committed = (commits late both_prepared).1

promote_version-twice_example : FailsCleanly (commits early) late_committed
unfolding create_secret ◌>>=◌ copy_keys prepare_create given_or_random_id clock seal draw random_id
    transaction insert_secret unique_as statement insert_object has_clash insert_version has_version
    lift pure query decimal equal text_ltb lookup_message lookup_token random_bytes append_audit
    event_id event_time hex hex_digit id_text modify object_aad padded secret_aad secret_lookup
    stamp trimmed by_time find_id has_event insert_audit newest_hmac newest_audit place
    select_last_hmac find_secret_metadata open_metadata prepare_rotate promote_version
    prepare_revoke close_secret close_active activate update_object_at select_object find_token
    change_object update_object insert_metadata insert_wrapper count_at no_rows_as file_call
    open_sealed validate_kdf_params derive_kek expand_key removed_on_error initialize_new
    insert_vault set_vault_id install_keys set_keys wrapper_aad prepare_action
promote_version-twice_example =
    promote_version-twice exact toy_keys sample_secret 1 1 (codes "alnum") (codes "alnum") 261 261
      (codes "two") (codes "three") created (rotates (codes "two") created).1
      (rotates (codes "two") created).1 both_prepared both_prepared late_committed late_committed
      early late refl refl refl refl

abbrev Revocation : Type 0
Revocation = SecretMetadata × (ObjectRow → ObjectRow) × Bytes

abbrev revocation_in : Result Revocation × Machine → Revocation
revocation_in (ok made, s) = made
revocation_in (err e, s) = (sample_secret, λ row. row, [])

abbrev revokes : Exec Revocation
revokes = prepare_revoke exact toy_keys sample_secret 1

abbrev old : Revocation
old = revocation_in (revokes both_prepared)

abbrev revoked : Machine
revoked = (transaction exact (close_secret exact toy_keys old.0.id old.1 old.2) late_committed).1

rotate_secret-close_secret_example :
    FailsCleanly
      (rotate_secret exact sample_scope (codes "db") (codes "alnum") 261 (codes "four"))
      revoked
unfolding create_secret ◌>>=◌ copy_keys prepare_create given_or_random_id clock seal draw random_id
    transaction insert_secret unique_as statement insert_object has_clash insert_version has_version
    lift pure query decimal equal text_ltb lookup_message lookup_token random_bytes append_audit
    event_id event_time hex hex_digit id_text modify object_aad padded secret_aad secret_lookup
    stamp trimmed by_time find_id has_event insert_audit newest_hmac newest_audit place
    select_last_hmac find_secret_metadata open_metadata prepare_rotate promote_version
    prepare_revoke close_secret close_active activate update_object_at select_object find_token
    change_object update_object insert_metadata insert_wrapper count_at no_rows_as file_call
    open_sealed validate_kdf_params derive_kek expand_key removed_on_error initialize_new
    insert_vault set_vault_id install_keys set_keys wrapper_aad prepare_action
rotate_secret-close_secret_example =
    rotate_secret-close_secret exact toy_keys sample_secret 1 1 2 (codes "alnum") 261
      (codes "three") (rotates (codes "two") created).1 both_prepared both_prepared
      (revokes both_prepared).1 both_prepared late_committed late_committed revoked revoked
      (find_secret_metadata exact toy_keys sample_scope (codes "db") revoked).1 late old
      sample_scope (codes "db") (codes "alnum") 261 (codes "four") refl refl refl refl refl refl
      refl refl

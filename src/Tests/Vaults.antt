-- ===== src/Tests/Vaults.antt =====
-- Runs of the theorems on the vault's secrets and on sequences of its operations.
use vibe_coding_secret_manag.Vault.Audit.{event_id, event_time}
use vibe_coding_secret_manag.Vault.Rows.{
  activate, by_time, change_object, close_active, count_at, find_id, find_token, has_clash,
  has_event, has_version, insert_audit, insert_metadata, insert_object, insert_version,
  insert_wrapper, newest_hmac, newest_audit, place, select_last_hmac, select_object, update_object,
  update_object_at,
}
use vibe_coding_secret_manag.Prelude.{
  List, Option, [], ap, arith, codes, decimal, equal, none, refl, some, subst, sym, text_ltb, ◌∙◌,
  ◌∷◌, ◌≡◌,
}
use vibe_coding_secret_manag.Outcome.{not_found, no_active_version, Result, ok, err}
use vibe_coding_secret_manag.Model.{SecretMetadata}
use vibe_coding_secret_manag.Machine.Tables.{secret, ObjectRow}
use vibe_coding_secret_manag.Machine.Exec.{
  Machine, clock, copy_keys, draw, file_call, lift, no_rows_as, pure, query, statement, transaction,
  unique_as, ◌>>=◌,
}
use vibe_coding_secret_manag.SecureCrypto.{
  derive_kek, expand_key, lookup_message, lookup_token, open_sealed, random_bytes, seal,
  validate_kdf_params,
}
use vibe_coding_secret_manag.Vault.Context.{
  hex, hex_digit, id_text, modify, object_aad, padded, random_id, secret_aad, secret_lookup, stamp,
  trimmed, wrapper_aad,
}
use vibe_coding_secret_manag.Vault.Session.{
  initialize_new, insert_vault, install_keys, removed_on_error, set_keys, set_vault_id,
}
use vibe_coding_secret_manag.Vault.Audit.{append_audit}
use vibe_coding_secret_manag.Vault.Secrets.{
  close_secret, create_secret, find_secret_metadata, given_or_random_id, insert_secret,
  open_metadata, prepare_create, prepare_revoke, prepare_rotate, promote_version, resolve_one,
  revoke_secret, rotate_secret,
}
use vibe_coding_secret_manag.Vault.Secrets.Read.{NamesItself}
use vibe_coding_secret_manag.Vault.Secrets.Resolve.{
  create_secret-resolve_one, rotate_secret-resolve_one, revoke_secret-resolve_one,
}
use vibe_coding_secret_manag.Vault.Actions.{prepare_action}
use vibe_coding_secret_manag.Vault.Invariant.{IsWellFormed}
use vibe_coding_secret_manag.Vault.Reachable.{creates, rotates, start, next, Reaches-IsWellFormed}
use vibe_coding_secret_manag.Vault.Atomic.{VaultCall, rotate_call, run_call, run_call_fails}
use vibe_coding_secret_manag.Tests.Toy.{
  toy, toy-OpensSealed, toy-FullReads, toy_keys, fresh, no_rows_yet, sample_scope, sample_secret,
}

abbrev created : Machine
created = (create_secret toy sample_secret (codes "one") fresh).1

abbrev rotated : Machine
rotated = (rotate_secret toy sample_scope (codes "db") (codes "alnum") 261 (codes "two") created).1

abbrev closed : Machine
closed = (revoke_secret toy sample_scope (codes "db") created).1

abbrev rotated_secret : SecretMetadata
rotated_secret = record sample_secret {
  profile = codes "alnum";
  strength_bits = 261;
  version = 2;
  updated_at = record { sec = 2; nano = 0 };
}

no_rows_yet-IsWellFormed : IsWellFormed no_rows_yet
no_rows_yet-IsWellFormed = record { one_active = λ id. omega arith; referenced = λ id h. refl }

Reaches-IsWellFormed_example : IsWellFormed rotated.db
Reaches-IsWellFormed_example =
    Reaches-IsWellFormed toy
      (next (next start (creates sample_secret (codes "one") fresh))
        (rotates sample_scope (codes "db") (codes "alnum") 261 (codes "two") created))
      no_rows_yet-IsWellFormed

create_secret-resolve_one_example :
    (resolve_one toy toy_keys sample_scope (codes "db") created).0 ≡ ok (codes "one")
unfolding create_secret ◌>>=◌ copy_keys prepare_create given_or_random_id clock seal draw random_id
    transaction insert_secret unique_as statement insert_object has_clash insert_version has_version
    lift pure query decimal equal text_ltb lookup_message lookup_token random_bytes append_audit
    event_id event_time hex hex_digit id_text modify object_aad padded secret_aad secret_lookup
    stamp trimmed by_time find_id has_event insert_audit newest_hmac newest_audit place
    select_last_hmac find_secret_metadata open_metadata prepare_rotate promote_version
    prepare_revoke close_secret close_active activate update_object_at select_object find_token
    change_object update_object insert_metadata insert_wrapper count_at no_rows_as file_call
    open_sealed validate_kdf_params derive_kek expand_key removed_on_error initialize_new
    insert_vault set_vault_id install_keys set_keys wrapper_aad prepare_action
create_secret-resolve_one_example =
    create_secret-resolve_one toy toy-OpensSealed toy-FullReads (λ n. refl) sample_secret
      (codes "one") fresh created toy_keys sample_secret refl no_rows_yet-IsWellFormed refl

abbrev no_row : ObjectRow
no_row = record {
  object_id = [];
  object_type = secret;
  lookup_token = [];
  metadata_nonce = [];
  metadata_ciphertext = [];
  revision = 0;
  created_at = [];
  updated_at = [];
}

abbrev row_of : Option ObjectRow → ObjectRow
row_of none = no_row
row_of (some row) = row

abbrev first_row : List ObjectRow → ObjectRow
first_row [] = no_row
first_row (row ∷ rows) = row

created-NamesItself : NamesItself toy toy_keys sample_scope (codes "db") created.db
unfolding create_secret ◌>>=◌ copy_keys prepare_create given_or_random_id clock seal draw random_id
    transaction insert_secret unique_as statement insert_object has_clash insert_version has_version
    lift pure query decimal equal text_ltb lookup_message lookup_token random_bytes append_audit
    event_id event_time hex hex_digit id_text modify object_aad padded secret_aad secret_lookup
    stamp trimmed by_time find_id has_event insert_audit newest_hmac newest_audit place
    select_last_hmac find_secret_metadata open_metadata prepare_rotate promote_version
    prepare_revoke close_secret close_active activate update_object_at select_object find_token
    change_object update_object insert_metadata insert_wrapper count_at no_rows_as file_call
    open_sealed validate_kdf_params derive_kek expand_key removed_on_error initialize_new
    insert_vault set_vault_id install_keys set_keys wrapper_aad prepare_action
created-NamesItself row meta finds opens =
    let same : first_row created.db.objects ≡ row = ap row_of finds in
    let read : ok sample_secret ≡ ok meta =
      subst (λ r. open_metadata toy toy_keys r ≡ ok meta) (sym same) opens in
    let meta_id : codes "s1" ≡ meta.id =
      ap (λ (r : Result SecretMetadata). elim r [ ok m ↦ m.id | err e ↦ [] ]) read in
    let row_id : codes "s1" ≡ row.object_id = ap (λ (r : ObjectRow). r.object_id) same in
    sym meta_id ∙ row_id

rotate_secret-resolve_one_example :
    (resolve_one toy toy_keys sample_scope (codes "db") rotated).0 ≡ ok (codes "two")
unfolding create_secret rotate_secret ◌>>=◌ copy_keys prepare_create given_or_random_id clock seal
    draw random_id transaction insert_secret unique_as statement insert_object has_clash
    insert_version has_version lift pure query decimal equal text_ltb lookup_message lookup_token
    random_bytes append_audit event_id event_time hex hex_digit id_text modify object_aad padded
    secret_aad secret_lookup stamp trimmed by_time find_id has_event insert_audit newest_hmac
    newest_audit place select_last_hmac find_secret_metadata open_metadata prepare_rotate
    promote_version prepare_revoke close_secret close_active activate update_object_at select_object
    find_token change_object update_object insert_metadata insert_wrapper count_at no_rows_as
    file_call open_sealed validate_kdf_params derive_kek expand_key removed_on_error initialize_new
    insert_vault set_vault_id install_keys set_keys wrapper_aad prepare_action
rotate_secret-resolve_one_example =
    rotate_secret-resolve_one toy toy-OpensSealed toy-FullReads (λ n. refl) sample_scope
      (codes "db") (codes "alnum") 261 (codes "two") created rotated toy_keys rotated_secret refl
      created-NamesItself refl

revoke_secret-resolve_one_example :
    (resolve_one toy toy_keys sample_scope (codes "db") closed).0 ≡ err no_active_version
unfolding create_secret revoke_secret ◌>>=◌ copy_keys prepare_create given_or_random_id clock seal
    draw random_id transaction insert_secret unique_as statement insert_object has_clash
    insert_version has_version lift pure query decimal equal text_ltb lookup_message lookup_token
    random_bytes append_audit event_id event_time hex hex_digit id_text modify object_aad padded
    secret_aad secret_lookup stamp trimmed by_time find_id has_event insert_audit newest_hmac
    newest_audit place select_last_hmac find_secret_metadata open_metadata prepare_rotate
    promote_version prepare_revoke close_secret close_active activate update_object_at select_object
    find_token change_object update_object insert_metadata insert_wrapper count_at no_rows_as
    file_call open_sealed validate_kdf_params derive_kek expand_key removed_on_error initialize_new
    insert_vault set_vault_id install_keys set_keys wrapper_aad prepare_action
revoke_secret-resolve_one_example =
    revoke_secret-resolve_one toy (λ n. refl) sample_scope (codes "db") created closed toy_keys
      (record sample_secret { state = codes "revoked"; updated_at = record { sec = 2; nano = 0 } })
      refl created-NamesItself refl

abbrev failing : VaultCall
failing = rotate_call sample_scope (codes "no") (codes "alnum") 261 (codes "two")

run_call_fails_example : (run_call toy failing created).1.db ≡ created.db
unfolding run_call create_secret rotate_secret ◌>>=◌ copy_keys prepare_create given_or_random_id
    clock seal draw random_id transaction insert_secret unique_as statement insert_object has_clash
    insert_version has_version lift pure query decimal equal text_ltb lookup_message lookup_token
    random_bytes append_audit event_id event_time hex hex_digit id_text modify object_aad padded
    secret_aad secret_lookup stamp trimmed by_time find_id has_event insert_audit newest_hmac
    newest_audit place select_last_hmac find_secret_metadata open_metadata prepare_rotate
    promote_version prepare_revoke close_secret close_active activate update_object_at select_object
    find_token change_object update_object insert_metadata insert_wrapper count_at no_rows_as
    file_call open_sealed validate_kdf_params derive_kek expand_key removed_on_error initialize_new
    insert_vault set_vault_id install_keys set_keys wrapper_aad prepare_action
run_call_fails_example =
    run_call_fails toy failing created (run_call toy failing created).1 not_found refl

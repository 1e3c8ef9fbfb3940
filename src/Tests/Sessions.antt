-- ===== src/Tests/Sessions.antt =====
-- Runs of the theorems on the vault's session, audit log, and associated data.
use vibe_coding_secret_manag.Vault.Audit.{event_id, event_time}
use vibe_coding_secret_manag.Vault.Rows.{
  activate, by_time, change_object, close_active, count_at, find_id, find_token, has_clash,
  has_event, has_version, insert_audit, insert_metadata, insert_object, insert_version,
  insert_wrapper, newest_hmac, newest_audit, place, select_last_hmac, select_object, update_object,
  update_object_at,
}
use vibe_coding_secret_manag.Prelude.{
  List, Bytes, ap, subst, [], codes, decimal, equal, false, none, refl, some, text_ltb, ◌++◌, ◌↔◌,
  ◌∷◌, ◌≡◌,
}
use vibe_coding_secret_manag.Machine.Tables.{AuditRow}
use vibe_coding_secret_manag.Vault.Audit.Order.{NoneLater}
use vibe_coding_secret_manag.Outcome.{ok}
use vibe_coding_secret_manag.Model.{AuditEvent}
use vibe_coding_secret_manag.Machine.Exec.{
  KeySet, Machine, clock, copy_keys, draw, file_call, lift, no_rows_as, pure, query, statement,
  transaction, unique_as, ◌>>=◌,
}
use vibe_coding_secret_manag.SecureCrypto.{
  default_kdf_params, derive_kek, expand_key, lookup_message, lookup_token, open_sealed,
  random_bytes, seal, validate_kdf_params,
}
use vibe_coding_secret_manag.Vault.Context.{
  hex, hex_digit, id_text, modify, object_aad, padded, random_id, secret_aad, secret_lookup, stamp,
  trimmed, wrapper_aad,
}
use vibe_coding_secret_manag.Vault.Session.{
  initialize, initialize_new, insert_vault, install_keys, removed_on_error, set_keys, set_vault_id,
  unlock, open_vault,
}
use vibe_coding_secret_manag.Vault.Session.Reopened.{initialize-open_vault}
use vibe_coding_secret_manag.Vault.Audit.{
  append_audit, check_rows, list_audit, newest_first, record_audit,
}
use vibe_coding_secret_manag.Vault.Audit.Chain.{Chained, check_rows_iff}
use vibe_coding_secret_manag.Vault.Audit.Log.{list_audit-record_audit}
use vibe_coding_secret_manag.Vault.Secrets.{
  close_secret, find_secret_metadata, given_or_random_id, insert_secret, open_metadata,
  prepare_create, prepare_revoke, prepare_rotate, promote_version,
}
use vibe_coding_secret_manag.Vault.Actions.{prepare_action}
use vibe_coding_secret_manag.Tests.Toy.{
  toy, toy-OpensSealed, toy-FullReads, toy-events, toy-params, toy_keys, fresh,
}

abbrev pub locked_machine : Machine
locked_machine = record fresh { keys = none }

abbrev initialized : Machine
initialized = (initialize toy false (codes "password") default_kdf_params locked_machine).1

initialize-open_vault_example :
    (k : KeySet) × (u v : Machine) × (initialized.keys ≡ some k)
    × (open_vault toy (record initialized { vault_id = []; keys = none }) ≡ (ok tt, u))
    × (u.keys ≡ none)
    × (unlock toy (codes "password") u ≡ (ok tt, v))
    × (v.keys ≡ some k)
    × (v.db ≡ initialized.db)
    × (v.vault_id ≡ initialized.vault_id)
unfolding initialize ◌>>=◌ copy_keys prepare_create given_or_random_id clock seal draw random_id
    transaction insert_secret unique_as statement insert_object has_clash insert_version has_version
    lift pure query decimal equal text_ltb lookup_message lookup_token random_bytes append_audit
    event_id event_time hex hex_digit id_text modify object_aad padded secret_aad secret_lookup
    stamp trimmed by_time find_id has_event insert_audit newest_hmac newest_audit place
    select_last_hmac find_secret_metadata open_metadata prepare_rotate promote_version
    prepare_revoke close_secret close_active activate update_object_at select_object find_token
    change_object update_object insert_metadata insert_wrapper count_at no_rows_as file_call
    open_sealed validate_kdf_params derive_kek expand_key removed_on_error initialize_new
    insert_vault set_vault_id install_keys set_keys wrapper_aad prepare_action
initialize-open_vault_example =
    initialize-open_vault toy toy-OpensSealed toy-FullReads toy-params (λ n. refl)
      (codes "password") default_kdf_params false locked_machine initialized refl refl refl

abbrev event : AuditEvent
event = record {
  id = codes "e1";
  timestamp = some (record { sec = 5; nano = 0 });
  actor = codes "user";
  operation = codes "unlock";
  object_id = [];
  outcome = codes "success";
  detail = [];
}

abbrev logged : Machine
logged = (record_audit toy event fresh).1

-- A second event, one second behind the first.
abbrev next_event : AuditEvent
next_event = record event { id = codes "e2"; timestamp = some (record { sec = 6; nano = 0 }) }

abbrev logged_twice : Machine
logged_twice = (record_audit toy next_event logged).1

abbrev second_stamp : List AuditRow → Bytes
second_stamp (first ∷ second ∷ rest) = second.created_at
second_stamp _ = []

-- The row of the second event is not earlier than that of the first.
next_row :
    (row : AuditRow)
    → logged_twice.db.audits ≡ logged.db.audits ++ row ∷ []
    → NoneLater row.created_at logged.db.audits
unfolding record_audit ◌>>=◌ copy_keys prepare_create given_or_random_id clock seal draw random_id
    transaction insert_secret unique_as statement insert_object has_clash insert_version has_version
    lift pure query decimal equal text_ltb lookup_message lookup_token random_bytes append_audit
    event_id event_time hex hex_digit id_text modify object_aad padded secret_aad secret_lookup
    stamp trimmed by_time find_id has_event insert_audit newest_hmac newest_audit place
    select_last_hmac find_secret_metadata open_metadata prepare_rotate promote_version
    prepare_revoke close_secret close_active activate update_object_at select_object find_token
    change_object update_object insert_metadata insert_wrapper count_at no_rows_as file_call
    open_sealed validate_kdf_params derive_kek expand_key removed_on_error initialize_new
    insert_vault set_vault_id install_keys set_keys wrapper_aad prepare_action
next_row row e = subst (λ c. NoneLater c logged.db.audits) (ap second_stamp e) (refl, tt)

list_audit-record_audit_example :
    (recorded : AuditEvent) × (recorded
      ≡ record next_event { id = recorded.id; timestamp = recorded.timestamp })
    × ((list_audit toy 10 logged_twice).0 ≡ ok (newest_first 10 (event ∷ recorded ∷ [])))
unfolding record_audit ◌>>=◌ copy_keys prepare_create given_or_random_id clock seal draw random_id
    transaction insert_secret unique_as statement insert_object has_clash insert_version has_version
    lift pure query decimal equal text_ltb lookup_message lookup_token random_bytes append_audit
    event_id event_time hex hex_digit id_text modify object_aad padded secret_aad secret_lookup
    stamp trimmed by_time find_id has_event insert_audit newest_hmac newest_audit place
    select_last_hmac find_secret_metadata open_metadata prepare_rotate promote_version
    prepare_revoke close_secret close_active activate update_object_at select_object find_token
    change_object update_object insert_metadata insert_wrapper count_at no_rows_as file_call
    open_sealed validate_kdf_params derive_kek expand_key removed_on_error initialize_new
    insert_vault set_vault_id install_keys set_keys wrapper_aad prepare_action
list_audit-record_audit_example =
    list_audit-record_audit toy toy-events toy_keys next_event logged logged_twice 10 (event ∷ [])
      refl (refl, refl, refl, tt) (tt, tt) (λ row e. next_row row e) refl refl

check_rows_iff_example :
    (check_rows toy (codes "a") [] logged.db.audits ≡ ok (event ∷ []))
    ↔ Chained toy (codes "a") [] logged.db.audits (event ∷ [])
check_rows_iff_example = check_rows_iff toy (codes "a") logged.db.audits [] (event ∷ [])

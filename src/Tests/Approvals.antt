-- ===== src/Tests/Approvals.antt =====
-- A run of the theorem on a stored action.
use vibe_coding_secret_manag.Vault.Audit.{event_id, event_time}
use vibe_coding_secret_manag.Vault.Rows.{
  activate, by_time, change_object, close_active, count_at, find_id, find_token, has_clash,
  has_event, has_version, insert_audit, insert_metadata, insert_object, insert_version,
  insert_wrapper, newest_hmac, newest_audit, place, select_last_hmac, select_object, update_object,
  update_object_at,
}
use vibe_coding_secret_manag.Prelude.{decimal, equal, refl, some, text_ltb, ◌≡◌}
use vibe_coding_secret_manag.Outcome.{Result, ok, err}
use vibe_coding_secret_manag.Model.{Action}
use vibe_coding_secret_manag.Machine.Exec.{
  Machine, clock, copy_keys, draw, file_call, lift, no_rows_as, pure, query, statement, transaction,
  unique_as, ◌>>=◌,
}
use vibe_coding_secret_manag.SecureCrypto.{
  derive_kek, expand_key, lookup_message, lookup_token, open_sealed, random_bytes, seal,
  validate_kdf_params,
}
use vibe_coding_secret_manag.Vault.Context.{
  hex, hex_digit, id_text, modify, object_aad, padded, random_id, secret_aad, secret_lookup, stamp,
  trimmed, wrapper_aad,
}
use vibe_coding_secret_manag.Vault.Session.{
  initialize_new, insert_vault, install_keys, removed_on_error, set_keys, set_vault_id,
}
use vibe_coding_secret_manag.Vault.Audit.{append_audit}
use vibe_coding_secret_manag.Vault.Secrets.{
  close_secret, find_secret_metadata, given_or_random_id, insert_secret, open_metadata,
  prepare_create, prepare_revoke, prepare_rotate, promote_version,
}
use vibe_coding_secret_manag.Vault.Actions.{prepare_action, put_action}
use vibe_coding_secret_manag.Tests.Toy.{
  toy, toy-OpensSealed, toy-FullReads, toy_keys, fresh, sample_action,
}
use vibe_coding_secret_manag.Machine.Env.{Env}
use vibe_coding_secret_manag.Outcome.{Result}
use vibe_coding_secret_manag.Vault.Actions.{
  get_action, action_scope, identify, or_no_id, write_action,
}
use vibe_coding_secret_manag.Vault.Actions.Stored.{get_action-put_action}

abbrev value_or : Action → Result Action → Action
value_or a (ok b) = b
value_or a (err e) = a

-- What PutAction reports for a new action.
abbrev stored : Action
stored = value_or sample_action (put_action toy sample_action fresh).0

-- JSON that reads that action.
abbrev reading : Env
reading = record toy {
  action_json = record { marshal = λ a. some a.name; unmarshal = λ s. some stored };
}

abbrev after : Machine
after = (put_action reading sample_action fresh).1

get_action-put_action_example :
    (get_action reading (action_scope sample_action) sample_action.name after).0 ≡ ok stored
unfolding put_action ◌>>=◌ copy_keys prepare_create given_or_random_id clock seal draw random_id
    transaction insert_secret unique_as statement insert_object has_clash insert_version has_version
    lift pure query decimal equal text_ltb lookup_message lookup_token random_bytes append_audit
    event_id event_time hex hex_digit id_text modify object_aad padded secret_aad secret_lookup
    stamp trimmed by_time find_id has_event insert_audit newest_hmac newest_audit place
    select_last_hmac find_secret_metadata open_metadata prepare_rotate promote_version
    prepare_revoke close_secret close_active activate update_object_at select_object find_token
    change_object update_object insert_metadata insert_wrapper count_at no_rows_as file_call
    open_sealed validate_kdf_params derive_kek expand_key removed_on_error initialize_new
    insert_vault set_vault_id install_keys set_keys wrapper_aad prepare_action identify or_no_id
    write_action
get_action-put_action_example =
    get_action-put_action reading (record { open_seal = toy-OpensSealed.open_seal })
      (record { sized = toy-FullReads.sized }) (λ n. refl) sample_action stored fresh after toy_keys
      refl (λ bytes h. refl) refl

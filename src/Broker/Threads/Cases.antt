-- ===== src/Broker/Threads/Cases.antt =====
-- Handle of internal/broker/broker.go as a thread: the cases in their atomic steps.
use vibe_coding_secret_manag.Prelude.{
  not, ◌+◌, ◌||◌, ◌==◌, length, List, [], ◌∷◌, ◌++◌, Option, none, some, Bytes, at_least_zero,
}
use vibe_coding_secret_manag.Outcome.{
  bad_json, not_found, no_active_version, missing_fields, unknown_operation, ok, require, guard,
}
use vibe_coding_secret_manag.Model.{Scope, SecretMetadata, Action}
use vibe_coding_secret_manag.Machine.Tables.{secret, action}
use vibe_coding_secret_manag.Machine.Exec.{
  KeySet, lift, clock, query, transaction, copy_keys, no_rows_as,
}
use vibe_coding_secret_manag.SecureCrypto.{seal, open_sealed}
use vibe_coding_secret_manag.Vault.Rows.{
  select_object, select_active, select_objects, select_audits, find_token,
}
use vibe_coding_secret_manag.Vault.Context.{
  secret_aad, object_aad, secret_lookup, action_lookup, stamp,
}
use vibe_coding_secret_manag.Vault.Session.{unlock, lock, verify_password}
use vibe_coding_secret_manag.Vault.Secrets.{
  prepare_create, insert_secret, find_secret_metadata, prepare_rotate, promote_version,
  prepare_revoke, close_secret, metadata_in, sort_by,
}
use vibe_coding_secret_manag.Vault.Actions.{
  action_scope, identify, write_action, get_action_by_id, actions_in,
}
use vibe_coding_secret_manag.Vault.Audit.{check_rows, newest_first}
use vibe_coding_secret_manag.Api.{
  metadata_is, metadata_list, action_is, action_list, event_list, Request,
}
use vibe_coding_secret_manag.Broker.{
  Host, Service, get_store, hold_power, release_power, new_value, fail,
}
use vibe_coding_secret_manag.Broker.Names.{validate_secret_request, validate_action}
use vibe_coding_secret_manag.Broker.Handle.{
  Operation, status_op, unlock_op, lock_op, create_op, rotate_op, revoke_op, list_op, configure_op,
  actions_op, run_op, audit_op, operation_of, asked_metadata, with_policy,
}
use vibe_coding_secret_manag.Broker.Threads.{
  Thread, ended, goes, act, within, answers, status_thread, resolved_thread, Event, arrives, turn,
  step_at,
}

module _ (host : Host) where
  unfoldable pub unlock_thread : Bytes → Thread
  unlock_thread encoded =
      act host (lift (require bad_json (host.unlock_payload encoded))) λ payload.
        act host (get_store host) λ a.
          within host (unlock host.env payload.password)
            λ b. act host (hold_power host) λ c. status_thread host

  unfoldable pub lock_thread : Thread
  lock_thread =
      act host (get_store host)
        λ a. within host lock λ b. act host release_power λ c. status_thread host

  unfoldable pub create_thread : Bytes → Thread
  create_thread encoded =
      act host (lift (require bad_json (host.secret_payload encoded))) λ payload.
        act host (lift (validate_secret_request payload)) λ a.
          act host (new_value host payload.profile) λ made. act host (get_store host) λ b.
            within host copy_keys λ keys.
              within host (prepare_create host.env keys (asked_metadata payload made.1) made.0)
                λ new.
                  within host (transaction host.env (insert_secret host.env keys new.1 new.2))
                    λ c. answers host (metadata_is new.0)

  unfoldable pub rotate_thread : Bytes → Thread
  rotate_thread encoded =
      act host (lift (require bad_json (host.secret_payload encoded))) λ payload.
        act host (lift (validate_secret_request payload)) λ a.
          act host (new_value host payload.profile) λ made. act host (get_store host) λ b.
            within host copy_keys λ keys.
              within host (find_secret_metadata host.env keys payload.scope payload.name) λ found.
                within host
                  (prepare_rotate host.env keys found.0 found.1 made.1.name made.1.strength_bits
                    made.0)
                  λ new.
                    within host
                      (transaction host.env (promote_version host.env keys new.1 new.2 found.1))
                      λ c. answers host (metadata_is new.0)

  unfoldable pub revoke_thread : Bytes → Thread
  revoke_thread encoded =
      act host (lift (require bad_json (host.secret_payload encoded))) λ payload.
        act host (get_store host) λ a. within host copy_keys λ keys.
          within host (find_secret_metadata host.env keys payload.scope payload.name) λ found.
            within host (prepare_revoke host.env keys found.0 found.1) λ new.
              within host (transaction host.env (close_secret host.env keys new.0.id new.1 new.2))
                λ b. answers host (metadata_is new.0)

  unfoldable pub list_thread : Bytes → Thread
  list_thread encoded = act host (lift (require bad_json (host.scope_payload encoded))) λ payload.
      act host (get_store host) λ a. within host copy_keys λ keys.
        within host (query host.env (select_objects secret)) λ rows.
          within host (lift (metadata_in host.env keys payload.scope rows))
            λ values. answers host (metadata_list (sort_by (λ (m : SecretMetadata). m.name) values))

  -- PutAction from the query for the action that is there on
  unfoldable pub put_thread : KeySet → Action → Thread
  put_thread keys given = within host (clock host.env) λ now.
      within host
        (query host.env λ db. ok (
          find_token action (action_lookup host.env keys.lookup (action_scope given) given.name)
            db.objects))
        λ existing. within host (identify host.env keys now existing) λ known.
          let full = record given { id = known.0; created_at = known.1; updated_at = now } in
          within host (lift (require bad_json (host.env.action_json.marshal full))) λ encoded.
            within host
              (seal host.env keys.metadata encoded (object_aad action known.0 (known.2 + 1)))
              λ box.
                within host
                  (transaction host.env (
                    write_action host.env keys known.2 (record {
                      object_id = known.0;
                      object_type = action;
                      lookup_token =
                          action_lookup host.env keys.lookup (action_scope given) given.name;
                      metadata_nonce = box.0;
                      metadata_ciphertext = box.1;
                      revision = known.2 + 1;
                      created_at = stamp host.env now;
                      updated_at = stamp host.env now;
                    })))
                  λ c. answers host (action_is full)

  unfoldable pub configure_thread : Bytes → Thread
  configure_thread encoded =
      act host (lift (require bad_json (host.configure_payload encoded))) λ payload.
        let given = with_policy payload.action in
        act host (lift (validate_action given)) λ a. act host (get_store host) λ b.
          within host (verify_password host.env payload.master_password) λ c.
            within host copy_keys λ keys.
              within host
                (lift (
                  guard
                    (not (
                      length given.project == 0
                      || length given.environment == 0
                      || length given.name == 0
                      || length given.executable == 0))
                    missing_fields))
                λ d. put_thread keys given

  unfoldable pub actions_thread : Bytes → Thread
  actions_thread encoded =
      act host (lift (require bad_json (host.scope_payload encoded))) λ payload.
        act host (get_store host) λ a. within host copy_keys λ keys.
          within host (query host.env (select_objects action)) λ rows.
            within host (lift (actions_in host.env keys payload.scope rows))
              λ actions. answers host (action_list (sort_by (λ (a : Action). a.name) actions))

  unfoldable pub events_thread : Bytes → Thread
  events_thread encoded = act host (lift (require bad_json (host.audit_payload encoded))) λ payload.
      act host (get_store host) λ a. within host copy_keys λ keys.
        within host (query host.env select_audits) λ rows.
          within host (lift (check_rows host.env keys.audit [] rows))
            λ events. answers host (event_list (newest_first (at_least_zero payload.limit) events))

  -- ResolveSecrets behind its keys: two queries for each secret.
  unfoldable pub resolve_thread :
      KeySet → Scope → List (Bytes × Bytes) → (List (Bytes × Bytes) → Thread) → Thread
  resolve_thread keys scope [] rest = rest []
  resolve_thread keys scope ((env_name, name) ∷ mappings) rest =
      within host
        (no_rows_as not_found
          (query host.env (select_object secret (secret_lookup host.env keys.lookup scope name))))
        λ object.
          within host
            (no_rows_as no_active_version (query host.env (select_active object.object_id)))
            λ version.
              within host
                (lift (
                  open_sealed host.env keys.dek version.value_nonce version.value_ciphertext
                    (secret_aad object.object_id version.version_number)))
                λ value.
                  resolve_thread keys scope mappings λ values. rest ((env_name, value) ∷ values)

  unfoldable pub run_thread : Bytes → Thread
  run_thread encoded = act host (lift (require bad_json (host.action_payload encoded))) λ payload.
      act host (get_store host) λ a. within host copy_keys λ keys.
        within host
          (no_rows_as not_found (
            query host.env (
              select_object action
                (action_lookup host.env keys.lookup payload.scope payload.name))))
          λ row. within host (get_action_by_id host.env keys row.object_id row.revision) λ found.
            within host copy_keys λ held.
              resolve_thread held payload.scope found.secrets
                λ values. resolved_thread host found values

  unfoldable pub operation_thread : Operation → Bytes → Thread
  operation_thread status_op encoded = status_thread host
  operation_thread unlock_op encoded = unlock_thread encoded
  operation_thread lock_op encoded = lock_thread
  operation_thread create_op encoded = create_thread encoded
  operation_thread rotate_op encoded = rotate_thread encoded
  operation_thread revoke_op encoded = revoke_thread encoded
  operation_thread list_op encoded = list_thread encoded
  operation_thread configure_op encoded = configure_thread encoded
  operation_thread actions_op encoded = actions_thread encoded
  operation_thread run_op encoded = run_thread encoded
  operation_thread audit_op encoded = events_thread encoded

  unfoldable pub dispatch_thread : Option Operation → Bytes → Thread
  dispatch_thread none encoded = goes (fail host unknown_operation) (λ s. ended)
  dispatch_thread (some operation) encoded = operation_thread operation encoded

  -- Handle
  unfoldable pub request_thread : Request → Thread
  request_thread request = dispatch_thread (operation_of request.operation) request.payload

  -- What an event does to the threads and the broker. A new thread comes behind the others.
  unfoldable pub occurs : Event → List Thread × Service → List Thread × Service
  occurs (arrives request) (threads, s) = (threads ++ request_thread request ∷ [], s)
  occurs (turn n) (threads, s) = step_at n threads s

  unfoldable pub all_occur : List Event → List Thread × Service → List Thread × Service
  all_occur [] now = now
  all_occur (event ∷ events) now = all_occur events (occurs event now)

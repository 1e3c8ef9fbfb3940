-- ===== src/Broker/Handle.antt =====
-- Handle of internal/broker/broker.go: one request, dispatched on its operation.
use vibe_coding_secret_manag.Prelude.{
  [], Option, none, some, Bytes, codes, equal, length, ◌==◌, at_least_zero, if◌then◌else◌,
}
use vibe_coding_secret_manag.Outcome.{bad_json, unknown_operation, Result, ok, err, require}
use vibe_coding_secret_manag.Model.{SecretMetadata, Action}
use vibe_coding_secret_manag.Machine.Exec.{pure, lift, ◌>>=◌, ◌>>◌}
use vibe_coding_secret_manag.Vault.Session.{unlock, lock, verify_password}
use vibe_coding_secret_manag.Vault.Secrets.{
  create_secret, rotate_secret, revoke_secret, list_secrets,
}
use vibe_coding_secret_manag.Vault.Actions.{put_action, list_actions}
use vibe_coding_secret_manag.Vault.Audit.{list_audit}
use vibe_coding_secret_manag.Generator.{Profile}
use vibe_coding_secret_manag.Api.{
  SecretRequest, metadata_is, metadata_list, action_is, action_list, event_list, Answer, Request,
}
use vibe_coding_secret_manag.Broker.{
  Host, Service, Serve, in_store, get_store, status, hold_power, release_power, new_value, fail,
  reply,
}
use vibe_coding_secret_manag.Broker.Names.{validate_secret_request, validate_action}
use vibe_coding_secret_manag.Broker.Actions.{run_action}

-- The operations that Handle knows, by their names.
pub data Operation : Type 0 where
  status_op unlock_op lock_op create_op rotate_op revoke_op list_op : Operation
  configure_op actions_op run_op audit_op : Operation

unfoldable pub operation_of : Bytes → Option Operation
operation_of name =
    if equal name (codes "status")
    then some status_op
    else if equal name (codes "unlock")
    then some unlock_op
    else if equal name (codes "lock")
    then some lock_op
    else if equal name (codes "secret.create")
    then some create_op
    else if equal name (codes "secret.rotate")
    then some rotate_op
    else if equal name (codes "secret.revoke")
    then some revoke_op
    else if equal name (codes "secret.list")
    then some list_op
    else if equal name (codes "action.configure")
    then some configure_op
    else if equal name (codes "action.list")
    then some actions_op
    else if equal name (codes "run")
    then some run_op
    else if equal name (codes "audit.list")
    then some audit_op
    else none

-- The metadata that CreateSecret is given; it sets the other fields itself.
unfoldable pub asked_metadata : SecretRequest → Profile → SecretMetadata
asked_metadata payload profile = record {
  id = [];
  project = payload.scope.project;
  environment = payload.scope.environment;
  name = payload.name;
  profile = profile.name;
  strength_bits = profile.strength_bits;
  version = 0;
  state = [];
  created_at = record { sec = 0; nano = 0 };
  updated_at = record { sec = 0; nano = 0 };
}

unfoldable pub with_policy : Action → Action
with_policy action =
    if length action.output_policy == 0
    then record action { output_policy = codes "metadata" }
    else action

module _ (host : Host) where
  -- The cases of Handle, in its order.
  unfoldable pub unlock_case : Bytes → Serve Answer
  unlock_case encoded = do
    payload ← lift (require bad_json (host.unlock_payload encoded))
    get_store host
    in_store (unlock host.env payload.password)
    hold_power host
    status host

  unfoldable pub lock_case : Serve Answer
  lock_case = do get_store host; in_store lock; release_power; status host

  unfoldable pub create_case : Bytes → Serve Answer
  create_case encoded = do
    payload ← lift (require bad_json (host.secret_payload encoded))
    lift (validate_secret_request payload)
    (value, profile) ← new_value host payload.profile
    get_store host
    metadata ← in_store (create_secret host.env (asked_metadata payload profile) value)
    pure (metadata_is metadata)

  unfoldable pub rotate_case : Bytes → Serve Answer
  rotate_case encoded = do
    payload ← lift (require bad_json (host.secret_payload encoded))
    lift (validate_secret_request payload)
    (value, profile) ← new_value host payload.profile
    get_store host
    metadata ←
        in_store (
          rotate_secret host.env payload.scope payload.name profile.name profile.strength_bits
            value)
    pure (metadata_is metadata)

  unfoldable pub revoke_case : Bytes → Serve Answer
  revoke_case encoded = do
    payload ← lift (require bad_json (host.secret_payload encoded))
    get_store host
    metadata ← in_store (revoke_secret host.env payload.scope payload.name)
    pure (metadata_is metadata)

  unfoldable pub list_case : Bytes → Serve Answer
  list_case encoded = do
    payload ← lift (require bad_json (host.scope_payload encoded))
    get_store host
    values ← in_store (list_secrets host.env payload.scope)
    pure (metadata_list values)

  unfoldable pub configure_case : Bytes → Serve Answer
  unfolding with_policy
  configure_case encoded = do
    payload ← lift (require bad_json (host.configure_payload encoded))
    let action = with_policy payload.action
    lift (validate_action action)
    get_store host
    in_store (verify_password host.env payload.master_password)
    stored ← in_store (put_action host.env action)
    pure (action_is stored)

  unfoldable pub actions_case : Bytes → Serve Answer
  actions_case encoded = do
    payload ← lift (require bad_json (host.scope_payload encoded))
    get_store host
    actions ← in_store (list_actions host.env payload.scope)
    pure (action_list actions)

  unfoldable pub audit_case : Bytes → Serve Answer
  audit_case encoded = do
    payload ← lift (require bad_json (host.audit_payload encoded))
    get_store host
    events ← in_store (list_audit host.env (at_least_zero payload.limit))
    pure (event_list events)

  unfoldable pub run_case : Bytes → Serve (Unit {0})
  run_case encoded = do
    payload ← lift (require bad_json (host.action_payload encoded))
    run_action host payload

  -- The run sends its own final response; Handle sends one where the run returns an error.
  unfoldable pub failed_run : Result (Unit {0}) × Service → Service
  failed_run (ok _, s) = s
  failed_run (err e, s) = fail host e s

  unfoldable pub serve : Operation → Bytes → Service → Service
  unfolding run_case failed_run
  serve status_op encoded = reply host (status host)
  serve unlock_op encoded = reply host (unlock_case encoded)
  serve lock_op encoded = reply host lock_case
  serve create_op encoded = reply host (create_case encoded)
  serve rotate_op encoded = reply host (rotate_case encoded)
  serve revoke_op encoded = reply host (revoke_case encoded)
  serve list_op encoded = reply host (list_case encoded)
  serve configure_op encoded = reply host (configure_case encoded)
  serve actions_op encoded = reply host (actions_case encoded)
  serve run_op encoded = λ s. failed_run (run_case encoded s)
  serve audit_op encoded = reply host (audit_case encoded)

  unfoldable pub dispatch : Option Operation → Bytes → Service → Service
  dispatch none encoded s = fail host unknown_operation s
  dispatch (some operation) encoded s = serve operation encoded s

  -- Handle
  unfoldable pub handle : Request → Service → Service
  handle request s = dispatch (operation_of request.operation) request.payload s

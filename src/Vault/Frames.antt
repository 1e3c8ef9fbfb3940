-- ===== src/Vault/Frames.antt =====
-- The parts of the vault's operations that only read the tables.
use vibe_coding_secret_manag.Prelude.{arith, ℕ, List, [], ◌∷◌, Option, none, some, Bytes}
use vibe_coding_secret_manag.Model.{Time, Scope, SecretMetadata, Action}
use vibe_coding_secret_manag.Machine.Tables.{ObjectRow}
use vibe_coding_secret_manag.Machine.Env.{Env}
use vibe_coding_secret_manag.Machine.Exec.{KeySet, Exec}
use vibe_coding_secret_manag.Machine.Rules.{Frame, Frame-pure, Frame-bind, frame_rules, Alike-refl}
use vibe_coding_secret_manag.SecureCrypto.{seal, random_bytes}
use vibe_coding_secret_manag.Vault.Context.{random_id}
use vibe_coding_secret_manag.Vault.Session.{get_machine, unwrap_dek, verify_password}
use vibe_coding_secret_manag.Vault.Audit.{list_audit}
use vibe_coding_secret_manag.Vault.Secrets.{
  given_or_random_id, find_secret_metadata, prepare_create, prepare_rotate, prepare_revoke,
  resolve_one, resolve_each, resolve_secrets, list_secrets,
}
use vibe_coding_secret_manag.Vault.Actions.{
  or_no_id, get_action_by_id, identify, prepare_action, get_action, list_actions,
}

module _ (env : Env) where
  pub Frame-seal : (key plaintext associated : Bytes) → Frame (seal env key plaintext associated)
  unfolding seal
  Frame-seal key plaintext associated = search frame_rules

  pub Frame-random_bytes : (size : ℕ) → Frame (random_bytes env size)
  unfolding random_bytes
  Frame-random_bytes size = search frame_rules

  pub Frame-random_id : Frame (random_id env)
  unfolding random_id
  Frame-random_id = search frame_rules

  Frame-given_or_random_id : (id : Bytes) → Frame (given_or_random_id env id)
  unfolding given_or_random_id
  Frame-given_or_random_id id = search (frame_rules, Frame-random_id)

  Frame-or_no_id : {m : Exec Bytes} → Frame m → Frame (or_no_id m)
  unfolding or_no_id
  Frame-or_no_id {m} f = record { at = λ s. ground (arith, f.at s) }

ruleset drawing =
    (frame_rules, Frame-seal, Frame-random_id, Frame-given_or_random_id, Frame-or_no_id)

module _ (env : Env) (keys : KeySet) where
  pub Frame-find_secret_metadata :
      (scope : Scope) (name : Bytes) → Frame (find_secret_metadata env keys scope name)
  unfolding find_secret_metadata
  Frame-find_secret_metadata scope name = search drawing

  pub Frame-prepare_create :
      (given : SecretMetadata) (value : Bytes) → Frame (prepare_create env keys given value)
  unfolding prepare_create
  Frame-prepare_create given value = search drawing depth 9

  pub Frame-prepare_rotate :
      (found : SecretMetadata) (revision : ℕ) (profile : Bytes) (strength : ℕ) (value : Bytes)
      → Frame (prepare_rotate env keys found revision profile strength value)
  unfolding prepare_rotate
  Frame-prepare_rotate found revision profile strength value = search drawing depth 9

  pub Frame-prepare_revoke :
      (found : SecretMetadata) (revision : ℕ) → Frame (prepare_revoke env keys found revision)
  unfolding prepare_revoke
  Frame-prepare_revoke found revision = search drawing depth 9

  pub Frame-get_action_by_id :
      (id : Bytes) (revision : ℕ) → Frame (get_action_by_id env keys id revision)
  unfolding get_action_by_id
  Frame-get_action_by_id id revision = search drawing

  pub Frame-identify :
      (now : Time) (existing : Option ObjectRow) → Frame (identify env keys now existing)
  unfolding identify
  Frame-identify now none = search drawing
  Frame-identify now (some row) = search (drawing, Frame-get_action_by_id)

  pub Frame-prepare_action : (given : Action) → Frame (prepare_action env keys given)
  unfolding prepare_action
  Frame-prepare_action given = search (drawing, Frame-identify) depth 9

  pub Frame-resolve_one : (scope : Scope) (name : Bytes) → Frame (resolve_one env keys scope name)
  unfolding resolve_one
  Frame-resolve_one scope name = search drawing

  pub Frame-resolve_each :
      (scope : Scope) (mappings : List (Bytes × Bytes))
      → Frame (resolve_each env keys scope mappings)
  unfolding resolve_each
  Frame-resolve_each scope [] = Frame-pure []
  Frame-resolve_each scope ((env_name, name) ∷ mappings) =
      Frame-bind (Frame-resolve_one scope name)
        (λ value. Frame-bind (Frame-resolve_each scope mappings) (λ rest. Frame-pure _))

module _ (env : Env) where
  pub Frame-list_secrets : (scope : Scope) → Frame (list_secrets env scope)
  unfolding list_secrets
  Frame-list_secrets scope = search drawing

  pub Frame-list_actions : (scope : Scope) → Frame (list_actions env scope)
  unfolding list_actions
  Frame-list_actions scope = search drawing

  pub Frame-list_audit : (limit : ℕ) → Frame (list_audit env limit)
  unfolding list_audit
  Frame-list_audit limit = search drawing

  pub Frame-get_action : (scope : Scope) (name : Bytes) → Frame (get_action env scope name)
  unfolding get_action
  Frame-get_action scope name = search (drawing, Frame-get_action_by_id)

  pub Frame-resolve_secrets :
      (scope : Scope) (mappings : List (Bytes × Bytes)) → Frame (resolve_secrets env scope mappings)
  unfolding resolve_secrets
  Frame-resolve_secrets scope mappings = search (drawing, Frame-resolve_each)

module _ (env : Env) where
  Frame-get_machine : Frame get_machine
  unfolding get_machine
  Frame-get_machine = record { at = λ s. Alike-refl s }

  pub Frame-unwrap_dek : (password : Bytes) → Frame (unwrap_dek env password)
  unfolding unwrap_dek
  Frame-unwrap_dek password = search (frame_rules, Frame-get_machine) depth 9

  pub Frame-verify_password : (password : Bytes) → Frame (verify_password env password)
  unfolding verify_password
  Frame-verify_password password = search (frame_rules, Frame-unwrap_dek)

pub ruleset reading = (
  Frame-find_secret_metadata, Frame-prepare_create, Frame-prepare_rotate, Frame-prepare_revoke,
  Frame-prepare_action,
)

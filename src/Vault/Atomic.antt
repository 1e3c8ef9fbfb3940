-- ===== src/Vault/Atomic.antt =====
-- An operation on the vault that fails has changed nothing in the database.
use vibe_coding_secret_manag.Prelude.{ℕ, ◌≡◌, Bytes}
use vibe_coding_secret_manag.Outcome.{Error, err}
use vibe_coding_secret_manag.Model.{Scope, SecretMetadata, Action, AuditEvent}
use vibe_coding_secret_manag.Machine.Env.{Env}
use vibe_coding_secret_manag.Machine.Exec.{Machine, Exec, pure, ◌>>◌}
use vibe_coding_secret_manag.Machine.Rules.{
  frame_rules, IsAtomic, IsAtomic-bind, IsAtomic-then_pure, transaction-IsAtomic,
}
use vibe_coding_secret_manag.Vault.Audit.{record_audit}
use vibe_coding_secret_manag.Vault.Secrets.{create_secret, rotate_secret, revoke_secret}
use vibe_coding_secret_manag.Vault.Actions.{put_action}
use vibe_coding_secret_manag.Vault.Frames.{reading}

ruleset atomic_rules =
    (frame_rules, reading, IsAtomic-bind, IsAtomic-then_pure, transaction-IsAtomic)

module _ (env : Env) where
  pub create_secret-IsAtomic :
      (given : SecretMetadata) (value : Bytes) → IsAtomic (create_secret env given value)
  unfolding create_secret
  create_secret-IsAtomic given value = search atomic_rules

  pub rotate_secret-IsAtomic :
      (scope : Scope) (name profile : Bytes) (strength : ℕ) (value : Bytes)
      → IsAtomic (rotate_secret env scope name profile strength value)
  unfolding rotate_secret
  rotate_secret-IsAtomic scope name profile strength value = search atomic_rules

  pub revoke_secret-IsAtomic :
      (scope : Scope) (name : Bytes) → IsAtomic (revoke_secret env scope name)
  unfolding revoke_secret
  revoke_secret-IsAtomic scope name = search atomic_rules

  pub put_action-IsAtomic : (given : Action) → IsAtomic (put_action env given)
  unfolding put_action
  put_action-IsAtomic given = search atomic_rules

  pub record_audit-IsAtomic : (event : AuditEvent) → IsAtomic (record_audit env event)
  unfolding record_audit
  record_audit-IsAtomic event = search atomic_rules

  -- A CreateSecret that fails, at whatever step, has left the tables as they were.
  pub create_secret_fails :
      (given : SecretMetadata) (value : Bytes) (s t : Machine) (e : Error)
      → create_secret env given value s ≡ (err e, t)
      → t.db ≡ s.db
  create_secret_fails given value s t e h = (create_secret-IsAtomic given value).at s t e h

  -- A RotateSecret that fails, at whatever step, has left the tables as they were.
  pub rotate_secret_fails :
      (scope : Scope) (name profile : Bytes) (strength : ℕ) (value : Bytes) (s t : Machine)
      (e : Error)
      → rotate_secret env scope name profile strength value s ≡ (err e, t)
      → t.db ≡ s.db
  rotate_secret_fails scope name profile strength value s t e h =
      (rotate_secret-IsAtomic scope name profile strength value).at s t e h

  -- A RevokeSecret that fails, at whatever step, has left the tables as they were.
  pub revoke_secret_fails :
      (scope : Scope) (name : Bytes) (s t : Machine) (e : Error)
      → revoke_secret env scope name s ≡ (err e, t)
      → t.db ≡ s.db
  revoke_secret_fails scope name s t e h = (revoke_secret-IsAtomic scope name).at s t e h

  -- A PutAction that fails, at whatever step, has left the tables as they were.
  pub put_action_fails :
      (given : Action) (s t : Machine) (e : Error)
      → put_action env given s ≡ (err e, t)
      → t.db ≡ s.db
  put_action_fails given s t e h = (put_action-IsAtomic given).at s t e h

-- A call of an operation that writes in one transaction; what it returns is not looked at.
pub data VaultCall : Type 0 where
  create_call : SecretMetadata → Bytes → VaultCall
  rotate_call : Scope → Bytes → Bytes → ℕ → Bytes → VaultCall
  revoke_call : Scope → Bytes → VaultCall
  configure_call : Action → VaultCall
  record_call : AuditEvent → VaultCall

module _ (env : Env) where
  unfoldable pub run_call : VaultCall → Exec (Unit {0})
  run_call (create_call given value) = do create_secret env given value; pure tt
  run_call (rotate_call scope name profile strength value) = do
    rotate_secret env scope name profile strength value
    pure tt
  run_call (revoke_call scope name) = do revoke_secret env scope name; pure tt
  run_call (configure_call given) = do put_action env given; pure tt
  run_call (record_call event) = do record_audit env event; pure tt

  run_call-IsAtomic : (call : VaultCall) → IsAtomic (run_call call)
  unfolding run_call
  run_call-IsAtomic (create_call given value) =
      IsAtomic-then_pure _ (create_secret-IsAtomic env given value)
  run_call-IsAtomic (rotate_call scope name profile strength value) =
      IsAtomic-then_pure _ (rotate_secret-IsAtomic env scope name profile strength value)
  run_call-IsAtomic (revoke_call scope name) =
      IsAtomic-then_pure _ (revoke_secret-IsAtomic env scope name)
  run_call-IsAtomic (configure_call given) = IsAtomic-then_pure _ (put_action-IsAtomic env given)
  run_call-IsAtomic (record_call event) = IsAtomic-then_pure _ (record_audit-IsAtomic env event)

  -- A CreateSecret, RotateSecret, RevokeSecret, PutAction or RecordAudit that fails, at whatever
  -- step, has left the tables as they were.
  pub run_call_fails :
      (call : VaultCall) (s t : Machine) (e : Error) → run_call call s ≡ (err e, t) → t.db ≡ s.db
  run_call_fails call s t e h = (run_call-IsAtomic call).at s t e h

-- ===== src/Vault/Keys.antt =====
-- The vault's operations leave the keys in memory alone.
use vibe_coding_secret_manag.Prelude.{ℕ, ◌+◌, ◌≡◌, ◌∙◌, Option, Bytes, arith}
use vibe_coding_secret_manag.Outcome.{Error, Result}
use vibe_coding_secret_manag.Model.{Scope, SecretMetadata, Action, AuditEvent}
use vibe_coding_secret_manag.Machine.Tables.{Db, ObjectRow, VersionRow}
use vibe_coding_secret_manag.Machine.Env.{Env}
use vibe_coding_secret_manag.Machine.Exec.{KeySet, Machine, Exec, statement, transaction, unique_as}
use vibe_coding_secret_manag.Machine.Rules.{Frame, Frame-query, Frame-copy_keys}
use vibe_coding_secret_manag.Machine.Triples.{Keeps, Keeps-from, Keeps-after, keeping}
use vibe_coding_secret_manag.Vault.Audit.{append_audit, record_audit}
use vibe_coding_secret_manag.Vault.Audit.Append.{Frame-event_id, Frame-event_time}
use vibe_coding_secret_manag.Vault.Secrets.{
  insert_secret, create_secret, promote_version, rotate_secret, close_secret, revoke_secret,
}
use vibe_coding_secret_manag.Vault.Actions.{write_action, put_action}
use vibe_coding_secret_manag.Vault.Frames.{reading}

abbrev pub HasKeys : Option KeySet → Machine → Type 0
HasKeys k s = s.keys ≡ k

module _ {k : Option KeySet} where
  Frame-HasKeys : {A : Type 0} {m : Exec A} → Frame m → Keeps (HasKeys k) m
  Frame-HasKeys f = Keeps-from (λ s p. (f.at s).keys ∙ p)

  statement-HasKeys :
      {A : Type 0} (env : Env) (q : Db → Result (A × Db)) → Keeps (HasKeys k) (statement env q)
  unfolding statement
  statement-HasKeys env q = Keeps-from (λ s p. ground (arith, p))

  unique_as-HasKeys :
      {A : Type 0} (e : Error) {m : Exec A}
      → Keeps (HasKeys k) m
      → Keeps (HasKeys k) (unique_as e m)
  unfolding unique_as
  unique_as-HasKeys e h = Keeps-from (λ s p. ground (arith, Keeps-after h s p))

  transaction-HasKeys :
      {A : Type 0} (env : Env) {m : Exec A}
      → Keeps (HasKeys k) m
      → Keeps (HasKeys k) (transaction env m)
  unfolding transaction
  transaction-HasKeys env h =
      Keeps-from (λ s p. ground (arith, Keeps-after h (record s { calls = s.calls + 1 }) p))

  append_audit-HasKeys :
      (env : Env) (key : Bytes) (event : AuditEvent)
      → Keeps (HasKeys k) (append_audit env key event)
  unfolding append_audit
  append_audit-HasKeys env key event =
      search
        (keeping, Frame-HasKeys, Frame-event_id, Frame-event_time, Frame-query, statement-HasKeys)
        depth 9

ruleset writing = (
  keeping, reading, Frame-HasKeys, Frame-copy_keys, Frame-query, statement-HasKeys,
  unique_as-HasKeys, transaction-HasKeys, append_audit-HasKeys,
)

module _ {k : Option KeySet} (env : Env) where
  insert_secret-HasKeys :
      (keys : KeySet) (object : ObjectRow) (version : VersionRow)
      → Keeps (HasKeys k) (insert_secret env keys object version)
  unfolding insert_secret
  insert_secret-HasKeys keys object version = search writing depth 9

  pub create_secret-HasKeys :
      (given : SecretMetadata) (value : Bytes) → Keeps (HasKeys k) (create_secret env given value)
  unfolding create_secret
  create_secret-HasKeys given value = search (writing, insert_secret-HasKeys) depth 9

  promote_version-HasKeys :
      (keys : KeySet) (version : VersionRow) (change : ObjectRow → ObjectRow) (revision : ℕ)
      → Keeps (HasKeys k) (promote_version env keys version change revision)
  unfolding promote_version
  promote_version-HasKeys keys version change revision = search writing depth 12

  pub rotate_secret-HasKeys :
      (scope : Scope) (name profile : Bytes) (strength : ℕ) (value : Bytes)
      → Keeps (HasKeys k) (rotate_secret env scope name profile strength value)
  unfolding rotate_secret
  rotate_secret-HasKeys scope name profile strength value =
      search (writing, promote_version-HasKeys) depth 9

  close_secret-HasKeys :
      (keys : KeySet) (id : Bytes) (change : ObjectRow → ObjectRow) (at : Bytes)
      → Keeps (HasKeys k) (close_secret env keys id change at)
  unfolding close_secret
  close_secret-HasKeys keys id change at = search writing depth 9

  pub revoke_secret-HasKeys :
      (scope : Scope) (name : Bytes) → Keeps (HasKeys k) (revoke_secret env scope name)
  unfolding revoke_secret
  revoke_secret-HasKeys scope name = search (writing, close_secret-HasKeys) depth 9

  write_action-HasKeys :
      (keys : KeySet) (revision : ℕ) (row : ObjectRow)
      → Keeps (HasKeys k) (write_action env keys revision row)
  unfolding write_action
  write_action-HasKeys keys revision row = search writing depth 9

  pub put_action-HasKeys : (given : Action) → Keeps (HasKeys k) (put_action env given)
  unfolding put_action
  put_action-HasKeys given = search (writing, write_action-HasKeys) depth 9

  pub record_audit-HasKeys : (event : AuditEvent) → Keeps (HasKeys k) (record_audit env event)
  unfolding record_audit
  record_audit-HasKeys event = search writing depth 9

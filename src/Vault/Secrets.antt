-- ===== src/Vault/Secrets.antt =====
-- The operations on secrets: CreateSecret, RotateSecret, RevokeSecret, ListSecrets, ResolveSecrets.
pub mod Versions
pub mod Effects
pub mod Prepared
pub mod Read
pub mod Resolve
pub mod Stale
use vibe_coding_secret_manag.Prelude.{
  ℕ, ◌+◌, Bool, true, false, ◌&&◌, List, [], ◌∷◌, ◌++◌, Option, none, some, length, Bytes, codes,
  equal, text_ltb, ◌==◌, if◌then◌else◌,
}
use vibe_coding_secret_manag.Outcome.{
  Error, already_exists, not_found, bad_json, changed_concurrently, no_active_version, Result, ok,
  err, require, guard,
}
use vibe_coding_secret_manag.Model.{Time, Scope, SecretMetadata, AuditEvent}
use vibe_coding_secret_manag.Machine.Tables.{
  Kind, secret, VersionState, pending, active, retired, revoked, ObjectRow, VersionRow,
}
use vibe_coding_secret_manag.Machine.Env.{Env, Json}
use vibe_coding_secret_manag.Machine.Exec.{
  KeySet, Exec, pure, lift, query, statement, clock, transaction, copy_keys, no_rows_as, unique_as,
  ◌>>=◌, ◌>>◌,
}
use vibe_coding_secret_manag.SecureCrypto.{seal, open_sealed}
use vibe_coding_secret_manag.Vault.Rows.{
  insert_object, select_object, select_objects, change_object, update_object, update_object_at,
  insert_version, close_active, activate, select_active,
}
use vibe_coding_secret_manag.Vault.Context.{object_aad, secret_aad, secret_lookup, random_id, stamp}
use vibe_coding_secret_manag.Vault.Audit.{append_audit, or_empty}

-- the audit event that an operation of the broker on one object records
abbrev pub audit_of : Bytes → Bytes → Bytes → AuditEvent
audit_of actor operation id = record {
  id = [];
  timestamp = none;
  actor = actor;
  operation = operation;
  object_id = id;
  outcome = codes "success";
  detail = [];
}

abbrev pub scope_of : SecretMetadata → Scope
scope_of meta = record { project = meta.project; environment = meta.environment }

abbrev pub in_scope : Scope → Scope → Bool
in_scope scope other =
    equal other.project scope.project && equal other.environment scope.environment

-- sort.Slice by Name
unfoldable pub place_by {ℓ} : {A : Type ℓ} → (A → Bytes) → A → List A → List A
place_by key a [] = a ∷ []
place_by key a (b ∷ l) =
    let later = place_by key a l in if text_ltb (key a) (key b) then a ∷ b ∷ l else b ∷ later

unfoldable pub sort_by {ℓ} : {A : Type ℓ} → (A → Bytes) → List A → List A
unfolding place_by
sort_by key [] = []
sort_by key (a ∷ l) = place_by key a (sort_by key l)

-- a list that goes on with `a`, where `keep` says so
unfoldable pub keep_if {ℓ} : {A : Type ℓ} → Bool → A → Result (List A) → Result (List A)
keep_if keep a (err e) = err e
keep_if keep a (ok l) = ok (if keep then a ∷ l else l)

module _ (env : Env) where
  -- The metadata in a row, decrypted and parsed.
  unfoldable pub open_metadata : KeySet → ObjectRow → Result SecretMetadata
  open_metadata keys row =
      elim (open_sealed env keys.metadata row.metadata_nonce row.metadata_ciphertext
        (object_aad secret row.object_id row.revision)) [
          | ok plaintext ↦ require bad_json (env.secret_json.unmarshal plaintext)
          | err e ↦ err e
        ]

  -- findSecretMetadata
  unfoldable pub find_secret_metadata : KeySet → Scope → Bytes → Exec (SecretMetadata × ℕ)
  unfolding open_metadata
  find_secret_metadata keys scope name = do
    row ←
        no_rows_as not_found
          (query env (select_object secret (secret_lookup env keys.lookup scope name)))
    meta ← lift (open_metadata keys row)
    pure (meta, row.revision)

  unfoldable pub given_or_random_id : Bytes → Exec Bytes
  given_or_random_id id = if length id == 0 then random_id env else pure id

  -- The statements of CreateSecret.
  unfoldable pub insert_secret : KeySet → ObjectRow → VersionRow → Exec (Unit {0})
  insert_secret keys object version = do
    unique_as already_exists (statement env (insert_object object))
    statement env (insert_version version)
    append_audit env keys.audit (audit_of (codes "broker") (codes "secret.create") object.object_id)

  -- CreateSecret before its transaction: the metadata and the rows to insert.
  unfoldable pub prepare_create :
      KeySet → SecretMetadata → Bytes → Exec (SecretMetadata × ObjectRow × VersionRow)
  prepare_create keys given value = do
    id ← given_or_random_id given.id
    now ← clock env
    let meta = record given {
      id = id;
      version = 1;
      state = codes "active";
      created_at = now;
      updated_at = now;
    }
    let lookup = secret_lookup env keys.lookup (scope_of meta) meta.name
    encoded ← lift (require bad_json (env.secret_json.marshal meta))
    (metadata_nonce, metadata_ciphertext) ← seal env keys.metadata encoded (object_aad secret id 1)
    version_id ← random_id env
    (value_nonce, value_ciphertext) ← seal env keys.dek value (secret_aad id 1)
    let at = stamp env now
    pure (
      meta,
      record {
        object_id = id;
        object_type = secret;
        lookup_token = lookup;
        metadata_nonce = metadata_nonce;
        metadata_ciphertext = metadata_ciphertext;
        revision = 1;
        created_at = at;
        updated_at = at;
      },
      record {
        version_id = version_id;
        secret_id = id;
        version_number = 1;
        state = active;
        value_nonce = value_nonce;
        value_ciphertext = value_ciphertext;
        created_at = at;
        activated_at = some at;
        retired_at = none;
      },
    )

  -- CreateSecret
  unfoldable pub create_secret : SecretMetadata → Bytes → Exec SecretMetadata
  create_secret given value = do
    keys ← copy_keys
    (meta, object, version) ← prepare_create keys given value
    transaction env (insert_secret keys object version)
    pure meta

  -- The statements of RotateSecret, for the new version row, the changed object and its revision.
  unfoldable pub promote_version :
      KeySet → VersionRow → (ObjectRow → ObjectRow) → ℕ → Exec (Unit {0})
  promote_version keys version change revision = do
    let at = version.created_at
    statement env (insert_version version)
    statement env (close_active retired version.secret_id at)
    statement env (activate version.version_id at)
    count ← statement env (update_object_at change version.secret_id revision)
    lift (guard (count == 1) changed_concurrently)
    append_audit env keys.audit
        (audit_of (codes "broker") (codes "secret.rotate") version.secret_id)

  -- RotateSecret between the lookup and its transaction: the new metadata, the new version row, the
  -- change of the object row, and the time stamp.
  unfoldable pub prepare_rotate :
      KeySet
      → SecretMetadata
      → ℕ
      → Bytes
      → ℕ
      → Bytes
      → Exec (SecretMetadata × VersionRow × (ObjectRow → ObjectRow))
  prepare_rotate keys found revision profile strength value = do
    let new_version = found.version + 1
    now ← clock env
    version_id ← random_id env
    (value_nonce, value_ciphertext) ← seal env keys.dek value (secret_aad found.id new_version)
    let meta = record found {
      profile = profile;
      strength_bits = strength;
      version = new_version;
      state = codes "active";
      updated_at = now;
    }
    encoded ← lift (require bad_json (env.secret_json.marshal meta))
    (nonce, ciphertext) ← seal env keys.metadata encoded (object_aad secret meta.id (revision + 1))
    let at = stamp env now
    pure (
      meta,
      record {
        version_id = version_id;
        secret_id = meta.id;
        version_number = new_version;
        state = pending;
        value_nonce = value_nonce;
        value_ciphertext = value_ciphertext;
        created_at = at;
        activated_at = none;
        retired_at = none;
      },
      change_object nonce ciphertext (revision + 1) at,
    )

  -- RotateSecret
  unfoldable pub rotate_secret : Scope → Bytes → Bytes → ℕ → Bytes → Exec SecretMetadata
  rotate_secret scope name profile strength value = do
    keys ← copy_keys
    (found, revision) ← find_secret_metadata keys scope name
    (meta, version, change) ← prepare_rotate keys found revision profile strength value
    transaction env (promote_version keys version change revision)
    pure meta

  -- The statements of RevokeSecret.
  unfoldable pub close_secret : KeySet → Bytes → (ObjectRow → ObjectRow) → Bytes → Exec (Unit {0})
  close_secret keys id change at = do
    statement env (close_active revoked id at)
    statement env (update_object change id)
    append_audit env keys.audit (audit_of (codes "broker") (codes "secret.revoke") id)

  -- RevokeSecret between the lookup and its transaction; an error of json.Marshal is not looked at,
  -- and its bytes are then none.
  unfoldable pub prepare_revoke :
      KeySet → SecretMetadata → ℕ → Exec (SecretMetadata × (ObjectRow → ObjectRow) × Bytes)
  prepare_revoke keys found revision = do
    now ← clock env
    let meta = record found { state = codes "revoked"; updated_at = now }
    (nonce, ciphertext) ←
        seal env keys.metadata (or_empty (env.secret_json.marshal meta))
          (object_aad secret meta.id (revision + 1))
    pure (meta, change_object nonce ciphertext (revision + 1) (stamp env now), stamp env now)

  -- RevokeSecret
  unfoldable pub revoke_secret : Scope → Bytes → Exec SecretMetadata
  revoke_secret scope name = do
    keys ← copy_keys
    (found, revision) ← find_secret_metadata keys scope name
    (meta, change, at) ← prepare_revoke keys found revision
    transaction env (close_secret keys meta.id change at)
    pure meta

  -- The loop of ListSecrets over the rows.
  unfoldable pub metadata_in : KeySet → Scope → List ObjectRow → Result (List SecretMetadata)
  unfolding open_metadata keep_if
  metadata_in keys scope [] = ok []
  metadata_in keys scope (row ∷ rows) =
      let others = metadata_in keys scope rows in
      elim (open_metadata keys row) [
        | ok meta ↦ keep_if (in_scope scope (scope_of meta)) meta others
        | err e ↦ err e
      ]

  -- ListSecrets
  unfoldable pub list_secrets : Scope → Exec (List SecretMetadata)
  unfolding metadata_in
  list_secrets scope = do
    keys ← copy_keys
    rows ← query env (select_objects secret)
    found ← lift (metadata_in keys scope rows)
    pure (sort_by (λ meta. meta.name) found)

  -- One round of the loop of ResolveSecrets: the value of one secret.
  unfoldable pub resolve_one : KeySet → Scope → Bytes → Exec Bytes
  resolve_one keys scope name = do
    object ←
        no_rows_as not_found
          (query env (select_object secret (secret_lookup env keys.lookup scope name)))
    version ← no_rows_as no_active_version (query env (select_active object.object_id))
    lift (
        open_sealed env keys.dek version.value_nonce version.value_ciphertext
          (secret_aad object.object_id version.version_number))

  unfoldable pub resolve_each : KeySet → Scope → List (Bytes × Bytes) → Exec (List (Bytes × Bytes))
  unfolding resolve_one
  resolve_each keys scope [] = pure []
  resolve_each keys scope ((env_name, name) ∷ mappings) = do
    value ← resolve_one keys scope name
    rest ← resolve_each keys scope mappings
    pure ((env_name, value) ∷ rest)

  -- ResolveSecrets. Go's iteration order over the mapping is any order; here it is the list's.
  unfoldable pub resolve_secrets : Scope → List (Bytes × Bytes) → Exec (List (Bytes × Bytes))
  unfolding resolve_each
  resolve_secrets scope mappings = do keys ← copy_keys; resolve_each keys scope mappings

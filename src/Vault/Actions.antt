-- ===== src/Vault/Actions.antt =====
-- The approved actions: PutAction, GetAction, ListActions.
pub mod Lookup
pub mod Writing
pub mod Stored
use vibe_coding_secret_manag.Prelude.{
  ℕ, not, ◌+◌, ◌||◌, List, [], ◌∷◌, Option, none, some, length, Bytes, codes, ◌==◌, if◌then◌else◌,
}
use vibe_coding_secret_manag.Outcome.{
  not_found, bad_json, missing_fields, Result, ok, err, require, guard,
}
use vibe_coding_secret_manag.Model.{Time, Scope, Action}
use vibe_coding_secret_manag.Machine.Tables.{action, ObjectRow}
use vibe_coding_secret_manag.Machine.Env.{Env}
use vibe_coding_secret_manag.Machine.Exec.{
  KeySet, Machine, Exec, pure, lift, query, statement, clock, transaction, copy_keys, no_rows_as,
  ◌>>=◌, ◌>>◌,
}
use vibe_coding_secret_manag.SecureCrypto.{seal, open_sealed}
use vibe_coding_secret_manag.Vault.Rows.{
  find_token, insert_object, select_object, select_object_by_id, select_objects, change_object,
  update_object,
}
use vibe_coding_secret_manag.Vault.Context.{object_aad, action_lookup, random_id, stamp}
use vibe_coding_secret_manag.Vault.Audit.{append_audit}
use vibe_coding_secret_manag.Vault.Secrets.{audit_of, in_scope, sort_by, keep_if}

abbrev pub action_scope : Action → Scope
action_scope a = record { project = a.project; environment = a.environment }

-- `action.ID, err = randomID()`, whose error the next statement overwrites: the id is then empty.
ignored : Result Bytes × Machine → Result Bytes × Machine
ignored (ok id, s) = (ok id, s)
ignored (err e, s) = (ok [], s)

unfoldable pub or_no_id : Exec Bytes → Exec Bytes
unfolding ignored
or_no_id m s = ignored (m s)

module _ (env : Env) where
  unfoldable pub open_action : KeySet → ObjectRow → ℕ → Result Action
  open_action keys row revision =
      elim (open_sealed env keys.metadata row.metadata_nonce row.metadata_ciphertext
        (object_aad action row.object_id revision)) [
          | ok plaintext ↦ require bad_json (env.action_json.unmarshal plaintext)
          | err e ↦ err e
        ]

  -- getActionByID
  unfoldable pub get_action_by_id : KeySet → Bytes → ℕ → Exec Action
  unfolding open_action
  get_action_by_id keys id revision = do
    row ← query env (select_object_by_id id)
    lift (open_action keys row revision)

  -- The identity of the action: its id, its creation time and the revision that it replaces, which
  -- is 0 for an action that is new.
  unfoldable pub identify : KeySet → Time → Option ObjectRow → Exec (Bytes × Time × ℕ)
  identify keys now none = do id ← or_no_id (random_id env); pure (id, now, 0)
  identify keys now (some row) = do
    current ← get_action_by_id keys row.object_id row.revision
    pure (row.object_id, current.created_at, row.revision)

  -- The statements of PutAction.
  unfoldable pub write_action : KeySet → ℕ → ObjectRow → Exec (Unit {0})
  write_action keys revision row = do
    statement env (
        if revision == 0
        then insert_object row
        else update_object
            (change_object row.metadata_nonce row.metadata_ciphertext row.revision row.updated_at)
            row.object_id)
    append_audit env keys.audit (audit_of (codes "user") (codes "action.configure") row.object_id)

  -- PutAction before its transaction: the action, the revision that it replaces, and the row.
  unfoldable pub prepare_action : KeySet → Action → Exec (Action × ℕ × ObjectRow)
  prepare_action keys given = do
    lift (
        guard
          (not (
            length given.project == 0
            || length given.environment == 0
            || length given.name == 0
            || length given.executable == 0))
          missing_fields)
    now ← clock env
    let lookup = action_lookup env keys.lookup (action_scope given) given.name
    existing ← query env (λ db. ok (find_token action lookup db.objects))
    (id, created, revision) ← identify keys now existing
    let full = record given { id = id; created_at = created; updated_at = now }
    encoded ← lift (require bad_json (env.action_json.marshal full))
    (nonce, ciphertext) ← seal env keys.metadata encoded (object_aad action id (revision + 1))
    pure (
      full,
      revision,
      record {
        object_id = id;
        object_type = action;
        lookup_token = lookup;
        metadata_nonce = nonce;
        metadata_ciphertext = ciphertext;
        revision = revision + 1;
        created_at = stamp env now;
        updated_at = stamp env now;
      },
    )

  -- PutAction
  unfoldable pub put_action : Action → Exec Action
  put_action given = do
    keys ← copy_keys
    (full, revision, row) ← prepare_action keys given
    transaction env (write_action keys revision row)
    pure full

  -- GetAction
  unfoldable pub get_action : Scope → Bytes → Exec Action
  unfolding get_action_by_id
  get_action scope name = do
    keys ← copy_keys
    row ←
        no_rows_as not_found
          (query env (select_object action (action_lookup env keys.lookup scope name)))
    get_action_by_id keys row.object_id row.revision

  -- The loop of ListActions over the rows.
  unfoldable pub actions_in : KeySet → Scope → List ObjectRow → Result (List Action)
  unfolding open_action keep_if
  actions_in keys scope [] = ok []
  actions_in keys scope (row ∷ rows) =
      let others = actions_in keys scope rows in
      elim (open_action keys row row.revision) [
        | ok found ↦ keep_if (in_scope scope (action_scope found)) found others
        | err e ↦ err e
      ]

  -- ListActions
  unfoldable pub list_actions : Scope → Exec (List Action)
  unfolding actions_in
  list_actions scope = do
    keys ← copy_keys
    rows ← query env (select_objects action)
    found ← lift (actions_in keys scope rows)
    pure (sort_by (λ (a : Action). a.name) found)

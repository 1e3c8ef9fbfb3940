-- ===== src/Vault/Audit.antt =====
-- The audit log: appendAudit, RecordAudit and ListAudit.
pub mod Chain
pub mod Order
pub mod Append
pub mod Log
use vibe_coding_secret_manag.Prelude.{
  ℕ, suc, ◌-◌, Bool, true, false, ◌||◌, List, [], ◌∷◌, ◌++◌, Option, none, some, length, drop,
  Bytes, equal, ltb, ◌==◌, if◌then◌else◌,
}
use mathlib.Core.List.{reverse}
use vibe_coding_secret_manag.Outcome.{
  bad_json, chain_inconsistent, event_authentication_failed, Result, ok, err, require,
}
use vibe_coding_secret_manag.Model.{Time, AuditEvent}
use vibe_coding_secret_manag.Machine.Tables.{AuditRow}
use vibe_coding_secret_manag.Machine.Env.{Env, Json}
use vibe_coding_secret_manag.Machine.Exec.{
  KeySet, Exec, pure, lift, query, statement, clock, transaction, copy_keys, ◌>>=◌, ◌>>◌,
}
use vibe_coding_secret_manag.Vault.Rows.{insert_audit, select_last_hmac, select_audits}
use vibe_coding_secret_manag.Vault.Context.{random_id, stamp}

abbrev pub or_empty : Option Bytes → Bytes
or_empty none = []
or_empty (some bytes) = bytes

-- json.Unmarshal of one row, before the rows that follow
unfoldable pub read_event : Option AuditEvent → Result (List AuditEvent) → Result (List AuditEvent)
read_event none later = err bad_json
read_event (some event) (ok events) = ok (event ∷ events)
read_event (some event) (err e) = err e

-- `limit` after its check; a limit that is not positive is 0 here
unfoldable pub audit_limit : ℕ → ℕ
audit_limit limit = if limit == 0 || ltb 1000 limit then 100 else limit

-- The last `limit` events, the newest first.
unfoldable pub newest_first : ℕ → List AuditEvent → List AuditEvent
newest_first limit events = reverse (drop (length events - audit_limit limit) events)

module _ (env : Env) where
  unfoldable pub event_id : Bytes → Exec Bytes
  event_id id = if length id == 0 then random_id env else pure id

  unfoldable pub event_time : Option Time → Exec Time
  event_time none = clock env
  event_time (some t) = pure t

  -- appendAudit, inside a transaction
  unfoldable pub append_audit : Bytes → AuditEvent → Exec (Unit {0})
  append_audit key event = do
    id ← event_id event.id
    time ← event_time event.timestamp
    let full = record event { id = id; timestamp = some time }
    encoded ← lift (require bad_json (env.event_json.marshal full))
    last ← query env select_last_hmac
    statement env (
        insert_audit (record {
          event_id = id;
          event_json = encoded;
          previous_hmac = or_empty last;
          event_hmac = env.hmac key (or_empty last ++ encoded);
          created_at = stamp env time;
        }))

  -- RecordAudit
  unfoldable pub record_audit : AuditEvent → Exec (Unit {0})
  record_audit event = do keys ← copy_keys; transaction env (append_audit keys.audit event)

  -- The loop of ListAudit over the rows, from the signature of the row before.
  unfoldable pub check_rows : Bytes → Bytes → List AuditRow → Result (List AuditEvent)
  check_rows key previous [] = ok []
  check_rows key previous (row ∷ rows) =
      let later = check_rows key row.event_hmac rows in
      if equal row.previous_hmac previous
      then (if equal row.event_hmac (env.hmac key (previous ++ row.event_json))
          then read_event (env.event_json.unmarshal row.event_json) later
          else err event_authentication_failed)
      else err chain_inconsistent

  -- ListAudit
  unfoldable pub list_audit : ℕ → Exec (List AuditEvent)
  unfolding newest_first
  list_audit limit = do
    keys ← copy_keys
    rows ← query env select_audits
    events ← lift (check_rows keys.audit [] rows)
    pure (newest_first limit events)

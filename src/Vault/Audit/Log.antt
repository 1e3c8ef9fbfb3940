-- ===== src/Vault/Audit/Log.antt =====
-- A log that is chained stays chained, and ListAudit returns what was recorded.
use vibe_coding_secret_manag.Prelude.{
  ℕ, ◌≡◌, refl, sym, ap, ◌∙◌, false, List, [], ◌∷◌, ◌++◌, some, arith, Bytes, subst,
}
use vibe_coding_secret_manag.Outcome.{ok}
use vibe_coding_secret_manag.Model.{AuditEvent}
use vibe_coding_secret_manag.Machine.Tables.{AuditRow, Db}
use vibe_coding_secret_manag.Machine.Env.{Env, Json}
use vibe_coding_secret_manag.Machine.Exec.{KeySet, Machine, copy_keys, query, ◌>>=◌}
use vibe_coding_secret_manag.Machine.Rules.{keyed_transaction-ok}
use vibe_coding_secret_manag.Vault.Rows.{by_time, select_audits}
use vibe_coding_secret_manag.Vault.Audit.Append.{Appended, append_audit-Appended}
use vibe_coding_secret_manag.Vault.Audit.Chain.{
  Chained, Chained-concat, signature_after-last_hmac, check_rows_iff,
}
use vibe_coding_secret_manag.Vault.Audit.Order.{
  NoneLater, InOrder, by_time_last, newest_hmac-InOrder,
}
use vibe_coding_secret_manag.Vault.Audit.{
  or_empty, append_audit, record_audit, newest_first, list_audit,
}

-- Reading back what encoding/json wrote.
pub record ReadsBack {A : Type 0} (json : Json A) : Type 0 where
  pub reads : (a : A) (bytes : Bytes) → json.marshal a ≡ some bytes → json.unmarshal bytes ≡ some a

-- The log in the order of time is chained, and holds these events.
abbrev pub HasLog : Env → Bytes → Db → List AuditEvent → Type 0
HasLog env key db events = Chained env key [] (by_time [] db.audits) events

module _ (env : Env) (json : ReadsBack env.event_json) (key : Bytes) (event : AuditEvent) where
  -- What appendAudit adds continues the chain, if it is not earlier than what is there.
  pub Appended-HasLog :
      {before after : Db} {row : AuditRow} (a : Appended env key event before after row)
      (events : List AuditEvent)
      → InOrder before.audits
      → NoneLater row.created_at before.audits
      → HasLog env key before events
      → HasLog env key after (events ++ record event { id = a.id; timestamp = some a.time } ∷ [])
  Appended-HasLog {before} {after} {row} a events ordered late log =
      let rows = by_time [] before.audits in
      let last : row.previous_hmac ≡ _ =
        a.names_last
        ∙ ap or_empty (newest_hmac-InOrder before.audits ordered)
        ∙ sym (signature_after-last_hmac env key rows) in
      let sorted : by_time [] after.audits ≡ rows ++ row ∷ [] =
        ap (λ (db : Db). by_time [] db.audits) a.tables ∙ by_time_last before.audits row late in
      subst
        (λ l.
          Chained env key [] l (events ++ record event { id = a.id; timestamp = some a.time } ∷ []))
        (sym sorted)
        (Chained-concat env key [] rows events row _ log (
          last,
          a.signed ∙ ap (λ (p : Bytes). env.hmac key (p ++ row.event_json)) last,
          json.reads _ _ a.encoded,
          tt,
        ))

Appended-between :
    {env : Env} {key : Bytes} {event : AuditEvent} {before before' after after' : Db}
    {row : AuditRow}
    → before' ≡ before
    → after' ≡ after
    → Appended env key event before' after row
    → Appended env key event before after' row
Appended-between {env} {key} {event} {before} {before'} {after} {after'} {row} p q a =
    subst (λ d. Appended env key event before d row) (sym q)
      (subst (λ d. Appended env key event d after row) p a)

module _ (env : Env) where
  -- ListAudit of an unlocked vault with a chained log returns its newest events, newest first.
  list_audit-HasLog :
      (keys : KeySet) (s : Machine) (limit : ℕ) (events : List AuditEvent)
      → s.keys ≡ some keys
      → env.fault s.calls ≡ false
      → HasLog env keys.audit s.db events
      → (list_audit env limit s).0 ≡ ok (newest_first limit events)
  unfolding list_audit copy_keys query select_audits ◌>>=◌
  list_audit-HasLog keys s limit events k f log =
      ground (arith, (check_rows_iff env keys.audit (by_time [] s.db.audits) [] events).1 log)

  -- On an unlocked vault with a chained log, whose rows were inserted in the order of their time
  -- stamps as texts, with no two stamps equal, an event that RecordAudit records under a stamp
  -- that is, as a text, before none of theirs is the newest that ListAudit then returns, with the
  -- rest of the log behind it, if events read back from their JSON and the query does not fail.
  pub list_audit-record_audit :
      (json : ReadsBack env.event_json) (keys : KeySet) (event : AuditEvent) (s t : Machine)
      (limit : ℕ) (events : List AuditEvent)
      → s.keys ≡ some keys
      → HasLog env keys.audit s.db events
      → InOrder s.db.audits
      → ((row : AuditRow)
          → t.db.audits ≡ s.db.audits ++ row ∷ []
          → NoneLater row.created_at s.db.audits)
      → record_audit env event s ≡ (ok tt, t)
      → env.fault t.calls ≡ false
      → (recorded : AuditEvent) × (recorded
          ≡ record event { id = recorded.id; timestamp = recorded.timestamp })
        × ((list_audit env limit t).0 ≡ ok (newest_first limit (events ++ recorded ∷ [])))
  unfolding record_audit
  list_audit-record_audit json keys event s t limit events k log ordered in_order h f =
      let (s', t', body, before, after) =
        keyed_transaction-ok env (λ k. append_audit env k.audit event) keys s t tt k h in
      let (row, a, kept) = append_audit-Appended env keys.audit event s' t' body in
      let a' = Appended-between (before.db) (after.db) a in
      let grown =
        Appended-HasLog env json keys.audit event a' events ordered
          (in_order row (ap (λ (db : Db). db.audits) a'.tables)) log in
      (
        record event { id = a'.id; timestamp = some a'.time },
        refl,
        list_audit-HasLog keys t limit _ (after.keys ∙ kept ∙ before.keys ∙ k) f grown,
      )

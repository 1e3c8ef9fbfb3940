-- ===== src/Vault/Audit/Append.antt =====
-- What an appendAudit that succeeds has done.
use vibe_coding_secret_manag.Prelude.{
  ◌≡◌, refl, ap, sym, ◌∙◌, [], ◌∷◌, ◌++◌, Option, none, some, arith, Bytes,
}
use vibe_coding_secret_manag.Outcome.{require-ok, bad_json, ok, require}
use vibe_coding_secret_manag.Model.{Time, AuditEvent}
use vibe_coding_secret_manag.Machine.Tables.{AuditRow, Db}
use vibe_coding_secret_manag.Machine.Env.{Env}
use vibe_coding_secret_manag.Machine.Exec.{Machine, lift, query, statement}
use vibe_coding_secret_manag.Machine.Rules.{
  >>=-elim, lift-ok, query-ok, statement-ok, Frame, Frame-ok, Frame-lift, Frame-query, frame_rules,
  Alike-trans,
}
use vibe_coding_secret_manag.Vault.Context.{random_id, stamp}
use vibe_coding_secret_manag.Vault.Rows.{newest_hmac, select_last_hmac, insert_audit}
use vibe_coding_secret_manag.Vault.Audit.{or_empty, event_id, event_time, append_audit}

-- One new row, which names the signature of the newest row and signs the event behind it.
-- `id` and `time` are the event's own, or what it lacked.
pub record Appended (env : Env) (key : Bytes) (event : AuditEvent) (before after : Db)
    (row : AuditRow) : Type 0 where
  pub tables : after ≡ record before { audits = before.audits ++ row ∷ [] }
  pub names_last : row.previous_hmac ≡ or_empty (newest_hmac before.audits)
  pub signed : row.event_hmac ≡ env.hmac key (row.previous_hmac ++ row.event_json)
  pub id : Bytes
  pub time : Time
  pub stamped : row.created_at ≡ stamp env time
  pub encoded :
      env.event_json.marshal (record event { id = id; timestamp = some time }) ≡ some row.event_json

pub Frame-event_id : (env : Env) (id : Bytes) → Frame (event_id env id)
unfolding event_id random_id
Frame-event_id env id = search frame_rules

pub Frame-event_time : (env : Env) (time : Option Time) → Frame (event_time env time)
unfolding event_time
Frame-event_time env none = search frame_rules
Frame-event_time env (some t) = search frame_rules

insert_audit-ok :
    (row : AuditRow) (before after : Db)
    → insert_audit row before ≡ ok (tt, after)
    → after ≡ record before { audits = before.audits ++ row ∷ [] }
unfolding insert_audit
insert_audit-ok row before after h = ground arith

module _ (env : Env) (key : Bytes) (event : AuditEvent) where
  abbrev row_of : Bytes → Time → Bytes → Option Bytes → AuditRow
  row_of id time encoded last = record {
    event_id = id;
    event_json = encoded;
    previous_hmac = or_empty last;
    event_hmac = env.hmac key (or_empty last ++ encoded);
    created_at = stamp env time;
  }

  abbrev full_event : Bytes → Time → AuditEvent
  full_event id time = record event { id = id; timestamp = some time }

  finish_append :
      (s s1 s2 s3 s4 t : Machine) (id : Bytes) (time : Time) (encoded : Bytes) (last : Option Bytes)
      → event_id env event.id s ≡ (ok id, s1)
      → event_time env event.timestamp s1 ≡ (ok time, s2)
      → lift (require bad_json (env.event_json.marshal (full_event id time))) s2 ≡ (ok encoded, s3)
      → query env select_last_hmac s3 ≡ (ok last, s4)
      → statement env (insert_audit (row_of id time encoded last)) s4 ≡ (ok tt, t)
      → (row : AuditRow) × Appended env key event s.db t.db row × (t.keys ≡ s.keys)
  unfolding select_last_hmac
  finish_append s s1 s2 s3 s4 t id time encoded last e1 e2 e3 e4 h =
      let a3 =
        Alike-trans
          (Alike-trans (Frame-ok (Frame-event_id env event.id) e1)
            (Frame-ok (Frame-event_time env event.timestamp) e2))
          (Frame-ok (Frame-lift _) e3) in
      let a4 = Alike-trans a3 (Frame-ok (Frame-query env select_last_hmac) e4) in
      let (inserted, kept) = statement-ok env _ s4 t tt h in
      let row = row_of id time encoded last in
      let found = query-ok env select_last_hmac s3 s4 e4 in
      let last_is : newest_hmac s3.db.audits ≡ last = cc found in
      (
        row,
        record {
          tables =
              insert_audit-ok row s4.db t.db inserted
              ∙ ap (λ (db : Db). record db { audits = db.audits ++ row ∷ [] }) a4.db;
          names_last =
              ap or_empty (sym last_is) ∙ ap (λ (db : Db). or_empty (newest_hmac db.audits)) a3.db;
          signed = refl;
          id = id;
          time = time;
          stamped = refl;
          encoded = require-ok bad_json _ (lift-ok _ e3).0;
        },
        kept ∙ a4.keys,
      )

  pub append_audit-Appended :
      (s t : Machine)
      → append_audit env key event s ≡ (ok tt, t)
      → (row : AuditRow) × Appended env key event s.db t.db row × (t.keys ≡ s.keys)
  unfolding append_audit
  append_audit-Appended s t h = >>=-elim _ _ _ _ h λ id s1 e1 h1.
      >>=-elim _ _ _ _ h1 λ time s2 e2 h2. >>=-elim _ _ _ _ h2 λ encoded s3 e3 h3.
        >>=-elim _ _ _ _ h3
          λ last s4 e4 h4. finish_append s s1 s2 s3 s4 t id time encoded last e1 e2 e3 e4 h4

-- ===== src/Vault/Rows.antt =====
-- The SQL statements of internal/vault/store.go, each as a function on the tables.
use vibe_coding_secret_manag.Prelude.{
  ℕ, ◌+◌, Bool, false, ◌&&◌, ◌||◌, List, [], ◌∷◌, ◌++◌, map, Option, none, some, Bytes, equal,
  text_ltb, ◌==◌, ltb, if◌then◌else◌,
}
use vibe_coding_secret_manag.Outcome.{
  no_rows, unique_violation, foreign_key_violation, Result, ok, err, require,
}
use vibe_coding_secret_manag.Machine.Tables.{
  Kind, same_kind, VersionState, active, is_active, WrapperRow, ObjectRow, VersionRow, AuditRow, Db,
}

-- INSERT INTO vault_metadata; `key` is the primary key.
unfoldable pub has_key : Bytes → List (Bytes × Bytes) → Bool
has_key key [] = false
has_key key ((k, v) ∷ rest) = equal k key || has_key key rest

unfoldable pub insert_metadata : Bytes → Bytes → Db → Result (Unit {0} × Db)
unfolding has_key
insert_metadata key value db =
    if has_key key db.metadata
    then err unique_violation
    else ok (tt, record db { metadata = db.metadata ++ (key, value) ∷ [] })

-- SELECT value FROM vault_metadata WHERE key=?
unfoldable pub find_value : Bytes → List (Bytes × Bytes) → Option Bytes
find_value key [] = none
find_value key ((k, v) ∷ rest) = if equal k key then some v else find_value key rest

unfoldable pub select_metadata : Bytes → Db → Result Bytes
unfolding find_value
select_metadata key db = require no_rows (find_value key db.metadata)

-- INSERT INTO key_wrappers; `wrapper_id` is the primary key.
has_wrapper : Bytes → List WrapperRow → Bool
has_wrapper id [] = false
has_wrapper id (row ∷ rest) = equal row.wrapper_id id || has_wrapper id rest

unfoldable pub insert_wrapper : WrapperRow → Db → Result (Unit {0} × Db)
unfolding has_wrapper
insert_wrapper row db =
    if has_wrapper row.wrapper_id db.wrappers
    then err unique_violation
    else ok (tt, record db { wrappers = db.wrappers ++ row ∷ [] })

-- SELECT ... FROM key_wrappers WHERE active=1 ORDER BY created_at DESC LIMIT 1. Every wrapper that
-- the program inserts has the type that the query asks for.
newest_wrapper : Option WrapperRow → List WrapperRow → Option WrapperRow
newest_wrapper best [] = best
newest_wrapper none (row ∷ rest) = newest_wrapper (if row.is_active then some row else none) rest
newest_wrapper (some best) (row ∷ rest) =
    newest_wrapper
      (some (if row.is_active && text_ltb best.created_at row.created_at then row else best)) rest

unfoldable pub select_wrapper : Db → Result WrapperRow
unfolding newest_wrapper
select_wrapper db = require no_rows (newest_wrapper none db.wrappers)

-- INSERT INTO encrypted_objects: `object_id` is the primary key, and (object_type, lookup_token) is
-- unique.
abbrev pub clashes : ObjectRow → ObjectRow → Bool
clashes row other =
    equal other.object_id row.object_id
    || same_kind other.object_type row.object_type && equal other.lookup_token row.lookup_token

unfoldable pub has_clash : ObjectRow → List ObjectRow → Bool
has_clash row [] = false
has_clash row (other ∷ rest) = clashes row other || has_clash row rest

unfoldable pub insert_object : ObjectRow → Db → Result (Unit {0} × Db)
insert_object row db =
    if has_clash row db.objects
    then err unique_violation
    else ok (tt, record db { objects = db.objects ++ row ∷ [] })

-- SELECT ... FROM encrypted_objects WHERE object_type=? AND lookup_token=?
unfoldable pub find_token : Kind → Bytes → List ObjectRow → Option ObjectRow
find_token kind token [] = none
find_token kind token (row ∷ rest) =
    if same_kind row.object_type kind && equal row.lookup_token token
    then some row
    else find_token kind token rest

unfoldable pub select_object : Kind → Bytes → Db → Result ObjectRow
select_object kind token db = require no_rows (find_token kind token db.objects)

-- SELECT ... FROM encrypted_objects WHERE object_id=?
unfoldable pub find_id : Bytes → List ObjectRow → Option ObjectRow
find_id id [] = none
find_id id (row ∷ rest) = if equal row.object_id id then some row else find_id id rest

unfoldable pub select_object_by_id : Bytes → Db → Result ObjectRow
select_object_by_id id db = require no_rows (find_id id db.objects)

-- SELECT ... FROM encrypted_objects WHERE object_type=?
of_kind : Kind → List ObjectRow → List ObjectRow
of_kind kind [] = []
of_kind kind (row ∷ rest) =
    let others = of_kind kind rest in
    if same_kind row.object_type kind then row ∷ others else others

unfoldable pub select_objects : Kind → Db → Result (List ObjectRow)
unfolding of_kind
select_objects kind db = ok (of_kind kind db.objects)

-- UPDATE encrypted_objects SET metadata_nonce=?, metadata_ciphertext=?, revision=?, updated_at=?
unfoldable pub change_object : Bytes → Bytes → ℕ → Bytes → ObjectRow → ObjectRow
change_object nonce ciphertext revision stamp row = record row {
  metadata_nonce = nonce;
  metadata_ciphertext = ciphertext;
  revision = revision;
  updated_at = stamp;
}

-- ... WHERE object_id=?
unfoldable pub update_object : (ObjectRow → ObjectRow) → Bytes → Db → Result (Unit {0} × Db)
update_object change id db = ok (
  tt,
  record db {
    objects = map (λ row. if equal row.object_id id then change row else row) db.objects;
  },
)

-- ... WHERE object_id=? AND revision=?, with the number of rows that it changed
abbrev pub is_at : Bytes → ℕ → ObjectRow → Bool
is_at id revision row = equal row.object_id id && row.revision == revision

unfoldable pub count_at : Bytes → ℕ → List ObjectRow → ℕ
count_at id revision [] = 0
count_at id revision (row ∷ rest) =
    (if is_at id revision row then 1 else 0) + count_at id revision rest

unfoldable pub update_object_at : (ObjectRow → ObjectRow) → Bytes → ℕ → Db → Result (ℕ × Db)
update_object_at change id revision db = ok (
  count_at id revision db.objects,
  record db { objects = map (λ row. if is_at id revision row then change row else row) db.objects },
)

-- INSERT INTO secret_versions: `version_id` is the primary key, (secret_id, version_number) is
-- unique, and `secret_id` refers to an object.
unfoldable pub has_version : VersionRow → List VersionRow → Bool
has_version row [] = false
has_version row (other ∷ rest) =
    (equal other.version_id row.version_id
      || equal other.secret_id row.secret_id && other.version_number == row.version_number)
    || has_version row rest

unfoldable pub insert_version : VersionRow → Db → Result (Unit {0} × Db)
insert_version row db =
    if has_version row db.versions
    then err unique_violation
    else elim (find_id row.secret_id db.objects) [
      | none ↦ err foreign_key_violation
      | some object ↦ ok (tt, record db { versions = db.versions ++ row ∷ [] })
    ]

-- UPDATE secret_versions SET state=?, retired_at=? WHERE secret_id=? AND state='active'
abbrev pub is_active_of : Bytes → VersionRow → Bool
is_active_of id row = equal row.secret_id id && is_active row.state

unfoldable pub close_active : VersionState → Bytes → Bytes → Db → Result (Unit {0} × Db)
close_active state id stamp db = ok (
  tt,
  record db {
    versions =
        map
          (λ row.
            if is_active_of id row
            then record row { state = state; retired_at = some stamp }
            else row)
          db.versions;
  },
)

-- UPDATE secret_versions SET state='active', activated_at=? WHERE version_id=?
unfoldable pub activate : Bytes → Bytes → Db → Result (Unit {0} × Db)
activate version_id stamp db = ok (
  tt,
  record db {
    versions =
        map
          (λ row.
            if equal row.version_id version_id
            then record row { state = active; activated_at = some stamp }
            else row)
          db.versions;
  },
)

-- SELECT ... FROM secret_versions WHERE secret_id=? AND state='active'
-- ORDER BY version_number DESC LIMIT 1
unfoldable pub newest_active : Bytes → Option VersionRow → List VersionRow → Option VersionRow
newest_active id best [] = best
newest_active id none (row ∷ rest) =
    newest_active id (if is_active_of id row then some row else none) rest
newest_active id (some best) (row ∷ rest) =
    newest_active id
      (some
        (if is_active_of id row && ltb best.version_number row.version_number then row else best))
      rest

unfoldable pub select_active : Bytes → Db → Result VersionRow
select_active id db = require no_rows (newest_active id none db.versions)

-- INSERT INTO audit_events; `event_id` is the primary key.
unfoldable pub has_event : Bytes → List AuditRow → Bool
has_event id [] = false
has_event id (row ∷ rest) = equal row.event_id id || has_event id rest

unfoldable pub insert_audit : AuditRow → Db → Result (Unit {0} × Db)
insert_audit row db =
    if has_event row.event_id db.audits
    then err unique_violation
    else ok (tt, record db { audits = db.audits ++ row ∷ [] })

-- ORDER BY created_at ASC; rows with one time stamp stay in the order of insertion.
unfoldable pub place : AuditRow → List AuditRow → List AuditRow
place row [] = row ∷ []
place row (other ∷ rest) =
    let later = place row rest in
    if text_ltb row.created_at other.created_at then row ∷ other ∷ rest else other ∷ later

unfoldable pub by_time : List AuditRow → List AuditRow → List AuditRow
unfolding place
by_time sorted [] = sorted
by_time sorted (row ∷ rows) = by_time (place row sorted) rows

unfoldable pub select_audits : Db → Result (List AuditRow)
unfolding by_time
select_audits db = ok (by_time [] db.audits)

-- The row with the latest time stamp; among equal stamps, that which was inserted first.
unfoldable pub newest_audit : AuditRow → List AuditRow → AuditRow
newest_audit best [] = best
newest_audit best (row ∷ rest) =
    newest_audit (if text_ltb best.created_at row.created_at then row else best) rest

unfoldable pub newest_hmac : List AuditRow → Option Bytes
unfolding newest_audit
newest_hmac [] = none
newest_hmac (row ∷ rest) = some (newest_audit row rest).event_hmac

-- SELECT event_hmac FROM audit_events ORDER BY created_at DESC LIMIT 1
unfoldable pub select_last_hmac : Db → Result (Option Bytes)
unfolding newest_hmac
select_last_hmac db = ok (newest_hmac db.audits)

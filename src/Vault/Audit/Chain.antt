-- ===== src/Vault/Audit/Chain.antt =====
-- The chain of signatures: what ListAudit accepts, and what appendAudit adds.
use vibe_coding_secret_manag.Prelude.{
  ◌≡◌, ◌↔◌, refl, List, [], ◌∷◌, ◌++◌, some, arith, Bytes, equal_iff,
}
use vibe_coding_secret_manag.Outcome.{ok}
use vibe_coding_secret_manag.Model.{AuditEvent}
use vibe_coding_secret_manag.Machine.Tables.{AuditRow}
use vibe_coding_secret_manag.Machine.Env.{Env}
use vibe_coding_secret_manag.Vault.Audit.Order.{last_hmac}
use vibe_coding_secret_manag.Vault.Audit.{or_empty, check_rows, read_event}

module _ (env : Env) (key : Bytes) where
  -- Each row names the signature of the row before it, signs that and its own event, and holds an
  -- event that can be read.
  abbrev pub Chained : Bytes → List AuditRow → List AuditEvent → Type 0
  Chained previous [] [] = Unit {0}
  Chained previous (row ∷ rows) (event ∷ events) =
      (row.previous_hmac ≡ previous)
      × (row.event_hmac ≡ env.hmac key (previous ++ row.event_json))
      × (env.event_json.unmarshal row.event_json ≡ some event)
      × Chained row.event_hmac rows events
  Chained previous _ _ = ⊥

  accepts :
      (rows : List AuditRow) (previous : Bytes) (events : List AuditEvent)
      → Chained previous rows events
      → check_rows env key previous rows ≡ ok events
  unfolding check_rows read_event
  accepts [] previous [] c = refl
  accepts [] previous (event ∷ events) c = absurd c
  accepts (row ∷ rows) previous [] c = absurd c
  accepts (row ∷ rows) previous (event ∷ events) c = ground (
    arith,
    accepts rows row.event_hmac events c.3,
    equal_iff row.previous_hmac previous,
    equal_iff row.event_hmac (env.hmac key (previous ++ row.event_json)),
  )

  accepted :
      (rows : List AuditRow) (previous : Bytes) (events : List AuditEvent)
      → check_rows env key previous rows ≡ ok events
      → Chained previous rows events
  unfolding check_rows read_event
  accepted [] previous [] c = tt
  accepted [] previous (event ∷ events) c = absurd (cc)
  accepted (row ∷ rows) previous [] c = ground arith
  accepted (row ∷ rows) previous (event ∷ events) c = ground (
    arith,
    accepted rows row.event_hmac events,
    equal_iff row.previous_hmac previous,
    equal_iff row.event_hmac (env.hmac key (previous ++ row.event_json)),
  )

  -- The check of ListAudit accepts rows, and reads these events from them, exactly where the rows
  -- are chained: each names the signature before it, is signed over that and its own JSON, and
  -- reads as its event.
  pub check_rows_iff :
      (rows : List AuditRow) (previous : Bytes) (events : List AuditEvent)
      → (check_rows env key previous rows ≡ ok events) ↔ Chained previous rows events
  check_rows_iff rows previous events =
      (accepted rows previous events, accepts rows previous events)

  -- The signature that the next row has to name.
  abbrev pub signature_after : Bytes → List AuditRow → Bytes
  signature_after previous [] = previous
  signature_after previous (row ∷ rows) = signature_after row.event_hmac rows

  pub Chained-concat :
      (previous : Bytes) (rows : List AuditRow) (events : List AuditEvent) (row : AuditRow)
      (event : AuditEvent)
      → Chained previous rows events
      → Chained (signature_after previous rows) (row ∷ []) (event ∷ [])
      → Chained previous (rows ++ row ∷ []) (events ++ event ∷ [])
  Chained-concat previous [] [] row event c last = last
  Chained-concat previous [] (e ∷ events) row event c last = absurd c
  Chained-concat previous (r ∷ rows) [] row event c last = absurd c
  Chained-concat previous (r ∷ rows) (e ∷ events) row event c last =
      (c.0, c.1, c.2, Chained-concat r.event_hmac rows events row event c.3 last)

  pub signature_after-last_hmac :
      (rows : List AuditRow) → signature_after [] rows ≡ or_empty (last_hmac rows)
  signature_after-last_hmac [] = refl
  signature_after-last_hmac (row ∷ []) = refl
  signature_after-last_hmac (row ∷ other ∷ rows) = signature_after-last_hmac (other ∷ rows)

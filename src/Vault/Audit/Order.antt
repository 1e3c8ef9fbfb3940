-- ===== src/Vault/Audit/Order.antt =====
-- Where a new audit row stands in the order of time.
use vibe_coding_secret_manag.Prelude.{
  ◌≡◌, refl, ap, sym, ◌∙◌, true, false, List, [], ◌∷◌, ◌++◌, arith, Bytes, text_ltb, Option, none,
  some, append-nil, append_assoc,
}
use vibe_coding_secret_manag.Machine.Tables.{AuditRow}
use vibe_coding_secret_manag.Vault.Rows.{by_time, place, newest_audit, newest_hmac}

-- The signature of the last row.
abbrev pub last_hmac : List AuditRow → Option Bytes
last_hmac [] = none
last_hmac (row ∷ []) = some row.event_hmac
last_hmac (row ∷ other ∷ rest) = last_hmac (other ∷ rest)

-- No row of the list has a later time stamp than `at`.
abbrev pub NoneLater : Bytes → List AuditRow → Type 0
NoneLater at [] = Unit {0}
NoneLater at (row ∷ rows) = (text_ltb at row.created_at ≡ false) × NoneLater at rows

place_last :
    (row : AuditRow) (rows : List AuditRow)
    → NoneLater row.created_at rows
    → place row rows ≡ rows ++ row ∷ []
unfolding place
place_last row [] h = refl
place_last row (other ∷ rows) h = rw h.0 (ap (◌∷◌ other) (place_last row rows h.1))

NoneLater-place :
    (at : Bytes) (row : AuditRow) (rows : List AuditRow)
    → text_ltb at row.created_at ≡ false
    → NoneLater at rows
    → NoneLater at (place row rows)
unfolding place
NoneLater-place at row [] h k = (h, tt)
NoneLater-place at row (other ∷ rows) h k = ground (arith, NoneLater-place at row rows h k.1)

NoneLater-by_time :
    (at : Bytes) (sorted rows : List AuditRow)
    → NoneLater at sorted
    → NoneLater at rows
    → NoneLater at (by_time sorted rows)
unfolding by_time
NoneLater-by_time at sorted [] h k = h
NoneLater-by_time at sorted (row ∷ rows) h k =
    NoneLater-by_time at (place row sorted) rows (NoneLater-place at row sorted k.0 h) k.1

by_time-concat :
    (sorted rows : List AuditRow) (row : AuditRow)
    → by_time sorted (rows ++ row ∷ []) ≡ place row (by_time sorted rows)
unfolding by_time
by_time-concat sorted [] row = refl
by_time-concat sorted (r ∷ rows) row = by_time-concat (place r sorted) rows row

-- The rows were inserted in the order of their time stamps, no two of which are equal.
abbrev pub AllLater : Bytes → List AuditRow → Type 0
AllLater at [] = Unit {0}
AllLater at (row ∷ rows) = (text_ltb at row.created_at ≡ true) × AllLater at rows

abbrev pub InOrder : List AuditRow → Type 0
InOrder [] = Unit {0}
InOrder (row ∷ rows) = AllLater row.created_at rows × InOrder rows

ltb_asym : (s t : Bytes) → text_ltb s t ≡ true → text_ltb t s ≡ false
unfolding text_ltb
ltb_asym s [] h = absurd (cc)
ltb_asym [] (d ∷ t) h = refl
ltb_asym (c ∷ s) (d ∷ t) h = ground (arith, ltb_asym s t)

-- Each row of the list is earlier than all that come behind it in the other list.
EachEarlier : List AuditRow → List AuditRow → Type 0
EachEarlier [] rows = Unit {0}
EachEarlier (row ∷ sorted) rows = AllLater row.created_at rows × EachEarlier sorted rows

EachEarlier-NoneLater :
    (sorted : List AuditRow) (row : AuditRow) (rows : List AuditRow)
    → EachEarlier sorted (row ∷ rows)
    → NoneLater row.created_at sorted
unfolding EachEarlier
EachEarlier-NoneLater [] row rows h = tt
EachEarlier-NoneLater (first ∷ sorted) row rows h =
    (ltb_asym first.created_at row.created_at h.0.0, EachEarlier-NoneLater sorted row rows h.1)

EachEarlier-append :
    (sorted : List AuditRow) (row : AuditRow) (rows : List AuditRow)
    → EachEarlier sorted (row ∷ rows)
    → AllLater row.created_at rows
    → EachEarlier (sorted ++ row ∷ []) rows
unfolding EachEarlier
EachEarlier-append [] row rows h k = (k, tt)
EachEarlier-append (first ∷ sorted) row rows h k = (h.0.1, EachEarlier-append sorted row rows h.1 k)

by_time-ordered :
    (sorted rows : List AuditRow)
    → EachEarlier sorted rows
    → InOrder rows
    → by_time sorted rows ≡ sorted ++ rows
unfolding by_time
by_time-ordered sorted [] h k = sym (append-nil sorted)
by_time-ordered sorted (row ∷ rows) h k =
    ap (λ l. by_time l rows) (place_last row sorted (EachEarlier-NoneLater sorted row rows h))
    ∙ by_time-ordered (sorted ++ row ∷ []) rows (EachEarlier-append sorted row rows h k.0) k.1
    ∙ append_assoc sorted (row ∷ []) rows

-- Rows that were inserted in the order of their time stamps are in the order of time.
pub by_time-InOrder : (rows : List AuditRow) → InOrder rows → by_time [] rows ≡ rows
unfolding EachEarlier
by_time-InOrder rows h = by_time-ordered [] rows tt h

newest_hmac_last :
    (row : AuditRow) (rows : List AuditRow)
    → InOrder (row ∷ rows)
    → some (newest_audit row rows).event_hmac ≡ last_hmac (row ∷ rows)
unfolding newest_audit
newest_hmac_last row [] h = refl
newest_hmac_last row (next ∷ rows) h = rw (h.0.0, newest_audit) (newest_hmac_last next rows h.1)

-- Then the newest row is the last in the order of time.
pub newest_hmac-InOrder :
    (rows : List AuditRow) → InOrder rows → newest_hmac rows ≡ last_hmac (by_time [] rows)
unfolding newest_hmac by_time
newest_hmac-InOrder [] h = refl
newest_hmac-InOrder (row ∷ rows) h =
    newest_hmac_last row rows h ∙ ap last_hmac (sym (by_time-InOrder (row ∷ rows) h))

-- A row that is not earlier than any comes last.
pub by_time_last :
    (rows : List AuditRow) (row : AuditRow)
    → NoneLater row.created_at rows
    → by_time [] (rows ++ row ∷ []) ≡ by_time [] rows ++ row ∷ []
by_time_last rows row h =
    by_time-concat [] rows row ∙ place_last row _ (NoneLater-by_time row.created_at [] rows tt h)

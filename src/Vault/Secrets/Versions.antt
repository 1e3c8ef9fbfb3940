-- ===== src/Vault/Secrets/Versions.antt =====
-- The rows of `secret_versions` under the statements that change their state.
use vibe_coding_secret_manag.Prelude.{
  ℕ, ◌+◌, ◌≡◌, refl, ap₂, true, false, List, [], ◌∷◌, ◌++◌, map, none, some, arith, Bytes, equal,
  equal_iff, if◌then◌else◌,
}
use vibe_coding_secret_manag.Machine.Tables.{VersionState, active, is_active, VersionRow}
use vibe_coding_secret_manag.Vault.Rows.{has_version, is_active_of, newest_active}

-- How many active versions a secret has.
abbrev pub count_active : Bytes → List VersionRow → ℕ
count_active id [] = 0
count_active id (row ∷ rows) = (if is_active_of id row then 1 else 0) + count_active id rows

abbrev pub close_row : VersionState → Bytes → Bytes → VersionRow → VersionRow
close_row state id at row =
    if is_active_of id row then record row { state = state; retired_at = some at } else row

abbrev pub activate_row : Bytes → Bytes → VersionRow → VersionRow
activate_row version_id at row =
    if equal row.version_id version_id
    then record row { state = active; activated_at = some at }
    else row

pub count_active-append :
    (id : Bytes) (rows others : List VersionRow)
    → count_active id (rows ++ others) ≡ count_active id rows + count_active id others
count_active-append id [] others = omega arith
count_active-append id (row ∷ rows) others = omega (arith, count_active-append id rows others)

close_row_count :
    (state : VersionState) (id at j : Bytes) (row : VersionRow)
    → is_active state ≡ false
    → is_active_of j (close_row state id at row)
      ≡ (if equal id j then false else is_active_of j row)
close_row_count state id at j row h =
    ground (arith, equal_iff id j, equal_iff row.secret_id id, equal_iff row.secret_id j)

-- Closing the active versions of one secret leaves none active, and those of the others as they were.
pub count_active-close :
    (state : VersionState) (id at j : Bytes) (rows : List VersionRow)
    → is_active state ≡ false
    → count_active j (map (close_row state id at) rows)
      ≡ (if equal id j then 0 else count_active j rows)
count_active-close state id at j [] h = ground arith
count_active-close state id at j (row ∷ rows) h =
    rw (close_row_count state id at j row h, count_active-close state id at j rows h) (ground arith)

-- A version that is not there is not activated.
pub activate_absent :
    (version : VersionRow) (state : VersionState) (id at : Bytes) (rows : List VersionRow)
    → has_version version rows ≡ false
    → map (activate_row version.version_id at) (map (close_row state id at) rows)
      ≡ map (close_row state id at) rows
unfolding has_version
activate_absent version state id at [] h = refl
activate_absent version state id at (row ∷ rows) h =
    let same : activate_row version.version_id at (close_row state id at row)
        ≡ close_row state id at row =
      ground arith in
    ap₂ ◌∷◌ same (activate_absent version state id at rows (ground arith))

pub newest_active-none :
    (id : Bytes) (rows : List VersionRow)
    → count_active id rows ≡ 0
    → newest_active id none rows ≡ none
unfolding newest_active
newest_active-none id [] h = refl
newest_active-none id (row ∷ rows) h = ground (arith, newest_active-none id rows)

-- The one active version is the newest.
pub newest_active_last :
    (id : Bytes) (rows : List VersionRow) (row : VersionRow)
    → count_active id rows ≡ 0
    → is_active_of id row ≡ true
    → newest_active id none (rows ++ row ∷ []) ≡ some row
unfolding newest_active
newest_active_last id [] row h k = rw k
newest_active_last id (other ∷ rows) row h k = ground (arith, newest_active_last id rows row)

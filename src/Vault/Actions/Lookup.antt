-- ===== src/Vault/Actions/Lookup.antt =====
-- What GetAction finds in tables that PutAction has changed.
use vibe_coding_secret_manag.Prelude.{
  ℕ, ◌+◌, ◌≡◌, refl, false, List, [], ◌∷◌, ◌++◌, map, some, arith, Bytes, equal, equal_refl,
  equal_iff, Bool-cases, inl, inr, if◌then◌else◌,
}
use vibe_coding_secret_manag.Model.{Scope}
use vibe_coding_secret_manag.Machine.Tables.{Kind, action, ObjectRow}
use vibe_coding_secret_manag.Machine.Env.{Env}
use vibe_coding_secret_manag.Machine.Exec.{
  KeySet, Machine, lift, query, no_rows_as, copy_keys, ◌>>=◌,
}
use vibe_coding_secret_manag.Vault.Rows.{
  find_token, find_id, has_clash, select_object, select_object_by_id,
}
use vibe_coding_secret_manag.Vault.Context.{action_lookup}
use vibe_coding_secret_manag.Vault.Actions.{open_action, get_action_by_id, get_action}
use vibe_coding_secret_manag.Vault.Secrets.Prepared.{KeepsPlace}

-- An object that was not there is found behind the others.
pub find_id-last :
    (rows : List ObjectRow) (row : ObjectRow)
    → has_clash row rows ≡ false
    → find_id row.object_id (rows ++ row ∷ []) ≡ some row
unfolding find_id has_clash
find_id-last [] row h = ground (arith, equal_refl row.object_id)
find_id-last (other ∷ rows) row h = ground (arith, find_id-last rows row)

-- The row that a token leads to is found by its id, or one before it with the same id.
pub find_id-find_token :
    (kind : Kind) (token : Bytes) (rows : List ObjectRow) (row : ObjectRow)
    → find_token kind token rows ≡ some row
    → (first : ObjectRow) × (find_id row.object_id rows ≡ some first)
unfolding find_token find_id
find_id-find_token kind token [] row h = absurd (cc)
find_id-find_token kind token (other ∷ rows) row h =
    elim (Bool-cases (equal other.object_id row.object_id)) [
      | inl e ↦ (other, rw e refl)
      | inr e ↦
          let h' : find_token kind token rows ≡ some row =
            ground (arith, h, e, equal_refl row.object_id) in
          let (first, found) = find_id-find_token kind token rows row h' in (first, rw e found)
    ]

pub find_id-map :
    (change : ObjectRow → ObjectRow) (id : Bytes) (rows : List ObjectRow) (row : ObjectRow)
    → KeepsPlace change
    → find_id id rows ≡ some row
    → find_id id (map (λ r. if equal r.object_id id then change r else r) rows) ≡ some (change row)
unfolding find_id
find_id-map change id [] row k h = absurd (cc)
find_id-map change id (other ∷ rows) row k h =
    ground (arith, k.object_id other, find_id-map change id rows row k)

pub find_id_is :
    (id : Bytes) (rows : List ObjectRow) (row : ObjectRow)
    → find_id id rows ≡ some row
    → row.object_id ≡ id
unfolding find_id
find_id_is id [] row h = absurd (cc)
find_id_is id (other ∷ rows) row h =
    ground (arith, h, equal_iff other.object_id id, find_id_is id rows row)

module _ (env : Env) (keys : KeySet) (up : (n : ℕ) → env.fault n ≡ false) where
  pub get_action_found :
      (scope : Scope) (name : Bytes) (t : Machine) (row stored : ObjectRow)
      → t.keys ≡ some keys
      → find_token action (action_lookup env keys.lookup scope name) t.db.objects ≡ some row
      → find_id row.object_id t.db.objects ≡ some stored
      → (get_action env scope name t).0 ≡ open_action env keys stored row.revision
  unfolding get_action get_action_by_id query no_rows_as lift ◌>>=◌ copy_keys select_object
      select_object_by_id
  get_action_found scope name t row stored k f g = rw (k, up t.calls, f, up (t.calls + 1), g) refl

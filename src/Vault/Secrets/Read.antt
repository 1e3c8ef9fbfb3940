-- ===== src/Vault/Secrets/Read.antt =====
-- What the lookup of ResolveSecrets finds in tables that an operation on secrets has changed.
use vibe_coding_secret_manag.Prelude.{
  ℕ, ◌+◌, ◌≡◌, refl, sym, ap, subst, ◌∙◌, Bool, false, List, [], ◌∷◌, ◌++◌, map, none, some, arith,
  Bytes, equal, equal_refl, if◌then◌else◌,
}
use vibe_coding_secret_manag.Outcome.{require-ok, Error, no_active_version, ok, err, no_rows}
use vibe_coding_secret_manag.Model.{Scope, SecretMetadata}
use vibe_coding_secret_manag.Machine.Tables.{
  Kind, secret, active, retired, revoked, ObjectRow, VersionRow, Db,
}
use vibe_coding_secret_manag.Machine.Env.{Env}
use vibe_coding_secret_manag.Machine.Exec.{KeySet, Machine, Exec, lift, query, no_rows_as, ◌>>=◌}
use vibe_coding_secret_manag.Machine.Rules.{>>=-elim, pure-ok, lift-ok, query-ok}
use vibe_coding_secret_manag.SecureCrypto.{open_sealed}
use vibe_coding_secret_manag.Vault.Rows.{
  find_token, select_object, select_active, newest_active, is_at, has_clash,
}
use vibe_coding_secret_manag.Vault.Context.{secret_aad, secret_lookup}
use vibe_coding_secret_manag.Vault.Secrets.{open_metadata, find_secret_metadata, resolve_one}
use vibe_coding_secret_manag.Vault.Secrets.Versions.{
  count_active, count_active-close, close_row, newest_active_last, newest_active-none,
}
use vibe_coding_secret_manag.Vault.Secrets.Effects.{Promoted, Revoked}
use vibe_coding_secret_manag.Vault.Secrets.Prepared.{KeepsPlace, Holds}

-- A changed row is still found by its lookup token.
pub find_token-map :
    (kind : Kind) (picks : ObjectRow → Bool) (change : ObjectRow → ObjectRow) (token : Bytes)
    (rows : List ObjectRow) (row : ObjectRow)
    → KeepsPlace change
    → find_token kind token rows ≡ some row
    → find_token kind token (map (λ r. if picks r then change r else r) rows)
      ≡ some (if picks row then change row else row)
unfolding find_token
find_token-map kind picks change token [] row k h = absurd (cc)
find_token-map kind picks change token (other ∷ rows) row k h =
    let same_type : (if picks other then change other else other).object_type ≡ other.object_type =
      ground (arith, k.object_type other) in
    let same : (if picks other then change other else other).lookup_token ≡ other.lookup_token =
      ground (arith, k.lookup_token other) in
    ground (arith, same_type, same, find_token-map kind picks change token rows row k)

pub no_rows_as-ok :
    {A : Type 0} (e : Error) (m : Exec A) (s t : Machine) {a : A}
    → no_rows_as e m s ≡ (ok a, t)
    → m s ≡ (ok a, t)
unfolding no_rows_as
no_rows_as-ok e m s t h = ground arith

module _ (env : Env) (keys : KeySet) where
  -- The name of an object leads to its row.
  abbrev pub Finds : Scope → Bytes → Db → ObjectRow → Type 0
  Finds scope name db row =
      find_token secret (secret_lookup env keys.lookup scope name) db.objects ≡ some row

  pub resolve_one_active :
      (scope : Scope) (name : Bytes) (s : Machine) (object : ObjectRow) (version : VersionRow)
      → ((n : ℕ) → env.fault n ≡ false)
      → Finds scope name s.db object
      → newest_active object.object_id none s.db.versions ≡ some version
      → (resolve_one env keys scope name s).0
        ≡ open_sealed env keys.dek version.value_nonce version.value_ciphertext
            (secret_aad object.object_id version.version_number)
  unfolding resolve_one query no_rows_as lift ◌>>=◌ select_object select_active
  resolve_one_active scope name s object version up f a = rw (up s.calls, f, up (s.calls + 1), a)

  resolve_one_inactive :
      (scope : Scope) (name : Bytes) (s : Machine) (object : ObjectRow)
      → ((n : ℕ) → env.fault n ≡ false)
      → Finds scope name s.db object
      → newest_active object.object_id none s.db.versions ≡ none
      → (resolve_one env keys scope name s).0 ≡ err no_active_version
  unfolding resolve_one query no_rows_as lift ◌>>=◌ select_object select_active
  resolve_one_inactive scope name s object up f a = rw (up s.calls, f, up (s.calls + 1), a)

  pub find_secret_metadata-Finds :
      (scope : Scope) (name : Bytes) (s t : Machine) (found : SecretMetadata) (revision : ℕ)
      → find_secret_metadata env keys scope name s ≡ (ok (found, revision), t)
      → (row : ObjectRow) × Finds scope name s.db row × (open_metadata env keys row ≡ ok found)
  unfolding find_secret_metadata select_object
  find_secret_metadata-Finds scope name s t found revision h = >>=-elim _ _ _ _ h λ row s1 e1 h1.
      >>=-elim _ _ _ _ h1 λ meta s2 e2 h2.
        let read = query-ok env _ s s1 (no_rows_as-ok _ _ s s1 e1) in
        (
          row,
          require-ok no_rows _ read,
          (lift-ok _ e2).0 ∙ ap (λ (p : SecretMetadata × ℕ). ok p.0) (sym (pure-ok h2).0),
        )

-- The metadata of a secret names the object that its row is.
abbrev pub NamesItself : Env → KeySet → Scope → Bytes → Db → Type 0
NamesItself env keys scope name db =
    (row : ObjectRow) (meta : SecretMetadata)
    → Finds env keys scope name db row
    → open_metadata env keys row ≡ ok meta
    → meta.id ≡ row.object_id

changed_id :
    (picks : ObjectRow → Bool) (change : ObjectRow → ObjectRow) (row : ObjectRow)
    → KeepsPlace change
    → (if picks row then change row else row).object_id ≡ row.object_id
changed_id picks change row k = ground (arith, k.object_id row)

Promoted-newest :
    {version : VersionRow} {change : ObjectRow → ObjectRow} {revision : ℕ} {before after : Db}
    → Promoted version change revision before after
    → newest_active version.secret_id none after.versions
      ≡ some (record version { state = active; activated_at = some version.created_at })
Promoted-newest {version} {before = before} p =
    let none_left : count_active version.secret_id
          (map (close_row retired version.secret_id version.created_at) before.versions)
        ≡ 0 =
      ground (
        arith,
        equal_refl version.secret_id,
        count_active-close retired version.secret_id version.created_at version.secret_id
            before.versions refl,
      ) in
    rw p.versions (
      newest_active_last version.secret_id _ _ none_left
        (ground (arith, equal_refl version.secret_id)))

module _ (env : Env) (keys : KeySet) (up : (n : ℕ) → env.fault n ≡ false) where
  pub resolve-Promoted :
      (scope : Scope) (name : Bytes) (before : Db) (t : Machine) (row : ObjectRow)
      (version : VersionRow) (change : ObjectRow → ObjectRow) (revision : ℕ) (value : Bytes)
      → Finds env keys scope name before row
      → version.secret_id ≡ row.object_id
      → KeepsPlace change
      → Holds env keys.dek version value
      → Promoted version change revision before t.db
      → (resolve_one env keys scope name t).0 ≡ ok value
  resolve-Promoted scope name before t row version change revision value f i k holds p =
      let moved : ObjectRow = if is_at version.secret_id revision row then change row else row in
      let found : Finds env keys scope name t.db moved = rw p.objects (
        find_token-map secret (is_at version.secret_id revision) change _ before.objects row k f) in
      let id : moved.object_id ≡ version.secret_id =
        changed_id (is_at version.secret_id revision) change row k ∙ sym i in
      let last : VersionRow = record version {
        state = active;
        activated_at = some version.created_at;
      } in
      resolve_one_active env keys scope name t moved last up found
        (subst (λ j. newest_active j none t.db.versions ≡ some last) (sym id) (Promoted-newest p))
      ∙ rw id holds

  pub resolve-Revoked :
      (scope : Scope) (name : Bytes) (before : Db) (t : Machine) (row : ObjectRow) (id at : Bytes)
      (change : ObjectRow → ObjectRow)
      → Finds env keys scope name before row
      → id ≡ row.object_id
      → KeepsPlace change
      → Revoked id change at before t.db
      → (resolve_one env keys scope name t).0 ≡ err no_active_version
  resolve-Revoked scope name before t row id at change f i k r =
      let picks = λ (x : ObjectRow). equal x.object_id id in
      let moved : ObjectRow = if picks row then change row else row in
      let found : Finds env keys scope name t.db moved =
        rw r.objects (find_token-map secret picks change _ before.objects row k f) in
      let same : moved.object_id ≡ id = changed_id picks change row k ∙ sym i in
      let gone : count_active id t.db.versions ≡ 0 =
        rw (r.versions, count_active-close revoked id at id before.versions refl, equal_refl id) in
      resolve_one_inactive env keys scope name t moved up found (
        subst (λ j. newest_active j none t.db.versions ≡ none) (sym same)
          (newest_active-none id t.db.versions gone))

-- A secret that was not there is found behind the others.
pub find_token-last :
    (kind : Kind) (rows : List ObjectRow) (row : ObjectRow)
    → row.object_type ≡ kind
    → has_clash row rows ≡ false
    → find_token kind row.lookup_token (rows ++ row ∷ []) ≡ some row
unfolding find_token has_clash
find_token-last kind [] row k h = ground (arith, k, equal_refl row.lookup_token)
find_token-last kind (other ∷ rows) row k h = ground (arith, k, find_token-last kind rows row k)

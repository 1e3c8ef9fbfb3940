-- ===== src/Vault/Invariant.antt =====
-- What holds of the tables between any two operations of internal/vault/store.go on secrets.
use vibe_coding_secret_manag.Prelude.{
  ℕ, ◌+◌, ◌≤◌, ◌≡◌, ◌≢◌, refl, sym, ap, subst, ◌∙◌, Bool, false, List, [], ◌∷◌, ◌++◌, map, none,
  some, arith, Bytes, equal, equal_iff, equal_refl, if◌then◌else◌,
}
use vibe_coding_secret_manag.Outcome.{ok}
use vibe_coding_secret_manag.Model.{Scope, SecretMetadata}
use vibe_coding_secret_manag.Machine.Tables.{active, retired, revoked, ObjectRow, VersionRow, Db}
use vibe_coding_secret_manag.Machine.Env.{Env}
use vibe_coding_secret_manag.Machine.Exec.{Machine}
use vibe_coding_secret_manag.Machine.Rules.{
  >>=-elim, pure-ok, copy_keys-ok, transaction-ok, Frame-ok,
}
use vibe_coding_secret_manag.Vault.Rows.{has_clash, find_id, is_at, is_active_of}
use vibe_coding_secret_manag.Vault.Secrets.{create_secret, rotate_secret, revoke_secret}
use vibe_coding_secret_manag.Vault.Secrets.Versions.{
  count_active, count_active-append, count_active-close, close_row,
}
use vibe_coding_secret_manag.Vault.Secrets.Effects.{
  Promoted, Created, Revoked, promote_version-Promoted, insert_secret-Created, close_secret-Revoked,
}
use vibe_coding_secret_manag.Vault.Secrets.Prepared.{
  KeepsPlace, prepare_create-NewSecret, prepare_rotate-NewVersion, prepare_revoke-KeepsPlace,
}
use vibe_coding_secret_manag.Vault.Frames.{
  Frame-find_secret_metadata, Frame-prepare_create, Frame-prepare_rotate, Frame-prepare_revoke,
}

-- A secret has at most one active version, and an active version belongs to a stored object.
pub record IsWellFormed (db : Db) : Type 0 where
  pub one_active : (id : Bytes) → count_active id db.versions ≤ 1
  pub referenced : (id : Bytes) → find_id id db.objects ≡ none → count_active id db.versions ≡ 0

pub find_id-append :
    (id : Bytes) (rows : List ObjectRow) (row : ObjectRow)
    → find_id id (rows ++ row ∷ []) ≡ none
    → find_id id rows ≡ none
unfolding find_id
find_id-append id [] row h = refl
find_id-append id (other ∷ rows) row h = ground (arith, find_id-append id rows row)

find_id-last :
    (rows : List ObjectRow) (row : ObjectRow) → find_id row.object_id (rows ++ row ∷ []) ≢ none
unfolding find_id
find_id-last [] row h = ground (arith, equal_refl row.object_id)
find_id-last (other ∷ rows) row h = ground (arith, find_id-last rows row)

pub has_clash-find_id :
    (row : ObjectRow) (rows : List ObjectRow)
    → has_clash row rows ≡ false
    → find_id row.object_id rows ≡ none
unfolding has_clash find_id
has_clash-find_id row [] h = refl
has_clash-find_id row (other ∷ rows) h = ground (arith, has_clash-find_id row rows)

-- A change of some rows that keeps their places does not make an object go away.
pub find_id-map :
    (picks : ObjectRow → Bool) (change : ObjectRow → ObjectRow) (id : Bytes) (rows : List ObjectRow)
    → KeepsPlace change
    → find_id id (map (λ row. if picks row then change row else row) rows) ≡ none
    → find_id id rows ≡ none
unfolding find_id
find_id-map picks change id [] k h = refl
find_id-map picks change id (row ∷ rows) k h =
    let same : (if picks row then change row else row).object_id ≡ row.object_id =
      ground (arith, k.object_id row) in
    ground (arith, same, find_id-map picks change id rows k)

counted_last :
    (id : Bytes) (row : VersionRow) (rows others : List VersionRow)
    → others ≡ rows ++ row ∷ []
    → count_active id others ≡ count_active id rows + (if is_active_of id row then 1 else 0)
counted_last id row rows others h = rw (h, count_active-append id rows (row ∷ [])) (omega arith)

pub Created-IsWellFormed :
    {object : ObjectRow} {version : VersionRow} {before after : Db}
    → Created object version before after
    → version.secret_id ≡ object.object_id
    → IsWellFormed before
    → IsWellFormed after
Created-IsWellFormed {object} {version} {before} {after} c v w =
    let fresh : count_active version.secret_id before.versions ≡ 0 =
      w.referenced version.secret_id (
        subst (λ id. find_id id before.objects ≡ none) (sym v)
          (has_clash-find_id object before.objects c.new_object)) in
    record {
      one_active = λ id.
          let n = counted_last id version before.versions after.versions c.versions in
          let at_most = w.one_active id in ground (arith, equal_iff version.secret_id id);
      referenced = λ id gone.
          let n = counted_last id version before.versions after.versions c.versions in
          let gone' = subst (λ objects. find_id id objects ≡ none) c.objects gone in
          let none_before = w.referenced id (find_id-append id before.objects object gone') in
          let other : object.object_id ≢ id = λ e.
            find_id-last before.objects object
              (subst (λ i. find_id i (before.objects ++ object ∷ []) ≡ none) (sym e) gone') in
          ground (arith, equal_iff version.secret_id id);
    }

pub Promoted-IsWellFormed :
    {version : VersionRow} {change : ObjectRow → ObjectRow} {revision : ℕ} {before after : Db}
    → Promoted version change revision before after
    → KeepsPlace change
    → IsWellFormed before
    → IsWellFormed after
Promoted-IsWellFormed {version} {change} {revision} {before} {after} p k w =
    let id' = version.secret_id in
    let last : VersionRow = record version {
      state = active;
      activated_at = some version.created_at;
    } in
    let closed = map (close_row retired id' version.created_at) before.versions in
    let count = λ (id : Bytes). counted_last id last closed after.versions p.versions in
    let closing =
      λ (id : Bytes). count_active-close retired id' version.created_at id before.versions refl in
    record {
      one_active = λ id.
          let n = count id in
          let c = closing id in let at_most = w.one_active id in ground (arith, equal_iff id' id);
      referenced = λ id gone.
          let n = count id in
          let c = closing id in
          let gone' =
            find_id-map (is_at id' revision) change id before.objects k
              (subst (λ objects. find_id id objects ≡ none) p.objects gone) in
          let none_before = w.referenced id gone' in
          let other : id' ≢ id =
            λ e. p.referenced (subst (λ i. find_id i before.objects ≡ none) (sym e) gone') in
          ground (arith, equal_iff id' id);
    }

pub Revoked-IsWellFormed :
    {id : Bytes} {change : ObjectRow → ObjectRow} {at : Bytes} {before after : Db}
    → Revoked id change at before after
    → KeepsPlace change
    → IsWellFormed before
    → IsWellFormed after
Revoked-IsWellFormed {id} {change} {at} {before} {after} r k w =
    let count = λ (j : Bytes).
      ap (count_active j) r.versions ∙ count_active-close revoked id at j before.versions refl in
    record {
      one_active = λ j. let n = count j in let at_most = w.one_active j in ground arith;
      referenced = λ j gone.
          let n = count j in
          let none_before = w.referenced j (
            find_id-map (λ row. equal row.object_id id) change j before.objects k
              (subst (λ objects. find_id j objects ≡ none) r.objects gone)) in
          ground arith;
    }

module _ (env : Env) where
  pub create_secret-IsWellFormed :
      (given : SecretMetadata) (value : Bytes) (s t : Machine) (meta : SecretMetadata)
      → create_secret env given value s ≡ (ok meta, t)
      → IsWellFormed s.db
      → IsWellFormed t.db
  unfolding create_secret
  create_secret-IsWellFormed given value s t meta h w = >>=-elim _ _ _ _ h λ keys s1 e1 h1.
      >>=-elim _ _ _ _ h1 λ made s2 e2 h2. >>=-elim _ _ _ _ h2 λ done s3 e3 h3.
        let new = prepare_create-NewSecret env keys given value s1 s2 made e2 in
        let like = Frame-ok (Frame-prepare_create env keys given value) e2 in
        let (s', t', ran, before, after) = transaction-ok env _ s2 s3 tt e3 in
        let (c, same) = insert_secret-Created env keys made.1 made.2 s' t' ran in
        let start =
          before.db ∙ like.db ∙ ap (λ (m : Machine). m.db) (copy_keys-ok s s1 keys e1).1 in
        let end = ap (λ (m : Machine). m.db) (pure-ok h3).1 ∙ after.db in
        subst IsWellFormed (sym end)
          (Created-IsWellFormed c new.version_of (subst IsWellFormed (sym start) w))

  pub rotate_secret-IsWellFormed :
      (scope : Scope) (name profile : Bytes) (strength : ℕ) (value : Bytes) (s t : Machine)
      (meta : SecretMetadata)
      → rotate_secret env scope name profile strength value s ≡ (ok meta, t)
      → IsWellFormed s.db
      → IsWellFormed t.db
  unfolding rotate_secret
  rotate_secret-IsWellFormed scope name profile strength value s t meta h w =
      >>=-elim _ _ _ _ h λ keys s1 e1 h1. >>=-elim _ _ _ _ h1 λ found s2 e2 h2.
        >>=-elim _ _ _ _ h2 λ made s3 e3 h3. >>=-elim _ _ _ _ h3 λ done s4 e4 h4.
          let new =
            prepare_rotate-NewVersion env keys found.0 found.1 profile strength value s2 s3 made
              e3 in
          let like = Frame-ok (Frame-find_secret_metadata env keys scope name) e2 in
          let like' =
            Frame-ok (Frame-prepare_rotate env keys found.0 found.1 profile strength value) e3 in
          let (s', t', ran, before, after) = transaction-ok env _ s3 s4 tt e4 in
          let (p, same) =
            promote_version-Promoted env keys made.1 made.2 found.1 s' t' new.state ran in
          let start =
            before.db
            ∙ like'.db
            ∙ like.db
            ∙ ap (λ (m : Machine). m.db) (copy_keys-ok s s1 keys e1).1 in
          let end = ap (λ (m : Machine). m.db) (pure-ok h4).1 ∙ after.db in
          subst IsWellFormed (sym end)
            (Promoted-IsWellFormed p new.keeps (subst IsWellFormed (sym start) w))

  pub revoke_secret-IsWellFormed :
      (scope : Scope) (name : Bytes) (s t : Machine) (meta : SecretMetadata)
      → revoke_secret env scope name s ≡ (ok meta, t)
      → IsWellFormed s.db
      → IsWellFormed t.db
  unfolding revoke_secret
  revoke_secret-IsWellFormed scope name s t meta h w = >>=-elim _ _ _ _ h λ keys s1 e1 h1.
      >>=-elim _ _ _ _ h1 λ found s2 e2 h2. >>=-elim _ _ _ _ h2 λ made s3 e3 h3.
        >>=-elim _ _ _ _ h3 λ done s4 e4 h4.
          let keeps = prepare_revoke-KeepsPlace env keys found.0 found.1 s2 s3 made e3 in
          let like = Frame-ok (Frame-find_secret_metadata env keys scope name) e2 in
          let like' = Frame-ok (Frame-prepare_revoke env keys found.0 found.1) e3 in
          let (s', t', ran, before, after) = transaction-ok env _ s3 s4 tt e4 in
          let (r, same) = close_secret-Revoked env keys made.0.id made.1 made.2 s' t' ran in
          let start =
            before.db
            ∙ like'.db
            ∙ like.db
            ∙ ap (λ (m : Machine). m.db) (copy_keys-ok s s1 keys e1).1 in
          let end = ap (λ (m : Machine). m.db) (pure-ok h4).1 ∙ after.db in
          subst IsWellFormed (sym end)
            (Revoked-IsWellFormed r keeps (subst IsWellFormed (sym start) w))

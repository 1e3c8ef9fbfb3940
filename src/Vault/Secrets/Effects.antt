-- ===== src/Vault/Secrets/Effects.antt =====
-- What the statements of each operation on secrets have done to the tables where they succeed.
use mathlib.Core.List.{map-append}
use vibe_coding_secret_manag.Prelude.{
  equal_refl, ℕ, ◌≡◌, ◌≢◌, ap, ◌∙◌, false, List, [], ◌∷◌, ◌++◌, map, none, some, arith, Bytes,
  equal, if◌then◌else◌,
}
use vibe_coding_secret_manag.Outcome.{Error, already_exists, ok}
use vibe_coding_secret_manag.Machine.Tables.{
  VersionState, active, pending, retired, revoked, ObjectRow, VersionRow, Db,
}
use vibe_coding_secret_manag.Machine.Env.{Env}
use vibe_coding_secret_manag.Machine.Exec.{KeySet, Machine, Exec, unique_as}
use vibe_coding_secret_manag.Machine.Rules.{>>=-elim, lift-ok, statement-ok}
use vibe_coding_secret_manag.Vault.Rows.{
  insert_object, has_clash, find_id, insert_version, has_version, close_active, activate, is_at,
  update_object, update_object_at,
}
use vibe_coding_secret_manag.Vault.Audit.Append.{append_audit-Appended}
use vibe_coding_secret_manag.Vault.Secrets.Versions.{close_row, activate_row, activate_absent}
use vibe_coding_secret_manag.Vault.Secrets.{insert_secret, promote_version, close_secret}

insert_version-ok :
    (row : VersionRow) (before after : Db)
    → insert_version row before ≡ ok (tt, after)
    → (has_version row before.versions ≡ false)
      × (find_id row.secret_id before.objects ≢ none)
      × (after ≡ record before { versions = before.versions ++ row ∷ [] })
unfolding insert_version
insert_version-ok row before after h = (ground arith, ground arith, ground arith)

pub insert_object-ok :
    (row : ObjectRow) (before after : Db)
    → insert_object row before ≡ ok (tt, after)
    → (has_clash row before.objects ≡ false)
      × (after ≡ record before { objects = before.objects ++ row ∷ [] })
unfolding insert_object
insert_object-ok row before after h = (ground arith, ground arith)

close_active-ok :
    (state : VersionState) (id at : Bytes) (before after : Db)
    → close_active state id at before ≡ ok (tt, after)
    → after ≡ record before { versions = map (close_row state id at) before.versions }
unfolding close_active
close_active-ok state id at before after h = cc

activate-ok :
    (id at : Bytes) (before after : Db)
    → activate id at before ≡ ok (tt, after)
    → after ≡ record before { versions = map (activate_row id at) before.versions }
unfolding activate
activate-ok id at before after h = cc

pub update_object-ok :
    (change : ObjectRow → ObjectRow) (id : Bytes) (before after : Db)
    → update_object change id before ≡ ok (tt, after)
    → after ≡ record before {
      objects = map (λ row. if equal row.object_id id then change row else row) before.objects;
    }
unfolding update_object
update_object-ok change id before after h = cc

update_object_at-ok :
    (change : ObjectRow → ObjectRow) (id : Bytes) (revision count : ℕ) (before after : Db)
    → update_object_at change id revision before ≡ ok (count, after)
    → after ≡ record before {
      objects = map (λ row. if is_at id revision row then change row else row) before.objects;
    }
unfolding update_object_at
update_object_at-ok change id revision count before after h = cc

-- RotateSecret: the active versions of the secret are retired, and the new version is active behind
-- all the others.
pub record Promoted (version : VersionRow) (change : ObjectRow → ObjectRow) (revision : ℕ)
    (before after : Db) : Type 0 where
  pub new : has_version version before.versions ≡ false
  pub referenced : find_id version.secret_id before.objects ≢ none
  pub versions :
      after.versions
      ≡ map (close_row retired version.secret_id version.created_at) before.versions
        ++ record version { state = active; activated_at = some version.created_at } ∷ []
  pub objects :
      after.objects
      ≡ map (λ row. if is_at version.secret_id revision row then change row else row) before.objects

-- CreateSecret: one new object and one new version of it.
pub record Created (object : ObjectRow) (version : VersionRow) (before after : Db) : Type 0 where
  pub new_object : has_clash object before.objects ≡ false
  pub new : has_version version before.versions ≡ false
  pub versions : after.versions ≡ before.versions ++ version ∷ []
  pub objects : after.objects ≡ before.objects ++ object ∷ []

-- RevokeSecret: no version of the secret stays active.
pub record Revoked (id : Bytes) (change : ObjectRow → ObjectRow) (at : Bytes) (before after : Db)
    : Type 0 where
  pub versions : after.versions ≡ map (close_row revoked id at) before.versions
  pub objects :
      after.objects ≡ map (λ row. if equal row.object_id id then change row else row) before.objects

-- the insertion, the retirement and the activation, one after the other
rotated :
    (version : VersionRow) (rows : List VersionRow)
    → version.state ≡ pending
    → has_version version rows ≡ false
    → map
        (activate_row version.version_id version.created_at)
        (map (close_row retired version.secret_id version.created_at) (rows ++ version ∷ []))
      ≡ map (close_row retired version.secret_id version.created_at) rows
        ++ record version { state = active; activated_at = some version.created_at } ∷ []
rotated version rows p new =
    let absent = activate_absent version retired version.secret_id version.created_at rows new in
    let self = equal_refl version.version_id in
    let single : activate_row version.version_id version.created_at
          (close_row retired version.secret_id version.created_at version)
        ≡ record version { state = active; activated_at = some version.created_at } =
      ground arith in
    simp map-append (rw (absent, single))

unique_as-ok :
    {A : Type 0} (e : Error) (m : Exec A) (s t : Machine) {a : A}
    → unique_as e m s ≡ (ok a, t)
    → m s ≡ (ok a, t)
unfolding unique_as
unique_as-ok e m s t h = ground arith

promoted :
    (version : VersionRow) (change : ObjectRow → ObjectRow) (revision : ℕ) (d d1 d2 d3 d4 t : Db)
    (count : ℕ)
    → version.state ≡ pending
    → insert_version version d ≡ ok (tt, d1)
    → close_active retired version.secret_id version.created_at d1 ≡ ok (tt, d2)
    → activate version.version_id version.created_at d2 ≡ ok (tt, d3)
    → update_object_at change version.secret_id revision d3 ≡ ok (count, d4)
    → t.versions ≡ d4.versions
    → t.objects ≡ d4.objects
    → Promoted version change revision d t
promoted version change revision d d1 d2 d3 d4 t count p r1 r2 r3 r4 tv to =
    let at = version.created_at in
    let close = close_row retired version.secret_id at in
    let act = activate_row version.version_id at in
    let (new, referenced, e1) = insert_version-ok version d d1 r1 in
    let e2 = close_active-ok retired version.secret_id at d1 d2 r2 in
    let e3 = activate-ok version.version_id at d2 d3 r3 in
    let e4 = update_object_at-ok change version.secret_id revision count d3 d4 r4 in
    let changed =
      λ (row : ObjectRow). if is_at version.secret_id revision row then change row else row in
    record {
      new = new;
      referenced = referenced;
      versions =
          tv
          ∙ ap (λ (x : Db). x.versions) e4
          ∙ ap (λ (x : Db). x.versions) e3
          ∙ ap (λ (x : Db). map act x.versions) e2
          ∙ ap (λ (x : Db). map act (map close x.versions)) e1
          ∙ rotated version d.versions p new;
      objects =
          to
          ∙ ap (λ (x : Db). x.objects) e4
          ∙ ap (λ (x : Db). map changed x.objects) e3
          ∙ ap (λ (x : Db). map changed x.objects) e2
          ∙ ap (λ (x : Db). map changed x.objects) e1;
    }

module _ (env : Env) (keys : KeySet) where
  pub promote_version-Promoted :
      (version : VersionRow) (change : ObjectRow → ObjectRow) (revision : ℕ) (s t : Machine)
      → version.state ≡ pending
      → promote_version env keys version change revision s ≡ (ok tt, t)
      → Promoted version change revision s.db t.db × (t.keys ≡ s.keys)
  unfolding promote_version
  promote_version-Promoted version change revision s t p h = >>=-elim _ _ _ _ h λ a1 s1 e1 h1.
      >>=-elim _ _ _ _ h1 λ a2 s2 e2 h2. >>=-elim _ _ _ _ h2 λ a3 s3 e3 h3.
        >>=-elim _ _ _ _ h3 λ count s4 e4 h4. >>=-elim _ _ _ _ h4 λ a5 s5 e5 h5.
          let (r1, k1) = statement-ok env _ s s1 tt e1 in
          let (r2, k2) = statement-ok env _ s1 s2 tt e2 in
          let (r3, k3) = statement-ok env _ s2 s3 tt e3 in
          let (r4, k4) = statement-ok env _ s3 s4 count e4 in
          let (checked, s5_is) = lift-ok _ e5 in
          let (row, a, k6) = append_audit-Appended env keys.audit _ s5 t h5 in
          (
            promoted version change revision s.db s1.db s2.db s3.db s4.db t.db count p r1 r2 r3 r4
                (ap (λ (d : Db). d.versions) a.tables ∙ ap (λ (m : Machine). m.db.versions) s5_is)
                (ap (λ (d : Db). d.objects) a.tables ∙ ap (λ (m : Machine). m.db.objects) s5_is),
            k6 ∙ ap (λ (m : Machine). m.keys) s5_is ∙ k4 ∙ k3 ∙ k2 ∙ k1,
          )

  pub insert_secret-Created :
      (object : ObjectRow) (version : VersionRow) (s t : Machine)
      → insert_secret env keys object version s ≡ (ok tt, t)
      → Created object version s.db t.db × (t.keys ≡ s.keys)
  unfolding insert_secret
  insert_secret-Created object version s t h = >>=-elim _ _ _ _ h λ a1 s1 e1 h1.
      >>=-elim _ _ _ _ h1 λ a2 s2 e2 h2.
        let (r1, k1) =
          statement-ok env (insert_object object) s s1 tt (unique_as-ok already_exists _ s s1 e1) in
        let (r2, k2) = statement-ok env (insert_version version) s1 s2 tt e2 in
        let (row, a, k3) = append_audit-Appended env keys.audit _ s2 t h2 in
        let (free, d1) = insert_object-ok object s.db s1.db r1 in
        let (new, referenced, d2) = insert_version-ok version s1.db s2.db r2 in
        (
          record {
            new_object = free;
            new = rw d1 at new;
            versions =
                ap (λ (d : Db). d.versions) a.tables
                ∙ ap (λ (d : Db). d.versions) d2
                ∙ ap (λ (d : Db). d.versions ++ version ∷ []) d1;
            objects =
                ap (λ (d : Db). d.objects) a.tables
                ∙ ap (λ (d : Db). d.objects) d2
                ∙ ap (λ (d : Db). d.objects) d1;
          },
          k3 ∙ k2 ∙ k1,
        )

  pub close_secret-Revoked :
      (id : Bytes) (change : ObjectRow → ObjectRow) (at : Bytes) (s t : Machine)
      → close_secret env keys id change at s ≡ (ok tt, t)
      → Revoked id change at s.db t.db × (t.keys ≡ s.keys)
  unfolding close_secret
  close_secret-Revoked id change at s t h = >>=-elim _ _ _ _ h λ a1 s1 e1 h1.
      >>=-elim _ _ _ _ h1 λ a2 s2 e2 h2.
        let (r1, k1) = statement-ok env _ s s1 tt e1 in
        let (r2, k2) = statement-ok env _ s1 s2 tt e2 in
        let (row, a, k3) = append_audit-Appended env keys.audit _ s2 t h2 in
        let d1 = close_active-ok revoked id at s.db s1.db r1 in
        let d2 = update_object-ok change id s1.db s2.db r2 in
        (
          record {
            versions =
                ap (λ (d : Db). d.versions) a.tables
                ∙ ap (λ (d : Db). d.versions) d2
                ∙ ap (λ (d : Db). d.versions) d1;
            objects =
                ap (λ (d : Db). d.objects) a.tables
                ∙ ap (λ (d : Db). d.objects) d2
                ∙ ap
                    (λ (d : Db).
                      map (λ (row : ObjectRow). if equal row.object_id id then change row else row)
                        d.objects)
                    d1;
          },
          k3 ∙ k2 ∙ k1,
        )

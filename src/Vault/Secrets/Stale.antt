-- ===== src/Vault/Secrets/Stale.antt =====
-- Operations on one secret whose transactions come in another order than what they have read.
use vibe_coding_secret_manag.Prelude.{
  ℕ, ◌+◌, ◌≡◌, refl, sym, ap, subst, ◌∙◌, true, false, List, [], ◌∷◌, ◌++◌, map, some, arith, Bytes,
  equal_refl, ==_refl,
}
use vibe_coding_secret_manag.Outcome.{Error, Result, ok, err}
use vibe_coding_secret_manag.Model.{Scope, SecretMetadata}
use vibe_coding_secret_manag.Machine.Tables.{VersionState, revoked, ObjectRow, VersionRow, Db}
use vibe_coding_secret_manag.Machine.Env.{Env}
use vibe_coding_secret_manag.Machine.Exec.{KeySet, Machine, Exec, transaction}
use vibe_coding_secret_manag.Machine.Rules.{
  >>=-elim, copy_keys-ok, transaction-ok, transaction-IsAtomic, IsAtomic, Frame-ok,
}
use vibe_coding_secret_manag.Vault.Rows.{has_version}
use vibe_coding_secret_manag.Vault.Secrets.{
  rotate_secret, find_secret_metadata, prepare_rotate, promote_version, prepare_revoke,
  close_secret,
}
use vibe_coding_secret_manag.Vault.Secrets.Versions.{close_row}
use vibe_coding_secret_manag.Vault.Secrets.Effects.{promote_version-Promoted, close_secret-Revoked}
use vibe_coding_secret_manag.Vault.Secrets.Prepared.{
  NewVersion, prepare_rotate-NewVersion, prepare_revoke-id, prepare_revoke-version,
}
use vibe_coding_secret_manag.Vault.Frames.{Frame-find_secret_metadata, Frame-prepare_rotate}
use vibe_coding_secret_manag.Vault.Atomic.{rotate_secret-IsAtomic}

-- A version of the secret with that number is there.
record HasNumber (id : Bytes) (number : ℕ) (rows : List VersionRow) : Type 0 where
  pub taken :
      (row : VersionRow)
      → row.secret_id ≡ id
      → row.version_number ≡ number
      → has_version row rows ≡ true

-- A run that fails and leaves the tables as they were.
pub record FailsCleanly {A : Type 0} (m : Exec A) (s : Machine) : Type 0 where
  pub error : Error
  pub after : Machine
  pub fails : m s ≡ (err error, after)
  pub kept : after.db ≡ s.db

HasNumber-last :
    (rows : List VersionRow) (last : VersionRow)
    → HasNumber last.secret_id last.version_number (rows ++ last ∷ [])
unfolding has_version
HasNumber-last [] last = record {
  taken =
      λ row e n. rw (e, n, equal_refl last.secret_id, ==_refl last.version_number) (ground arith);
}
HasNumber-last (other ∷ rows) last = record {
  taken = λ row e n. ground (arith, (HasNumber-last rows last).taken row e n);
}

has_version-close :
    (state : VersionState) (closed at : Bytes) (rows : List VersionRow) (row : VersionRow)
    → has_version row (map (close_row state closed at) rows) ≡ has_version row rows
unfolding has_version
has_version-close state closed at [] row = refl
has_version-close state closed at (other ∷ rows) row =
    ground (arith, has_version-close state closed at rows row)

cleanly :
    {A : Type 0} (m : Exec A) (s : Machine)
    → IsAtomic m
    → ((t : Machine) (a : A) → m s ≡ (ok a, t) → ⊥)
    → FailsCleanly m s
cleanly {A} m s atomic never = go (m s).0 (m s).1 refl
  where
    go : (r : Result A) (t : Machine) → m s ≡ (r, t) → FailsCleanly m s
    go (ok a) t e = absurd (never t a e)
    go (err x) t e = record { error = x; after = t; fails = e; kept = atomic.at s t x e }

module _ (env : Env) (keys : KeySet) where
  -- A new version whose number is taken.
  taken-never :
      (found : SecretMetadata) (made : SecretMetadata × VersionRow × (ObjectRow → ObjectRow))
      (revision : ℕ) (s t : Machine)
      → NewVersion found made
      → HasNumber found.id (found.version + 1) s.db.versions
      → transaction env (promote_version env keys made.1 made.2 revision) s ≡ (ok tt, t)
      → ⊥
  taken-never found made revision s t new has h =
      let (s', t', ran, before, after) = transaction-ok env _ s t tt h in
      let (p, kept) =
        promote_version-Promoted env keys made.1 made.2 revision s' t' new.state ran in
      let free : has_version made.1 s.db.versions ≡ false =
        ap (λ (d : Db). has_version made.1 d.versions) (sym before.db) ∙ p.new in
      let there = has.taken made.1 new.secret_is new.number in absurd (cc)

  -- A rotation that has committed leaves the number of its version taken.
  promoted-HasNumber :
      (found : SecretMetadata) (made : SecretMetadata × VersionRow × (ObjectRow → ObjectRow))
      (revision : ℕ) (s t : Machine)
      → NewVersion found made
      → transaction env (promote_version env keys made.1 made.2 revision) s ≡ (ok tt, t)
      → HasNumber found.id (found.version + 1) t.db.versions
  promoted-HasNumber found made revision s t new h =
      let (s', t', ran, before, after) = transaction-ok env _ s t tt h in
      let (p, kept) =
        promote_version-Promoted env keys made.1 made.2 revision s' t' new.state ran in
      record {
        taken = λ row e n. rw after.db (
            rw p.versions
              ((HasNumber-last _ _).taken row (e ∙ sym new.secret_is) (n ∙ sym new.number)));
      }

  -- A revocation leaves the numbers taken.
  revoked-HasNumber :
      (id at closed : Bytes) (number : ℕ) (change : ObjectRow → ObjectRow) (s t : Machine)
      → HasNumber id number s.db.versions
      → transaction env (close_secret env keys closed change at) s ≡ (ok tt, t)
      → HasNumber id number t.db.versions
  revoked-HasNumber id at closed number change s t has h =
      let (s', t', ran, before, after) = transaction-ok env _ s t tt h in
      let (r, kept) = close_secret-Revoked env keys closed change at s' t' ran in
      record {
        taken = λ row e n. rw after.db (
            rw r.versions (
              has_version-close revoked closed at s'.db.versions row
              ∙ ap (λ (d : Db). has_version row d.versions) before.db
              ∙ has.taken row e n));
      }

  -- Two rotations of a secret that were prepared from the same metadata cannot both be committed:
  -- once the transaction of one has succeeded, that of the other, on the tables as the first has
  -- left them, fails and changes nothing.
  pub promote_version-twice :
      (found : SecretMetadata) (first second : ℕ) (profile other_profile : Bytes)
      (strength other_strength : ℕ) (value other : Bytes) (s1 s2 s3 s4 s5 s6 s7 : Machine)
      (early late : SecretMetadata × VersionRow × (ObjectRow → ObjectRow))
      → prepare_rotate env keys found first profile strength value s1 ≡ (ok early, s2)
      → prepare_rotate env keys found second other_profile other_strength other s3 ≡ (ok late, s4)
      → transaction env (promote_version env keys late.1 late.2 second) s5 ≡ (ok tt, s6)
      → s7.db ≡ s6.db
      → FailsCleanly (transaction env (promote_version env keys early.1 early.2 first)) s7
  promote_version-twice found first second profile other_profile strength other_strength value other
        s1 s2 s3 s4 s5 s6 s7 early late a b h same =
      let new =
        prepare_rotate-NewVersion env keys found first profile strength value s1 s2 early a in
      let new' =
        prepare_rotate-NewVersion env keys found second other_profile other_strength other s3 s4
          late b in
      let has = promoted-HasNumber found late second s5 s6 new' h in
      cleanly _ s7 (transaction-IsAtomic env _) λ t u.
        taken-never found early first s7 t new
          (subst (λ (d : Db). HasNumber found.id (found.version + 1) d.versions) (sym same) has)

  rotate_secret-taken :
      (found : SecretMetadata) (revision : ℕ) (scope : Scope) (name profile : Bytes) (strength : ℕ)
      (value : Bytes) (s t : Machine)
      → s.keys ≡ some keys
      → HasNumber found.id (found.version + 1) s.db.versions
      → find_secret_metadata env keys scope name s ≡ (ok (found, revision), t)
      → FailsCleanly (rotate_secret env scope name profile strength value) s
  unfolding rotate_secret
  rotate_secret-taken found revision scope name profile strength value s t k has f =
      cleanly _ s (rotate_secret-IsAtomic env scope name profile strength value) λ u meta h.
        >>=-elim _ _ _ _ h λ keys' s1 e1 h1. >>=-elim _ _ _ _ h1 λ found' s2 e2 h2.
          >>=-elim _ _ _ _ h2 λ made s3 e3 h3. >>=-elim _ _ _ _ h3 λ done s4 e4 h4.
            let (k', same) = copy_keys-ok s s1 keys' e1 in
            let keys_same : keys' ≡ keys = cc in
            let found_same : found' ≡ (found, revision) = cc in
            let new =
              prepare_rotate-NewVersion env keys' found'.0 found'.1 profile strength value s2 s3
                made e3 in
            let like = Frame-ok (Frame-find_secret_metadata env keys' scope name) e2 in
            let like' =
              Frame-ok (Frame-prepare_rotate env keys' found'.0 found'.1 profile strength value)
                e3 in
            let tables : s3.db ≡ s.db = like'.db ∙ like.db ∙ ap (λ (m : Machine). m.db) same in
            taken-never found'.0 made found'.1 s3 s4 new (rw (found_same, tables) has) (
              subst
                (λ (q : KeySet).
                  transaction env (promote_version env q made.1 made.2 found'.1) s3 ≡ (ok done, s4))
                keys_same e4)

  -- Where a rotation and a revocation of a secret were prepared from the same metadata, and the
  -- rotation is committed before the revocation, a RotateSecret on the tables that they leave,
  -- with the same keys and under a name whose lookup finds the metadata that the revocation has
  -- written, fails and changes nothing.
  pub rotate_secret-close_secret :
      (found : SecretMetadata) (first second third : ℕ) (profile : Bytes) (strength : ℕ)
      (value : Bytes) (s1 s2 s3 s4 s5 s6 s7 s8 s9 s10 : Machine)
      (new : SecretMetadata × VersionRow × (ObjectRow → ObjectRow))
      (old : SecretMetadata × (ObjectRow → ObjectRow) × Bytes) (scope : Scope)
      (name other_profile : Bytes) (other_strength : ℕ) (other : Bytes)
      → prepare_rotate env keys found first profile strength value s1 ≡ (ok new, s2)
      → prepare_revoke env keys found second s3 ≡ (ok old, s4)
      → transaction env (promote_version env keys new.1 new.2 first) s5 ≡ (ok tt, s6)
      → s7.db ≡ s6.db
      → transaction env (close_secret env keys old.0.id old.1 old.2) s7 ≡ (ok tt, s8)
      → s9.db ≡ s8.db
      → s9.keys ≡ some keys
      → find_secret_metadata env keys scope name s9 ≡ (ok (old.0, third), s10)
      → FailsCleanly (rotate_secret env scope name other_profile other_strength other) s9
  rotate_secret-close_secret found first second third profile strength value s1 s2 s3 s4 s5 s6 s7 s8
        s9 s10 new old scope name other_profile other_strength other a b h same7 h8 same9 k f =
      let made =
        prepare_rotate-NewVersion env keys found first profile strength value s1 s2 new a in
      let has = promoted-HasNumber found new first s5 s6 made h in
      let has8 =
        revoked-HasNumber found.id old.2 old.0.id (found.version + 1) old.1 s7 s8
          (subst (λ (d : Db). HasNumber found.id (found.version + 1) d.versions) (sym same7) has)
          h8 in
      let id_same = prepare_revoke-id env keys found second s3 s4 old b in
      let version_same = prepare_revoke-version env keys found second s3 s4 old b in
      rotate_secret-taken old.0 third scope name other_profile other_strength other s9 s10 k
        (rw (id_same, version_same, same9) has8) f

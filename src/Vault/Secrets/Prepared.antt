-- ===== src/Vault/Secrets/Prepared.antt =====
-- The rows that the operations on secrets prepare before their transactions.
use vibe_coding_secret_manag.Prelude.{ℕ, ◌+◌, ◌≡◌, refl, sym, subst, some, Bytes, length}
use vibe_coding_secret_manag.Outcome.{ok}
use vibe_coding_secret_manag.Model.{SecretMetadata}
use vibe_coding_secret_manag.Machine.Tables.{secret, pending, active, ObjectRow, VersionRow}
use vibe_coding_secret_manag.Machine.Env.{Env, OpensSealed}
use vibe_coding_secret_manag.Machine.Exec.{KeySet, Machine}
use vibe_coding_secret_manag.Machine.Rules.{>>=-elim, pure-ok}
use vibe_coding_secret_manag.SecureCrypto.{nonce_size, open_sealed}
use vibe_coding_secret_manag.SecureCrypto.Sealing.{open-seal}
use vibe_coding_secret_manag.Vault.Rows.{change_object}
use vibe_coding_secret_manag.Vault.Context.{secret_aad, secret_lookup}
use vibe_coding_secret_manag.Vault.Secrets.{
  scope_of, prepare_create, prepare_rotate, prepare_revoke,
}

-- Every change of an object row keeps what other rows and statements find it by.
pub record KeepsPlace (change : ObjectRow → ObjectRow) : Type 0 where
  pub object_id : (row : ObjectRow) → (change row).object_id ≡ row.object_id
  pub object_type : (row : ObjectRow) → (change row).object_type ≡ row.object_type
  pub lookup_token : (row : ObjectRow) → (change row).lookup_token ≡ row.lookup_token

pub change_object-KeepsPlace :
    (nonce ciphertext : Bytes) (revision : ℕ) (at : Bytes)
    → KeepsPlace (change_object nonce ciphertext revision at)
unfolding change_object
change_object-KeepsPlace nonce ciphertext revision at = record {
  object_id = λ row. refl;
  object_type = λ row. refl;
  lookup_token = λ row. refl;
}

-- Random bytes come in the number that was asked for.
pub record FullReads (env : Env) : Type 0 where
  pub sized :
      (n : ℕ) (bytes : Bytes) → env.random n nonce_size ≡ some bytes → length bytes ≡ nonce_size

-- The value that a version row holds, under a key.
abbrev pub Holds : Env → Bytes → VersionRow → Bytes → Type 0
Holds env dek row value =
    open_sealed env dek row.value_nonce row.value_ciphertext
      (secret_aad row.secret_id row.version_number)
    ≡ ok value

pub record NewSecret (env : Env) (keys : KeySet) (given : SecretMetadata)
    (made : SecretMetadata × ObjectRow × VersionRow) : Type 0 where
  pub version_of : made.2.secret_id ≡ made.1.object_id
  pub kind : made.1.object_type ≡ secret
  pub token : made.1.lookup_token ≡ secret_lookup env keys.lookup (scope_of given) given.name
  pub state : made.2.state ≡ active

pub record NewVersion (found : SecretMetadata)
    (made : SecretMetadata × VersionRow × (ObjectRow → ObjectRow)) : Type 0 where
  pub secret_is : made.1.secret_id ≡ found.id
  pub number : made.1.version_number ≡ found.version + 1
  pub reported : made.0.version ≡ found.version + 1
  pub state : made.1.state ≡ pending
  pub keeps : KeepsPlace made.2

module _ (env : Env) (keys : KeySet) where
  pub prepare_create-NewSecret :
      (given : SecretMetadata) (value : Bytes) (s t : Machine)
      (made : SecretMetadata × ObjectRow × VersionRow)
      → prepare_create env keys given value s ≡ (ok made, t)
      → NewSecret env keys given made
  unfolding prepare_create
  prepare_create-NewSecret given value s t made h = >>=-elim _ _ _ _ h λ id s1 e1 h1.
      >>=-elim _ _ _ _ h1 λ now s2 e2 h2. >>=-elim _ _ _ _ h2 λ encoded s3 e3 h3.
        >>=-elim _ _ _ _ h3 λ sealed s4 e4 h4. >>=-elim _ _ _ _ h4 λ version_id s5 e5 h5.
          >>=-elim _ _ _ _ h5 λ box s6 e6 h6.
            subst (NewSecret env keys given) (sym (pure-ok h6).0)
              (record { version_of = refl; kind = refl; token = refl; state = refl })

  pub prepare_rotate-NewVersion :
      (found : SecretMetadata) (revision : ℕ) (profile : Bytes) (strength : ℕ) (value : Bytes)
      (s t : Machine) (made : SecretMetadata × VersionRow × (ObjectRow → ObjectRow))
      → prepare_rotate env keys found revision profile strength value s ≡ (ok made, t)
      → NewVersion found made
  unfolding prepare_rotate
  prepare_rotate-NewVersion found revision profile strength value s t made h =
      >>=-elim _ _ _ _ h λ now s1 e1 h1. >>=-elim _ _ _ _ h1 λ version_id s2 e2 h2.
        >>=-elim _ _ _ _ h2 λ box s3 e3 h3. >>=-elim _ _ _ _ h3 λ encoded s4 e4 h4.
          >>=-elim _ _ _ _ h4 λ sealed s5 e5 h5.
            subst (NewVersion found) (sym (pure-ok h5).0) (record {
              secret_is = refl;
              number = refl;
              reported = refl;
              state = refl;
              keeps = change_object-KeepsPlace _ _ _ _;
            })

  pub prepare_revoke-KeepsPlace :
      (found : SecretMetadata) (revision : ℕ) (s t : Machine)
      (made : SecretMetadata × (ObjectRow → ObjectRow) × Bytes)
      → prepare_revoke env keys found revision s ≡ (ok made, t)
      → KeepsPlace made.1
  unfolding prepare_revoke
  prepare_revoke-KeepsPlace found revision s t made h = >>=-elim _ _ _ _ h λ now s1 e1 h1.
      >>=-elim _ _ _ _ h1 λ sealed s2 e2 h2.
        subst (λ (m : SecretMetadata × (ObjectRow → ObjectRow) × Bytes). KeepsPlace m.1)
          (sym (pure-ok h2).0) (change_object-KeepsPlace _ _ _ _)

  pub prepare_revoke-id :
      (found : SecretMetadata) (revision : ℕ) (s t : Machine)
      (made : SecretMetadata × (ObjectRow → ObjectRow) × Bytes)
      → prepare_revoke env keys found revision s ≡ (ok made, t)
      → made.0.id ≡ found.id
  unfolding prepare_revoke
  prepare_revoke-id found revision s t made h = >>=-elim _ _ _ _ h λ now s1 e1 h1.
      >>=-elim _ _ _ _ h1 λ sealed s2 e2 h2.
        subst (λ (m : SecretMetadata × (ObjectRow → ObjectRow) × Bytes). m.0.id ≡ found.id)
          (sym (pure-ok h2).0) refl

  pub prepare_revoke-version :
      (found : SecretMetadata) (revision : ℕ) (s t : Machine)
      (made : SecretMetadata × (ObjectRow → ObjectRow) × Bytes)
      → prepare_revoke env keys found revision s ≡ (ok made, t)
      → made.0.version ≡ found.version
  unfolding prepare_revoke
  prepare_revoke-version found revision s t made h = >>=-elim _ _ _ _ h λ now s1 e1 h1.
      >>=-elim _ _ _ _ h1 λ sealed s2 e2 h2.
        subst
          (λ (m : SecretMetadata × (ObjectRow → ObjectRow) × Bytes). m.0.version ≡ found.version)
          (sym (pure-ok h2).0) refl

module _ (env : Env) (laws : OpensSealed env) (full : FullReads env) (keys : KeySet) where
  pub prepare_create-Holds :
      (given : SecretMetadata) (value : Bytes) (s t : Machine)
      (made : SecretMetadata × ObjectRow × VersionRow)
      → prepare_create env keys given value s ≡ (ok made, t)
      → Holds env keys.dek made.2 value
  unfolding prepare_create
  prepare_create-Holds given value s t made h = >>=-elim _ _ _ _ h λ id s1 e1 h1.
      >>=-elim _ _ _ _ h1 λ now s2 e2 h2. >>=-elim _ _ _ _ h2 λ encoded s3 e3 h3.
        >>=-elim _ _ _ _ h3 λ sealed s4 e4 h4. >>=-elim _ _ _ _ h4 λ version_id s5 e5 h5.
          >>=-elim _ _ _ _ h5 λ box s6 e6 h6.
            subst (λ (m : SecretMetadata × ObjectRow × VersionRow). Holds env keys.dek m.2 value)
              (sym (pure-ok h6).0)
              (open-seal env laws keys.dek value (secret_aad id 1) box.0 box.1 s5 s6 full.sized e6)

  pub prepare_rotate-Holds :
      (found : SecretMetadata) (revision : ℕ) (profile : Bytes) (strength : ℕ) (value : Bytes)
      (s t : Machine) (made : SecretMetadata × VersionRow × (ObjectRow → ObjectRow))
      → prepare_rotate env keys found revision profile strength value s ≡ (ok made, t)
      → Holds env keys.dek made.1 value
  unfolding prepare_rotate
  prepare_rotate-Holds found revision profile strength value s t made h =
      >>=-elim _ _ _ _ h λ now s1 e1 h1. >>=-elim _ _ _ _ h1 λ version_id s2 e2 h2.
        >>=-elim _ _ _ _ h2 λ box s3 e3 h3. >>=-elim _ _ _ _ h3 λ encoded s4 e4 h4.
          >>=-elim _ _ _ _ h4 λ sealed s5 e5 h5.
            subst
              (λ (m : SecretMetadata × VersionRow × (ObjectRow → ObjectRow)).
                Holds env keys.dek m.1 value)
              (sym (pure-ok h5).0)
              (open-seal env laws keys.dek value (secret_aad found.id (found.version + 1)) box.0
                box.1 s2 s3 full.sized e3)

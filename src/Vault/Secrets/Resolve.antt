-- ===== src/Vault/Secrets/Resolve.antt =====
-- What ResolveSecrets reads after an operation on the secret.
use vibe_coding_secret_manag.Prelude.{
  ℕ, ◌≡◌, sym, ap, subst, ◌∙◌, true, false, none, some, arith, Bytes, equal_refl,
}
use vibe_coding_secret_manag.Outcome.{no_active_version, ok, err}
use vibe_coding_secret_manag.Model.{Scope, SecretMetadata}
use vibe_coding_secret_manag.Machine.Tables.{secret}
use vibe_coding_secret_manag.Machine.Env.{Env, OpensSealed}
use vibe_coding_secret_manag.Machine.Exec.{KeySet, Machine}
use vibe_coding_secret_manag.Machine.Rules.{
  >>=-elim, pure-ok, copy_keys-ok, transaction-ok, Frame-ok,
}
use vibe_coding_secret_manag.SecureCrypto.{open_sealed}
use vibe_coding_secret_manag.Vault.Rows.{newest_active, is_active_of}
use vibe_coding_secret_manag.Vault.Context.{secret_aad}
use vibe_coding_secret_manag.Vault.Secrets.{
  scope_of, open_metadata, resolve_one, rotate_secret, revoke_secret, create_secret,
}
use vibe_coding_secret_manag.Vault.Secrets.Versions.{count_active, newest_active_last}
use vibe_coding_secret_manag.Vault.Secrets.Effects.{
  Promoted, Created, Revoked, promote_version-Promoted, insert_secret-Created, close_secret-Revoked,
}
use vibe_coding_secret_manag.Vault.Secrets.Prepared.{
  FullReads, prepare_create-NewSecret, prepare_rotate-NewVersion, prepare_revoke-KeepsPlace,
  prepare_revoke-id, prepare_create-Holds, prepare_rotate-Holds,
}
use vibe_coding_secret_manag.Vault.Invariant.{IsWellFormed, has_clash-find_id}
use vibe_coding_secret_manag.Vault.Frames.{
  Frame-find_secret_metadata, Frame-prepare_create, Frame-prepare_rotate, Frame-prepare_revoke,
}
use vibe_coding_secret_manag.Vault.Secrets.Read.{
  Finds, resolve_one_active, find_secret_metadata-Finds, NamesItself, resolve-Promoted,
  resolve-Revoked, find_token-last,
}

module _ (env : Env) (laws : OpensSealed env) (full : FullReads env)
    (up : (n : ℕ) → env.fault n ≡ false) where
  -- On an unlocked vault, where sealed data opens, random reads are full, no database call fails
  -- for an outside reason and the metadata of the secret names its own object, a RotateSecret
  -- that succeeds makes ResolveSecrets read the new value under the name.
  pub rotate_secret-resolve_one :
      (scope : Scope) (name profile : Bytes) (strength : ℕ) (value : Bytes) (s t : Machine)
      (keys : KeySet) (meta : SecretMetadata)
      → s.keys ≡ some keys
      → NamesItself env keys scope name s.db
      → rotate_secret env scope name profile strength value s ≡ (ok meta, t)
      → (resolve_one env keys scope name t).0 ≡ ok value
  unfolding rotate_secret
  rotate_secret-resolve_one scope name profile strength value s t keys meta unlocked named h =
      >>=-elim _ _ _ _ h λ keys' s1 e1 h1. >>=-elim _ _ _ _ h1 λ found s2 e2 h2.
        >>=-elim _ _ _ _ h2 λ made s3 e3 h3. >>=-elim _ _ _ _ h3 λ done s4 e4 h4.
          let (opened, s1_is) = copy_keys-ok s s1 keys' e1 in
          let same : keys' ≡ keys = cc in
          let (row, finds, opens) =
            find_secret_metadata-Finds env keys' scope name s1 s2 found.0 found.1 e2 in
          let new =
            prepare_rotate-NewVersion env keys' found.0 found.1 profile strength value s2 s3 made
              e3 in
          let holds =
            prepare_rotate-Holds env laws full keys' found.0 found.1 profile strength value s2 s3
              made e3 in
          let like = Frame-ok (Frame-find_secret_metadata env keys' scope name) e2 in
          let like' =
            Frame-ok (Frame-prepare_rotate env keys' found.0 found.1 profile strength value) e3 in
          let (s', t', ran, before, after) = transaction-ok env _ s3 s4 tt e4 in
          let (p, kept) =
            promote_version-Promoted env keys' made.1 made.2 found.1 s' t' new.state ran in
          let end = ap (λ (m : Machine). m.db) (pure-ok h4).1 ∙ after.db in
          let base = ap (λ (m : Machine). m.db) s1_is in
          let finds' : Finds env keys scope name s.db row =
            subst (λ d. Finds env keys scope name d row) base
              (subst (λ k. Finds env k scope name s1.db row) same finds) in
          let opens' : open_metadata env keys row ≡ ok found.0 =
            subst (λ k. open_metadata env k row ≡ ok found.0) same opens in
          let moved =
            subst (λ d. Promoted made.1 made.2 found.1 d t.db) (before.db ∙ like'.db ∙ like.db)
              (subst (Promoted made.1 made.2 found.1 s'.db) (sym end) p) in
          subst (λ k. (resolve_one env k scope name t).0 ≡ ok value) same
            (resolve-Promoted env keys' up scope name s1.db t row made.1 made.2 found.1 value finds
              (new.secret_is ∙ named row found.0 finds' opens') new.keeps holds moved)

  -- On an unlocked vault with well-formed tables, where sealed data opens, random reads are full
  -- and no database call fails for an outside reason, a CreateSecret that succeeds makes
  -- ResolveSecrets read the value under the scope and name of the new secret.
  pub create_secret-resolve_one :
      (given : SecretMetadata) (value : Bytes) (s t : Machine) (keys : KeySet)
      (meta : SecretMetadata)
      → s.keys ≡ some keys
      → IsWellFormed s.db
      → create_secret env given value s ≡ (ok meta, t)
      → (resolve_one env keys (scope_of given) given.name t).0 ≡ ok value
  unfolding create_secret
  create_secret-resolve_one given value s t keys meta unlocked well h =
      >>=-elim _ _ _ _ h λ keys' s1 e1 h1. >>=-elim _ _ _ _ h1 λ made s2 e2 h2.
        >>=-elim _ _ _ _ h2 λ done s3 e3 h3.
          let (opened, s1_is) = copy_keys-ok s s1 keys' e1 in
          let same : keys' ≡ keys = cc in
          let new = prepare_create-NewSecret env keys' given value s1 s2 made e2 in
          let holds = prepare_create-Holds env laws full keys' given value s1 s2 made e2 in
          let like = Frame-ok (Frame-prepare_create env keys' given value) e2 in
          let (s', t', ran, before, after) = transaction-ok env _ s2 s3 tt e3 in
          let (c, kept) = insert_secret-Created env keys' made.1 made.2 s' t' ran in
          let end = ap (λ (m : Machine). m.db) (pure-ok h3).1 ∙ after.db in
          let start = before.db ∙ like.db ∙ ap (λ (m : Machine). m.db) s1_is in
          let moved =
            subst (λ d. Created made.1 made.2 d t.db) start
              (subst (Created made.1 made.2 s'.db) (sym end) c) in
          let none_there : count_active made.1.object_id s.db.versions ≡ 0 =
            well.referenced made.1.object_id
              (has_clash-find_id made.1 s.db.objects moved.new_object) in
          let active : is_active_of made.1.object_id made.2 ≡ true =
            ground (arith, new.version_of, new.state, equal_refl made.1.object_id) in
          let finds : Finds env keys' (scope_of given) given.name t.db made.1 =
            rw (moved.objects, sym new.token)
              (find_token-last secret s.db.objects made.1 new.kind moved.new_object) in
          let newest : newest_active made.1.object_id none t.db.versions ≡ some made.2 =
            rw moved.versions
              (newest_active_last made.1.object_id s.db.versions made.2 none_there active) in
          subst (λ k. (resolve_one env k (scope_of given) given.name t).0 ≡ ok value) same
            (resolve_one_active env keys' (scope_of given) given.name t made.1 made.2 up finds
                newest
              ∙ subst
                  (λ id.
                    open_sealed env keys'.dek made.2.value_nonce made.2.value_ciphertext
                      (secret_aad id made.2.version_number)
                    ≡ ok value)
                  new.version_of holds)

module _ (env : Env) (up : (n : ℕ) → env.fault n ≡ false) where
  -- On an unlocked vault, where no database call fails for an outside reason and the metadata of
  -- the secret names its own object, a RevokeSecret that succeeds makes ResolveSecrets report
  -- that the secret has no active version.
  pub revoke_secret-resolve_one :
      (scope : Scope) (name : Bytes) (s t : Machine) (keys : KeySet) (meta : SecretMetadata)
      → s.keys ≡ some keys
      → NamesItself env keys scope name s.db
      → revoke_secret env scope name s ≡ (ok meta, t)
      → (resolve_one env keys scope name t).0 ≡ err no_active_version
  unfolding revoke_secret
  revoke_secret-resolve_one scope name s t keys meta unlocked named h =
      >>=-elim _ _ _ _ h λ keys' s1 e1 h1. >>=-elim _ _ _ _ h1 λ found s2 e2 h2.
        >>=-elim _ _ _ _ h2 λ made s3 e3 h3. >>=-elim _ _ _ _ h3 λ done s4 e4 h4.
          let (opened, s1_is) = copy_keys-ok s s1 keys' e1 in
          let same : keys' ≡ keys = cc in
          let (row, finds, opens) =
            find_secret_metadata-Finds env keys' scope name s1 s2 found.0 found.1 e2 in
          let keeps = prepare_revoke-KeepsPlace env keys' found.0 found.1 s2 s3 made e3 in
          let id = prepare_revoke-id env keys' found.0 found.1 s2 s3 made e3 in
          let like = Frame-ok (Frame-find_secret_metadata env keys' scope name) e2 in
          let like' = Frame-ok (Frame-prepare_revoke env keys' found.0 found.1) e3 in
          let (s', t', ran, before, after) = transaction-ok env _ s3 s4 tt e4 in
          let (r, kept) = close_secret-Revoked env keys' made.0.id made.1 made.2 s' t' ran in
          let end = ap (λ (m : Machine). m.db) (pure-ok h4).1 ∙ after.db in
          let base = ap (λ (m : Machine). m.db) s1_is in
          let finds' : Finds env keys scope name s.db row =
            subst (λ d. Finds env keys scope name d row) base
              (subst (λ k. Finds env k scope name s1.db row) same finds) in
          let opens' : open_metadata env keys row ≡ ok found.0 =
            subst (λ k. open_metadata env k row ≡ ok found.0) same opens in
          let moved =
            subst (λ d. Revoked made.0.id made.1 made.2 d t.db) (before.db ∙ like'.db ∙ like.db)
              (subst (Revoked made.0.id made.1 made.2 s'.db) (sym end) r) in
          subst (λ k. (resolve_one env k scope name t).0 ≡ err no_active_version) same
            (resolve-Revoked env keys' up scope name s1.db t row made.0.id made.2 made.1 finds
              (id ∙ named row found.0 finds' opens') keeps moved)

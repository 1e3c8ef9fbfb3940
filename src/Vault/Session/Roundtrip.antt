-- ===== src/Vault/Session/Roundtrip.antt =====
-- A vault that Initialize has made is unlocked by the password that it was made with.
use vibe_coding_secret_manag.Prelude.{
  ℕ, ◌+◌, ◌≡◌, refl, ap, ◌∙◌, Bool, true, false, [], ◌∷◌, ◌++◌, none, some, arith, Bytes, codes,
}
use vibe_coding_secret_manag.Outcome.{require-ok, bad_json, Result, ok, err}
use vibe_coding_secret_manag.Machine.Tables.{WrapperRow, Db}
use vibe_coding_secret_manag.Machine.Env.{Env, KdfParams, OpensSealed}
use vibe_coding_secret_manag.Machine.Exec.{
  KeySet, Machine, Exec, lift, query, file_call, transaction, statement, ◌>>=◌, ◌>>◌,
}
use vibe_coding_secret_manag.Machine.Rules.{
  >>=-elim, pure-ok, lift-ok, statement-ok, transaction-ok, Frame-ok, Frame-clock,
}
use vibe_coding_secret_manag.SecureCrypto.{key_size, salt_size, open_sealed, derive_kek, expand_key}
use vibe_coding_secret_manag.SecureCrypto.Sealing.{open-seal}
use vibe_coding_secret_manag.Vault.Rows.{insert_metadata, insert_wrapper, select_wrapper}
use vibe_coding_secret_manag.Vault.Context.{wrapper_aad, stamp}
use vibe_coding_secret_manag.Vault.Secrets.Prepared.{FullReads}
use vibe_coding_secret_manag.Vault.Audit.Log.{ReadsBack}
use vibe_coding_secret_manag.Vault.Frames.{Frame-seal, Frame-random_id, Frame-random_bytes}
use vibe_coding_secret_manag.Vault.Session.{
  set_vault_id, get_machine, set_keys, is_unlocked, removed_on_error, install_keys, unwrap_dek,
  unlock_locked, unlock, insert_vault, initialize_new, initialize,
}

in_machine : {s t : Machine} → s ≡ t → s.db.wrappers ≡ t.db.wrappers
in_machine = ap (λ (m : Machine). m.db.wrappers)

in_tables : {d e : Db} → d ≡ e → d.wrappers ≡ e.wrappers
in_tables = ap (λ (d : Db). d.wrappers)

pub removed_on_error-ok :
    (env : Env) (m : Exec (Unit {0})) (s t : Machine)
    → removed_on_error env m s ≡ (ok tt, t)
    → m s ≡ (ok tt, t)
unfolding removed_on_error
removed_on_error-ok env m s t h = ground arith

module _ (env : Env) where
  -- Keys are the same wherever they are derived from one data key.
  pub install_keys-again :
      (dek : Bytes) (s t : Machine)
      → install_keys env dek s ≡ (ok tt, t)
      → (k : KeySet) × (t ≡ record s { keys = some k })
        × ((u : Machine) → install_keys env dek u ≡ (ok tt, record u { keys = some k }))
  unfolding install_keys set_keys lift ◌>>=◌
  install_keys-again dek s t h = go _ _ _ refl refl refl
    where
      go :
          (m l a : Result Bytes)
          → expand_key env dek (codes "metadata") ≡ m
          → expand_key env dek (codes "lookup") ≡ l
          → expand_key env dek (codes "audit") ≡ a
          → (k : KeySet) × (t ≡ record s { keys = some k })
            × ((u : Machine) → install_keys env dek u ≡ (ok tt, record u { keys = some k }))
      go (err e) l a p q r = absurd (ground arith)
      go (ok m) (err e) a p q r = absurd (ground arith)
      go (ok m) (ok l) (err e) p q r = absurd (ground arith)
      go (ok m) (ok l) (ok a) p q r = (
        record { dek = dek; metadata = m; lookup = l; audit = a },
        ground arith,
        λ u. rw (p, q, r),
      )

  metadata_keeps :
      (key value : Bytes) (s t : Machine) (a : Unit {0})
      → statement env (insert_metadata key value) s ≡ (ok a, t)
      → t.db.wrappers ≡ s.db.wrappers
  unfolding insert_metadata
  metadata_keeps key value s t a h = let (r, k) = statement-ok env _ s t a h in ground arith

  insert_wrapper-ok :
      (row : WrapperRow) (before after : Db)
      → insert_wrapper row before ≡ ok (tt, after)
      → after.wrappers ≡ before.wrappers ++ row ∷ []
  unfolding insert_wrapper
  insert_wrapper-ok row before after h = ground arith

  insert_vault-wrappers :
      (id : Bytes) (wrapper : WrapperRow) (s t : Machine)
      → insert_vault env id wrapper s ≡ (ok tt, t)
      → s.db.wrappers ≡ []
      → (at : Bytes) × (t.db.wrappers ≡ record wrapper { created_at = at } ∷ [])
  unfolding insert_vault
  insert_vault-wrappers id wrapper s t h empty = >>=-elim _ _ _ _ h λ now s1 e1 h1.
      >>=-elim _ _ _ _ h1 λ a2 s2 e2 h2. >>=-elim _ _ _ _ h2 λ a3 s3 e3 h3.
        >>=-elim _ _ _ _ h3 λ a4 s4 e4 h4. >>=-elim _ _ _ _ h4 λ later s5 e5 h5.
          let same =
            in_tables (Frame-ok (Frame-clock env) e5).db
            ∙ metadata_keeps _ _ s3 s4 a4 e4
            ∙ metadata_keeps _ _ s2 s3 a3 e3
            ∙ metadata_keeps _ _ s1 s2 a2 e2
            ∙ in_tables (Frame-ok (Frame-clock env) e1).db
            ∙ empty in
          let grown = insert_wrapper-ok _ _ _ (statement-ok env _ s5 t tt h5).0 in
          (stamp env later, grown ∙ rw same)

  file_call-ok : (s t : Machine) → file_call env s ≡ (ok tt, t) → t.db ≡ s.db
  unfolding file_call
  file_call-ok s t h = ground arith

  -- The wrapper of a new vault gives back the data key, under the identifier that it was made for.
  unwrap_made :
      (up : (n : ℕ) → env.fault n ≡ false) (password : Bytes) (params : KdfParams)
      (wrapper : WrapperRow) (kek wrap_key dek : Bytes) (u : Machine)
      → u.db.wrappers ≡ wrapper ∷ []
      → wrapper.is_active ≡ true
      → env.params_json.unmarshal wrapper.params ≡ some params
      → derive_kek env password wrapper.salt params ≡ ok kek
      → expand_key env kek (codes "password-wrapper") ≡ ok wrap_key
      → open_sealed env wrap_key wrapper.nonce wrapper.ciphertext (wrapper_aad u.vault_id) ≡ ok dek
      → unwrap_dek env password u ≡ (ok dek, record u { calls = u.calls + 1 })
  unfolding unwrap_dek query get_machine lift ◌>>=◌ select_wrapper
  unwrap_made up password params wrapper kek wrap_key dek u one active parsed derived expanded
        opens =
      rw (up u.calls, one, active, parsed, derived, expanded, opens)

  unlock_made :
      (password dek : Bytes) (k : KeySet) (u v : Machine)
      → unwrap_dek env password (record u { keys = none }) ≡ (ok dek, v)
      → ((w : Machine) → install_keys env dek w ≡ (ok tt, record w { keys = some k }))
      → unlock env password (record u { keys = none }) ≡ (ok tt, record v { keys = some k })
  unfolding unlock is_unlocked unlock_locked ◌>>=◌
  unlock_made password dek k u v unwrapped installs = rw (unwrapped, installs v)

module _ (env : Env) (laws : OpensSealed env) (full : FullReads env)
    (json : ReadsBack env.params_json) (up : (n : ℕ) → env.fault n ≡ false) where
  finish_made :
      (password : Bytes) (params : KdfParams) (wrapper : WrapperRow) (kek wrap_key dek id : Bytes)
      (s t : Machine)
      → s.db.wrappers ≡ []
      → wrapper.is_active ≡ true
      → env.params_json.unmarshal wrapper.params ≡ some params
      → derive_kek env password wrapper.salt params ≡ ok kek
      → expand_key env kek (codes "password-wrapper") ≡ ok wrap_key
      → open_sealed env wrap_key wrapper.nonce wrapper.ciphertext (wrapper_aad id) ≡ ok dek
      → (transaction env (insert_vault env id wrapper)
            >> (file_call env >> (set_vault_id id >> install_keys env dek)))
          s
        ≡ (ok tt, t)
      → (k : KeySet) × (t.keys ≡ some k)
        × ((n : ℕ)
            → unlock env password (record t { keys = none; calls = n })
              ≡ (ok tt, record t { keys = some k; calls = n + 1 }))
  unfolding set_vault_id
  finish_made password params wrapper kek wrap_key dek id s t empty active parsed derived expanded
        opens h =
      >>=-elim _ _ _ _ h λ a1 s1 e1 h1. >>=-elim _ _ _ _ h1 λ a2 s2 e2 h2.
        >>=-elim _ _ _ _ h2 λ a3 s3 e3 h3.
          let (s', t', ran, before, after) = transaction-ok env _ s s1 a1 e1 in
          let (at, made) =
            insert_vault-wrappers env id wrapper s' t' ran (in_tables before.db ∙ empty) in
          let s3_is : s3 ≡ record s2 { vault_id = id } = cc in
          let (k, t_is, installs) = install_keys-again env dek s3 t h3 in
          let one : t.db.wrappers ≡ record wrapper { created_at = at } ∷ [] =
            in_machine t_is
            ∙ in_machine s3_is
            ∙ in_tables (file_call-ok env s1 s2 e2)
            ∙ in_tables after.db
            ∙ made in
          let named : t.vault_id ≡ id =
            ap (λ (m : Machine). m.vault_id) t_is ∙ ap (λ (m : Machine). m.vault_id) s3_is in
          let unwrapped = λ (n : ℕ).
            unwrap_made env up password params (record wrapper { created_at = at }) kek wrap_key dek
              (record t { keys = none; calls = n }) one active parsed derived expanded
              (rw named opens) in
          (
            k,
            ap (λ (m : Machine). m.keys) t_is,
            λ n. unlock_made env password dek k (record t { calls = n }) _ (unwrapped n) installs,
          )

  initialize_new-unlock :
      (password : Bytes) (params : KdfParams) (s t : Machine)
      → s.db.wrappers ≡ []
      → initialize_new env password params s ≡ (ok tt, t)
      → (k : KeySet) × (t.keys ≡ some k)
        × ((n : ℕ)
            → unlock env password (record t { keys = none; calls = n })
              ≡ (ok tt, record t { keys = some k; calls = n + 1 }))
  unfolding initialize_new
  initialize_new-unlock password params s t empty h = >>=-elim _ _ _ _ h λ a1 s1 e1 h1.
      >>=-elim _ _ _ _ h1 λ id s2 e2 h2. >>=-elim _ _ _ _ h2 λ dek s3 e3 h3.
        >>=-elim _ _ _ _ h3 λ salt s4 e4 h4. >>=-elim _ _ _ _ h4 λ kek s5 e5 h5.
          >>=-elim _ _ _ _ h5 λ wrap_key s6 e6 h6. >>=-elim _ _ _ _ h6 λ box s7 e7 h7.
            >>=-elim _ _ _ _ h7 λ encoded s8 e8 h8.
              let (s', t', ran, before, after) = transaction-ok env _ s s1 a1 e1 in
              let base =
                in_machine (lift-ok _ e8).1
                ∙ in_tables (Frame-ok (Frame-seal env wrap_key dek (wrapper_aad id)) e7).db
                ∙ in_machine (lift-ok _ e6).1
                ∙ in_machine (lift-ok _ e5).1
                ∙ in_tables (Frame-ok (Frame-random_bytes env salt_size) e4).db
                ∙ in_tables (Frame-ok (Frame-random_bytes env key_size) e3).db
                ∙ in_tables (Frame-ok (Frame-random_id env) e2).db
                ∙ in_tables after.db
                ∙ in_machine (pure-ok ran).1
                ∙ in_tables before.db
                ∙ empty in
              finish_made password params _ kek wrap_key dek id s8 t base refl
                (json.reads params encoded (require-ok bad_json _ (lift-ok _ e8).0))
                (lift-ok _ e5).0 (lift-ok _ e6).0
                (open-seal env laws wrap_key dek (wrapper_aad id) box.0 box.1 s6 s7 full.sized e7)
                h8

  pub initialize-unlocks :
      (password : Bytes) (params : KdfParams) (path_exists : Bool) (s t : Machine)
      → s.db.wrappers ≡ []
      → initialize env path_exists password params s ≡ (ok tt, t)
      → (k : KeySet) × (t.keys ≡ some k)
        × ((n : ℕ)
            → unlock env password (record t { keys = none; calls = n })
              ≡ (ok tt, record t { keys = some k; calls = n + 1 }))
  unfolding initialize
  initialize-unlocks password params path_exists s t empty h = >>=-elim _ _ _ _ h λ a1 s1 e1 h1.
      >>=-elim _ _ _ _ h1 λ a2 s2 e2 h2. >>=-elim _ _ _ _ h2 λ a3 s3 e3 h3.
        initialize_new-unlock password params s3 t
          (in_tables (file_call-ok env s2 s3 e3)
            ∙ in_machine (lift-ok _ e2).1
            ∙ in_machine (lift-ok _ e1).1
            ∙ empty)
          (removed_on_error-ok env _ s3 t h3)

  -- Where sealed data opens, random reads are full, the parameters read back from their JSON, no
  -- database call fails for an outside reason and there is no key wrapper yet, an Initialize that
  -- succeeds leaves keys installed, and Unlock with the same password, once the keys are
  -- forgotten, succeeds and installs the same keys.
  pub initialize-unlock :
      (password : Bytes) (params : KdfParams) (path_exists : Bool) (s t : Machine)
      → s.db.wrappers ≡ []
      → initialize env path_exists password params s ≡ (ok tt, t)
      → (k : KeySet) × (t.keys ≡ some k)
        × (unlock env password (record t { keys = none })
            ≡ (ok tt, record t { keys = some k; calls = t.calls + 1 }))
  initialize-unlock password params path_exists s t empty h =
      let (k, keyed, unlocks) = initialize-unlocks password params path_exists s t empty h in
      (k, keyed, unlocks t.calls)

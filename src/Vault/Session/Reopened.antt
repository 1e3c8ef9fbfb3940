-- ===== src/Vault/Session/Reopened.antt =====
-- A vault that Initialize has made, closed and opened again by Open in another process.
use vibe_coding_secret_manag.Prelude.{
  ℕ, ◌+◌, ◌≡◌, refl, sym, ap, subst, ◌∙◌, Bool, false, List, [], ◌∷◌, ◌++◌, none, some, arith,
  Bytes, codes, equal,
}
use vibe_coding_secret_manag.Outcome.{ok}
use vibe_coding_secret_manag.Machine.Tables.{WrapperRow, Db}
use vibe_coding_secret_manag.Machine.Env.{Env, KdfParams, OpensSealed}
use vibe_coding_secret_manag.Machine.Exec.{
  KeySet, Machine, Exec, lift, query, file_call, transaction, statement, pure, ◌>>=◌,
}
use vibe_coding_secret_manag.Machine.Rules.{
  Frame, Frame-ok, Frame-clock, Frame-lift, >>=-elim, pure-ok, lift-ok, statement-ok,
  transaction-ok,
}
use vibe_coding_secret_manag.Vault.Rows.{
  insert_metadata, insert_wrapper, select_metadata, find_value,
}
use vibe_coding_secret_manag.Vault.Secrets.Prepared.{FullReads}
use vibe_coding_secret_manag.Vault.Audit.Log.{ReadsBack}
use vibe_coding_secret_manag.Vault.Frames.{Frame-seal, Frame-random_id, Frame-random_bytes}
use vibe_coding_secret_manag.Vault.Session.{
  schema_version, set_vault_id, install_keys, unlock, insert_vault, initialize_new, initialize,
  open_vault,
}
use vibe_coding_secret_manag.Vault.Session.Roundtrip.{
  removed_on_error-ok, install_keys-again, initialize-unlocks,
}

-- The rows of vault_metadata, and what Open reads from them.
record Lists (rows : List (Bytes × Bytes)) (s : Machine) : Type 0 where
  pub rows_are : s.db.metadata ≡ rows

record Names (id : Bytes) (s : Machine) : Type 0 where
  pub schema : select_metadata (codes "schema_version") s.db ≡ ok schema_version
  pub name : select_metadata (codes "vault_id") s.db ≡ ok id

record IsNamed (s : Machine) : Type 0 where
  pub names : Names s.vault_id s

-- From states with `P`, a run that succeeds ends with `Q`.
record Leaves {A : Type 0} (P : Machine → Type 0) (m : Exec A) (Q : Machine → Type 0) : Type 0 where
  pub at : (s t : Machine) (a : A) → m s ≡ (ok a, t) → P s → Q t

Leaves-bind :
    {A B : Type 0} {P Q R : Machine → Type 0} {m : Exec A} {f : A → Exec B}
    → Leaves P m Q
    → ((a : A) → Leaves Q (f a) R)
    → Leaves P (m >>= f) R
Leaves-bind p q = record {
  at = λ s t b h k. >>=-elim _ _ s t h λ a u e h'. (q a).at u t b h' (p.at s u a e k);
}

module _ {A : Type 0} {rows : List (Bytes × Bytes)} where
  Leaves-Frame : {m : Exec A} → Frame m → Leaves (Lists rows) m (Lists rows)
  Leaves-Frame f = record {
    at = λ s t a h p. record {
      rows_are = ap (λ (d : Db). d.metadata) (Frame-ok f h).db ∙ p.rows_are;
    };
  }

module _ (env : Env) where
  insert_metadata-Leaves :
      (key value : Bytes) (rows : List (Bytes × Bytes))
      → Leaves
          (Lists rows)
          (statement env (insert_metadata key value))
          (Lists (rows ++ (key, value) ∷ []))
  unfolding insert_metadata
  insert_metadata-Leaves key value rows = record {
    at = λ s t a h p.
        let (r, k) = statement-ok env _ s t a h in record { rows_are = ground (arith, p.rows_are) };
  }

  insert_wrapper-Leaves :
      (row : WrapperRow) {rows : List (Bytes × Bytes)}
      → Leaves (Lists rows) (statement env (insert_wrapper row)) (Lists rows)
  unfolding insert_wrapper
  insert_wrapper-Leaves row = record {
    at = λ s t a h p.
        let (r, k) = statement-ok env _ s t a h in record { rows_are = ground (arith, p.rows_are) };
  }

  insert_vault-Leaves :
      (id : Bytes) (wrapper : WrapperRow)
      → Leaves (Lists []) (insert_vault env id wrapper) (Names id)
  unfolding insert_vault select_metadata find_value equal
  insert_vault-Leaves id wrapper = Leaves-bind (Leaves-Frame (Frame-clock env)) λ now.
      Leaves-bind (insert_metadata-Leaves _ _ _) λ a.
        Leaves-bind (insert_metadata-Leaves _ _ _) λ b.
          Leaves-bind (insert_metadata-Leaves _ _ _) λ c.
            Leaves-bind (Leaves-Frame (Frame-clock env)) λ later. record {
              at = λ s t d h p.
                  let q = (insert_wrapper-Leaves _).at s t d h p in
                  record { schema = rw q.rows_are refl; name = rw q.rows_are refl };
            }

  transaction-Leaves :
      {body : Exec (Unit {0})} {id : Bytes}
      → Leaves (Lists []) body (Names id)
      → Leaves (Lists []) (transaction env body) (Names id)
  transaction-Leaves {body} {id} k = record {
    at = λ s t a h p.
        let (s', t', ran, before, after) = transaction-ok env body s t a h in
        let named : Names id t' =
          k.at s' t' a ran
            (record { rows_are = ap (λ (d : Db). d.metadata) before.db ∙ p.rows_are }) in
        record { schema = rw after.db named.schema; name = rw after.db named.name };
  }

  file_call-Leaves : {id : Bytes} → Leaves (Names id) (file_call env) (Names id)
  unfolding file_call
  file_call-Leaves = record {
    at = λ s t a h p.
        let same : t.db ≡ s.db = ground arith in
        record { schema = rw same p.schema; name = rw same p.name };
  }

  set_vault_id-Leaves : (id : Bytes) → Leaves (Names id) (set_vault_id id) IsNamed
  unfolding set_vault_id
  set_vault_id-Leaves id = record {
    at = λ s t a h p.
        let same : t ≡ record s { vault_id = id } = cc in
        subst IsNamed (sym same) (record { names = record { schema = p.schema; name = p.name } });
  }

  install_keys-Leaves : (dek : Bytes) → Leaves IsNamed (install_keys env dek) IsNamed
  install_keys-Leaves dek = record {
    at = λ s t a h p.
        let (k, t_is, installs) = install_keys-again env dek s t h in
        subst IsNamed (sym t_is)
          (record { names = record { schema = p.names.schema; name = p.names.name } });
  }

module _ (env : Env) where
  empty_transaction : Leaves (Lists []) (transaction env (pure tt)) (Lists [])
  empty_transaction = record {
    at = λ s t a h p.
        let (s', t', ran, before, after) = transaction-ok env (pure tt) s t a h in
        record {
          rows_are =
              ap (λ (d : Db). d.metadata) after.db
              ∙ ap (λ (m : Machine). m.db.metadata) (pure-ok ran).1
              ∙ ap (λ (d : Db). d.metadata) before.db
              ∙ p.rows_are;
        };
  }

  initialize_new-Leaves :
      (password : Bytes) (params : KdfParams)
      → Leaves (Lists []) (initialize_new env password params) IsNamed
  unfolding initialize_new
  initialize_new-Leaves password params = Leaves-bind empty_transaction λ a1.
      Leaves-bind (Leaves-Frame (Frame-random_id env)) λ id.
        Leaves-bind (Leaves-Frame (Frame-random_bytes env _)) λ dek.
          Leaves-bind (Leaves-Frame (Frame-random_bytes env _)) λ salt.
            Leaves-bind (Leaves-Frame (Frame-lift _)) λ kek.
              Leaves-bind (Leaves-Frame (Frame-lift _)) λ wrap_key.
                Leaves-bind (Leaves-Frame (Frame-seal env _ _ _)) λ box.
                  Leaves-bind (Leaves-Frame (Frame-lift _)) λ encoded.
                    Leaves-bind (transaction-Leaves env (insert_vault-Leaves env id _)) λ a2.
                      Leaves-bind (file_call-Leaves env) λ a3.
                        Leaves-bind (set_vault_id-Leaves env id) λ a4. install_keys-Leaves env dek

  initialize-IsNamed :
      (password : Bytes) (params : KdfParams) (path_exists : Bool) (s t : Machine)
      → s.db.metadata ≡ []
      → initialize env path_exists password params s ≡ (ok tt, t)
      → IsNamed t
  unfolding initialize file_call
  initialize-IsNamed password params path_exists s t empty h = >>=-elim _ _ _ _ h λ a1 s1 e1 h1.
      >>=-elim _ _ _ _ h1 λ a2 s2 e2 h2. >>=-elim _ _ _ _ h2 λ a3 s3 e3 h3.
        let called : s3.db ≡ s2.db = ground arith in
        let start : s3.db ≡ s.db =
          called ∙ ap (λ (m : Machine). m.db) ((lift-ok _ e2).1 ∙ (lift-ok _ e1).1) in
        (initialize_new-Leaves password params).at s3 t tt
          (removed_on_error-ok env (initialize_new env password params) s3 t h3)
          (record { rows_are = ap (λ (d : Db). d.metadata) start ∙ empty })

  open_vault-IsNamed :
      (up : (n : ℕ) → env.fault n ≡ false) (n : ℕ) (t : Machine)
      → IsNamed t
      → open_vault env (record t { vault_id = []; keys = none; calls = n })
        ≡ (ok tt, record t { keys = none; calls = n + 1 + 1 })
  unfolding open_vault query set_vault_id lift ◌>>=◌ equal
  open_vault-IsNamed up n t named = rw (up n, named.names.schema, up (n + 1), named.names.name) refl

module _ (env : Env) (laws : OpensSealed env) (full : FullReads env)
    (json : ReadsBack env.params_json) (up : (n : ℕ) → env.fault n ≡ false) where
  -- What another process finds, whatever the number of its calls.
  pub initialize-opens :
      (password : Bytes) (params : KdfParams) (path_exists : Bool) (s t : Machine) (n : ℕ)
      → s.db.metadata ≡ []
      → s.db.wrappers ≡ []
      → initialize env path_exists password params s ≡ (ok tt, t)
      → (k : KeySet) × (u v : Machine) × (t.keys ≡ some k)
        × (open_vault env (record t { vault_id = []; keys = none; calls = n }) ≡ (ok tt, u))
        × (u.keys ≡ none)
        × (unlock env password u ≡ (ok tt, v))
        × (v.keys ≡ some k)
        × (v.db ≡ t.db)
        × (v.vault_id ≡ t.vault_id)
  initialize-opens password params path_exists s t n no_names empty h =
      let (k, keyed, unlocks) =
        initialize-unlocks env laws full json up password params path_exists s t empty h in
      (
        k,
        record t { keys = none; calls = n + 1 + 1 },
        record t { keys = some k; calls = n + 1 + 1 + 1 },
        keyed,
        open_vault-IsNamed env up n t
            (initialize-IsNamed env password params path_exists s t no_names h),
        refl,
        unlocks (n + 1 + 1),
        refl,
        refl,
        refl,
      )

  -- Where sealed data opens, random reads are full, the parameters read back from their JSON, no
  -- database call fails for an outside reason and the tables have no metadata and no key wrapper
  -- yet, an Initialize that succeeds leaves keys installed; Open of its tables in a process that
  -- knows neither the keys nor the identifier succeeds and leaves the vault locked, and Unlock
  -- with the password of the Initialize then succeeds and installs the same keys, with the same
  -- tables and identifier.
  pub initialize-open_vault :
      (password : Bytes) (params : KdfParams) (path_exists : Bool) (s t : Machine)
      → s.db.metadata ≡ []
      → s.db.wrappers ≡ []
      → initialize env path_exists password params s ≡ (ok tt, t)
      → (k : KeySet) × (u v : Machine) × (t.keys ≡ some k)
        × (open_vault env (record t { vault_id = []; keys = none }) ≡ (ok tt, u))
        × (u.keys ≡ none)
        × (unlock env password u ≡ (ok tt, v))
        × (v.keys ≡ some k)
        × (v.db ≡ t.db)
        × (v.vault_id ≡ t.vault_id)
  initialize-open_vault password params path_exists s t no_names empty h =
      initialize-opens password params path_exists s t t.calls no_names empty h

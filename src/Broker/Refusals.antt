-- ===== src/Broker/Refusals.antt =====
-- The cases of Handle that fail while the vault is locked.
use vibe_coding_secret_manag.Prelude.{
  ◌≡◌, refl, sym, ◌∙◌, Bool, true, false, List, Option, none, some, arith, Bytes,
}
use vibe_coding_secret_manag.Outcome.{Result, ok, err}
use vibe_coding_secret_manag.Machine.Tables.{Db}
use vibe_coding_secret_manag.Machine.Env.{Env}
use vibe_coding_secret_manag.Machine.Exec.{Exec, Machine, KeySet, copy_keys, file_call, ◌>>=◌, ◌>>◌}
use vibe_coding_secret_manag.Machine.Rules.{Frame, Frame-query}
use vibe_coding_secret_manag.Machine.Triples.{
  Triple, Ends, Triple-bind, Keeps, Keeps-from, Keeps-after, Keeps-lift, Keeps-bind,
}
use vibe_coding_secret_manag.Api.{Response}
use vibe_coding_secret_manag.Vault.Session.{open_vault, set_vault_id}
use vibe_coding_secret_manag.Vault.Secrets.{
  create_secret, rotate_secret, revoke_secret, list_secrets,
}
use vibe_coding_secret_manag.Vault.Actions.{put_action, get_action, list_actions}
use vibe_coding_secret_manag.Vault.Audit.{list_audit}
use vibe_coding_secret_manag.Broker.{
  open_file, opened_by, Host, Service, Serve, in_store, get_store, new_value,
}
use vibe_coding_secret_manag.Vault.Frames.{Frame-verify_password}
use vibe_coding_secret_manag.Broker.Silent.{Sent}
use vibe_coding_secret_manag.Broker.Actions.{run_action}
use vibe_coding_secret_manag.Broker.Handle.{
  Operation, status_op, unlock_op, lock_op, create_case, rotate_case, revoke_case, list_case,
  configure_case, actions_case, audit_case, run_case,
}

-- A store without keys, with these tables.
abbrev pub IsLocked : Db → Machine → Type 0
IsLocked d s = (s.keys ≡ none) × (s.db ≡ d)

-- A run that fails in such a store, and leaves it so.
abbrev pub IsRefused : {A : Type 0} → Db → Exec A → Type 0
IsRefused d m = Triple (IsLocked d) m (λ a s. ⊥) (IsLocked d)

module _ {d : Db} where
  pub copy_keys-IsRefused : {A : Type 0} (f : KeySet → Exec A) → IsRefused d (copy_keys >>= f)
  unfolding copy_keys
  copy_keys-IsRefused f = Triple-bind first λ keys. record { at = λ s h. absurd h }
    where
      go :
          (s : Machine) (keys : Option KeySet)
          → s.keys ≡ keys
          → IsLocked d s
          → Ends (λ a s. ⊥) (IsLocked d) (copy_keys s)
      go s none e p = rw (e, copy_keys) p
      go s (some k) e p = absurd (let bad : some k ≡ none = sym e ∙ p.0 in cc)

      first : Triple (IsLocked d) copy_keys (λ a s. ⊥) (IsLocked d)
      first = record { at = λ s p. go s s.keys refl p }

  pub Frame-Keeps : {A : Type 0} {m : Exec A} → Frame m → Keeps (IsLocked d) m
  Frame-Keeps f = Keeps-from (λ s p. ((f.at s).keys ∙ p.0, (f.at s).db ∙ p.1))

  pub file_call-Keeps : (env : Env) → Keeps (IsLocked d) (file_call env)
  unfolding file_call
  file_call-Keeps env = Keeps-from (λ s p. ground (arith, p))

  pub set_vault_id-Keeps : (id : Bytes) → Keeps (IsLocked d) (set_vault_id id)
  unfolding set_vault_id
  set_vault_id-Keeps id = Keeps-from (λ s p. p)

  pub open_vault-Keeps : (env : Env) → Keeps (IsLocked d) (open_vault env)
  unfolding open_vault
  open_vault-Keeps env = Keeps-bind (Frame-Keeps (Frame-query env _)) λ version.
      Keeps-bind (Keeps-lift _)
        λ checked. Keeps-bind (Frame-Keeps (Frame-query env _)) λ id. set_vault_id-Keeps id

  pub open_file-Keeps : (env : Env) → Keeps (IsLocked d) (open_file env)
  unfolding open_file
  open_file-Keeps env =
      Keeps-bind (file_call-Keeps env)
        (λ a. Keeps-bind (file_call-Keeps env) (λ b. open_vault-Keeps env))

-- The broker, with its store locked, these tables, and these responses sent.
abbrev pub IsShut : Db → List Response → Service → Type 0
IsShut d l s = IsLocked d s.store × Sent l s

pub in_store-Triple :
    {A : Type 0} {P : Machine → Type 0} {Q : A → Machine → Type 0} {E : Machine → Type 0}
    {l : List Response} {m : Exec A}
    → Triple P m Q E
    → Triple
        (λ s. P s.store × Sent l s)
        (in_store m)
        (λ a s. Q a s.store × Sent l s)
        (λ s. E s.store × Sent l s)
unfolding in_store
in_store-Triple {A} {P} {Q} {E} {l} {m} k = record {
  at = λ s p. go s (m s.store) (k.at s.store p.0) p.1;
}
  where
    go :
        (s : Service) (r : Result A × Machine)
        → Ends Q E r
        → Sent l s
        → Ends (λ a s. Q a s.store × Sent l s) (λ s. E s.store × Sent l s) (in_store (λ t. r) s)
    go s (ok a, t) h p = (h, p)
    go s (err e, t) h p = (h, p)

-- A case of Handle that fails while the store is locked, and leaves all as it is.
abbrev pub IsRefusal : {A : Type 0} → Db → List Response → Serve A → Type 0
IsRefusal d l m = Triple (IsShut d l) m (λ a s. ⊥) (IsShut d l)

module _ (host : Host) {d : Db} {l : List Response} where
  pub get_store-IsShut : Keeps (IsShut d l) (get_store host)
  unfolding get_store opened_by
  get_store-IsShut = Keeps-from λ s p.
      let opening = Keeps-after (open_file-Keeps host.env) s.store p.0 in
      ground (arith, opening, p.1)

  pub new_value-IsShut : (name : Bytes) → Keeps (IsShut d l) (new_value host name)
  unfolding new_value
  new_value-IsShut name = Keeps-from (λ s p. p)

  pub refused_in_store :
      {A B : Type 0} {m : Exec A} (f : A → Serve B)
      → IsRefused d m
      → IsRefusal d l (get_store host >> (in_store m >>= f))
  refused_in_store f k =
      Triple-bind get_store-IsShut
        λ a. Triple-bind (in_store-Triple k) λ b. record { at = λ s h. absurd h.0 }

  pub create_case-IsRefusal : (encoded : Bytes) → IsRefusal d l (create_case host encoded)
  unfolding create_case create_secret
  create_case-IsRefusal encoded = Triple-bind (Keeps-lift _) λ payload.
      Triple-bind (Keeps-lift _) λ checked.
        Triple-bind (new_value-IsShut _) λ made. refused_in_store _ (copy_keys-IsRefused _)

  pub rotate_case-IsRefusal : (encoded : Bytes) → IsRefusal d l (rotate_case host encoded)
  unfolding rotate_case rotate_secret
  rotate_case-IsRefusal encoded = Triple-bind (Keeps-lift _) λ payload.
      Triple-bind (Keeps-lift _) λ checked.
        Triple-bind (new_value-IsShut _) λ made. refused_in_store _ (copy_keys-IsRefused _)

  pub revoke_case-IsRefusal : (encoded : Bytes) → IsRefusal d l (revoke_case host encoded)
  unfolding revoke_case revoke_secret
  revoke_case-IsRefusal encoded =
      Triple-bind (Keeps-lift _) λ payload. refused_in_store _ (copy_keys-IsRefused _)

  pub list_case-IsRefusal : (encoded : Bytes) → IsRefusal d l (list_case host encoded)
  unfolding list_case list_secrets
  list_case-IsRefusal encoded =
      Triple-bind (Keeps-lift _) λ payload. refused_in_store _ (copy_keys-IsRefused _)

  pub actions_case-IsRefusal : (encoded : Bytes) → IsRefusal d l (actions_case host encoded)
  unfolding actions_case list_actions
  actions_case-IsRefusal encoded =
      Triple-bind (Keeps-lift _) λ payload. refused_in_store _ (copy_keys-IsRefused _)

  pub audit_case-IsRefusal : (encoded : Bytes) → IsRefusal d l (audit_case host encoded)
  unfolding audit_case list_audit
  audit_case-IsRefusal encoded =
      Triple-bind (Keeps-lift _) λ payload. refused_in_store _ (copy_keys-IsRefused _)

  pub run_case-IsRefusal : (encoded : Bytes) → IsRefusal d l (run_case host encoded)
  unfolding run_case run_action get_action
  run_case-IsRefusal encoded =
      Triple-bind (Keeps-lift _) λ payload. refused_in_store _ (copy_keys-IsRefused _)

  pub configure_case-IsRefusal : (encoded : Bytes) → IsRefusal d l (configure_case host encoded)
  unfolding configure_case put_action
  configure_case-IsRefusal encoded = Triple-bind (Keeps-lift _) λ payload.
      Triple-bind (Keeps-lift _) λ checked. Triple-bind get_store-IsShut λ opened.
        Triple-bind (in_store-Triple (Frame-Keeps (Frame-verify_password host.env _))) λ verified.
          Triple-bind (in_store-Triple (copy_keys-IsRefused _))
            λ stored. record { at = λ s h. absurd h.0 }

-- The requests that a locked vault may answer with success.
abbrev pub is_allowed_locked : Option Operation → Bool
is_allowed_locked (some status_op) = true
is_allowed_locked (some unlock_op) = true
is_allowed_locked (some lock_op) = true
is_allowed_locked _ = false

-- ===== src/Broker/Stores.antt =====
-- The store behind the broker: its tables are well-formed, and it is unlocked where it has to be.
use vibe_coding_secret_manag.Prelude.{
  ℕ, ◌≡◌, refl, sym, subst, ◌∙◌, Bool, true, false, not, ◌||◌, Option, arith, Bytes, if_both,
}
use vibe_coding_secret_manag.Machine.Env.{Env}
use vibe_coding_secret_manag.Machine.Exec.{Exec, Machine, KeySet, file_call}
use vibe_coding_secret_manag.Machine.Rules.{Frame, Frame-query}
use vibe_coding_secret_manag.Machine.Triples.{
  Triple, Ends, Triple-bind, Keeps, Keeps-from, Keeps-after, Keeps-lift, Keeps-bind,
}
use vibe_coding_secret_manag.Model.{Scope, SecretMetadata, Action, AuditEvent}
use vibe_coding_secret_manag.Broker.{open_file}
use vibe_coding_secret_manag.Vault.Session.{
  open_vault, set_vault_id, is_unlocked, unlock, unlock_locked, install_keys, set_keys,
}
use vibe_coding_secret_manag.Vault.Invariant.{
  IsWellFormed, create_secret-IsWellFormed, rotate_secret-IsWellFormed, revoke_secret-IsWellFormed,
}
use vibe_coding_secret_manag.Vault.Reachable.{
  either_way, put_action-IsWellFormed, record_audit-IsWellFormed,
}
use vibe_coding_secret_manag.Vault.Atomic.{
  create_secret-IsAtomic, rotate_secret-IsAtomic, revoke_secret-IsAtomic, put_action-IsAtomic,
  record_audit-IsAtomic,
}
use vibe_coding_secret_manag.Vault.Keys.{
  HasKeys, create_secret-HasKeys, rotate_secret-HasKeys, revoke_secret-HasKeys, put_action-HasKeys,
  record_audit-HasKeys,
}
use vibe_coding_secret_manag.Vault.Frames.{Frame-unwrap_dek}
use vibe_coding_secret_manag.Vault.Secrets.{create_secret, rotate_secret, revoke_secret}
use vibe_coding_secret_manag.Vault.Actions.{put_action}
use vibe_coding_secret_manag.Vault.Audit.{record_audit}

-- A store with well-formed tables, which is unlocked if it has to be.
pub record IsStore (needed : Bool) (s : Machine) : Type 0 where
  pub well : IsWellFormed s.db
  pub unlocked : not needed || is_unlocked s ≡ true

module _ {needed : Bool} where
  -- An operation that keeps the keys and the tables well-formed.
  tame :
      {A : Type 0} {m : Exec A}
      → ((k : Option KeySet) → Keeps (HasKeys k) m)
      → ((s : Machine) → IsWellFormed s.db → IsWellFormed (m s).1.db)
      → Keeps (IsStore needed) m
  unfolding is_unlocked
  tame {m = m} keys well = Keeps-from λ s p.
      let same : (m s).1.keys ≡ s.keys = Keeps-after (keys s.keys) s refl in
      record { well = well s p.well; unlocked = rw same p.unlocked }

  pub tame_Frame : {A : Type 0} {m : Exec A} → Frame m → Keeps (IsStore needed) m
  tame_Frame f =
      tame (λ k. Keeps-from (λ s p. (f.at s).keys ∙ p))
        (λ s w. subst IsWellFormed (sym (f.at s).db) w)

  module _ (env : Env) where
    pub create_secret-IsStore :
        (given : SecretMetadata) (value : Bytes)
        → Keeps (IsStore needed) (create_secret env given value)
    create_secret-IsStore given value =
        tame (λ k. create_secret-HasKeys env given value)
          λ s.
            either_way env _ s (create_secret-IsAtomic env given value)
              (λ t a h. create_secret-IsWellFormed env given value s t a h)

    pub rotate_secret-IsStore :
        (scope : Scope) (name profile : Bytes) (strength : ℕ) (value : Bytes)
        → Keeps (IsStore needed) (rotate_secret env scope name profile strength value)
    rotate_secret-IsStore scope name profile strength value =
        tame (λ k. rotate_secret-HasKeys env scope name profile strength value)
          λ s.
            either_way env _ s (rotate_secret-IsAtomic env scope name profile strength value)
              (λ t a h. rotate_secret-IsWellFormed env scope name profile strength value s t a h)

    pub revoke_secret-IsStore :
        (scope : Scope) (name : Bytes) → Keeps (IsStore needed) (revoke_secret env scope name)
    revoke_secret-IsStore scope name =
        tame (λ k. revoke_secret-HasKeys env scope name)
          λ s.
            either_way env _ s (revoke_secret-IsAtomic env scope name)
              (λ t a h. revoke_secret-IsWellFormed env scope name s t a h)

    pub put_action-IsStore : (given : Action) → Keeps (IsStore needed) (put_action env given)
    put_action-IsStore given =
        tame (λ k. put_action-HasKeys env given)
          λ s.
            either_way env _ s (put_action-IsAtomic env given)
              (λ t a h. put_action-IsWellFormed env given s t a h)

    pub record_audit-IsStore :
        (event : AuditEvent) → Keeps (IsStore needed) (record_audit env event)
    record_audit-IsStore event =
        tame (λ k. record_audit-HasKeys env event)
          λ s.
            either_way env _ s (record_audit-IsAtomic env event)
              (λ t a h. record_audit-IsWellFormed env event s t h)

    pub file_call-IsStore : Keeps (IsStore needed) (file_call env)
    unfolding file_call is_unlocked
    file_call-IsStore =
        Keeps-from
          λ s p. record { well = ground (arith, p.well); unlocked = ground (arith, p.unlocked) }

    pub open_vault-IsStore : Keeps (IsStore needed) (open_vault env)
    unfolding open_vault set_vault_id is_unlocked
    open_vault-IsStore = Keeps-bind (tame_Frame (Frame-query env _)) λ version.
        Keeps-bind (Keeps-lift _) λ checked.
          Keeps-bind (tame_Frame (Frame-query env _))
            λ id. Keeps-from (λ s p. record { well = p.well; unlocked = p.unlocked })

    pub open_file-IsStore : Keeps (IsStore needed) (open_file env)
    unfolding open_file
    open_file-IsStore =
        Keeps-bind file_call-IsStore (λ a. Keeps-bind file_call-IsStore (λ b. open_vault-IsStore))

    -- Unlock leaves the store unlocked where it succeeds.
    install_keys-IsStore :
        (dek : Bytes)
        → Triple (IsStore needed) (install_keys env dek) (λ a. IsStore true) (IsStore needed)
    unfolding install_keys set_keys is_unlocked
    install_keys-IsStore dek = Triple-bind (Keeps-lift _) λ metadata.
        Triple-bind (Keeps-lift _) λ lookup.
          Triple-bind (Keeps-lift _)
            λ audit. record { at = λ s p. record { well = p.well; unlocked = refl } }

    unlock_locked-IsStore :
        (password : Bytes)
        → Triple (IsStore needed) (unlock_locked env password) (λ a. IsStore true) (IsStore needed)
    unfolding unlock_locked
    unlock_locked-IsStore password =
        Triple-bind (tame_Frame (Frame-unwrap_dek env password)) (λ dek. install_keys-IsStore dek)

    pub unlock-IsStore :
        (password : Bytes)
        → Triple (IsStore needed) (unlock env password) (λ a. IsStore true) (IsStore needed)
    unfolding unlock
    unlock-IsStore password = record {
      at = λ s p.
          if_both (is_unlocked s) (Ends {A = Unit {0}} (λ a. IsStore true) (IsStore needed))
            (λ e. record { well = p.well; unlocked = e })
            (λ e. (unlock_locked-IsStore password).at s p);
    }

-- An unlocked store is always good enough.
pub any-IsStore : (needed : Bool) (s : Machine) → IsStore true s → IsStore needed s
any-IsStore false s p = record { well = p.well; unlocked = refl }
any-IsStore true s p = p

-- ===== src/Broker/Threads/Commits.antt =====
-- What every transaction of the vault keeps, on its own: well-formed tables.
use vibe_coding_secret_manag.Prelude.{ℕ, ◌≡◌, refl, sym, subst, false, Bytes}
use vibe_coding_secret_manag.Outcome.{ok}
use vibe_coding_secret_manag.Model.{AuditEvent}
use vibe_coding_secret_manag.Machine.Tables.{pending, ObjectRow, VersionRow}
use vibe_coding_secret_manag.Machine.Env.{Env}
use vibe_coding_secret_manag.Machine.Exec.{Exec, Machine, KeySet, transaction}
use vibe_coding_secret_manag.Machine.Rules.{transaction-ok, transaction-IsAtomic}
use vibe_coding_secret_manag.Machine.Triples.{Keeps, Keeps-from}
use vibe_coding_secret_manag.Vault.Audit.{append_audit}
use vibe_coding_secret_manag.Vault.Secrets.{insert_secret, promote_version, close_secret}
use vibe_coding_secret_manag.Vault.Secrets.Prepared.{KeepsPlace}
use vibe_coding_secret_manag.Vault.Secrets.Effects.{
  insert_secret-Created, promote_version-Promoted, close_secret-Revoked,
}
use vibe_coding_secret_manag.Vault.Actions.{write_action}
use vibe_coding_secret_manag.Vault.Invariant.{
  IsWellFormed, Created-IsWellFormed, Promoted-IsWellFormed, Revoked-IsWellFormed,
}
use vibe_coding_secret_manag.Vault.Reachable.{
  either_way, KeepsVersions-IsWellFormed, write_action-KeepsVersions, Appended-KeepsVersions,
}
use vibe_coding_secret_manag.Broker.Stores.{IsStore}

-- The transactions of the vault's operations, each on its own.
module _ (env : Env) where
  commits :
      {body : Exec (Unit {0})}
      → ((s t : Machine) → body s ≡ (ok tt, t) → IsWellFormed s.db → IsWellFormed t.db)
      → Keeps (IsStore false) (transaction env body)
  commits {body} keeps = Keeps-from λ s p. record {
    well =
        either_way env _ s (transaction-IsAtomic env body)
          (λ t a h w.
            let (s', t', ran, before, after) = transaction-ok env body s t tt h in
            subst IsWellFormed (sym after.db)
              (keeps s' t' ran (subst IsWellFormed (sym before.db) w)))
          p.well;
    unlocked = refl;
  }

  module _ (keys : KeySet) where
    pub insert_secret-commits :
        (object : ObjectRow) (version : VersionRow)
        → version.secret_id ≡ object.object_id
        → Keeps (IsStore false) (transaction env (insert_secret env keys object version))
    insert_secret-commits object version same = commits λ s t h w.
        Created-IsWellFormed (insert_secret-Created env keys object version s t h).0 same w

    pub promote_version-commits :
        (version : VersionRow) (change : ObjectRow → ObjectRow) (revision : ℕ)
        → version.state ≡ pending
        → KeepsPlace change
        → Keeps (IsStore false) (transaction env (promote_version env keys version change revision))
    promote_version-commits version change revision p k = commits λ s t h w.
        Promoted-IsWellFormed (promote_version-Promoted env keys version change revision s t p h).0
          k w

    pub close_secret-commits :
        (id : Bytes) (change : ObjectRow → ObjectRow) (at : Bytes)
        → KeepsPlace change
        → Keeps (IsStore false) (transaction env (close_secret env keys id change at))
    close_secret-commits id change at k =
        commits
          λ s t h w. Revoked-IsWellFormed (close_secret-Revoked env keys id change at s t h).0 k w

    pub write_action-commits :
        (revision : ℕ) (row : ObjectRow)
        → Keeps (IsStore false) (transaction env (write_action env keys revision row))
    write_action-commits revision row = commits λ s t h w.
        KeepsVersions-IsWellFormed (write_action-KeepsVersions env keys revision row s t h) w

    pub append_audit-commits :
        (event : AuditEvent)
        → Keeps (IsStore false) (transaction env (append_audit env keys.audit event))
    append_audit-commits event =
        commits λ s t h w.
          KeepsVersions-IsWellFormed (Appended-KeepsVersions env keys.audit event s t h) w

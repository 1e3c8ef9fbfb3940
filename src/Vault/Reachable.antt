-- ===== src/Vault/Reachable.antt =====
-- Sequences of the vault's operations, each of which may succeed or fail, and what holds after any.
use vibe_coding_secret_manag.Prelude.{
  ℕ, ◌≡◌, refl, sym, ap, subst, ◌∙◌, Bool, true, false, none, Bytes, equal, ◌==◌, if◌then◌else◌,
}
use vibe_coding_secret_manag.Outcome.{Result, ok, err}
use vibe_coding_secret_manag.Model.{Scope, SecretMetadata, Action, AuditEvent}
use vibe_coding_secret_manag.Machine.Tables.{ObjectRow, Db}
use vibe_coding_secret_manag.Machine.Env.{Env}
use vibe_coding_secret_manag.Machine.Exec.{KeySet, Machine, Exec}
use vibe_coding_secret_manag.Machine.Rules.{
  >>=-elim, pure-ok, statement-ok, copy_keys-ok, transaction-ok, Frame-ok, IsAtomic,
}
use vibe_coding_secret_manag.Vault.Rows.{find_id, insert_object, update_object}
use vibe_coding_secret_manag.Vault.Audit.{append_audit, record_audit}
use vibe_coding_secret_manag.Vault.Audit.Append.{append_audit-Appended}
use vibe_coding_secret_manag.Vault.Secrets.{create_secret, rotate_secret, revoke_secret}
use vibe_coding_secret_manag.Vault.Secrets.Effects.{insert_object-ok, update_object-ok}
use vibe_coding_secret_manag.Vault.Secrets.Prepared.{KeepsPlace, change_object-KeepsPlace}
use vibe_coding_secret_manag.Vault.Actions.{write_action, put_action}
use vibe_coding_secret_manag.Vault.Frames.{Frame-prepare_action}
use vibe_coding_secret_manag.Vault.Session.{lock}
use vibe_coding_secret_manag.Vault.Atomic.{
  create_secret-IsAtomic, rotate_secret-IsAtomic, revoke_secret-IsAtomic, put_action-IsAtomic,
  record_audit-IsAtomic,
}
use vibe_coding_secret_manag.Vault.Invariant.{
  IsWellFormed, find_id-append, find_id-map, create_secret-IsWellFormed, rotate_secret-IsWellFormed,
  revoke_secret-IsWellFormed,
}

-- The tables keep their secret versions, and no object goes away.
pub record KeepsVersions (before after : Db) : Type 0 where
  pub versions : after.versions ≡ before.versions
  pub objects : (id : Bytes) → find_id id after.objects ≡ none → find_id id before.objects ≡ none

pub KeepsVersions-IsWellFormed :
    {before after : Db} → KeepsVersions before after → IsWellFormed before → IsWellFormed after
KeepsVersions-IsWellFormed k w = record {
  one_active = λ id. rw k.versions (w.one_active id);
  referenced = λ id gone. rw k.versions (w.referenced id (k.objects id gone));
}

placed :
    (new : Bool) (row : ObjectRow) (change : ObjectRow → ObjectRow) (before after : Db)
    → KeepsPlace change
    → (if new then insert_object row else update_object change row.object_id) before
      ≡ ok (tt, after)
    → KeepsVersions before after
placed true row change before after k h =
    let (free, e) = insert_object-ok row before after h in
    record {
      versions = ap (λ (d : Db). d.versions) e;
      objects = λ id gone.
          find_id-append id before.objects row (subst (λ d. find_id id d.objects ≡ none) e gone);
    }
placed false row change before after k h =
    let e = update_object-ok change row.object_id before after h in
    record {
      versions = ap (λ (d : Db). d.versions) e;
      objects = λ id gone.
          find_id-map (λ r. equal r.object_id row.object_id) change id before.objects k
            (subst (λ d. find_id id d.objects ≡ none) e gone);
    }

pub Appended-KeepsVersions :
    (env : Env) (key : Bytes) (event : AuditEvent) (s t : Machine)
    → append_audit env key event s ≡ (ok tt, t)
    → KeepsVersions s.db t.db
Appended-KeepsVersions env key event s t h =
    let (row, a, kept) = append_audit-Appended env key event s t h in
    record {
      versions = ap (λ (d : Db). d.versions) a.tables;
      objects = λ id gone. subst (λ d. find_id id d.objects ≡ none) a.tables gone;
    }

module _ (env : Env) where
  pub write_action-KeepsVersions :
      (keys : KeySet) (revision : ℕ) (row : ObjectRow) (s t : Machine)
      → write_action env keys revision row s ≡ (ok tt, t)
      → KeepsVersions s.db t.db
  unfolding write_action
  write_action-KeepsVersions keys revision row s t h = >>=-elim _ _ _ _ h λ done s1 e1 h1.
      let (r1, k1) = statement-ok env _ s s1 tt e1 in
      let p =
        placed (revision == 0) row _ s.db s1.db
          (change_object-KeepsPlace row.metadata_nonce row.metadata_ciphertext row.revision
            row.updated_at)
          r1 in
      let q = Appended-KeepsVersions env keys.audit _ s1 t h1 in
      record {
        versions = q.versions ∙ p.versions;
        objects = λ id gone. p.objects id (q.objects id gone);
      }

  pub put_action-IsWellFormed :
      (given : Action) (s t : Machine) (a : Action)
      → put_action env given s ≡ (ok a, t)
      → IsWellFormed s.db
      → IsWellFormed t.db
  unfolding put_action
  put_action-IsWellFormed given s t a h w = >>=-elim _ _ _ _ h λ keys s1 e1 h1.
      >>=-elim _ _ _ _ h1 λ made s2 e2 h2. >>=-elim _ _ _ _ h2 λ done s3 e3 h3.
        let like = Frame-ok (Frame-prepare_action env keys given) e2 in
        let (s', t', ran, before, after) = transaction-ok env _ s2 s3 tt e3 in
        let kept = write_action-KeepsVersions keys made.1 made.2 s' t' ran in
        let start =
          before.db ∙ like.db ∙ ap (λ (m : Machine). m.db) (copy_keys-ok s s1 keys e1).1 in
        let end = ap (λ (m : Machine). m.db) (pure-ok h3).1 ∙ after.db in
        subst IsWellFormed (sym end)
          (KeepsVersions-IsWellFormed kept (subst IsWellFormed (sym start) w))

  pub record_audit-IsWellFormed :
      (event : AuditEvent) (s t : Machine)
      → record_audit env event s ≡ (ok tt, t)
      → IsWellFormed s.db
      → IsWellFormed t.db
  unfolding record_audit
  record_audit-IsWellFormed event s t h w = >>=-elim _ _ _ _ h λ keys s1 e1 h1.
      let (s', t', ran, before, after) = transaction-ok env _ s1 t tt h1 in
      let kept = Appended-KeepsVersions env keys.audit event s' t' ran in
      let start = before.db ∙ ap (λ (m : Machine). m.db) (copy_keys-ok s s1 keys e1).1 in
      subst IsWellFormed (sym after.db)
        (KeepsVersions-IsWellFormed kept (subst IsWellFormed (sym start) w))

  -- One operation on the vault, whether it succeeds or fails.
  pub data Step : Machine → Machine → Type 0 where
    creates :
        (given : SecretMetadata) (value : Bytes) (s : Machine)
        → Step s (create_secret env given value s).1
    rotates :
        (scope : Scope) (name profile : Bytes) (strength : ℕ) (value : Bytes) (s : Machine)
        → Step s (rotate_secret env scope name profile strength value s).1
    revokes :
        (scope : Scope) (name : Bytes) (s : Machine) → Step s (revoke_secret env scope name s).1
    configures : (given : Action) (s : Machine) → Step s (put_action env given s).1
    records : (event : AuditEvent) (s : Machine) → Step s (record_audit env event s).1
    locks : (s : Machine) → Step s (lock s).1

  pub data Reaches (s : Machine) : Machine → Type 0 where
    start : Reaches s s
    next : {t u : Machine} → Reaches s t → Step t u → Reaches s u

  pub either_way :
      {A : Type 0} (m : Exec A) (s : Machine)
      → IsAtomic m
      → ((t : Machine) (a : A) → m s ≡ (ok a, t) → IsWellFormed s.db → IsWellFormed t.db)
      → IsWellFormed s.db
      → IsWellFormed (m s).1.db
  either_way {A} m s atomic keeps w = go (m s).0 (m s).1 refl
    where
      go : (r : Result A) (t : Machine) → m s ≡ (r, t) → IsWellFormed t.db
      go (ok a) t e = keeps t a e w
      go (err x) t e = subst IsWellFormed (sym (atomic.at s t x e)) w

  Step-IsWellFormed : {s t : Machine} → Step s t → IsWellFormed s.db → IsWellFormed t.db
  unfolding lock
  Step-IsWellFormed (creates given value s) w =
      either_way _ s (create_secret-IsAtomic env given value)
        (λ t a h. create_secret-IsWellFormed env given value s t a h) w
  Step-IsWellFormed (rotates scope name profile strength value s) w =
      either_way _ s (rotate_secret-IsAtomic env scope name profile strength value)
        (λ t a h. rotate_secret-IsWellFormed env scope name profile strength value s t a h) w
  Step-IsWellFormed (revokes scope name s) w =
      either_way _ s (revoke_secret-IsAtomic env scope name)
        (λ t a h. revoke_secret-IsWellFormed env scope name s t a h) w
  Step-IsWellFormed (configures given s) w =
      either_way _ s (put_action-IsAtomic env given)
        (λ t a h. put_action-IsWellFormed given s t a h) w
  Step-IsWellFormed (records event s) w =
      either_way _ s (record_audit-IsAtomic env event)
        (λ t a h. record_audit-IsWellFormed event s t h) w
  Step-IsWellFormed (locks s) w = w

  -- After any sequence of CreateSecret, RotateSecret, RevokeSecret, PutAction, RecordAudit and
  -- Lock, each of which may succeed or fail, tables that were well-formed are well-formed: a
  -- secret has at most one active version, and an active version belongs to a stored object.
  pub Reaches-IsWellFormed : {s t : Machine} → Reaches s t → IsWellFormed s.db → IsWellFormed t.db
  Reaches-IsWellFormed start w = w
  Reaches-IsWellFormed (next r step) w = Step-IsWellFormed step (Reaches-IsWellFormed r w)

-- ===== src/Vault/Actions/Writing.antt =====
-- What PutAction prepares, and what it writes.
use vibe_coding_secret_manag.Prelude.{
  ℕ, ◌+◌, ◌≡◌, refl, sym, ap, subst, ◌∙◌, ◌⊎◌, inl, inr, true, false, List, [], ◌∷◌, ◌++◌, map,
  Option, none, some, arith, Bytes, equal, Bool-cases, ◌==◌, if◌then◌else◌,
}
use vibe_coding_secret_manag.Outcome.{ok, require-ok, bad_json}
use vibe_coding_secret_manag.Model.{Time, Action}
use vibe_coding_secret_manag.Machine.Tables.{action, ObjectRow, Db}
use vibe_coding_secret_manag.Machine.Env.{Env, OpensSealed}
use vibe_coding_secret_manag.Machine.Exec.{KeySet, Machine}
use vibe_coding_secret_manag.Machine.Rules.{
  >>=-elim, pure-ok, lift-ok, query-ok, statement-ok, Frame-ok, Frame-clock,
}
use vibe_coding_secret_manag.SecureCrypto.{open_sealed}
use vibe_coding_secret_manag.SecureCrypto.Sealing.{open-seal}
use vibe_coding_secret_manag.Vault.Rows.{find_token, has_clash, change_object}
use vibe_coding_secret_manag.Vault.Context.{action_lookup, object_aad, stamp}
use vibe_coding_secret_manag.Vault.Audit.Append.{append_audit-Appended}
use vibe_coding_secret_manag.Vault.Actions.{
  action_scope, open_action, identify, write_action, prepare_action,
}
use vibe_coding_secret_manag.Vault.Secrets.Prepared.{FullReads}
use vibe_coding_secret_manag.Vault.Secrets.Effects.{insert_object-ok, update_object-ok}

-- The tables behind PutAction: the row is new, or in place of the rows with its id.
abbrev pub replaced : ObjectRow → List ObjectRow → List ObjectRow
replaced row rows =
    map
      (λ r.
        if equal r.object_id row.object_id
        then change_object row.metadata_nonce row.metadata_ciphertext row.revision row.updated_at r
        else r)
      rows

-- What the statements of PutAction have done to the objects.
abbrev pub Written : ℕ → ObjectRow → Db → Db → Type 0
Written revision row before after =
    ((revision == 0 ≡ true)
      × (has_clash row before.objects ≡ false)
      × (after.objects ≡ before.objects ++ row ∷ []))
    ⊎ ((revision == 0 ≡ false) × (after.objects ≡ replaced row before.objects))

-- The JSON of this action reads back.
abbrev pub ReadsAs : Env → Action → Type 0
ReadsAs env a =
    (bytes : Bytes)
    → env.action_json.marshal a ≡ some bytes
    → env.action_json.unmarshal bytes ≡ some a

module _ (env : Env) (keys : KeySet) where
  -- A new action has revision 0; another one is the action that the token leads to.
  identify-ok :
      (now : Time) (existing : Option ObjectRow) (s t : Machine) (found : Bytes × Time × ℕ)
      → identify env keys now existing s ≡ (ok found, t)
      → (found.2 ≡ 0) ⊎ ((old : ObjectRow) × (existing ≡ some old) × (found.0 ≡ old.object_id))
  unfolding identify
  identify-ok now none s t found h =
      >>=-elim _ _ _ _ h λ id s1 e1 h1. inl (ap (λ (f : Bytes × Time × ℕ). f.2) (pure-ok h1).0)
  identify-ok now (some row) s t found h =
      >>=-elim _ _ _ _ h
        λ current s1 e1 h1. inr (row, refl, ap (λ (f : Bytes × Time × ℕ). f.0) (pure-ok h1).0)

  open_action-ok :
      (row : ObjectRow) (revision : ℕ) (plaintext : Bytes) (a : Action)
      → open_sealed env keys.metadata row.metadata_nonce row.metadata_ciphertext
          (object_aad action row.object_id revision)
        ≡ ok plaintext
      → env.action_json.unmarshal plaintext ≡ some a
      → open_action env keys row revision ≡ ok a
  unfolding open_action
  open_action-ok row revision plaintext a opened reads = ground (arith, opened, reads)

  ok_injective : {A : Type 0} {a b : A} → ok a ≡ ok b → a ≡ b
  ok_injective h = cc

  origin_in :
      (db : Db) (token : Bytes) (existing : Option ObjectRow) (found : Bytes × Time × ℕ)
      → existing ≡ find_token action token db.objects
      → (found.2 ≡ 0) ⊎ ((old : ObjectRow) × (existing ≡ some old) × (found.0 ≡ old.object_id))
      → (found.2 ≡ 0)
        ⊎ ((old : ObjectRow) × (find_token action token db.objects ≡ some old)
            × (found.0 ≡ old.object_id))
  origin_in db token existing found there (inl new) = inl new
  origin_in db token existing found there (inr (old, is, id)) = inr (old, sym there ∙ is, id)

  -- What PutAction is about to write.
  pub record Prepared (given : Action) (db : Db) (made : Action × ℕ × ObjectRow) : Type 0 where
    pub kind : made.2.object_type ≡ action
    pub token : made.2.lookup_token ≡ action_lookup env keys.lookup (action_scope given) given.name
    pub number : made.2.revision ≡ made.1 + 1
    pub opens : ReadsAs env made.0 → open_action env keys made.2 made.2.revision ≡ ok made.0
    pub origin :
        (made.1 ≡ 0)
        ⊎ ((old : ObjectRow) × (find_token action made.2.lookup_token db.objects ≡ some old)
            × (made.2.object_id ≡ old.object_id))

  pub prepare_action-Prepared :
      (laws : OpensSealed env) (full : FullReads env) (given : Action) (s t : Machine)
      (made : Action × ℕ × ObjectRow)
      → prepare_action env keys given s ≡ (ok made, t)
      → Prepared given s.db made
  unfolding prepare_action open_action
  prepare_action-Prepared laws full given s t made h = >>=-elim _ _ _ _ h λ checked s1 e1 h1.
      >>=-elim _ _ _ _ h1 λ now s2 e2 h2. >>=-elim _ _ _ _ h2 λ existing s3 e3 h3.
        >>=-elim _ _ _ _ h3 λ found s4 e4 h4. >>=-elim _ _ _ _ h4 λ encoded s5 e5 h5.
          >>=-elim _ _ _ _ h5 λ box s6 e6 h6.
            let start : s2.db ≡ s.db =
              (Frame-ok (Frame-clock env) e2).db ∙ ap (λ (m : Machine). m.db) (lift-ok _ e1).1 in
            let opened =
              open-seal env laws keys.metadata encoded (object_aad action found.0 (found.2 + 1))
                box.0 box.1 s5 s6 full.sized e6 in
            let there : existing
                ≡ find_token action (action_lookup env keys.lookup (action_scope given) given.name)
                    s.db.objects =
              sym (ok_injective (query-ok env _ s2 s3 e3))
              ∙ ap
                  (λ (d : Db).
                    find_token action
                      (action_lookup env keys.lookup (action_scope given) given.name) d.objects)
                  start in
            let marshalled = require-ok bad_json _ (lift-ok _ e5).0 in
            let row : ObjectRow = record {
              object_id = found.0;
              object_type = action;
              lookup_token = action_lookup env keys.lookup (action_scope given) given.name;
              metadata_nonce = box.0;
              metadata_ciphertext = box.1;
              revision = found.2 + 1;
              created_at = stamp env now;
              updated_at = stamp env now;
            } in
            subst (Prepared given s.db) (sym (pure-ok h6).0) (record {
              kind = refl;
              token = refl;
              number = refl;
              opens = λ reads.
                  open_action-ok row (found.2 + 1) encoded
                    (record given { id = found.0; created_at = found.1; updated_at = now }) opened
                    (reads encoded marshalled);
              origin =
                  origin_in s.db _ existing found there (identify-ok now existing s3 s4 found e4);
            })

  pub write_action-objects :
      (revision : ℕ) (row : ObjectRow) (s t : Machine)
      → write_action env keys revision row s ≡ (ok tt, t)
      → Written revision row s.db t.db
  unfolding write_action
  write_action-objects revision row s t h = >>=-elim _ _ _ _ h λ done s1 e1 h1.
      let written = (statement-ok env _ s s1 done e1).0 in
      let (audit, appended, kept) = append_audit-Appended env _ _ s1 t h1 in
      let objects = ap (λ (d : Db). d.objects) appended.tables in
      elim (Bool-cases (revision == 0)) [
        | inl e ↦
            let (fresh, is) = insert_object-ok row s.db s1.db (rw e at written) in
            inl (e, fresh, objects ∙ ap (λ (d : Db). d.objects) is)
        | inr e ↦
            let is = update_object-ok _ row.object_id s.db s1.db (rw e at written) in
            inr (e, objects ∙ ap (λ (d : Db). d.objects) is)
      ]

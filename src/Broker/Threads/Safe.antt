-- ===== src/Broker/Threads/Safe.antt =====
-- The threads of Handle keep the broker steady, step by step.
use vibe_coding_secret_manag.Prelude.{ℕ, ◌≡◌, refl, true, Bytes, false, arith}
use vibe_coding_secret_manag.Outcome.{Error, Result, ok, err}
use vibe_coding_secret_manag.Model.{SecretMetadata}
use vibe_coding_secret_manag.Machine.Exec.{Exec, Machine, KeySet, transaction}
use vibe_coding_secret_manag.Machine.Env.{Env}
use vibe_coding_secret_manag.Machine.Tables.{ObjectRow, VersionRow}
use vibe_coding_secret_manag.Vault.Session.{unlock, lock, set_keys}
use vibe_coding_secret_manag.Vault.Secrets.{
  prepare_create, prepare_rotate, prepare_revoke, insert_secret, promote_version, close_secret,
}
use vibe_coding_secret_manag.Machine.Rules.{frame_rules}
use vibe_coding_secret_manag.Machine.Triples.{Ends, Keeps, Keeps-after, Keeps-lift}
use vibe_coding_secret_manag.Vault.Frames.{
  Frame-seal, Frame-identify, Frame-find_secret_metadata, Frame-prepare_create,
  Frame-prepare_rotate, Frame-prepare_revoke, Frame-get_action_by_id, Frame-verify_password,
}
use vibe_coding_secret_manag.Vault.Secrets.Prepared.{
  prepare_create-NewSecret, prepare_rotate-NewVersion, prepare_revoke-KeepsPlace,
}
use vibe_coding_secret_manag.Api.{Answer}
use vibe_coding_secret_manag.Broker.{Host, Service, Serve, in_store, fail}
use vibe_coding_secret_manag.Broker.Stores.{IsStore, tame_Frame, unlock-IsStore, any-IsStore}
use vibe_coding_secret_manag.Broker.Threads.{
  Thread, ended, goes, go_on, act, within, answers, status_thread,
}
use vibe_coding_secret_manag.Broker.Threads.Commits.{
  insert_secret-commits, promote_version-commits, close_secret-commits, write_action-commits,
  append_audit-commits,
}
use vibe_coding_secret_manag.Broker.Threads.Steady.{
  IsSteady, in_store-IsSteady, release_power-IsSteady, get_store-IsSteady, hold_power-IsSteady,
  new_value-IsSteady, fail-IsSteady, done-IsSteady, send_result-IsSteady, run_process-IsSteady,
}

-- Each step of the thread keeps the broker steady, whatever the others do between its steps.
pub data Safe (outside : ℕ) : Thread → Type 0 where
  safe_ended : Safe outside ended
  safe_goes :
      {step : Service → Service} {rest : Service → Thread}
      → ((s : Service) → IsSteady outside s → IsSteady outside (step s))
      → ((s : Service) → Safe outside (rest s))
      → Safe outside (goes step rest)

in_store-ok :
    {A : Type 0} (m : Exec A) (s t : Service) {a : A}
    → in_store m s ≡ (ok a, t)
    → m s.store ≡ (ok a, t.store)
unfolding in_store
in_store-ok m s t h = cc

pub unlock-IsSafe : (env : Env) (password : Bytes) → Keeps (IsStore false) (unlock env password)
unlock-IsSafe env password = record {
  at = λ s p. go (unlock env password s) ((unlock-IsStore env password).at s p);
}
  where
    go :
        (r : Result (Unit {0}) × Machine)
        → Ends (λ a. IsStore true) (IsStore false) r
        → Ends (λ a. IsStore false) (IsStore false) r
    go (ok a, t) h = any-IsStore false t h
    go (err e, t) h = h

pub lock-IsSafe : Keeps (IsStore false) lock
unfolding lock set_keys
lock-IsSafe = record { at = λ s p. record { well = p.well; unlocked = refl } }

module _ {outside : ℕ} (host : Host) where
  pub failing : (e : Error) → Safe outside (goes (fail host e) (λ s. ended))
  failing e = safe_goes (fail-IsSteady host e) (λ s. safe_ended)

  pub Safe-answers : (answer : Answer) → Safe outside (answers host answer)
  unfolding answers
  Safe-answers answer = safe_goes (done-IsSteady host answer) (λ s. safe_ended)

  pub Safe-status : Safe outside (status_thread host)
  unfolding status_thread
  Safe-status =
      safe_goes (Keeps-after (get_store-IsSteady host))
        λ before. safe_goes (λ s p. p) λ s. safe_goes (λ t p. p) λ t. Safe-answers _

  module _ {A : Type 0} where
    -- A step that knows what it has found.
    Safe-knowing :
        (m : Serve A) (rest : A → Thread)
        → Keeps (IsSteady outside) m
        → ((a : A) (s t : Service) → m s ≡ (ok a, t) → Safe outside (rest a))
        → Safe outside (act host m rest)
    unfolding act go_on
    Safe-knowing m rest k next = safe_goes (Keeps-after k) (λ s. go s (m s).0 refl)
      where
        go : (s : Service) (r : Result A) → (m s).0 ≡ r → Safe outside (go_on host rest r)
        go s (ok a) e = next a s (m s).1 (ground arith)
        go s (err x) e = failing x

    pub Safe-act :
        (m : Serve A) (rest : A → Thread)
        → Keeps (IsSteady outside) m
        → ((a : A) → Safe outside (rest a))
        → Safe outside (act host m rest)
    Safe-act m rest k next = Safe-knowing m rest k (λ a s t h. next a)

    Safe-prepared :
        (m : Exec A) (rest : A → Thread)
        → Keeps (IsStore false) m
        → ((a : A) (s t : Machine) → m s ≡ (ok a, t) → Safe outside (rest a))
        → Safe outside (within host m rest)
    Safe-prepared m rest k next =
        Safe-knowing (in_store m) rest (in_store-IsSteady k)
          λ a s t h. next a s.store t.store (in_store-ok m s t h)

module _ {outside : ℕ} (host : Host) where
  -- A secret's rows, prepared and then inserted.
  pub Safe-create :
      (keys : KeySet) (given : SecretMetadata) (value : Bytes)
      (rest : SecretMetadata × ObjectRow × VersionRow → Thread)
      → ((new : SecretMetadata × ObjectRow × VersionRow) → Safe outside (rest new))
      → Safe outside (
          within host (prepare_create host.env keys given value) λ new.
            within host
              (transaction host.env (insert_secret host.env keys new.1 new.2))
              λ a. rest new)
  Safe-create keys given value rest p =
      Safe-prepared host _ _ (tame_Frame (Frame-prepare_create host.env keys given value))
        λ new s t h.
          let row = prepare_create-NewSecret host.env keys given value s t new h in
          Safe-act host _ _
            (in_store-IsSteady (insert_secret-commits host.env keys new.1 new.2 row.version_of))
            (λ a. p new)

  pub Safe-rotate :
      (keys : KeySet) (found : SecretMetadata) (revision : ℕ) (profile : Bytes) (strength : ℕ)
      (value : Bytes) (rest : SecretMetadata × VersionRow × (ObjectRow → ObjectRow) → Thread)
      → ((new : SecretMetadata × VersionRow × (ObjectRow → ObjectRow)) → Safe outside (rest new))
      → Safe outside (
          within host (prepare_rotate host.env keys found revision profile strength value) λ new.
            within host
              (transaction host.env (promote_version host.env keys new.1 new.2 revision))
              λ a. rest new)
  Safe-rotate keys found revision profile strength value rest p =
      Safe-prepared host _ _
        (tame_Frame (Frame-prepare_rotate host.env keys found revision profile strength value))
        λ new s t h.
          let row =
            prepare_rotate-NewVersion host.env keys found revision profile strength value s t new
              h in
          Safe-act host _ _
            (in_store-IsSteady
              (promote_version-commits host.env keys new.1 new.2 revision row.state row.keeps))
            (λ a. p new)

  pub Safe-revoke :
      (keys : KeySet) (found : SecretMetadata) (revision : ℕ)
      (rest : SecretMetadata × (ObjectRow → ObjectRow) × Bytes → Thread)
      → ((new : SecretMetadata × (ObjectRow → ObjectRow) × Bytes) → Safe outside (rest new))
      → Safe outside (
          within host (prepare_revoke host.env keys found revision) λ new.
            within host
              (transaction host.env (close_secret host.env keys new.0.id new.1 new.2))
              λ a. rest new)
  Safe-revoke keys found revision rest p =
      Safe-prepared host _ _ (tame_Frame (Frame-prepare_revoke host.env keys found revision))
        λ new s t h.
          let keeps = prepare_revoke-KeepsPlace host.env keys found revision s t new h in
          Safe-act host _ _
            (in_store-IsSteady (close_secret-commits host.env keys new.0.id new.1 new.2 keeps))
            (λ a. p new)

pub ruleset safe_steps = (
  Safe-answers, Safe-status, Safe-create, Safe-rotate, Safe-revoke, Safe-act, Keeps-lift,
  in_store-IsSteady, release_power-IsSteady, get_store-IsSteady, hold_power-IsSteady,
  new_value-IsSteady, send_result-IsSteady, run_process-IsSteady, tame_Frame, frame_rules,
  Frame-seal, Frame-identify, Frame-find_secret_metadata, Frame-get_action_by_id,
  Frame-verify_password, write_action-commits, unlock-IsSafe, lock-IsSafe,
)

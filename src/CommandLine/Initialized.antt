-- ===== src/CommandLine/Initialized.antt =====
-- What a run of `vcsm init` that succeeds leaves.
use vibe_coding_secret_manag.Prelude.{
  ℕ, ◌+◌, ◌≡◌, refl, sym, ap, ◌∙◌, Bool, false, List, [], ◌∷◌, Option, none, some, Bytes, codes,
  pos, equal,
}
use vibe_coding_secret_manag.Outcome.{Result, ok, err}
use vibe_coding_secret_manag.Machine.Env.{Env, OpensSealed}
use vibe_coding_secret_manag.Machine.Exec.{KeySet, Machine, file_call, ◌>>=◌, ◌>>◌}
use vibe_coding_secret_manag.SecureCrypto.{default_kdf_params}
use vibe_coding_secret_manag.Vault.Secrets.Prepared.{FullReads}
use vibe_coding_secret_manag.Vault.Audit.Log.{ReadsBack}
use vibe_coding_secret_manag.Vault.Session.{initialize, open_vault, unlock, lock, set_keys}
use vibe_coding_secret_manag.Vault.Session.Reopened.{initialize-opens}
use vibe_coding_secret_manag.Paths.{Paths}
use vibe_coding_secret_manag.CommandLine.{plan, init_plan}
use vibe_coding_secret_manag.CommandLine.Client.{PasswordError, check_new_password}
use vibe_coding_secret_manag.CommandLine.Program.{
  Options, Outside, Finished, prompt_password, made_vault, checked_init, confirmed_init,
  prompted_init, init_vault, execute, parsed_run, run_program,
}

-- Another process opens the tables, and unlocks the vault.
pub record Unlocks (env : Env) (password : Bytes) (s : Machine) : Type 0 where
  pub opened : Machine
  pub unlocked : Machine
  pub keys : KeySet
  pub opens : open_vault env (record s { vault_id = []; keys = none }) ≡ (ok tt, opened)
  pub accepts : unlock env password opened ≡ (ok tt, unlocked)
  pub keyed : unlocked.keys ≡ some keys
  pub tables : unlocked.db ≡ s.db

-- The password of the first prompt unlocks what the run has left.
pub record Unlockable (outside : Outside) (s : Machine) : Type 0 where
  pub password : Bytes
  pub typed : prompt_password outside 0 ≡ some password
  pub unlockable : Unlocks outside.env password s

closed_store :
    (env : Env) (t : Machine)
    → env.fault t.calls ≡ false
    → ((lock >> file_call env) t).1 ≡ record t { keys = none; calls = t.calls + 1 }
unfolding lock set_keys file_call ◌>>=◌
closed_store env t up = rw up refl

module _ (outside : Outside) (laws : OpensSealed outside.env) (full : FullReads outside.env)
    (json : ReadsBack outside.env.params_json) (up : (n : ℕ) → outside.env.fault n ≡ false) where
  made_vault-Unlocks :
      (options : Options) (password : Bytes) (s : Machine)
      → s.db.metadata ≡ []
      → s.db.wrappers ≡ []
      → (checked_init outside options password none s).code ≡ pos 0
      → Unlocks outside.env password (checked_init outside options password none s).store
  unfolding checked_init made_vault
  made_vault-Unlocks options password s no_names empty h = go _ _ refl
    where
      exists : Bool
      exists = outside.path_exists options.vault

      go :
          (r : Result (Unit {0})) (t : Machine)
          → initialize outside.env exists password default_kdf_params s ≡ (r, t)
          → Unlocks outside.env password (checked_init outside options password none s).store
      go (err x) t e = absurd (let bad : pos 1 ≡ pos 0 = rw e at h in cc)
      go (ok a) t e =
          let (k, u, v, keyed, opens, shut, accepts, same, tables, named) =
            initialize-opens outside.env laws full json up password default_kdf_params exists s t
              (t.calls + 1) no_names empty e in
          rw e (
            rw (closed_store outside.env t (up t.calls)) (record {
              opened = u;
              unlocked = v;
              keys = k;
              opens = opens;
              accepts = accepts;
              keyed = same;
              tables = tables;
            }))

  init_vault-Unlockable :
      (options : Options) (s : Machine)
      → s.db.metadata ≡ []
      → s.db.wrappers ≡ []
      → (init_vault outside options s).code ≡ pos 0
      → Unlockable outside (init_vault outside options s).store
  unfolding init_vault prompted_init confirmed_init
  init_vault-Unlockable options s no_names empty = prompted (prompt_password outside 0) refl
    where
      Good : Finished → Type 0
      Good f = f.code ≡ pos 0 → Unlockable outside f.store

      checked :
          (password : Bytes) (e : Option PasswordError)
          → prompt_password outside 0 ≡ some password
          → Good (checked_init outside options password e s)
      checked password none typed h = record {
        password = password;
        typed = typed;
        unlockable = made_vault-Unlocks options password s no_names empty h;
      }
      checked password (some e) typed h = absurd (let bad : pos 1 ≡ pos 0 = h in cc)

      confirmed :
          (password : Bytes) (c : Option Bytes)
          → prompt_password outside 0 ≡ some password
          → Good (confirmed_init outside options password c s)
      confirmed password none typed h = absurd (let bad : pos 1 ≡ pos 0 = h in cc)
      confirmed password (some c) typed h = checked password (check_new_password password c) typed h

      prompted :
          (p : Option Bytes)
          → prompt_password outside 0 ≡ p
          → Good (prompted_init outside options p s)
      prompted none typed h = absurd (let bad : pos 1 ≡ pos 0 = h in cc)
      prompted (some p) typed h = confirmed p (prompt_password outside 1) typed h

  -- Where sealed data opens, random reads are full, the parameters read back from their JSON, no
  -- database call fails for an outside reason and the tables have no metadata and no key wrapper
  -- yet, a run of `vcsm` whose arguments ask for `init` behind the global options, and that
  -- returns 0, has asked for a password; Open of the tables that it leaves, in another process,
  -- succeeds, and Unlock with that password then succeeds, leaves keys installed and the tables
  -- as they were.
  pub run_program-Unlockable :
      (arguments : List Bytes) (paths : Paths) (options : Options) (s : Machine)
      → outside.paths ≡ some paths
      → outside.parse paths arguments ≡ some (options, codes "init" ∷ [])
      → s.db.metadata ≡ []
      → s.db.wrappers ≡ []
      → (run_program outside arguments s).code ≡ pos 0
      → Unlockable outside (run_program outside arguments s).store
  unfolding run_program parsed_run execute plan init_plan equal
  run_program-Unlockable arguments paths options s p q no_names empty h =
      let same : run_program outside arguments s ≡ init_vault outside options s = rw (p, q) refl in
      rw same (init_vault-Unlockable options s no_names empty (ap (λ f. f.code) (sym same) ∙ h))

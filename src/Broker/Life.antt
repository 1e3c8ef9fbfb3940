-- ===== src/Broker/Life.antt =====
-- New and Close of internal/broker/broker.go, and what is left when a broker has ended.
use vibe_coding_secret_manag.Prelude.{
  ℕ, ◌≡◌, refl, sym, subst, Bool, true, false, List, [], Option, none, some, arith, if_both,
  if◌then◌else◌,
}
use vibe_coding_secret_manag.Outcome.{Result, ok, err}
use vibe_coding_secret_manag.Machine.Tables.{Db}
use vibe_coding_secret_manag.Machine.Env.{Env}
use vibe_coding_secret_manag.Machine.Exec.{Machine, file_call, ◌>>=◌, ◌>>◌}
use vibe_coding_secret_manag.Machine.Triples.{Keeps-after}
use vibe_coding_secret_manag.Api.{Request}
use vibe_coding_secret_manag.Power.{System, new_manager, stop_power}
use vibe_coding_secret_manag.Power.Balance.{IsBalanced}
use vibe_coding_secret_manag.Broker.{Host, Service, Serve, in_store, open_file, release_power}
use vibe_coding_secret_manag.Broker.Stores.{IsStore, open_file-IsStore}
use vibe_coding_secret_manag.Broker.Invariant.{IsSound, release_power-IsSound}
use vibe_coding_secret_manag.Broker.Sound.{handle_all, handle_all-IsSound}
use vibe_coding_secret_manag.Vault.Session.{lock, set_keys, is_unlocked}
use vibe_coding_secret_manag.Vault.Invariant.{IsWellFormed}

-- The broker that New begins with.
abbrev pub idle : Db → System → Service
idle db system = record {
  opened = false;
  store = record { db = db; vault_id = []; keys = none; draws = 0; ticks = 0; calls = 0 };
  power = new_manager;
  system = system;
  sent = [];
  sends = 0;
  generations = 0;
  runs = 0;
}

started_by : Bool → Service → Result (Unit {0}) × Machine → Option Service
started_by missing s (ok _, store) = some (record s { opened = true; store = store })
started_by missing s (err e, store) = if missing then some (record s { store = store }) else none

module _ (host : Host) where
  -- New; none is an error. `missing` says whether an error of vault.Open is of a file that is not there.
  unfoldable pub new_broker : Bool → Db → System → Option Service
  unfolding started_by
  new_broker missing db system =
      started_by missing (idle db system) (open_file host.env (idle db system).store)

  -- Close: the inhibitor ends, and then Close of the store locks it and closes the database.
  unfoldable pub close_store : Serve (Unit {0})
  close_store s = if s.opened then in_store (lock >> file_call host.env) s else (ok tt, s)

  unfoldable pub close_broker : Serve (Unit {0})
  unfolding close_store
  close_broker = do release_power; close_store

-- What is left: the tables, no inhibitor, and no keys.
pub record IsEnded (outside : ℕ) (s : Service) : Type 0 where
  pub well : IsWellFormed s.store.db
  pub inhibitors : s.system.inhibitors ≡ outside
  pub locked : s.opened ≡ true → is_unlocked s.store ≡ false

Starts : ℕ → Option Service → Type 0
Starts outside none = Unit {0}
Starts outside (some s) = IsSound outside s

started_by-Starts :
    (missing : Bool) (s : Service) (outside : ℕ) (r : Result (Unit {0}) × Machine)
    → IsStore s.power.active r.1
    → IsBalanced outside s.power s.system
    → Starts outside (started_by missing s r)
unfolding Starts started_by
started_by-Starts missing s outside (ok a, t) k p = record { store = k; power = p }
started_by-Starts true s outside (err e, t) k p = record { store = k; power = p }
started_by-Starts false s outside (err e, t) k p = tt

lock-file_call :
    (env : Env) (s : Machine)
    → let t = ((lock >> file_call env) s).1 in (t.db ≡ s.db) × (is_unlocked t ≡ false)
unfolding lock set_keys file_call ◌>>=◌ is_unlocked
lock-file_call env s = (ground arith, ground arith)

module _ (host : Host) where
  pub new_broker-IsSound :
      (missing : Bool) (db : Db) (system : System) (b : Service)
      → IsWellFormed db
      → new_broker host missing db system ≡ some b
      → IsSound system.inhibitors b
  unfolding new_broker Starts
  new_broker-IsSound missing db system b well h = subst (Starts system.inhibitors) h (
      started_by-Starts missing (idle db system) system.inhibitors _
        (Keeps-after (open_file-IsStore host.env) (idle db system).store
          (record { well = well; unlocked = refl }))
        (record { honest = refl; counted = omega arith }))

  pub close_store-IsEnded :
      (outside : ℕ) (s : Service)
      → IsWellFormed s.store.db
      → s.system.inhibitors ≡ outside
      → IsEnded outside (close_store host s).1
  unfolding close_store in_store
  close_store-IsEnded outside s well none_left =
      if_both s.opened (λ (r : Result (Unit {0}) × Service). IsEnded outside r.1)
        (λ e.
          let (tables, keys) = lock-file_call host.env s.store in
          record {
            well = subst IsWellFormed (sym tables) well;
            inhibitors = none_left;
            locked = λ o. keys;
          })
        (λ e. record { well = well; inhibitors = none_left; locked = λ o. absurd (cc) })

  pub close_broker-IsEnded :
      (outside : ℕ) (s : Service) → IsSound outside s → IsEnded outside (close_broker host s).1
  unfolding close_broker release_power stop_power ◌>>=◌
  close_broker-IsEnded outside s p =
      let released : IsSound outside (release_power s).1 =
        release_power-IsSound.at s (p.store.well, p.power) in
      close_store-IsEnded outside (release_power s).1 released.store.well
        (omega (arith, released.power.counted))

  -- A broker that New has made on well-formed tables leaves, after any requests and a Close,
  -- well-formed tables, no inhibitor of its own, and a locked vault where it had opened one.
  pub life-IsEnded :
      (missing : Bool) (db : Db) (system : System) (b : Service) (requests : List Request)
      → IsWellFormed db
      → new_broker host missing db system ≡ some b
      → IsEnded system.inhibitors (close_broker host (handle_all host requests b)).1
  life-IsEnded missing db system b requests well h =
      close_broker-IsEnded system.inhibitors _
        (handle_all-IsSound host requests b (new_broker-IsSound missing db system b well h))

-- ===== src/Ipc/Program.antt =====
-- What a run of the broker's program leaves.
use vibe_coding_secret_manag.Prelude.{
  ℕ, ◌≡◌, refl, Bool, true, false, [], List, Option, none, some, arith, Bytes, take,
}
use vibe_coding_secret_manag.Machine.Tables.{Db}
use vibe_coding_secret_manag.Machine.Triples.{Keeps-after}
use vibe_coding_secret_manag.Machine.Env.{Env}
use vibe_coding_secret_manag.Machine.Exec.{Machine}
use vibe_coding_secret_manag.Power.{System, stop_power}
use vibe_coding_secret_manag.Paths.{Paths}
use vibe_coding_secret_manag.Api.{Request}
use vibe_coding_secret_manag.Vault.Invariant.{IsWellFormed}
use vibe_coding_secret_manag.Broker.{Host, Service, release_power}
use vibe_coding_secret_manag.Broker.Life.{
  idle, new_broker, IsEnded, new_broker-IsSound, close_store-IsEnded,
}
use vibe_coding_secret_manag.Broker.Threads.{Thread, arrives, turn}
use vibe_coding_secret_manag.Broker.Threads.Cases.{all_occur}
use vibe_coding_secret_manag.Broker.Threads.Steady.{IsSteady, release_power-IsSteady}
use vibe_coding_secret_manag.Broker.Threads.Interleaved.{IsRunning, no_threads, occurs-IsRunning}
use vibe_coding_secret_manag.Ipc.{max_frame}
use vibe_coding_secret_manag.Ipc.Serving.{
  Accepts, closed, fails, connects, goes_on, Late, start_conn, serve_conns, steps, closing,
  exit_after, serving, broker_main,
}

-- No goroutine takes a step once Close has begun.
abbrev pub in_time : Late
in_time = record { stopped = []; closed = [] }

module _ (host : Host) {outside : ℕ} where
  start_conn-IsRunning :
      (request : Option Request) (now : List Thread × Service)
      → IsRunning outside now
      → IsRunning outside (start_conn host request now)
  unfolding start_conn
  start_conn-IsRunning none now p = p
  start_conn-IsRunning (some request) now p = occurs-IsRunning host (arrives request) now p

  serve_conns-IsRunning :
      (decode : Bytes → Option Request) (accepts : Accepts) (now : List Thread × Service)
      → IsRunning outside now
      → IsRunning outside (serve_conns host decode accepts now).1
  unfolding serve_conns
  serve_conns-IsRunning decode closed now p = p
  serve_conns-IsRunning decode (fails context_ended) now p = p
  serve_conns-IsRunning decode (connects bytes later) now p =
      serve_conns-IsRunning decode later _
        (start_conn-IsRunning (decode (take max_frame bytes)) now p)
  serve_conns-IsRunning decode (goes_on n later) now p =
      serve_conns-IsRunning decode later _ (occurs-IsRunning host (turn n) now p)

  closing-IsEnded :
      (now : List Thread × Service)
      → IsRunning outside now
      → IsEnded outside (closing host in_time now)
  unfolding closing steps all_occur release_power stop_power
  closing-IsEnded (threads, s) p =
      let released : IsSteady outside (release_power s).1 =
        Keeps-after release_power-IsSteady s p.steady in
      close_store-IsEnded host outside (release_power s).1 released.store.well
        (omega (arith, released.power.counted))

-- A broker that New has made, before any connection.
new_broker-IsRunning :
    (host : Host) (missing : Bool) (db : Db) (system : System) (b : Service)
    → IsWellFormed db
    → new_broker host missing db system ≡ some b
    → IsRunning system.inhibitors ([], b)
new_broker-IsRunning host missing db system b well e =
    let sound = new_broker-IsSound host missing db system b well e in
    record {
      safe = no_threads;
      steady = record {
        store = record { well = sound.store.well; unlocked = refl };
        power = sound.power;
      };
    }

module _ (host : Host) (decode : Bytes → Option Request) {outside : ℕ} where
  exit_after-IsEnded :
      (r : Bool × (List Thread × Service))
      → IsRunning outside r.1
      → (exit_after host in_time r).0 ≡ 0
      → IsEnded outside (exit_after host in_time r).1
  unfolding exit_after
  exit_after-IsEnded (true, now) p h = closing-IsEnded host now p
  exit_after-IsEnded (false, now) p h = absurd (omega (arith, h))

  serving-IsEnded :
      (listens : Bool) (accepts : Accepts) (o : Option Service) (s : Service)
      → ((b : Service) → o ≡ some b → IsRunning outside ([], b))
      → (serving host decode listens accepts in_time o s).0 ≡ 0
      → IsEnded outside (serving host decode listens accepts in_time o s).1
  unfolding serving
  serving-IsEnded listens accepts none s p h = absurd (omega (arith, h))
  serving-IsEnded true accepts (some b) s p h =
      exit_after-IsEnded _ (serve_conns-IsRunning host decode accepts ([], b) (p b refl)) h
  serving-IsEnded false accepts (some b) s p h = absurd (omega (arith, h))

module _ (host : Host) (decode : Bytes → Option Request) where
  -- On well-formed tables, a run of `vcsm-broker` that returns 0, with any connections and any
  -- interleaving of their goroutines while Serve runs, leaves well-formed tables, no inhibitor of
  -- its own, and a locked vault where it had opened one, if no goroutine takes a step once Close
  -- has begun.
  pub broker_main-IsEnded :
      (paths : Option Paths) (missing listens : Bool) (accepts : Accepts) (db : Db)
      (system : System)
      → IsWellFormed db
      → (broker_main host decode paths missing listens accepts in_time db system).0 ≡ 0
      → IsEnded system.inhibitors
          (broker_main host decode paths missing listens accepts in_time db system).1
  unfolding broker_main
  broker_main-IsEnded none missing listens accepts db system well h = absurd (omega (arith, h))
  broker_main-IsEnded (some paths) missing listens accepts db system well h =
      serving-IsEnded host decode listens accepts _ (idle db system)
        (λ b e. new_broker-IsRunning host missing db system b well e) h

-- ===== src/Ipc/Serving.antt =====
-- Serve of internal/ipc/ipc.go, and cmd/vcsm-broker/main.go around it. Each connection is served by a
-- goroutine of its own, in steps.
use vibe_coding_secret_manag.Prelude.{
  ℕ, Bool, true, false, List, [], Option, none, some, Bytes, take, map, if◌then◌else◌,
}
use vibe_coding_secret_manag.Machine.Tables.{Db}
use vibe_coding_secret_manag.Power.{System}
use vibe_coding_secret_manag.Paths.{Paths}
use vibe_coding_secret_manag.Api.{Request}
use vibe_coding_secret_manag.Broker.{Host, Service, release_power}
use vibe_coding_secret_manag.Broker.Life.{idle, new_broker, close_store}
use vibe_coding_secret_manag.Broker.Threads.{Thread, arrives, turn}
use vibe_coding_secret_manag.Broker.Threads.Cases.{occurs, all_occur}
use vibe_coding_secret_manag.Ipc.{max_frame}

-- What happens while Serve runs: listener.Accept gives a connection, which sends these bytes, or the
-- n-th goroutine takes a step, and at last Accept gives an error, which is that the listener is closed,
-- or another one. `context_ended` says whether the context has ended by then.
pub data Accepts : Type 0 where
  closed : Accepts
  fails : (context_ended : Bool) → Accepts
  connects : Bytes → Accepts → Accepts
  goes_on : ℕ → Accepts → Accepts

-- The steps that goroutines take while Close runs: behind its Stop, and behind its Close of the store.
pub record Late : Type 0 where
  pub stopped : List ℕ
  pub closed : List ℕ

module _ (host : Host) where
  -- `go serveConn`
  unfoldable pub start_conn : Option Request → List Thread × Service → List Thread × Service
  start_conn none now = now
  start_conn (some request) now = occurs host (arrives request) now

  -- Serve behind `listen`; false is an error. It does not wait for the goroutines.
  unfoldable pub serve_conns :
      (Bytes → Option Request) → Accepts → List Thread × Service → Bool × (List Thread × Service)
  unfolding start_conn
  serve_conns decode closed now = (true, now)
  serve_conns decode (fails context_ended) now = (context_ended, now)
  serve_conns decode (connects bytes later) now =
      serve_conns decode later (start_conn (decode (take max_frame bytes)) now)
  serve_conns decode (goes_on n later) now = serve_conns decode later (occurs host (turn n) now)

  unfoldable pub steps : List ℕ → List Thread × Service → List Thread × Service
  steps turns now = all_occur host (map turn turns) now

  -- The deferred Close, among the steps of the goroutines, until the process has ended.
  unfoldable pub closing : Late → List Thread × Service → Service
  unfolding steps
  closing late (threads, s) =
      let (others, t) = steps late.stopped (threads, (release_power s).1) in
      (steps late.closed (others, (close_store host t).1)).1

  -- os.Exit does not run the deferred Close.
  unfoldable pub exit_after : Late → Bool × (List Thread × Service) → ℕ × Service
  exit_after late (true, now) = (0, closing late now)
  exit_after late (false, now) = (1, now.1)

  unfoldable pub serving :
      (Bytes → Option Request) → Bool → Accepts → Late → Option Service → Service → ℕ × Service
  unfolding exit_after
  serving decode listens accepts late none s = (1, s)
  serving decode listens accepts late (some b) s =
      if listens then exit_after late (serve_conns decode accepts ([], b)) else (1, b)

  -- main, from the parsed flags on: the exit code, and what is left of the broker. `missing` says
  -- whether an error of vault.Open is of a file that is not there, `listens` whether `listen` succeeds.
  unfoldable pub broker_main :
      (Bytes → Option Request)
      → Option Paths
      → Bool
      → Bool
      → Accepts
      → Late
      → Db
      → System
      → ℕ × Service
  unfolding serving
  broker_main decode none missing listens accepts late db system = (1, idle db system)
  broker_main decode (some paths) missing listens accepts late db system =
      serving decode listens accepts late (new_broker host missing db system) (idle db system)

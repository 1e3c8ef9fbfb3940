-- ===== src/Broker/Actions.antt =====
-- runAction of internal/broker/broker.go: an approved action with its secrets in the environment.
use vibe_coding_secret_manag.Prelude.{
  ℕ, ◌+◌, Bool, true, false, ◌||◌, List, [], ◌∷◌, ◌++◌, map, Option, none, some, Bytes, codes,
  equal, ◌==◌, ℤ, int_text, if◌then◌else◌,
}
use vibe_coding_secret_manag.Outcome.{connection_lost, process_failed, Result, ok, err}
use vibe_coding_secret_manag.Model.{Action, AuditEvent}
use vibe_coding_secret_manag.Machine.Exec.{◌>>=◌, ◌>>◌}
use vibe_coding_secret_manag.Redaction.{Writer, new_writer, write, close}
use vibe_coding_secret_manag.Runner.{Invocation, Failure, run_code}
use vibe_coding_secret_manag.Vault.Secrets.{resolve_secrets, sort_by}
use vibe_coding_secret_manag.Vault.Actions.{get_action}
use vibe_coding_secret_manag.Vault.Audit.{record_audit}
use vibe_coding_secret_manag.Api.{ActionRequest, run_result, output_text}
use vibe_coding_secret_manag.Broker.{
  Stream, stdout, stderr, Ended, Host, Service, Serve, in_store, get_store, send,
}

-- strings.Cut(entry, "="), its first result
unfoldable pub before_equals : Bytes → Bytes
before_equals [] = []
before_equals (c ∷ s) = let rest = before_equals s in if c == b'=' then [] else c ∷ rest

abbrev allowed_names : List Bytes
allowed_names =
    codes "PATH"
    ∷ codes "HOME"
    ∷ codes "USER"
    ∷ codes "LOGNAME"
    ∷ codes "TMPDIR"
    ∷ codes "TMP"
    ∷ codes "TEMP"
    ∷ codes "LANG"
    ∷ codes "LC_ALL"
    ∷ codes "SystemRoot"
    ∷ codes "ComSpec"
    ∷ codes "PATHEXT"
    ∷ []

abbrev pub among : Bytes → List Bytes → Bool
among key [] = false
among key (name ∷ names) = equal key name || among key names

-- baseEnvironment, of os.Environ()
unfoldable pub base_environment : List Bytes → List Bytes
base_environment [] = []
base_environment (entry ∷ entries) =
    let rest = base_environment entries in
    if among (before_equals entry) allowed_names then entry ∷ rest else rest

unfoldable pub stream_name : Stream → Bytes
stream_name stdout = codes "stdout"
stream_name stderr = codes "stderr"

-- A redacting writer at the end of a pipe, and whether copying to it has stopped.
pub record Pipe : Type 0 where
  pub writer : Writer
  pub lost : Bool

abbrev pub open_pipe : List Bytes → Pipe
open_pipe values = record { writer = new_writer values; lost = false }

abbrev pub is_missing : Option ℕ → Bool
is_missing none = true
is_missing (some n) = false

written : Writer × Option ℕ × Service → Pipe × Service
written (w, count, s) = (record { writer = w; lost = is_missing count }, s)

-- One piece of output, which os/exec copies to the writer until a write fails.
unfoldable pub copy_piece :
    (Bytes → Service → Bool × Service) → Bytes → Pipe → Service → Pipe × Service
unfolding written
copy_piece target piece pipe s =
    if pipe.lost then (pipe, s) else written (write target pipe.writer piece s)

unfoldable pub copy_outputs :
    (Stream → Bytes → Service → Bool × Service)
    → List (Stream × Bytes)
    → Pipe
    → Pipe
    → Service
    → Pipe × Pipe × Service
copy_outputs target [] out error s = (out, error, s)
copy_outputs target ((stdout, piece) ∷ rest) out error s =
    let (out', s') = copy_piece (target stdout) piece out s in
    copy_outputs target rest out' error s'
copy_outputs target ((stderr, piece) ∷ rest) out error s =
    let (error', s') = copy_piece (target stderr) piece error s in
    copy_outputs target rest out error' s'

-- The error of cmd.Run: that of the process, and else that of the copying.
unfoldable pub run_error : Ended → Bool → Option Failure
run_error ended lost = elim ended.failure [
  | some f ↦ some f
  | none ↦
      if lost
      then some (record { exit_code = none; cancelled = ended.cancelled; not_exist = false })
      else none
]

module _ (host : Host) where
  -- eventWriter.Write
  unfoldable pub send_event : Stream → Bytes → Service → Bool × Service
  unfolding stream_name
  send_event stream piece = send host (record {
    id = [];
    is_ok = true;
    event = stream_name stream;
    answer = some (output_text (host.as_text piece));
    error = none;
    is_final = false;
  })

  -- The target of a stream, by the output policy: an eventWriter, or io.Discard.
  unfoldable pub target_of : Bytes → Stream → Bytes → Service → Bool × Service
  target_of policy stream piece s =
      if equal policy (codes "redacted") then send_event stream piece s else (true, s)

  -- The final response of a run, from its result.
  unfoldable pub send_result : Bytes → ℤ × Bool → Serve (Unit {0})
  send_result name (code, failed) s =
      let result = run_result (record { action = name; exit_code = code }) in
      let (sent, s') =
        send host
          (record {
            id = [];
            is_ok = if failed then false else true;
            event = [];
            answer = if host.encodes result then some result else none;
            error = if failed then some process_failed else none;
            is_final = true;
          })
          s in
      (if sent then ok tt else err connection_lost, s')

  -- The invocation of an action, with its secrets sorted by the names of their variables.
  unfoldable pub invocation_of : Action → List (Bytes × Bytes) → Invocation
  unfolding base_environment
  invocation_of action sorted = record {
    command = action.executable ∷ action.arguments;
    dir = action.directory;
    env = base_environment host.environ ++ map (λ (v : Bytes × Bytes). v.0 ++ b'=' ∷ v.1) sorted;
  }

  unfoldable pub run_event : Action → ℤ × Bool → AuditEvent
  run_event action (code, failed) = record {
    id = [];
    timestamp = none;
    actor = codes "agent";
    operation = codes "action.run";
    object_id = action.id;
    outcome = if failed then codes "failure" else codes "success";
    detail = codes "exit_code=" ++ int_text code;
  }

  -- What the process writes goes through the writers, which are then closed.
  unfoldable pub stream_outputs :
      Bytes → List Bytes → List (Stream × Bytes) → Service → Bool × Service
  unfolding copy_outputs
  stream_outputs policy values outputs s =
      let (out, error, s1) =
        copy_outputs (target_of policy) outputs (open_pipe values) (open_pipe values) s in
      let (out_writer, out_closed, s2) = close (target_of policy stdout) out.writer s1 in
      let (error_writer, error_closed, s3) = close (target_of policy stderr) error.writer s2 in
      (out.lost || error.lost, s3)

  -- runAction from the end of the process on, for whether the copying of its output was lost
  unfoldable pub finish_run :
      Action → Invocation → Ended → Bool × Service → Result (Unit {0}) × Service
  unfolding run_event
  finish_run action inv ended (lost, s) =
      let result = run_code inv (run_error ended lost) in
      let (ignored, s') = in_store (record_audit host.env (run_event action result)) s in
      send_result action.name result s'

  -- runAction from runner.Run on, for what the process does
  unfoldable pub run_prepared : Action → List Bytes → Invocation → Ended → Serve (Unit {0})
  run_prepared action values inv ended s =
      finish_run action inv ended (stream_outputs action.output_policy values ended.outputs s)

  -- runAction from the resolved secrets on
  unfoldable pub run_resolved : Action → List (Bytes × Bytes) → Serve (Unit {0})
  run_resolved action values s =
      let sorted = sort_by (λ (v : Bytes × Bytes). v.0) values in
      let inv = invocation_of action sorted in
      run_prepared action (map (λ (v : Bytes × Bytes). v.1) sorted) inv (host.process s.runs inv)
        (record s { runs = s.runs + 1 })

  -- runAction
  unfoldable pub run_action : ActionRequest → Serve (Unit {0})
  run_action payload = do
    get_store host
    action ← in_store (get_action host.env payload.scope payload.name)
    values ← in_store (resolve_secrets host.env payload.scope action.secrets)
    run_resolved action values

-- ===== src/CommandLine/Program.antt =====
-- cmd/vcsm/main.go from `run` on: the global options, the prompts, and what each command returns.
use vibe_coding_secret_manag.Prelude.{
  ℕ, Bool, List, [], Option, none, some, Bytes, codes, ℤ, pos, if◌then◌else◌,
}
use vibe_coding_secret_manag.Outcome.{Result, ok, err}
use vibe_coding_secret_manag.Machine.Env.{Env}
use vibe_coding_secret_manag.Machine.Exec.{Machine, file_call, ◌>>◌}
use vibe_coding_secret_manag.SecureCrypto.{default_kdf_params}
use vibe_coding_secret_manag.Vault.Session.{initialize, lock}
use vibe_coding_secret_manag.Api.{
  UnlockRequest, ConfigureActionRequest, ActionRequest, Answer, Request, Response,
}
use vibe_coding_secret_manag.Paths.{Paths}
use vibe_coding_secret_manag.Ipc.{call_loop}
use vibe_coding_secret_manag.CommandLine.{
  Payload, Plan, exits, initializes, unlocks, calls, configures, runs, plan,
}
use vibe_coding_secret_manag.CommandLine.Client.{
  Console, CallError, connection_failed, PasswordError, on_run, new_console, run_status, on_print,
  print_status, check_new_password,
}

-- options
pub record Options : Type 0 where
  pub vault : Bytes
  pub endpoint : Bytes

-- The payload of a call.
pub data Body : Type 0 where
  plain : Payload → Body
  unlock_body : UnlockRequest → Body
  configure_body : ConfigureActionRequest → Body
  run_body : ActionRequest → Body

-- The world around one run of `vcsm`.
pub record Outside : Type 0 where
  pub env : Env
  -- platform.DefaultPaths
  pub paths : Option Paths
  -- the flag package on the arguments: the options, and what is behind them
  pub parse : Paths → List Bytes → Option (Options × List Bytes)
  -- strconv.Atoi
  pub atoi : Bytes → Option ℤ
  -- whether standard input is a terminal, and what the n-th term.ReadPassword reads there
  pub is_terminal : Bool
  pub typed : ℕ → Option Bytes
  -- whether os.Stat finds the file
  pub path_exists : Bytes → Bool
  -- json.Marshal of a payload, and the ID of the request
  pub encode : Body → Option Bytes
  pub request_id : Bytes
  -- The exchange over a connection to an endpoint: the responses, and the error that the decoder meets
  -- behind them. None is an error of dial, or of the encoding of the request.
  pub exchange : Bytes → Request → Option (List Response × Option CallError)

-- What a run leaves: its exit code, the tables and keys of the vault in this process, and what it has
-- printed of the responses.
pub record Finished : Type 0 where
  pub code : ℤ
  pub store : Machine
  pub printed : List Answer
  pub console : Console

abbrev pub finished : ℤ → Machine → Finished
finished code s = record { code = code; store = s; printed = []; console = new_console }

module _ (outside : Outside) where
  -- promptPassword
  unfoldable pub prompt_password : ℕ → Option Bytes
  prompt_password n = if outside.is_terminal then outside.typed n else none

  unfoldable pub exchanged :
      {S : Type 0}
      → (Response → S → Option CallError × S)
      → Option (List Response × Option CallError)
      → S
      → Option CallError × S
  exchanged on_response none s = (some connection_failed, s)
  exchanged on_response (some (responses, ending)) s = call_loop on_response ending responses s

  -- call
  unfoldable pub call :
      {S : Type 0}
      → Options
      → Bytes
      → Body
      → (Response → S → Option CallError × S)
      → S
      → Option CallError × S
  unfolding exchanged
  call options operation body on_response s = elim (outside.encode body) [
    | none ↦ (some connection_failed, s)
    | some payload ↦
        exchanged on_response
          (outside.exchange options.endpoint
            (record { id = outside.request_id; operation = operation; payload = payload }))
          s
  ]

  -- callAndPrint
  unfoldable pub call_and_print : Options → Bytes → Body → Machine → Finished
  call_and_print options operation body s =
      let (failure, printed) = call options operation body on_print [] in
      record (finished (pos (print_status failure)) s) { printed = printed }

  -- what initVault does with the result of vault.Initialize: Close of the store, whose error it drops
  unfoldable pub made_vault : Result (Unit {0}) × Machine → Finished
  made_vault (ok a, s) = finished (pos 0) ((lock >> file_call outside.env) s).1
  made_vault (err e, s) = finished (pos 1) s

  unfoldable pub checked_init : Options → Bytes → Option PasswordError → Machine → Finished
  checked_init options password (some e) s = finished (pos 1) s
  checked_init options password none s =
      made_vault
        (initialize outside.env (outside.path_exists options.vault) password default_kdf_params s)

  unfoldable pub confirmed_init : Options → Bytes → Option Bytes → Machine → Finished
  unfolding checked_init
  confirmed_init options password none s = finished (pos 1) s
  confirmed_init options password (some confirmation) s =
      checked_init options password (check_new_password password confirmation) s

  unfoldable pub prompted_init : Options → Option Bytes → Machine → Finished
  unfolding confirmed_init
  prompted_init options none s = finished (pos 1) s
  prompted_init options (some password) s = confirmed_init options password (prompt_password 1) s

  -- initVault
  unfoldable pub init_vault : Options → Machine → Finished
  unfolding prompted_init
  init_vault options s = prompted_init options (prompt_password 0) s

  -- A call whose payload holds a password that is asked for first.
  unfoldable pub asked_call : Options → Bytes → (Bytes → Body) → Option Bytes → Machine → Finished
  asked_call options operation body none s = finished (pos 1) s
  asked_call options operation body (some password) s =
      call_and_print options operation (body password) s

  -- runCommand, from its request on
  unfoldable pub run_approved : Options → ActionRequest → Machine → Finished
  run_approved options request s =
      let (failure, console) = call options (codes "run") (run_body request) on_run new_console in
      record (finished (run_status (failure, console)) s) { console = console }

  -- The rest of `run`, for the plan of the arguments.
  unfoldable pub execute : Options → Plan → Machine → Finished
  unfolding asked_call
  execute options (exits code) s = finished (pos code) s
  execute options initializes s = init_vault options s
  execute options unlocks s =
      asked_call options (codes "unlock") (λ p. unlock_body (record { password = p }))
        (prompt_password 0) s
  execute options (calls operation payload) s = call_and_print options operation (plain payload) s
  execute options (configures action) s =
      asked_call options (codes "action.configure")
        (λ p. configure_body (record { action = action; master_password = p })) (prompt_password 0)
        s
  execute options (runs request) s = run_approved options request s

  unfoldable pub parsed_run : Option (Options × List Bytes) → Machine → Finished
  parsed_run none s = finished (pos 2) s
  parsed_run (some (options, arguments)) s = execute options (plan outside.atoi arguments) s

  -- run
  unfoldable pub run_program : List Bytes → Machine → Finished
  unfolding parsed_run
  run_program arguments s = elim outside.paths [
    | none ↦ finished (pos 1) s
    | some paths ↦ parsed_run (outside.parse paths arguments) s
  ]

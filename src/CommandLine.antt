-- ===== src/CommandLine.antt =====
-- cmd/vcsm/main.go: what the arguments of `vcsm` ask for, behind the global options.
pub mod Client
pub mod Configure
pub mod Password
pub mod Outputs
pub mod Reported
pub mod Program
pub mod Untouched
pub mod Initialized
use vibe_coding_secret_manag.Prelude.{
  ℕ, ◌+◌, ◌-◌, ◌*◌, ◌^◌, Bool, true, false, ◌&&◌, ◌||◌, all, List, [], ◌∷◌, ◌++◌, Option, none,
  some, Bytes, codes, equal, leb, ◌==◌, ℤ, pos, negsuc, if◌then◌else◌,
}
use vibe_coding_secret_manag.Model.{Scope, Action}
use vibe_coding_secret_manag.Api.{SecretRequest, ActionRequest}

-- The payload of a call that needs no password.
pub data Payload : Type 0 where
  no_payload : Payload
  scope_payload : Scope → Payload
  secret_payload : SecretRequest → Payload
  limit_payload : ℤ → Payload

-- What `run` goes on to do. `configures` asks for the master password first, as `initializes` and
-- `unlocks` do.
pub data Plan : Type 0 where
  exits : ℕ → Plan
  initializes unlocks : Plan
  calls : Bytes → Payload → Plan
  configures : Action → Plan
  runs : ActionRequest → Plan

-- secretCommand
scope_plan : Bytes → Scope → List Bytes → Plan
scope_plan operation scope [] = calls operation (scope_payload scope)
scope_plan operation scope (argument ∷ arguments) = exits 2

profile_option : List Bytes → Option Bytes
profile_option [] = some (codes "default")
profile_option (flag ∷ profile ∷ []) = if equal flag (codes "--profile") then some profile else none
profile_option _ = none

is_secret_verb : Bytes → Bool
is_secret_verb verb =
    equal verb (codes "create") || equal verb (codes "rotate") || equal verb (codes "revoke")

secret_plan : Bytes → Scope → List Bytes → Plan
unfolding profile_option is_secret_verb
secret_plan verb scope [] = exits 2
secret_plan verb scope (name ∷ options) = elim (profile_option options) [
  | none ↦ exits 2
  | some profile ↦
      if is_secret_verb verb
      then calls (codes "secret." ++ verb)
          (secret_payload (record { scope = scope; name = name; profile = profile }))
      else exits 2
]

unfoldable pub secret_command : List Bytes → Plan
unfolding scope_plan secret_plan
secret_command (verb ∷ project ∷ environment ∷ rest) =
    let scope : Scope = record { project = project; environment = environment } in
    if equal verb (codes "list")
    then scope_plan (codes "secret.list") scope rest
    else secret_plan verb scope rest
secret_command _ = exits 2

-- strings.Cut(text, "=")
abbrev pub cut : Bytes → Option (Bytes × Bytes)
cut [] = none
cut (c ∷ text) =
    let rest = cut text in
    if c == b'='
    then some ([], text)
    else elim rest [ none ↦ none | some (before, after) ↦ some (c ∷ before, after) ]

-- action.Secrets[key] = value
abbrev pub put : Bytes → Bytes → List (Bytes × Bytes) → List (Bytes × Bytes)
put key value [] = (key, value) ∷ []
put key value ((other, old) ∷ pairs) =
    let rest = put key value pairs in
    if equal other key then (key, value) ∷ pairs else (other, old) ∷ rest

-- One option of `action configure` with its value.
unfoldable pub set_option : Bytes → Bytes → Action → Option Action
set_option option value action =
    if equal option (codes "--cwd")
    then some (record action { directory = value })
    else if equal option (codes "--secret")
    then elim (cut value) [
      | none ↦ none
      | some (env_name, secret_name) ↦
          some (record action { secrets = put env_name secret_name action.secrets })
    ]
    else if equal option (codes "--output")
    then some (record action { output_policy = value })
    else none

-- The loop over the options, and the arguments behind "--".
unfoldable pub read_options : Action → List Bytes → Option (Action × List Bytes)
read_options action [] = none
read_options action (argument ∷ []) =
    if equal argument (codes "--") then some (action, []) else none
read_options action (argument ∷ value ∷ rest) =
    if equal argument (codes "--")
    then some (action, value ∷ rest)
    else elim (set_option argument value action) [
      | none ↦ none
      | some action' ↦ read_options action' rest
    ]

-- the Action that the loop starts with
abbrev pub new_action : Bytes → Bytes → Bytes → Action
new_action project environment name = record {
  id = [];
  project = project;
  environment = environment;
  name = name;
  executable = [];
  arguments = [];
  directory = [];
  secrets = [];
  output_policy = codes "metadata";
  created_at = record { sec = 0; nano = 0 };
  updated_at = record { sec = 0; nano = 0 };
}

abbrev pub with_command : Option (Action × List Bytes) → Plan
with_command (some (action, executable ∷ arguments)) =
    configures (record action { executable = executable; arguments = arguments })
with_command _ = exits 2

-- actionCommand
unfoldable pub action_command : List Bytes → Plan
unfolding scope_plan read_options set_option
action_command (verb ∷ project ∷ environment ∷ rest) =
    if equal verb (codes "list")
    then scope_plan (codes "action.list") (record { project = project; environment = environment })
        rest
    else if equal verb (codes "configure")
    then configure_plan rest
    else exits 2
  where
    configure_plan : List Bytes → Plan
    configure_plan (name ∷ first ∷ second ∷ options) =
        with_command (read_options (new_action project environment name) (first ∷ second ∷ options))
    configure_plan _ = exits 2
action_command _ = exits 2

-- runCommand
unfoldable pub run_command : List Bytes → Plan
run_command (project ∷ environment ∷ name ∷ []) =
    runs (record { scope = record { project = project; environment = environment }; name = name })
run_command _ = exits 2

-- auditCommand; `atoi` is strconv.Atoi
unfoldable pub audit_command : (Bytes → Option ℤ) → List Bytes → Plan
audit_command atoi [] = calls (codes "audit.list") (limit_payload (pos 100))
audit_command atoi (text ∷ []) = elim (atoi text) [
  | none ↦ exits 2
  | some limit ↦ calls (codes "audit.list") (limit_payload limit)
]
audit_command atoi _ = exits 2

unfoldable pub init_plan : List Bytes → Plan
init_plan [] = initializes
init_plan _ = exits 2

-- run, from global.Args() on; an `exits` plan prints the usage or the error first
unfoldable pub plan : (Bytes → Option ℤ) → List Bytes → Plan
unfolding init_plan
plan atoi [] = exits 2
plan atoi (command ∷ arguments) =
    if equal command (codes "init")
    then init_plan arguments
    else if equal command (codes "status")
    then calls (codes "status") no_payload
    else if equal command (codes "unlock")
    then unlocks
    else if equal command (codes "lock")
    then calls (codes "lock") no_payload
    else if equal command (codes "secret")
    then secret_command arguments
    else if equal command (codes "action")
    then action_command arguments
    else if equal command (codes "run")
    then run_command arguments
    else if equal command (codes "audit")
    then audit_command atoi arguments
    else if equal command (codes "help")
        || equal command (codes "-h")
        || equal command (codes "--help")
    then exits 0
    else exits 2

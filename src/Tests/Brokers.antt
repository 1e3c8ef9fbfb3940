-- ===== src/Tests/Brokers.antt =====
-- Runs of the theorems on the broker and the command line.
use vibe_coding_secret_manag.Vault.Session.{get_machine, verify_password}
use vibe_coding_secret_manag.Machine.Exec.{query, ◌>>=◌}
use vibe_coding_secret_manag.Vault.Rows.{select_wrapper}
use vibe_coding_secret_manag.SecureCrypto.{derive_kek, expand_key, open_sealed}
use vibe_coding_secret_manag.Vault.Context.{wrapper_aad}
use vibe_coding_secret_manag.Prelude.{
  ◌+◌, ◌≡◌, refl, true, false, List, [], ◌∷◌, ◌++◌, map, Option, none, some, Bytes, codes, pos,
  contains, has_byte, is_prefix, equal, arith, ltb, Bool-cases, inl, inr, if◌then◌else◌,
}
use vibe_coding_secret_manag.Outcome.{invalid_password}
use vibe_coding_secret_manag.Model.{Action}
use vibe_coding_secret_manag.Machine.Tables.{Db}
use vibe_coding_secret_manag.Machine.Exec.{Machine}
use vibe_coding_secret_manag.Api.{Request}
use vibe_coding_secret_manag.Runner.{Invocation, run_code, code_of}
use vibe_coding_secret_manag.Power.{linux, Tools, System, new_manager}
use vibe_coding_secret_manag.Power.Balance.{starts, stops, after_calls, after_calls-inhibitors}
use vibe_coding_secret_manag.Broker.{stdout, stderr, Ended, Host, Service}
use vibe_coding_secret_manag.Broker.Actions.{run_prepared}
use vibe_coding_secret_manag.Broker.Handle.{operation_of, handle}
use vibe_coding_secret_manag.Broker.Invariant.{IsSound}
use vibe_coding_secret_manag.Broker.Sound.{handle_all, handle_all-IsSound}
use vibe_coding_secret_manag.Broker.Life.{idle}
use vibe_coding_secret_manag.Broker.Replies.{OneFinal, handle-OneFinal}
use vibe_coding_secret_manag.Broker.Locked.{IsRefusedBy, handle-IsRefusedBy}
use vibe_coding_secret_manag.Broker.Approval.{IsDenied, handle-IsDenied}
use vibe_coding_secret_manag.Broker.Discarded.{run_prepared_discards}
use vibe_coding_secret_manag.Ipc.{with_id, serve_conn, call_loop}
use vibe_coding_secret_manag.Broker.Coerced.{Coerced, nothing_left, kept, replaced}
use vibe_coding_secret_manag.Ipc.Answered.{call_loop-serve_conn}
use vibe_coding_secret_manag.CommandLine.{plan, configures}
use vibe_coding_secret_manag.CommandLine.Client.{
  on_run, new_console, run_status, on_print, connection_failed,
}
use vibe_coding_secret_manag.CommandLine.Configure.{
  configure_arguments, as_asked, plan-configure_arguments,
}
use vibe_coding_secret_manag.CommandLine.Reported.{run_status-run_prepared, contains-call_loop}
use vibe_coding_secret_manag.Vault.Invariant.{IsWellFormed}
use vibe_coding_secret_manag.Tests.Streams.{value, value-IsUnbordered}
use vibe_coding_secret_manag.Tests.Toy.{
  toy, fresh, filled, no_rows_yet, sample_scope, sample_action,
}

abbrev tools : Tools
tools = record { found = λ n. true; starts = λ n. true }

-- A process that writes the value in two pieces, and fails.
abbrev leaky : Ended
leaky = record {
  outputs = (stdout, codes "x ab") ∷ (stderr, codes "note") ∷ (stdout, codes "c y") ∷ [];
  failure = some (record { exit_code = some (pos 3); cancelled = false; not_exist = false });
  cancelled = false;
}

-- Every byte behind ASCII becomes U+FFFD.
abbrev pub valid_text : Bytes → Bytes
valid_text [] = []
valid_text (c ∷ s) =
    let rest = valid_text s in if ltb c 128 then c ∷ rest else 239 ∷ 191 ∷ 189 ∷ rest

valid_text-Coerced : (s : Bytes) → Coerced s (valid_text s)
valid_text-Coerced [] = nothing_left
valid_text-Coerced (c ∷ s) = elim (Bool-cases (ltb c 128)) [
  | inl e ↦ rw e (kept (ground (arith, e)) (valid_text-Coerced s))
  | inr e ↦ rw e (
      replaced (191 ∷ 189 ∷ []) (ground (arith, e)) (omega arith) (omega arith, (omega arith, tt))
        (valid_text-Coerced s))
]

abbrev pub toy_host : Host
toy_host = record {
  env = toy;
  platform = linux;
  tools = tools;
  started_at = record { sec = 0; nano = 0 };
  environ = codes "HOME=/root" ∷ codes "TOKEN=t" ∷ [];
  batches = λ n k. some (filled 64 k);
  patience = 50;
  process = λ n inv. leaky;
  drops = λ n. false;
  unlock_payload = λ b. some (record { password = b });
  secret_payload =
      λ b. some (record { scope = sample_scope; name = codes "db"; profile = codes "default" });
  scope_payload = λ b. some (record { scope = sample_scope });
  action_payload = λ b. some (record { scope = sample_scope; name = b });
  configure_payload = λ b. some (record { action = sample_action; master_password = b });
  audit_payload = λ b. some (record { limit = pos 10 });
  encodes = λ answer. true;
  as_text = valid_text;
}

abbrev pub ask : Bytes → Bytes → Request
ask operation payload = record { id = codes "7"; operation = operation; payload = payload }

abbrev pub quiet : System
quiet = record { inhibitors = 0; asked = 0 }

-- A broker with an open store.
abbrev pub opened_on : Machine → Service
opened_on store = record (idle store.db quiet) { opened = true; store = store }

abbrev day : List Request
day =
    ask (codes "unlock") (codes "p")
    ∷ ask (codes "secret.create") []
    ∷ ask (codes "secret.rotate") []
    ∷ ask (codes "run") (codes "run")
    ∷ ask (codes "lock") []
    ∷ []

pub no_rows_yet-IsWellFormed : IsWellFormed no_rows_yet
no_rows_yet-IsWellFormed = record { one_active = λ id. omega arith; referenced = λ id h. refl }

handle_all-IsSound_example : IsSound 0 (handle_all toy_host day (opened_on fresh))
handle_all-IsSound_example = handle_all-IsSound toy_host day (opened_on fresh) (record {
  store = record { well = no_rows_yet-IsWellFormed; unlocked = refl };
  power = record { honest = refl; counted = refl };
})

handle-OneFinal_example :
    OneFinal [] (handle toy_host (ask (codes "run") (codes "run")) (opened_on fresh))
handle-OneFinal_example =
    handle-OneFinal toy_host (λ n. refl) (ask (codes "run") (codes "run")) (opened_on fresh)

abbrev shut : Machine
shut = record fresh { keys = none }

handle-IsRefusedBy_example :
    IsRefusedBy (opened_on shut) (handle toy_host (ask (codes "secret.create") []) (opened_on shut))
unfolding operation_of equal
handle-IsRefusedBy_example =
    handle-IsRefusedBy toy_host (λ n. refl) (ask (codes "secret.create") []) (opened_on shut) refl
      refl

-- A vault whose wrapped key opens with no password of 1 to 4096 bytes.
abbrev wrapped : Machine
wrapped = record fresh {
  db = record no_rows_yet {
    wrappers =
        record {
          wrapper_id = codes "password-primary";
          params = 65536 ∷ 3 ∷ 4 ∷ [];
          salt = filled 16 1;
          nonce = filled 24 2;
          ciphertext = [];
          is_active = true;
          created_at = [];
        }
        ∷ [];
  };
}

abbrev approval : Request
approval = ask (codes "action.configure") (codes "guess")

handle-IsDenied_example :
    IsDenied (opened_on wrapped) (handle toy_host approval (opened_on wrapped))
unfolding operation_of equal verify_password ◌>>=◌ query select_wrapper derive_kek expand_key
    get_machine open_sealed wrapper_aad
handle-IsDenied_example =
    handle-IsDenied toy_host (λ n. refl) approval
      (record { action = sample_action; master_password = codes "guess" }) invalid_password
      (opened_on wrapped) refl refl refl refl

abbrev inv : Invocation
inv = record { command = codes "/bin/true" ∷ []; dir = []; env = [] }

abbrev shown : Action
shown = record sample_action { output_policy = codes "redacted" }

run_status-run_prepared_example :
    run_status (
      call_loop on_run none
        (map
          (with_id (codes "7"))
          (run_prepared toy_host shown (value ∷ []) inv leaky (opened_on fresh)).1.sent)
        new_console)
    ≡ pos 3
unfolding run_code code_of
run_status-run_prepared_example =
    run_status-run_prepared toy_host (λ n. refl) (λ a. refl) shown (value ∷ []) inv leaky
      (opened_on fresh) (codes "7") none refl

contains-call_loop_example :
    contains value
      (call_loop on_run none
        (map
          (with_id (codes "7"))
          (run_prepared toy_host shown (value ∷ []) inv leaky (opened_on fresh)).1.sent)
        new_console).1.stdout
    ≡ false
unfolding has_byte contains is_prefix
contains-call_loop_example =
    contains-call_loop toy_host (λ n. refl) (λ a. refl) (record { coerced = valid_text-Coerced })
      shown value inv leaky (opened_on fresh) (codes "7") none refl refl (omega arith)
      value-IsUnbordered (omega arith, (omega arith, (omega arith, tt))) refl refl refl

run_prepared_discards_example :
    run_prepared toy_host sample_action (value ∷ []) inv leaky (opened_on fresh)
    ≡ run_prepared toy_host sample_action [] inv (record leaky { outputs = [] }) (opened_on fresh)
unfolding equal
run_prepared_discards_example =
    run_prepared_discards toy_host sample_action (value ∷ []) inv leaky (opened_on fresh) refl

after_calls-inhibitors_example :
    (after_calls tools linux (starts ∷ starts ∷ stops ∷ starts ∷ []) new_manager quiet).1.inhibitors
    ≡ 0
      + (if (after_calls tools linux
            (starts ∷ starts ∷ stops ∷ starts ∷ [])
            new_manager
            quiet).0.active
          then 1
          else 0)
after_calls-inhibitors_example =
    after_calls-inhibitors tools linux (starts ∷ starts ∷ stops ∷ starts ∷ []) quiet

-- A frame that is one byte, for one request.
abbrev decode : Bytes → Option Request
decode [] = none
decode (c ∷ bytes) = some (ask (codes "secret.list") (c ∷ []))

call_loop-serve_conn_example :
    call_loop on_print
      (some connection_failed)
      ((serve_conn decode (handle toy_host) (codes "q") (opened_on fresh)).0 ++ [])
      []
    ≡ call_loop on_print none
        (serve_conn decode (handle toy_host) (codes "q") (opened_on fresh)).0
        []
call_loop-serve_conn_example =
    call_loop-serve_conn on_print toy_host decode (codes "q")
      (ask (codes "secret.list") (codes "q")) (opened_on fresh) (some connection_failed) [] []
      (λ n. refl) refl

abbrev asked : Action
asked = record sample_action {
  secrets = (codes "DB", codes "db") ∷ (codes "KEY", codes "api=key") ∷ [];
  arguments = codes "--" ∷ codes "-v" ∷ [];
}

plan-configure_arguments_example :
    plan (λ b. none) (codes "action" ∷ codes "configure" ∷ configure_arguments asked)
    ≡ configures (as_asked asked)
unfolding equal has_byte
plan-configure_arguments_example = plan-configure_arguments (λ b. none) asked refl

-- A database that Open accepts.
abbrev pub vault : Db
vault = record no_rows_yet {
  metadata = (codes "schema_version", codes "2") ∷ (codes "vault_id", codes "v") ∷ [];
}

abbrev begun : Service
begun = record (idle vault quiet) {
  opened = true;
  store = record { db = vault; vault_id = codes "v"; keys = none; draws = 0; ticks = 0; calls = 4 };
}

pub vault-IsWellFormed : IsWellFormed vault
vault-IsWellFormed = record { one_active = λ id. omega arith; referenced = λ id h. refl }

-- A system on which the helper does not start.
abbrev pub helpless : Host
helpless = record toy_host { tools = record { found = λ n. true; starts = λ n. false } }

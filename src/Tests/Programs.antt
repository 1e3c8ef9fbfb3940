-- ===== src/Tests/Programs.antt =====
-- Runs of the theorems on the programs and on the endpoint.
use vibe_coding_secret_manag.Prelude.{
  ◌≡◌, ◌↔◌, refl, true, false, List, [], ◌∷◌, Option, some, none, Bytes, codes, arith, text_ltb,
  equal, decimal,
}
use vibe_coding_secret_manag.Machine.Tables.{Db}
use vibe_coding_secret_manag.Paths.{Paths}
use vibe_coding_secret_manag.Api.{Request}
use vibe_coding_secret_manag.Broker.{
  Service, reply, status, done, send, open_file, answered, succeed,
}
use vibe_coding_secret_manag.Broker.Life.{idle, new_broker, IsEnded}
use vibe_coding_secret_manag.CommandLine.Program.{
  Options, Outside, run_program, parsed_run, execute, init_vault, prompted_init, confirmed_init,
  checked_init, made_vault, prompt_password,
}
use vibe_coding_secret_manag.CommandLine.Initialized.{Unlockable, run_program-Unlockable}
use vibe_coding_secret_manag.Ipc.Serving.{
  Accepts, closed, fails, connects, serve_conns, broker_main, serving, exit_after,
}
use vibe_coding_secret_manag.Ipc.Program.{broker_main-IsEnded}
use vibe_coding_secret_manag.Ipc.Endpoint.{left_over, socket_of, Endpoint, is_open, listen}
use vibe_coding_secret_manag.Ipc.Single.{
  Listened, Unreachable, listen-Listened, close_listener-twice, never,
}
use vibe_coding_secret_manag.Tests.Toy.{toy, toy-OpensSealed, toy-FullReads, toy-params, filled}
use vibe_coding_secret_manag.Tests.Sessions.{locked_machine}
use vibe_coding_secret_manag.Tests.Threads.{shut}
use vibe_coding_secret_manag.Tests.Brokers.{toy_host, ask, quiet, vault, vault-IsWellFormed}
use vibe_coding_secret_manag.CommandLine.{plan, init_plan}
use vibe_coding_secret_manag.CommandLine.Client.{check_new_password}
use vibe_coding_secret_manag.Vault.Session.{
  lock, initialize, open_vault, set_keys, insert_vault, initialize_new, install_keys, set_vault_id,
  removed_on_error,
}
use vibe_coding_secret_manag.Machine.Exec.{
  ◌>>=◌, copy_keys, file_call, query, draw, unique_as, transaction, statement, pure, no_rows_as,
  lift, clock,
}
use vibe_coding_secret_manag.Vault.Context.{
  hex_digit, id_text, trimmed, secret_aad, padded, object_aad, wrapper_aad, secret_lookup, hex,
  stamp, modify, random_id,
}
use vibe_coding_secret_manag.Vault.Secrets.{
  insert_secret, open_metadata, given_or_random_id, prepare_rotate, close_secret,
  find_secret_metadata, prepare_revoke, promote_version, prepare_create,
}
use vibe_coding_secret_manag.Vault.Rows.{
  has_version, has_event, activate, insert_audit, newest_hmac, newest_audit, count_at, by_time,
  find_id, change_object, insert_version, update_object, update_object_at, select_metadata,
  select_last_hmac, select_object, insert_object, close_active, has_clash, place, insert_metadata,
  insert_wrapper, find_token,
}
use vibe_coding_secret_manag.SecureCrypto.{
  validate_kdf_params, open_sealed, seal, expand_key, random_bytes, derive_kek, lookup_message,
  lookup_token,
}
use vibe_coding_secret_manag.Vault.Audit.{append_audit, event_time, event_id}
use vibe_coding_secret_manag.Vault.Actions.{prepare_action}
use vibe_coding_secret_manag.Ipc.Serving.{Late, goes_on}
use vibe_coding_secret_manag.Broker.Threads.{Thread}
use vibe_coding_secret_manag.Ipc.Program.{in_time}
use vibe_coding_secret_manag.Ipc.Waiting.{wait, ticks, context_ends, wait_iff, Reaches}

abbrev toy_paths : Paths
toy_paths = record { data_dir = codes "/d"; vault = codes "/d/v.db"; endpoint = codes "/d/s" }

abbrev toy_options : Options
toy_options = record { vault = codes "/d/v.db"; endpoint = codes "/d/s" }

abbrev at_terminal : Outside
at_terminal = record {
  env = toy;
  paths = some toy_paths;
  parse = λ p arguments. some (toy_options, arguments);
  atoi = λ text. none;
  is_terminal = true;
  typed = λ n. some (filled 15 97);
  path_exists = λ path. false;
  encode = λ body. none;
  request_id = [];
  exchange = λ endpoint request. none;
}

-- the same where the file of the vault is there
abbrev again : Outside
again = record at_terminal { path_exists = λ path. true }

abbrev init : List Bytes
init = codes "init" ∷ []

run_program-Unlockable_example :
    Unlockable at_terminal (run_program at_terminal init locked_machine).store
unfolding initialize ◌>>=◌ copy_keys prepare_create given_or_random_id clock seal draw random_id
    transaction insert_secret unique_as statement insert_object has_clash insert_version has_version
    lift pure query decimal equal text_ltb lookup_message lookup_token random_bytes append_audit
    event_id event_time hex hex_digit id_text modify object_aad padded secret_aad secret_lookup
    stamp trimmed by_time find_id has_event insert_audit newest_hmac newest_audit place
    select_last_hmac find_secret_metadata open_metadata prepare_rotate promote_version
    prepare_revoke close_secret close_active activate update_object_at select_object find_token
    change_object update_object insert_metadata insert_wrapper count_at no_rows_as file_call
    open_sealed validate_kdf_params derive_kek expand_key removed_on_error initialize_new
    insert_vault set_vault_id install_keys set_keys wrapper_aad prepare_action run_program
    parsed_run execute plan init_plan init_vault prompted_init confirmed_init checked_init
    made_vault prompt_password check_new_password lock
run_program-Unlockable_example =
    run_program-Unlockable at_terminal toy-OpensSealed toy-FullReads toy-params (λ n. refl) init
      toy_paths toy_options locked_machine refl refl refl refl refl

abbrev read_unlock : Bytes → Option Request
read_unlock bytes = some (ask (codes "unlock") bytes)

-- Two connections, the first of which takes some steps.
abbrev stopped : Accepts
stopped = connects (codes "p") (goes_on 0 (goes_on 0 (connects (codes "q") (goes_on 1 closed))))

broker_main-IsEnded_example :
    IsEnded 0
      (broker_main toy_host read_unlock (some toy_paths) false true stopped in_time vault quiet).1
unfolding new_broker open_file ◌>>=◌ file_call open_vault query select_metadata equal set_vault_id
    broker_main serving exit_after serve_conns
broker_main-IsEnded_example =
    broker_main-IsEnded toy_host read_unlock (some toy_paths) false true stopped vault quiet
      vault-IsWellFormed refl

-- Both connections go on while Close runs.
abbrev hurried : Late
hurried = record { stopped = 0 ∷ 1 ∷ []; closed = 1 ∷ 0 ∷ [] }

-- Tables that Open accepts, with a wrapped key.
abbrev sealed : Db
sealed = record vault { wrappers = shut.db.wrappers }

abbrev begun : Service
begun = record (idle sealed quiet) {
  opened = true;
  store = record {
    db = sealed;
    vault_id = codes "v";
    keys = none;
    draws = 0;
    ticks = 0;
    calls = 4;
  };
}

abbrev broken : Accepts
broken = connects (codes "p") (goes_on 0 (goes_on 0 (goes_on 0 (goes_on 0 (fails false)))))

abbrev left : List Thread × Service
left = (serve_conns toy_host read_unlock broken ([], begun)).1

abbrev crashed : Endpoint
crashed = record { entry = left_over; open_ones = []; made = 0; calls = 0 }

listen-Listened_example : Listened crashed
listen-Listened_example = listen-Listened crashed

abbrev one_open : Endpoint
one_open = record { entry = socket_of 0; open_ones = 0 ∷ []; made = 1; calls = 3 }

close_listener-twice_example : Unreachable 0 one_open
unfolding is_open
close_listener-twice_example = close_listener-twice 0 one_open refl (λ h. absurd (omega (arith, h)))

wait_iff_example :
    ((wait never false (ticks (λ t. (listen never t).1) false context_ends) crashed).0 ≡ true)
    ↔ Reaches false (ticks (λ t. (listen never t).1) false context_ends) crashed
wait_iff_example = wait_iff false (ticks (λ t. (listen never t).1) false context_ends) crashed

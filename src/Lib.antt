-- ===== src/Lib.antt =====
-- vcsm keeps the secrets of a project in an encrypted vault, and hands them to the programs that it
-- runs. This library models the parts that carry its own logic.
--
-- - Model: internal/model/model.go, the data that the vault keeps and reports.
-- - Redaction: internal/redaction/redaction.go. `redact_text` is Redact; `Writer`, `new_writer`,
--   `write` and `close` are the streaming writer, over any destination. `replace_all` is
--   bytes.ReplaceAll.
-- - Generator: internal/generator/generator.go. `get` and `generate` are Get and Generate. The random
--   source is an argument. The outer loop runs on fuel, one unit for each batch of random
--   bytes: a batch with a byte that is not rejected adds a byte, so more fuel than the value has bytes is enough.
-- - SecureCrypto: internal/securecrypto/securecrypto.go, each function under its own name.
-- - Machine: what the vault runs on. Tables holds the rows of the SQLite schema, Env the libraries and
--   the system as parameters, Exec the state (tables, keys, how often each outside source was asked)
--   and the steps of a do block: a query, a statement, a transaction that is all or nothing, a random
--   read, the clock. Any database call may fail where `Env.fault` says so. Rows with equal time stamps
--   are taken in the order of SQLite's scan, that of their insertion.
-- - Vault: internal/vault/store.go. Rows has one function for each SQL statement, Context the
--   associated data, lookup tokens, identifiers and time stamps, Session Initialize, Open, Unlock,
--   VerifyPassword and Lock, Secrets and Actions the operations on secrets and actions, Audit the
--   signed log. Each operation is the sequence of steps of the Go function, its guards included.
--   Reachable has the sequences of operations.
-- - Power: internal/power. The system is the number of its inhibitors; whether the helper of a platform
--   is found, and starts, is a parameter. Power.Balance compares the manager with a flag.
-- - Paths: internal/platform/path.go, ExpandPath and DefaultPaths. The environment and path/filepath are
--   parameters.
-- - Runner: internal/runner/runner.go, the exit codes of Run.
-- - Api: internal/api/api.go, the messages. JSON is read and written at the edge: a response holds the
--   value that its data encodes.
-- - Broker: internal/broker/broker.go. `Service` is the broker with the store, the system and the
--   responses that have reached the client, `Host` the world around it: the processes that it runs, the
--   connection, encoding/json, the environment. Names has the checks of names, Actions runAction with
--   the writers on the process's output, Handle the dispatch with one definition for each case, Life New
--   and Close. The proofs follow the cases: Silent and Events (the steps), Replies, Stores, Invariant
--   and Sound (the invariant), Refusals, Locked, Approval and Unlocking (requests that need the keys),
--   Redacted and Discarded (the output of a run).
--   Generate runs on the fuel `Host.patience`; the error `endless_generator` stands for running out.
-- - Broker.Threads: the same requests as goroutines of several connections. A request is a thread of
--   atomic steps: a call under a mutex, one query or one transaction on the only connection of the
--   database, one response. Cases has a thread for each case of Handle, and the schedules; Whole compares
--   a thread without others with Handle, Interleaved has what any schedule keeps, Race an unlock
--   and a lock at once. Vault.Secrets.Stale has transactions that come later than what they have read.
-- - Ipc: internal/ipc/ipc.go, one request over a connection, and the loop of Call. Endpoint is
--   internal/ipc/transport_unix.go: the path of the socket, the listeners that are open, and the calls
--   of the system, each of which may fail; Single has what two brokers at one path do, Waiting is Wait,
--   tick after tick. Serving is Serve, with what Accept gives, and which goroutine takes the next step, as an argument, and the main
--   of cmd/vcsm-broker/main.go, with the steps that goroutines take while its deferred Close runs;
--   Program has what it leaves.
-- - CommandLine: cmd/vcsm/main.go. `plan` is what the arguments ask for, Client the handlers of the
--   responses with the exit codes, and the checks of a new password. Program is a whole run from its
--   arguments to its exit code; `Outside` has the flag package, strconv.Atoi, the terminal and the
--   exchange with the broker. Initialized has what `vcsm init` leaves, Untouched what a run
--   leaves that fails. Reported puts the broker's run,
--   the connection and the client together.
-- - Prelude and Outcome: helpers, and errors as values. Tests: runs at concrete inputs.
--
-- A Go string or []byte is the list of its bytes. The code's own parameters are Argon2id, HKDF,
-- XChaCha20-Poly1305, HMAC-SHA256, base64, encoding/json, crypto/rand, time.Now, os/exec and the
-- connection; what the code relies on is a named hypothesis: that sealed data opens (OpensSealed), that
-- a random read is full (FullReads), that a value reads back from its JSON (ReadsBack), that the JSON text of a
-- string changes no byte but those behind ASCII (Coerces, in Broker.Coerced), that no response
-- is dropped. A process is what it writes and how it ends; that a lost pipe may end it early is not
-- looked at. The iteration order of a Go map is the order of the list that stands for it.
-- What a thread's process writes is one step with its start, since nothing but the log of responses sees it; that
-- log, `Service.sent`, is then that of all the connections.
--
-- Not modelled: the named pipe of internal/ipc/transport_windows.go and the opening of the SQLite file,
-- which are calls of libraries; the usage text.
pub mod Prelude
pub mod Outcome
pub mod Model
pub mod Machine
pub mod SecureCrypto
pub mod Vault
pub mod Generator
pub mod Redaction
pub mod Power
pub mod Paths
pub mod Runner
pub mod Api
pub mod Broker
pub mod Ipc
pub mod CommandLine
pub mod Tests

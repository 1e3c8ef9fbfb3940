-- ===== src/Broker.antt =====
-- internal/broker/broker.go: the broker's state, and the steps that its operations are made of.
pub mod Names
pub mod Actions
pub mod Handle
pub mod Silent
pub mod Coerced
pub mod Events
pub mod Replies
pub mod Refusals
pub mod Locked
pub mod Redacted
pub mod Discarded
pub mod Stores
pub mod Invariant
pub mod Life
pub mod Sound
pub mod Approval
pub mod Unlocking
pub mod Threads
use vibe_coding_secret_manag.Prelude.{
  ℕ, ◌+◌, Bool, true, false, List, [], ◌∷◌, ◌++◌, Option, none, some, Bytes, codes, ℤ,
  if◌then◌else◌,
}
use vibe_coding_secret_manag.Outcome.{
  Error, unknown_profile, no_random, endless_generator, not_initialized, no_power, not_encodable,
  Result, ok, err,
}
use vibe_coding_secret_manag.Model.{Time}
use vibe_coding_secret_manag.Machine.Env.{Env}
use vibe_coding_secret_manag.Machine.Exec.{
  Machine, KeySet, Run, Exec, file_call, pure, lift, ◌>>=◌, ◌>>◌,
}
use vibe_coding_secret_manag.Vault.Session.{open_vault, is_unlocked, lock}
use vibe_coding_secret_manag.Power.{Platform, System, Tools, Manager, start_power, stop_power}
use vibe_coding_secret_manag.Runner.{Invocation, Failure}
use vibe_coding_secret_manag.Generator.{
  Profile, Generated, generated, random_error, out_of_fuel, generate,
}
use vibe_coding_secret_manag.Generator
use vibe_coding_secret_manag.Api.{
  Status, UnlockRequest, SecretRequest, ScopeRequest, ActionRequest, ConfigureActionRequest,
  AuditRequest, Answer, status_is, Response,
}

pub data Stream : Type 0 where
  stdout stderr : Stream

-- What a process that has been started does: what it writes, in the order of arrival, the error of
-- cmd.Run if no write of the broker fails, and whether the context has ended by then.
pub record Ended : Type 0 where
  pub outputs : List (Stream × Bytes)
  pub failure : Option Failure
  pub cancelled : Bool

-- The world around the broker.
pub record Host : Type 0 where
  pub env : Env
  pub platform : Platform
  pub tools : Tools
  pub started_at : Time
  -- os.Environ()
  pub environ : List Bytes
  -- the batches that the n-th Generate reads, and how many of them it may read here
  pub batches : ℕ → ℕ → Option Bytes
  pub patience : ℕ
  -- the n-th process that the broker runs
  pub process : ℕ → Invocation → Ended
  -- whether the connection has been lost at the n-th response
  pub drops : ℕ → Bool
  -- encoding/json on payloads, and whether it encodes an answer
  pub unlock_payload : Bytes → Option UnlockRequest
  pub secret_payload : Bytes → Option SecretRequest
  pub scope_payload : Bytes → Option ScopeRequest
  pub action_payload : Bytes → Option ActionRequest
  pub configure_payload : Bytes → Option ConfigureActionRequest
  pub audit_payload : Bytes → Option AuditRequest
  pub encodes : Answer → Bool
  -- the text that json.Marshal makes of a string
  pub as_text : Bytes → Bytes

-- Broker, with the store behind it, the system, and the responses that have reached the client.
-- While `opened` is false, `store` is the database with no keys.
pub record Service : Type 0 where
  pub opened : Bool
  pub store : Machine
  pub power : Manager
  pub system : System
  pub sent : List Response
  pub sends : ℕ
  pub generations : ℕ
  pub runs : ℕ

abbrev pub Serve : Type 0 → Type 0
Serve = Run Service

-- a step of the store
unfoldable pub in_store : {A : Type 0} → Exec A → Serve A
in_store m s = let (r, store) = m s.store in (r, record s { store = store })

unfoldable pub opened_by : Service → Result (Unit {0}) × Machine → Result (Unit {0}) × Service
opened_by s (ok _, store) = (ok tt, record s { opened = true; store = store })
opened_by s (err e, store) = (err not_initialized, record s { store = store })

generated_value : Generated → Result (Bytes × Profile)
generated_value (generated value profile) = ok (value, profile)
generated_value Generated.unknown_profile = err unknown_profile
generated_value random_error = err no_random
generated_value out_of_fuel = err endless_generator

abbrev pub power_result : Bool → Result (Unit {0})
power_result true = ok tt
power_result false = err no_power

-- vault.Open: it looks for the file and opens the database before it reads the tables. A file that is
-- not there is a file call that fails.
unfoldable pub open_file : Env → Exec (Unit {0})
open_file env = file_call env >> (file_call env >> open_vault env)

module _ (host : Host) where
  -- getStore
  unfoldable pub get_store : Serve (Unit {0})
  get_store s = if s.opened then (ok tt, s) else opened_by s (open_file host.env s.store)

  -- status
  unfoldable pub status : Serve Answer
  status s =
      let (ignored, s') = get_store s in
      (
        ok (
            status_is (record {
              initialized = s'.opened;
              unlocked = if s'.opened then is_unlocked s'.store else false;
              vault_id = if s'.opened then s'.store.vault_id else [];
              started_at = host.started_at;
              power_hold = s'.power.active;
            })),
        s',
      )

  -- b.power.Start()
  unfoldable pub hold_power : Serve (Unit {0})
  hold_power s =
      let (done, power, system) = start_power host.tools host.platform s.power s.system in
      (power_result done, record s { power = power; system = system })

  -- generator.Generate
  unfoldable pub new_value : Bytes → Serve (Bytes × Profile)
  unfolding generated_value
  new_value name s = (
    generated_value (generate (host.batches s.generations) host.patience name),
    record s { generations = s.generations + 1 },
  )

  -- send; false is an error
  unfoldable pub send : Response → Service → Bool × Service
  send response s =
      if host.drops s.sends
      then (false, record s { sends = s.sends + 1 })
      else (true, record s { sends = s.sends + 1; sent = s.sent ++ response ∷ [] })

  -- fail
  unfoldable pub fail : Error → Service → Service
  fail e s =
      let (sent, s') =
        send
          (record {
            id = [];
            is_ok = false;
            event = [];
            answer = none;
            error = some e;
            is_final = true;
          })
          s in
      s'

  unfoldable pub succeed : Answer → Service → Service
  succeed answer s =
      let (sent, s') =
        send
          (record {
            id = [];
            is_ok = true;
            event = [];
            answer = some answer;
            error = none;
            is_final = true;
          })
          s in
      s'

  -- done
  unfoldable pub done : Answer → Service → Service
  unfolding succeed
  done answer s = if host.encodes answer then succeed answer s else fail not_encodable s

  unfoldable pub answered : Result Answer × Service → Service
  answered (ok answer, s) = done answer s
  answered (err e, s) = fail e s

  -- A case of Handle: its steps, and then done with what they return, or fail with their error.
  unfoldable pub reply : Serve Answer → Service → Service
  unfolding answered
  reply m s = answered (m s)

-- b.power.Stop()
unfoldable pub release_power : Serve (Unit {0})
release_power s =
    let (power, system) = stop_power s.power s.system in
    (ok tt, record s { power = power; system = system })

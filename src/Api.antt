-- ===== src/Api.antt =====
-- internal/api/api.go: the requests and responses between the command line and the broker. JSON is
-- read and written at the edge: a response holds the value that its data encodes.
use vibe_coding_secret_manag.Prelude.{Bool, List, Option, Bytes, ℤ}
use vibe_coding_secret_manag.Outcome.{Error}
use vibe_coding_secret_manag.Model.{Time, Scope, SecretMetadata, Action, AuditEvent}

-- Status; the unlock mode is always `until-broker-restart`.
pub record Status : Type 0 where
  pub initialized : Bool
  pub unlocked : Bool
  pub vault_id : Bytes
  pub started_at : Time
  pub power_hold : Bool

pub record UnlockRequest : Type 0 where
  pub password : Bytes

pub record SecretRequest : Type 0 where
  pub scope : Scope
  pub name : Bytes
  pub profile : Bytes

pub record ScopeRequest : Type 0 where
  pub scope : Scope

pub record ActionRequest : Type 0 where
  pub scope : Scope
  pub name : Bytes

pub record ConfigureActionRequest : Type 0 where
  pub action : Action
  pub master_password : Bytes

pub record AuditRequest : Type 0 where
  pub limit : ℤ

pub record RunResult : Type 0 where
  pub action : Bytes
  pub exit_code : ℤ

-- What the data of a response encodes.
pub data Answer : Type 0 where
  status_is : Status → Answer
  metadata_is : SecretMetadata → Answer
  metadata_list : List SecretMetadata → Answer
  action_is : Action → Answer
  action_list : List Action → Answer
  event_list : List AuditEvent → Answer
  run_result : RunResult → Answer
  output_text : Bytes → Answer

-- Request, with its payload undecoded
pub record Request : Type 0 where
  pub id : Bytes
  pub operation : Bytes
  pub payload : Bytes

-- Response; `error` is none for an empty text.
pub record Response : Type 0 where
  pub id : Bytes
  pub is_ok : Bool
  pub event : Bytes
  pub answer : Option Answer
  pub error : Option Error
  pub is_final : Bool

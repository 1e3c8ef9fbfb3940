-- ===== src/Model.antt =====
-- internal/model/model.go: the data that the vault keeps and reports. A Go `string` is its bytes.
-- `int` fields that only count up are natural numbers.
use vibe_coding_secret_manag.Prelude.{ℕ, ◌∷◌, ◌++◌, List, Option, Bytes}

-- A wall-clock time: seconds since the epoch and nanoseconds.
pub record Time : Type 0 where
  pub sec : ℕ
  pub nano : ℕ

pub record Scope : Type 0 where
  pub project : Bytes
  pub environment : Bytes

-- Scope.Key
unfoldable pub scope_key : Scope → Bytes
scope_key s = s.project ++ 0 ∷ s.environment

pub record SecretMetadata : Type 0 where
  pub id : Bytes
  pub project : Bytes
  pub environment : Bytes
  pub name : Bytes
  pub profile : Bytes
  pub strength_bits : ℕ
  pub version : ℕ
  pub state : Bytes
  pub created_at : Time
  pub updated_at : Time

-- `secrets` maps names of environment variables to names of secrets; its keys are distinct.
pub record Action : Type 0 where
  pub id : Bytes
  pub project : Bytes
  pub environment : Bytes
  pub name : Bytes
  pub executable : Bytes
  pub arguments : List Bytes
  pub directory : Bytes
  pub secrets : List (Bytes × Bytes)
  pub output_policy : Bytes
  pub created_at : Time
  pub updated_at : Time

-- `timestamp` is none for the zero time.
pub record AuditEvent : Type 0 where
  pub id : Bytes
  pub timestamp : Option Time
  pub actor : Bytes
  pub operation : Bytes
  pub object_id : Bytes
  pub outcome : Bytes
  pub detail : Bytes

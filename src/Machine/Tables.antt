-- ===== src/Machine/Tables.antt =====
-- The tables that `createSchema` of internal/vault/store.go declares, and the rows of each. Rows
-- stand in the order of insertion. A BLOB or TEXT is its bytes, NULL in `previous_hmac` is no bytes.
use vibe_coding_secret_manag.Prelude.{ℕ, Bool, true, false, List, Option, Bytes}

-- object_type
pub data Kind : Type 0 where
  secret action : Kind

-- secret_versions.state
pub data VersionState : Type 0 where
  pending active retired revoked : VersionState

pub record WrapperRow : Type 0 where
  pub wrapper_id : Bytes
  pub params : Bytes
  pub salt : Bytes
  pub nonce : Bytes
  pub ciphertext : Bytes
  pub is_active : Bool
  pub created_at : Bytes

pub record ObjectRow : Type 0 where
  pub object_id : Bytes
  pub object_type : Kind
  pub lookup_token : Bytes
  pub metadata_nonce : Bytes
  pub metadata_ciphertext : Bytes
  pub revision : ℕ
  pub created_at : Bytes
  pub updated_at : Bytes

pub record VersionRow : Type 0 where
  pub version_id : Bytes
  pub secret_id : Bytes
  pub version_number : ℕ
  pub state : VersionState
  pub value_nonce : Bytes
  pub value_ciphertext : Bytes
  pub created_at : Bytes
  pub activated_at : Option Bytes
  pub retired_at : Option Bytes

pub record AuditRow : Type 0 where
  pub event_id : Bytes
  pub event_json : Bytes
  pub previous_hmac : Bytes
  pub event_hmac : Bytes
  pub created_at : Bytes

pub record Db : Type 0 where
  pub metadata : List (Bytes × Bytes)
  pub wrappers : List WrapperRow
  pub objects : List ObjectRow
  pub versions : List VersionRow
  pub audits : List AuditRow

abbrev pub same_kind : Kind → Kind → Bool
same_kind secret secret = true
same_kind action action = true
same_kind _ _ = false

abbrev pub is_active : VersionState → Bool
is_active active = true
is_active _ = false

-- ===== src/Machine/Env.antt =====
-- The code around the vault that the repository does not hold, as parameters: the cryptographic
-- libraries, encoding/json, the clock, the random source, and whether a database call fails.
use vibe_coding_secret_manag.Prelude.{ℕ, Bool, Option, some, Bytes, ◌≡◌}
use vibe_coding_secret_manag.Model.{Time, SecretMetadata, Action, AuditEvent}

pub record KdfParams : Type 0 where
  pub memory_kib : ℕ
  pub iterations : ℕ
  pub parallelism : ℕ

-- How a Go value is marshalled, and unmarshalled.
pub record Json (A : Type 0) : Type 0 where
  pub marshal : A → Option Bytes
  pub unmarshal : Bytes → Option A

pub record Env : Type 0 where
  -- argon2.IDKey(password, salt, iterations, memory, parallelism, 32)
  pub argon2 : Bytes → Bytes → ℕ → ℕ → ℕ → Bytes
  -- 32 bytes of hkdf.New(sha256.New, key, nil, info)
  pub hkdf : Bytes → Bytes → Option Bytes
  -- chacha20poly1305.NewX(key) gives no error
  pub accepts_key : Bytes → Bool
  -- aead.Seal(nil, nonce, plaintext, associatedData) and aead.Open, for a key
  pub aead_seal : Bytes → Bytes → Bytes → Bytes → Bytes
  pub aead_open : Bytes → Bytes → Bytes → Bytes → Option Bytes
  -- HMAC-SHA256 of a message, and base64.RawURLEncoding
  pub hmac : Bytes → Bytes → Bytes
  pub base64 : Bytes → Bytes
  -- the n-th read of crypto/rand, of a number of bytes
  pub random : ℕ → ℕ → Option Bytes
  -- the n-th call of time.Now
  pub now : ℕ → Time
  -- the date and time of day of a time in seconds, as Format writes them before the fraction
  pub date_text : ℕ → Bytes
  -- the n-th database call, or commit, fails for a reason outside the tables
  pub fault : ℕ → Bool
  -- whether os.Remove of the vault's file succeeds
  pub removes : Bool
  pub params_json : Json KdfParams
  pub secret_json : Json SecretMetadata
  pub action_json : Json Action
  pub event_json : Json AuditEvent

-- What is sealed under a key, a nonce and associated data opens under the same.
pub record OpensSealed (env : Env) : Type 0 where
  pub open_seal :
      (key nonce plaintext associated : Bytes)
      → env.aead_open key nonce (env.aead_seal key nonce plaintext associated) associated
        ≡ some plaintext

-- ===== src/SecureCrypto.antt =====
-- internal/securecrypto/securecrypto.go: key derivation, sealing and lookup tokens over the
-- libraries that `Env` stands for.
pub mod Lookup
pub mod Sealing
use vibe_coding_secret_manag.Prelude.{
  ℕ, ◌*◌, ◌+◌, Bool, true, false, List, [], ◌∷◌, ◌++◌, map, Option, none, some, length, Bytes,
  codes, ltb, ◌==◌, if◌then◌else◌,
}
use vibe_coding_secret_manag.Outcome.{
  Error, weak_memory, weak_iterations, weak_parallelism, empty_password, long_password, short_salt,
  bad_key, bad_nonce, authentication_failed, derivation_failed, Result, ok, err, require, guard,
}
use vibe_coding_secret_manag.Machine.Env.{Env, KdfParams}
use vibe_coding_secret_manag.Machine.Exec.{Exec, pure, lift, draw, ◌>>=◌, ◌>>◌}

abbrev pub key_size : ℕ
key_size = 32

abbrev pub salt_size : ℕ
salt_size = 16

-- chacha20poly1305.NonceSizeX
abbrev pub nonce_size : ℕ
nonce_size = 24

-- DefaultKDFParams
abbrev pub default_kdf_params : KdfParams
default_kdf_params = record { memory_kib = 64 * 1024; iterations = 3; parallelism = 1 }

-- ValidateKDFParams
unfoldable pub validate_kdf_params : KdfParams → Result (Unit {0})
validate_kdf_params p =
    if ltb p.memory_kib (19 * 1024)
    then err weak_memory
    else if ltb p.iterations 2
    then err weak_iterations
    else if p.parallelism == 0
    then err weak_parallelism
    else ok tt

-- Zero
unfoldable pub zero_bytes : Bytes → Bytes
zero_bytes = map (λ _. 0)

-- What LookupToken writes to the MAC: each value behind a zero byte.
unfoldable pub lookup_message : List Bytes → Bytes
lookup_message [] = []
lookup_message (value ∷ values) = 0 ∷ (value ++ lookup_message values)

module _ (env : Env) where
  derive_checked : Bytes → Bytes → KdfParams → Result (Unit {0}) → Result Bytes
  derive_checked password salt p (err e) = err e
  derive_checked password salt p (ok _) =
      ok (env.argon2 password salt p.iterations p.memory_kib p.parallelism)

  -- DeriveKEK
  unfoldable pub derive_kek : Bytes → Bytes → KdfParams → Result Bytes
  unfolding derive_checked validate_kdf_params
  derive_kek password salt p =
      if length password == 0
      then err empty_password
      else if ltb 4096 (length password)
      then err long_password
      else if ltb (length salt) salt_size
      then err short_salt
      else derive_checked password salt p (validate_kdf_params p)

  -- ExpandKey
  unfoldable pub expand_key : Bytes → Bytes → Result Bytes
  expand_key key purpose = require derivation_failed (env.hkdf key (codes "vcsm:v2:" ++ purpose))

  -- RandomBytes
  unfoldable pub random_bytes : ℕ → Exec Bytes
  random_bytes size = draw env size

  -- Seal
  unfoldable pub seal : Bytes → Bytes → Bytes → Exec (Bytes × Bytes)
  unfolding random_bytes
  seal key plaintext associated = do
    lift (guard (env.accepts_key key) bad_key)
    nonce ← random_bytes nonce_size
    pure (nonce, env.aead_seal key nonce plaintext associated)

  -- Open
  unfoldable pub open_sealed : Bytes → Bytes → Bytes → Bytes → Result Bytes
  open_sealed key nonce ciphertext associated =
      if env.accepts_key key
      then (if length nonce == nonce_size
          then require authentication_failed (env.aead_open key nonce ciphertext associated)
          else err bad_nonce)
      else err bad_key

  -- LookupToken
  unfoldable pub lookup_token : Bytes → List Bytes → Bytes
  unfolding lookup_message
  lookup_token key values = env.base64 (env.hmac key (lookup_message values))

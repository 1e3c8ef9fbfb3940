-- ===== src/Vault/Context.antt =====
-- Identifiers, time stamps, and the associated data that ties each ciphertext to its place.
pub mod Apart
use vibe_coding_secret_manag.Prelude.{
  ℕ, zero, suc, ◌+◌, ◌-◌, ◌*◌, ◌/◌, ◌%◌, List, [], ◌∷◌, ◌++◌, take, drop, Bytes, codes, decimal,
  ◌==◌, ltb, if◌then◌else◌,
}
use vibe_coding_secret_manag.Model.{Time, Scope}
use vibe_coding_secret_manag.Machine.Tables.{Kind, secret, action}
use vibe_coding_secret_manag.Machine.Env.{Env}
use vibe_coding_secret_manag.Machine.Exec.{Exec, pure, draw, ◌>>=◌}
use vibe_coding_secret_manag.SecureCrypto.{lookup_token}

abbrev pub kind_text : Kind → Bytes
kind_text secret = codes "secret"
kind_text action = codes "action"

-- wrapperAAD
unfoldable pub wrapper_aad : Bytes → Bytes
wrapper_aad vault_id = codes "vcsm:dek:v1:" ++ vault_id

-- objectAAD
unfoldable pub object_aad : Kind → Bytes → ℕ → Bytes
object_aad kind id revision =
    codes "vcsm:object:v1:" ++ (kind_text kind ++ b':' ∷ (id ++ b':' ∷ decimal revision))

-- secretAAD
unfoldable pub secret_aad : Bytes → ℕ → Bytes
secret_aad id version = codes "vcsm:secret:v1:" ++ (id ++ b':' ∷ decimal version)

-- encoding/hex
unfoldable pub hex_digit : ℕ → ℕ
hex_digit n = if ltb n 10 then b'0' + n else b'a' + (n - 10)

unfoldable pub hex : Bytes → Bytes
unfolding hex_digit
hex [] = []
hex (b ∷ s) = hex_digit (b / 16) ∷ hex_digit (b % 16) ∷ hex s

-- value[i] = f(value[i])
unfoldable pub modify : ℕ → (ℕ → ℕ) → Bytes → Bytes
modify i f [] = []
modify zero f (b ∷ s) = f b ∷ s
modify (suc i) f (b ∷ s) = b ∷ modify i f s

-- The text of the random bytes in randomID: `b & 0x0f | 0x40` is `b % 16 + 64` for a byte `b`, and
-- `b & 0x3f | 0x80` is `b % 64 + 128`.
unfoldable pub id_text : Bytes → Bytes
unfolding modify hex
id_text value =
    let h = hex (modify 8 (λ b. b % 64 + 128) (modify 6 (λ b. b % 16 + 64) value)) in
    take 8 h
    ++ b'-'
      ∷ (take 4 (drop 8 h)
          ++ b'-' ∷ (take 4 (drop 12 h) ++ b'-' ∷ (take 4 (drop 16 h) ++ b'-' ∷ drop 20 h)))

-- The last `places` decimal digits of a number.
unfoldable pub padded : ℕ → ℕ → Bytes
padded zero n = []
padded (suc places) n = padded places (n / 10) ++ (b'0' + n % 10) ∷ []

-- The fraction of time.RFC3339Nano: its digits, with no zeros at the end.
unfoldable pub trimmed : ℕ → ℕ → Bytes
unfolding padded
trimmed zero n = []
trimmed (suc places) n =
    let fewer = trimmed places (n / 10) in if n % 10 == 0 then fewer else padded (suc places) n

module _ (env : Env) where
  -- secretLookup
  unfoldable pub secret_lookup : Bytes → Scope → Bytes → Bytes
  secret_lookup key scope name =
      lookup_token env key (codes "secret" ∷ scope.project ∷ scope.environment ∷ name ∷ [])

  -- actionLookup
  unfoldable pub action_lookup : Bytes → Scope → Bytes → Bytes
  action_lookup key scope name =
      lookup_token env key (codes "action" ∷ scope.project ∷ scope.environment ∷ name ∷ [])

  -- randomID
  unfoldable pub random_id : Exec Bytes
  unfolding id_text
  random_id = do value ← draw env 16; pure (id_text value)

  -- now.Format(time.RFC3339Nano), of a time in UTC
  unfoldable pub stamp : Time → Bytes
  unfolding trimmed
  stamp t =
      env.date_text t.sec ++ ((if t.nano == 0 then [] else b'.' ∷ trimmed 9 t.nano) ++ b'Z' ∷ [])

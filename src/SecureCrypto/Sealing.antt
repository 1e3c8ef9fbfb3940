-- ===== src/SecureCrypto/Sealing.antt =====
-- What is sealed opens again, and what DeriveKEK refuses.
use vibe_coding_secret_manag.SecureCrypto.{nonce_size, seal, open_sealed, derive_kek}
use vibe_coding_secret_manag.Prelude.{ℕ, ◌*◌, ◌≤◌, ◌≡◌, ◌↔◌, some, arith, length, Bytes}
use vibe_coding_secret_manag.Outcome.{ok}
use vibe_coding_secret_manag.Machine.Env.{Env, KdfParams, OpensSealed}
use vibe_coding_secret_manag.Machine.Exec.{Machine, draw, ◌>>=◌}

-- Where sealed data opens and random reads are full, what Seal returns opens under the same key
-- and associated data, and gives the plaintext.
pub open-seal :
    (env : Env) (laws : OpensSealed env) (key plaintext associated nonce ciphertext : Bytes)
    (s t : Machine)
    → ((n : ℕ) (bytes : Bytes) → env.random n nonce_size ≡ some bytes → length bytes ≡ nonce_size)
    → seal env key plaintext associated s ≡ (ok (nonce, ciphertext), t)
    → open_sealed env key nonce ciphertext associated ≡ ok plaintext
unfolding seal open_sealed draw ◌>>=◌
open-seal env laws key plaintext associated nonce ciphertext s t sized h =
    ground (arith, laws.open_seal key nonce plaintext associated, sized s.draws nonce)

-- DeriveKEK gives the derived key exactly for a password of 1 to 4096 bytes, a salt of at least
-- 16 bytes, and at least 19 MiB of memory, two iterations and one lane.
pub derive_kek_iff :
    (env : Env) (password salt : Bytes) (p : KdfParams)
    → (derive_kek env password salt p
        ≡ ok (env.argon2 password salt p.iterations p.memory_kib p.parallelism))
      ↔ ((1 ≤ length password)
          × (length password ≤ 4096)
          × (16 ≤ length salt)
          × (19 * 1024 ≤ p.memory_kib)
          × (2 ≤ p.iterations)
          × (1 ≤ p.parallelism))
unfolding derive_kek
derive_kek_iff env password salt p = (λ h. ground arith, λ h. ground arith)

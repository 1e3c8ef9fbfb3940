-- ===== src/CommandLine/Password.antt =====
-- The passwords that `vcsm init` takes, and those that DeriveKEK takes.
use vibe_coding_secret_manag.Prelude.{◌≡◌, ◌↔◌, ◌≤◌, none, Bytes, equal_iff, length, arith}
use vibe_coding_secret_manag.CommandLine.Client.{check_new_password}

-- The checks of `vcsm init` let a new password through exactly if it is confirmed and has 15 to
-- 256 bytes.
pub check_new_password_iff :
    (password confirmation : Bytes)
    → (check_new_password password confirmation ≡ none)
      ↔ ((password ≡ confirmation) × (15 ≤ length password) × (length password ≤ 256))
unfolding check_new_password
check_new_password_iff password confirmation =
    let same = equal_iff password confirmation in
    (
      λ h. (ground (arith, same), ground (arith, same), ground (arith, same)),
      λ h. ground (arith, same),
    )

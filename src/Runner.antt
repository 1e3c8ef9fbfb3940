-- ===== src/Runner.antt =====
-- internal/runner/runner.go: running a command, and the exit code that is reported for it.
use vibe_coding_secret_manag.Prelude.{
  Bool, true, false, List, [], ◌∷◌, Option, none, some, Bytes, ℤ, pos, if◌then◌else◌,
}

-- Invocation; the standard input is empty.
pub record Invocation : Type 0 where
  pub command : List Bytes
  pub dir : Bytes
  pub env : List Bytes

-- The error of cmd.Run, as far as Run looks into it: the code of an *exec.ExitError, whether the
-- context has ended, and os.IsNotExist.
pub record Failure : Type 0 where
  pub exit_code : Option ℤ
  pub cancelled : Bool
  pub not_exist : Bool

-- The code and the error that Run makes of the error of cmd.Run.
unfoldable pub code_of : Option Failure → ℤ × Bool
code_of none = (pos 0, false)
code_of (some f) = elim f.exit_code [
  | some code ↦ (code, true)
  | none ↦
      if f.cancelled
      then (pos 130, true)
      else if f.not_exist
      then (pos 127, true)
      else (pos 1, true)
]

-- Run, for what the process does; true where it returns an error.
unfoldable pub run_code : Invocation → Option Failure → ℤ × Bool
unfolding code_of
run_code inv failure = elim inv.command [
  | [] ↦ (pos 2, true)
  | executable ∷ arguments ↦ code_of failure
]

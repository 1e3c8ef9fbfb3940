-- ===== src/CommandLine/Client.antt =====
-- cmd/vcsm/main.go: what the command line does with the responses to a call, and its exit code.
use vibe_coding_secret_manag.Prelude.{
  ltb, length, ℕ, Bool, true, false, not, ◌||◌, List, [], ◌∷◌, ◌++◌, Option, none, some, Bytes,
  codes, equal, ◌==◌, ℤ, pos, negsuc, if◌then◌else◌,
}
use vibe_coding_secret_manag.Api.{Answer, run_result, output_text, Response}

-- What the process has printed so far, and `exitCode` of runCommand.
pub record Console : Type 0 where
  pub stdout : Bytes
  pub stderr : Bytes
  pub exit_code : ℤ

-- json.Unmarshal into a string
unfoldable pub text_of : Option Answer → Option Bytes
text_of (some (output_text text)) = some text
text_of _ = none

-- json.Unmarshal into an api.RunResult, whose exit code stays 0 where there is none
unfoldable pub code_in : Option Answer → ℤ
code_in (some (run_result result)) = result.exit_code
code_in _ = pos 0

-- Why a call ends: the data is no text, the broker reported an error, or the connection or the request
-- failed.
pub data CallError : Type 0 where
  bad_data broker_error connection_failed : CallError

print_output : Bool → Option Bytes → Console → Option CallError × Console
print_output is_stdout none c = (some bad_data, c)
print_output true (some text) c = (none, record c { stdout = c.stdout ++ text })
print_output false (some text) c = (none, record c { stderr = c.stderr ++ text })

-- The handler that runCommand gives to call.
unfoldable pub on_run : Response → Console → Option CallError × Console
unfolding print_output text_of code_in
on_run response c =
    let is_stdout = equal response.event (codes "stdout") in
    if is_stdout || equal response.event (codes "stderr")
    then print_output is_stdout (text_of response.answer) c
    else if response.is_final
    then (
      if response.is_ok then none else some broker_error,
      record c { exit_code = code_in response.answer },
    )
    else (none, c)

abbrev pub new_console : Console
new_console = record { stdout = []; stderr = []; exit_code = pos 1 }

abbrev pub is_zero : ℤ → Bool
is_zero (pos n) = n == 0
is_zero (negsuc n) = false

-- What runCommand returns.
unfoldable pub run_status : Option CallError × Console → ℤ
run_status (none, c) = c.exit_code
run_status (some e, c) = if is_zero c.exit_code then pos 1 else c.exit_code

-- The handler that callAndPrint gives to call: it prints the data of the final response.
unfoldable pub on_print : Response → List Answer → Option CallError × List Answer
on_print response printed =
    if not response.is_ok
    then (some broker_error, printed)
    else if response.is_final
    then (none, elim response.answer [ none ↦ printed | some answer ↦ printed ++ answer ∷ [] ])
    else (none, printed)

-- printCallResult
unfoldable pub print_status : Option CallError → ℕ
print_status none = 0
print_status (some e) = 1

pub data PasswordError : Type 0 where
  do_not_match too_short too_long : PasswordError

-- The checks of initVault on the new password; none lets vault.Initialize go ahead.
unfoldable pub check_new_password : Bytes → Bytes → Option PasswordError
check_new_password password confirmation =
    if not (equal password confirmation)
    then some do_not_match
    else if ltb (length password) 15
    then some too_short
    else if ltb 256 (length password)
    then some too_long
    else none

-- ===== src/Broker/Names.antt =====
-- The checks of internal/broker/broker.go on the names in a request.
use vibe_coding_secret_manag.Prelude.{
  ℕ, Bool, true, false, ◌&&◌, ◌||◌, [], ◌∷◌, all, length, Bytes, codes, equal, leb, ◌==◌, Option,
  none, some,
}
use vibe_coding_secret_manag.Outcome.{
  unsafe_name, unknown_profile, no_executable, bad_output_policy, bad_secret_mapping, Result, ok,
  err, guard,
}
use vibe_coding_secret_manag.Model.{Action}
use vibe_coding_secret_manag.Api.{SecretRequest}
use vibe_coding_secret_manag.Generator.{Profile}
use vibe_coding_secret_manag.Generator

abbrev pub is_letter : ℕ → Bool
is_letter c = leb b'A' c && leb c b'Z' || leb b'a' c && leb c b'z'

abbrev pub is_digit : ℕ → Bool
is_digit c = leb b'0' c && leb c b'9'

abbrev pub is_name_byte : ℕ → Bool
is_name_byte c = is_letter c || is_digit c || c == b'_' || c == b'.' || c == b'-'

abbrev pub is_env_byte : ℕ → Bool
is_env_byte c = is_letter c || is_digit c || c == b'_'

-- safeName: ^[A-Za-z][A-Za-z0-9_.-]{0,127}$
unfoldable pub safe_name : Bytes → Bool
safe_name [] = false
safe_name (c ∷ s) = is_letter c && (all is_name_byte s && leb (length s) 127)

-- safeEnvName: ^[A-Za-z_][A-Za-z0-9_]*$
unfoldable pub safe_env_name : Bytes → Bool
safe_env_name [] = false
safe_env_name (c ∷ s) = (is_letter c || c == b'_') && all is_env_byte s

checked_profile : Option Profile → Result (Unit {0})
checked_profile none = err unknown_profile
checked_profile (some p) = ok tt

-- validateSecretRequest
unfoldable pub validate_secret_request : SecretRequest → Result (Unit {0})
unfolding checked_profile
validate_secret_request request =
    elim (safe_name request.scope.project
      && (safe_name request.scope.environment && safe_name request.name)) [
        | false ↦ err unsafe_name
        | true ↦ checked_profile (Generator.get request.profile)
      ]

abbrev safe_mapping : Bytes × Bytes → Bool
safe_mapping (env_name, secret_name) = safe_env_name env_name && safe_name secret_name

-- validateAction
unfoldable pub validate_action : Action → Result (Unit {0})
validate_action action =
    elim (safe_name action.project && (safe_name action.environment && safe_name action.name)) [
      | false ↦ err unsafe_name
      | true ↦ elim (length action.executable == 0) [
        | true ↦ err no_executable
        | false ↦
            elim (equal action.output_policy (codes "metadata")
              || equal action.output_policy (codes "redacted")) [
                | false ↦ err bad_output_policy
                | true ↦ guard (all safe_mapping action.secrets) bad_secret_mapping
              ]
      ]
    ]

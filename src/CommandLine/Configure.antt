-- ===== src/CommandLine/Configure.antt =====
-- The options of `action configure` are read back as they are written.
use vibe_coding_secret_manag.Prelude.{
  ◌≡◌, refl, sym, ap, ◌∙◌, Bool, true, false, not, ◌&&◌, List, [], ◌∷◌, ◌++◌, append_assoc,
  append-nil, Option, some, Bytes, codes, equal, has_byte, ◌==◌, arith, ℤ,
}
use vibe_coding_secret_manag.Model.{Action}
use vibe_coding_secret_manag.CommandLine.{
  configures, cut, put, set_option, read_options, new_action, with_command, action_command, plan,
}

-- The arguments that describe an action.
abbrev pub secret_arguments : List (Bytes × Bytes) → List Bytes
secret_arguments [] = []
secret_arguments ((env_name, secret_name) ∷ secrets) =
    codes "--secret" ∷ (env_name ++ b'=' ∷ secret_name) ∷ secret_arguments secrets

abbrev pub command_arguments : Action → List Bytes
command_arguments a = codes "--output" ∷ a.output_policy ∷ codes "--" ∷ a.executable ∷ a.arguments

abbrev pub configure_arguments : Action → List Bytes
configure_arguments a =
    a.project ∷ a.environment ∷ a.name ∷ codes "--cwd" ∷ a.directory ∷ secret_arguments a.secrets
    ++ command_arguments a

-- Names of environment variables that the command line can set: they differ, and hold no '='.
abbrev pub is_new : Bytes → List (Bytes × Bytes) → Bool
is_new key [] = true
is_new key ((other, value) ∷ pairs) = not (equal other key) && is_new key pairs

abbrev pub can_be_set : List (Bytes × Bytes) → List (Bytes × Bytes) → Bool
can_be_set before [] = true
can_be_set before ((key, value) ∷ pairs) =
    (is_new key before && not (has_byte b'=' key)) && can_be_set (before ++ (key, value) ∷ []) pairs

cut-append :
    (key value : Bytes) → has_byte b'=' key ≡ false → cut (key ++ b'=' ∷ value) ≡ some (key, value)
unfolding has_byte
cut-append [] value free = refl
cut-append (c ∷ key) value free =
    let (here, after) : (c == b'=' ≡ false) × (has_byte b'=' key ≡ false) =
      (ground (arith, free), ground (arith, free)) in
    rw (here, cut-append key value after) refl

put_new :
    (key value : Bytes) (pairs : List (Bytes × Bytes))
    → is_new key pairs ≡ true
    → put key value pairs ≡ pairs ++ (key, value) ∷ []
put_new key value [] fresh = refl
put_new key value ((other, old) ∷ pairs) fresh =
    let (here, after) : (equal other key ≡ false) × (is_new key pairs ≡ true) =
      (ground (arith, fresh), ground (arith, fresh)) in
    rw (here, put_new key value pairs after) refl

read_step :
    (a b : Action) (option value : Bytes) (rest : List Bytes)
    → equal option (codes "--") ≡ false
    → set_option option value a ≡ some b
    → read_options a (option ∷ value ∷ rest) ≡ read_options b rest
unfolding read_options
read_step a b option value rest goes_on set = rw (goes_on, set) refl

set_option-secret :
    (a : Action) (key value : Bytes)
    → is_new key a.secrets ≡ true
    → has_byte b'=' key ≡ false
    → set_option (codes "--secret") (key ++ b'=' ∷ value) a
      ≡ some (record a { secrets = a.secrets ++ (key, value) ∷ [] })
unfolding set_option equal
set_option-secret a key value fresh free =
    rw (cut-append key value free, put_new key value a.secrets fresh) refl

-- The loop reads the secrets back, behind those that it has read.
read_secrets :
    (a : Action) (secrets : List (Bytes × Bytes)) (rest : List Bytes)
    → can_be_set a.secrets secrets ≡ true
    → read_options a (secret_arguments secrets ++ rest)
      ≡ read_options (record a { secrets = a.secrets ++ secrets }) rest
unfolding equal
read_secrets a [] rest settable =
    ap (λ l. read_options (record a { secrets = l }) rest) (sym (append-nil a.secrets))
read_secrets a ((key, value) ∷ secrets) rest settable =
    let b = record a { secrets = a.secrets ++ (key, value) ∷ [] } in
    let (fresh, free, settled) : (is_new key a.secrets ≡ true)
        × (has_byte b'=' key ≡ false)
        × (can_be_set b.secrets secrets ≡ true) =
      (ground (arith, settable), ground (arith, settable), ground (arith, settable)) in
    read_step a b (codes "--secret") (key ++ b'=' ∷ value) (secret_arguments secrets ++ rest) refl
      (set_option-secret a key value fresh free)
    ∙ read_secrets b secrets rest settled
    ∙ ap (λ l. read_options (record a { secrets = l }) rest)
        (append_assoc a.secrets ((key, value) ∷ []) secrets)

read_command :
    (read a : Action)
    → read_options read (command_arguments a)
      ≡ some (record read { output_policy = a.output_policy }, a.executable ∷ a.arguments)
unfolding read_options set_option equal
read_command read a = refl

-- What the broker sets itself.
abbrev pub as_asked : Action → Action
as_asked a = record a {
  id = [];
  created_at = record { sec = 0; nano = 0 };
  updated_at = record { sec = 0; nano = 0 };
}

-- For an action whose environment names differ and hold no equals sign, `vcsm action configure`
-- with the arguments that describe it asks for that action, without its id and its times.
pub plan-configure_arguments :
    (atoi : Bytes → Option ℤ) (a : Action)
    → can_be_set [] a.secrets ≡ true
    → plan atoi (codes "action" ∷ codes "configure" ∷ configure_arguments a)
      ≡ configures (as_asked a)
unfolding plan action_command equal
plan-configure_arguments atoi a settable =
    let start = new_action a.project a.environment a.name in
    let moved = record start { directory = a.directory } in
    ap with_command (
      read_secrets moved a.secrets (command_arguments a) settable
      ∙ read_command (record moved { secrets = a.secrets }) a)

-- ===== src/CommandLine/Untouched.antt =====
-- What a run of `vcsm` that fails leaves of the vault's tables.
use vibe_coding_secret_manag.Prelude.{◌≡◌, ◌≢◌, Bool, false, List, some, Bytes, pos, true}
use vibe_coding_secret_manag.Machine.Tables.{Db}
use vibe_coding_secret_manag.Machine.Env.{Env}
use vibe_coding_secret_manag.Machine.Exec.{Machine, Exec}
use vibe_coding_secret_manag.Vault.Session.{no_tables}
use vibe_coding_secret_manag.Paths.{Paths}
use vibe_coding_secret_manag.CommandLine.Program.{Options, Outside, Finished}

module _ (env : Env) (removes : env.removes ≡ true) (path_exists : Bool) (before : Db)
    (new : path_exists ≡ false → before ≡ no_tables) where
  abbrev AsBefore : Machine → Type 0
  AsBefore s = s.db ≡ before

-- Where the file of the vault is not there, there are no tables.
abbrev pub IsNew : Outside → Options → Machine → Type 0
IsNew outside options s = outside.path_exists options.vault ≡ false → s.db ≡ no_tables

-- The same for the options of these arguments.
abbrev pub HasFile : Outside → List Bytes → Machine → Type 0
HasFile outside arguments s =
    (paths : Paths) (options : Options) (rest : List Bytes)
    → outside.paths ≡ some paths
    → outside.parse paths arguments ≡ some (options, rest)
    → IsNew outside options s

-- Where the run has not returned 0, the tables are what they were.
record Untouched (s : Machine) (f : Finished) : Type 0 where
  pub kept : f.code ≢ pos 0 → f.store.db ≡ s.db

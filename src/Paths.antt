-- ===== src/Paths.antt =====
-- internal/platform/path.go: the paths of the vault and of the broker's endpoint.
pub mod Home
use vibe_coding_secret_manag.Prelude.{
  Bool, true, false, List, [], ◌∷◌, ◌++◌, Option, none, some, Bytes, codes, equal, is_prefix, drop,
  length, ◌==◌, if◌then◌else◌,
}
use vibe_coding_secret_manag.Power.{Platform, linux, darwin, windows, other}

-- os.UserHomeDir, os.Getenv, os.ExpandEnv, and filepath.Join and filepath.Clean of the platform.
pub record Surroundings : Type 0 where
  pub home : Option Bytes
  pub getenv : Bytes → Bytes
  pub expand_env : Bytes → Bytes
  pub join : List Bytes → Bytes
  pub clean : Bytes → Bytes

pub record Paths : Type 0 where
  pub data_dir : Bytes
  pub vault : Bytes
  pub endpoint : Bytes

module _ (os : Surroundings) where
  -- ExpandPath; none is an error
  unfoldable pub expand_path : Bytes → Option Bytes
  expand_path path =
      if equal path []
      then some []
      else if equal path (codes "~")
      then os.home
      else if is_prefix (codes "~/") path
      then elim os.home [
        | none ↦ none
        | some home ↦ some (os.clean (os.expand_env (os.join (home ∷ drop 2 path ∷ []))))
      ]
      else some (os.clean (os.expand_env path))

  -- An environment variable, or another value where it is empty.
  abbrev or_else : Bytes → Bytes → Bytes
  or_else value default = if equal value [] then default else value

  unix_data : Bytes → Bytes
  unix_data home = os.join (
      or_else (os.getenv (codes "XDG_STATE_HOME"))
        (os.join (home ∷ codes ".local" ∷ codes "state" ∷ []))
      ∷ codes "vcsm"
      ∷ [])

  -- The switch on runtime.GOOS: the data directory and the endpoint.
  places : Platform → Bytes → Bytes × Bytes
  unfolding unix_data
  places darwin home = (
    os.join (home ∷ codes "Library" ∷ codes "Application Support" ∷ codes "VCSM" ∷ []),
    os.join (home ∷ codes "Library" ∷ codes "Caches" ∷ codes "VCSM" ∷ codes "broker.sock" ∷ []),
  )
  places windows home = (
    os.join (
        or_else (os.getenv (codes "LOCALAPPDATA"))
          (os.join (home ∷ codes "AppData" ∷ codes "Local" ∷ []))
        ∷ codes "VCSM"
        ∷ []),
    codes "\\\\.\\pipe\\vcsm-broker",
  )
  places _ home = (
    unix_data home,
    os.join (
        or_else (os.getenv (codes "XDG_RUNTIME_DIR")) (unix_data home)
        ∷ codes "vcsm"
        ∷ codes "broker.sock"
        ∷ []),
  )

  -- DefaultPaths; none is an error
  unfoldable pub default_paths : Platform → Option Paths
  unfolding places
  default_paths platform = elim os.home [
    | none ↦ none
    | some home ↦
        let (data_dir, endpoint) = places platform home in
        some (record {
          data_dir = data_dir;
          vault = os.join (data_dir ∷ codes "vault.db" ∷ []);
          endpoint = endpoint;
        })
  ]

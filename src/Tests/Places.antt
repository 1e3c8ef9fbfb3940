-- ===== src/Tests/Places.antt =====
-- A run of the theorem on paths, and the paths of Linux.
use vibe_coding_secret_manag.Prelude.{◌≡◌, refl, List, [], ◌∷◌, ◌++◌, some, Bytes, codes, equal}
use vibe_coding_secret_manag.Power.{linux}
use vibe_coding_secret_manag.Paths.{Surroundings, default_paths}

-- Parts with a slash between them, which is filepath.Join for parts that are clean.
abbrev joined : List Bytes → Bytes
joined [] = []
joined (part ∷ []) = part
joined (part ∷ more) = part ++ b'/' ∷ joined more

abbrev plain : Surroundings
plain = record {
  home = some (codes "/home/u");
  getenv = λ name. [];
  expand_env = λ path. path;
  join = joined;
  clean = λ path. path;
}

default_paths_linux :
    default_paths plain linux
    ≡ some (record {
      data_dir = codes "/home/u/.local/state/vcsm";
      vault = codes "/home/u/.local/state/vcsm/vault.db";
      endpoint = codes "/home/u/.local/state/vcsm/vcsm/broker.sock";
    })
unfolding default_paths equal
default_paths_linux = refl

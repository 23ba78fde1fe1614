-- ===== src/Client/Paths.antt =====
-- src/paths.rs: the files of the program, from the variables of the environment.
use secretd.Prelude.{Bool, Option, none, some, List, [], ◌∷◌, ◌++◌, if◌then◌else◌}
use secretd.Prelude.Result.{Result, ok, ok_or, ◌>>=◌, home_unset}
use secretd.Prelude.Text.{Text, codes}

pub record Environment : Type 0 where
  pub data_dir : Option Text
  pub runtime : Option Text
  pub home : Option Text
  pub xdg_data_home : Option Text
  pub macos : Bool

-- A path as its base, a text, and the names that were joined to it.
pub record PathBuf : Type 0 where
  pub base : Text
  pub names : List Text

abbrev from_text : Text → PathBuf
from_text base = record { base = base; names = [] }

abbrev joined : PathBuf → Text → PathBuf
joined path name = record path { names = path.names ++ name ∷ [] }

data_home : Option Text → Text → PathBuf
data_home (some directory) home = from_text directory
data_home none home = joined (joined (from_text home) (codes ".local")) (codes "share")

unfoldable pub app_data_directory_from : Option Text → Option Text → Bool → Result PathBuf
unfolding data_home
app_data_directory_from home_variable xdg_data_home macos = do
  home ← ok_or home_variable home_unset
  ok (
      if macos
      then joined (joined (joined (from_text home) (codes "Library")) (codes "Application Support"))
          (codes "secretd")
      else joined (data_home xdg_data_home home) (codes "secretd"))

unfoldable pub app_data_directory : Environment → Result PathBuf
unfolding app_data_directory_from
app_data_directory environment = elim environment.data_dir [
  | some path ↦ ok (from_text path)
  | none ↦ app_data_directory_from environment.home environment.xdg_data_home environment.macos
]

unfoldable pub default_vault_path : Environment → Result PathBuf
unfolding app_data_directory
default_vault_path environment = do
  directory ← app_data_directory environment
  ok (joined directory (codes "vault.json"))

unfoldable pub default_runtime_path : Environment → Result PathBuf
unfolding app_data_directory
default_runtime_path environment = do
  directory ← app_data_directory environment
  ok (joined directory (codes "runtime.json"))

unfoldable pub cli_runtime_path : Environment → Result PathBuf
unfolding default_runtime_path
cli_runtime_path environment = elim environment.runtime [
  | some path ↦ ok (from_text path)
  | none ↦ default_runtime_path environment
]

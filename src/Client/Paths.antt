-- ===== src/Client/Paths.antt =====
-- internal/daemon/paths.go: where the daemon keeps its files. The environment, the home directory and
-- `filepath.Join` are parameters.
use lumn.Base.{String, Bool, ◌=ₛ◌, Result, ok, ◌>>=◌, if◌then◌else◌}
use lumn.Errkind.{GoError}

pub record Paths : Type 0 where
  pub state_dir : String
  pub db_path : String
  pub config_path : String
  pub socket_path : String
  pub pid_path : String
  pub log_path : String

-- What `DefaultPaths` reads of the process, and whether `runtime.GOOS` is "windows".
pub record Process : Type 0 where
  pub getenv : String → String
  pub user_home_dir : Result GoError String
  pub join : String → String → String
  pub is_windows : Bool

-- The directory of `DefaultPaths`.
unfoldable pub state_dir_of : Process → Result GoError String
state_dir_of p =
    let given = p.getenv "LUMN_STATE_DIR" in
    if given =ₛ "" then (p.user_home_dir >>= (λ home. ok (p.join home ".lumn"))) else ok given

abbrev pub paths_in : Process → String → Paths
paths_in p dir = record {
  state_dir = dir;
  db_path = p.join dir "lumnd.db";
  config_path = p.join dir "lumnd.conf";
  socket_path = if p.is_windows then "" else p.join dir "lumnd.sock";
  pid_path = p.join dir "lumnd.pid";
  log_path = p.join dir "lumnd.log";
}

-- `DefaultPaths`.
unfoldable pub default_paths : Process → Result GoError Paths
unfolding state_dir_of
default_paths p = state_dir_of p >>= (λ dir. ok (paths_in p dir))

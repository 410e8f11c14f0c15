-- ===== src/Daemon/Spawn.antt =====
-- internal/daemon/daemon_unix.go and daemon_windows.go, and the beginning of `main` of cmd/gopmd: how
-- the daemon is started in the background, and how it learns of that. An environment is its entries.
use gopm.Base.{
  ◌≡◌, ap, Bool, true, false, ◌&&◌, Option, none, some, List, [], ◌∷◌, if◌then◌else◌, snoc, Str,
  codes, str_eq,
}
use gopm.Supervisor.Env.Merge.{value_of, value_of-append, value_in}

abbrev pub env_marker : Str
env_marker = codes "GOPM_DAEMON=1"

-- What `Spawn` gives exec.Command; the standard streams are nil.
pub record SpawnCmd : Type 0 where
  pub binary : Str
  pub args : List Str
  pub env : List Str

unfoldable pub spawn_cmd : List Str → Str → List Str → SpawnCmd
spawn_cmd environ binary args = record {
  binary = binary;
  args = args;
  env = snoc environ env_marker;
}

abbrev is_one : Option Str → Bool
is_one none = false
is_one (some v) = str_eq v (codes "1")

-- `IsDaemonChild`, in a process with this environment; a variable that is not there is empty.
unfoldable pub is_daemon_child : List Str → Bool
is_daemon_child environ = is_one (value_of (codes "GOPM_DAEMON") environ)

-- Where `main` sends its log: the file, `none` for stderr. `home` is os.UserHomeDir, and the tests say
-- whether a directory can be made and a file can be opened to append.
unfoldable pub log_output :
    List Str → Option Str → (Str → Str → Str) → (Str → Bool) → (Str → Bool) → Option Str
log_output environ none join can_mkdir can_open = none
log_output environ (some home) join can_mkdir can_open =
    let dir = join home (codes ".gopm") in
    let path = join dir (codes "gopmd.log") in
    if is_daemon_child environ && (can_mkdir dir && can_open path) then some path else none

-- A daemon that `Spawn` starts knows it, whatever the environment of the command line has, also for
-- the variable itself.
pub spawn_cmd-is_daemon_child :
    (environ : List Str) (binary : Str) (args : List Str)
    → is_daemon_child (spawn_cmd environ binary args).env ≡ true
unfolding is_daemon_child spawn_cmd value_of value_in str_eq codes
spawn_cmd-is_daemon_child environ binary args =
    ap is_one (value_of-append (codes "GOPM_DAEMON") environ (env_marker ∷ []))

-- ===== src/Supervisor/Process.antt =====
-- internal/supervisor/process.go: one managed process. A channel that is only ever closed is the
-- Boolean "closed"; `rebuild_ch` is the Boolean "a signal is buffered", its capacity being 1. A time
-- is a number of nanoseconds, 0 for Go's zero time.
use gopm.Base.{ℕ, Bool, false, Option, none}
use gopm.Config.{AppConfig}

pub data Status : Type 0 where
  starting online stopped errored building build_failed ready unhealthy : Status

pub Status-discrete : Discrete Status
Status-discrete = hlevel

-- `cmd` is the process id of the running command, `none` for a nil pointer.
pub record ManagedProcess : Type 0 where
  pub id : ℕ
  pub config : AppConfig
  pub status : Status
  pub cmd : Option ℕ
  pub pid : ℕ
  pub started_at : ℕ
  pub restarts : ℕ
  pub crash_notified : Bool
  pub restart_mu : Bool
  pub stop_ch : Bool
  pub rebuild_ch : Bool
  pub done : Bool

unfoldable pub new_managed_process : ℕ → AppConfig → ManagedProcess
new_managed_process id cfg = record {
  id = id;
  config = cfg;
  status = stopped;
  cmd = none;
  pid = 0;
  started_at = 0;
  restarts = 0;
  crash_notified = false;
  restart_mu = false;
  stop_ch = false;
  rebuild_ch = false;
  done = false;
}

abbrev pub set_status : ManagedProcess → Status → ManagedProcess
set_status m s = record m { status = s }

pub record Snapshot : Type 0 where
  pub status : Status
  pub pid : ℕ
  pub restarts : ℕ
  pub started_at : ℕ

abbrev pub snapshot : ManagedProcess → Snapshot
snapshot m = record {
  status = m.status;
  pid = m.pid;
  restarts = m.restarts;
  started_at = m.started_at;
}

-- ===== src/Ipc.antt =====
-- internal/ipc/messages.go: what the command line and the daemon send to each other. A CPU share is
-- a float, and is left out of `ProcessInfo`.
pub mod Server
pub mod Client
pub mod Lines
pub mod Exchange
pub mod Accept
use gopm.Base.{ℕ, Bool, Option, List, Str}
use gopm.Base.Int.{ℤ}
use gopm.Config.{AppConfig}
use gopm.Supervisor.Process.{Status}

-- The known commands, and any other string.
pub data CommandType : Type 0 where
  cmd_start cmd_stop cmd_restart cmd_list cmd_logs cmd_logs_all cmd_log_stream : CommandType
  cmd_delete cmd_ping cmd_shutdown cmd_exec : CommandType
  cmd_other : Str → CommandType

pub record Request : Type 0 where
  pub command : CommandType
  pub app_name : Str
  pub apps : List AppConfig
  pub config : Option AppConfig
  pub lines : ℤ
  pub follow : Bool
  pub all : Bool
  pub group : Str
  pub exec_args : List Str
  pub since : Str
  pub grep : Str

pub record ProcessInfo : Type 0 where
  pub id : ℕ
  pub name : Str
  pub status : Status
  pub pid : ℕ
  pub restarts : ℕ
  pub uptime : Str
  pub watching : Bool
  pub memory : ℕ

pub record Response : Type 0 where
  pub ok : Bool
  pub error : Str
  pub processes : List ProcessInfo
  pub logs : List Str
  pub message : Str

pub record LogEvent : Type 0 where
  pub name : Str
  pub line : Str

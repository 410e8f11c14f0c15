-- ===== src/Supervisor/Rpc.antt =====
-- internal/supervisor/rpc.go: how a request becomes calls of the supervisor, and the response.
pub mod Promise
use gopm.Base.{
  ℕ, zero, suc, ◌+◌, ◌-◌, ◌*◌, ◌/◌, ◌%◌, ◌^◌, ◌≤◌, ◌<◌, min, ◌≡◌, refl, sym, ap, ◌∙◌, ◌≢◌, ◌↔◌, ◌⊎◌,
  inl, inr, Bool, true, false, not, ◌&&◌, ◌||◌, Option, none, some, List, [], ◌∷◌, ◌++◌, map,
  append-nil, append_assoc, arith, ltb, leb, ◌==◌, if◌then◌else◌, ltb→lt, lt→ltb, leb→le, ==_iff,
  Bool-cases, Option-cases, length, get_or, set, take, drop, replicate, snoc, select, any, every,
  is_empty, last_n, length-append, length-set, get_or-set_self, get_or-set_ne, length-replicate,
  length-drop, drop_all, drop-append_left, drop-drop, drop-zero_eq, Str, codes, str_eq, is_blank,
  has_prefix, contains, str_eq_refl, eq_of_str_eq, str_eq_iff, has_prefix-append, has_prefix_iff,
}
use gopm.Base.Int.{ℤ, is_nonpos}
use gopm.Base.Dict.{lookup}
use gopm.Base.Disk.{Disk}
use gopm.Base.Decimal.{decimal}
use gopm.Config.{AppConfig}
use gopm.Ipc.{
  CommandType, cmd_start, cmd_stop, cmd_restart, cmd_list, cmd_logs, cmd_logs_all, cmd_log_stream,
  cmd_delete, cmd_ping, cmd_shutdown, cmd_exec, cmd_other, Request, Response, ProcessInfo,
}
use gopm.Logger.Registry.{tail_lines, tail_filtered_lines}
use gopm.Supervisor.Process.{Status, online, ready, unhealthy, snapshot}
use gopm.Supervisor.Loop.{Task, Event}
use gopm.Supervisor.Registry.{
  Supervisor, Error, no_such_process, stop_timeout, Host, start_app, stop, restart, delete, list,
}

abbrev pub ok_resp : Response
ok_resp = record { ok = true; error = []; processes = []; logs = []; message = [] }

abbrev pub err_resp : Str → Response
err_resp msg = record { ok = false; error = msg; processes = []; logs = []; message = [] }

abbrev pub error_text : Error → Str
error_text (no_such_process name) = codes "no such process: " ++ name
error_text stop_timeout = codes "timeout waiting for process to stop"

abbrev pub minute : ℕ
minute = 60_000_000_000

abbrev pub hour : ℕ
hour = 60 * minute

abbrev pub day : ℕ
day = 24 * hour

-- A duration is a number of nanoseconds, and not negative here.
unfoldable pub format_uptime : ℕ → Str
format_uptime d =
    if ltb d minute
    then decimal (d / 1_000_000_000) ++ codes "s"
    else if ltb d hour
    then decimal (d / minute) ++ codes "m"
    else if ltb d day
    then decimal (d / hour) ++ codes "h" ++ decimal (d / minute - d / hour * 60) ++ codes "m"
    else decimal (d / hour / 24)
      ++ codes "d"
      ++ decimal (d / hour - d / hour / 24 * 24)
      ++ codes "h"

abbrev pub has_child : Status → Bool
has_child online = true
has_child ready = true
has_child unhealthy = true
has_child _ = false

-- What the handler reads from outside: the host of `StartApp`, the memory of a process, and the
-- parsers of the package `time` for durations and dates.
pub record World : Type 0 where
  pub host : Host
  pub memory_rss : ℕ → ℕ
  pub parse_duration : Str → Option ℤ
  pub parse_time : Str → Option ℕ

-- The loop body of `listInfos`.
unfoldable pub info : World → Task → ProcessInfo
info w t =
    let s = snapshot t.mp in
    let pid = if has_child s.status then s.pid else 0 in
    record {
      id = t.mp.id;
      name = t.mp.config.name;
      status = s.status;
      pid = pid;
      restarts = s.restarts;
      uptime =
          if has_child s.status && not (s.started_at == 0)
          then format_uptime (w.host.now - s.started_at)
          else codes "-";
      watching = t.mp.config.watch.enabled;
      memory = if pid == 0 then 0 else w.memory_rss pid;
    }

abbrev pub list_infos : World → Supervisor → List ProcessInfo
list_infos w s = map (info w) (list s)

-- `time.Now().Add(-d)`
abbrev pub before : ℕ → ℤ → ℕ
before now (ℤ.pos d) = now - d
before now (ℤ.negsuc d) = now + suc d

abbrev pub since_date : Option ℕ → ℕ
since_date none = 0
since_date (some t) = t

abbrev pub since_parsed : World → Str → Option ℤ → ℕ
since_parsed w text (some d) = before w.host.now d
since_parsed w text none = since_date (w.parse_time text)

abbrev pub since_time : World → Str → ℕ
since_time w text = if is_blank text then 0 else since_parsed w text (w.parse_duration text)

abbrev pub or_default : ℤ → ℕ → ℤ
or_default n d = if is_nonpos n then ℤ.pos d else n

abbrev pub prefixed : Str → List Str → List Str
prefixed name = map (λ (line : Str). codes "[" ++ name ++ codes "] " ++ line)

abbrev pub logs_all : Supervisor → ℤ → List Task → List Str
logs_all s n [] = []
logs_all s n (t ∷ ts) =
    prefixed t.mp.config.name (tail_lines s.logger t.mp.config.name n) ++ logs_all s n ts

-- The apps are started in turn; `StartApp` has no error to return.
unfoldable pub start_apps : Supervisor → Host → List AppConfig → Supervisor
start_apps s h [] = s
start_apps s h (cfg ∷ apps) =
    let (s', d) = start_app s cfg h in start_apps s' (record h { disk = d }) apps

abbrev pub wanted : Option AppConfig → List AppConfig → List AppConfig
wanted none apps = apps
wanted (some cfg) apps = cfg ∷ apps

-- The response after `Stop`, `Restart` or `Delete`.
abbrev pub replied : Str → Supervisor × Option Error → Supervisor × Response
replied message (s, none) = (s, record ok_resp { message = message })
replied message (s, some e) = (s, err_resp (error_text e))

abbrev pub named : Supervisor → Str → Str → Supervisor × Response → Supervisor × Response
named s name complaint r = if is_blank name then (s, err_resp complaint) else r

abbrev pub logs_found : World → Supervisor → Request → Option Task → Response
logs_found w s req none = err_resp (codes "no such process: " ++ req.app_name)
logs_found w s req (some t) =
    let n = or_default req.lines 50 in
    record ok_resp {
      logs =
          if not (is_blank req.since) || not (is_blank req.grep)
          then tail_filtered_lines s.logger req.app_name n (since_time w req.since) req.grep
          else tail_lines s.logger req.app_name n;
    }

abbrev pub unknown_command : Str → Response
unknown_command text = err_resp (codes "unknown command: " ++ text)

abbrev pub started : Supervisor → World → List AppConfig → Supervisor × Response
started s w [] = (s, err_resp (codes "start: no app config provided"))
started s w (cfg ∷ apps) = (
  start_apps s w.host (cfg ∷ apps),
  record ok_resp { message = codes "started " ++ decimal (length (cfg ∷ apps)) ++ codes " app(s)" },
)

-- The closure that `Handler` returns; `es` are the steps that the goroutine makes meanwhile.
unfoldable pub handle :
    World → List Event → Supervisor → CommandType → Request → Supervisor × Response
handle w es s cmd_ping req = (s, record ok_resp { message = codes "pong" })
handle w es s cmd_start req = started s w (wanted req.config req.apps)
handle w es s cmd_stop req =
    named s req.app_name (codes "stop: app name required")
      (replied (codes "stopped " ++ req.app_name) (stop s req.app_name es))
handle w es s cmd_restart req =
    named s req.app_name (codes "restart: app name required")
      (replied (codes "restarted " ++ req.app_name) (restart s req.app_name es))
handle w es s cmd_delete req =
    named s req.app_name (codes "delete: app name required")
      (replied (codes "deleted " ++ req.app_name) (delete s req.app_name es))
handle w es s cmd_list req = (s, record ok_resp { processes = list_infos w s })
handle w es s cmd_logs req =
    if is_blank req.app_name
    then (s, err_resp (codes "logs: app name required"))
    else (s, logs_found w s req (lookup req.app_name s.procs))
handle w es s cmd_logs_all req =
    (s, record ok_resp { logs = logs_all s (or_default req.lines 20) (list s) })
handle w es s cmd_log_stream req = (s, unknown_command (codes "logstream"))
handle w es s cmd_shutdown req = (s, unknown_command (codes "shutdown"))
handle w es s cmd_exec req = (s, unknown_command (codes "exec"))
handle w es s (cmd_other text) req = (s, unknown_command text)

unfoldable pub handler : World → List Event → Supervisor → Request → Supervisor × Response
handler w es s req = handle w es s req.command req

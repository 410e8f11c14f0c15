-- ===== src/Cli/Commands.antt =====
-- cmd/gopm/main.go: the commands that talk to the daemon. The arrival of a signal, which ends a
-- command that follows a stream, is not modelled: a stream is what came of it.
pub mod Kept
pub mod EndToEnd
use gopm.Base.{
  Bool, true, false, not, ◌&&◌, Option, none, some, List, [], ◌∷◌, ◌++◌, map, if◌then◌else◌,
  is_empty, Str, codes, str_eq, is_blank,
}
use gopm.Base.Int.{ℤ}
use gopm.Config.{AppConfig, LoadResult, loaded}
use gopm.Ipc.{
  CommandType, cmd_start, cmd_stop, cmd_restart, cmd_list, cmd_logs, cmd_logs_all, cmd_log_stream,
  cmd_delete, cmd_shutdown, cmd_exec, Request, Response, ProcessInfo, LogEvent,
}
use gopm.Cli.Args.{LogsArgs, Parsed, parsed, died, parse_logs_args}
use gopm.Cli.Shell.{
  World, exited, Cmd, ◌>>=◌, ◌>>◌, pure, die, print_line, print_lines, request, ping_daemon,
}
use gopm.Cli.Launch.{ensure_daemon_running}
use gopm.Cli.Start.{resolved, filtered}

-- A request with nothing but its command.
abbrev pub bare : CommandType → Request
bare c = record {
  command = c;
  app_name = [];
  apps = [];
  config = none;
  lines = ℤ.pos 0;
  follow = false;
  all = false;
  group = [];
  exec_args = [];
  since = [];
  grep = [];
}

abbrev pub about : CommandType → Str → Request
about c name = record (bare c) { app_name = name }

module _ {S : Type 0} (w : World S) where
  abbrev pub flag_exit : {A : Type 0} → Cmd S A
  flag_exit h = exited 2 [] h

  -- A command that is not tried where the daemon cannot be reached.
  abbrev pub when_up : Cmd S (Unit {0}) → Cmd S (Unit {0})
  when_up m = do up ← ping_daemon w; if up then m else print_line (codes "daemon not running")

  abbrev pub show_list : Bool → Bool → List ProcessInfo → Cmd S (Unit {0})
  show_list json_out names_only infos =
      if names_only
      then print_lines (map (λ (p : ProcessInfo). p.name) infos)
      else if json_out
      then print_line (w.infos_json infos)
      else print_lines (w.table infos)

  -- `cmdList`, with its flags.
  abbrev pub list_with : Bool → Bool → Cmd S (Unit {0})
  list_with json_out names_only =
      when_up (do resp ← request w (bare cmd_list); show_list json_out names_only resp.processes)

  abbrev pub list_flagged : Option (Bool × Bool) → Cmd S (Unit {0})
  list_flagged none = flag_exit
  list_flagged (some (json_out, names_only)) = list_with json_out names_only

  unfoldable pub cmd_list_lines : List Str → Cmd S (Unit {0})
  cmd_list_lines args = list_flagged (w.list_flags args)

  -- `cmdStop`, `cmdRestart` and `cmdDelete`.
  abbrev pub named_command : CommandType → Str → List Str → Cmd S (Unit {0})
  named_command c complaint [] = die complaint
  named_command c complaint (name ∷ args) = do
    resp ← request w (about c name)
    print_line resp.message

  unfoldable pub stop_command : List Str → Cmd S (Unit {0})
  stop_command = named_command cmd_stop (codes "stop: missing process name")

  unfoldable pub restart_command : List Str → Cmd S (Unit {0})
  restart_command = named_command cmd_restart (codes "restart: missing process name")

  unfoldable pub delete_command : List Str → Cmd S (Unit {0})
  delete_command = named_command cmd_delete (codes "delete: missing process name")

  -- The end of `cmdStart`.
  abbrev pub send_start : Bool → Str → Str → List AppConfig → Cmd S (Unit {0})
  send_start custom_host addr group apps = do
    if custom_host then pure tt else ensure_daemon_running w addr
    resp ← request w (record (bare cmd_start) { apps = apps; group = group })
    print_line resp.message
    cmd_list_lines []

  abbrev pub start_loaded : Bool → Str → Str → Str → LoadResult → Cmd S (Unit {0})
  start_loaded custom_host addr group cfg_path (loaded cfg) =
      let apps = filtered group (map (resolved w (w.dir cfg_path)) cfg.apps) in
      if not (is_blank group) && is_empty apps
      then die (codes "start: no apps found in group " ++ w.quoted group)
      else send_start custom_host addr group apps
  start_loaded custom_host addr group cfg_path r = die (w.load_error r)

  abbrev pub start_at : Bool → Str → Str → Option Str → Cmd S (Unit {0})
  start_at custom_host addr group none = die w.abs_error
  start_at custom_host addr group (some cfg_path) =
      start_loaded custom_host addr group cfg_path (w.load_config cfg_path)

  abbrev pub start_flagged : Bool → Str → Option (Str × List Str) → Cmd S (Unit {0})
  start_flagged custom_host addr none = flag_exit
  start_flagged custom_host addr (some (group, [])) = die (codes "start: missing path to gopm.yaml")
  start_flagged custom_host addr (some (group, path ∷ rest)) =
      start_at custom_host addr group (w.abs path)

  unfoldable pub start_command : Bool → Str → List Str → Cmd S (Unit {0})
  start_command custom_host addr args = start_flagged custom_host addr (w.start_flags args)

  abbrev pub event_line : Bool → LogEvent → Str
  event_line all ev = if all then codes "[" ++ ev.name ++ codes "] " ++ ev.line else ev.line

  abbrev pub follow_stream : Bool → Request → Cmd S (Unit {0})
  follow_stream all req h = print_lines (map (event_line all) (w.stream h.state req)) h

  abbrev pub shown_logs : LogsArgs → Response → Cmd S (Unit {0})
  shown_logs a resp =
      if a.json_out then print_line (w.logs_json a.name resp.logs) else print_lines resp.logs

  -- `cmdLogs`, on its parsed arguments.
  abbrev pub logs_parsed : Parsed → Cmd S (Unit {0})
  logs_parsed (died msg) = die msg
  logs_parsed (parsed a) =
      if a.all && not a.follow
      then (do
        resp ← request w (record (bare cmd_logs_all) { lines = a.lines })
        print_lines resp.logs)
      else if a.follow
      then (if not a.all && is_blank a.name
          then die (codes "logs: missing process name")
          else follow_stream a.all (record (bare cmd_log_stream) {
            follow = true;
            all = a.all;
            app_name = if a.all then [] else a.name;
          }))
      else if is_blank a.name
      then die (codes "logs: missing process name")
      else (do
        resp ←
            request w
              (record (about cmd_logs a.name) { lines = a.lines; since = a.since; grep = a.grep })
        shown_logs a resp)

  unfoldable pub logs_command : List Str → Cmd S (Unit {0})
  logs_command args = logs_parsed (parse_logs_args w.atoi args)

  -- The separator `--` is left out of the command.
  abbrev pub without_dashes : List Str → List Str
  without_dashes [] = []
  without_dashes (a ∷ args) = if str_eq a (codes "--") then args else a ∷ args

  abbrev pub exec_in : Str → List Str → Cmd S (Unit {0})
  exec_in name [] = die (codes "exec: missing command")
  exec_in name (c ∷ args) =
      follow_stream false (record (about cmd_exec name) { exec_args = c ∷ args })

  abbrev pub exec_command : List Str → Cmd S (Unit {0})
  exec_command [] = die (codes "exec: missing process name")
  exec_command (name ∷ rest) = exec_in name (without_dashes rest)

  unfoldable pub shutdown_command : Cmd S (Unit {0})
  shutdown_command = when_up (do resp ← request w (bare cmd_shutdown); print_line resp.message)

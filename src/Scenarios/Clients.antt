-- ===== src/Scenarios/Clients.antt =====
-- Requests over a connection, and a daemon that is started again.
use gopm.Base.{
  ◌≡◌, refl, ◌≢◌, true, false, Option, none, some, List, [], ◌∷◌, ◌++◌, Str, codes, str_eq,
}
use gopm.Base.Dict.{lookup, values, insert}
use gopm.Config.{read_failed}
use gopm.Ipc.{cmd_stop, Request, Response}
use gopm.Ipc.Lines.{read_line, ended}
use gopm.Ipc.Server.{or_ok, handle}
use gopm.Ipc.Client.{answered, send}
use gopm.Ipc.Exchange.{connected, send-handle}
use gopm.Cli.Shell.{World}
use gopm.Cli.Commands.{about, stop_command}
use gopm.Cli.Commands.EndToEnd.{over_connection, stop_command-Stopped}
use gopm.Daemon.{Daemon, boot, serve}
use mathlib.Core.List.{Perm}
use mathlib.Core.List.Perm
use gopm.Daemon.Restore.{boot-load-save}
use gopm.Store.{State, load, save, succeeds}
use gopm.Supervisor.Loop.{step, stop_seen, killed}
use gopm.Supervisor.Registry as Supervisors
use gopm.Supervisor.Registry.{start_app, Supervisor, persist, insert_by_id, sort_by_id}
use gopm.Supervisor.Registry.Persistence.{configs, saved_configs}
use gopm.Supervisor.Registry.Runs.{Command, starts, stops, exec_all}
use gopm.Supervisor.Rpc
use gopm.Supervisor.Rpc.{handler}
use gopm.Supervisor.Rpc.Promise.{Stopped}
use gopm.Scenarios.{web, db, app, host, one, disk, start_app}
use gopm.Scenarios.Services.{world, same}

-- Two apps are started, and one is stopped.
abbrev commands : List Command
commands = starts (app web) host ∷ starts (app db) host ∷ stops web (stop_seen ∷ []) ∷ []

web-ne-db : web ≢ db
web-ne-db e = cc

abbrev encode : State → Option Str
encode st = some web

-- What was saved, in the other order.
abbrev shuffled : State
shuffled = record { config = app db; restarts = 0 } ∷ record { config = app web; restarts = 0 } ∷ []

shuffled-Perm : Perm shuffled (exec_all Supervisors.new commands).saved
unfolding exec_all gopm.Supervisor.Registry.Runs.exec start_app Supervisors.new insert
    Supervisors.stop lookup str_eq gopm.Supervisor.Loop.enter
    gopm.Supervisor.Process.new_managed_process gopm.Supervisor.Loop.loop_top
shuffled-Perm = Perm.swap _ _ []

abbrev decode : Str → Option State
decode body = some shuffled

boot-load-save_example :
    let before = exec_all Supervisors.new commands in
    let after = (boot host (load decode db (save encode succeeds web db shuffled disk).0)).sup in
    Perm (configs (values after.procs)) (saved_configs before)
    × Perm (saved_configs after) (saved_configs before)
unfolding lookup
boot-load-save_example =
    boot-load-save commands host web db disk encode decode shuffled web web-ne-db refl refl refl
      shuffled-Perm refl refl

-- A codec of one request and one response.
abbrev encode_req : Request → Option Str
encode_req req = some req.app_name

abbrev decode_req : Str → Option Request
decode_req line = some (about cmd_stop web)

abbrev encode_resp : Response → Str
encode_resp resp = db

abbrev stopped_web : Response
stopped_web = record {
  ok = true;
  error = [];
  processes = [];
  logs = [];
  message = codes "stopped " ++ web;
}

abbrev decode_resp : Str → Option Response
decode_resp line = some stopped_web

abbrev handled : Supervisor → Request → Supervisor × Option Response
handled s req =
    let (u, resp) = handler world (stop_seen ∷ killed false ∷ []) s req in (u, some resp)

send-handle_example :
    (send encode_req decode_resp
        (connected encode_req decode_req encode_resp decode_resp same handled none one)
        (about cmd_stop web)
      ≡ answered (or_ok (handled one (about cmd_stop web)).1))
    × ((handle decode_req encode_resp same handled none one (ended web)).0
        ≡ (handled one (about cmd_stop web)).0)
unfolding handler Rpc.handle Supervisors.stop lookup str_eq Supervisors.stop_process
    Supervisors.advance step
send-handle_example =
    send-handle encode_req decode_req encode_resp decode_resp same handled none one
      (about cmd_stop web) web refl (refl, (refl, (refl, tt))) refl refl ((refl, (refl, tt)), refl)

abbrev pub daemon : Daemon
daemon = record { sup = one; cancelled = false }

-- A command line whose connection is to this daemon.
abbrev pub shell_world : World Daemon
shell_world = record {
  ping = λ d. true;
  send = λ d req.
      over_connection encode_req decode_req encode_resp decode_resp same none world
        (stop_seen ∷ killed false ∷ []) web d req;
  stream = λ d req. [];
  send_error = λ e. [];
  load_config = λ path. read_failed;
  load_error = λ r. [];
  abs = λ path. some path;
  abs_error = [];
  is_abs = λ path. true;
  join = λ d p. p;
  dir = λ p. p;
  start_flags = λ args. none;
  list_flags = λ args. none;
  env = λ name. [];
  executable = none;
  exists = λ path. false;
  look_path = λ name. none;
  daemon_exe_name = web;
  spawn = λ d bin. (d, none);
  wait = λ d. d;
  rounds = 40;
  quoted = λ text. text;
  infos_json = λ infos. [];
  logs_json = λ name logs. [];
  table = λ infos. [];
  atoi = λ text. none;
}

abbrev stopped_daemon : Daemon
stopped_daemon = (serve world (stop_seen ∷ killed false ∷ []) daemon (about cmd_stop web)).0

stop_command-Stopped_example : Stopped web stopped_daemon.sup
unfolding serve handler Rpc.handle Supervisors.stop lookup str_eq Supervisors.stop_process
    Supervisors.advance step stop_command send read_line handle
stop_command-Stopped_example =
    stop_command-Stopped encode_req decode_req encode_resp decode_resp same none world
      (stop_seen ∷ killed false ∷ []) shell_world web [] (record { state = daemon; out = [] })
      (record { state = stopped_daemon; out = (codes "stopped " ++ web) ∷ [] }) web refl
      (refl, (refl, (refl, tt))) refl ((refl, (refl, tt)), refl) refl refl

-- ===== src/Web.antt =====
-- internal/web/server.go: the dashboard. A request is its method and its path, one that http.ServeMux
-- does not redirect; the JSON encoder, the text of a float and `%q` are parameters.
-- `Listening` is the server that listens; package net/http and the static files are not modelled.
pub mod Routes
pub mod Stream
pub mod Listening
use gopm.Base.{
  ℕ, zero, suc, ◌+◌, ◌-◌, ◌*◌, ◌/◌, ◌%◌, ◌^◌, ◌≤◌, ◌<◌, min, ◌≡◌, refl, sym, ap, ◌∙◌, ◌≢◌, ◌↔◌, ◌⊎◌,
  inl, inr, Bool, true, false, not, ◌&&◌, ◌||◌, Option, none, some, List, [], ◌∷◌, ◌++◌, map,
  append-nil, append_assoc, arith, ltb, leb, ◌==◌, if◌then◌else◌, ltb→lt, lt→ltb, leb→le, ==_iff,
  Bool-cases, Option-cases, length, get_or, set, take, drop, replicate, snoc, select, any, every,
  is_empty, last_n, length-append, length-set, get_or-set_self, get_or-set_ne, length-replicate,
  length-drop, drop_all, drop-append_left, drop-drop, drop-zero_eq, Str, codes, str_eq, is_blank,
  has_prefix, contains, str_eq_refl, eq_of_str_eq, str_eq_iff, has_prefix-append, has_prefix_iff,
}
use gopm.Base.Decimal.{decimal}
use gopm.Ipc.{
  CommandType, cmd_list, cmd_restart, cmd_stop, cmd_log_stream, Request, Response, ProcessInfo,
  LogEvent,
}
use gopm.Ipc.Lines.{longer}
use gopm.Ipc.Client.{SendError, SendResult, answered, failed}
use gopm.Supervisor.Process.{Status, online, ready}
use gopm.Cli.Commands.{bare, about}

-- What is written: a body of a content type, an error with its code, or a stream of events.
pub data Reply : Type 0 where
  body : Str → Str → Reply
  http_error : ℕ → Str → Reply
  not_found : Reply
  events : Str → Reply

-- `strings.TrimPrefix`
abbrev pub trim_prefix : Str → Str → Str
trim_prefix p s = if has_prefix s p then drop (length p) s else s

-- `strings.SplitN(s, "/", 2)`, `none` where it has one part.
unfoldable pub split_slash : Str → Option (Str × Str)
split_slash [] = none
split_slash (c ∷ s) =
    let more = longer c (split_slash s) in if c == b'/' then some ([], s) else more

abbrev pub command_of : Str → Option CommandType
command_of action =
    if str_eq action (codes "restart")
    then some cmd_restart
    else if str_eq action (codes "stop")
    then some cmd_stop
    else none

abbrev pub named_by : Str → Option CommandType → Option (CommandType × Str)
named_by name none = none
named_by name (some c) = some (c, name)

abbrev pub asked_by : Option (Str × Str) → Option (CommandType × Str)
asked_by none = none
asked_by (some (name, action)) = named_by name (command_of action)

-- What `handleAction` is asked for; `none` where it answers that there is no such page.
unfoldable pub asked : Str → Str → Option (CommandType × Str)
asked method path =
    if not (str_eq method (codes "POST"))
    then none
    else asked_by (split_slash (trim_prefix (codes "/api/") path))

-- The patterns of the mux, the longest that fits.
pub data Route : Type 0 where
  processes log_stream action metrics files : Route

unfoldable pub route : Str → Route
route path =
    if str_eq path (codes "/api/processes")
    then processes
    else if has_prefix path (codes "/api/logs/")
    then log_stream
    else if has_prefix path (codes "/api/")
    then action
    else if str_eq path (codes "/metrics")
    then metrics
    else files

-- The command that a request to the dashboard gives to the daemon, if it does.
abbrev pub given_at : Str → Str → Route → Option (CommandType × Str)
given_at method path action = asked method path
given_at method path _ = none

abbrev pub given_command : Str → Str → Option (CommandType × Str)
given_command method path = given_at method path (route path)

abbrev pub is_up : Status → Bool
is_up online = true
is_up ready = true
is_up _ = false

module _ (send : Request → SendResult) (send_error : SendError → Str)
    (infos_json : List ProcessInfo → Str) (message_json : Str → Str) (quoted : Str → Str)
    (cpu : ProcessInfo → Str) where
  abbrev pub acted : SendResult → Reply
  acted (failed e) = http_error 502 (send_error e)
  acted (answered resp) =
      if resp.ok
      then body (codes "application/json") (message_json resp.message)
      else http_error 500 resp.error

  abbrev pub on_asked : Option (CommandType × Str) → Reply
  on_asked none = not_found
  on_asked (some (c, name)) = acted (send (about c name))

  unfoldable pub handle_action : Str → Str → Reply
  handle_action method path = on_asked (asked method path)

  abbrev pub listed : (List ProcessInfo → Reply) → SendResult → Reply
  listed show (failed e) = http_error 502 (codes "daemon error")
  listed show (answered resp) =
      if resp.ok then show resp.processes else http_error 502 (codes "daemon error")

  unfoldable pub handle_processes : Reply
  handle_processes =
      listed (λ infos. body (codes "application/json") (infos_json infos)) (send (bare cmd_list))

  abbrev pub metric : Str → (ProcessInfo → Str) → ProcessInfo → Str
  metric name value p =
      name ++ codes "{name=" ++ quoted p.name ++ codes "} " ++ value p ++ (10 ∷ [])

  abbrev pub each : (ProcessInfo → Str) → List ProcessInfo → Str
  each f [] = []
  each f (p ∷ infos) = f p ++ each f infos

  -- One metric, with its two lines of description.
  abbrev pub described : Str → Str → Str → (ProcessInfo → Str) → List ProcessInfo → Str
  described name help kind value infos =
      codes "# HELP "
      ++ name
      ++ codes " "
      ++ help
      ++ (10 ∷ [])
      ++ codes "# TYPE "
      ++ name
      ++ codes " "
      ++ kind
      ++ (10 ∷ [])
      ++ each (metric name value) infos

  abbrev pub metrics_page : List ProcessInfo → Str
  metrics_page infos =
      described (codes "gopm_process_up") (codes "1 if process is online or ready") (codes "gauge")
        (λ p. if is_up p.status then codes "1" else codes "0") infos
      ++ described (codes "gopm_process_restarts") (codes "total restart count") (codes "counter")
          (λ p. decimal p.restarts) infos
      ++ described (codes "gopm_process_memory_bytes") (codes "resident set size in bytes")
          (codes "gauge") (λ p. decimal p.memory) infos
      ++ described (codes "gopm_process_cpu_percent") (codes "CPU usage percent") (codes "gauge")
          cpu infos

  unfoldable pub handle_metrics : Reply
  handle_metrics =
      listed (λ infos. body (codes "text/plain; version=0.0.4") (metrics_page infos))
        (send (bare cmd_list))

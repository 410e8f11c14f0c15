-- ===== src/Scenarios.antt =====
-- Concrete processes, logs and configurations, and what the theorems say of them.
pub mod Logs
pub mod Services
pub mod Clients
pub mod Shells
pub mod Dashboard
pub mod Streams
pub mod Servers
pub mod Outputs
pub mod Changes
use gopm.Base.{
  ℕ, zero, suc, ◌+◌, ◌-◌, ◌*◌, ◌/◌, ◌%◌, ◌^◌, ◌≤◌, ◌<◌, min, ◌≡◌, refl, sym, ap, ◌∙◌, ◌≢◌, ◌↔◌, ◌⊎◌,
  inl, inr, Bool, true, false, not, ◌&&◌, ◌||◌, Option, none, some, List, [], ◌∷◌, ◌++◌, map,
  append-nil, append_assoc, arith, ltb, leb, ◌==◌, if◌then◌else◌, ltb→lt, lt→ltb, leb→le, ==_iff,
  Bool-cases, Option-cases, length, get_or, set, take, drop, replicate, snoc, select, any, every,
  is_empty, last_n, length-append, length-set, get_or-set_self, get_or-set_ne, length-replicate,
  length-drop, drop_all, drop-append_left, drop-drop, drop-zero_eq, Str, codes, str_eq, is_blank,
  has_prefix, contains, str_eq_refl, eq_of_str_eq, str_eq_iff, has_prefix-append, has_prefix_iff,
}
use gopm.Base.Int.{ℤ, is_nonpos, to_ℕ}
use gopm.Base.Decimal.{decimal, value}
use gopm.Base.Disk.{Disk}
use gopm.Base.Dict.{lookup, values, insert}
use gopm.Config.{AppConfig, GopmConfig, load, validate, validate_from}
use gopm.Config.Validate.{Complete, Distinct, names, validate-eq-none_iff, load-Distinct}
use gopm.Logger.Registry
use gopm.Supervisor.Process.{starting, set_status, new_managed_process, online, stopped}
use gopm.Supervisor.Loop.{
  poll, launching, Task, Event, Outcome, running, backoff_sleep, returned, step, started, stop_seen,
  rebuild_seen, killed, start_failed, cancelled, untrack, track, dispatch, loop_top, on_started,
  on_exit, enter, request_stop,
}
use gopm.Supervisor.Loop.Invariant.{Inv, here, moved, Reach-new-Inv}
use gopm.Supervisor.Loop.Stopping.{run, busy, is_busy, rank, stop_bounded}
use gopm.Supervisor.Loop.Progress.{is_outcome, stop_progress}
use gopm.Supervisor.Loop.Webhook.{retries}
use gopm.Supervisor.Loop.Delay.{stop_in_backoff}
use gopm.Supervisor.Backoff.{exhausted_restarts, backoff, backoff_lem, backoff_mono}
use gopm.Supervisor.Registry as Supervisors
use gopm.Supervisor.Registry.{Supervisor, Host, spawn, advance, delete, start_app, list}
use gopm.Supervisor.Registry.Restart.{exec_all-done_iff}
use gopm.Supervisor.Registry.Persistence.{configs, saved_configs}
use gopm.Supervisor.Registry.Order.{IsSorted}
use gopm.Supervisor.Registry.Identity.{Ids}
use gopm.Supervisor.Registry.Commands.{exec_all-new-Ids}
use gopm.Supervisor.Registry.Runs.{Command, starts, stops, moves, deletes, exec_all}
use gopm.Logger.Ring.{LogEntry, new_ring_buffer, tail, tail_filtered, is_kept}
use gopm.Logger.Ring.Refine.{add_all, tail_of_history}
use gopm.Logger.Ring.Filter.{tail_filtered_of_history}
use gopm.Logger.Rotate.{LogFile, backup, rotate}
use gopm.Logger.Rotate.Rotated.{Rotated, rotate-Rotated}
use gopm.Logger.Registry.{tail_lines}
use gopm.Logger.Registry.Isolation.{Written, write_all, entries_of, tail_of_writes}
use gopm.Healthcheck.{Checker}
use gopm.Ipc.{Request, cmd_stop}
use gopm.Supervisor.Rpc.{World, handler}
use gopm.Supervisor.Rpc.Promise.{Promised, is_query, handler_lem}
use gopm.Supervisor.Exec.{stream, sent}
use gopm.Supervisor.Exec.Chunks.{cut, with_rest, concat, stream_of_text}
use gopm.Supervisor.Env.{child_env, env_entry, parse_line}
use gopm.Supervisor.Env.Merge.{Plain, value_of, prefer}
use gopm.Supervisor.Env.Parse.{in_quotes, parse_line-entry}
use gopm.Watcher.{Watcher, FsEvent, should_fire, itoa}
use gopm.Watcher.Filter.{OutsideAll, Among, should_fire_iff}
use gopm.Watcher.Itoa.{itoa_lem}
use gopm.Healthcheck.Verdict.{rounds, verdict, rounds-verdict}
use mathlib.Core.List.{Perm}

abbrev pub web : Str
web = b'w' ∷ b'e' ∷ b'b' ∷ []

abbrev pub db : Str
db = b'd' ∷ b'b' ∷ []

-- An app that restarts automatically, five times at most.
abbrev pub app : Str → AppConfig
app name = record {
  name = name;
  command = web;
  args = [];
  cwd = [];
  env = [];
  env_file = [];
  auto_restart = true;
  max_restarts = ℤ.pos 5;
  log_file = [];
  watch = record {
    enabled = true;
    dirs = [];
    extensions = [];
    ignore = [];
    build_cmd = [];
    debounce_ms = ℤ.pos 0;
  };
  pre_start = [];
  depends_on = [];
  health_check = record { url = []; interval = []; timeout = []; retries = ℤ.pos 0 };
  on_crash = record { webhook = db };
  groups = [];
  port = ℤ.pos 0;
  log_max_size_mb = ℤ.pos 0;
  log_max_backups = ℤ.pos 0;
}

abbrev fresh : Task
fresh = spawn (new_managed_process 0 (app web))

-- The process after its launch, and its child has the process id 40.
abbrev pub up : Task
up = record {
  mp = record (fresh.mp) { status = online; cmd = some 40; pid = 40; started_at = 9 };
  phase = running false;
}

-- The process during the delay before its first restart.
abbrev asleep : Task
asleep = record { mp = record (up.mp) { restarts = 1 }; phase = backoff_sleep }

abbrev pub disk : Disk
disk = record { files = []; can_open = λ p. true; can_mkdir = λ p. true; can_rename = λ p q. true }

abbrev pub host : Host
host = record {
  port_free = λ p. true;
  disk = disk;
  now = 7;
  stamp = λ n. [];
  port_warning = λ p. [];
}

-- A supervisor that runs one process.
abbrev pub one : Supervisor
one = record {
  procs = (web, up) ∷ [];
  next_id = 1;
  stopped = false;
  cancelled = false;
  logger = Registry.new (ℤ.pos 0);
  saved = [];
  pending = [];
}

Reach-new-Inv_example : Inv true up
unfolding step dispatch on_started enter loop_top new_managed_process
Reach-new-Inv_example =
    Reach-new-Inv 0 (app web) (moved here (started 40 9) (up, track 40 ∷ []) refl)

-- The child answers the signal, and the goroutine returns.
abbrev gone : Task
gone = record {
  mp = record (up.mp) { stop_ch = true; status = stopped; done = true };
  phase = returned;
}

stop_bounded_example :
    (busy (stop_seen ∷ killed false ∷ []) + rank gone ≤ rank (request_stop up))
    × (rank (request_stop up) ≤ 11)
unfolding run step dispatch enter loop_top
stop_bounded_example = stop_bounded (stop_seen ∷ killed false ∷ []) (request_stop up) gone refl refl

stop_progress_example :
    ((false ≡ false) × ((o : Outcome) × (step (request_stop up) stop_seen ≡ some o)))
    ⊎ ((false ≡ true)
        × ((e : Event)
            → is_outcome (running false) e ≡ true
            → (o : Outcome) × (step (request_stop up) e ≡ some o)))
stop_progress_example = stop_progress (request_stop up) refl (λ e. cc)

-- The fifth restart is behind the process.
abbrev worn : Task
worn = record { mp = record (up.mp) { restarts = 5 }; phase = running false }

abbrev gone_asleep : Task
gone_asleep = record { mp = record (asleep.mp) { stop_ch = true; done = true }; phase = returned }

stop_in_backoff_example :
    (gone_asleep.phase ≡ returned) × (gone_asleep.mp.status ≡ online) × (gone_asleep.mp.pid ≡ 40)
unfolding step dispatch on_exit enter loop_top exhausted_restarts backoff new_managed_process
stop_in_backoff_example =
    stop_in_backoff up false refl refl refl (omega arith) (asleep, untrack 40 ∷ [])
      (gone_asleep, []) refl refl

-- An app is started and launched.
abbrev begin_one : List Command
begin_one = starts (app web) host ∷ moves web (started 40 9) ∷ []

abbrev begun : Supervisor
begun = exec_all Supervisors.new begin_one

exec_all-done_iff_example : (gone.mp.done ≡ true) ↔ (gone.phase ≡ returned)
unfolding lookup new_managed_process enter loop_top str_eq exec_all
    gopm.Supervisor.Registry.Runs.exec start_app Supervisors.new insert advance step
    Supervisors.stop Supervisors.stop_process
exec_all-done_iff_example =
    exec_all-done_iff
      (starts (app web) host
        ∷ moves web (started 40 9)
        ∷ stops web (stop_seen ∷ killed false ∷ [])
        ∷ [])
      web gone refl

-- Two apps are started, the first one is launched, the second one is deleted.
abbrev commands : List Command
commands =
    starts (app web) host
    ∷ starts (app db) host
    ∷ moves web (started 40 9)
    ∷ deletes db (start_failed ∷ cancelled ∷ [])
    ∷ []

exec_all-new-Ids_example :
    Ids (exec_all Supervisors.new commands)
    × IsSorted (list (exec_all Supervisors.new commands))
    × Perm
        (list (exec_all Supervisors.new commands))
        (values (exec_all Supervisors.new commands).procs)
exec_all-new-Ids_example = exec_all-new-Ids commands

-- An app that depends on the database.
abbrev client : AppConfig
client = record (app web) { depends_on = db ∷ [] }

-- No process is up at first, then every one is.
abbrev polls : List Event
polls = poll (λ name. none) ∷ poll (λ name. some online) ∷ []

abbrev ready_client : Task
ready_client = record { mp = set_status (new_managed_process 0 client) starting; phase = launching }

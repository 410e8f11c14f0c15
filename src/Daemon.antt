-- ===== src/Daemon.antt =====
-- cmd/gopmd/main.go: the daemon. It restores the apps of the state file, answers requests, and shuts
-- down when its context is cancelled. Log lines are left out.
pub mod Restore
pub mod Spawn
use gopm.Base.{
  ℕ, zero, suc, ◌+◌, ◌-◌, ◌*◌, ◌/◌, ◌%◌, ◌^◌, ◌≤◌, ◌<◌, min, ◌≡◌, refl, sym, ap, ◌∙◌, ◌≢◌, ◌↔◌, ◌⊎◌,
  inl, inr, Bool, true, false, not, ◌&&◌, ◌||◌, Option, none, some, List, [], ◌∷◌, ◌++◌, map,
  append-nil, append_assoc, arith, ltb, leb, ◌==◌, if◌then◌else◌, ltb→lt, lt→ltb, leb→le, ==_iff,
  Bool-cases, Option-cases, length, get_or, set, take, drop, replicate, snoc, select, any, every,
  is_empty, last_n, length-append, length-set, get_or-set_self, get_or-set_ne, length-replicate,
  length-drop, drop_all, drop-append_left, drop-drop, drop-zero_eq, Str, codes, str_eq, is_blank,
  has_prefix, contains, str_eq_refl, eq_of_str_eq, str_eq_iff, has_prefix-append, has_prefix_iff,
}
use gopm.Base.Disk.{Disk}
use gopm.Config.{AppConfig}
use gopm.Ipc.{
  CommandType, cmd_start, cmd_stop, cmd_restart, cmd_list, cmd_logs, cmd_logs_all, cmd_log_stream,
  cmd_delete, cmd_ping, cmd_shutdown, cmd_exec, cmd_other, Request, Response,
}
use gopm.Store.{State, LoadOutcome, resumed, read_state, parse_state}
use gopm.Supervisor.Loop.{Event}
use gopm.Supervisor.Registry.{PersistedApp, Supervisor, Host, new, shutdown}
use gopm.Supervisor.Rpc.{World, start_apps, handler, ok_resp}

-- `cancelled` tells whether `cancel` was called.
pub record Daemon : Type 0 where
  pub sup : Supervisor
  pub cancelled : Bool

-- The loop that restores the apps: `StartApp` for each, whose error is always nil.
unfoldable pub restore : Supervisor → Host → State → Supervisor
restore s h st = start_apps s h (map (λ (a : PersistedApp). a.config) st)

abbrev pub restored : Supervisor → Host → LoadOutcome → Supervisor
restored s h (resumed st) = if is_empty st then s else restore s h st
restored s h read_state = s
restored s h parse_state = s

-- `main`, up to the wait for the context.
unfoldable pub boot : Host → LoadOutcome → Daemon
boot h o = record { sup = restored new h o; cancelled = false }

abbrev pub is_shutdown : CommandType → Bool
is_shutdown cmd_shutdown = true
is_shutdown _ = false

-- The handler that `main` gives the server.
unfoldable pub serve : World → List Event → Daemon → Request → Daemon × Response
serve w es d req =
    if is_shutdown req.command
    then (record d { cancelled = true }, record ok_resp { message = codes "daemon shutting down" })
    else (let (s, resp) = handler w es d.sup req in (record d { sup = s }, resp))

-- The end of `main`, once the context is cancelled.
unfoldable pub quit : (Str → List Event) → Daemon → Supervisor
quit es d = shutdown d.sup es

-- ===== src/Supervisor/Loop.antt =====
-- `supervise` of internal/supervisor/supervisor.go and the functions it calls, as a machine. A
-- `Phase` is the place where the goroutine waits; an `Event` is the arm of the `select` that is
-- taken there, or the outcome of the call that returns. `step` answers `none` where the event
-- cannot happen. Log lines are left out, and the watcher is in Watching.
pub mod Invariant
pub mod Frame
pub mod Webhook
pub mod Stopping
pub mod Progress
pub mod Delay
pub mod Dependencies
use gopm.Base.{
  ℕ, zero, suc, ◌+◌, ◌-◌, ◌*◌, ◌/◌, ◌%◌, ◌^◌, ◌≤◌, ◌<◌, min, ◌≡◌, refl, sym, ap, ◌∙◌, ◌≢◌, ◌↔◌, ◌⊎◌,
  inl, inr, Bool, true, false, not, ◌&&◌, ◌||◌, Option, none, some, List, [], ◌∷◌, ◌++◌, map,
  append-nil, append_assoc, arith, ltb, leb, ◌==◌, if◌then◌else◌, ltb→lt, lt→ltb, leb→le, ==_iff,
  Bool-cases, Option-cases, length, get_or, set, take, drop, replicate, snoc, select, any, every,
  is_empty, last_n, length-append, length-set, get_or-set_self, get_or-set_ne, length-replicate,
  length-drop, drop_all, drop-append_left, drop-drop, drop-zero_eq, Str, codes, str_eq, is_blank,
  has_prefix, contains, str_eq_refl, eq_of_str_eq, str_eq_iff, has_prefix-append, has_prefix_iff,
}
use gopm.Config.{AppConfig}
use gopm.Healthcheck.{Health, unknown, healthy, sick}
use gopm.Base.Int.{is_nonpos}
use gopm.Supervisor.Process.{
  Status, starting, online, stopped, errored, building, build_failed, ready, unhealthy,
  ManagedProcess, set_status,
}
use gopm.Supervisor.Backoff.{backoff, exhausted_restarts}

-- Why a build runs: for a rebuild signal to a running child, or after its exit or failed start.
pub data BuildKind : Type 0 where
  live_rebuild idle_rebuild : BuildKind

-- `running true` waits with the channel of a health checker, `running false` without.
pub data Phase : Type 0 where
  waiting_deps pre_starting launching killing_stop killing_rebuild : Phase
  running : Bool → Phase
  awaiting_rebuild backoff_sleep : Phase
  in_build build_wait : BuildKind → Phase
  returned : Phase

-- `poll` carries the statuses that a round over the dependencies looks up, `command_done` whether a
-- shell command started and exited with code 0, `started` the process id and the time, and `killed`
-- whether the child outlived the five seconds of the graceful kill.
pub data Event : Type 0 where
  poll : (Str → Option Status) → Event
  command_done killed : Bool → Event
  start_failed : Event
  started : ℕ → ℕ → Event
  child_exit stop_seen rebuild_seen health_closed timer cancelled : Event
  health : Health → Event

pub data Effect : Type 0 where
  kill : Bool → Effect
  track untrack : ℕ → Effect
  crash_webhook : Str → Effect

pub record Task : Type 0 where
  pub mp : ManagedProcess
  pub phase : Phase

abbrev pub Outcome : Type 0
Outcome = Task × List Effect

abbrev pub at : ManagedProcess → Phase → Outcome
at mp p = (record { mp = mp; phase = p }, [])

abbrev pub also : List Effect → Outcome → Outcome
also es (t, fs) = (t, es ++ fs)

-- `return`, with the deferred `close(mp.done)`.
abbrev pub leave : ManagedProcess → Outcome
leave mp = at (record mp { done = true }) returned

-- The head of the loop: a `select` on `stopCh` with a default, then the new status.
unfoldable pub loop_top : ManagedProcess → Outcome
loop_top mp =
    if mp.stop_ch then leave (set_status mp stopped) else at (set_status mp starting) launching

-- `sleep`, up to its `select`, with the delay for the new restart count.
abbrev pub enter_sleep : ManagedProcess → Outcome
enter_sleep mp = if is_nonpos (backoff mp.restarts) then loop_top mp else at mp backoff_sleep

-- The ends of `buildCycle`: back to the head of the loop, after a live rebuild with `restarts` 0.
abbrev pub built : BuildKind → ManagedProcess → Outcome
built live_rebuild mp = loop_top (record mp { restarts = 0 })
built idle_rebuild mp = loop_top mp

-- `runBuild`, up to the wait for the command.
unfoldable pub begin_build : BuildKind → ManagedProcess → Outcome
begin_build kind mp =
    if is_blank mp.config.watch.build_cmd
    then built kind mp
    else at (set_status mp building) (in_build kind)

-- `waitRebuildOrStop` where watching is enabled, and `return` where it is not.
abbrev pub rest : ManagedProcess → Outcome
rest mp = if mp.config.watch.enabled then at mp awaiting_rebuild else leave mp

unfoldable pub on_start_failed : ManagedProcess → Outcome
on_start_failed mp =
    let failed = set_status mp errored in
    if not mp.config.auto_restart || exhausted_restarts failed
    then rest failed
    else enter_sleep (record failed { restarts = mp.restarts + 1 })

unfoldable pub on_started : ℕ → ℕ → ManagedProcess → Outcome
on_started pid now mp =
    let up = record mp { cmd = some pid; pid = pid; started_at = now } in
    if mp.stop_ch
    then also (kill false ∷ []) (at up killing_stop)
    else also (track pid ∷ [])
        (at (set_status up online) (running (not (is_blank mp.config.health_check.url))))

abbrev pub webhook_effect : ManagedProcess → List Effect
webhook_effect mp =
    if not mp.crash_notified && not (is_blank mp.config.on_crash.webhook)
    then crash_webhook mp.config.on_crash.webhook ∷ []
    else []

-- The case "exit" of the switch on the event.
unfoldable pub on_exit : ManagedProcess → Outcome
on_exit mp =
    if not mp.config.auto_restart
    then rest (set_status mp stopped)
    else if exhausted_restarts mp
    then also (webhook_effect mp) (rest (record mp { status = errored; crash_notified = true }))
    else enter_sleep (record mp { restarts = mp.restarts + 1; crash_notified = false })

abbrev pub on_health : Health → ManagedProcess → ManagedProcess
on_health healthy mp = set_status mp ready
on_health sick mp = set_status mp unhealthy
on_health unknown mp = mp

-- `waitForDeps` is over: the `pre_start` hook, then the loop.
abbrev pub after_deps : ManagedProcess → Outcome
after_deps mp = if is_blank mp.config.pre_start then loop_top mp else at mp pre_starting

abbrev pub is_up : Option Status → Bool
is_up (some online) = true
is_up (some ready) = true
is_up _ = false

-- The inner loop of `waitForDeps`.
abbrev pub deps_ready : (Str → Option Status) → List Str → Bool
deps_ready view deps = every (λ dep. is_up (view dep)) deps

-- The start of the goroutine.
unfoldable pub enter : ManagedProcess → Outcome
enter mp = if is_empty mp.config.depends_on then after_deps mp else at mp waiting_deps

-- The second stage of a kill: `kill(cmd, true)` if the child outlived the first one.
abbrev pub second_kill : Bool → List Effect
second_kill forced = if forced then kill true ∷ [] else []

unfoldable pub dispatch : Phase → Event → ManagedProcess → Option Outcome
unfolding loop_top begin_build on_start_failed on_started on_exit
dispatch waiting_deps (poll view) mp =
    some (if deps_ready view mp.config.depends_on then after_deps mp else at mp waiting_deps)
dispatch waiting_deps stop_seen mp =
    if mp.stop_ch then some (leave (set_status mp stopped)) else none
dispatch pre_starting (command_done ok) mp = some (loop_top mp)
dispatch launching start_failed mp = some (on_start_failed mp)
dispatch launching (started pid now) mp = some (on_started pid now mp)
dispatch (running hc) child_exit mp = some (also (untrack mp.pid ∷ []) (on_exit mp))
dispatch (running hc) stop_seen mp =
    if mp.stop_ch then some (also (untrack mp.pid ∷ kill false ∷ []) (at mp killing_stop)) else none
dispatch (running hc) rebuild_seen mp =
    if mp.rebuild_ch
    then some (
        also (untrack mp.pid ∷ kill false ∷ [])
          (at (record mp { rebuild_ch = false }) killing_rebuild))
    else none
dispatch (running true) (health h) mp = some (at (on_health h mp) (running true))
dispatch (running true) health_closed mp = some (at mp (running false))
dispatch killing_stop (killed forced) mp =
    some (also (second_kill forced) (leave (set_status mp stopped)))
dispatch killing_rebuild (killed forced) mp =
    some (also (second_kill forced) (begin_build live_rebuild mp))
dispatch awaiting_rebuild stop_seen mp =
    if mp.stop_ch then some (leave (set_status mp stopped)) else none
dispatch awaiting_rebuild rebuild_seen mp =
    if mp.rebuild_ch
    then some (begin_build idle_rebuild (record mp { rebuild_ch = false }))
    else none
dispatch (in_build kind) (command_done true) mp = some (built kind mp)
dispatch (in_build kind) (command_done false) mp =
    some (at (set_status mp build_failed) (build_wait kind))
dispatch (build_wait kind) stop_seen mp =
    if mp.stop_ch then some (leave (set_status mp stopped)) else none
dispatch (build_wait kind) rebuild_seen mp =
    if mp.rebuild_ch then some (begin_build kind (record mp { rebuild_ch = false })) else none
dispatch backoff_sleep timer mp = some (loop_top mp)
dispatch backoff_sleep cancelled mp = some (leave mp)
dispatch backoff_sleep stop_seen mp = if mp.stop_ch then some (leave mp) else none
dispatch _ _ mp = none

unfoldable pub step : Task → Event → Option Outcome
unfolding dispatch
step t e = dispatch t.phase e t.mp

-- What other goroutines do to the channels: `close(mp.stopCh)`, and the watcher's signal.
abbrev pub request_stop : Task → Task
request_stop t = record t { mp = record (t.mp) { stop_ch = true } }

abbrev pub notify_rebuild : Task → Task
notify_rebuild t = record t { mp = record (t.mp) { rebuild_ch = true } }

-- ===== src/Supervisor/Loop/Frame.antt =====
-- What the goroutine of a process never changes: its id and its configuration.
use gopm.Base.{◌+◌, ◌≡◌, true, false, Option, none, some, arith}
use gopm.Healthcheck.{healthy, sick, unknown}
use gopm.Supervisor.Loop.{
  Event, Phase, Task, Outcome, BuildKind, live_rebuild, idle_rebuild, waiting_deps, pre_starting,
  launching, killing_stop, killing_rebuild, running, awaiting_rebuild, backoff_sleep, in_build,
  build_wait, poll, command_done, killed, start_failed, started, child_exit, stop_seen,
  rebuild_seen, health_closed, timer, cancelled, health, loop_top, begin_build, built, enter_sleep,
  after_deps, enter, on_start_failed, on_started, on_exit, dispatch, step,
}
use gopm.Supervisor.Process.{errored, ManagedProcess}

-- The same process, as an outcome shows it.
abbrev pub Same : ManagedProcess → Outcome → Type 0
Same mp o = (o.0.mp.id ≡ mp.id) × (o.0.mp.config ≡ mp.config)

loop_top-Same : (mp : ManagedProcess) → Same mp (loop_top mp)
unfolding loop_top
loop_top-Same mp = ground arith

built-Same : (kind : BuildKind) (mp : ManagedProcess) → Same mp (built kind mp)
built-Same live_rebuild mp = loop_top-Same (record mp { restarts = 0 })
built-Same idle_rebuild mp = loop_top-Same mp

begin_build-Same : (kind : BuildKind) (mp : ManagedProcess) → Same mp (begin_build kind mp)
unfolding begin_build
begin_build-Same kind mp = ground (arith, built-Same kind mp)

enter_sleep-Same : (mp : ManagedProcess) → Same mp (enter_sleep mp)
enter_sleep-Same mp = ground (arith, loop_top-Same mp)

after_deps-Same : (mp : ManagedProcess) → Same mp (after_deps mp)
after_deps-Same mp = ground (arith, loop_top-Same mp)

pub enter-Same : (mp : ManagedProcess) → Same mp (enter mp)
unfolding enter
enter-Same mp = ground (arith, after_deps-Same mp)

on_start_failed-Same : (mp : ManagedProcess) → Same mp (on_start_failed mp)
unfolding on_start_failed
on_start_failed-Same mp =
    ground (arith, enter_sleep-Same (record mp { status = errored; restarts = mp.restarts + 1 }))

on_exit-Same : (mp : ManagedProcess) → Same mp (on_exit mp)
unfolding on_exit
on_exit-Same mp =
    ground
      (arith, enter_sleep-Same (record mp { restarts = mp.restarts + 1; crash_notified = false }))

abbrev SameAs : ManagedProcess → Option Outcome → Type 0
SameAs mp none = Unit
SameAs mp (some o) = Same mp o

dispatch-Same : (p : Phase) (e : Event) (mp : ManagedProcess) → SameAs mp (dispatch p e mp)
unfolding dispatch
dispatch-Same waiting_deps (poll view) mp = ground (arith, after_deps-Same mp)
dispatch-Same waiting_deps stop_seen mp = ground arith
dispatch-Same pre_starting (command_done ok) mp = loop_top-Same mp
dispatch-Same launching start_failed mp = on_start_failed-Same mp
dispatch-Same launching (started pid now) mp = unfold on_started in ground arith
dispatch-Same (running hc) child_exit mp = on_exit-Same mp
dispatch-Same (running hc) stop_seen mp = ground arith
dispatch-Same (running hc) rebuild_seen mp = ground arith
dispatch-Same (running true) (health healthy) mp = ground arith
dispatch-Same (running true) (health sick) mp = ground arith
dispatch-Same (running true) (health unknown) mp = ground arith
dispatch-Same (running true) health_closed mp = ground arith
dispatch-Same killing_stop (killed forced) mp = ground arith
dispatch-Same killing_rebuild (killed forced) mp = begin_build-Same live_rebuild mp
dispatch-Same awaiting_rebuild stop_seen mp = ground arith
dispatch-Same awaiting_rebuild rebuild_seen mp =
    ground (arith, begin_build-Same idle_rebuild (record mp { rebuild_ch = false }))
dispatch-Same (in_build kind) (command_done true) mp = built-Same kind mp
dispatch-Same (in_build kind) (command_done false) mp = ground arith
dispatch-Same (build_wait kind) stop_seen mp = ground arith
dispatch-Same (build_wait kind) rebuild_seen mp =
    ground (arith, begin_build-Same kind (record mp { rebuild_ch = false }))
dispatch-Same backoff_sleep timer mp = loop_top-Same mp
dispatch-Same backoff_sleep cancelled mp = ground arith
dispatch-Same backoff_sleep stop_seen mp = ground arith
dispatch-Same _ _ mp = tt

-- A step keeps the id and the configuration of the process.
pub step-Same : (t : Task) (e : Event) (o : Outcome) → step t e ≡ some o → Same t.mp o
unfolding step
step-Same t e o h = let k : SameAs t.mp (step t e) = dispatch-Same t.phase e t.mp in rw h at k

-- ===== src/Supervisor/Watching/Signals.antt =====
-- What a step of the process does to the signal in its channel.
use gopm.Base.{
  ◌+◌, ◌≡◌, refl, ◌⊎◌, inl, inr, true, false, Option, none, some, arith, if◌then◌else◌, Bool-cases,
}
use gopm.Healthcheck.{healthy, sick, unknown}
use gopm.Supervisor.Loop as Loops
use gopm.Supervisor.Loop.{
  Phase, Task, Outcome, BuildKind, live_rebuild, idle_rebuild, waiting_deps, pre_starting,
  launching, killing_stop, killing_rebuild, running, awaiting_rebuild, backoff_sleep, in_build,
  build_wait, poll, command_done, killed, start_failed, started, child_exit, stop_seen,
  rebuild_seen, health_closed, timer, cancelled, health, loop_top, begin_build, built, enter_sleep,
  after_deps, enter, on_start_failed, on_started, on_exit, dispatch, request_stop, notify_rebuild,
}
use gopm.Supervisor.Process.{errored, ManagedProcess}

-- The signal that is buffered, after a step.
abbrev Keeps : ManagedProcess → Outcome → Type 0
Keeps mp o = o.0.mp.rebuild_ch ≡ mp.rebuild_ch

loop_top-Keeps : (mp : ManagedProcess) → Keeps mp (loop_top mp)
unfolding loop_top
loop_top-Keeps mp = ground arith

built-Keeps : (kind : BuildKind) (mp : ManagedProcess) → Keeps mp (built kind mp)
built-Keeps live_rebuild mp = loop_top-Keeps (record mp { restarts = 0 })
built-Keeps idle_rebuild mp = loop_top-Keeps mp

begin_build-Keeps : (kind : BuildKind) (mp : ManagedProcess) → Keeps mp (begin_build kind mp)
unfolding begin_build
begin_build-Keeps kind mp = ground (arith, built-Keeps kind mp)

enter_sleep-Keeps : (mp : ManagedProcess) → Keeps mp (enter_sleep mp)
enter_sleep-Keeps mp = ground (arith, loop_top-Keeps mp)

on_start_failed-Keeps : (mp : ManagedProcess) → Keeps mp (on_start_failed mp)
unfolding on_start_failed
on_start_failed-Keeps mp =
    ground (arith, enter_sleep-Keeps (record mp { status = errored; restarts = mp.restarts + 1 }))

on_exit-Keeps : (mp : ManagedProcess) → Keeps mp (on_exit mp)
unfolding on_exit
on_exit-Keeps mp =
    ground
      (arith, enter_sleep-Keeps (record mp { restarts = mp.restarts + 1; crash_notified = false }))

-- A step leaves the signal in the channel, or takes it.
abbrev pub Signals : ManagedProcess → Option Outcome → Type 0
Signals mp none = Unit
Signals mp (some o) =
    (o.0.mp.rebuild_ch ≡ mp.rebuild_ch) ⊎ ((mp.rebuild_ch ≡ true) × (o.0.mp.rebuild_ch ≡ false))

taken :
    (mp : ManagedProcess) (o : Outcome)
    → o.0.mp.rebuild_ch ≡ false
    → Signals mp (if mp.rebuild_ch then some o else none)
taken mp o e = elim (Bool-cases mp.rebuild_ch) [ inl h ↦ rw h (inr (refl, e)) | inr h ↦ rw h tt ]

dispatch-Signals :
    (p : Phase) (e : Loops.Event) (mp : ManagedProcess) → Signals mp (dispatch p e mp)
unfolding dispatch
dispatch-Signals waiting_deps (poll view) mp = ground (arith, loop_top-Keeps mp)
dispatch-Signals waiting_deps stop_seen mp = ground arith
dispatch-Signals pre_starting (command_done ok) mp = inl (loop_top-Keeps mp)
dispatch-Signals launching start_failed mp = inl (on_start_failed-Keeps mp)
dispatch-Signals launching (started pid now) mp = unfold on_started in ground arith
dispatch-Signals (running hc) child_exit mp = inl (on_exit-Keeps mp)
dispatch-Signals (running hc) stop_seen mp = ground arith
dispatch-Signals (running hc) rebuild_seen mp = taken mp _ refl
dispatch-Signals (running true) (health healthy) mp = inl refl
dispatch-Signals (running true) (health sick) mp = inl refl
dispatch-Signals (running true) (health unknown) mp = inl refl
dispatch-Signals (running true) health_closed mp = inl refl
dispatch-Signals killing_stop (killed forced) mp = inl refl
dispatch-Signals killing_rebuild (killed forced) mp = inl (begin_build-Keeps live_rebuild mp)
dispatch-Signals awaiting_rebuild stop_seen mp = ground arith
dispatch-Signals awaiting_rebuild rebuild_seen mp =
    taken mp _ (begin_build-Keeps idle_rebuild (record mp { rebuild_ch = false }))
dispatch-Signals (in_build kind) (command_done true) mp = inl (built-Keeps kind mp)
dispatch-Signals (in_build kind) (command_done false) mp = inl refl
dispatch-Signals (build_wait kind) stop_seen mp = ground arith
dispatch-Signals (build_wait kind) rebuild_seen mp =
    taken mp _ (begin_build-Keeps kind (record mp { rebuild_ch = false }))
dispatch-Signals backoff_sleep timer mp = inl (loop_top-Keeps mp)
dispatch-Signals backoff_sleep cancelled mp = inl refl
dispatch-Signals backoff_sleep stop_seen mp = ground arith
dispatch-Signals _ _ mp = tt

pub step-Signals : (t : Task) (e : Loops.Event) → Signals t.mp (Loops.step t e)
unfolding Loops.step
step-Signals t e = dispatch-Signals t.phase e t.mp

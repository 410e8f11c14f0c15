-- ===== src/Supervisor/Loop/Delay.antt =====
-- A request to stop during the delay before a restart.
use gopm.Base.{◌+◌, ◌^◌, ◌<◌, ◌≡◌, sym, ◌∙◌, Bool, true, false, some, [], ◌∷◌, arith}
use gopm.Supervisor.Loop.{
  Task, Outcome, running, backoff_sleep, returned, child_exit, stop_seen, on_exit, dispatch, step,
  request_stop, untrack,
}
use gopm.Supervisor.Process.{ManagedProcess}
use gopm.Supervisor.Backoff.{exhausted_restarts, backoff_mono}

sleeps_after_crash :
    (mp : ManagedProcess) (hc : Bool)
    → mp.config.auto_restart ≡ true
    → exhausted_restarts mp ≡ false
    → mp.restarts + 1 < 2 ^ 34
    → dispatch (running hc) child_exit mp
      ≡ some (
        record {
          mp = record mp { restarts = mp.restarts + 1; crash_notified = false };
          phase = backoff_sleep;
        },
        untrack mp.pid ∷ [],
      )
unfolding dispatch on_exit
sleeps_after_crash mp hc a x b =
    ground
      (arith, (backoff_mono (mp.restarts + 1) (mp.restarts + 1) (omega arith) b).1 (omega arith))

-- The child of a running process exits, the process restarts automatically, has restarts left and
-- fewer than 2 ^ 34 of them behind it. If it is then asked to stop, and its goroutine sees that
-- during the delay before the restart, the goroutine returns and leaves the status and the process
-- id of the dead child as they were: such a process is not shown as stopped.
pub stop_in_backoff :
    (t : Task) (hc : Bool)
    → t.phase ≡ running hc
    → t.mp.config.auto_restart ≡ true
    → exhausted_restarts t.mp ≡ false
    → t.mp.restarts + 1 < 2 ^ 34
    → (o p : Outcome) → step t child_exit ≡ some o
    → step (request_stop o.0) stop_seen ≡ some p
    → (p.0.phase ≡ returned) × (p.0.mp.status ≡ t.mp.status) × (p.0.mp.pid ≡ t.mp.pid)
unfolding step dispatch
stop_in_backoff t hc h a x b o p k l =
    let s = sleeps_after_crash t.mp hc a x b in
    let q : some (asleep, untrack t.mp.pid ∷ []) ≡ some o = sym s ∙ (rw h at k) in
    let i : (asleep, untrack t.mp.pid ∷ []) ≡ o = cc in
    let m : step (request_stop asleep) stop_seen ≡ some p = rw (← i) at l in ground arith
  where
    asleep : Task
    asleep = record {
      mp = record (t.mp) { restarts = t.mp.restarts + 1; crash_notified = false };
      phase = backoff_sleep;
    }

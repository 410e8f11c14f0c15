-- ===== src/Supervisor/Loop/Invariant.antt =====
-- What holds of a managed process at every place where its goroutine waits.
use gopm.Base.{
  ℕ, ◌+◌, ◌≤◌, ◌≡◌, refl, ◌≢◌, ◌⊎◌, inl, inr, Bool, true, false, Option, none, some, arith,
  if◌then◌else◌, Bool-cases, is_empty, Str, is_blank,
}
use gopm.Base.Int.{is_nonpos, to_ℕ}
use gopm.Config.{AppConfig}
use gopm.Supervisor.Process.{
  Status, starting, online, stopped, errored, building, build_failed, ready, unhealthy,
  ManagedProcess, new_managed_process,
}
use gopm.Supervisor.Backoff.{backoff, exhausted_restarts}
use gopm.Healthcheck.{healthy, sick, unknown}
use gopm.Supervisor.Loop.{
  deps_ready, Event, Phase, Task, Outcome, BuildKind, live_rebuild, idle_rebuild, waiting_deps,
  pre_starting, launching, killing_stop, killing_rebuild, running, awaiting_rebuild, backoff_sleep,
  in_build, build_wait, returned, poll, command_done, killed, start_failed, started, child_exit,
  stop_seen, rebuild_seen, health_closed, timer, cancelled, health, loop_top, begin_build, built,
  enter_sleep, after_deps, enter, at, on_start_failed, on_started, on_exit, dispatch, step,
  request_stop, notify_rebuild,
}

-- The statuses of a process whose child was started, and those of one that waits before a restart.
abbrev pub Up : Status → Type 0
Up s = (s ≡ online) ⊎ (s ≡ ready) ⊎ (s ≡ unhealthy)

abbrev pub Sleeps : Status → Type 0
Sleeps s = (s ≡ errored) ⊎ Up s

-- The statuses that `gopm list` may show at a phase.
abbrev pub Fits : Phase → Status → Type 0
Fits waiting_deps s = s ≡ stopped
Fits pre_starting s = s ≡ stopped
Fits launching s = s ≡ starting
Fits (running hc) s = Up s
Fits killing_stop s = (s ≡ starting) ⊎ Up s
Fits killing_rebuild s = Up s
Fits (in_build kind) s = s ≡ building
Fits (build_wait kind) s = s ≡ build_failed
Fits awaiting_rebuild s = (s ≡ stopped) ⊎ (s ≡ errored)
Fits backoff_sleep s = Sleeps s
Fits returned s = (s ≡ stopped) ⊎ Sleeps s

-- The goroutine has closed `done` exactly when it has returned; and, for a process that is in its first
-- run and under its first configuration, a limit on the restarts is kept and the status fits the
-- phase.
pub record Inv (first : Bool) (t : Task) : Type 0 where
  pub capped :
      first ≡ true
      → is_nonpos t.mp.config.max_restarts ≡ false
      → t.mp.restarts ≤ to_ℕ t.mp.config.max_restarts
  pub fits : first ≡ true → Fits t.phase t.mp.status
  pub open_done : t.phase ≢ returned → t.mp.done ≡ false
  pub closed_done : t.phase ≡ returned → t.mp.done ≡ true

-- What every segment of the loop starts from.
pub record Live (first : Bool) (mp : ManagedProcess) : Type 0 where
  pub capped :
      first ≡ true
      → is_nonpos mp.config.max_restarts ≡ false
      → mp.restarts ≤ to_ℕ mp.config.max_restarts
  pub not_done : mp.done ≡ false

module _ (first : Bool) where
  loop_top-Inv : (mp : ManagedProcess) → Live first mp → Inv first (loop_top mp).0
  unfolding loop_top
  loop_top-Inv mp v = ground arith

  built-Inv : (kind : BuildKind) (mp : ManagedProcess) → Live first mp → Inv first (built kind mp).0
  built-Inv live_rebuild mp v = loop_top-Inv (record mp { restarts = 0 }) (ground arith)
  built-Inv idle_rebuild mp v = loop_top-Inv mp v

  begin_build-Inv :
      (kind : BuildKind) (mp : ManagedProcess) → Live first mp → Inv first (begin_build kind mp).0
  unfolding begin_build
  begin_build-Inv kind mp v = elim (Bool-cases (is_blank mp.config.watch.build_cmd)) [
    | inl e ↦ rw e (built-Inv kind mp v)
    | inr e ↦ rw e (ground arith)
  ]

  enter_sleep-Inv :
      (mp : ManagedProcess)
      → Live first mp
      → (first ≡ true → Sleeps mp.status)
      → Inv first (enter_sleep mp).0
  enter_sleep-Inv mp v k = elim (Bool-cases (is_nonpos (backoff mp.restarts))) [
    | inl e ↦ rw e (loop_top-Inv mp v)
    | inr e ↦ rw e (ground arith)
  ]

  on_start_failed-Inv : (mp : ManagedProcess) → Live first mp → Inv first (on_start_failed mp).0
  unfolding on_start_failed exhausted_restarts
  on_start_failed-Inv mp v =
      ground (arith, enter_sleep-Inv (record mp { status = errored; restarts = mp.restarts + 1 }))

  on_exit-Inv :
      (mp : ManagedProcess)
      → Live first mp
      → (first ≡ true → Up mp.status)
      → Inv first (on_exit mp).0
  unfolding on_exit exhausted_restarts
  on_exit-Inv mp v k =
      ground
        (arith, enter_sleep-Inv (record mp { restarts = mp.restarts + 1; crash_notified = false }))

  on_started-Inv :
      (pid now : ℕ) (mp : ManagedProcess)
      → Live first mp
      → (first ≡ true → mp.status ≡ starting)
      → Inv first (on_started pid now mp).0
  unfolding on_started
  on_started-Inv pid now mp v k = ground arith

  after_deps-Inv :
      (mp : ManagedProcess)
      → Live first mp
      → (first ≡ true → mp.status ≡ stopped)
      → Inv first (after_deps mp).0
  after_deps-Inv mp v k = elim (Bool-cases (is_blank mp.config.pre_start)) [
    | inl e ↦ rw e (loop_top-Inv mp v)
    | inr e ↦ rw e (ground arith)
  ]

  pub enter-Inv :
      (mp : ManagedProcess)
      → Live first mp
      → (first ≡ true → mp.status ≡ stopped)
      → Inv first (enter mp).0
  unfolding enter
  enter-Inv mp v k = elim (Bool-cases (is_empty mp.config.depends_on)) [
    | inl e ↦ rw e (after_deps-Inv mp v k)
    | inr e ↦ rw e (ground arith)
  ]

  abbrev task : ManagedProcess → Phase → Task
  task mp p = record { mp = mp; phase = p }

  -- The proofs by cases take an outcome for what `dispatch` answers.
  abbrev Keeps : Option Outcome → Type 0
  Keeps none = Unit
  Keeps (some o) = Inv first o.0

  Keeps-if : (b : Bool) (o : Outcome) → Inv first o.0 → Keeps (if b then some o else none)
  Keeps-if true o v = v
  Keeps-if false o v = tt

  Live-of : {mp : ManagedProcess} {p : Phase} → Inv first (task mp p) → p ≢ returned → Live first mp
  Live-of v h = ground (arith, v.open_done h)

  polled-Inv :
      (view : Str → Option Status) (mp : ManagedProcess)
      → Live first mp
      → (first ≡ true → mp.status ≡ stopped)
      → Inv first
          ((if deps_ready view mp.config.depends_on then after_deps mp else at mp waiting_deps).0)
  polled-Inv view mp v k = elim (Bool-cases (deps_ready view mp.config.depends_on)) [
    | inl e ↦ rw e (after_deps-Inv mp v k)
    | inr e ↦ rw e (ground arith)
  ]

  dispatch-Inv :
      (p : Phase) (e : Event) (mp : ManagedProcess)
      → Inv first (task mp p)
      → Keeps (dispatch p e mp)
  unfolding dispatch
  dispatch-Inv waiting_deps (poll view) mp v = polled-Inv view mp (Live-of v (λ h. cc)) v.fits
  dispatch-Inv waiting_deps stop_seen mp v = Keeps-if mp.stop_ch _ (ground arith)
  dispatch-Inv pre_starting (command_done ok) mp v = loop_top-Inv mp (Live-of v (λ h. cc))
  dispatch-Inv launching start_failed mp v = on_start_failed-Inv mp (Live-of v (λ h. cc))
  dispatch-Inv launching (started pid now) mp v =
      on_started-Inv pid now mp (Live-of v (λ h. cc)) v.fits
  dispatch-Inv (running hc) child_exit mp v = on_exit-Inv mp (Live-of v (λ h. cc)) v.fits
  dispatch-Inv (running hc) stop_seen mp v = Keeps-if mp.stop_ch _ (ground arith)
  dispatch-Inv (running hc) rebuild_seen mp v = Keeps-if mp.rebuild_ch _ (ground arith)
  dispatch-Inv (running true) (health healthy) mp v = ground arith
  dispatch-Inv (running true) (health sick) mp v = ground arith
  dispatch-Inv (running true) (health unknown) mp v = v
  dispatch-Inv (running true) health_closed mp v = ground arith
  dispatch-Inv killing_stop (killed forced) mp v = ground arith
  dispatch-Inv killing_rebuild (killed forced) mp v =
      begin_build-Inv live_rebuild mp (Live-of v (λ h. cc))
  dispatch-Inv awaiting_rebuild stop_seen mp v = Keeps-if mp.stop_ch _ (ground arith)
  dispatch-Inv awaiting_rebuild rebuild_seen mp v = Keeps-if mp.rebuild_ch _ (
      begin_build-Inv idle_rebuild (record mp { rebuild_ch = false })
        (ground (arith, Live-of v (λ h. cc))))
  dispatch-Inv (in_build kind) (command_done true) mp v = built-Inv kind mp (Live-of v (λ h. cc))
  dispatch-Inv (in_build kind) (command_done false) mp v = ground arith
  dispatch-Inv (build_wait kind) stop_seen mp v = Keeps-if mp.stop_ch _ (ground arith)
  dispatch-Inv (build_wait kind) rebuild_seen mp v = Keeps-if mp.rebuild_ch _ (
      begin_build-Inv kind (record mp { rebuild_ch = false }) (ground (arith, Live-of v (λ h. cc))))
  dispatch-Inv backoff_sleep timer mp v = loop_top-Inv mp (Live-of v (λ h. cc))
  dispatch-Inv backoff_sleep cancelled mp v = ground arith
  dispatch-Inv backoff_sleep stop_seen mp v = Keeps-if mp.stop_ch _ (ground arith)
  dispatch-Inv _ _ mp v = tt

  -- Every step of the goroutine keeps the invariant.
  pub step-Inv :
      (t : Task) (e : Event) (o : Outcome) → Inv first t → step t e ≡ some o → Inv first o.0
  unfolding step
  step-Inv t e o v h = let k : Keeps (step t e) = dispatch-Inv t.phase e t.mp v in rw h at k

-- A process and its goroutine, driven by the goroutine's own steps, by requests to stop and by
-- the watcher.
pub data Reach (t : Task) : Task → Type 0 where
  here : Reach t t
  moved : {u : Task} → Reach t u → (e : Event) (o : Outcome) → step u e ≡ some o → Reach t o.0
  stop_requested : {u : Task} → Reach t u → Reach t (request_stop u)
  rebuild_notified : {u : Task} → Reach t u → Reach t (notify_rebuild u)

Reach-Inv : {t u : Task} → Inv true t → Reach t u → Inv true u
Reach-Inv v here = v
Reach-Inv v (moved r e o h) = step-Inv true _ e o (Reach-Inv v r) h
Reach-Inv v (stop_requested r) = let w = Reach-Inv v r in ground arith
Reach-Inv v (rebuild_notified r) = let w = Reach-Inv v r in ground arith

-- Whatever the goroutine of a new process, requests to stop it and its watcher do, as long as its
-- configuration is not replaced and it is not restarted: at every place where the goroutine waits a
-- positive limit on the restarts is kept, the status shown is one of those that fit the place, and
-- `done` is closed exactly when the goroutine has returned.
pub Reach-new-Inv :
    (id : ℕ) (cfg : AppConfig) {u : Task}
    → Reach (enter (new_managed_process id cfg)).0 u
    → Inv true u
unfolding new_managed_process
Reach-new-Inv id cfg r =
    Reach-Inv (enter-Inv true (new_managed_process id cfg) (ground arith) (λ f. refl)) r

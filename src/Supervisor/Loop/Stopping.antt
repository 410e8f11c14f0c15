-- ===== src/Supervisor/Loop/Stopping.antt =====
-- A request to stop is answered from every place where the goroutine waits, and how.
use gopm.Base.{
  ℕ, ◌+◌, ◌≤◌, ◌<◌, ◌≡◌, inl, inr, Bool, true, false, Option, none, some, List, [], ◌∷◌, arith,
  if◌then◌else◌, Bool-cases, Option-cases, is_blank,
}
use gopm.Supervisor.Process.{errored, ManagedProcess}
use gopm.Healthcheck.{healthy, sick, unknown}
use gopm.Supervisor.Loop.{
  deps_ready, Event, Phase, Task, Outcome, BuildKind, live_rebuild, idle_rebuild, waiting_deps,
  pre_starting, launching, killing_stop, killing_rebuild, running, awaiting_rebuild, backoff_sleep,
  in_build, build_wait, returned, poll, command_done, killed, start_failed, started, child_exit,
  stop_seen, rebuild_seen, health_closed, timer, cancelled, health, loop_top, begin_build, built,
  enter_sleep, after_deps, on_start_failed, on_started, on_exit, dispatch, step,
}
use gopm.Base.Int.{is_nonpos}
use gopm.Supervisor.Backoff.{backoff}

-- The tasks after a list of events, `none` if one of them cannot happen.
unfoldable pub run : Task → List Event → Option Task
run t [] = some t
run t (e ∷ es) = elim (step t e) [ none ↦ none | some o ↦ run o.0 es ]

-- Every event but a poll of the dependencies and a report on the health.
abbrev pub is_busy : Event → Bool
is_busy (poll view) = false
is_busy (health h) = false
is_busy _ = true

abbrev pub busy : List Event → ℕ
busy [] = 0
busy (e ∷ es) = (if is_busy e then 1 else 0) + busy es

abbrev pub pending : Bool → ℕ
pending b = if b then 4 else 0

-- How many busy steps a goroutine can make once it has been asked to stop; `b` tells whether a
-- rebuild signal is buffered.
abbrev pub rank_of : Phase → Bool → ℕ
rank_of returned b = 0
rank_of killing_stop b = 1
rank_of backoff_sleep b = 1
rank_of pre_starting b = 1
rank_of waiting_deps b = 2
rank_of awaiting_rebuild b = pending b + 1
rank_of (build_wait kind) b = pending b + 1
rank_of (in_build kind) b = pending b + 2
rank_of killing_rebuild b = pending b + 3
rank_of (running false) b = pending b + 5
rank_of (running true) b = pending b + 6
rank_of launching b = pending b + 7

abbrev pub rank : Task → ℕ
rank t = rank_of t.phase t.mp.rebuild_ch

-- The request to stop stays, and the rank is below `n` (`Drops`) or at most `n` (`Holds`).
abbrev Drops : ℕ → Option Outcome → Type 0
Drops n none = Unit
Drops n (some o) = (o.0.mp.stop_ch ≡ true) × (rank o.0 < n)

abbrev Holds : ℕ → Option Outcome → Type 0
Holds n none = Unit
Holds n (some o) = (o.0.mp.stop_ch ≡ true) × (rank o.0 ≤ n)

loop_top_returns :
    (mp : ManagedProcess)
    → mp.stop_ch ≡ true
    → ((loop_top mp).0.mp.stop_ch ≡ true) × (rank (loop_top mp).0 ≡ 0)
unfolding loop_top
loop_top_returns mp h = ground arith

built_returns :
    (kind : BuildKind) (mp : ManagedProcess)
    → mp.stop_ch ≡ true
    → ((built kind mp).0.mp.stop_ch ≡ true) × (rank (built kind mp).0 ≡ 0)
built_returns live_rebuild mp h = loop_top_returns (record mp { restarts = 0 }) h
built_returns idle_rebuild mp h = loop_top_returns mp h

begin_build-rank :
    (kind : BuildKind) (mp : ManagedProcess)
    → mp.stop_ch ≡ true
    → ((begin_build kind mp).0.mp.stop_ch ≡ true)
      × (rank (begin_build kind mp).0 ≤ pending mp.rebuild_ch + 2)
unfolding begin_build
begin_build-rank kind mp h = elim (Bool-cases (is_blank mp.config.watch.build_cmd)) [
  | inl e ↦ rw e (let r = built_returns kind mp h in (r.0, omega (arith, r.1)))
  | inr e ↦ rw e (h, omega arith)
]

enter_sleep-rank :
    (mp : ManagedProcess)
    → mp.stop_ch ≡ true
    → ((enter_sleep mp).0.mp.stop_ch ≡ true) × (rank (enter_sleep mp).0 ≤ 1)
enter_sleep-rank mp h = elim (Bool-cases (is_nonpos (backoff mp.restarts))) [
  | inl e ↦ rw e (let r = loop_top_returns mp h in (r.0, omega (arith, r.1)))
  | inr e ↦ rw e (h, omega arith)
]

on_start_failed-rank :
    (mp : ManagedProcess)
    → mp.stop_ch ≡ true
    → Drops (pending mp.rebuild_ch + 2) (some (on_start_failed mp))
unfolding on_start_failed
on_start_failed-rank mp h =
    ground (arith, enter_sleep-rank (record mp { status = errored; restarts = mp.restarts + 1 }))

on_exit-rank :
    (mp : ManagedProcess)
    → mp.stop_ch ≡ true
    → Drops (pending mp.rebuild_ch + 2) (some (on_exit mp))
unfolding on_exit
on_exit-rank mp h =
    ground
      (arith, enter_sleep-rank (record mp { restarts = mp.restarts + 1; crash_notified = false }))

after_deps-rank : (mp : ManagedProcess) → mp.stop_ch ≡ true → Drops 2 (some (after_deps mp))
after_deps-rank mp h = elim (Bool-cases (is_blank mp.config.pre_start)) [
  | inl e ↦ rw e (let r = loop_top_returns mp h in (r.0, omega (arith, r.1)))
  | inr e ↦ rw e (h, omega arith)
]

-- The bound on the rank after an event at a phase.
abbrev Answers : Event → ℕ → Option Outcome → Type 0
Answers e n o = elim (is_busy e) [ true ↦ Drops n o | false ↦ Holds n o ]

Drops-if :
    (b : Bool) (n : ℕ) (o : Outcome) → Drops n (some o) → Drops n (if b then some o else none)
Drops-if true n o h = h
Drops-if false n o h = tt

dispatch-rank :
    (p : Phase) (e : Event) (mp : ManagedProcess)
    → mp.stop_ch ≡ true
    → Answers e (rank_of p mp.rebuild_ch) (dispatch p e mp)
unfolding dispatch
dispatch-rank waiting_deps (poll view) mp h =
    elim (Bool-cases (deps_ready view mp.config.depends_on)) [
      | inl e ↦ rw e (let r = after_deps-rank mp h in (r.0, omega (arith, r.1)))
      | inr e ↦ rw e (h, omega arith)
    ]
dispatch-rank waiting_deps stop_seen mp h = Drops-if mp.stop_ch 2 _ (h, omega arith)
dispatch-rank pre_starting (command_done ok) mp h =
    let r = loop_top_returns mp h in (r.0, omega (arith, r.1))
dispatch-rank launching start_failed mp h =
    let r = on_start_failed-rank mp h in (r.0, omega (arith, r.1))
dispatch-rank launching (started pid now) mp h = unfold on_started in ground arith
dispatch-rank (running true) child_exit mp h =
    let r = on_exit-rank mp h in (r.0, omega (arith, r.1))
dispatch-rank (running false) child_exit mp h =
    let r = on_exit-rank mp h in (r.0, omega (arith, r.1))
dispatch-rank (running true) stop_seen mp h = ground arith
dispatch-rank (running false) stop_seen mp h = ground arith
dispatch-rank (running true) rebuild_seen mp h = ground arith
dispatch-rank (running false) rebuild_seen mp h = ground arith
dispatch-rank (running true) (health healthy) mp h = ground arith
dispatch-rank (running true) (health sick) mp h = ground arith
dispatch-rank (running true) (health unknown) mp h = ground arith
dispatch-rank (running true) health_closed mp h = (h, omega arith)
dispatch-rank killing_stop (killed forced) mp h = (h, omega arith)
dispatch-rank killing_rebuild (killed forced) mp h =
    let r = begin_build-rank live_rebuild mp h in (r.0, omega (arith, r.1))
dispatch-rank awaiting_rebuild stop_seen mp h = ground arith
dispatch-rank awaiting_rebuild rebuild_seen mp h =
    ground (arith, begin_build-rank idle_rebuild (record mp { rebuild_ch = false }))
dispatch-rank (in_build kind) (command_done true) mp h =
    let r = built_returns kind mp h in (r.0, omega (arith, r.1))
dispatch-rank (in_build kind) (command_done false) mp h = (h, omega arith)
dispatch-rank (build_wait kind) stop_seen mp h = ground arith
dispatch-rank (build_wait kind) rebuild_seen mp h =
    ground (arith, begin_build-rank kind (record mp { rebuild_ch = false }))
dispatch-rank backoff_sleep timer mp h = let r = loop_top_returns mp h in (r.0, omega (arith, r.1))
dispatch-rank backoff_sleep cancelled mp h = (h, omega arith)
dispatch-rank backoff_sleep stop_seen mp h = ground arith
dispatch-rank _ (poll view) mp h = tt
dispatch-rank _ (health k) mp h = tt
dispatch-rank _ _ mp h = tt

-- One event of a run.
Step-rank :
    (e : Event) (n : ℕ) (o : Outcome)
    → Answers e n (some o)
    → (o.0.mp.stop_ch ≡ true) × ((if is_busy e then 1 else 0) + rank o.0 ≤ n)
Step-rank (poll view) n o h = (h.0, omega (arith, h.1))
Step-rank (health k) n o h = (h.0, omega (arith, h.1))
Step-rank (command_done b) n o h = (h.0, omega (arith, h.1))
Step-rank _ n o h = (h.0, omega (arith, h.1))

run-cons :
    (t : Task) (e : Event) (es : List Event) (u : Task)
    → run t (e ∷ es) ≡ some u
    → (o : Outcome) × (step t e ≡ some o) × (run o.0 es ≡ some u)
unfolding run
run-cons t e es u h = elim (Option-cases (step t e)) [
  | inl k ↦ absurd (none-ne-some (rw (k, run) at h))
  | inr (o, k) ↦ (o, k, rw (k, run) at h)
]
  where
    none-ne-some : none ≡ some u → ⊥
    none-ne-some k = cc

step-rank :
    (t : Task) (e : Event) (o : Outcome)
    → t.mp.stop_ch ≡ true
    → step t e ≡ some o
    → (o.0.mp.stop_ch ≡ true) × ((if is_busy e then 1 else 0) + rank o.0 ≤ rank t)
unfolding step
step-rank t e o h k =
    let a : Answers e (rank t) (step t e) = dispatch-rank t.phase e t.mp h in
    Step-rank e (rank t) o (rw k at a)

rank_of-le : (p : Phase) (b : Bool) → rank_of p b ≤ 11
rank_of-le launching b = ground arith
rank_of-le (running true) b = ground arith
rank_of-le (running false) b = ground arith
rank_of-le _ b = ground arith

-- Once a process has been asked to stop, and while the watcher sends no further signal, every run
-- of its goroutine has at most `rank t` events that are no dependency poll and no health report,
-- less the rank at its end; and the rank is 11 at most.
pub stop_bounded :
    (es : List Event) (t u : Task)
    → t.mp.stop_ch ≡ true
    → run t es ≡ some u
    → (busy es + rank u ≤ rank t) × (rank t ≤ 11)
unfolding run
stop_bounded [] t u h k =
    let e : t ≡ u = cc in (rw e (omega arith), rank_of-le t.phase t.mp.rebuild_ch)
stop_bounded (e ∷ es) t u h k =
    let r = run-cons t e es u k in
    let s = step-rank t e r.0 h r.1 in
    let i = stop_bounded es r.0.0 u s.0 r.2 in (omega arith, rank_of-le t.phase t.mp.rebuild_ch)

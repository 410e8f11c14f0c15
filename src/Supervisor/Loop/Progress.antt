-- ===== src/Supervisor/Loop/Progress.antt =====
-- A goroutine that has been asked to stop does not stay where it is.
use gopm.Base.{◌≡◌, refl, ◌≢◌, ◌⊎◌, inl, inr, Bool, true, false, none, some, if◌then◌else◌}
use gopm.Supervisor.Loop.{
  Event, Phase, Task, Outcome, waiting_deps, pre_starting, launching, killing_stop, killing_rebuild,
  running, awaiting_rebuild, backoff_sleep, in_build, build_wait, returned, command_done, killed,
  start_failed, started, stop_seen, dispatch, step,
}
use gopm.Supervisor.Process.{ManagedProcess}

-- At these phases the goroutine is in a call: a command, the launch, or a kill with its time limit. At
-- the others it waits in a `select`.
abbrev pub in_call : Phase → Bool
in_call pre_starting = true
in_call launching = true
in_call killing_stop = true
in_call killing_rebuild = true
in_call (in_build kind) = true
in_call _ = false

-- What the call may come back with.
abbrev pub is_outcome : Phase → Event → Bool
is_outcome pre_starting (command_done ok) = true
is_outcome launching start_failed = true
is_outcome launching (started pid now) = true
is_outcome killing_stop (killed forced) = true
is_outcome killing_rebuild (killed forced) = true
is_outcome (in_build kind) (command_done ok) = true
is_outcome _ _ = false

Goes : Phase → Event → ManagedProcess → Type 0
Goes p e mp = (o : Outcome) × (dispatch p e mp ≡ some o)

Leads : Phase → ManagedProcess → Type 0
Leads p mp =
    ((in_call p ≡ false) × Goes p stop_seen mp)
    ⊎ ((in_call p ≡ true) × ((e : Event) → is_outcome p e ≡ true → Goes p e mp))

if-some :
    (b : Bool) (o : Outcome) → b ≡ true → (q : Outcome) × ((if b then some o else none) ≡ some q)
if-some b o h = (o, rw h)

after_call : (p : Phase) (mp : ManagedProcess) (e : Event) → is_outcome p e ≡ true → Goes p e mp
unfolding Goes dispatch
after_call pre_starting mp (command_done ok) h = (_, refl)
after_call launching mp start_failed h = (_, refl)
after_call launching mp (started pid now) h = (_, refl)
after_call killing_stop mp (killed forced) h = (_, refl)
after_call killing_rebuild mp (killed forced) h = (_, refl)
after_call (in_build kind) mp (command_done true) h = (_, refl)
after_call (in_build kind) mp (command_done false) h = (_, refl)
after_call _ mp _ h = cc

Leads-stop_ch : (p : Phase) (mp : ManagedProcess) → mp.stop_ch ≡ true → p ≢ returned → Leads p mp
unfolding Leads Goes dispatch
Leads-stop_ch pre_starting mp h k = inr (refl, after_call pre_starting mp)
Leads-stop_ch launching mp h k = inr (refl, after_call launching mp)
Leads-stop_ch killing_stop mp h k = inr (refl, after_call killing_stop mp)
Leads-stop_ch killing_rebuild mp h k = inr (refl, after_call killing_rebuild mp)
Leads-stop_ch (in_build kind) mp h k = inr (refl, after_call (in_build kind) mp)
Leads-stop_ch waiting_deps mp h k = inl (refl, if-some mp.stop_ch _ h)
Leads-stop_ch (running hc) mp h k = inl (refl, if-some mp.stop_ch _ h)
Leads-stop_ch awaiting_rebuild mp h k = inl (refl, if-some mp.stop_ch _ h)
Leads-stop_ch (build_wait kind) mp h k = inl (refl, if-some mp.stop_ch _ h)
Leads-stop_ch backoff_sleep mp h k = inl (refl, if-some mp.stop_ch _ h)
Leads-stop_ch returned mp h k = absurd (k refl)

-- A process has been asked to stop and its goroutine has not returned. Where the goroutine waits in a
-- `select`, the closed stop channel itself lets it go on, whatever its child or its timer does; where
-- it is in a call, it goes on with whatever the call comes back with.
pub stop_progress :
    (t : Task)
    → t.mp.stop_ch ≡ true
    → t.phase ≢ returned
    → ((in_call t.phase ≡ false) × ((o : Outcome) × (step t stop_seen ≡ some o)))
      ⊎ ((in_call t.phase ≡ true)
          × ((e : Event) → is_outcome t.phase e ≡ true → (o : Outcome) × (step t e ≡ some o)))
unfolding step Leads Goes
stop_progress t h k = Leads-stop_ch t.phase t.mp h k

-- ===== src/Supervisor/Registry/Restart.antt =====
-- What a restart and a deletion do, whether or not the goroutine answers in time.
use gopm.Base.{
  ◌≡◌, refl, ap, ◌∙◌, ◌≢◌, ◌↔◌, ◌⊎◌, inl, inr, Bool, true, false, Option, none, some, List,
  if◌then◌else◌, Bool-cases, Str, str_eq,
}
use gopm.Base.Dict.{lookup, remove, values, lookup-insert_self, lookup-remove}
use gopm.Supervisor.Loop.{Task, Event, Phase, waiting_deps, returned, request_stop}
use gopm.Supervisor.Loop.Invariant.{Inv}
use gopm.Supervisor.Registry.Ended.{exec_all-Ended}
use gopm.Supervisor.Registry.Runs.{Command, exec_all}
use gopm.Supervisor.Registry.{
  new, Supervisor, Error, stop_timeout, advance, stop_process, delete, delete_found, delete_stopped,
}
use gopm.Supervisor.Registry.Persistence.{configs, saved_configs, configs-persisted}

Phase-cases : (p : Phase) → (p ≡ returned) ⊎ (p ≢ returned)
Phase-cases returned = inl refl
Phase-cases waiting_deps = inr (λ e. cc)
Phase-cases _ = inr (λ e. cc)

done-returned : (t : Task) → Inv false t → t.mp.done ≡ true → t.phase ≡ returned
done-returned t v d = elim (Phase-cases t.phase) [
  | inl e ↦ e
  | inr n ↦ let o = v.open_done n in absurd (cc)
]

-- After any commands and steps from the start, replaced configurations and restarts included, a
-- registered process has closed `done` exactly if its goroutine has returned.
pub exec_all-done_iff :
    (cs : List Command) (name : Str) (t : Task)
    → lookup name (exec_all new cs).procs ≡ some t
    → (t.mp.done ≡ true) ↔ (t.phase ≡ returned)
exec_all-done_iff cs name t f =
    let v = exec_all-Ended cs name t f in (done-returned t v, v.closed_done)

module _ (s : Supervisor) (name : Str) (es : List Event) (t : Task)
    (found : lookup name s.procs ≡ some t) where
  -- The task after the request to stop and the steps that its goroutine makes in time.
  abbrev waited : Task
  waited = advance (request_stop t) es

  answered :
      (b : Bool)
      → waited.mp.done ≡ b
      → stop_process t es ≡ (waited, if b then none else some stop_timeout)
  unfolding stop_process
  answered b d = ap (λ (c : Bool). (waited, if c then none else some stop_timeout)) d

  delete-eq :
      (b : Bool)
      → waited.mp.done ≡ b
      → delete s name es ≡ delete_stopped s name waited (if b then none else some stop_timeout)
  unfolding delete
  delete-eq b d =
      ap (delete_found s name es) found
      ∙ ap (λ (r : Task × Option Error). delete_stopped s name r.0 r.1) (answered b d)

  -- A deletion of a registered process. If its goroutine has closed `done` in time, the process and
  -- no other is gone from the registry and every configuration left is saved; if not, the deletion
  -- fails, the process stays registered and nothing is saved.
  pub delete_lem :
      let (s', e) = delete s name es in
      ((waited.mp.done ≡ true)
        × (e ≡ none)
        × ((j : Str) → lookup j s'.procs ≡ (if str_eq name j then none else lookup j s.procs))
        × (saved_configs s' ≡ configs (values s'.procs)))
      ⊎ ((waited.mp.done ≡ false)
          × (e ≡ some stop_timeout)
          × (lookup name s'.procs ≡ some waited)
          × (s'.saved ≡ s.saved))
  delete_lem = elim (Bool-cases waited.mp.done) [
    | inl d ↦ rw (delete-eq true d) (
        inl (
          d,
          refl,
          λ j. lookup-remove name j s.procs,
          configs-persisted (values (remove name s.procs)),
        ))
    | inr d ↦ rw (delete-eq false d) (inr (d, refl, lookup-insert_self name waited s.procs, refl))
  ]

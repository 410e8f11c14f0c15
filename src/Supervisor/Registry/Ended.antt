-- ===== src/Supervisor/Registry/Ended.antt =====
-- That `done` of every registered process is closed exactly where its goroutine has returned.
use gopm.Base.{◌≡◌, refl, inl, inr, false, some, List, [], ◌∷◌, Bool-cases, Str, str_eq}
use mathlib.Core.Path.{subst}
use gopm.Base.Dict.{lookup, insert, remove}
use gopm.Config.{AppConfig}
use gopm.Supervisor.Process.{new_managed_process}
use gopm.Supervisor.Loop.{Task, Event}
use gopm.Supervisor.Loop.Invariant.{Inv}
use gopm.Supervisor.Registry.{new, spawn, stop_all}
use gopm.Supervisor.Registry.Runs.{
  Command, exec_all, exec_all-kept, spawn-Inv, stop_process-SameProcess,
}

abbrev Ended : List (Str × Task) → Type 0
Ended [] = Unit
Ended ((k, t) ∷ m) = Inv false t × Ended m

Ended-insert :
    (k : Str) (v : Task) (m : List (Str × Task)) → Inv false v → Ended m → Ended (insert k v m)
unfolding insert
Ended-insert k v [] i e = (i, tt)
Ended-insert k v ((j, t) ∷ m) i e = elim (Bool-cases (str_eq j k)) [
  | inl h ↦ rw h (i, e.1)
  | inr h ↦ rw h (e.0, Ended-insert k v m i e.1)
]

Ended-remove : (k : Str) (m : List (Str × Task)) → Ended m → Ended (remove k m)
unfolding remove
Ended-remove k [] e = tt
Ended-remove k ((j, t) ∷ m) e = elim (Bool-cases (str_eq j k)) [
  | inl h ↦ rw h (Ended-remove k m e.1)
  | inr h ↦ rw h (e.0, Ended-remove k m e.1)
]

Ended-stop_all : (m : List (Str × Task)) (es : Str → List Event) → Ended m → Ended (stop_all m es)
Ended-stop_all [] es e = tt
Ended-stop_all ((k, t) ∷ m) es e =
    ((stop_process-SameProcess t (es k)).same_end e.0, Ended-stop_all m es e.1)

Ended-lookup :
    (k : Str) (t : Task) (m : List (Str × Task)) → lookup k m ≡ some t → Ended m → Inv false t
unfolding lookup
Ended-lookup k t [] h e = absurd cc
Ended-lookup k t ((j, u) ∷ m) h e = elim (Bool-cases (str_eq j k)) [
  | inl q ↦ let i : u ≡ t = some_eq (rw q at h) in subst (Inv false) i e.0
  | inr q ↦ Ended-lookup k t m (rw q at h) e.1
]
  where
    some_eq : {a b : Task} → some a ≡ some b → a ≡ b
    some_eq e = cc

reconfigured :
    (t : Task) (cfg : AppConfig)
    → Inv false t
    → Inv false (record t { mp = record (t.mp) { config = cfg } })
reconfigured t cfg i = record {
  capped = λ k. absurd cc;
  fits = λ k. absurd cc;
  open_done = i.open_done;
  closed_done = i.closed_done;
}

-- After any commands and steps from the start.
pub exec_all-Ended :
    (cs : List Command) (name : Str) (t : Task)
    → lookup name (exec_all new cs).procs ≡ some t
    → Inv false t
exec_all-Ended cs name t f = Ended-lookup name t (exec_all new cs).procs f (
    exec_all-kept (λ s. Ended s.procs)
      (λ s n u v h k e. Ended-insert n v s.procs (k.same_end (Ended-lookup n u s.procs h e)) e)
      (λ s cfg h u g e.
        Ended-insert cfg.name (record u { mp = record (u.mp) { config = cfg } }) s.procs
          (reconfigured u cfg (Ended-lookup cfg.name u s.procs g e)) e)
      (λ s cfg h g e.
        Ended-insert cfg.name (spawn (new_managed_process s.next_id cfg)) s.procs
          (spawn-Inv (new_managed_process s.next_id cfg) (unfold new_managed_process in refl)) e)
      (λ s n e. Ended-remove n s.procs e) (λ s es e. Ended-stop_all s.procs es e) new cs
      (unfold new in tt))

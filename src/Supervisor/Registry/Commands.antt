-- ===== src/Supervisor/Registry/Commands.antt =====
-- The ids of the processes over any sequence of commands, and the listing.
use gopm.Base.{ℕ, ◌+◌, ◌≡◌, refl, ◌∙◌, none, some, List, [], ◌∷◌, arith, Str}
use mathlib.Core.List.{Perm}
use gopm.Base.Dict.{lookup, values}
use gopm.Config.{AppConfig}
use gopm.Supervisor.Process.{new_managed_process}
use gopm.Supervisor.Loop.{Task, Event}
use gopm.Supervisor.Loop.Frame.{enter-Same}
use gopm.Supervisor.Registry.{Supervisor, Host, new, put, spawn, start_found, stop_all, list}
use gopm.Supervisor.Registry.Runs.{Command, exec_all, exec_all-kept, stop_process-SameProcess}
use gopm.Supervisor.Registry.Order.{IsSorted, list-IsSorted-perm}
use gopm.Supervisor.Registry.Identity.{
  Ids, Below, Distinct, Unused, id_of, Below-insert_old, Distinct-insert_old, Below-insert_new,
  Distinct-insert_new, Unused-of-Below, Below-suc, Below-remove, Distinct-remove,
}

put-Ids :
    (s : Supervisor) (name : Str) (t v : Task)
    → lookup name s.procs ≡ some t
    → id_of v ≡ id_of t
    → Ids s
    → Ids (put s name v)
put-Ids s name t v f e i = record {
  below = Below-insert_old name v t s.next_id s.procs f e i.below;
  distinct = Distinct-insert_old name v t s.procs f e i.distinct;
}

configured-Ids :
    (s : Supervisor) (cfg : AppConfig) (h : Host) (t : Task)
    → lookup cfg.name s.procs ≡ some t
    → Ids s
    → Ids (start_found s cfg h (some t)).0
configured-Ids s cfg h t f i =
    let p = put-Ids s cfg.name t (record t { mp = record (t.mp) { config = cfg } }) f refl i in
    record { below = p.below; distinct = p.distinct }

created-Ids :
    (s : Supervisor) (cfg : AppConfig) (h : Host)
    → lookup cfg.name s.procs ≡ none
    → Ids s
    → Ids (start_found s cfg h none).0
created-Ids s cfg h f i = record {
  below =
      Below-insert_new cfg.name fresh (s.next_id + 1) s.procs (rw new_id (omega arith))
        (Below-suc s.next_id s.procs i.below);
  distinct =
      Distinct-insert_new cfg.name fresh s.procs f
        (rw new_id (Unused-of-Below s.next_id s.procs i.below)) i.distinct;
}
  where
    fresh : Task
    fresh = spawn (new_managed_process s.next_id cfg)

    new_id : id_of fresh ≡ s.next_id
    new_id =
        (enter-Same (new_managed_process s.next_id cfg)).0 ∙ (unfold new_managed_process in refl)

Below-stop_all :
    (n : ℕ) (m : List (Str × Task)) (es : Str → List Event) → Below n m → Below n (stop_all m es)
Below-stop_all n [] es b = tt
Below-stop_all n ((k, t) ∷ m) es b =
    (rw ((stop_process-SameProcess t (es k)).same_id) b.0, Below-stop_all n m es b.1)

Unused-stop_all :
    (i : ℕ) (m : List (Str × Task)) (es : Str → List Event) → Unused i m → Unused i (stop_all m es)
Unused-stop_all i [] es b = tt
Unused-stop_all i ((k, t) ∷ m) es b =
    (rw ((stop_process-SameProcess t (es k)).same_id) b.0, Unused-stop_all i m es b.1)

Distinct-stop_all :
    (m : List (Str × Task)) (es : Str → List Event) → Distinct m → Distinct (stop_all m es)
Distinct-stop_all [] es d = tt
Distinct-stop_all ((k, t) ∷ m) es d = (
  rw ((stop_process-SameProcess t (es k)).same_id) (Unused-stop_all (id_of t) m es d.0),
  Distinct-stop_all m es d.1,
)

exec_all-Ids : (s : Supervisor) (cs : List Command) → Ids s → Ids (exec_all s cs)
exec_all-Ids =
    exec_all-kept Ids (λ s name t v f k i. put-Ids s name t v f k.same_id i) configured-Ids
      created-Ids
      (λ s name i. record {
        below = Below-remove name s.next_id s.procs i.below;
        distinct = Distinct-remove name s.procs i.distinct;
      })
      (λ s es i. record {
        below = Below-stop_all s.next_id s.procs es i.below;
        distinct = Distinct-stop_all s.procs es i.distinct;
      })

-- After any commands and steps from the start, no two processes have the same id, all ids are below
-- the next one to be given, and the listing shows every process once, in the order of the ids.
pub exec_all-new-Ids :
    (cs : List Command)
    → let s = exec_all new cs in Ids s × IsSorted (list s) × Perm (list s) (values s.procs)
exec_all-new-Ids cs = (
  exec_all-Ids new cs (unfold new in record { below = tt; distinct = tt }),
  (list-IsSorted-perm (exec_all new cs)).0,
  (list-IsSorted-perm (exec_all new cs)).1,
)

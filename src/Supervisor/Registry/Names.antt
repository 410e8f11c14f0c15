-- ===== src/Supervisor/Registry/Names.antt =====
-- The names of the processes, and those in the state that is saved, over any sequence of commands.
use gopm.Base.{
  ◌≡◌, refl, sym, ap, ◌∙◌, inl, inr, false, none, some, List, [], ◌∷◌, arith, Bool-cases, Str,
  str_eq, eq_of_str_eq, str_eq_iff,
}
use gopm.Base.Dict.{lookup, lookup-insert, lookup-remove, insert, remove, values}
use gopm.Config.{AppConfig}
use gopm.Config.Validate.{Avoids, Distinct, names}
use gopm.Supervisor.Process.{new_managed_process}
use gopm.Supervisor.Loop.{Task, Event}
use gopm.Supervisor.Loop.Frame.{enter-Same}
use gopm.Supervisor.Registry.{Supervisor, Host, new, put, spawn, start_found, persist, stop_all}
use gopm.Supervisor.Registry.Persistence.{configs, saved_configs, configs-persisted}
use gopm.Supervisor.Registry.Runs.{
  Command, exec_all, exec_all-kept, SameProcess, stop_process-SameProcess,
}

abbrev pub name_of : Task → Str
name_of t = t.mp.config.name

-- Every process is registered under the name in its configuration, and no name is there twice.
abbrev pub Keyed : List (Str × Task) → Type 0
Keyed [] = Unit
Keyed ((k, t) ∷ m) = (k ≡ name_of t) × (lookup k m ≡ none) × Keyed m

-- The registry is so, and no name is twice in the saved state.
pub record Named (s : Supervisor) : Type 0 where
  pub keyed : Keyed s.procs
  pub saved_once : Distinct (names (saved_configs s))

Avoids-of-lookup :
    (k : Str) (m : List (Str × Task))
    → Keyed m
    → lookup k m ≡ none
    → Avoids k (names (configs (values m)))
unfolding lookup
Avoids-of-lookup k [] d h = tt
Avoids-of-lookup k ((j, t) ∷ m) d h = ground (arith, str_eq_iff j k, Avoids-of-lookup k m)

Distinct-of-Keyed : (m : List (Str × Task)) → Keyed m → Distinct (names (configs (values m)))
Distinct-of-Keyed [] d = tt
Distinct-of-Keyed ((k, t) ∷ m) d =
    (rw (← d.0) (Avoids-of-lookup k m d.2 d.1), Distinct-of-Keyed m d.2)

lookup-insert-none :
    (k j : Str) (v : Task) (m : List (Str × Task))
    → str_eq k j ≡ false
    → lookup j m ≡ none
    → lookup j (insert k v m) ≡ none
lookup-insert-none k j v m e h = lookup-insert k j v m ∙ rw e h

Keyed-insert :
    (k : Str) (v : Task) (m : List (Str × Task)) → k ≡ name_of v → Keyed m → Keyed (insert k v m)
unfolding insert
Keyed-insert k v [] e d = (e, unfold lookup in refl, tt)
Keyed-insert k v ((j, t) ∷ m) e d = elim (Bool-cases (str_eq j k)) [
  | inl p ↦ rw p (eq_of_str_eq j k p ∙ e, d.1, d.2)
  | inr p ↦ rw p (
    d.0,
    lookup-insert-none k j v m (ground (arith, str_eq_iff k j, str_eq_iff j k)) d.1,
    Keyed-insert k v m e d.2,
  )
]

Keyed-remove : (k : Str) (m : List (Str × Task)) → Keyed m → Keyed (remove k m)
unfolding remove
Keyed-remove k [] d = tt
Keyed-remove k ((j, t) ∷ m) d = elim (Bool-cases (str_eq j k)) [
  | inl p ↦ rw p (Keyed-remove k m d.2)
  | inr p ↦ rw p (d.0, lookup-remove k j m ∙ ground (arith, d.1), Keyed-remove k m d.2)
]

name_of-lookup :
    (k : Str) (t : Task) (m : List (Str × Task)) → Keyed m → lookup k m ≡ some t → k ≡ name_of t
unfolding lookup
name_of-lookup k t [] d h = cc
name_of-lookup k t ((j, u) ∷ m) d h = ground (arith, str_eq_iff j k, name_of-lookup k t m)

lookup-stop_all :
    (k : Str) (m : List (Str × Task)) (es : Str → List Event)
    → lookup k m ≡ none
    → lookup k (stop_all m es) ≡ none
unfolding lookup
lookup-stop_all k [] es h = refl
lookup-stop_all k ((j, t) ∷ m) es h = ground (arith, lookup-stop_all k m es)

Keyed-stop_all : (m : List (Str × Task)) (es : Str → List Event) → Keyed m → Keyed (stop_all m es)
Keyed-stop_all [] es d = tt
Keyed-stop_all ((k, t) ∷ m) es d = (
  d.0 ∙ ap (λ (c : AppConfig). c.name) (sym (stop_process-SameProcess t (es k)).same_config),
  lookup-stop_all k m es d.1,
  Keyed-stop_all m es d.2,
)

-- What is saved of such a registry.
saved-Distinct : (s : Supervisor) → Keyed s.procs → Distinct (names (saved_configs (persist s)))
saved-Distinct s d = rw (configs-persisted (values s.procs)) (Distinct-of-Keyed s.procs d)

replaced-Named :
    (s : Supervisor) (name : Str) (t v : Task)
    → lookup name s.procs ≡ some t
    → SameProcess t v
    → Named s
    → Named (put s name v)
replaced-Named s name t v f k n = record {
  keyed =
      Keyed-insert name v s.procs
        (name_of-lookup name t s.procs n.keyed f
          ∙ ap (λ (c : AppConfig). c.name) (sym k.same_config))
        n.keyed;
  saved_once = n.saved_once;
}

configured-Named :
    (s : Supervisor) (cfg : AppConfig) (h : Host) (t : Task)
    → lookup cfg.name s.procs ≡ some t
    → Named s
    → Named (start_found s cfg h (some t)).0
configured-Named s cfg h t f n = record {
  keyed =
      Keyed-insert cfg.name (record t { mp = record (t.mp) { config = cfg } }) s.procs refl n.keyed;
  saved_once = n.saved_once;
}

pub created-Named :
    (s : Supervisor) (cfg : AppConfig) (h : Host)
    → lookup cfg.name s.procs ≡ none
    → Named s
    → Named (start_found s cfg h none).0
unfolding new_managed_process
created-Named s cfg h f n = record {
  keyed = keyed_with;
  saved_once = saved-Distinct (record s { procs = registered }) keyed_with;
}
  where
    registered : List (Str × Task)
    registered = insert cfg.name (spawn (new_managed_process s.next_id cfg)) s.procs

    keyed_with : Keyed registered
    keyed_with =
        Keyed-insert cfg.name (spawn (new_managed_process s.next_id cfg)) s.procs
          (ap (λ (c : AppConfig). c.name) (sym (enter-Same (new_managed_process s.next_id cfg)).1))
          n.keyed

-- After any commands and steps from the start, each process is registered under its own name, and
-- no name is there twice, nor in the state that was saved last.
pub exec_all-new-Named : (cs : List Command) → Named (exec_all new cs)
exec_all-new-Named cs =
    exec_all-kept Named replaced-Named configured-Named created-Named
      (λ s name n. record {
        keyed = Keyed-remove name s.procs n.keyed;
        saved_once =
            saved-Distinct (record s { procs = remove name s.procs })
              (Keyed-remove name s.procs n.keyed);
      })
      (λ s es n. record { keyed = Keyed-stop_all s.procs es n.keyed; saved_once = n.saved_once })
      new cs (unfold new in record { keyed = tt; saved_once = tt })

-- ===== src/Supervisor/Registry/Persistence.antt =====
-- Restarting, and what of the registry reaches the state file.
use gopm.Base.{
  ◌+◌, ◌≡◌, refl, ap, ◌∙◌, arith, inl, inr, Bool, false, none, some, List, [], ◌∷◌, map,
  Option-cases,
}
use gopm.Base.Dict.{lookup, insert, values, lookup-insert_self}
use gopm.Config.{AppConfig}
use gopm.Supervisor.Process.{new_managed_process}
use gopm.Supervisor.Loop.{Task, Event, step, request_stop}
use gopm.Supervisor.Loop.Invariant.{Inv, step-Inv}
use gopm.Supervisor.Loop.Frame.{step-Same}
use gopm.Supervisor.Registry.{Supervisor, Host, PersistedApp, persisted, spawn, advance, start_app}

-- The goroutine's steps keep the process and the invariant.
pub advance-Same :
    (es : List Event) (t : Task)
    → ((advance t es).mp.id ≡ t.mp.id) × ((advance t es).mp.config ≡ t.mp.config)
unfolding advance
advance-Same [] t = (refl, refl)
advance-Same (e ∷ es) t = elim (Option-cases (step t e)) [
  | inl k ↦ rw (k, advance) (advance-Same es t)
  | inr (o, k) ↦
      let r = advance-Same es o.0 in
      let s = step-Same t e o k in rw (k, advance) (r.0 ∙ s.0, r.1 ∙ s.1)
]

pub advance-Inv :
    (first : Bool) (es : List Event) (t : Task) → Inv first t → Inv first (advance t es)
unfolding advance
advance-Inv first [] t v = v
advance-Inv first (e ∷ es) t v = elim (Option-cases (step t e)) [
  | inl k ↦ rw (k, advance) (advance-Inv first es t v)
  | inr (o, k) ↦ rw (k, advance) (advance-Inv first es o.0 (step-Inv first t e o v k))
]

pub request_stop-Inv : (t : Task) → Inv false t → Inv false (request_stop t)
request_stop-Inv t v = ground arith

-- The configurations in the registry.
abbrev pub configs : List Task → List AppConfig
configs = map (λ (t : Task). t.mp.config)

abbrev pub saved_configs : Supervisor → List AppConfig
saved_configs s = map (λ (a : PersistedApp). a.config) s.saved

pub configs-persisted :
    (ts : List Task) → map (λ (a : PersistedApp). a.config) (map persisted ts) ≡ configs ts
configs-persisted [] = refl
configs-persisted (t ∷ ts) = ap (◌∷◌ t.mp.config) (configs-persisted ts)

-- Starting an app whose name is new registers it with its configuration and the next number,
-- and saves every configuration of the registry.
pub start_new :
    (s : Supervisor) (cfg : AppConfig) (h : Host)
    → lookup cfg.name s.procs ≡ none
    → let s' = (start_app s cfg h).0 in
      (lookup cfg.name s'.procs ≡ some (spawn (new_managed_process s.next_id cfg)))
      × (s'.next_id ≡ s.next_id + 1)
      × (saved_configs s' ≡ configs (values s'.procs))
unfolding start_app
start_new s cfg h e =
    rw (e, start_app)
      (
        lookup-insert_self cfg.name (spawn (new_managed_process s.next_id cfg)) s.procs,
        refl,
        configs-persisted
            (values (insert cfg.name (spawn (new_managed_process s.next_id cfg)) s.procs)),
      )

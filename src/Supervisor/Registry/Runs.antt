-- ===== src/Supervisor/Registry/Runs.antt =====
-- Any sequence of commands to the supervisor, mixed with steps of the goroutines, and the induction
-- over such sequences.
use gopm.Base.{
  ◌≡◌, refl, ◌∙◌, Bool, true, false, Option, none, some, List, [], ◌∷◌, arith, if◌then◌else◌, Str,
}
use gopm.Base.Dict.{lookup, remove}
use gopm.Config.{AppConfig}
use gopm.Logger.Registry
use gopm.Supervisor.Loop.{Task, Event, request_stop, notify_rebuild}
use gopm.Supervisor.Loop.Frame.{enter-Same}
use gopm.Supervisor.Registry.{
  Supervisor, Error, Host, put, advance, persist, stop_process, renewed, respawn, stop, stop_found,
  restart, restart_found, delete, delete_found, delete_stopped, start_app, start_found, shutdown,
  stop_all, ManagedProcess, spawn,
}
use gopm.Supervisor.Registry.Persistence.{advance-Same, advance-Inv, request_stop-Inv}
use gopm.Supervisor.Loop.Invariant.{Inv, enter-Inv}

-- A request of a client, a shutdown, a step of one goroutine, or a signal of one watcher.
pub data Command : Type 0 where
  starts : AppConfig → Host → Command
  stops restarts deletes : Str → List Event → Command
  shuts_down : (Str → List Event) → Command
  moves : Str → Event → Command
  notifies : Str → Command

abbrev pub moved : Supervisor → Str → Event → Option Task → Supervisor
moved s name e none = s
moved s name e (some t) = put s name (advance t (e ∷ []))

abbrev pub notified : Supervisor → Str → Option Task → Supervisor
notified s name none = s
notified s name (some t) = put s name (notify_rebuild t)

unfoldable pub exec : Supervisor → Command → Supervisor
exec s (starts cfg h) = (start_app s cfg h).0
exec s (stops name es) = (stop s name es).0
exec s (restarts name es) = (restart s name es).0
exec s (deletes name es) = (delete s name es).0
exec s (shuts_down es) = shutdown s es
exec s (moves name e) = moved s name e (lookup name s.procs)
exec s (notifies name) = notified s name (lookup name s.procs)

unfoldable pub exec_all : Supervisor → List Command → Supervisor
exec_all s [] = s
exec_all s (c ∷ cs) = exec_all (exec s c) cs

-- The same process, at another place; `done` stays closed exactly where the goroutine has returned.
pub record SameProcess (t v : Task) : Type 0 where
  pub same_id : v.mp.id ≡ t.mp.id
  pub same_config : v.mp.config ≡ t.mp.config
  pub same_end : Inv false t → Inv false v

pub stop_process-SameProcess : (t : Task) (es : List Event) → SameProcess t (stop_process t es).0
unfolding stop_process
stop_process-SameProcess t es =
    let r = advance-Same es (request_stop t) in
    record {
      same_id = r.0;
      same_config = r.1;
      same_end = λ i. advance-Inv false es (request_stop t) (request_stop-Inv t i);
    }

-- A goroutine begins with `done` open.
pub spawn-Inv : (mp : ManagedProcess) → mp.done ≡ false → Inv false (spawn mp)
spawn-Inv mp e =
    enter-Inv false mp (record { capped = λ k. absurd cc; not_done = e }) (λ k. absurd cc)

notify_rebuild-Inv : (t : Task) → Inv false t → Inv false (notify_rebuild t)
notify_rebuild-Inv t v = ground arith

respawn-SameProcess : (t : Task) (e : Option Error) → SameProcess t (respawn t e).0
respawn-SameProcess t none =
    let r = enter-Same (renewed t.mp) in
    record { same_id = r.0; same_config = r.1; same_end = λ i. spawn-Inv (renewed t.mp) refl }
respawn-SameProcess t (some e) = record { same_id = refl; same_config = refl; same_end = λ i. i }

SameProcess-trans : {t u v : Task} → SameProcess t u → SameProcess u v → SameProcess t v
SameProcess-trans p q = record {
  same_id = q.same_id ∙ p.same_id;
  same_config = q.same_config ∙ p.same_config;
  same_end = λ i. q.same_end (p.same_end i);
}

-- A property of the supervisor, and what the commands are made of: a process is replaced by itself
-- at another place, or gets a new configuration of the same name; a new one is registered; one is
-- removed; all are stopped.
module _ (P : Supervisor → Type 0)
    (replaced : (s : Supervisor) (name : Str) (t v : Task)
      → lookup name s.procs ≡ some t
      → SameProcess t v
      → P s
      → P (put s name v))
    (configured : (s : Supervisor) (cfg : AppConfig) (h : Host) (t : Task)
      → lookup cfg.name s.procs ≡ some t
      → P s
      → P (start_found s cfg h (some t)).0)
    (created : (s : Supervisor) (cfg : AppConfig) (h : Host)
      → lookup cfg.name s.procs ≡ none
      → P s
      → P (start_found s cfg h none).0)
    (removed : (s : Supervisor) (name : Str)
      → P s
      → P (
          persist
            (record s { procs = remove name s.procs; logger = Registry.detach s.logger name })))
    (halted : (s : Supervisor) (es : Str → List Event)
      → P s
      → P (record s { stopped = true; procs = stop_all s.procs es; cancelled = true })) where
  start_found-kept :
      (s : Supervisor) (cfg : AppConfig) (h : Host) (o : Option Task)
      → lookup cfg.name s.procs ≡ o
      → P s
      → P (start_found s cfg h o).0
  start_found-kept s cfg h none f p = created s cfg h f p
  start_found-kept s cfg h (some t) f p = configured s cfg h t f p

  stop_found-kept :
      (s : Supervisor) (name : Str) (es : List Event) (o : Option Task)
      → lookup name s.procs ≡ o
      → P s
      → P (stop_found s name es o).0
  stop_found-kept s name es none f p = p
  stop_found-kept s name es (some t) f p =
      replaced s name t (stop_process t es).0 f (stop_process-SameProcess t es) p

  restart_found-kept :
      (s : Supervisor) (name : Str) (es : List Event) (o : Option Task)
      → lookup name s.procs ≡ o
      → P s
      → P (restart_found s name es o).0
  restart_found-kept s name es none f p = p
  restart_found-kept s name es (some t) f p = split t.mp.restart_mu _ (
      replaced s name t respawned f
        (SameProcess-trans (stop_process-SameProcess t es)
          (respawn-SameProcess (stop_process t es).0 (stop_process t es).1))
        p)
    where
      respawned : Task
      respawned = (respawn (stop_process t es).0 (stop_process t es).1).0

      split :
          (b : Bool) (e : Option Error)
          → P (put s name respawned)
          → P
              (if◌then◌else◌ {A = Supervisor × Option Error} b
                (s, none)
                (put s name respawned, e)).0
      split true e q = p
      split false e q = q

  delete_stopped-kept :
      (s : Supervisor) (name : Str) (t v : Task) (e : Option Error)
      → lookup name s.procs ≡ some t
      → SameProcess t v
      → P s
      → P (delete_stopped s name v e).0
  delete_stopped-kept s name t v none f k p = removed s name p
  delete_stopped-kept s name t v (some e) f k p = replaced s name t v f k p

  delete_found-kept :
      (s : Supervisor) (name : Str) (es : List Event) (o : Option Task)
      → lookup name s.procs ≡ o
      → P s
      → P (delete_found s name es o).0
  delete_found-kept s name es none f p = p
  delete_found-kept s name es (some t) f p =
      delete_stopped-kept s name t (stop_process t es).0 (stop_process t es).1 f
        (stop_process-SameProcess t es) p

  shutdown-kept : (s : Supervisor) (es : Str → List Event) → P s → P (shutdown s es)
  unfolding shutdown
  shutdown-kept s es p = split s.stopped (halted s es p)
    where
      split : (b : Bool) {d : Supervisor} → P d → P (if b then s else d)
      split true q = p
      split false q = q

  moved-kept :
      (s : Supervisor) (name : Str) (e : Event) (o : Option Task)
      → lookup name s.procs ≡ o
      → P s
      → P (moved s name e o)
  moved-kept s name e none f p = p
  moved-kept s name e (some t) f p =
      let r = advance-Same (e ∷ []) t in
      replaced s name t (advance t (e ∷ [])) f
        (record { same_id = r.0; same_config = r.1; same_end = advance-Inv false (e ∷ []) t }) p

  notified-kept :
      (s : Supervisor) (name : Str) (o : Option Task)
      → lookup name s.procs ≡ o
      → P s
      → P (notified s name o)
  notified-kept s name none f p = p
  notified-kept s name (some t) f p =
      replaced s name t (notify_rebuild t) f
        (record { same_id = refl; same_config = refl; same_end = notify_rebuild-Inv t }) p

  exec-kept : (s : Supervisor) (c : Command) → P s → P (exec s c)
  unfolding exec start_app stop restart delete
  exec-kept s (starts cfg h) p = start_found-kept s cfg h (lookup cfg.name s.procs) refl p
  exec-kept s (stops name es) p = stop_found-kept s name es (lookup name s.procs) refl p
  exec-kept s (restarts name es) p = restart_found-kept s name es (lookup name s.procs) refl p
  exec-kept s (deletes name es) p = delete_found-kept s name es (lookup name s.procs) refl p
  exec-kept s (shuts_down es) p = shutdown-kept s es p
  exec-kept s (moves name e) p = moved-kept s name e (lookup name s.procs) refl p
  exec-kept s (notifies name) p = notified-kept s name (lookup name s.procs) refl p

  -- What every part keeps, any sequence of commands keeps.
  pub exec_all-kept : (s : Supervisor) (cs : List Command) → P s → P (exec_all s cs)
  unfolding exec_all
  exec_all-kept s [] p = p
  exec_all-kept s (c ∷ cs) p = exec_all-kept (exec s c) cs (exec-kept s c p)

-- ===== src/Supervisor/Rpc/Promise.antt =====
-- What a client may conclude from a response.
use gopm.Base.{
  ◌≡◌, refl, ◌∙◌, inl, inr, Bool, true, false, Option, none, some, List, arith, if◌then◌else◌,
  Bool-cases, Str, is_blank, str_eq_refl,
}
use gopm.Base.Dict.{lookup, lookup-insert_self, lookup-remove}
use gopm.Ipc.{CommandType, cmd_start, cmd_stop, cmd_restart, cmd_logs, cmd_delete, Request}
use gopm.Supervisor.Loop.{Task, Event, request_stop}
use gopm.Supervisor.Registry.{
  Supervisor, Error, advance, stop_timeout, stop_process, stop, stop_found, restart, restart_found,
  delete, delete_found, delete_stopped,
}
use gopm.Supervisor.Rpc.{World, handle, handler, named, replied, logs_found}

-- The process of this name is registered.
abbrev pub Registered : Str → Supervisor → Type 0
Registered name s = (t : Task) × (lookup name s.procs ≡ some t)

-- The process of this name is registered, and its goroutine has closed `done`.
abbrev pub Stopped : Str → Supervisor → Type 0
Stopped name s = (t : Task) × (lookup name s.procs ≡ some t) × (t.mp.done ≡ true)

-- What holds of the supervisor after a request that was answered with OK.
abbrev pub Promised : CommandType → Str → Supervisor → Type 0
Promised cmd_stop name s = Stopped name s
Promised cmd_restart name s = Registered name s
Promised cmd_delete name s = lookup name s.procs ≡ none
Promised cmd_logs name s = Registered name s
Promised _ name s = Unit

-- The commands that only ask.
abbrev pub is_query : CommandType → Bool
is_query cmd_start = false
is_query cmd_stop = false
is_query cmd_restart = false
is_query cmd_delete = false
is_query _ = true

false-ne-true : false ≡ true → ⊥
false-ne-true z = cc

-- A call that returns no error and leaves `K`, behind the test of the name, fulfils `K`.
named-replied :
    (K : Supervisor → Type 0) (s : Supervisor) (name complaint message : Str)
    (r : Supervisor × Option Error)
    → (r.1 ≡ none → K r.0)
    → (named s name complaint (replied message r)).1.ok ≡ true
    → K (named s name complaint (replied message r)).0
named-replied K s name complaint message (s', none) k h = elim (Bool-cases (is_blank name)) [
  | inl e ↦ absurd (false-ne-true (rw e at h))
  | inr e ↦ rw e (k refl)
]
named-replied K s name complaint message (s', some x) k h = elim (Bool-cases (is_blank name)) [
  | inl e ↦ absurd (false-ne-true (rw e at h))
  | inr e ↦ absurd (false-ne-true (rw e at h))
]

done-of-none :
    (t : Task) → (if t.mp.done then none else some stop_timeout) ≡ none → t.mp.done ≡ true
done-of-none t h = ground arith

stop_found-Stopped :
    (s : Supervisor) (name : Str) (es : List Event) (o : Option Task)
    → (stop_found s name es o).1 ≡ none
    → Stopped name (stop_found s name es o).0
unfolding stop_process
stop_found-Stopped s name es none h = cc
stop_found-Stopped s name es (some t) h = (
  (stop_process t es).0,
  lookup-insert_self name (stop_process t es).0 s.procs,
  done-of-none (advance (request_stop t) es) h,
)

restart_found-Registered :
    (s : Supervisor) (name : Str) (es : List Event) (o : Option Task)
    → lookup name s.procs ≡ o
    → (restart_found s name es o).1 ≡ none
    → Registered name (restart_found s name es o).0
restart_found-Registered s name es none f h = cc
restart_found-Registered s name es (some t) f h = elim (Bool-cases t.mp.restart_mu) [
  | inl e ↦ rw e (t, f)
  | inr e ↦ rw e (_, lookup-insert_self name _ s.procs)
]

delete_stopped-Gone :
    (s : Supervisor) (name : Str) (t : Task) (e : Option Error)
    → (delete_stopped s name t e).1 ≡ none
    → lookup name (delete_stopped s name t e).0.procs ≡ none
delete_stopped-Gone s name t none h = lookup-remove name name s.procs ∙ rw (str_eq_refl name) refl
delete_stopped-Gone s name t (some e) h = cc

delete_found-Gone :
    (s : Supervisor) (name : Str) (es : List Event) (o : Option Task)
    → (delete_found s name es o).1 ≡ none
    → lookup name (delete_found s name es o).0.procs ≡ none
delete_found-Gone s name es none h = cc
delete_found-Gone s name es (some t) h =
    delete_stopped-Gone s name (stop_process t es).0 (stop_process t es).1 h

logs_found-Registered :
    (w : World) (s : Supervisor) (req : Request) (o : Option Task)
    → lookup req.app_name s.procs ≡ o
    → (logs_found w s req o).ok ≡ true
    → Registered req.app_name s
logs_found-Registered w s req none f h = cc
logs_found-Registered w s req (some t) f h = (t, f)

logs-Registered :
    (w : World) (es : List Event) (s : Supervisor) (req : Request)
    → (handle w es s cmd_logs req).1.ok ≡ true
    → Registered req.app_name (handle w es s cmd_logs req).0
unfolding handle
logs-Registered w es s req h = elim (Bool-cases (is_blank req.app_name)) [
  | inl e ↦ absurd (false-ne-true (rw e at h))
  | inr e ↦ rw e (logs_found-Registered w s req (lookup req.app_name s.procs) refl (rw e at h))
]

handle-Promised :
    (w : World) (es : List Event) (s : Supervisor) (c : CommandType) (req : Request)
    → (handle w es s c req).1.ok ≡ true
    → Promised c req.app_name (handle w es s c req).0
unfolding handle stop restart delete
handle-Promised w es s cmd_stop req h =
    named-replied (Stopped req.app_name) s req.app_name _ _ (stop s req.app_name es)
      (stop_found-Stopped s req.app_name es (lookup req.app_name s.procs)) h
handle-Promised w es s cmd_restart req h =
    named-replied (Registered req.app_name) s req.app_name _ _ (restart s req.app_name es)
      (restart_found-Registered s req.app_name es (lookup req.app_name s.procs) refl) h
handle-Promised w es s cmd_delete req h =
    named-replied (λ (z : Supervisor). lookup req.app_name z.procs ≡ none) s req.app_name _ _
      (delete s req.app_name es) (delete_found-Gone s req.app_name es (lookup req.app_name s.procs))
      h
handle-Promised w es s cmd_logs req h = logs-Registered w es s req h
handle-Promised w es s _ req h = tt

handle-query :
    (w : World) (es : List Event) (s : Supervisor) (c : CommandType) (req : Request)
    → is_query c ≡ true
    → (handle w es s c req).0 ≡ s
unfolding handle
handle-query w es s cmd_start req h = cc
handle-query w es s cmd_stop req h = cc
handle-query w es s cmd_restart req h = cc
handle-query w es s cmd_delete req h = cc
handle-query w es s cmd_logs req h = elim (Bool-cases (is_blank req.app_name)) [
  | inl e ↦ rw e refl
  | inr e ↦ rw e refl
]
handle-query w es s _ req h = refl

-- After a request that is answered with OK, a process that was stopped is registered and its
-- goroutine has closed `done`, one that was restarted or whose logs were read is registered, and
-- one that was deleted is not. A request that is no start, stop, restart or delete leaves the
-- supervisor as it is, whatever the answer.
pub handler_lem :
    (w : World) (es : List Event) (s : Supervisor) (req : Request)
    → ((handler w es s req).1.ok ≡ true → Promised req.command req.app_name (handler w es s req).0)
      × (is_query req.command ≡ true → (handler w es s req).0 ≡ s)
unfolding handler
handler_lem w es s req =
    (handle-Promised w es s req.command req, handle-query w es s req.command req)

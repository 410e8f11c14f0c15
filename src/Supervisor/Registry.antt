-- ===== src/Supervisor/Registry.antt =====
-- The registry of internal/supervisor/supervisor.go: the managed processes by name, and the
-- operations on them. A task is a process with the place of its goroutine. While an operation waits
-- for a goroutine to return, that goroutine makes the steps that a list of events gives; the
-- operation's time limit is over when the list is.
pub mod Identity
pub mod Persistence
pub mod Restart
pub mod Runs
pub mod Ended
pub mod Names
pub mod Commands
pub mod Order
use gopm.Base.{
  ℕ, zero, suc, ◌+◌, ◌-◌, ◌*◌, ◌/◌, ◌%◌, ◌^◌, ◌≤◌, ◌<◌, min, ◌≡◌, refl, sym, ap, ◌∙◌, ◌≢◌, ◌↔◌, ◌⊎◌,
  inl, inr, Bool, true, false, not, ◌&&◌, ◌||◌, Option, none, some, List, [], ◌∷◌, ◌++◌, map,
  append-nil, append_assoc, arith, ltb, leb, ◌==◌, if◌then◌else◌, ltb→lt, lt→ltb, leb→le, ==_iff,
  Bool-cases, Option-cases, length, get_or, set, take, drop, replicate, snoc, select, any, every,
  is_empty, last_n, length-append, length-set, get_or-set_self, get_or-set_ne, length-replicate,
  length-drop, drop_all, drop-append_left, drop-drop, drop-zero_eq, Str, codes, str_eq, is_blank,
  has_prefix, contains, str_eq_refl, eq_of_str_eq, str_eq_iff, has_prefix-append, has_prefix_iff,
}
use gopm.Base.Int.{ℤ, is_nonpos, to_ℕ}
use gopm.Base.Dict.{lookup, insert, remove, values}
use gopm.Base.Disk.{Disk}
use gopm.Config.{AppConfig}
use gopm.Logger.Registry
use gopm.Logger.Registry.{Logger}
use gopm.Supervisor.Process.{ManagedProcess, new_managed_process}
use gopm.Supervisor.Loop.{Task, Event, Outcome, enter, step, request_stop, returned}

-- `state.PersistedApp`
pub record PersistedApp : Type 0 where
  pub config : AppConfig
  pub restarts : ℕ

-- `saved` is the state last handed to the store, up to the order of its entries, `pending` the names for which a restart was
-- started in the background, `cancelled` tells whether the context was cancelled.
pub record Supervisor : Type 0 where
  pub procs : List (Str × Task)
  pub next_id : ℕ
  pub stopped : Bool
  pub cancelled : Bool
  pub logger : Logger
  pub saved : List PersistedApp
  pub pending : List Str

pub data Error : Type 0 where
  no_such_process : Str → Error
  stop_timeout : Error

unfoldable pub new : Supervisor
new = record {
  procs = [];
  next_id = 0;
  stopped = false;
  cancelled = false;
  logger = Registry.new (ℤ.pos 0);
  saved = [];
  pending = [];
}

abbrev pub persisted : Task → PersistedApp
persisted t = record { config = t.mp.config; restarts = t.mp.restarts }

-- `persist`, with a store. The code ranges over a Go map, so that the order of the entries differs from
-- call to call: `saved` is one of the lists that may be handed to the store, and stands for all lists
-- of the same entries.
abbrev pub persist : Supervisor → Supervisor
persist s = record s { saved = map persisted (values s.procs) }

abbrev pub put : Supervisor → Str → Task → Supervisor
put s name t = record s { procs = insert name t s.procs }

-- `go s.supervise(mp)`
abbrev pub spawn : ManagedProcess → Task
spawn mp = (enter mp).0

-- The steps of a goroutine while another one waits; an event that cannot happen is passed over.
unfoldable pub advance : Task → List Event → Task
advance t [] = t
advance t (e ∷ es) = elim (step t e) [ none ↦ advance t es | some o ↦ advance o.0 es ]

-- `stopProcess`: the kill that it sends as well is one of the events' causes.
unfoldable pub stop_process : Task → List Event → Task × Option Error
stop_process t es =
    let t' = advance (request_stop t) es in (t', if t'.mp.done then none else some stop_timeout)

abbrev pub stop_found : Supervisor → Str → List Event → Option Task → Supervisor × Option Error
stop_found s name es none = (s, some (no_such_process name))
stop_found s name es (some t) = let (t', e) = stop_process t es in (put s name t', e)

unfoldable pub stop : Supervisor → Str → List Event → Supervisor × Option Error
stop s name es = stop_found s name es (lookup name s.procs)

-- The new channels and counters of a restart.
abbrev pub renewed : ManagedProcess → ManagedProcess
renewed mp = record mp { stop_ch = false; done = false; restarts = 0; crash_notified = false }

abbrev pub respawn : Task → Option Error → Task × Option Error
respawn t none = (spawn (renewed t.mp), none)
respawn t (some e) = (t, some e)

-- The lock `restartMu` is held by another `Restart` where it is true here.
abbrev pub restart_found : Supervisor → Str → List Event → Option Task → Supervisor × Option Error
restart_found s name es none = (s, some (no_such_process name))
restart_found s name es (some t) =
    if t.mp.restart_mu
    then (s, none)
    else (let (t', e) = stop_process t es in let (t'', e') = respawn t' e in (put s name t'', e'))

unfoldable pub restart : Supervisor → Str → List Event → Supervisor × Option Error
restart s name es = restart_found s name es (lookup name s.procs)

abbrev pub delete_stopped : Supervisor → Str → Task → Option Error → Supervisor × Option Error
delete_stopped s name t (some e) = (put s name t, some e)
delete_stopped s name t none = (
  persist (record s { procs = remove name s.procs; logger = Registry.detach s.logger name }),
  none,
)

abbrev pub delete_found : Supervisor → Str → List Event → Option Task → Supervisor × Option Error
delete_found s name es none = (s, some (no_such_process name))
delete_found s name es (some t) = let (t', e) = stop_process t es in delete_stopped s name t' e

unfoldable pub delete : Supervisor → Str → List Event → Supervisor × Option Error
delete s name es = delete_found s name es (lookup name s.procs)

-- What `StartApp` reads from outside: whether the port can be bound, and the disk.
pub record Host : Type 0 where
  pub port_free : ℤ → Bool
  pub disk : Disk
  pub now : ℕ
  pub stamp : ℕ → Str
  pub port_warning : ℤ → Str

abbrev pub warn_port : AppConfig → Host → Logger → Logger × Disk
warn_port cfg h l =
    if is_nonpos cfg.port || h.port_free cfg.port
    then (l, h.disk)
    else Registry.write h.stamp h.now cfg.name (h.port_warning cfg.port) l h.disk

abbrev pub start_found : Supervisor → AppConfig → Host → Option Task → Supervisor × Disk
start_found s cfg h (some t) = (
  record (put s cfg.name (record t { mp = record (t.mp) { config = cfg } })) {
    pending = snoc s.pending cfg.name;
  },
  h.disk,
)
start_found s cfg h none =
    let (l, d) = warn_port cfg h s.logger in
    let (l', d', e) =
      Registry.set_log_file l cfg.name cfg.log_file cfg.log_max_size_mb cfg.log_max_backups d in
    let s' = record s {
      procs = insert cfg.name (spawn (new_managed_process s.next_id cfg)) s.procs;
      next_id = s.next_id + 1;
      logger = l';
    } in
    (persist s', d')

-- `StartApp`; its error is always nil.
unfoldable pub start_app : Supervisor → AppConfig → Host → Supervisor × Disk
start_app s cfg h = start_found s cfg h (lookup cfg.name s.procs)

abbrev pub stop_all : List (Str × Task) → (Str → List Event) → List (Str × Task)
stop_all [] es = []
stop_all ((name, t) ∷ procs) es = (name, (stop_process t (es name)).0) ∷ stop_all procs es

unfoldable pub shutdown : Supervisor → (Str → List Event) → Supervisor
shutdown s es =
    if s.stopped
    then s
    else record s { stopped = true; procs = stop_all s.procs es; cancelled = true }

-- `sort.Slice` by id, as an insertion sort.
unfoldable pub insert_by_id : Task → List Task → List Task
insert_by_id t [] = t ∷ []
insert_by_id t (u ∷ us) =
    let rest = insert_by_id t us in if leb t.mp.id u.mp.id then t ∷ u ∷ us else u ∷ rest

unfoldable pub sort_by_id : List Task → List Task
sort_by_id [] = []
sort_by_id (t ∷ ts) = insert_by_id t (sort_by_id ts)

-- `List`
unfoldable pub list : Supervisor → List Task
list s = sort_by_id (values s.procs)

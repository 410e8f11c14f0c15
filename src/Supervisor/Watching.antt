-- ===== src/Supervisor/Watching.antt =====
-- `supervise` with the watcher that it starts (internal/supervisor/supervisor.go and
-- internal/watcher/watcher.go): the channel `rebuildCh` of the process is the `notify` of its watcher.
pub mod Signals
pub mod Wired
pub mod Changes
use gopm.Base.{
  ℕ, zero, suc, ◌+◌, ◌-◌, ◌*◌, ◌/◌, ◌%◌, ◌^◌, ◌≤◌, ◌<◌, min, ◌≡◌, refl, sym, ap, ◌∙◌, ◌≢◌, ◌↔◌, ◌⊎◌,
  inl, inr, Bool, true, false, not, ◌&&◌, ◌||◌, Option, none, some, List, [], ◌∷◌, ◌++◌, map,
  append-nil, append_assoc, arith, ltb, leb, ◌==◌, if◌then◌else◌, ltb→lt, lt→ltb, leb→le, ==_iff,
  Bool-cases, Option-cases, length, get_or, set, drop, replicate, snoc, select, any, every,
  is_empty, last_n, length-append, length-set, get_or-set_self, get_or-set_ne, length-replicate,
  length-drop, drop_all, drop-append_left, drop-drop, drop-zero_eq, Str, codes, str_eq, is_blank,
  has_prefix, contains, str_eq_refl, eq_of_str_eq, str_eq_iff, has_prefix-append, has_prefix_iff,
}
use gopm.Config.{WatchConfig}
use gopm.Watcher.{Watcher}
use gopm.Watcher.Tree.{Entry}
use gopm.Watcher.Loop.Debounce.{is_fires}
use gopm.Watcher.Loop as Watching
use gopm.Watcher.Loop.{Loop, fires, take}
use gopm.Supervisor.Loop as Loops
use gopm.Supervisor.Loop.{Task, Outcome, request_stop, notify_rebuild}

-- The goroutine of the watcher, and that of the process.
pub record Watched : Type 0 where
  pub loop : Loop
  pub task : Task

-- A step of the watcher or of the process at a time, and a request to stop the process.
pub data Move : Type 0 where
  watches : ℕ → Watching.Event → Move
  supervises : ℕ → Loops.Event → Move
  asks_stop : Move

abbrev pub is_take : Watching.Event → Bool
is_take take = true
is_take _ = false

-- The signal of the watcher is in the channel of the process.
abbrev pub after_watch : Watching.Event → Task → Option Loop → Option Watched
after_watch e t none = none
after_watch e t (some l) =
    some (record { loop = l; task = if is_fires e then notify_rebuild t else t })

abbrev pub after_step : Loop → Option Outcome → Option Watched
after_step l none = none
after_step l (some o) =
    some (record { loop = record l { pending = o.0.mp.rebuild_ch }; task = o.0 })

module _ (clean_abs : Str → Str) (ext : Str → Str) (lower : Str → Str) (abs_under : Str → Str → Str)
    (lstat : Str → Option Entry) (add_watch : Str → Option Str) (w : Watcher) (cfg : WatchConfig)
    (root : Str) where
  -- The process is the receiver of the signal.
  abbrev pub move : Watched → Move → Option Watched
  move s (watches now e) =
      if is_take e
      then none
      else after_watch e s.task
          (Watching.step clean_abs ext lower abs_under lstat add_watch w cfg root s.loop now e)
  move s (supervises now e) = after_step s.loop (Loops.step s.task e)
  move s asks_stop = some (record s { task = request_stop s.task })

  unfoldable pub moves : Watched → List Move → Option Watched
  moves s [] = some s
  moves s (m ∷ ms) = elim (move s m) [ none ↦ none | some t ↦ moves t ms ]

  -- The watcher is started beside a process.
  abbrev pub watched : Task → Watched
  watched t = record {
    loop = Watching.start clean_abs ext lower abs_under lstat add_watch w cfg root;
    task = t;
  }

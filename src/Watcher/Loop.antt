-- ===== src/Watcher/Loop.antt =====
-- `Start` and `Close`. The goroutine is a machine that takes one arm of the `select` at a time, at a
-- time in nanoseconds; Close and the receiver of the rebuild signal are events of other goroutines.
use gopm.Base.{
  ℕ, zero, suc, ◌+◌, ◌-◌, ◌*◌, ◌/◌, ◌%◌, ◌^◌, ◌≤◌, ◌<◌, min, ◌≡◌, refl, sym, ap, ◌∙◌, ◌≢◌, ◌↔◌, ◌⊎◌,
  inl, inr, Bool, true, false, not, ◌&&◌, ◌||◌, Option, none, some, List, [], ◌∷◌, ◌++◌, map,
  append-nil, append_assoc, arith, ltb, leb, ◌==◌, if◌then◌else◌, ltb→lt, lt→ltb, leb→le, ==_iff,
  Bool-cases, Option-cases, length, get_or, set, drop, replicate, snoc, select, any, every,
  is_empty, last_n, length-append, length-set, get_or-set_self, get_or-set_ne, length-replicate,
  length-drop, drop_all, drop-append_left, drop-drop, drop-zero_eq, Str, codes, str_eq, is_blank,
  has_prefix, contains, str_eq_refl, eq_of_str_eq, str_eq_iff, has_prefix-append, has_prefix_iff,
}
pub mod Debounce
use gopm.Base.Int.{ℤ, is_nonpos, to_ℕ, to_int64}
use gopm.Config.{WatchConfig}
use gopm.Watcher.{Watcher, FsEvent, is_ignored, should_fire, itoa}
use gopm.Watcher.Tree.{Entry, Walk, logged, add_recursive}

-- `debounce`, where a product beyond an int64 wraps, and a timer of a negative duration is due.
abbrev pub debounce : WatchConfig → ℕ
debounce cfg =
    if is_nonpos cfg.debounce_ms
    then 300 * 1000000
    else to_ℕ (to_int64 (to_ℕ cfg.debounce_ms * 1000000))

-- The arms of the `select`: the closed `stopCh`; an event, with what now stands at its name; the
-- closed channel of events; the timer; an error, and the closed channel of errors. `close` is the
-- call of Close up to its wait, `take` the receipt of the signal.
pub data Event : Type 0 where
  stop : Event
  changed : FsEvent → Option Entry → Event
  events_closed : Event
  fires : Event
  failed : Str → Event
  errors_closed : Event
  close : Event
  take : Event

-- The log line of a watcher without directories; the dash is three bytes.
abbrev no_dirs : Str
no_dirs =
    codes "WARNING: no directories are being watched "
    ++ (226 ∷ 128 ∷ 148 ∷ [])
    ++ codes " check watch.dirs paths"

-- `due` is when the timer's channel has its value, `none` where `timerC` is nil; `pending` is
-- whether the signal is in the channel `notify`, which has room for one; `closing` is whether
-- `stopCh` and the watcher of fsnotify are closed, `done` whether the loop has returned.
pub record Loop : Type 0 where
  pub walked : Walk
  pub due : Option ℕ
  pub pending : Bool
  pub closing : Bool
  pub done : Bool

-- What is done next, where there is a state.
abbrev pub and_then : Option Loop → (Loop → Option Loop) → Option Loop
and_then none k = none
and_then (some s) k = k s

module _ (clean_abs : Str → Str) (ext : Str → Str) (lower : Str → Str) (abs_under : Str → Str → Str)
    (lstat : Str → Option Entry) (add_watch : Str → Option Str) (w : Watcher) (cfg : WatchConfig)
    (root : Str) where
  abbrev pub ignored : Str → Bool
  ignored = is_ignored clean_abs ext lower abs_under w

  -- The directories that `Start` begins with.
  abbrev pub add_dirs : List Str → Walk → Walk
  add_dirs [] v = v
  add_dirs (d ∷ ds) v =
      let top = abs_under root d in
      let u = add_recursive ignored add_watch (lstat top) top v in
      add_dirs ds (
        logged
          (codes "watching "
            ++ top
            ++ codes " ("
            ++ itoa (ℤ.pos (u.added - v.added))
            ++ codes " dirs)")
          u)

  abbrev pub start : Loop
  start = record {
    walked =
        let v = add_dirs cfg.dirs (record { added = 0; watched = []; log = [] }) in
        if v.added == 0 then logged (no_dirs) v else v;
    due = none;
    pending = false;
    closing = false;
    done = false;
  }

  -- A directory that was just created is watched too.
  abbrev pub auto_add : FsEvent → Option Entry → Walk → Walk
  auto_add ev (some (Entry.dir unread entries)) v =
      if ev.op_create && not (ignored ev.name)
      then add_recursive ignored add_watch (some (Entry.dir unread entries)) ev.name v
      else v
  auto_add ev (some Entry.file) v = v
  auto_add ev none v = v

  abbrev pub reset_timer : Bool → ℕ → Option ℕ → Option ℕ
  reset_timer fire now due = if fire then some (now + debounce cfg) else due

  abbrev pub on_fire : Option ℕ → ℕ → Loop → Option Loop
  on_fire none now s = none
  on_fire (some t) now s =
      if leb t now then some (record s { due = none; pending = true }) else none

  abbrev pub finished : Loop → Option Loop
  finished s = if s.closing then some (record s { done = true }) else none

  -- One arm, where the loop is still running.
  abbrev pub arm : Event → ℕ → Loop → Option Loop
  arm stop now s = finished s
  arm events_closed now s = finished s
  arm errors_closed now s = finished s
  arm (changed ev here) now s = some (record s {
    walked = auto_add ev here s.walked;
    due = reset_timer (should_fire clean_abs ext lower abs_under w ev) now s.due;
  })
  arm fires now s = on_fire s.due now s
  arm (failed err) now s = some (record s { walked = logged (codes "fsnotify: " ++ err) s.walked })
  arm close now s = some (record s { closing = true })
  arm take now s = if s.pending then some (record s { pending = false }) else none

  -- After its return the loop takes no arm, but the signal can still be received, and Close called.
  abbrev pub at_rest : Event → Loop → Option Loop
  at_rest close s = some s
  at_rest take s = if s.pending then some (record s { pending = false }) else none
  at_rest _ s = none

  abbrev pub step : Loop → ℕ → Event → Option Loop
  step s now e = if s.done then at_rest e s else arm e now s

  -- The steps of a list, each with its time; `none` where one of them cannot happen.
  abbrev pub run : List (ℕ × Event) → Loop → Option Loop
  run [] s = some s
  run ((now, e) ∷ es) s = and_then (step s now e) (run es)

-- ===== src/Logger/Registry.antt =====
-- The registry of internal/logger/logger.go: one log for each process, with its subscribers. A
-- channel is its number, its capacity and the events in it; its number is its identity. The locks
-- make each operation atomic. A time is a number of nanoseconds; `stamp` formats it.
pub mod Isolation
use gopm.Base.{
  ℕ, zero, suc, ◌+◌, ◌-◌, ◌*◌, ◌/◌, ◌%◌, ◌^◌, ◌≤◌, ◌<◌, min, ◌≡◌, refl, sym, ap, ◌∙◌, ◌≢◌, ◌↔◌, ◌⊎◌,
  inl, inr, Bool, true, false, not, ◌&&◌, ◌||◌, Option, none, some, List, [], ◌∷◌, ◌++◌, map,
  append-nil, append_assoc, arith, ltb, leb, ◌==◌, if◌then◌else◌, ltb→lt, lt→ltb, leb→le, ==_iff,
  Bool-cases, Option-cases, length, get_or, set, take, drop, replicate, snoc, select, any, every,
  is_empty, last_n, length-append, length-set, get_or-set_self, get_or-set_ne, length-replicate,
  length-drop, drop_all, drop-append_left, drop-drop, drop-zero_eq, Str, codes, str_eq, is_blank,
  has_prefix, contains, str_eq_refl, eq_of_str_eq, str_eq_iff, has_prefix-append, has_prefix_iff,
}
use gopm.Base.Int.{ℤ, is_nonpos, to_ℕ, to_int64}
use gopm.Base.Dict.{lookup, insert, remove, keys}
use gopm.Base.Disk.{Disk, read, or_empty}
use gopm.Logger.Ring.{LogEntry, RingBuffer, new_ring_buffer, add, tail, tail_filtered}
use gopm.Logger.Rotate.{LogFile, append_line}

abbrev pub default_capacity : ℕ
default_capacity = 1000

pub record LogEvent : Type 0 where
  pub name : Str
  pub line : Str

pub record EventChan : Type 0 where
  pub id : ℕ
  pub room : ℕ
  pub queue : List LogEvent

pub record ProcLog : Type 0 where
  pub name : Str
  pub buf : RingBuffer
  pub log : LogFile
  pub subs : List EventChan

-- `next_chan` numbers the channels that are made.
pub record Logger : Type 0 where
  pub procs : List (Str × ProcLog)
  pub capacity : ℕ
  pub all_subs : List EventChan
  pub next_chan : ℕ

unfoldable pub new : ℤ → Logger
new capacity = record {
  procs = [];
  capacity = if is_nonpos capacity then default_capacity else to_ℕ capacity;
  all_subs = [];
  next_chan = 0;
}

abbrev pub no_file : LogFile
no_file = record {
  file = false;
  log_path = [];
  log_size = 0;
  log_max_bytes = ℤ.pos 0;
  log_max_backup = ℤ.pos 0;
}

abbrev pub fresh_log : ℕ → Str → ProcLog
fresh_log capacity name = record {
  name = name;
  buf = new_ring_buffer capacity;
  log = no_file;
  subs = [];
}

abbrev pub or_fresh : ℕ → Str → Option ProcLog → ProcLog
or_fresh capacity name none = fresh_log capacity name
or_fresh capacity name (some pl) = pl

-- `ensure` returns the log of a process, made if it is missing; what the caller then stores under
-- the name is `keep`.
unfoldable pub ensure : Logger → Str → ProcLog
ensure l name = or_fresh l.capacity name (lookup name l.procs)

unfoldable pub keep : Logger → Str → ProcLog → Logger
keep l name pl = record l { procs = insert name pl l.procs }

pub data LogFileError : Type 0 where
  mkdir_failed open_failed : LogFileError

-- The end of `SetLogFile`: the size limit is set only if `maxSizeMB` is positive.
abbrev pub opened : LogFile → Str → ℕ → ℤ → ℤ → LogFile
opened f path size max_size_mb max_backups = record f {
  file = true;
  log_path = path;
  log_size = size;
  log_max_bytes =
      if is_nonpos max_size_mb then f.log_max_bytes else to_int64 (to_ℕ max_size_mb * 1024 * 1024);
  log_max_backup = max_backups;
}

unfoldable pub configure : LogFile → Str → ℤ → ℤ → Disk → LogFile × Disk × Option LogFileError
configure f path max_size_mb max_backups d =
    let closed = record f { file = false } in
    if is_blank path
    then (no_file, d, none)
    else if not (d.can_mkdir path)
    then (closed, d, some mkdir_failed)
    else if not (d.can_open path)
    then (closed, d, some open_failed)
    else (let body = or_empty (read path d) in
        (
          opened closed path (length body) max_size_mb max_backups,
          record d { files = insert path body d.files },
          none,
        ))

unfoldable pub set_log_file :
    Logger → Str → Str → ℤ → ℤ → Disk → Logger × Disk × Option LogFileError
set_log_file l name path max_size_mb max_backups d =
    let pl = ensure l name in
    let (f, d', e) = configure pl.log path max_size_mb max_backups d in
    (keep l name (record pl { log = f }), d', e)

-- `select { case ch <- ev: default: }`
abbrev pub offer : LogEvent → EventChan → EventChan
offer ev ch = if ltb (length ch.queue) ch.room then record ch { queue = snoc ch.queue ev } else ch

-- `append`: the ring, the file, the subscribers of the process, then those of every process.
unfoldable pub append : (ℕ → Str) → ℕ → Str → ProcLog → Logger → Disk → Logger × Disk
append stamp now line pl l d =
    let (f, d') = append_line (stamp now ++ (b' ' ∷ (line ++ (10 ∷ [])))) pl.log d in
    let ev : LogEvent = record { name = pl.name; line = line } in
    let pl' = record pl {
      buf = add pl.buf (record { line = line; ts = now });
      log = f;
      subs = map (offer ev) pl.subs;
    } in
    (record (keep l pl.name pl') { all_subs = map (offer ev) l.all_subs }, d')

unfoldable pub write : (ℕ → Str) → ℕ → Str → Str → Logger → Disk → Logger × Disk
write stamp now name line l d = append stamp now line (ensure l name) l d

-- The loop of `scan`, over the lines that the scanner finds at the times that it finds them.
unfoldable pub scan : (ℕ → Str) → Str → Str → List (ℕ × Str) → Logger → Disk → Logger × Disk
scan stamp name prefix [] l d = (l, d)
scan stamp name prefix ((now, line) ∷ lines) l d =
    let (l', d') = write stamp now name (if is_blank prefix then line else prefix ++ line) l d in
    scan stamp name prefix lines l' d'

abbrev pub lines_of : Option ProcLog → ℤ → List Str
lines_of none n = []
lines_of (some pl) n = map (λ (e : LogEntry). e.line) (tail pl.buf n)

unfoldable pub tail_lines : Logger → Str → ℤ → List Str
tail_lines l name n = lines_of (lookup name l.procs) n

abbrev pub filtered_of : Option ProcLog → ℤ → ℕ → Str → List Str
filtered_of none n since grep = []
filtered_of (some pl) n since grep = tail_filtered pl.buf n since grep

unfoldable pub tail_filtered_lines : Logger → Str → ℤ → ℕ → Str → List Str
tail_filtered_lines l name n since grep = filtered_of (lookup name l.procs) n since grep

abbrev pub names : Logger → List Str
names l = keys l.procs

unfoldable pub subscribe : Logger → Str → Logger × ℕ
subscribe l name =
    let pl = ensure l name in
    let ch : EventChan = record { id = l.next_chan; room = 256; queue = [] } in
    (
      record (keep l name (record pl { subs = snoc pl.subs ch })) { next_chan = l.next_chan + 1 },
      l.next_chan,
    )

unfoldable pub subscribe_all : Logger → Logger × ℕ
subscribe_all l =
    let ch : EventChan = record { id = l.next_chan; room = 512; queue = [] } in
    (record l { all_subs = snoc l.all_subs ch; next_chan = l.next_chan + 1 }, l.next_chan)

-- The first channel with this number is taken out.
unfoldable pub drop_chan : ℕ → List EventChan → List EventChan
drop_chan id [] = []
drop_chan id (ch ∷ chs) = let rest = drop_chan id chs in if ch.id == id then chs else ch ∷ rest

abbrev pub unsubscribed : Logger → Str → ℕ → Option ProcLog → Logger
unsubscribed l name id none = l
unsubscribed l name id (some pl) = keep l name (record pl { subs = drop_chan id pl.subs })

unfoldable pub unsubscribe : Logger → Str → ℕ → Logger
unsubscribe l name id = unsubscribed l name id (lookup name l.procs)

unfoldable pub unsubscribe_all : Logger → ℕ → Logger
unsubscribe_all l id = record l { all_subs = drop_chan id l.all_subs }

-- The file handle of the log goes with it.
unfoldable pub detach : Logger → Str → Logger
detach l name = record l { procs = remove name l.procs }

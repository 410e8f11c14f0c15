-- ===== src/Supervisor/Follow.antt =====
-- `handleLogStream` of internal/supervisor/rpc.go: a client that follows the log of one process or of
-- all. What the stream has written on the connection is the list of its events.
pub mod Channel
pub mod Feed
pub mod All
pub mod Ids
pub mod Closed
use gopm.Base.{
  ℕ, zero, suc, ◌+◌, ◌-◌, ◌*◌, ◌/◌, ◌%◌, ◌^◌, ◌≤◌, ◌<◌, min, ◌≡◌, refl, sym, ap, ◌∙◌, ◌≢◌, ◌↔◌, ◌⊎◌,
  inl, inr, Bool, true, false, not, ◌&&◌, ◌||◌, Option, none, some, List, [], ◌∷◌, ◌++◌, map,
  append-nil, append_assoc, arith, ltb, leb, ◌==◌, if◌then◌else◌, ltb→lt, lt→ltb, leb→le, ==_iff,
  Bool-cases, Option-cases, length, get_or, set, take, drop, replicate, snoc, select, any, every,
  is_empty, last_n, length-append, length-set, get_or-set_self, get_or-set_ne, length-replicate,
  length-drop, drop_all, drop-append_left, drop-drop, drop-zero_eq, Str, codes, str_eq, is_blank,
  has_prefix, contains, str_eq_refl, eq_of_str_eq, str_eq_iff, has_prefix-append, has_prefix_iff,
}
use gopm.Base.Dict.{lookup}
use gopm.Base.Disk.{Disk}
use gopm.Ipc.{Request}
use gopm.Logger.Registry.{
  LogEvent, EventChan, ProcLog, Logger, keep, write, subscribe, subscribe_all, unsubscribe,
  unsubscribe_all,
}

-- The channel that a stream reads: the one of every process, or of one.
pub data Source : Type 0 where
  of_all : ℕ → Source
  of_one : Str → ℕ → Source

abbrev pub as_source : (ℕ → Source) → Logger × ℕ → Option (Logger × Source)
as_source make (l, id) = some (l, make id)

-- The subscription; `none` where no process is named.
unfoldable pub open_stream : Logger → Request → Option (Logger × Source)
open_stream l req =
    if req.all
    then as_source of_all (subscribe_all l)
    else if is_blank req.app_name
    then none
    else as_source (of_one req.app_name) (subscribe l req.app_name)

-- The deferred call.
unfoldable pub close_stream : Logger → Source → Logger
close_stream l (of_all id) = unsubscribe_all l id
close_stream l (of_one name id) = unsubscribe l name id

-- The receipt from the channel with a number, `none` where it is empty.
abbrev pub popped : EventChan → List LogEvent → Option LogEvent × EventChan
popped ch [] = (none, ch)
popped ch (ev ∷ queue) = (some ev, record ch { queue = queue })

unfoldable pub take_from : ℕ → List EventChan → Option LogEvent × List EventChan
take_from id [] = (none, [])
take_from id (ch ∷ chs) =
    let rest = take_from id chs in
    let (ev, ch') = popped ch ch.queue in
    if ch.id == id then (ev, ch' ∷ chs) else (rest.0, ch ∷ rest.1)

abbrev pub received_one : Logger → Str → ℕ → Option ProcLog → Option LogEvent × Logger
received_one l name id none = (none, l)
received_one l name id (some pl) =
    let (ev, chs) = take_from id pl.subs in (ev, keep l name (record pl { subs = chs }))

unfoldable pub receive : Logger → Source → Option LogEvent × Logger
receive l (of_all id) = let (ev, chs) = take_from id l.all_subs in (ev, record l { all_subs = chs })
receive l (of_one name id) = received_one l name id (lookup name l.procs)

-- What happens while a stream is open: a line is written to a log, or the stream takes an event and
-- writes it to the connection.
pub data Op : Type 0 where
  writes : ℕ → Str → Str → Op
  sends : Op

pub record Stream : Type 0 where
  pub logger : Logger
  pub disk : Disk
  pub sent : List LogEvent

-- An empty channel leaves the stream waiting.
abbrev pub sent_on : List LogEvent → Option LogEvent → List LogEvent
sent_on sent none = sent
sent_on sent (some ev) = snoc sent ev

module _ (stamp : ℕ → Str) (src : Source) where
  unfoldable pub stream_step : Stream → Op → Stream
  stream_step s (writes now name line) =
      let (l, d) = write stamp now name line s.logger s.disk in record s { logger = l; disk = d }
  stream_step s sends =
      let (ev, l) = receive s.logger src in record s { logger = l; sent = sent_on s.sent ev }

  abbrev pub stream_all : Stream → List Op → Stream
  stream_all s [] = s
  stream_all s (op ∷ ops) = stream_all (stream_step s op) ops

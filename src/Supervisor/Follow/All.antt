-- ===== src/Supervisor/Follow/All.antt =====
-- What a client that follows the logs of all processes gets.
use gopm.Base.{ℕ, ◌≡◌, refl, ap, ◌∙◌, true, none, some, List, [], ◌∷◌, Str}
use mathlib.Core.Path.{ap₂}
use gopm.Base.Dict.{lookup}
use gopm.Base.Disk.{Disk}
use gopm.Logger.Registry.{subscribe_all, LogEvent, Logger, ensure, keep, append, write}
use gopm.Ipc.{Request}
use gopm.Supervisor.Follow.Channel.{
  Queue, put, deliver, find, chan, popped-chan, deliver-popped, find-snoc, find-offer,
  take_from-find,
}
use gopm.Supervisor.Follow.Feed.{IsOf, ensure_IsOf, IsOf-insert}
use gopm.Supervisor.Follow.{
  open_stream, Source, of_all, popped, receive, Op, writes, sends, Stream, sent_on, stream_step,
  stream_all,
}

abbrev pub all_step : Queue → Op → Queue
all_step q (writes now name line) = record q {
  waiting = put 512 (record { name = name; line = line }) q.waiting;
}
all_step q sends = deliver q.delivered q.waiting

abbrev pub all_steps : Queue → List Op → Queue
all_steps q [] = q
all_steps q (op ∷ ops) = all_steps (all_step q op) ops

-- Each log is under its own name, and the channel of the stream is among those of every log.
record Open (id : ℕ) (queue : List LogEvent) (l : Logger) : Type 0 where
  own : (k : Str) → IsOf k (lookup k l.procs)
  waits : find id l.all_subs ≡ some (chan 512 id queue)

record Follows (id : ℕ) (s : Stream) (q : Queue) : Type 0 where
  ready : Open id q.waiting s.logger
  same : s.sent ≡ q.delivered

module _ (id : ℕ) where
  write-Open :
      (stamp : ℕ → Str) (now : ℕ) (m line : Str) (l : Logger) (d : Disk) (queue : List LogEvent)
      → Open id queue l
      → Open id (put 512 (record { name = m; line = line }) queue) (write stamp now m line l d).0
  unfolding write append keep ensure
  write-Open stamp now m line l d queue o =
      let n = ensure_IsOf l.capacity m (lookup m l.procs) (o.own m) in
      record {
        own = λ k. rw n (IsOf-insert m id k m _ l.procs refl (o.own k));
        waits =
            rw n (find-offer 512 id (record { name = m; line = line }) queue l.all_subs o.waits);
      }

  receive-Open :
      (l : Logger) (queue : List LogEvent)
      → Open id queue l
      → let r = popped (chan 512 id queue) queue in
        ((receive l (of_all id)).0 ≡ r.0) × Open id r.1.queue (receive l (of_all id)).1
  unfolding receive
  receive-Open l queue o =
      let t = take_from-find 512 id queue l.all_subs o.waits in
      (t.0, record { own = o.own; waits = t.1 ∙ ap some (popped-chan 512 id queue) })

  module _ (stamp : ℕ → Str) where
    stream_step-Follows :
        (s : Stream) (q : Queue) (op : Op)
        → Follows id s q
        → Follows id (stream_step stamp (of_all id) s op) (all_step q op)
    unfolding stream_step
    stream_step-Follows s q (writes now m line) f = record {
      ready = write-Open stamp now m line s.logger s.disk q.waiting f.ready;
      same = f.same;
    }
    stream_step-Follows s q sends f =
        let (e, o) = receive-Open s.logger q.waiting f.ready in
        rw (deliver-popped 512 id q.delivered q.waiting)
          (record { ready = o; same = ap₂ sent_on f.same e })

    stream_all-Follows :
        (s : Stream) (q : Queue) (ops : List Op)
        → Follows id s q
        → Follows id (stream_all stamp (of_all id) s ops) (all_steps q ops)
    stream_all-Follows s q [] f = f
    stream_all-Follows s q (op ∷ ops) f =
        stream_all-Follows (stream_step stamp (of_all id) s op) (all_step q op) ops
          (stream_step-Follows s q op f)

-- A client that follows all logs gets what a queue with room for 512 lines delivers of the lines
-- written to any log after it subscribed, each with the name of its log: in the order in which they
-- were written, each once; a line is lost only where 512 are waiting. This is for a subscription to a
-- logger whose logs are each under their own name, with a channel that the logger does not have.
pub stream_all-all_steps :
    (stamp : ℕ → Str) (l : Logger) (d : Disk) (req : Request) (ops : List Op)
    → req.all ≡ true
    → ((k : Str) → IsOf k (lookup k l.procs))
    → find l.next_chan l.all_subs ≡ none
    → (u : Logger) × (src : Source) × (open_stream l req ≡ some (u, src))
      × ((stream_all stamp src (record { logger = u; disk = d; sent = [] }) ops).sent
          ≡ (all_steps (record { delivered = []; waiting = [] }) ops).delivered)
unfolding open_stream subscribe_all
stream_all-all_steps stamp l d req ops a own fresh = (
  (subscribe_all l).0,
  of_all l.next_chan,
  rw a refl,
  (stream_all-Follows l.next_chan stamp _ _ ops (record {
    ready = record { own = own; waits = find-snoc 512 l.next_chan [] l.all_subs fresh };
    same = refl;
  })).same,
)

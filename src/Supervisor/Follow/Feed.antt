-- ===== src/Supervisor/Follow/Feed.antt =====
-- What a client that follows the log of one process gets.
use gopm.Base.{
  ℕ, ◌≡◌, refl, sym, ap, ◌∙◌, inl, inr, true, false, Option, none, some, List, [], ◌∷◌, map,
  if◌then◌else◌, Bool-cases, Str, str_eq, is_blank, str_eq_refl, str_eq_iff,
}
use mathlib.Core.Path.{subst, ap₂}
use gopm.Base.Dict.{lookup, insert, lookup-insert}
use gopm.Base.Disk.{Disk}
use gopm.Logger.Registry.{
  subscribe, LogEvent, ProcLog, Logger, ensure, or_fresh, keep, offer, append, write,
}
use gopm.Ipc.{Request}
use gopm.Supervisor.Follow.Channel.{
  Queue, put, deliver, find, chan, popped-chan, deliver-popped, find-snoc, find-offer,
  take_from-find,
}
use gopm.Supervisor.Follow.{
  open_stream, Source, of_one, popped, received_one, receive, Op, writes, sends, Stream, sent_on,
  stream_step, stream_all,
}

abbrev pub queue_step : Str → Queue → Op → Queue
queue_step name q (writes now m line) =
    if str_eq m name
    then record q { waiting = put 256 (record { name = name; line = line }) q.waiting }
    else q
queue_step name q sends = deliver q.delivered q.waiting

abbrev pub queue_all : Str → Queue → List Op → Queue
queue_all name q [] = q
queue_all name q (op ∷ ops) = queue_all name (queue_step name q op) ops

-- The log is the one of this name.
abbrev pub IsOf : Str → Option ProcLog → Type 0
IsOf name none = Unit
IsOf name (some pl) = pl.name ≡ name

-- The log has the channel, with these events in it.
abbrev pub Waits : ℕ → List LogEvent → Option ProcLog → Type 0
Waits id queue none = ⊥
Waits id queue (some pl) = find id pl.subs ≡ some (record { id = id; room = 256; queue = queue })

-- Each log is under its own name, and one has the channel of the stream.
pub record Open (name : Str) (id : ℕ) (queue : List LogEvent) (l : Logger) : Type 0 where
  pub own : (k : Str) → IsOf k (lookup k l.procs)
  pub waits : Waits id queue (lookup name l.procs)

pub ensure_IsOf : (c : ℕ) (k : Str) (o : Option ProcLog) → IsOf k o → (or_fresh c k o).name ≡ k
ensure_IsOf c k none h = refl
ensure_IsOf c k (some pl) h = h

module _ (name : Str) (id : ℕ) where
  -- A log that is put back under its own name.
  pub IsOf-insert :
      (k m : Str) (pl : ProcLog) (ps : List (Str × ProcLog))
      → pl.name ≡ m
      → IsOf k (lookup k ps)
      → IsOf k (lookup k (insert m pl ps))
  IsOf-insert k m pl ps e h =
      rw (lookup-insert m k pl ps) (elim (Bool-cases (str_eq m k)) [
        | inl p ↦ rw p (e ∙ (str_eq_iff m k).0 p)
        | inr p ↦ rw p h
      ])

  Waits-insert :
      (m : Str) (queue queue' : List LogEvent) (pl : ProcLog) (ps : List (Str × ProcLog))
      → (str_eq m name ≡ true → Waits id queue' (some pl))
      → (str_eq m name ≡ false → Waits id queue' (lookup name ps))
      → Waits id queue' (lookup name (insert m pl ps))
  Waits-insert m queue queue' pl ps f g =
      rw (lookup-insert m name pl ps)
        (elim (Bool-cases (str_eq m name)) [ inl p ↦ rw p (f p) | inr p ↦ rw p (g p) ])

  ensured-find :
      (c : ℕ) (m : Str) (queue : List LogEvent) (o : Option ProcLog)
      → Waits id queue o
      → find id (or_fresh c m o).subs ≡ some (chan 256 id queue)
  ensured-find c m queue none h = absurd h
  ensured-find c m queue (some pl) h = h

  write-Open :
      (stamp : ℕ → Str) (now : ℕ) (m line : Str) (l : Logger) (d : Disk) (queue : List LogEvent)
      → Open name id queue l
      → Open name id
          (if str_eq m name then put 256 (record { name = name; line = line }) queue else queue)
          (write stamp now m line l d).0
  unfolding write append keep ensure
  write-Open stamp now m line l d queue o =
      let n = ensure_IsOf l.capacity m (lookup m l.procs) (o.own m) in
      record {
        own = λ k. rw n (IsOf-insert k m _ l.procs refl (o.own k));
        waits = rw n (
            Waits-insert m queue _ _ l.procs (λ p. rw p (ours ((str_eq_iff m name).0 p)))
              (λ p. rw p o.waits));
      }
    where
      ours :
          m ≡ name
          → find id (map (offer (record { name = m; line = line })) (ensure l m).subs)
            ≡ some (chan 256 id (put 256 (record { name = name; line = line }) queue))
      ours q =
          let h = subst (λ (k : Str). Waits id queue (lookup k l.procs)) (sym q) o.waits in
          let f : find id (ensure l m).subs ≡ some (chan 256 id queue) =
            unfold ensure in ensured-find l.capacity m queue (lookup m l.procs) h in
          find-offer 256 id (record { name = m; line = line }) queue (ensure l m).subs f
          ∙ ap (λ (k : Str). some (chan 256 id (put 256 (record { name = k; line = line }) queue)))
              q

  receive-Open :
      (l : Logger) (queue : List LogEvent)
      → Open name id queue l
      → let r = popped (chan 256 id queue) queue in
        ((receive l (of_one name id)).0 ≡ r.0)
        × Open name id r.1.queue (receive l (of_one name id)).1
  unfolding receive keep
  receive-Open l queue o = from (lookup name l.procs) refl o.waits
    where
      from :
          (p : Option ProcLog)
          → lookup name l.procs ≡ p
          → Waits id queue p
          → let r = popped (chan 256 id queue) queue in
            ((received_one l name id p).0 ≡ r.0)
            × Open name id r.1.queue (received_one l name id p).1
      from none e h = absurd h
      from (some pl) e h =
          let t = take_from-find 256 id queue pl.subs h in
          let own_name : pl.name ≡ name = subst (IsOf name) e (o.own name) in
          (
            t.0,
            record {
              own = λ k. IsOf-insert k name _ l.procs own_name (o.own k);
              waits =
                  Waits-insert name queue _ _ l.procs
                    (λ p. t.1 ∙ ap some (popped-chan 256 id queue))
                    (λ p. let r = str_eq_refl name in absurd cc);
            },
          )

  -- The stream and the queue.
  record Follows (s : Stream) (q : Queue) : Type 0 where
    ready : Open name id q.waiting s.logger
    same : s.sent ≡ q.delivered

  module _ (stamp : ℕ → Str) where
    stream_step-Follows :
        (s : Stream) (q : Queue) (op : Op)
        → Follows s q
        → Follows (stream_step stamp (of_one name id) s op) (queue_step name q op)
    unfolding stream_step
    stream_step-Follows s q (writes now m line) f =
        let o = write-Open stamp now m line s.logger s.disk q.waiting f.ready in
        elim (Bool-cases (str_eq m name)) [
          | inl e ↦ rw e (record { ready = rw e at o; same = f.same })
          | inr e ↦ rw e (record { ready = rw e at o; same = f.same })
        ]
    stream_step-Follows s q sends f =
        let (e, o) = receive-Open s.logger q.waiting f.ready in
        rw (deliver-popped 256 id q.delivered q.waiting)
          (record { ready = o; same = ap₂ sent_on f.same e })

    stream_all-Follows :
        (s : Stream) (q : Queue) (ops : List Op)
        → Follows s q
        → Follows (stream_all stamp (of_one name id) s ops) (queue_all name q ops)
    stream_all-Follows s q [] f = f
    stream_all-Follows s q (op ∷ ops) f =
        stream_all-Follows (stream_step stamp (of_one name id) s op) (queue_step name q op) ops
          (stream_step-Follows s q op f)

subscribed-Open :
    (l : Logger) (name : Str)
    → ((k : Str) → IsOf k (lookup k l.procs))
    → find l.next_chan (ensure l name).subs ≡ none
    → Open name l.next_chan [] (subscribe l name).0
unfolding subscribe keep
subscribed-Open l name own fresh =
    let n : (ensure l name).name ≡ name =
      unfold ensure in ensure_IsOf l.capacity name (lookup name l.procs) (own name) in
    record {
      own = λ k. IsOf-insert name l.next_chan k name _ l.procs n (own k);
      waits =
          Waits-insert name l.next_chan name [] _ _ l.procs
            (λ p. find-snoc 256 l.next_chan [] (ensure l name).subs fresh)
            (λ p. let r = str_eq_refl name in absurd cc);
    }

-- A client that follows the log of one process gets what a queue with room for 256 lines delivers of
-- the lines written to that log after it subscribed: in their order, each once, and without those
-- of other logs; a line is lost only where 256 are waiting. This is for a subscription to a logger
-- whose logs are each under their own name, with a channel that the log does not have already.
pub stream_all-queue :
    (stamp : ℕ → Str) (l : Logger) (d : Disk) (req : Request) (ops : List Op)
    → req.all ≡ false
    → is_blank req.app_name ≡ false
    → ((k : Str) → IsOf k (lookup k l.procs))
    → find l.next_chan (ensure l req.app_name).subs ≡ none
    → (u : Logger) × (src : Source) × (open_stream l req ≡ some (u, src))
      × ((stream_all stamp src (record { logger = u; disk = d; sent = [] }) ops).sent
          ≡ (queue_all req.app_name (record { delivered = []; waiting = [] }) ops).delivered)
unfolding open_stream subscribe
stream_all-queue stamp l d req ops a b own fresh = (
  (subscribe l req.app_name).0,
  of_one req.app_name l.next_chan,
  rw (a, b) refl,
  (stream_all-Follows req.app_name l.next_chan stamp _ _ ops
      (record { ready = subscribed-Open l req.app_name own fresh; same = refl })).same,
)

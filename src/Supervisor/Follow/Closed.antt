-- ===== src/Supervisor/Follow/Closed.antt =====
-- What a stream leaves behind.
use gopm.Base.{
  ℕ, ◌≡◌, refl, sym, ap, ◌∙◌, inl, inr, false, Option, none, some, List, [], ◌∷◌, Bool-cases, snoc,
  Str, is_blank, str_eq_refl,
}
use gopm.Base.Disk.{Disk}
use mathlib.Core.Path.{subst}
use gopm.Base.Dict.{lookup}
use gopm.Supervisor.Follow.Feed.{IsOf, ensure_IsOf, IsOf-insert}
use gopm.Logger.Registry.{
  ProcLog, subscribe, subscribe_all, unsubscribe, unsubscribe_all, unsubscribed, ensure, or_fresh,
  keep, append, write, Logger,
}
use gopm.Supervisor.Follow.{
  open_stream, close_stream, Source, of_all, of_one, received_one, receive, Op, writes, sends,
  Stream, stream_step, stream_all, Request,
}
use gopm.Supervisor.Follow.Ids.{
  ids, log_ids, has, ids-offer, ids-take_from, ids-drop_chan, Chans, ensured-ids, put_back,
  put_same, map-snoc, nil-ne-snoc, with_one, back_to,
}

module _ {all : List ℕ} {each : Str → List ℕ} where
  write-Chans :
      (stamp : ℕ → Str) (now : ℕ) (m line : Str) (l : Logger) (d : Disk)
      → Chans all each l
      → Chans all each (write stamp now m line l d).0
  unfolding write append keep ensure
  write-Chans stamp now m line l d c =
      let n = ensure_IsOf l.capacity m (lookup m l.procs) (c.own m) in
      record {
        own = λ k. rw n (IsOf-insert m 0 k m _ l.procs refl (c.own k));
        of_all_logs = rw n (ids-offer _ l.all_subs ∙ c.of_all_logs);
        of_each = λ k. rw n (
            put_same each m _ l.procs
              (ids-offer _ (or_fresh l.capacity m (lookup m l.procs)).subs
                ∙ (ensured-ids l.capacity m (lookup m l.procs) ∙ c.of_each m))
              c.of_each k);
      }

  received_one-Chans :
      (l : Logger) (name : Str) (id : ℕ) (o : Option ProcLog)
      → lookup name l.procs ≡ o
      → Chans all each l
      → Chans all each (received_one l name id o).1
  unfolding keep
  received_one-Chans l name id none e c = c
  received_one-Chans l name id (some pl) e c = record {
    own = λ k. IsOf-insert name 0 k name _ l.procs (subst (IsOf name) e (c.own name)) (c.own k);
    of_all_logs = c.of_all_logs;
    of_each =
        put_same each name _ l.procs
          (ids-take_from id pl.subs ∙ (sym (ap log_ids e) ∙ c.of_each name)) c.of_each;
  }

  receive-Chans : (l : Logger) (src : Source) → Chans all each l → Chans all each (receive l src).1
  unfolding receive
  receive-Chans l (of_all id) c = record {
    own = c.own;
    of_all_logs = ids-take_from id l.all_subs ∙ c.of_all_logs;
    of_each = c.of_each;
  }
  receive-Chans l (of_one name id) c = received_one-Chans l name id (lookup name l.procs) refl c

  stream_all-Chans :
      (stamp : ℕ → Str) (src : Source) (s : Stream) (ops : List Op)
      → Chans all each s.logger
      → Chans all each (stream_all stamp src s ops).logger
  unfolding stream_step
  stream_all-Chans stamp src s [] c = c
  stream_all-Chans stamp src s (writes now m line ∷ ops) c =
      stream_all-Chans stamp src (stream_step stamp src s (writes now m line)) ops
        (write-Chans stamp now m line s.logger s.disk c)
  stream_all-Chans stamp src s (sends ∷ ops) c =
      stream_all-Chans stamp src (stream_step stamp src s sends) ops (receive-Chans s.logger src c)

-- The channels that a logger has once a stream of it is closed.
closed_all-Chans :
    (all : List ℕ) (each : Str → List ℕ) (l : Logger) (id : ℕ)
    → has id all ≡ false
    → Chans (snoc all id) each l
    → Chans all each (close_stream l (of_all id))
unfolding close_stream unsubscribe_all
closed_all-Chans all each l id h c = record {
  own = c.own;
  of_all_logs = ids-drop_chan id l.all_subs all c.of_all_logs h;
  of_each = c.of_each;
}

with_one_self :
    (name : Str) (id : ℕ) (each : Str → List ℕ) → with_one name id each name ≡ snoc (each name) id
with_one_self name id each = rw (str_eq_refl name) refl

unsubscribed-Chans :
    (all : List ℕ) (each : Str → List ℕ) (l : Logger) (name : Str) (id : ℕ) (o : Option ProcLog)
    → lookup name l.procs ≡ o
    → has id (each name) ≡ false
    → Chans all (with_one name id each) l
    → Chans all each (unsubscribed l name id o)
unfolding keep
unsubscribed-Chans all each l name id none e h c =
    let k : [] ≡ snoc (each name) id =
      sym (ap log_ids e) ∙ (c.of_each name ∙ with_one_self name id each) in
    absurd (nil-ne-snoc (each name) id k)
unsubscribed-Chans all each l name id (some pl) e h c = record {
  own = λ k. IsOf-insert name 0 k name _ l.procs (subst (IsOf name) e (c.own name)) (c.own k);
  of_all_logs = c.of_all_logs;
  of_each = λ k.
      put_back (with_one name id each) name _ l.procs (each name)
        (ids-drop_chan id pl.subs (each name)
          (sym (ap log_ids e) ∙ (c.of_each name ∙ with_one_self name id each)) h)
        c.of_each k
      ∙ back_to each name id k;
}

closed_one-Chans :
    (all : List ℕ) (each : Str → List ℕ) (l : Logger) (name : Str) (id : ℕ)
    → has id (each name) ≡ false
    → Chans all (with_one name id each) l
    → Chans all each (close_stream l (of_one name id))
unfolding close_stream unsubscribe
closed_one-Chans all each l name id h c =
    unsubscribed-Chans all each l name id (lookup name l.procs) refl h c

-- The channels that it has once the stream is open.
subscribed-Chans :
    (l : Logger) (name : Str)
    → ((k : Str) → IsOf k (lookup k l.procs))
    → Chans
        (ids l.all_subs)
        (with_one name l.next_chan (λ k. log_ids (lookup k l.procs)))
        (subscribe l name).0
unfolding subscribe keep ensure
subscribed-Chans l name own =
    let n = ensure_IsOf l.capacity name (lookup name l.procs) (own name) in
    record {
      own = λ k. IsOf-insert name 0 k name _ l.procs n (own k);
      of_all_logs = refl;
      of_each =
          put_back (λ k. log_ids (lookup k l.procs)) name _ l.procs _
            (map-snoc (or_fresh l.capacity name (lookup name l.procs)).subs _
              ∙ ap (λ ns. snoc ns l.next_chan) (ensured-ids l.capacity name (lookup name l.procs)))
            (λ k. refl);
    }

-- What a stream that was opened leaves, for one log.
abbrev Leaves : (ℕ → Str) → Logger → Disk → List Op → Str → Option (Logger × Source) → Type 0
Leaves stamp l d ops name none = Unit
Leaves stamp l d ops name (some (u, src)) =
    let t =
      close_stream (stream_all stamp src (record { logger = u; disk = d; sent = [] }) ops).logger
        src in
    (ids t.all_subs ≡ ids l.all_subs)
    × (log_ids (lookup name t.procs) ≡ log_ids (lookup name l.procs))

module _ (stamp : ℕ → Str) (l : Logger) (d : Disk) (ops : List Op) (name : Str)
    (own : (k : Str) → IsOf k (lookup k l.procs)) where
  all-Leaves :
      has l.next_chan (ids l.all_subs) ≡ false
      → Leaves stamp l d ops name (some ((subscribe_all l).0, of_all l.next_chan))
  unfolding subscribe_all
  all-Leaves h =
      let c =
        closed_all-Chans (ids l.all_subs) (λ k. log_ids (lookup k l.procs)) _ l.next_chan h
          (stream_all-Chans stamp (of_all l.next_chan) _ ops
            (record { own = own; of_all_logs = map-snoc l.all_subs _; of_each = λ k. refl })) in
      (c.of_all_logs, c.of_each name)

  one-Leaves :
      (m : Str)
      → has l.next_chan (log_ids (lookup m l.procs)) ≡ false
      → Leaves stamp l d ops name (some ((subscribe l m).0, of_one m l.next_chan))
  one-Leaves m h =
      let c =
        closed_one-Chans (ids l.all_subs) (λ k. log_ids (lookup k l.procs)) _ m l.next_chan h
          (stream_all-Chans stamp (of_one m l.next_chan) _ ops (subscribed-Chans l m own)) in
      (c.of_all_logs, c.of_each name)

  open-Leaves :
      (r : Request)
      → has l.next_chan (ids l.all_subs) ≡ false
      → has l.next_chan (log_ids (lookup r.app_name l.procs)) ≡ false
      → Leaves stamp l d ops name (open_stream l r)
  unfolding open_stream subscribe subscribe_all
  open-Leaves r a b = elim (Bool-cases r.all) [
    | inl p ↦ rw p (all-Leaves a)
    | inr p ↦ elim (Bool-cases (is_blank r.app_name)) [
      | inl q ↦ rw (p, q) tt
      | inr q ↦ rw (p, q) (one-Leaves r.app_name b)
    ]
  ]

  -- Once a stream is closed, whatever was written and sent in between, every log has the channels
  -- that it had before the stream was opened, and so has the list for all logs: the stream leaves none
  -- behind, and takes none of another one. This is for a logger whose logs are each under their own
  -- name, with a channel that it does not have already.
  pub stream_all-close_stream :
      (req : Request) (u : Logger) (src : Source)
      → has l.next_chan (ids l.all_subs) ≡ false
      → has l.next_chan (log_ids (lookup req.app_name l.procs)) ≡ false
      → open_stream l req ≡ some (u, src)
      → let t =
          close_stream
            (stream_all stamp src (record { logger = u; disk = d; sent = [] }) ops).logger
            src in
        (ids t.all_subs ≡ ids l.all_subs)
        × (log_ids (lookup name t.procs) ≡ log_ids (lookup name l.procs))
  stream_all-close_stream req u src h k e =
      subst (Leaves stamp l d ops name) e (open-Leaves req h k)

-- ===== src/Ipc/Exchange/Events.antt =====
-- What the loop of `Stream` makes of the lines that a stream handler writes.
use gopm.Base.{
  ℕ, zero, suc, ◌≤◌, ◌<◌, ◌≡◌, refl, Bool, Option, none, some, List, [], ◌∷◌, ◌++◌, arith,
  if◌then◌else◌, length, length-append, Str,
}
use gopm.Ipc.{LogEvent}
use gopm.Ipc.Lines.{ended, OneLine, read_line-ended, read_line-unended}
use gopm.Ipc.Client.{on_event, events, stream}

-- The bytes of lines, each with its newline, before some more bytes.
abbrev pub written : List Str → Str → Str
written [] rest = rest
written (body ∷ bodies) rest = ended body ++ written bodies rest

abbrev pub OneLines : List Str → Type 0
OneLines [] = Unit
OneLines (body ∷ bodies) = OneLine body × OneLines bodies

-- The events that the lines stand for; a line that is not an event is skipped.
abbrev pub prepended : Option LogEvent → List LogEvent → List LogEvent
prepended none later = later
prepended (some ev) later = ev ∷ later

abbrev pub decoded : (Str → Option LogEvent) → List Str → List LogEvent
decoded decode [] = []
decoded decode (body ∷ bodies) = prepended (decode (ended body)) (decoded decode bodies)

-- The events up to the first that is refused, that one with them.
abbrev pub until_refused : (LogEvent → Bool) → List LogEvent → List LogEvent
until_refused handler [] = []
until_refused handler (ev ∷ evs) = if handler ev then ev ∷ until_refused handler evs else ev ∷ []

on_event-prepended :
    (decode : Str → Option LogEvent) (handler : LogEvent → Bool) (o : Option LogEvent)
    (later : List LogEvent)
    → on_event decode handler o (until_refused handler later)
      ≡ until_refused handler (prepended o later)
on_event-prepended decode handler none later = refl
on_event-prepended decode handler (some ev) later = refl

events-written :
    (decode : Str → Option LogEvent) (handler : LogEvent → Bool) (f : ℕ) (bodies : List Str)
    (rest : Str)
    → OneLines bodies
    → OneLine rest
    → length bodies < f
    → events decode handler f (written bodies rest) ≡ until_refused handler (decoded decode bodies)
unfolding events
events-written decode handler zero bodies rest bs r h = absurd (omega arith)
events-written decode handler (suc f) [] rest bs r h = rw (read_line-unended rest r, events) refl
events-written decode handler (suc f) (body ∷ bodies) rest bs r h =
    let ih = events-written decode handler f bodies rest bs.1 r (omega arith) in
    rw (read_line-ended body (written bodies rest) bs.0, events, ih)
      (on_event-prepended decode handler _ _)

length-written : (bodies : List Str) (rest : Str) → length bodies ≤ length (written bodies rest)
length-written [] rest = omega arith
length-written (body ∷ bodies) rest = omega (
  arith,
  length-written bodies rest,
  length-append (ended body) (written bodies rest),
  length-append body (10 ∷ []),
)

-- `Stream` gives its handler the events of the lines that arrive, in their order, up to the first
-- that it refuses; lines that are not events are skipped, and so is an unfinished line at the end.
pub stream_of_lines :
    (decode : Str → Option LogEvent) (handler : LogEvent → Bool) (bodies : List Str) (rest : Str)
    → OneLines bodies
    → OneLine rest
    → stream decode handler (written bodies rest) ≡ until_refused handler (decoded decode bodies)
stream_of_lines decode handler bodies rest bs r =
    events-written decode handler (suc (length (written bodies rest))) bodies rest bs r
      (omega (arith, length-written bodies rest))

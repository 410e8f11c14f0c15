-- ===== src/Web/Stream/Frames.antt =====
-- What a reader of server-sent events makes of the stream.
use gopm.Base.{
  ℕ, ◌≡◌, refl, ap, ◌∙◌, false, Option, none, some, List, [], ◌∷◌, ◌++◌, map, append_assoc, arith,
  ◌==◌, ◌||◌, ◌&&◌, not, Bool, if◌then◌else◌, drop, Str, codes, is_blank, has_prefix,
}
use gopm.Ipc.{LogEvent}
use gopm.Web.Stream.{one_line, frame, frames}

-- The first line of a text, and the others. A line ends at a newline, at a carriage return, or at the
-- two together; the last one may be unfinished.
abbrev pub ends_here : ℕ → Str → Bool
ends_here c s = (c == 10) || ((c == 13) && not (has_prefix s (10 ∷ [])))

abbrev pub line_with : ℕ → Str → Str × List Str → Str × List Str
line_with c s (l, ls) =
    if ends_here c s then ([], l ∷ ls) else if c == 13 then (l, ls) else (c ∷ l, ls)

abbrev pub lines : Str → Str × List Str
lines [] = ([], [])
lines (c ∷ s) = line_with c s (lines s)

-- A data field is kept, further ones are added on a new line, and a blank line ends the event.
abbrev pub with_data : Option Str → Str → Str
with_data none data_text = data_text
with_data (some before) data_text = before ++ (10 ∷ data_text)

abbrev pub emitted : Option Str → List Str → List Str
emitted none evs = evs
emitted (some text) evs = text ∷ evs

abbrev pub read_events : Option Str → List Str → List Str
read_events buffer [] = []
read_events buffer (l ∷ ls) =
    if is_blank l
    then emitted buffer (read_events none ls)
    else if has_prefix l (codes "data: ")
    then read_events (some (with_data buffer (drop 6 l))) ls
    else read_events buffer ls

-- The data of the events in a text.
abbrev pub received : Str → List Str
received s = read_events none ((lines s).0 ∷ (lines s).1)

-- No carriage return is in the text.
abbrev pub NoReturn : Str → Type 0
NoReturn [] = Unit
NoReturn (c ∷ s) = ((c == 13) ≡ false) × NoReturn s

-- No line ends in the text.
abbrev NoBreak : Str → Type 0
NoBreak [] = Unit
NoBreak (c ∷ s) = ((c == 10) ≡ false) × ((c == 13) ≡ false) × NoBreak s

NoBreak-one_line : (s : Str) → NoReturn s → NoBreak (one_line s)
NoBreak-one_line [] h = tt
NoBreak-one_line (c ∷ s) (h, k) = (ground arith, ground arith, NoBreak-one_line s k)

lines-append : (s t : Str) → NoBreak s → lines (s ++ (10 ∷ t)) ≡ (s, (lines t).0 ∷ (lines t).1)
lines-append [] t h = refl
lines-append (c ∷ s) t (h, k, l) = rw (lines-append s t l, h, k) refl

received-frame :
    (ev : LogEvent) (t : Str)
    → NoReturn ev.line
    → received (frame ev ++ t) ≡ one_line ev.line ∷ received t
unfolding frame codes has_prefix
received-frame ev t h =
    let x = one_line ev.line in
    let e : (x ++ (10 ∷ 10 ∷ [])) ++ t ≡ x ++ (10 ∷ (10 ∷ t)) = append_assoc x (10 ∷ 10 ∷ []) t in
    let l = lines-append x (10 ∷ t) (NoBreak-one_line ev.line h) in rw (e, l) refl

abbrev pub NoReturns : List LogEvent → Type 0
NoReturns [] = Unit
NoReturns (ev ∷ evs) = NoReturn ev.line × NoReturns evs

-- A reader of server-sent events, for which a newline, a carriage return or both end a line, gets the
-- lines of the log one by one and in their order, each as one event, with spaces for the newlines in
-- it; where no line of the log has a carriage return, after which its text would be lost.
pub received-frames :
    (evs : List LogEvent)
    → NoReturns evs
    → received (frames evs) ≡ map (λ (ev : LogEvent). one_line ev.line) evs
received-frames [] h = refl
received-frames (ev ∷ evs) (h, k) =
    received-frame ev (frames evs) h ∙ ap (λ z. one_line ev.line ∷ z) (received-frames evs k)

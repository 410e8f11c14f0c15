-- ===== src/Web/Stream.antt =====
-- internal/web/server.go: `handleLogStream`, the log of a process as server-sent events.
pub mod Frames
use gopm.Base.{
  ℕ, zero, suc, ◌+◌, ◌-◌, ◌*◌, ◌/◌, ◌%◌, ◌^◌, ◌≤◌, ◌<◌, min, ◌≡◌, refl, sym, ap, ◌∙◌, ◌≢◌, ◌↔◌, ◌⊎◌,
  inl, inr, Bool, true, false, not, ◌&&◌, ◌||◌, Option, none, some, List, [], ◌∷◌, ◌++◌, map,
  append-nil, append_assoc, arith, ltb, leb, ◌==◌, if◌then◌else◌, ltb→lt, lt→ltb, leb→le, ==_iff,
  Bool-cases, Option-cases, length, get_or, set, take, drop, replicate, snoc, select, any, every,
  is_empty, last_n, length-append, length-set, get_or-set_self, get_or-set_ne, length-replicate,
  length-drop, drop_all, drop-append_left, drop-drop, drop-zero_eq, Str, codes, str_eq, is_blank,
  has_prefix, contains, str_eq_refl, eq_of_str_eq, str_eq_iff, has_prefix-append, has_prefix_iff,
}
use gopm.Ipc.{cmd_log_stream, Request, LogEvent}
use gopm.Cli.Commands.{about}
use gopm.Web.{Reply, http_error, not_found, events, trim_prefix}

-- `strings.HasSuffix`
abbrev pub has_suffix : Str → Str → Bool
has_suffix s p = leb (length p) (length s) && str_eq (drop (length s - length p) s) p

-- `strings.ReplaceAll(line, "\n", " ")`
abbrev pub one_line : Str → Str
one_line = map (λ (c : ℕ). if c == 10 then 32 else c)

-- What is written of one event.
unfoldable pub frame : LogEvent → Str
frame ev = codes "data: " ++ (one_line ev.line ++ (10 ∷ 10 ∷ []))

abbrev pub frames : List LogEvent → Str
frames [] = []
frames (ev ∷ evs) = frame ev ++ frames evs

abbrev pub stream_request : Str → Request
stream_request name = record (about cmd_log_stream name) { follow = true }

-- `can_flush` is whether the writer is an http.Flusher; `stream` the events that the client gives to
-- its handler until the connection or the context ends.
unfoldable pub handle_log_stream : Bool → (Request → List LogEvent) → Str → Reply
handle_log_stream can_flush stream url =
    let path = trim_prefix (codes "/api/logs/") url in
    let name = take (length path - length (codes "/stream")) path in
    if not (has_suffix path (codes "/stream"))
    then not_found
    else if is_blank name
    then http_error 400 (codes "missing process name")
    else if not can_flush
    then http_error 500 (codes "streaming not supported")
    else events (frames (stream (stream_request name)))

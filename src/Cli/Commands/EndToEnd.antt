-- ===== src/Cli/Commands/EndToEnd.antt =====
-- `gopm stop` and the daemon together.
use gopm.Base.{◌≡◌, refl, ◌∙◌, inl, inr, true, false, Option, some, List, ◌∷◌, Bool-cases, Str}
use gopm.Ipc.{cmd_stop, Request, Response}
use gopm.Ipc.Lines.{ended, OneLine}
use gopm.Ipc.Client.{SendResult, answered, send}
use gopm.Ipc.Server.{is_streaming, handle}
use gopm.Ipc.Exchange.{connected, Readable, send-handle}
use gopm.Cli.Shell.{print_line, World, Shell, returned, and_then, request}
use gopm.Cli.Commands.{about, stop_command}
use gopm.Daemon.{Daemon, serve}
use gopm.Supervisor.Loop.{Event}
use gopm.Supervisor.Rpc
use gopm.Supervisor.Rpc.{handler}
use gopm.Supervisor.Rpc.Promise.{Stopped, handler_lem}

module _ (encode_req : Request → Option Str) (decode_req : Str → Option Request)
    (encode_resp : Response → Str) (decode_resp : Str → Option Response) (json_error : Str → Str)
    (stream_handler : Option (Daemon → Request → Daemon × Str)) (v : Rpc.World)
    (es : List Event) where
  -- The handler that the daemon gives its server.
  abbrev pub answer : Daemon → Request → Daemon × Option Response
  answer d req = let (u, resp) = serve v es d req in (u, some resp)

  -- What a request that is written as `body` does to the daemon, and what its sender gets, over a
  -- connection on which nothing fails.
  abbrev pub over_connection : Str → Daemon → Request → Daemon × SendResult
  over_connection body d req = (
    (handle decode_req encode_resp json_error answer stream_handler d (ended body)).0,
    send encode_req decode_resp
        (connected encode_req decode_req encode_resp decode_resp json_error answer stream_handler d)
        req,
  )

  over_connection-serve :
      (body : Str) (d : Daemon) (req : Request)
      → encode_req req ≡ some body
      → OneLine body
      → decode_req (ended body) ≡ some req
      → is_streaming req.command ≡ false
      → Readable encode_req decode_req encode_resp decode_resp json_error answer stream_handler d
          (serve v es d req).1
      → over_connection body d req ≡ ((serve v es d req).0, answered (serve v es d req).1)
  over_connection-serve body d req e o b k r =
      let (p, q) =
        send-handle encode_req decode_req encode_resp decode_resp json_error answer stream_handler d
          req body e o b k r in
      rw (p, q) refl

  -- A command that goes on after a request got an answer that says OK.
  request-ok :
      (w : World Daemon) (h u : Shell Daemon) (d : Daemon) (req : Request) (resp : Response)
      → w.send h.state req ≡ (d, answered resp)
      → and_then (request w req h) (λ (x : Response). print_line x.message) ≡ returned tt u
      → (resp.ok ≡ true) × (u.state ≡ d)
  request-ok w h u d req resp e g = elim (Bool-cases resp.ok) [
    | inl o ↦ let k = rw (e, o) at g in (o, cc)
    | inr o ↦ let k = rw (e, o) at g in absurd cc
  ]

  -- Where `gopm stop` of a name returns, over a connection on which nothing fails, where the
  -- request and the response are each written as one line and read back, the daemon has the process of this name, and its goroutine
  -- has ended.
  pub stop_command-Stopped :
      (w : World Daemon) (name : Str) (args : List Str) (h u : Shell Daemon) (body : Str)
      → encode_req (about cmd_stop name) ≡ some body
      → OneLine body
      → decode_req (ended body) ≡ some (about cmd_stop name)
      → Readable encode_req decode_req encode_resp decode_resp json_error answer stream_handler
          h.state
          (serve v es h.state (about cmd_stop name)).1
      → w.send h.state (about cmd_stop name) ≡ over_connection body h.state (about cmd_stop name)
      → stop_command w (name ∷ args) h ≡ returned tt u
      → Stopped name u.state.sup
  unfolding stop_command serve
  stop_command-Stopped w name args h u body e o b r link g =
      let req : Request = about cmd_stop name in
      let s = over_connection-serve body h.state req e o b refl r in
      let (ok, st) = request-ok w h u _ req _ (link ∙ s) g in
      rw st ((handler_lem v es h.state.sup req).0 ok)

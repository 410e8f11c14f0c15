-- ===== src/Web/Listening.antt =====
-- `Server`, `New` and `Serve` of internal/web/server.go: the listener in its goroutine, and the wait
-- for its end or for the end of the context.
use gopm.Base.{Option, none, some, ◌++◌, Str, codes}

pub record Server : Type 0 where
  pub addr : Str
  pub ipc_addr : Str

abbrev web_server : Str → Str → Server
web_server addr ipc_addr = record { addr = addr; ipc_addr = ipc_addr }

-- How `ListenAndServe` ends.
pub data ListenEnd : Type 0 where
  no_error server_closed : ListenEnd
  listen_failed : Str → ListenEnd

-- What is received from `errCh` once the goroutine has closed it: the error that it sent, or nil.
abbrev from_err_ch : ListenEnd → Option Str
from_err_ch no_error = none
from_err_ch server_closed = none
from_err_ch (listen_failed e) = some e

-- The arm of the `select` in `Serve`: the context is done, and `Shutdown` has returned its error, or
-- the listener has ended.
pub data WebEvent : Type 0 where
  ctx_done : Option Str → WebEvent
  listener_done : ListenEnd → WebEvent

abbrev awaited : WebEvent → Option Str
awaited (ctx_done shut) = shut
awaited (listener_done e) = from_err_ch e

-- `Serve` on the error of fs.Sub and the arm that is taken: the error that it returns.
unfoldable serve_web : Option Str → WebEvent → Option Str
serve_web (some e) ev = some (codes "web: embed sub: " ++ e)
serve_web none ev = awaited ev

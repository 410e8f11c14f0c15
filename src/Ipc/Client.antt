-- ===== src/Ipc/Client.antt =====
-- internal/ipc/client.go: a client and its exchanges with the daemon. The network is what succeeds of it, and the
-- bytes that come back for those sent; the JSON codec is a parameter.
use gopm.Base.{
  ℕ, zero, suc, Bool, false, not, Option, none, some, List, [], ◌∷◌, if◌then◌else◌, length, Str,
}
use gopm.Base.Int.{ℤ}
use gopm.Ipc.{cmd_ping, Request, Response, LogEvent}
use gopm.Ipc.Lines.{read_line, ended}

pub data SendError : Type 0 where
  dial set_deadline marshal_request write_request read_response parse_response : SendError

pub data SendResult : Type 0 where
  answered : Response → SendResult
  failed : SendError → SendResult

pub record Network : Type 0 where
  pub dials : Bool
  pub sets_deadline : Bool
  pub writes : Bool
  pub reply : Str → Str

-- `timeout` is in nanoseconds.
pub record Client : Type 0 where
  pub addr : Str
  pub timeout : ℕ

-- `NewClient` and `NewClientWithTimeout`
abbrev pub new_client : Str → Client
new_client addr = record { addr = addr; timeout = 30_000_000_000 }

abbrev pub new_client_with_timeout : Str → ℕ → Client
new_client_with_timeout addr timeout = record { addr = addr; timeout = timeout }

-- The request and the client of `Ping`.
abbrev pub ping_request : Request
ping_request = record {
  command = cmd_ping;
  app_name = [];
  apps = [];
  config = none;
  lines = ℤ.pos 0;
  follow = false;
  all = false;
  group = [];
  exec_args = [];
  since = [];
  grep = [];
}

abbrev pub ping_client : Str → Client
ping_client addr = record { addr = addr; timeout = 500_000_000 }

abbrev pub error_of : SendResult → Option SendError
error_of (answered resp) = none
error_of (failed e) = some e

module _ (encode_req : Request → Option Str) (decode_resp : Str → Option Response) where
  abbrev pub parsed : Option Response → SendResult
  parsed none = failed parse_response
  parsed (some resp) = answered resp

  abbrev pub on_reply : Option (Str × Str) → SendResult
  on_reply none = failed read_response
  on_reply (some (line, rest)) = parsed (decode_resp line)

  abbrev pub exchange : Network → Option Str → SendResult
  exchange n none = failed marshal_request
  exchange n (some body) =
      if n.writes then on_reply (read_line (n.reply (ended body))) else failed write_request

  -- `Send`
  unfoldable pub send : Network → Request → SendResult
  send n req =
      if not n.dials
      then failed dial
      else if not n.sets_deadline
      then failed set_deadline
      else exchange n (encode_req req)

  -- `Ping`, over the network that a client of this address and timeout has.
  abbrev pub ping : (Client → Network) → Str → Option SendError
  ping network addr = error_of (send (network (ping_client addr)) ping_request)

-- The loop of `Stream`: the events that the handler is given, which refuses one by `false`. `f` is
-- the number of rounds, and each takes a byte at least.
module _ (decode_event : Str → Option LogEvent) (handler : LogEvent → Bool) where
  abbrev pub given : LogEvent → List LogEvent → List LogEvent
  given ev later = if handler ev then ev ∷ later else ev ∷ []

  abbrev pub on_event : Option LogEvent → List LogEvent → List LogEvent
  on_event none later = later
  on_event (some ev) later = given ev later

  unfoldable pub events : ℕ → Str → List LogEvent
  events zero input = []
  events (suc f) input = elim (read_line input) [
    | none ↦ []
    | some (line, rest) ↦ let later = events f rest in on_event (decode_event line) later
  ]

  -- `Stream`, once the request is written.
  abbrev pub stream : Str → List LogEvent
  stream input = events (suc (length input)) input

  -- `Stream`: its error, and the events.
  abbrev pub stream_body : Network → Option Str → Option SendError × List LogEvent
  stream_body n none = (some marshal_request, [])
  stream_body n (some body) =
      if n.writes then (none, stream (n.reply (ended body))) else (some write_request, [])

  unfoldable pub stream_request :
      (Request → Option Str) → Network → Request → Option SendError × List LogEvent
  stream_request encode_req n req =
      if n.dials then stream_body n (encode_req req) else (some dial, [])

-- ===== src/Ipc/Server.antt =====
-- internal/ipc/server.go: what the server does with one connection. The connection is the bytes that
-- arrive and the bytes that are written back; the JSON codec, and the state that the two handlers
-- work on, are parameters. Accept is the server around it.
use gopm.Base.{Bool, true, false, Option, none, some, [], ◌++◌, if◌then◌else◌, Str, codes}
use gopm.Ipc.{CommandType, cmd_log_stream, cmd_exec, Request, Response}
use gopm.Ipc.Lines.{read_line, ended}

abbrev pub is_streaming : CommandType → Bool
is_streaming cmd_log_stream = true
is_streaming cmd_exec = true
is_streaming _ = false

abbrev pub refusal : Str → Response
refusal text = record { ok = false; error = text; processes = []; logs = []; message = [] }

-- `resp` after the test `resp == nil`.
abbrev pub or_ok : Option Response → Response
or_ok none = record { ok = true; error = []; processes = []; logs = []; message = [] }
or_ok (some resp) = resp

-- `decode_req` is json.Unmarshal on a line, `encode_resp` what json.Encoder writes but for the
-- newline, `json_error` the text of a decoding error.
module _ {S : Type 0} (decode_req : Str → Option Request) (encode_resp : Response → Str)
    (json_error : Str → Str) (handler : S → Request → S × Option Response)
    (stream_handler : Option (S → Request → S × Str)) where
  -- `writeResp`
  abbrev pub write_resp : Response → Str
  write_resp resp = ended (encode_resp resp)

  abbrev pub streamed : Option (S → Request → S × Str) → S → Request → S × Str
  streamed none s req = (s, write_resp (refusal (codes "streaming not supported")))
  streamed (some sh) s req = sh s req

  abbrev pub replied : S × Option Response → S × Str
  replied (s, resp) = (s, write_resp (or_ok resp))

  abbrev pub on_request : S → Str → Option Request → S × Str
  on_request s line none = (s, write_resp (refusal (codes "invalid json: " ++ json_error line)))
  on_request s line (some req) =
      if is_streaming req.command then streamed stream_handler s req else replied (handler s req)

  abbrev pub on_line : S → Option (Str × Str) → S × Str
  on_line s none = (s, [])
  on_line s (some (line, rest)) = on_request s line (decode_req line)

  -- `handle`
  unfoldable pub handle : S → Str → S × Str
  handle s input = on_line s (read_line input)

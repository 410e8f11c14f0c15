-- ===== src/Ipc/Exchange.antt =====
-- The client and the server together.
pub mod Events
use gopm.Base.{
  ℕ, zero, suc, ◌+◌, ◌-◌, ◌*◌, ◌/◌, ◌%◌, ◌^◌, ◌≤◌, ◌<◌, min, ◌≡◌, refl, sym, ap, ◌∙◌, ◌≢◌, ◌↔◌, ◌⊎◌,
  inl, inr, Bool, true, false, not, ◌&&◌, ◌||◌, Option, none, some, List, [], ◌∷◌, ◌++◌, map,
  append-nil, append_assoc, arith, ltb, leb, ◌==◌, if◌then◌else◌, ltb→lt, lt→ltb, leb→le, ==_iff,
  Bool-cases, Option-cases, length, get_or, set, take, drop, replicate, snoc, select, any, every,
  is_empty, last_n, length-append, length-set, get_or-set_self, get_or-set_ne, length-replicate,
  length-drop, drop_all, drop-append_left, drop-drop, drop-zero_eq, Str, codes, str_eq, is_blank,
  has_prefix, contains, str_eq_refl, eq_of_str_eq, str_eq_iff, has_prefix-append, has_prefix_iff,
}
use gopm.Ipc.{Request, Response}
use gopm.Ipc.Lines.{read_line, ended, OneLine, read_line-ended}
use gopm.Ipc.Server.{is_streaming, refusal, or_ok, on_line, on_request, handle, replied, streamed}
use gopm.Ipc.Client.{Network, SendResult, answered, send, exchange, on_reply, parsed}

module _ {S : Type 0} (encode_req : Request → Option Str) (decode_req : Str → Option Request)
    (encode_resp : Response → Str) (decode_resp : Str → Option Response) (json_error : Str → Str)
    (handler : S → Request → S × Option Response) (stream_handler : Option (S → Request → S × Str))
    (s : S) where
  abbrev pub serve : Str → S × Str
  serve = handle decode_req encode_resp json_error handler stream_handler s

  -- A network on which nothing fails, with the server at the other end.
  abbrev pub connected : Network
  connected = record {
    dials = true;
    sets_deadline = true;
    writes = true;
    reply = λ input. (serve input).1;
  }

  -- A response that is written as a line of its own, and read back as itself.
  abbrev pub Readable : Response → Type 0
  Readable resp = OneLine (encode_resp resp) × (decode_resp (ended (encode_resp resp)) ≡ some resp)

  module _ (req : Request) (body : Str) (encoded : encode_req req ≡ some body)
      (one_line : OneLine body) where
    request-line : read_line (ended body) ≡ some (ended body, [])
    request-line = ap read_line (sym (append-nil (ended body))) ∙ read_line-ended body [] one_line

    response-line :
        (resp : Response)
        → Readable resp
        → on_reply encode_req decode_resp (read_line (ended (encode_resp resp))) ≡ answered resp
    response-line resp (r0, r1) =
        let e : read_line (ended (encode_resp resp)) ≡ some (ended (encode_resp resp), []) =
          ap read_line (sym (append-nil (ended (encode_resp resp))))
          ∙ read_line-ended (encode_resp resp) [] r0 in
        rw (e, r1) refl

    send-serve :
        send encode_req decode_resp connected req
        ≡ on_reply encode_req decode_resp (read_line (serve (ended body)).1)
    unfolding send
    send-serve = rw encoded refl

    -- What the server makes of the line.
    serve-on_request :
        serve (ended body)
        ≡ on_request decode_req encode_resp json_error handler stream_handler s
            (ended body)
            (decode_req (ended body))
    unfolding handle
    serve-on_request = rw request-line refl

    -- What the client gets where the server writes one readable response.
    send_of_serve :
        (t : S) (resp : Response)
        → Readable resp
        → serve (ended body) ≡ (t, ended (encode_resp resp))
        → (send encode_req decode_resp connected req ≡ answered resp) × ((serve (ended body)).0 ≡ t)
    send_of_serve t resp r e = (send-serve ∙ rw e (response-line resp r), ap (λ p. p.0) e)

    -- Where the server reads back the request that the client wrote, and the request is not a streaming
    -- one, the client gets what the request's handler answered, `ok` where that is nothing, and the
    -- handler's state is the server's.
    pub send-handle :
        decode_req (ended body) ≡ some req
        → is_streaming req.command ≡ false
        → Readable (or_ok (handler s req).1)
        → (send encode_req decode_resp connected req ≡ answered (or_ok (handler s req).1))
          × ((handle decode_req encode_resp json_error handler stream_handler s (ended body)).0
              ≡ (handler s req).0)
    send-handle d k r =
        send_of_serve (handler s req).0 (or_ok (handler s req).1) r
          (serve-on_request ∙ rw (d, k) refl)

    -- Why the server refuses a request without looking at it further, and the text of its answer.
    pub data Refused : Str → Type 0 where
      undecodable :
          decode_req (ended body) ≡ none
          → Refused (codes "invalid json: " ++ json_error (ended body))
      unsupported :
          decode_req (ended body) ≡ some req
          → is_streaming req.command ≡ true
          → stream_handler ≡ none
          → Refused (codes "streaming not supported")

    -- A line that the server cannot decode, and a streaming request where the server has no handler
    -- for them, are answered by a refusal that the client gets, and leave the server's state as it was.
    pub send-Refused :
        {text : Str}
        → Refused text
        → Readable (refusal text)
        → (send encode_req decode_resp connected req ≡ answered (refusal text))
          × ((handle decode_req encode_resp json_error handler stream_handler s (ended body)).0 ≡ s)
    send-Refused (undecodable d) r = send_of_serve s (refusal _) r (serve-on_request ∙ rw d refl)
    send-Refused (unsupported d k n) r =
        send_of_serve s (refusal _) r (serve-on_request ∙ rw (d, k, n) refl)

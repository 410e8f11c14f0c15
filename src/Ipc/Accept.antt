-- ===== src/Ipc/Accept.antt =====
-- internal/ipc/server.go: the server from NewServer to the return of Serve, as a machine. Its steps
-- are the calls of Listen, Serve and Close, the answers of package net, the end of the context, and
-- the goroutines: the one that closes the listener, and one for each connection, which all run at the
-- same time. The machine knows when a connection's goroutine begins and ends and what it has
-- written; `Server` has what it does. A listener is a number, and `sockets` are the open ones.
pub mod Arrivals
pub mod Wired
pub mod Falls
pub mod Ending
pub mod Return
pub mod Unstopped
use gopm.Base.{
  ℕ, zero, suc, ◌+◌, ◌-◌, ◌*◌, ◌/◌, ◌%◌, ◌^◌, ◌≤◌, ◌<◌, min, ◌≡◌, refl, sym, ap, ◌∙◌, ◌≢◌, ◌↔◌, ◌⊎◌,
  inl, inr, Bool, true, false, not, ◌&&◌, ◌||◌, Option, none, some, List, [], ◌∷◌, ◌++◌, map,
  append-nil, append_assoc, arith, ltb, leb, ◌==◌, if◌then◌else◌, ltb→lt, lt→ltb, leb→le, ==_iff,
  Bool-cases, Option-cases, length, get_or, set, take, drop, replicate, snoc, select, any, every,
  is_empty, last_n, length-append, length-set, get_or-set_self, get_or-set_ne, length-replicate,
  length-drop, drop_all, drop-append_left, drop-drop, drop-zero_eq, Str, codes, str_eq, is_blank,
  has_prefix, contains, str_eq_refl, eq_of_str_eq, str_eq_iff, has_prefix-append, has_prefix_iff,
}

-- Where the goroutine that calls Serve stands: not yet there, at `ln.Accept()`, at `s.wg.Wait()`,
-- and after the return of nil and of the error.
pub data Serving : Type 0 where
  not_called : Serving
  accepting : ℕ → Serving
  waiting : Serving
  returned : Serving
  refused : Str → Serving

-- The same for Close, which does not return an error.
pub data Closing : Type 0 where
  not_closed closing closed : Closing

-- What a connection was sent, and what was written back.
pub record Handled : Type 0 where
  pub input : Str
  pub output : Str

-- `closer` is the goroutine of Serve that waits for the context, with its listener; `in_flight` are
-- the connections that `wg` counts, by what they send; `handled` are those that were closed, the
-- latest first. `S` are the handlers: what they do to the daemon is not a part of this machine.
pub record Server (S : Type 0) : Type 0 where
  pub addr : Str
  pub stream_handler : Option S
  pub listener : Option ℕ
  pub sockets : List ℕ
  pub fresh : ℕ
  pub cancelled : Bool
  pub serving : Serving
  pub closing : Closing
  pub closer : Option ℕ
  pub in_flight : List Str
  pub handled : List Handled
  pub request_handler : S

-- `NewServer`
abbrev pub new_server : {S : Type 0} → Str → S → Server S
new_server addr handler = record {
  addr = addr;
  stream_handler = none;
  listener = none;
  sockets = [];
  fresh = 0;
  cancelled = false;
  serving = not_called;
  closing = not_closed;
  closer = none;
  in_flight = [];
  handled = [];
  request_handler = handler;
}

-- `SetStreamHandler`
abbrev pub set_stream_handler : {S : Type 0} → S → Server S → Server S
set_stream_handler h s = record s { stream_handler = some h }

-- `Listen`, given the error of net.Listen.
abbrev pub listen : {S : Type 0} → Option Str → Server S → Server S × Option Str
listen (some err) s = (s, some (codes "ipc listen " ++ s.addr ++ codes ": " ++ err))
listen none s =
    (record s { listener = some s.fresh; sockets = s.fresh ∷ s.sockets; fresh = s.fresh + 1 }, none)

-- `ln.Close()`
abbrev pub without : ℕ → List ℕ → List ℕ
without ln sockets = select (λ i. not (i == ln)) sockets

abbrev pub is_open : ℕ → List ℕ → Bool
is_open ln sockets = any (λ i. i == ln) sockets

-- `Serve` up to the loop.
abbrev pub serve_on : {S : Type 0} → Option ℕ → Server S → Server S
serve_on none s = record s { serving = refused (codes "ipc: Serve called before Listen") }
serve_on (some ln) s = record s { serving = accepting ln; closer = some ln }

-- `Close` up to its wait.
abbrev pub close_on : {S : Type 0} → Option ℕ → Server S → Server S
close_on none s = record s { closing = closing }
close_on (some ln) s = record s {
  listener = none;
  sockets = without ln s.sockets;
  closing = closing;
}

-- What is at a place of a list, and the list without it.
abbrev pub pull : List Str → ℕ → Option (Str × List Str)
pull [] i = none
pull (x ∷ xs) zero = some (x, xs)
pull (x ∷ xs) (suc i) = let o = pull xs i in elim o [ none ↦ none | some q ↦ some (q.0, x ∷ q.1) ]

-- Calls of Listen, with the error of net.Listen, of Serve and of Close; the end of the context; the
-- goroutine that closes the listener; the two answers of `ln.Accept()`, where an error can have
-- other causes than a listener that is closed, such as too many open files; the end of a
-- connection's goroutine, with what it has written; and the two ends of `s.wg.Wait()`.
pub data Event : Type 0 where
  listens : Option Str → Event
  serves : Event
  closes : Event
  cancels : Event
  closer_runs : Event
  accepts : Str → Event
  accept_fails : Event
  finishes : ℕ → Str → Event
  drained : Event
  close_returns : Event

module _ {S : Type 0} where
  -- The goroutine of one connection: `s.handle`, which wrote `output`, then `s.wg.Done()`.
  abbrev pub finish : Str → Option (Str × List Str) → Server S → Option (Server S)
  finish output none s = none
  finish output (some (input, rest)) s = some (record s {
    in_flight = rest;
    handled = record { input = input; output = output } ∷ s.handled;
  })

  -- A connection is accepted from a listener that is open, and counted before its goroutine starts.
  abbrev pub on_accept : Str → Serving → Server S → Option (Server S)
  on_accept input (accepting ln) s =
      if is_open ln s.sockets then some (record s { in_flight = snoc s.in_flight input }) else none
  on_accept input _ s = none

  abbrev pub on_accept_error : Serving → Server S → Option (Server S)
  on_accept_error (accepting ln) s =
      some (if s.cancelled then record s { serving = waiting } else s)
  on_accept_error _ s = none

  abbrev pub on_serve : Serving → Server S → Option (Server S)
  on_serve not_called s = some (serve_on s.listener s)
  on_serve _ s = none

  abbrev pub on_drained : Serving → Server S → Option (Server S)
  on_drained waiting s =
      if is_empty s.in_flight then some (record s { serving = returned }) else none
  on_drained _ s = none

  abbrev pub on_close : Closing → Server S → Option (Server S)
  on_close not_closed s = some (close_on s.listener s)
  on_close _ s = none

  abbrev pub on_close_return : Closing → Server S → Option (Server S)
  on_close_return closing s =
      if is_empty s.in_flight then some (record s { closing = closed }) else none
  on_close_return _ s = none

  abbrev pub on_closer : Option ℕ → Server S → Option (Server S)
  on_closer none s = none
  on_closer (some ln) s =
      if s.cancelled
      then some (record s { sockets = without ln s.sockets; closer = none })
      else none

  -- One step, where it can happen.
  unfoldable pub step : Server S → Event → Option (Server S)
  step s (listens err) = some (listen err s).0
  step s serves = on_serve s.serving s
  step s closes = on_close s.closing s
  step s cancels = some (record s { cancelled = true })
  step s closer_runs = on_closer s.closer s
  step s (accepts input) = on_accept input s.serving s
  step s accept_fails = on_accept_error s.serving s
  step s (finishes i output) = finish output (pull s.in_flight i) s
  step s drained = on_drained s.serving s
  step s close_returns = on_close_return s.closing s

  -- The steps of a list, `none` where one of them cannot happen.
  unfoldable pub run : Server S → List Event → Option (Server S)
  run s [] = some s
  run s (e ∷ es) = elim (step s e) [ none ↦ none | some t ↦ run t es ]

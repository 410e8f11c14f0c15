-- ===== src/Scenarios/Servers.antt =====
-- A server that accepts two connections and ends, and one that is closed without that.
use gopm.Base.{ℕ, ◌+◌, ◌≤◌, ◌≡◌, refl, true, false, none, some, List, [], ◌∷◌}
use gopm.Ipc.Lines.{read_line, ended}
use gopm.Ipc.Server.{handle}
use gopm.Ipc.Accept.{
  Server, Event, accepting, returned, closing, not_closed, close_returns, listens, serves, closes,
  cancels, closer_runs, accepts, accept_fails, finishes, drained, step, run,
}
use gopm.Ipc.Accept.Falls.{works, rank}
use gopm.Ipc.Accept.Ending.{works_bounded, is_due}
use gopm.Ipc.Accept.Return.{serve_ends}
use gopm.Ipc.Accept.Unstopped.{serve-unstopped}
use gopm.Scenarios.{web, db}

abbrev last : Server ℕ
last = record {
  addr = web;
  stream_handler = none;
  listener = some 0;
  sockets = [];
  fresh = 1;
  cancelled = true;
  serving = returned;
  closing = not_closed;
  closer = none;
  in_flight = [];
  handled =
      record { input = ended web; output = db } ∷ record { input = ended db; output = db } ∷ [];
  request_handler = 2;
}

-- The same server before the end of the context.
abbrev busy : Server ℕ
busy = record last {
  sockets = 0 ∷ [];
  cancelled = false;
  serving = accepting 0;
  closer = some 0;
  in_flight = ended web ∷ [];
  handled = [];
}

abbrev ending : List Event
ending = closer_runs ∷ finishes 0 db ∷ accept_fails ∷ drained ∷ []

abbrev cancelled_server : Server ℕ
cancelled_server = record busy { cancelled = true }

abbrev ended_server : Server ℕ
ended_server = record last { handled = record { input = ended web; output = db } ∷ [] }

works_bounded_example : works ending + rank ended_server ≤ rank cancelled_server + 0
unfolding run step handle read_line
works_bounded_example = works_bounded cancelled_server ended_server ending refl refl

nothing_left : (e : Event) → is_due ended_server e ≡ true → step ended_server e ≡ none
unfolding step
nothing_left closer_runs h = refl
nothing_left accept_fails h = refl
nothing_left (finishes i output) h = refl
nothing_left drained h = refl
nothing_left (listens err) h = cc
nothing_left serves h = cc
nothing_left closes h = cc
nothing_left cancels h = cc
nothing_left (accepts input) h = cc
nothing_left close_returns h = cc

serve_ends_example : ended_server.serving ≡ returned
unfolding run step
serve_ends_example =
    serve_ends web 2 (listens none ∷ serves ∷ accepts (ended web) ∷ []) (cancels ∷ ending) busy
      ended_server refl refl refl refl nothing_left

-- A server that is closed, and goes on.
abbrev closed_server : Server ℕ
closed_server = record busy { listener = none; sockets = []; closing = closing }

serve-unstopped_example :
    (closed_server.serving ≡ accepting 0) × (step closed_server accept_fails ≡ some closed_server)
unfolding run step
serve-unstopped_example =
    serve-unstopped 0 busy closed_server (closes ∷ accept_fails ∷ accept_fails ∷ []) refl refl refl

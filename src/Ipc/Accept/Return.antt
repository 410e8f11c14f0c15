-- ===== src/Ipc/Accept/Return.antt =====
-- That Serve returns where nothing is left to do.
use gopm.Base.{
  ℕ, ◌≡◌, refl, ◌≢◌, ◌⊎◌, inl, inr, Bool, true, false, Option, none, some, List, [], ◌∷◌,
  if◌then◌else◌, Option-cases, snoc, is_empty, Str,
}
use gopm.Ipc.Accept.{
  Server, Serving, Event, not_called, accepting, waiting, returned, refused, accept_fails, finishes,
  drained, step, run, Closing, not_closed, closing, closed, listens, serves, closes, cancels,
  closer_runs, accepts, close_returns, on_accept, on_accept_error, on_serve, on_drained, on_close,
  on_close_return, on_closer, finish, pull, is_open, without, new_server,
}
use mathlib.Core.Path.{subst}
use gopm.Ipc.Accept.Arrivals.{Each, Each-if}
use gopm.Ipc.Accept.Wired.{Wired, run-Wired, new_server-Wired}
use gopm.Ipc.Accept.Ending.{is_serving, serve_progress, is_due}

is_serving-not_called : (p : Serving) → p ≡ not_called → is_serving p ≢ true
is_serving-not_called p e h = cc

returned-not_called : (p : Serving) → p ≡ not_called → p ≢ returned
returned-not_called p e h = cc

module _ {S : Type 0} where
  -- Serve has been called, and has not been refused.
  abbrev Called : Server S → Type 0
  Called s = (is_serving s.serving ≡ true) ⊎ (s.serving ≡ returned)

  on_accept-Called :
      (s : Server S) (input : Str) (p : Serving) → Called s → Each Called (on_accept input p s)
  on_accept-Called s input (accepting ln) c =
      Each-if Called (is_open ln s.sockets) (record s { in_flight = snoc s.in_flight input }) λ o. c
  on_accept-Called s input not_called c = tt
  on_accept-Called s input waiting c = tt
  on_accept-Called s input returned c = tt
  on_accept-Called s input (refused err) c = tt

  on_accept_error-Called :
      (s : Server S) (p : Serving) → Called s → Each Called (on_accept_error p s)
  on_accept_error-Called s (accepting ln) c = waits_or_not s.cancelled s c
    where
      waits_or_not :
          (b : Bool) (t : Server S)
          → Called t
          → Called (if b then record t { serving = waiting } else t)
      waits_or_not true t k = inl refl
      waits_or_not false t k = k
  on_accept_error-Called s not_called c = tt
  on_accept_error-Called s waiting c = tt
  on_accept_error-Called s returned c = tt
  on_accept_error-Called s (refused err) c = tt

  on_serve-Called :
      (s : Server S) (p : Serving) → s.serving ≡ p → Called s → Each Called (on_serve p s)
  on_serve-Called s not_called e (inl h) = absurd (is_serving-not_called s.serving e h)
  on_serve-Called s not_called e (inr h) = absurd (returned-not_called s.serving e h)
  on_serve-Called s (accepting ln) e c = tt
  on_serve-Called s waiting e c = tt
  on_serve-Called s returned e c = tt
  on_serve-Called s (refused err) e c = tt

  on_drained-Called : (s : Server S) (p : Serving) → Each Called (on_drained p s)
  on_drained-Called s waiting =
      Each-if Called (is_empty s.in_flight) (record s { serving = returned }) λ o. inr refl
  on_drained-Called s not_called = tt
  on_drained-Called s (accepting ln) = tt
  on_drained-Called s returned = tt
  on_drained-Called s (refused err) = tt

  on_close-Called : (s : Server S) (p : Closing) → Called s → Each Called (on_close p s)
  on_close-Called s not_closed c = elim (Option-cases s.listener) [
    | inl n ↦ rw n c
    | inr (ln, n) ↦ rw n c
  ]
  on_close-Called s closing c = tt
  on_close-Called s closed c = tt

  on_close_return-Called :
      (s : Server S) (p : Closing) → Called s → Each Called (on_close_return p s)
  on_close_return-Called s closing c =
      Each-if Called (is_empty s.in_flight) (record s { closing = closed }) λ o. c
  on_close_return-Called s not_closed c = tt
  on_close_return-Called s closed c = tt

  on_closer-Called : (s : Server S) (o : Option ℕ) → Called s → Each Called (on_closer o s)
  on_closer-Called s none c = tt
  on_closer-Called s (some ln) c =
      Each-if Called s.cancelled (record s { sockets = without ln s.sockets; closer = none }) λ k. c

  finish-Called :
      (s : Server S) (output : Str) (o : Option (Str × List Str))
      → Called s
      → Each Called (finish output o s)
  finish-Called s output none c = tt
  finish-Called s output (some q) c = c

  step-Called : (s : Server S) (e : Event) → Called s → Each Called (step s e)
  unfolding step
  step-Called s (listens (some err)) c = c
  step-Called s (listens none) c = c
  step-Called s serves c = on_serve-Called s s.serving refl c
  step-Called s closes c = on_close-Called s s.closing c
  step-Called s cancels c = c
  step-Called s closer_runs c = on_closer-Called s s.closer c
  step-Called s (accepts input) c = on_accept-Called s input s.serving c
  step-Called s accept_fails c = on_accept_error-Called s s.serving c
  step-Called s (finishes i output) c = finish-Called s output (pull s.in_flight i) c
  step-Called s drained c = on_drained-Called s s.serving
  step-Called s close_returns c = on_close_return-Called s s.closing c

  Called-on :
      (es : List Event) (o : Option (Server S))
      → Each Called o
      → ((t : Server S) → Called t → Each Called (run t es))
      → Each Called (elim o [ none ↦ none | some t ↦ run t es ])
  Called-on es none h rest = tt
  Called-on es (some t) h rest = rest t h

  run-Called : (s : Server S) (es : List Event) → Called s → Each Called (run s es)
  unfolding run
  run-Called s [] c = c
  run-Called s (e ∷ es) c = Called-on es (step s e) (step-Called s e c) λ t d. run-Called t es d

  -- A server is made and run, and Serve is called on the way without being refused. Once its context
  -- has ended and none of the goroutines has a step left that it must make, Serve has returned nil;
  -- an Accept must fail only where its listener is closed, and otherwise it may wait for ever.
  pub serve_ends :
      (addr : Str) (handler : S) (before es : List Event) (s t : Server S)
      → run (new_server addr handler) before ≡ some s
      → is_serving s.serving ≡ true
      → run s es ≡ some t
      → t.cancelled ≡ true
      → ((e : Event) → is_due t e ≡ true → step t e ≡ none)
      → t.serving ≡ returned
  serve_ends addr handler before es s t b h e c done =
      let v : Wired s =
        subst (Each Wired) b
          (run-Wired (new_server addr handler) before (new_server-Wired addr handler)) in
      let w : Wired t = subst (Each Wired) e (run-Wired s es v) in
      elim (subst (Each Called) e (run-Called s es (inl h))) [
        | inl k ↦ let (f, due, possible) = serve_progress t k c w in absurd (possible (done f due))
        | inr k ↦ k
      ]

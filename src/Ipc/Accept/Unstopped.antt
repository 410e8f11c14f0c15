-- ===== src/Ipc/Accept/Unstopped.antt =====
-- That only the end of the context ends Serve.
use gopm.Base.{
  ℕ, ◌≡◌, refl, ◌≢◌, ◌⊎◌, inl, inr, Bool, true, false, Option, none, some, List, [], ◌∷◌,
  Bool-cases, Option-cases, snoc, is_empty, Str,
}
use mathlib.Core.Path.{subst}
use gopm.Ipc.Accept.{
  Server, Serving, Closing, Event, not_called, accepting, waiting, returned, refused, closing,
  not_closed, closed, listens, serves, closes, cancels, closer_runs, accepts, accept_fails,
  finishes, drained, close_returns, is_open, pull, on_accept, on_close, on_close_return, step, run,
}
use gopm.Ipc.Accept.Arrivals.{Each, Each-if, Each-map}
use gopm.Ipc.Accept.Falls.{Falls, step-Falls}

true-ne-false : (b : Bool) → b ≡ true → b ≢ false
true-ne-false b t f = cc

module _ {S : Type 0} (ln : ℕ) where
  -- The context has ended, or Serve is at `ln.Accept()`.
  abbrev Stays : Server S → Type 0
  Stays s = (s.cancelled ≡ true) ⊎ (s.serving ≡ accepting ln)

  close-accepting :
      (s : Server S) (p : Closing) → s.serving ≡ accepting ln → Each Stays (on_close p s)
  close-accepting s not_closed q = elim (Option-cases s.listener) [
    | inl n ↦ rw n (inr q)
    | inr (l, n) ↦ rw n (inr q)
  ]
  close-accepting s closing q = tt
  close-accepting s closed q = tt

  close_return-accepting :
      (s : Server S) (p : Closing) → s.serving ≡ accepting ln → Each Stays (on_close_return p s)
  close_return-accepting s closing q =
      Each-if Stays (is_empty s.in_flight) (record s { closing = closed }) λ o. inr q
  close_return-accepting s not_closed q = tt
  close_return-accepting s closed q = tt

  accept-accepting :
      (s : Server S) (input : Str) (p : Serving)
      → s.serving ≡ accepting ln
      → Each Stays (on_accept input p s)
  accept-accepting s input (accepting l) q =
      Each-if Stays (is_open l s.sockets) (record s { in_flight = snoc s.in_flight input })
        λ o. inr q
  accept-accepting s input not_called q = tt
  accept-accepting s input waiting q = tt
  accept-accepting s input returned q = tt
  accept-accepting s input (refused err) q = tt

  step-accepting :
      (s : Server S) (e : Event)
      → s.cancelled ≡ false
      → s.serving ≡ accepting ln
      → Each Stays (step s e)
  unfolding step
  step-accepting s (listens (some err)) c p = inr p
  step-accepting s (listens none) c p = inr p
  step-accepting s serves c p = rw p tt
  step-accepting s closes c p = close-accepting s s.closing p
  step-accepting s cancels c p = inl refl
  step-accepting s closer_runs c p = elim (Option-cases s.closer) [
    | inl n ↦ rw n tt
    | inr (l, n) ↦ rw (n, c) tt
  ]
  step-accepting s (accepts input) c p = accept-accepting s input s.serving p
  step-accepting s accept_fails c p = rw (p, c) (inr refl)
  step-accepting s (finishes i output) c p = elim (Option-cases (pull s.in_flight i)) [
    | inl n ↦ rw n tt
    | inr (q, n) ↦ rw n (inr p)
  ]
  step-accepting s drained c p = rw p tt
  step-accepting s close_returns c p = close_return-accepting s s.closing p

  step-cancelled : (s : Server S) (e : Event) → s.cancelled ≡ true → Each Stays (step s e)
  step-cancelled s e c = Each-map (Falls s e) Stays (λ t f. inl f.0) (step s e) (step-Falls s e c)

  step-Stays : (s : Server S) (e : Event) → Stays s → Each Stays (step s e)
  step-Stays s e (inl c) = step-cancelled s e c
  step-Stays s e (inr p) = elim (Bool-cases s.cancelled) [
    | inl c ↦ step-cancelled s e c
    | inr c ↦ step-accepting s e c p
  ]

  Stays-on :
      (es : List Event) (o : Option (Server S))
      → Each Stays o
      → ((t : Server S) → Stays t → Each Stays (run t es))
      → Each Stays (elim o [ none ↦ none | some t ↦ run t es ])
  Stays-on es none h rest = tt
  Stays-on es (some t) h rest = rest t h

  run-Stays : (s : Server S) (es : List Event) → Stays s → Each Stays (run s es)
  unfolding run
  run-Stays s [] h = h
  run-Stays s (e ∷ es) h = Stays-on es (step s e) (step-Stays s e h) λ t k. run-Stays t es k

  -- Whatever happens while Serve accepts connections, calls of Close included: as long as its context
  -- has not ended it goes on, and an attempt to accept that fails leaves everything as it was, so that
  -- after a Close it fails again and again.
  pub serve-unstopped :
      (s t : Server S) (es : List Event)
      → s.serving ≡ accepting ln
      → run s es ≡ some t
      → t.cancelled ≡ false
      → (t.serving ≡ accepting ln) × (step t accept_fails ≡ some t)
  unfolding step
  serve-unstopped s t es p e c = elim (subst (Each Stays) e (run-Stays s es (inr p))) [
    | inl k ↦ absurd (true-ne-false t.cancelled k c)
    | inr k ↦ (k, rw (k, c) refl)
  ]

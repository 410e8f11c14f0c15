-- ===== src/Ipc/Accept/Ending.antt =====
-- How Serve ends once its context has ended.
use gopm.Base.{
  ℕ, ◌+◌, ◌≤◌, ◌<◌, ◌≡◌, refl, ◌≢◌, ◌⊎◌, inl, inr, Bool, true, false, Option, none, some, List, [],
  ◌∷◌, arith, length, length-append, Str, not,
}
use gopm.Ipc.Accept.{
  Server, Serving, Event, not_called, accepting, waiting, returned, refused, accept_fails, finishes,
  drained, step, run, closer_runs, is_open,
}
use mathlib.Core.Path.{subst}
use gopm.Ipc.Accept.Arrivals.{arrived, arrivals, Each, Each-map}
use gopm.Ipc.Accept.Wired.{Attended, Wired}
use gopm.Ipc.Accept.Falls.{is_work, works, rank, Falls, step-Falls}

-- Serve has been called and has not returned.
abbrev pub is_serving : Serving → Bool
is_serving (accepting ln) = true
is_serving waiting = true
is_serving _ = false

-- The listener that Serve accepts from is closed.
abbrev pub has_lost : Serving → List ℕ → Bool
has_lost (accepting ln) sockets = not (is_open ln sockets)
has_lost _ sockets = false

nil_or_cons : (xs : List Str) → (xs ≡ []) ⊎ (0 < length xs)
nil_or_cons [] = inl refl
nil_or_cons (x ∷ xs) = inr (omega arith)

module _ {S : Type 0} where
  then_rest :
      (s : Server S) (e : Event) (es : List Event) (o : Option (Server S))
      → Each (Falls s e) o
      → ((t : Server S)
          → t.cancelled ≡ true
          → Each (λ u. works es + rank u ≤ rank t + length (arrivals es)) (run t es))
      → Each
          (λ u. works (e ∷ es) + rank u ≤ rank s + length (arrivals (e ∷ es)))
          (elim o [ none ↦ none | some t ↦ run t es ])
  then_rest s e es none h rest = tt
  then_rest s e es (some t) (c, le) rest =
      Each-map (λ u. works es + rank u ≤ rank t + length (arrivals es))
        (λ u. works (e ∷ es) + rank u ≤ rank s + length (arrivals (e ∷ es)))
        (λ u h. omega (arith, length-append (arrived e) (arrivals es))) (run t es) (rest t c)

  run-Falls :
      (s : Server S) (es : List Event)
      → s.cancelled ≡ true
      → Each (λ t. works es + rank t ≤ rank s + length (arrivals es)) (run s es)
  unfolding run
  run-Falls s [] c = omega arith
  run-Falls s (e ∷ es) c = then_rest s e es (step s e) (step-Falls s e c) λ t d. run-Falls t es d

  -- Once the context has ended, a run has at most `rank s` steps of the server's own goroutines, and
  -- one more for each connection that is accepted on the way.
  pub works_bounded :
      (s t : Server S) (es : List Event)
      → s.cancelled ≡ true
      → run s es ≡ some t
      → works es + rank t ≤ rank s + length (arrivals es)
  works_bounded s t es c e =
      subst (Each (λ u. works es + rank u ≤ rank s + length (arrivals es))) e (run-Falls s es c)

  can_finish :
      (s : Server S) (xs : List Str)
      → s.in_flight ≡ xs
      → 0 < length xs
      → step s (finishes 0 []) ≢ none
  unfolding step
  can_finish s [] e h = absurd (omega arith)
  can_finish s (x ∷ xs) e h = rw e (λ k. cc)

  can_drain : (s : Server S) → s.serving ≡ waiting → s.in_flight ≡ [] → step s drained ≢ none
  unfolding step
  can_drain s p e = rw (p, e) (λ k. cc)

  can_fail : (s : Server S) (ln : ℕ) → s.serving ≡ accepting ln → step s accept_fails ≢ none
  unfolding step
  can_fail s ln p = rw p (λ k. cc)

  can_close :
      (s : Server S) (ln : ℕ) → s.cancelled ≡ true → s.closer ≡ some ln → step s closer_runs ≢ none
  unfolding step
  can_close s ln c p = rw (p, c) (λ k. cc)

  -- The steps that the server's own goroutines cannot but make: an Accept has to fail only where its
  -- listener is closed.
  abbrev pub is_due : Server S → Event → Bool
  is_due s accept_fails = has_lost s.serving s.sockets
  is_due s e = is_work e

  due_at :
      (s : Server S) (p : Serving)
      → s.serving ≡ p
      → is_serving p ≡ true
      → s.cancelled ≡ true
      → Attended p s.closer s.sockets s.fresh
      → (e : Event) × (is_due s e ≡ true) × (step s e ≢ none)
  due_at s (accepting ln) e h c (lt, inl k) = (closer_runs, refl, can_close s ln c k)
  due_at s (accepting ln) e h c (lt, inr k) = (accept_fails, rw (e, k) refl, can_fail s ln e)
  due_at s waiting e h c w = elim (nil_or_cons s.in_flight) [
    | inl n ↦ (drained, refl, can_drain s e n)
    | inr le ↦ (finishes 0 [], refl, can_finish s s.in_flight refl le)
  ]
  due_at s not_called e h c w = cc
  due_at s returned e h c w = cc
  due_at s (refused err) e h c w = cc

  -- While Serve runs and its context has ended, a goroutine of the server has a step to make.
  pub serve_progress :
      (s : Server S)
      → is_serving s.serving ≡ true
      → s.cancelled ≡ true
      → Wired s
      → (e : Event) × (is_due s e ≡ true) × (step s e ≢ none)
  serve_progress s h c w = due_at s s.serving refl h c w.1

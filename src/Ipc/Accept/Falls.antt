-- ===== src/Ipc/Accept/Falls.antt =====
-- What each step of a server whose context has ended does to the number of steps that are left.
use gopm.Base.{
  ℕ, zero, suc, ◌+◌, ◌≤◌, ◌≡◌, refl, inl, inr, Bool, true, false, Option, none, some, List, [], ◌∷◌,
  arith, if◌then◌else◌, Option-cases, length, snoc, is_empty, length-append, Str,
}
use gopm.Ipc.Accept.{
  Server, Serving, Closing, Event, not_called, accepting, waiting, returned, refused, closing,
  not_closed, closed, listens, serves, closes, cancels, closer_runs, accepts, accept_fails,
  finishes, drained, close_returns, without, is_open, pull, finish, on_accept, on_accept_error,
  on_serve, on_drained, on_close, on_close_return, on_closer, step,
}
use gopm.Ipc.Accept.Arrivals.{arrived, Each, Each-if}

-- The steps of the server's own goroutines: the loop of Serve, its wait, the goroutine that closes
-- the listener, and those of the connections.
abbrev pub is_work : Event → Bool
is_work closer_runs = true
is_work accept_fails = true
is_work (finishes i output) = true
is_work drained = true
is_work _ = false

abbrev pub works : List Event → ℕ
works [] = 0
works (e ∷ es) = (if is_work e then 1 else 0) + works es

abbrev pub place_rank : Serving → ℕ
place_rank not_called = 3
place_rank (accepting ln) = 2
place_rank waiting = 1
place_rank returned = 0
place_rank (refused e) = 0

abbrev pub closer_rank : Option ℕ → ℕ
closer_rank none = 0
closer_rank (some ln) = 1

-- How many steps of its own a server can make once the context has ended.
abbrev pub rank : {S : Type 0} → Server S → ℕ
rank s = place_rank s.serving + closer_rank s.closer + length s.in_flight

abbrev Shorter : List Str → Option (Str × List Str) → Type 0
Shorter xs none = Unit
Shorter xs (some q) = length q.1 + 1 ≡ length xs

Shorter-cons :
    (x : Str) (xs : List Str) (o : Option (Str × List Str))
    → Shorter xs o
    → Shorter (x ∷ xs) (elim o [ none ↦ none | some q ↦ some (q.0, x ∷ q.1) ])
Shorter-cons x xs none h = tt
Shorter-cons x xs (some q) h = omega arith

Shorter-pull : (xs : List Str) (i : ℕ) → Shorter xs (pull xs i)
Shorter-pull [] i = tt
Shorter-pull (x ∷ xs) zero = omega arith
Shorter-pull (x ∷ xs) (suc i) = Shorter-cons x xs (pull xs i) (Shorter-pull xs i)

closer_rank_le : (o : Option ℕ) → closer_rank o ≤ 1
closer_rank_le none = omega arith
closer_rank_le (some ln) = omega arith

module _ {S : Type 0} where
  -- The context has ended still, and the rank has gone down by the work and up by the arrivals.
  abbrev pub Falls : Server S → Event → Server S → Type 0
  Falls s e t =
      (t.cancelled ≡ true) × ((if is_work e then 1 else 0) + rank t ≤ rank s + length (arrived e))

  finish-Falls :
      (s : Server S) (i : ℕ) (output : Str) (o : Option (Str × List Str))
      → s.cancelled ≡ true
      → Shorter s.in_flight o
      → Each (Falls s (finishes i output)) (finish output o s)
  finish-Falls s i output none c h = tt
  finish-Falls s i output (some (input, rest)) c h = (c, omega arith)

  on_accept-Falls :
      (s : Server S) (input : Str) (p : Serving)
      → s.serving ≡ p
      → s.cancelled ≡ true
      → Each (Falls s (accepts input)) (on_accept input p s)
  on_accept-Falls s input (accepting ln) e c =
      Each-if (Falls s (accepts input)) (is_open ln s.sockets)
        (record s { in_flight = snoc s.in_flight input })
        λ o. (c, omega (arith, length-append s.in_flight (input ∷ [])))
  on_accept-Falls s input not_called e c = tt
  on_accept-Falls s input waiting e c = tt
  on_accept-Falls s input returned e c = tt
  on_accept-Falls s input (refused err) e c = tt

  on_accept_error-Falls :
      (s : Server S) (p : Serving)
      → s.serving ≡ p
      → s.cancelled ≡ true
      → Each (Falls s accept_fails) (on_accept_error p s)
  on_accept_error-Falls s (accepting ln) e c = rw c (refl, rw e (omega arith))
  on_accept_error-Falls s not_called e c = tt
  on_accept_error-Falls s waiting e c = tt
  on_accept_error-Falls s returned e c = tt
  on_accept_error-Falls s (refused err) e c = tt

  on_serve-Falls :
      (s : Server S) (p : Serving)
      → s.serving ≡ p
      → s.cancelled ≡ true
      → Each (Falls s serves) (on_serve p s)
  on_serve-Falls s not_called e c = elim (Option-cases s.listener) [
    | inl n ↦ rw n (c, rw e (omega arith))
    | inr (ln, n) ↦ rw n (c, rw e (omega arith))
  ]
  on_serve-Falls s (accepting ln) e c = tt
  on_serve-Falls s waiting e c = tt
  on_serve-Falls s returned e c = tt
  on_serve-Falls s (refused err) e c = tt

  on_drained-Falls :
      (s : Server S) (p : Serving)
      → s.serving ≡ p
      → s.cancelled ≡ true
      → Each (Falls s drained) (on_drained p s)
  on_drained-Falls s waiting e c =
      Each-if (Falls s drained) (is_empty s.in_flight) (record s { serving = returned })
        λ o. (c, rw e (omega arith))
  on_drained-Falls s not_called e c = tt
  on_drained-Falls s (accepting ln) e c = tt
  on_drained-Falls s returned e c = tt
  on_drained-Falls s (refused err) e c = tt

  on_closer-Falls :
      (s : Server S) (o : Option ℕ)
      → s.closer ≡ o
      → s.cancelled ≡ true
      → Each (Falls s closer_runs) (on_closer o s)
  on_closer-Falls s none e c = tt
  on_closer-Falls s (some ln) e c =
      Each-if (Falls s closer_runs) s.cancelled
        (record s { sockets = without ln s.sockets; closer = none }) λ k. (c, rw e (omega arith))

  on_close-Falls :
      (s : Server S) (p : Closing) → s.cancelled ≡ true → Each (Falls s closes) (on_close p s)
  on_close-Falls s not_closed c = elim (Option-cases s.listener) [
    | inl n ↦ rw n (c, omega arith)
    | inr (ln, n) ↦ rw n (c, omega arith)
  ]
  on_close-Falls s closing c = tt
  on_close-Falls s closed c = tt

  on_close_return-Falls :
      (s : Server S) (p : Closing)
      → s.cancelled ≡ true
      → Each (Falls s close_returns) (on_close_return p s)
  on_close_return-Falls s closing c =
      Each-if (Falls s close_returns) (is_empty s.in_flight) (record s { closing = closed })
        λ o. (c, omega arith)
  on_close_return-Falls s not_closed c = tt
  on_close_return-Falls s closed c = tt

  pub step-Falls : (s : Server S) (e : Event) → s.cancelled ≡ true → Each (Falls s e) (step s e)
  unfolding step
  step-Falls s (listens (some err)) c = (c, omega arith)
  step-Falls s (listens none) c = (c, omega arith)
  step-Falls s serves c = on_serve-Falls s s.serving refl c
  step-Falls s closes c = on_close-Falls s s.closing c
  step-Falls s cancels c = (refl, omega arith)
  step-Falls s closer_runs c = on_closer-Falls s s.closer refl c
  step-Falls s (accepts input) c = on_accept-Falls s input s.serving refl c
  step-Falls s accept_fails c = on_accept_error-Falls s s.serving refl c
  step-Falls s (finishes i output) c =
      finish-Falls s i output (pull s.in_flight i) c (Shorter-pull s.in_flight i)
  step-Falls s drained c = on_drained-Falls s s.serving refl c
  step-Falls s close_returns c = on_close_return-Falls s s.closing c

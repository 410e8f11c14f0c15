-- ===== src/Ipc/Accept/Wired.antt =====
-- How Serve, its listener and the goroutine that closes it belong together.
use gopm.Base.{
  ℕ, ◌+◌, ◌<◌, ◌≡◌, refl, ◌⊎◌, inl, inr, false, Option, none, some, List, [], ◌∷◌, arith,
  Bool-cases, Option-cases, snoc, is_empty, Str,
}
use gopm.Ipc.Accept.{
  Server, Serving, Closing, Event, not_called, accepting, waiting, returned, refused, not_closed,
  closing, closed, listens, serves, closes, cancels, closer_runs, accepts, accept_fails, finishes,
  drained, close_returns, new_server, on_accept, on_accept_error, on_serve, on_drained, on_close,
  on_close_return, on_closer, finish, pull, is_open, without, step, run,
}
use gopm.Ipc.Accept.Arrivals.{Each, Each-if}

-- Another listener that is closed opens none.
pub is_open-without_other :
    (ln k : ℕ) (xs : List ℕ) → is_open ln xs ≡ false → is_open ln (without k xs) ≡ false
is_open-without_other ln k [] h = refl
is_open-without_other ln k (x ∷ xs) h = ground (arith, is_open-without_other ln k xs)

pub is_open-without : (ln : ℕ) (xs : List ℕ) → is_open ln (without ln xs) ≡ false
is_open-without ln [] = refl
is_open-without ln (x ∷ xs) = ground (arith, is_open-without ln xs)

is_open-fresh :
    (ln k : ℕ) (xs : List ℕ) → ln < k → is_open ln xs ≡ false → is_open ln (k ∷ xs) ≡ false
is_open-fresh ln k xs lt h = ground arith

-- A listener has a number that was given.
abbrev Given : Option ℕ → ℕ → Type 0
Given none fresh = Unit
Given (some ln) fresh = ln < fresh

-- While Serve accepts connections from a listener, the goroutine that closes it is there still, or
-- it is closed.
abbrev pub Attended : Serving → Option ℕ → List ℕ → ℕ → Type 0
Attended (accepting ln) closer sockets fresh =
    (ln < fresh) × ((closer ≡ some ln) ⊎ (is_open ln sockets ≡ false))
Attended _ closer sockets fresh = Unit

Given-later : (o : Option ℕ) (k : ℕ) → Given o k → Given o (k + 1)
Given-later none k h = tt
Given-later (some ln) k h = omega arith

Attended-listen :
    (p : Serving) (c : Option ℕ) (xs : List ℕ) (k : ℕ)
    → Attended p c xs k
    → Attended p c (k ∷ xs) (k + 1)
Attended-listen (accepting ln) c xs k (lt, inl e) = (omega arith, inl e)
Attended-listen (accepting ln) c xs k (lt, inr e) = (omega arith, inr (is_open-fresh ln k xs lt e))
Attended-listen not_called c xs k h = tt
Attended-listen waiting c xs k h = tt
Attended-listen returned c xs k h = tt
Attended-listen (refused err) c xs k h = tt

Attended-close :
    (p : Serving) (c : Option ℕ) (xs : List ℕ) (k j : ℕ)
    → Attended p c xs k
    → Attended p c (without j xs) k
Attended-close (accepting ln) c xs k j (lt, inl e) = (lt, inl e)
Attended-close (accepting ln) c xs k j (lt, inr e) = (lt, inr (is_open-without_other ln j xs e))
Attended-close not_called c xs k j h = tt
Attended-close waiting c xs k j h = tt
Attended-close returned c xs k j h = tt
Attended-close (refused err) c xs k j h = tt

some_eq : (a b : ℕ) → some a ≡ some b → b ≡ a
some_eq a b e = cc

Attended-closer :
    (p : Serving) (xs : List ℕ) (k j : ℕ)
    → Attended p (some j) xs k
    → Attended p none (without j xs) k
Attended-closer (accepting ln) xs k j (lt, inl e) =
    (lt, inr (rw (some_eq j ln e) (is_open-without j xs)))
Attended-closer (accepting ln) xs k j (lt, inr e) = (lt, inr (is_open-without_other ln j xs e))
Attended-closer not_called xs k j h = tt
Attended-closer waiting xs k j h = tt
Attended-closer returned xs k j h = tt
Attended-closer (refused err) xs k j h = tt

module _ {S : Type 0} where
  abbrev pub Wired : Server S → Type 0
  Wired s = Given s.listener s.fresh × Attended s.serving s.closer s.sockets s.fresh

  on_serve-Wired : (s : Server S) (p : Serving) → Wired s → Each Wired (on_serve p s)
  on_serve-Wired s not_called (g, w) = elim (Option-cases s.listener) [
    | inl n ↦ rw n (tt, tt)
    | inr (ln, n) ↦ let lt = rw n at g in rw n (lt, (lt, inl refl))
  ]
  on_serve-Wired s (accepting ln) w = tt
  on_serve-Wired s waiting w = tt
  on_serve-Wired s returned w = tt
  on_serve-Wired s (refused err) w = tt

  on_close-Wired : (s : Server S) (p : Closing) → Wired s → Each Wired (on_close p s)
  on_close-Wired s not_closed (g, w) = elim (Option-cases s.listener) [
    | inl n ↦ rw n (tt, w)
    | inr (ln, n) ↦ rw n (tt, Attended-close s.serving s.closer s.sockets s.fresh ln w)
  ]
  on_close-Wired s closing w = tt
  on_close-Wired s closed w = tt

  on_closer-Wired :
      (s : Server S) (o : Option ℕ) → s.closer ≡ o → Wired s → Each Wired (on_closer o s)
  on_closer-Wired s none e w = tt
  on_closer-Wired s (some ln) e (g, w) =
      Each-if Wired s.cancelled (record s { sockets = without ln s.sockets; closer = none })
        λ k. (g, Attended-closer s.serving s.sockets s.fresh ln (rw e at w))

  on_accept-Wired :
      (s : Server S) (input : Str) (p : Serving) → Wired s → Each Wired (on_accept input p s)
  on_accept-Wired s input (accepting ln) w =
      Each-if Wired (is_open ln s.sockets) (record s { in_flight = snoc s.in_flight input }) λ o. w
  on_accept-Wired s input not_called w = tt
  on_accept-Wired s input waiting w = tt
  on_accept-Wired s input returned w = tt
  on_accept-Wired s input (refused err) w = tt

  on_accept_error-Wired : (s : Server S) (p : Serving) → Wired s → Each Wired (on_accept_error p s)
  on_accept_error-Wired s (accepting ln) w = elim (Bool-cases s.cancelled) [
    | inl c ↦ rw c (w.0, tt)
    | inr c ↦ rw c w
  ]
  on_accept_error-Wired s not_called w = tt
  on_accept_error-Wired s waiting w = tt
  on_accept_error-Wired s returned w = tt
  on_accept_error-Wired s (refused err) w = tt

  on_drained-Wired : (s : Server S) (p : Serving) → Wired s → Each Wired (on_drained p s)
  on_drained-Wired s waiting w =
      Each-if Wired (is_empty s.in_flight) (record s { serving = returned }) λ o. (w.0, tt)
  on_drained-Wired s not_called w = tt
  on_drained-Wired s (accepting ln) w = tt
  on_drained-Wired s returned w = tt
  on_drained-Wired s (refused err) w = tt

  on_close_return-Wired : (s : Server S) (p : Closing) → Wired s → Each Wired (on_close_return p s)
  on_close_return-Wired s closing w =
      Each-if Wired (is_empty s.in_flight) (record s { closing = closed }) λ o. w
  on_close_return-Wired s not_closed w = tt
  on_close_return-Wired s closed w = tt

  finish-Wired :
      (s : Server S) (output : Str) (o : Option (Str × List Str))
      → Wired s
      → Each Wired (finish output o s)
  finish-Wired s output none w = tt
  finish-Wired s output (some q) w = w

  step-Wired : (s : Server S) (e : Event) → Wired s → Each Wired (step s e)
  unfolding step
  step-Wired s (listens (some err)) w = w
  step-Wired s (listens none) (g, w) =
      (omega arith, Attended-listen s.serving s.closer s.sockets s.fresh w)
  step-Wired s serves w = on_serve-Wired s s.serving w
  step-Wired s closes w = on_close-Wired s s.closing w
  step-Wired s cancels w = w
  step-Wired s closer_runs w = on_closer-Wired s s.closer refl w
  step-Wired s (accepts input) w = on_accept-Wired s input s.serving w
  step-Wired s accept_fails w = on_accept_error-Wired s s.serving w
  step-Wired s (finishes i output) w = finish-Wired s output (pull s.in_flight i) w
  step-Wired s drained w = on_drained-Wired s s.serving w
  step-Wired s close_returns w = on_close_return-Wired s s.closing w

  Wired-on :
      (es : List Event) (o : Option (Server S))
      → Each Wired o
      → ((t : Server S) → Wired t → Each Wired (run t es))
      → Each Wired (elim o [ none ↦ none | some t ↦ run t es ])
  Wired-on es none h rest = tt
  Wired-on es (some t) h rest = rest t h

  pub run-Wired : (s : Server S) (es : List Event) → Wired s → Each Wired (run s es)
  unfolding run
  run-Wired s [] w = w
  run-Wired s (e ∷ es) w = Wired-on es (step s e) (step-Wired s e w) λ t v. run-Wired t es v

  pub new_server-Wired : (addr : Str) (handler : S) → Wired (new_server addr handler)
  new_server-Wired addr handler = (tt, tt)

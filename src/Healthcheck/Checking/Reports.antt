-- ===== src/Healthcheck/Checking/Reports.antt =====
-- What the receiver of a checker's reports learns.
use gopm.Base.{
  ℕ, ◌+◌, ◌<◌, ◌≡◌, refl, sym, ap, ◌∙◌, ◌⊎◌, inl, inr, Bool, true, false, ◌||◌, Option, none, some,
  List, [], ◌∷◌, ◌++◌, append_assoc, leb, if◌then◌else◌, lt→ltb, Bool-cases, length, snoc,
}
use mathlib.Core.Path.{subst}
use gopm.Healthcheck.{Health, Checker, Round, announce, same_health, tick, sick, healthy}
use gopm.Healthcheck.Verdict.{
  verdict, announce-current, tick-verdict, recent_failures, verdict-no_answer,
}
use gopm.Healthcheck.Checking.{
  Checking, Event, ticks, returns, stops, cancels, receives, step, started, receive, run, stop,
}

-- The answers of the check, the latest first.
abbrev pub answers : List Event → List Bool → List Bool
answers [] bs = bs
answers (ticks ok ∷ es) bs = answers es (ok ∷ bs)
answers (returns ∷ es) bs = answers es bs
answers (stops ∷ es) bs = answers es bs
answers (cancels ∷ es) bs = answers es bs
answers (receives ∷ es) bs = answers es bs

-- The verdicts that differ from the one before, the oldest first.
abbrev pub changes : ℕ → List Bool → List Health
changes limit [] = []
changes limit (ok ∷ older) =
    let before = changes limit older in
    if same_health (verdict limit (ok ∷ older)) (verdict limit older)
    then before
    else snoc before (verdict limit (ok ∷ older))

-- The channel has room at each event.
abbrev pub Prompt : Checker → Checking → List Event → Type 0
Prompt c s [] = Unit
Prompt c s (e ∷ es) =
    (length s.round.status_ch < 4) × (elim (step c s e) [ none ↦ Unit | some t ↦ Prompt c t es ])

announce-status_ch :
    (next : Health) (r : Round)
    → length r.status_ch < 4
    → (announce next r).status_ch
      ≡ (if same_health next r.current then r.status_ch else snoc r.status_ch next)
announce-status_ch next r h = elim (Bool-cases (same_health next r.current)) [
  | inl e ↦ rw e refl
  | inr e ↦ rw (e, lt→ltb (length r.status_ch) 4 h) refl
]

tick-status_ch :
    (c : Checker) (ok : Bool) (r : Round)
    → length r.status_ch < 4
    → (tick c ok r).status_ch ≡ (
        if same_health (tick c ok r).current r.current
        then r.status_ch
        else snoc r.status_ch (tick c ok r).current)
unfolding tick
tick-status_ch c true r h =
    let q : Round = record r { failures = 0 } in
    rw (announce-current healthy q) (announce-status_ch healthy q h)
tick-status_ch c false r h =
    let q : Round = record r { failures = r.failures + 1 } in
    let n = if leb c.retries (r.failures + 1) then sick else r.current in
    rw (announce-current n q) (announce-status_ch n q h)

-- The round after some answers, with the reports that were sent.
record Inv (c : Checker) (bs : List Bool) (s : Checking) : Type 0 where
  current : s.round.current ≡ verdict c.retries bs
  failures : s.round.failures ≡ recent_failures bs
  reports : s.received ++ s.round.status_ch ≡ changes c.retries bs
  ended : (s.closed ≡ false) ⊎ ((s.stopped || s.cancelled) ≡ true)

-- The reports, received or waiting, take the new verdict.
sent_more :
    (got waiting all : List Health) (h : Health) (same : Bool)
    → got ++ waiting ≡ all
    → got ++ (if same then waiting else snoc waiting h) ≡ (if same then all else snoc all h)
sent_more got waiting all h true e = e
sent_more got waiting all h false e =
    sym (append_assoc got waiting (h ∷ [])) ∙ ap (λ xs. xs ++ (h ∷ [])) e

tick-Inv :
    (c : Checker) (ok : Bool) (bs : List Bool) (s : Checking)
    → 0 < c.retries
    → length s.round.status_ch < 4
    → Inv c bs s
    → Inv c (ok ∷ bs) (record s { round = tick c ok s.round })
tick-Inv c ok bs s pos room i =
    let (k, f) = tick-verdict c ok bs s.round pos i.failures i.current in
    record {
      current = k;
      failures = f;
      reports =
          ap (◌++◌ s.received) (tick-status_ch c ok s.round room)
          ∙ (rw (k, i.current)
              (sent_more s.received s.round.status_ch (changes c.retries bs)
                (verdict c.retries (ok ∷ bs))
                (same_health (verdict c.retries (ok ∷ bs)) (verdict c.retries bs)) i.reports));
      ended = i.ended;
    }

abbrev Each : (Checking → Type 0) → Option Checking → Type 0
Each P none = Unit
Each P (some s) = P s

receive-Inv :
    (c : Checker) (bs : List Bool) (s : Checking) (waiting : List Health)
    → s.round.status_ch ≡ waiting
    → Inv c bs s
    → Each (Inv c bs) (receive waiting s)
receive-Inv c bs s [] e i = tt
receive-Inv c bs s (h ∷ hs) e i = record {
  current = i.current;
  failures = i.failures;
  reports = append_assoc s.received (h ∷ []) hs ∙ (ap (◌++◌ s.received) (sym e) ∙ i.reports);
  ended = i.ended;
}

stopped_now :
    (c : Checker) (bs : List Bool) (s : Checking)
    → Inv c bs s
    → Inv c bs (record s { stopped = true })
stopped_now c bs s i = record {
  current = i.current;
  failures = i.failures;
  reports = i.reports;
  ended = inr refl;
}

stop-Inv : (c : Checker) (bs : List Bool) (s : Checking) → Inv c bs s → Inv c bs (stop s)
stop-Inv c bs s i = elim (Bool-cases s.stopped) [
  | inl e ↦ rw e (stopped_now c bs s i)
  | inr e ↦ rw e (stopped_now c bs s i)
]

cancel-ended : (a b c : Bool) → (a ≡ false) ⊎ ((b || c) ≡ true) → (a ≡ false) ⊎ ((b || true) ≡ true)
cancel-ended a true c h = inr refl
cancel-ended a false c h = inr refl

return-Inv :
    (c : Checker) (bs : List Bool) (s : Checking) → Inv c bs s → Each (Inv c bs) (step c s returns)
return-Inv c bs s i = elim (Bool-cases s.closed) [
  | inl e ↦ rw e tt
  | inr e ↦ elim (Bool-cases (s.stopped || s.cancelled)) [
    | inl o ↦
        rw (e, o)
          (record {
            current = i.current;
            failures = i.failures;
            reports = i.reports;
            ended = inr o;
          })
    | inr o ↦ rw (e, o) tt
  ]
]

Each-unless :
    (P : Checking → Type 0) (b : Bool) (s : Checking) → P s → Each P (if b then none else some s)
Each-unless P true s h = tt
Each-unless P false s h = h

ticked-Inv :
    (c : Checker) (ok : Bool) (bs : List Bool) (s : Checking)
    → 0 < c.retries
    → length s.round.status_ch < 4
    → Inv c bs s
    → Each (Inv c (ok ∷ bs)) (step c s (ticks ok))
ticked-Inv c ok bs s pos room i =
    Each-unless (Inv c (ok ∷ bs)) s.closed (record s { round = tick c ok s.round })
      (tick-Inv c ok bs s pos room i)

then_run :
    (c : Checker) (es : List Event) (bs : List Bool) (o : Option Checking)
    → 0 < c.retries
    → (elim o as (λ x. Type 0) [ none ↦ Unit | some t ↦ Prompt c t es ])
    → Each (Inv c bs) o
    → ((t : Checking) → Prompt c t es → Inv c bs t → Each (Inv c (answers es bs)) (run c t es))
    → Each (Inv c (answers es bs)) (elim o [ none ↦ none | some t ↦ run c t es ])
then_run c es bs none pos q i rest = tt
then_run c es bs (some t) pos q i rest = rest t q i

run-Inv :
    (c : Checker) (es : List Event) (bs : List Bool) (s : Checking)
    → 0 < c.retries
    → Prompt c s es
    → Inv c bs s
    → Each (Inv c (answers es bs)) (run c s es)
unfolding run
run-Inv c [] bs s pos q i = i
run-Inv c (ticks ok ∷ es) bs s pos (room, q) i =
    then_run c es (ok ∷ bs) (step c s (ticks ok)) pos q (ticked-Inv c ok bs s pos room i)
      λ t. run-Inv c es (ok ∷ bs) t pos
run-Inv c (returns ∷ es) bs s pos (room, q) i =
    then_run c es bs (step c s returns) pos q (return-Inv c bs s i) λ t. run-Inv c es bs t pos
run-Inv c (stops ∷ es) bs s pos (room, q) i = run-Inv c es bs (stop s) pos q (stop-Inv c bs s i)
run-Inv c (cancels ∷ es) bs s pos (room, q) i = run-Inv c es bs _ pos q (record {
  current = i.current;
  failures = i.failures;
  reports = i.reports;
  ended = cancel-ended s.closed s.stopped s.cancelled i.ended;
})
run-Inv c (receives ∷ es) bs s pos (room, q) i =
    then_run c es bs (step c s receives) pos q (receive-Inv c bs s s.round.status_ch refl i)
      λ t. run-Inv c es bs t pos

-- As long as the channel always has room, the reports that were received, and after them those that
-- wait in the channel, are the changes of the verdict on the answers so far, one by one and in their
-- order; and the channel is closed only after Stop or the end of the context. The limit of retries is
-- positive, as `New` makes it.
pub reports_of_run :
    (c : Checker) (es : List Event) (s : Checking)
    → 0 < c.retries
    → Prompt c started es
    → run c started es ≡ some s
    → (s.received ++ s.round.status_ch ≡ changes c.retries (answers es []))
      × ((s.closed ≡ false) ⊎ ((s.stopped || s.cancelled) ≡ true))
reports_of_run c es s pos q e =
    let i = subst (Each (Inv c (answers es []))) e (
      run-Inv c es [] started pos q (record {
        current = verdict-no_answer c.retries pos;
        failures = refl;
        reports = refl;
        ended = inl refl;
      })) in
    (i.reports, i.ended)

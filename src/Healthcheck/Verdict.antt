-- ===== src/Healthcheck/Verdict.antt =====
-- The health that the checker of internal/healthcheck/healthcheck.go reports.
use gopm.Base.{
  ℕ, suc, ◌+◌, ◌<◌, ◌≡◌, refl, sym, ap, ◌∙◌, inl, inr, Bool, true, false, List, [], ◌∷◌, arith, leb,
  if◌then◌else◌, Bool-cases, any,
}
use gopm.Healthcheck.{
  Health, unknown, healthy, sick, Checker, Round, first_round, tick, announce, same_health,
}

-- The rounds over a list of answers, the latest answer first.
unfoldable pub rounds : Checker → List Bool → Round
rounds c [] = first_round
rounds c (ok ∷ older) = tick c ok (rounds c older)

-- The failures since the last success.
abbrev pub recent_failures : List Bool → ℕ
recent_failures [] = 0
recent_failures (ok ∷ older) = let more = recent_failures older in if ok then 0 else suc more

-- Sick after as many failures in a row as the limit, else healthy if there was a success.
abbrev pub verdict : ℕ → List Bool → Health
verdict limit bs =
    if leb limit (recent_failures bs) then sick else if any (λ ok. ok) bs then healthy else unknown

same_health-eq : (h k : Health) → same_health h k ≡ true → h ≡ k
same_health-eq unknown unknown e = refl
same_health-eq healthy healthy e = refl
same_health-eq sick sick e = refl
same_health-eq unknown healthy e = cc
same_health-eq unknown sick e = cc
same_health-eq healthy unknown e = cc
same_health-eq healthy sick e = cc
same_health-eq sick unknown e = cc
same_health-eq sick healthy e = cc

pub announce-current : (next : Health) (r : Round) → (announce next r).current ≡ next
announce-current next r = elim (Bool-cases (same_health next r.current)) [
  | inl e ↦ rw e (sym (same_health-eq next r.current e))
  | inr e ↦ rw e refl
]

announce-failures : (next : Health) (r : Round) → (announce next r).failures ≡ r.failures
announce-failures next r = elim (Bool-cases (same_health next r.current)) [
  | inl e ↦ rw e refl
  | inr e ↦ rw e refl
]

add_one : (n : ℕ) → n + 1 ≡ suc n
add_one n = omega arith

tick-failures :
    (c : Checker) (ok : Bool) (r : Round)
    → (tick c ok r).failures ≡ (if ok then 0 else suc r.failures)
unfolding tick
tick-failures c true r = announce-failures healthy (record r { failures = 0 })
tick-failures c false r =
    announce-failures (if leb c.retries (r.failures + 1) then sick else r.current)
      (record r { failures = r.failures + 1 })
    ∙ add_one r.failures

pub tick-current :
    (c : Checker) (ok : Bool) (r : Round)
    → (tick c ok r).current
      ≡ (if ok then healthy else if leb c.retries (suc r.failures) then sick else r.current)
unfolding tick
tick-current c true r = announce-current healthy (record r { failures = 0 })
tick-current c false r =
    announce-current (if leb c.retries (r.failures + 1) then sick else r.current)
      (record r { failures = r.failures + 1 })
    ∙ ap (λ k. if leb c.retries k then sick else r.current) (add_one r.failures)

-- A failure more changes the verdict only if it reaches the limit.
verdict-fail :
    (limit : ℕ) (bs : List Bool)
    → (if leb limit (suc (recent_failures bs)) then sick else verdict limit bs)
      ≡ verdict limit (false ∷ bs)
verdict-fail limit bs = elim (Bool-cases (leb limit (suc (recent_failures bs)))) [
  | inl e ↦ rw e refl
  | inr e ↦ elim (Bool-cases (leb limit (recent_failures bs))) [
    | inl f ↦ ground arith
    | inr f ↦ rw (e, f) refl
  ]
]

pub verdict-no_answer : (limit : ℕ) → 0 < limit → unknown ≡ verdict limit []
verdict-no_answer limit pos = elim (Bool-cases (leb limit 0)) [
  | inl e ↦ ground arith
  | inr e ↦ rw e refl
]

verdict-ok : (limit : ℕ) (bs : List Bool) → 0 < limit → healthy ≡ verdict limit (true ∷ bs)
verdict-ok limit bs pos = elim (Bool-cases (leb limit 0)) [
  | inl e ↦ ground arith
  | inr e ↦ rw e refl
]

-- A tick that begins with the verdict on the earlier answers ends with that on all of them.
pub tick-verdict :
    (c : Checker) (ok : Bool) (older : List Bool) (r : Round)
    → 0 < c.retries
    → r.failures ≡ recent_failures older
    → r.current ≡ verdict c.retries older
    → ((tick c ok r).current ≡ verdict c.retries (ok ∷ older))
      × ((tick c ok r).failures ≡ recent_failures (ok ∷ older))
tick-verdict c true older r pos f k =
    (tick-current c true r ∙ verdict-ok c.retries older pos, tick-failures c true r)
tick-verdict c false older r pos f k = (
  tick-current c false r
      ∙ (ap (λ n. if leb c.retries (suc n) then sick else r.current) f
          ∙ (ap (λ h. if leb c.retries (suc (recent_failures older)) then sick else h) k
              ∙ verdict-fail c.retries older)),
  tick-failures c false r ∙ ap suc f,
)

rounds-both :
    (c : Checker) (bs : List Bool)
    → 0 < c.retries
    → ((rounds c bs).current ≡ verdict c.retries bs) × ((rounds c bs).failures ≡ recent_failures bs)
unfolding rounds
rounds-both c [] pos = (verdict-no_answer c.retries pos, refl)
rounds-both c (ok ∷ older) pos =
    let (k, f) = rounds-both c older pos in tick-verdict c ok older (rounds c older) pos f k

-- For a checker whose limit of retries is positive, the loop's status after any answers of the HTTP
-- check is unhealthy exactly after at least that many failures in a row, else ready if there was
-- ever a success, else unknown; its counter is the number of failures since the last success.
pub rounds-verdict :
    (c : Checker) (bs : List Bool)
    → 0 < c.retries
    → ((rounds c bs).current ≡ verdict c.retries bs) × ((rounds c bs).failures ≡ recent_failures bs)
rounds-verdict c bs pos = rounds-both c bs pos

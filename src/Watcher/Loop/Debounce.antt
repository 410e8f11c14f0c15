-- ===== src/Watcher/Loop/Debounce.antt =====
-- When the timer of `Start` fires.
use gopm.Base.{
  ℕ, ◌+◌, ◌≤◌, ◌≡◌, refl, ◌∙◌, ◌≢◌, ◌↔◌, ◌⊎◌, inl, inr, Bool, true, false, Option, none, some, List,
  [], ◌∷◌, arith, Bool-cases, Option-cases, Str,
}
use gopm.Config.{WatchConfig}
use gopm.Watcher.{Watcher, should_fire}
use gopm.Watcher.Tree.{Entry}
use gopm.Watcher.Loop.{
  Event, stop, changed, events_closed, fires, failed, errors_closed, close, take, Loop, debounce,
  start, step, run, and_then,
}

abbrev pub is_fires : Event → Bool
is_fires fires = true
is_fires _ = false

module _ (clean_abs : Str → Str) (ext : Str → Str) (lower : Str → Str) (abs_under : Str → Str → Str)
    (lstat : Str → Option Entry) (add_watch : Str → Option Str) (w : Watcher) (cfg : WatchConfig)
    (root : Str) where
  abbrev stepped : Loop → ℕ → Event → Option Loop
  stepped = step clean_abs ext lower abs_under lstat add_watch w cfg root

  -- A change that calls for a rebuild.
  abbrev pub relevant : Event → Bool
  relevant (changed ev here) = should_fire clean_abs ext lower abs_under w ev
  relevant _ = false

  -- No such change, and no signal.
  abbrev pub Quiet : List (ℕ × Event) → Type 0
  Quiet [] = Unit
  Quiet ((now, e) ∷ es) = (relevant e ≡ false) × (is_fires e ≡ false) × Quiet es

  -- The last change that calls for a rebuild was at a time, and no signal came after it.
  pub data LastChange : List (ℕ × Event) → ℕ → Type 0 where
    last :
        {now : ℕ} {e : Event} {es : List (ℕ × Event)}
        → relevant e ≡ true
        → Quiet es
        → LastChange ((now, e) ∷ es) now
    earlier :
        {now t : ℕ} {e : Event} {es : List (ℕ × Event)}
        → LastChange es t
        → LastChange ((now, e) ∷ es) t

  and_then-some :
      (o : Option Loop) (k : Loop → Option Loop) {s : Loop}
      → and_then o k ≡ some s
      → (u : Loop) × (o ≡ some u) × (k u ≡ some s)
  and_then-some none k h = absurd cc
  and_then-some (some u) k h = (u, refl, h)

  step-quiet :
      (s u : Loop) (now : ℕ) (e : Event)
      → stepped s now e ≡ some u
      → relevant e ≡ false
      → is_fires e ≡ false
      → u.due ≡ s.due
  step-quiet s u now stop h r f = ground arith
  step-quiet s u now (changed ev here) h r f = ground arith
  step-quiet s u now events_closed h r f = ground arith
  step-quiet s u now fires h r f = ground arith
  step-quiet s u now (failed err) h r f = ground arith
  step-quiet s u now errors_closed h r f = ground arith
  step-quiet s u now close h r f = ground arith
  step-quiet s u now take h r f = ground arith

  step-relevant :
      (s u : Loop) (now : ℕ) (e : Event)
      → stepped s now e ≡ some u
      → relevant e ≡ true
      → u.due ≡ some (now + debounce cfg)
  step-relevant s u now (changed ev here) h r = ground arith
  step-relevant s u now stop h r = absurd cc
  step-relevant s u now events_closed h r = absurd cc
  step-relevant s u now fires h r = absurd cc
  step-relevant s u now (failed err) h r = absurd cc
  step-relevant s u now errors_closed h r = absurd cc
  step-relevant s u now close h r = absurd cc
  step-relevant s u now take h r = absurd cc

  step-fires :
      (s u : Loop) (now : ℕ) (e : Event)
      → stepped s now e ≡ some u
      → is_fires e ≡ true
      → u.due ≡ none
  step-fires s u now stop h f = absurd cc
  step-fires s u now (changed ev here) h f = absurd cc
  step-fires s u now events_closed h f = absurd cc
  step-fires s u now (failed err) h f = absurd cc
  step-fires s u now errors_closed h f = absurd cc
  step-fires s u now close h f = absurd cc
  step-fires s u now take h f = absurd cc
  step-fires s u now fires h f = elim (Option-cases s.due) [
    | inl e ↦ ground arith
    | inr (t, e) ↦ ground arith
  ]

  abbrev ran : List (ℕ × Event) → Loop → Option Loop
  ran = run clean_abs ext lower abs_under lstat add_watch w cfg root

  run-Quiet : (es : List (ℕ × Event)) (s u : Loop) → ran es s ≡ some u → Quiet es → u.due ≡ s.due
  run-Quiet [] s u h q = cc
  run-Quiet ((now, e) ∷ es) s u h (r, f, q) =
      let (v, a, b) = and_then-some (stepped s now e) (ran es) h in
      run-Quiet es v u b q ∙ step-quiet s v now e a r f

  -- The timer is set by the last change.
  run-LastChange :
      (es : List (ℕ × Event)) (s u : Loop) {t : ℕ}
      → ran es s ≡ some u
      → LastChange es t
      → u.due ≡ some (t + debounce cfg)
  run-LastChange [] s u h c = elim c [ ]
  run-LastChange ((now, e) ∷ es) s u h (last r q) =
      let (v, a, b) = and_then-some (stepped s now e) (ran es) h in
      run-Quiet es v u b q ∙ step-relevant s v now e a r
  run-LastChange ((now, e) ∷ es) s u h (earlier c) =
      let (v, a, b) = and_then-some (stepped s now e) (ran es) h in run-LastChange es v u b c

  -- A timer that is set was set by a change, unless it was set to begin with.
  abbrev SetBy : List (ℕ × Event) → Option ℕ → ℕ → Type 0
  SetBy es due d =
      ((t : ℕ) × LastChange es t × (d ≡ t + debounce cfg)) ⊎ (Quiet es × (due ≡ some d))

  run-SetBy :
      (es : List (ℕ × Event)) (s u : Loop) (d : ℕ)
      → ran es s ≡ some u
      → u.due ≡ some d
      → SetBy es s.due d
  run-SetBy [] s u d h g = inr (tt, cc)
  run-SetBy ((now, e) ∷ es) s u d h g =
      let (v, a, b) = and_then-some (stepped s now e) (ran es) h in
      onward e v a (run-SetBy es v u d b g) (Bool-cases (relevant e)) (Bool-cases (is_fires e))
    where
      onward :
          (e : Event) (v : Loop)
          → stepped s now e ≡ some v
          → SetBy es v.due d
          → (relevant e ≡ true) ⊎ (relevant e ≡ false)
          → (is_fires e ≡ true) ⊎ (is_fires e ≡ false)
          → SetBy ((now, e) ∷ es) s.due d
      onward e v a (inl (t, c, k)) r f = inl (t, earlier c, k)
      onward e v a (inr (q, k)) (inl r) f =
          let z = step-relevant s v now e a r in inl (now, last r q, cc)
      onward e v a (inr (q, k)) (inr r) (inl f) = let z = step-fires s v now e a f in absurd cc
      onward e v a (inr (q, k)) (inr r) (inr f) =
          let z = step-quiet s v now e a r f in inr ((r, f, q), cc)

  step-due_iff :
      (s : Loop) (now d : ℕ)
      → s.done ≡ false
      → s.due ≡ some d
      → (stepped s now fires ≢ none) ↔ (d ≤ now)
  step-due_iff s now d n e = ground arith

  step-no_timer : (s : Loop) (now : ℕ) → s.done ≡ false → s.due ≡ none → stepped s now fires ≡ none
  step-no_timer s now n e = ground arith

  -- While the loop runs, the timer can fire at a time exactly if a change that calls for a rebuild was
  -- seen since the last signal, and the last such change was longer ago than the debounce time, or
  -- just as long.
  pub fires-LastChange_iff :
      (es : List (ℕ × Event)) (s : Loop) (now : ℕ)
      → run clean_abs ext lower abs_under lstat add_watch w cfg root es
          (start clean_abs ext lower abs_under lstat add_watch w cfg root)
        ≡ some s
      → s.done ≡ false
      → (step clean_abs ext lower abs_under lstat add_watch w cfg root s now fires ≢ none)
        ↔ ((t : ℕ) × LastChange es t × (t + debounce cfg ≤ now))
  fires-LastChange_iff es s now h n = (
    λ can. elim (Option-cases s.due) [
      | inl e ↦ absurd (can (step-no_timer s now n e))
      | inr (d, e) ↦ elim (run-SetBy es _ s d h e) [
        | inl (t, c, k) ↦ let le = (step-due_iff s now d n e).0 can in (t, c, omega arith)
        | inr (q, k) ↦ absurd cc
      ]
    ],
    λ (t, c, le). (step-due_iff s now (t + debounce cfg) n (run-LastChange es _ s h c)).1 le,
  )

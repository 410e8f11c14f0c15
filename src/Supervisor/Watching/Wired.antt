-- ===== src/Supervisor/Watching/Wired.antt =====
-- A run of a watcher with its process, as the watcher sees it.
use gopm.Base.{
  ℕ, ◌≡◌, refl, sym, ap, ◌∙◌, ◌⊎◌, inl, inr, Bool, true, false, Option, none, some, List, [], ◌∷◌,
  arith, if◌then◌else◌, Bool-cases, Str,
}
use gopm.Supervisor.Watching.Signals.{Signals, step-Signals}
use gopm.Config.{WatchConfig}
use gopm.Watcher.{Watcher}
use gopm.Watcher.Tree.{Entry}
use gopm.Watcher.Loop as Watching
use gopm.Watcher.Loop.{
  Loop, stop, changed, events_closed, fires, failed, errors_closed, close, take, debounce,
}
use gopm.Watcher.Loop.Debounce.{is_fires}
use gopm.Supervisor.Loop as Loops
use gopm.Supervisor.Loop.{
  Task, Outcome, running, killing_rebuild, rebuild_seen, dispatch, request_stop, notify_rebuild,
}
use gopm.Supervisor.Watching.{
  Watched, Move, watches, supervises, is_take, move, moves, after_watch, asks_stop, after_step,
}

abbrev pub is_watch : Move → Bool
is_watch (watches now e) = true
is_watch _ = false

-- What the watcher does in a run: its own steps, and the receipts of its signal by the process.
pub data Projects : List Move → List (ℕ × Watching.Event) → Type 0 where
  at_end : Projects [] []
  of_watcher :
      {now : ℕ} {e : Watching.Event} {ms : List Move} {es : List (ℕ × Watching.Event)}
      → Projects ms es
      → Projects (watches now e ∷ ms) ((now, e) ∷ es)
  unseen :
      {m : Move} {ms : List Move} {es : List (ℕ × Watching.Event)}
      → is_watch m ≡ false
      → Projects ms es
      → Projects (m ∷ ms) es
  received :
      {now : ℕ} {e : Loops.Event} {ms : List Move} {es : List (ℕ × Watching.Event)}
      → Projects ms es
      → Projects (supervises now e ∷ ms) ((now, take) ∷ es)

module _ (clean_abs : Str → Str) (ext : Str → Str) (lower : Str → Str) (abs_under : Str → Str → Str)
    (lstat : Str → Option Entry) (add_watch : Str → Option Str) (w : Watcher) (cfg : WatchConfig)
    (root : Str) where
  abbrev pub stepped : Loop → ℕ → Watching.Event → Option Loop
  stepped = Watching.step clean_abs ext lower abs_under lstat add_watch w cfg root

  abbrev pub ran : List (ℕ × Watching.Event) → Loop → Option Loop
  ran = Watching.run clean_abs ext lower abs_under lstat add_watch w cfg root

  abbrev pub moved : Watched → Move → Option Watched
  moved = move clean_abs ext lower abs_under lstat add_watch w cfg root

  abbrev pub all_moved : Watched → List Move → Option Watched
  all_moved = moves clean_abs ext lower abs_under lstat add_watch w cfg root

  stepped-pending :
      (l u : Loop) (now : ℕ) (e : Watching.Event)
      → stepped l now e ≡ some u
      → is_take e ≡ false
      → u.pending ≡ (if is_fires e then true else l.pending)
  stepped-pending l u now stop h k = ground arith
  stepped-pending l u now (changed ev here) h k = ground arith
  stepped-pending l u now events_closed h k = ground arith
  stepped-pending l u now fires h k = ground arith
  stepped-pending l u now (failed err) h k = ground arith
  stepped-pending l u now errors_closed h k = ground arith
  stepped-pending l u now close h k = ground arith
  stepped-pending l u now take h k = cc

  stepped-take :
      (l : Loop) (now : ℕ)
      → l.pending ≡ true
      → stepped l now take ≡ some (record l { pending = false })
  stepped-take l now h = elim (Bool-cases l.done) [
    | inl e ↦ rw (e, h) refl
    | inr e ↦ rw (e, h) refl
  ]

  -- The signal that the watcher has sent is the one in the channel of the process.
  abbrev pub Wired : Watched → Type 0
  Wired s = s.loop.pending ≡ s.task.mp.rebuild_ch

  -- What a move is for the watcher.
  abbrev Shows : Watched → Move → Watched → Type 0
  Shows s (watches now e) u = stepped s.loop now e ≡ some u.loop
  Shows s (supervises now e) u = (u.loop ≡ s.loop) ⊎ (stepped s.loop now take ≡ some u.loop)
  Shows s asks_stop u = u.loop ≡ s.loop

  abbrev Moved : Watched → Move → Option Watched → Type 0
  Moved s m none = Unit
  Moved s m (some u) = Wired u × Shows s m u

  signalled :
      (b : Bool) (l u : Loop) (t : Task)
      → u.pending ≡ (if b then true else l.pending)
      → l.pending ≡ t.mp.rebuild_ch
      → u.pending ≡ (if b then notify_rebuild t else t).mp.rebuild_ch
  signalled true l u t h g = h
  signalled false l u t h g = h ∙ g

  watch-Moved :
      (s : Watched) (now : ℕ) (e : Watching.Event) (o : Option Loop)
      → stepped s.loop now e ≡ o
      → is_take e ≡ false
      → Wired s
      → Moved s (watches now e) (after_watch e s.task o)
  watch-Moved s now e none h k g = tt
  watch-Moved s now e (some u) h k g =
      (signalled (is_fires e) s.loop u s.task (stepped-pending s.loop u now e h k) g, h)

  supervise-Moved :
      (s : Watched) (now : ℕ) (e : Loops.Event) (o : Option Outcome)
      → Signals s.task.mp o
      → Wired s
      → Moved s (supervises now e) (after_step s.loop o)
  supervise-Moved s now e none k g = tt
  supervise-Moved s now e (some o) (inl same) g =
      (refl, inl (ap (λ b. record (s.loop) { pending = b }) (same ∙ sym g)))
  supervise-Moved s now e (some o) (inr (there, gone)) g = (
    refl,
    inr (
        stepped-take s.loop now (g ∙ there)
        ∙ ap (λ b. some (record (s.loop) { pending = b })) (sym gone)),
  )

  move-Moved : (s : Watched) (m : Move) → Wired s → Moved s m (moved s m)
  move-Moved s (watches now e) g = elim (Bool-cases (is_take e)) [
    | inl k ↦ rw k tt
    | inr k ↦ rw k (watch-Moved s now e (stepped s.loop now e) refl k g)
  ]
  move-Moved s (supervises now e) g =
      supervise-Moved s now e (Loops.step s.task e) (step-Signals s.task e) g
  move-Moved s asks_stop g = (g, refl)

  -- A run of both is a run of the watcher.
  abbrev pub Ran : Watched → List Move → Option Watched → Type 0
  Ran s ms none = Unit
  Ran s ms (some t) =
      Wired t × ((es : List (ℕ × Watching.Event)) × Projects ms es × (ran es s.loop ≡ some t.loop))

  prepend :
      (s u : Watched) (m : Move) (ms : List Move) (o : Option Watched)
      → Shows s m u
      → Ran u ms o
      → Ran s (m ∷ ms) o
  prepend s u m ms none h r = tt
  prepend s u (watches now e) ms (some t) h (g, (es, p, e')) =
      (g, ((now, e) ∷ es, of_watcher p, rw h e'))
  prepend s u (supervises now e) ms (some t) (inl h) (g, (es, p, e')) =
      (g, (es, unseen refl p, rw (← h) e'))
  prepend s u (supervises now e) ms (some t) (inr h) (g, (es, p, e')) =
      (g, ((now, take) ∷ es, received p, rw h e'))
  prepend s u asks_stop ms (some t) h (g, (es, p, e')) = (g, (es, unseen refl p, rw (← h) e'))

  pub moves-Ran : (ms : List Move) (s : Watched) → Wired s → Ran s ms (all_moved s ms)
  unfolding moves
  moves-Ran [] s g = (g, ([], at_end, refl))
  moves-Ran (m ∷ ms) s g = and_then s m ms (moved s m) (move-Moved s m g) λ u k. moves-Ran ms u k
    where
      and_then :
          (v : Watched) (n : Move) (ns : List Move) (o : Option Watched)
          → Moved v n o
          → ((u : Watched) → Wired u → Ran u ns (all_moved u ns))
          → Ran v (n ∷ ns) (elim o [ none ↦ none | some u ↦ all_moved u ns ])
      and_then v n ns none h rest = tt
      and_then v n ns (some u) (k, h) rest = prepend v u n ns (all_moved u ns) h (rest u k)

-- ===== src/Supervisor/Watching/Changes.antt =====
-- A change of a file reaches the process.
use gopm.Base.{
  ℕ, ◌+◌, ◌≤◌, ◌≡◌, refl, sym, inl, inr, Bool, true, false, Option, some, List, [], ◌∷◌,
  Option-cases, Str,
}
use gopm.Config.{WatchConfig}
use mathlib.Core.Path.{subst}
use gopm.Watcher.{Watcher}
use gopm.Watcher.Tree.{Entry}
use gopm.Watcher.Loop as Watching
use gopm.Watcher.Loop.{
  Loop, stop, changed, events_closed, fires, failed, errors_closed, close, take, debounce,
}
use gopm.Watcher.Loop.Debounce.{
  is_fires, relevant, Quiet, LastChange, last, earlier, fires-LastChange_iff,
}
use gopm.Supervisor.Loop as Loops
use gopm.Supervisor.Loop.{
  Task, Outcome, running, killing_rebuild, rebuild_seen, dispatch, request_stop, notify_rebuild,
}
use gopm.Supervisor.Watching.{
  Watched, Move, watches, supervises, move, moves, asks_stop, after_step, watched,
}
use gopm.Supervisor.Watching.Wired.{
  Projects, at_end, of_watcher, unseen, received, stepped, Ran, moves-Ran,
}

module _ (clean_abs : Str → Str) (ext : Str → Str) (lower : Str → Str) (abs_under : Str → Str → Str)
    (lstat : Str → Option Entry) (add_watch : Str → Option Str) (w : Watcher) (cfg : WatchConfig)
    (root : Str) where
  abbrev matters : Watching.Event → Bool
  matters = relevant clean_abs ext lower abs_under lstat add_watch w cfg root

  -- No change that calls for a rebuild, and no signal of the watcher.
  abbrev pub QuietMoves : List Move → Type 0
  QuietMoves [] = Unit
  QuietMoves (watches now e ∷ ms) = (matters e ≡ false) × (is_fires e ≡ false) × QuietMoves ms
  QuietMoves (supervises now e ∷ ms) = QuietMoves ms
  QuietMoves (asks_stop ∷ ms) = QuietMoves ms

  -- The last change that calls for a rebuild was at a time, and no signal came after it.
  pub data LastSeen : List Move → ℕ → Type 0 where
    seen :
        {now : ℕ} {e : Watching.Event} {ms : List Move}
        → matters e ≡ true
        → QuietMoves ms
        → LastSeen (watches now e ∷ ms) now
    sooner : {t : ℕ} {m : Move} {ms : List Move} → LastSeen ms t → LastSeen (m ∷ ms) t

  Quiet-projected :
      (ms : List Move) (es : List (ℕ × Watching.Event))
      → Projects ms es
      → QuietMoves ms
      → Quiet clean_abs ext lower abs_under lstat add_watch w cfg root es
  Quiet-projected [] es at_end q = tt
  Quiet-projected (watches now e ∷ ms) es (of_watcher p) (a, b, q) =
      (a, b, Quiet-projected ms _ p q)
  Quiet-projected (watches now e ∷ ms) es (unseen h p) q = cc
  Quiet-projected (supervises now e ∷ ms) es (unseen h p) q = Quiet-projected ms es p q
  Quiet-projected (supervises now e ∷ ms) es (received p) q = (refl, refl, Quiet-projected ms _ p q)
  Quiet-projected (asks_stop ∷ ms) es (unseen h p) q = Quiet-projected ms es p q

  LastChange-projected :
      (ms : List Move) (es : List (ℕ × Watching.Event)) (t : ℕ)
      → Projects ms es
      → LastSeen ms t
      → LastChange clean_abs ext lower abs_under lstat add_watch w cfg root es t
  LastChange-projected [] es t p l = elim l [ ]
  LastChange-projected (m ∷ ms) es t (of_watcher p) (seen r q) = last r (Quiet-projected ms _ p q)
  LastChange-projected (m ∷ ms) es t (unseen h p) (seen r q) = cc
  LastChange-projected (m ∷ ms) es t (of_watcher p) (sooner l) =
      earlier (LastChange-projected ms _ t p l)
  LastChange-projected (m ∷ ms) es t (unseen h p) (sooner l) = LastChange-projected ms es t p l
  LastChange-projected (m ∷ ms) es t (received p) (sooner l) =
      earlier (LastChange-projected ms _ t p l)

  -- A signal in the channel ends the wait for a running child.
  seen_running :
      (l : Loop) (t : Task) (hc : Bool)
      → t.phase ≡ running hc
      → t.mp.rebuild_ch ≡ true
      → (v : Watched) × (after_step l (Loops.step t rebuild_seen) ≡ some v)
        × (v.task.phase ≡ killing_rebuild)
  unfolding Loops.step dispatch
  seen_running l t hc p r = (
    record {
      loop = record l { pending = false };
      task = record { mp = record (t.mp) { rebuild_ch = false }; phase = killing_rebuild };
    },
    rw (p, r) refl,
    refl,
  )

  -- However the steps of a watcher and of its process were interleaved, a change is not lost: where the
  -- watcher runs and the child does, and the last change that calls for a rebuild was longer ago than
  -- the debounce time, or just as long, with no signal since, the watcher can send its signal, and then
  -- the process can take it, upon which it ends the child for a rebuild.
  pub change-rebuild :
      (begun : Task) (ms : List Move) (s : Watched) (hc : Bool) (changed_at now : ℕ)
      → begun.mp.rebuild_ch ≡ false
      → moves clean_abs ext lower abs_under lstat add_watch w cfg root
          (watched clean_abs ext lower abs_under lstat add_watch w cfg root begun)
          ms
        ≡ some s
      → s.loop.done ≡ false
      → s.task.phase ≡ running hc
      → LastSeen ms changed_at
      → changed_at + debounce cfg ≤ now
      → (u v : Watched) × (move clean_abs ext lower abs_under lstat add_watch w cfg root s
            (watches now fires)
          ≡ some u)
        × (move clean_abs ext lower abs_under lstat add_watch w cfg root u
              (supervises now rebuild_seen)
            ≡ some v)
        × (v.task.phase ≡ killing_rebuild)
  change-rebuild begun ms s hc changed_at now fresh ran_to up in_phase l le =
      let (g, (es, p, e)) =
        subst
          (Ran clean_abs ext lower abs_under lstat add_watch w cfg root
            (watched clean_abs ext lower abs_under lstat add_watch w cfg root begun) ms)
          ran_to
          (moves-Ran clean_abs ext lower abs_under lstat add_watch w cfg root ms
            (watched clean_abs ext lower abs_under lstat add_watch w cfg root begun) (sym fresh)) in
      let can =
        (fires-LastChange_iff clean_abs ext lower abs_under lstat add_watch w cfg root es s.loop now
            e up).1
          (changed_at, LastChange-projected ms es changed_at p l, le) in
      elim (Option-cases
        (stepped clean_abs ext lower abs_under lstat add_watch w cfg root s.loop now fires)) [
          | inl n ↦ absurd (can n)
          | inr (k, n) ↦
              let (v, took, ends) = seen_running k (notify_rebuild s.task) hc in_phase refl in
              (record { loop = k; task = notify_rebuild s.task }, v, rw n refl, took, ends)
        ]

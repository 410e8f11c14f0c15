-- ===== src/Cli/Commands/Kept.antt =====
-- What `gopm start` sends to the daemon.
use gopm.Base.{◌≡◌, ◌⊎◌, true, not, ◌||◌, List, [], ◌∷◌, is_empty, Str, is_blank}
use gopm.Config.{AppConfig}
use gopm.Ipc.{cmd_list, cmd_start, Request}
use gopm.Cli.Shell.{World, Shell, Run, returned, exited, Cmd}
use gopm.Cli.Start.{in_group}
use gopm.Cli.Commands.{bare}

-- The state that a command leaves.
abbrev pub final : {S A : Type 0} → Run S A → S
final (returned a h) = h.state
final (exited code text h) = h.state

module _ {S : Type 0} (w : World S) where
  -- The path is absent, or absolute.
  abbrev pub Anchored : Str → Type 0
  Anchored p = (is_blank p || w.is_abs p) ≡ true

  -- The paths of an app are anchored, and it is in the group, if there is one.
  abbrev pub SoundApp : Str → AppConfig → Type 0
  SoundApp group a =
      Anchored a.cwd
      × Anchored a.log_file
      × Anchored a.env_file
      × ((is_blank group || in_group group a) ≡ true)

  abbrev pub SoundApps : Str → List AppConfig → Type 0
  SoundApps group [] = Unit
  SoundApps group (a ∷ apps) = SoundApp group a × SoundApps group apps

  -- A request to start apps of a group, one at least if it is named, or one to list.
  abbrev pub Sound : Request → Type 0
  Sound req =
      (req ≡ bare cmd_list)
      ⊎ ((req.command ≡ cmd_start)
          × SoundApps req.group req.apps
          × ((is_blank req.group || not (is_empty req.apps)) ≡ true))

  module _ (Inv : S → Type 0) (spawns : (s : S) (bin : Str) → Inv s → Inv (w.spawn s bin).0)
      (waits : (s : S) → Inv s → Inv (w.wait s))
      (sends : (s : S) (req : Request) → Sound req → Inv s → Inv (w.send s req).0) where
    abbrev Keeps : {A : Type 0} → Cmd S A → Type 0
    Keeps m = (h : Shell S) → Inv h.state → Inv (final (m h))

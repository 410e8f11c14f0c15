-- ===== src/Scenarios/Changes.antt =====
-- A change of a file beside a running child.
use gopm.Base.{◌≡◌, refl, false, none, some, [], ◌∷◌, arith, str_eq, has_prefix}
use gopm.Watcher.{should_fire, is_ignored, is_under}
use gopm.Watcher.Loop.{changed, fires}
use gopm.Supervisor.Watching.{Watched, watches, supervises, move, moves}
use gopm.Supervisor.Watching.Changes.{seen, change-rebuild}
use gopm.Supervisor.Loop.{killing_rebuild, rebuild_seen, enter, loop_top}
use gopm.Supervisor.Process.{new_managed_process}
use gopm.Scenarios.{web, up}
use gopm.Scenarios.Services.{same, watch, change}
use gopm.Scenarios.Shells.{watch_config, accepted, begun}

abbrev changed_once : Watched
changed_once = record { loop = record begun { due = some 300000005 }; task = up }

change-rebuild_example :
    (u v : Watched) × (move same same same
        (λ r p. p)
        (λ p. none)
        accepted
        watch
        watch_config
        web
        changed_once
        (watches 300000005 fires)
      ≡ some u)
    × (move same same same
          (λ r p. p)
          (λ p. none)
          accepted
          watch
          watch_config
          web
          u
          (supervises 300000005 rebuild_seen)
        ≡ some v)
    × (v.task.phase ≡ killing_rebuild)
unfolding should_fire is_ignored is_under str_eq has_prefix moves enter new_managed_process loop_top
change-rebuild_example =
    change-rebuild same same same (λ r p. p) (λ p. none) accepted watch watch_config web up
      (watches 5 (changed change none) ∷ []) changed_once false 5 300000005 refl refl refl refl
      (seen refl tt) (omega arith)

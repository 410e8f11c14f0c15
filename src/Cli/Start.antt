-- ===== src/Cli/Start.antt =====
-- cmd/gopm/main.go: what `gopm start` makes of a configuration, and `cmdStart`.
use gopm.Base.{Bool, not, ◌&&◌, List, if◌then◌else◌, select, any, Str, str_eq, is_blank}
use gopm.Config.{AppConfig}
use gopm.Cli.Shell.{World}

module _ {S : Type 0} (w : World S) where
  abbrev pub against : Str → Str → Str
  against cfg_dir p = if not (is_blank p) && not (w.is_abs p) then w.join cfg_dir p else p

  -- The body of the loop that resolves the paths of an app.
  unfoldable pub resolved : Str → AppConfig → AppConfig
  resolved cfg_dir a = record a {
    cwd = against cfg_dir a.cwd;
    log_file = against cfg_dir a.log_file;
    env_file = against cfg_dir a.env_file;
  }

-- The loop that keeps the apps of a group.
abbrev pub in_group : Str → AppConfig → Bool
in_group group app = any (λ (g : Str). str_eq g group) app.groups

unfoldable pub filtered : Str → List AppConfig → List AppConfig
filtered group apps = if is_blank group then apps else select (in_group group) apps

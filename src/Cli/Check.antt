-- ===== src/Cli/Check.antt =====
-- cmd/gopm/main.go: `validateConfigPaths` and `cmdValidate`. What os.Stat finds at a path is a
-- parameter, and so are the texts of its errors and `%q`.
pub mod Issues
use gopm.Base.{
  ℕ, zero, suc, ◌+◌, ◌-◌, ◌*◌, ◌/◌, ◌%◌, ◌^◌, ◌≤◌, ◌<◌, min, ◌≡◌, refl, sym, ap, ◌∙◌, ◌≢◌, ◌↔◌, ◌⊎◌,
  inl, inr, Bool, true, false, not, ◌&&◌, ◌||◌, Option, none, some, List, [], ◌∷◌, ◌++◌, map,
  append-nil, append_assoc, arith, ltb, leb, ◌==◌, if◌then◌else◌, ltb→lt, lt→ltb, leb→le, ==_iff,
  Bool-cases, Option-cases, length, get_or, set, take, drop, replicate, snoc, select, any, every,
  is_empty, last_n, length-append, length-set, get_or-set_self, get_or-set_ne, length-replicate,
  length-drop, drop_all, drop-append_left, drop-drop, drop-zero_eq, Str, codes, str_eq, is_blank,
  has_prefix, contains, str_eq_refl, eq_of_str_eq, str_eq_iff, has_prefix-append, has_prefix_iff,
}
use gopm.Base.Decimal.{decimal}
use gopm.Config.{AppConfig, GopmConfig, LoadResult, loaded, resolve_path}
use gopm.Cli.Shell.{World, Cmd, exited, die, print_line, print_lines, ◌>>=◌, ◌>>◌}

-- What is at a path: an error with its text, a directory, or something else.
pub data Stat : Type 0 where
  stat_error : Str → Stat
  is_dir : Stat
  is_other : Stat

module _ (is_abs : Str → Bool) (join : Str → Str → Str) (dir : Str → Str) (stat : Str → Stat)
    (quoted : Str → Str) (config_path : Str) where
  abbrev pub at : Str → Str
  at = resolve_path is_abs join dir config_path

  abbrev pub issue : AppConfig → Str → Str → Str → Str
  issue app kind path text = app.name ++ codes ": " ++ kind ++ codes " " ++ quoted path ++ text

  abbrev pub dir_issue : AppConfig → Str → Str → Stat → List Str
  dir_issue app kind path (stat_error err) =
      issue app kind path (codes " is not accessible: " ++ err) ∷ []
  dir_issue app kind path is_dir = []
  dir_issue app kind path is_other = issue app kind path (codes " is not a directory") ∷ []

  abbrev pub cwd_issues : AppConfig → List Str
  cwd_issues app =
      if is_blank app.cwd then [] else dir_issue app (codes "cwd") (at app.cwd) (stat (at app.cwd))

  abbrev pub log_issue : AppConfig → Str → Stat → List Str
  log_issue app path is_other =
      issue app (codes "log directory") path (codes " is not a directory") ∷ []
  log_issue app path _ = []

  abbrev pub log_issues : AppConfig → List Str
  log_issues app =
      if is_blank app.log_file
      then []
      else log_issue app (dir (at app.log_file)) (stat (dir (at app.log_file)))

  abbrev pub root : AppConfig → Str
  root app = let r = at app.cwd in if is_blank r then dir config_path else r

  abbrev pub watch_dir : AppConfig → Str → Str
  watch_dir app d = if is_abs d then d else join (root app) d

  abbrev pub watch_dir_issues : AppConfig → List Str → List Str
  watch_dir_issues app [] = []
  watch_dir_issues app (d ∷ ds) =
      dir_issue app (codes "watch dir") (watch_dir app d) (stat (watch_dir app d))
      ++ watch_dir_issues app ds

  abbrev pub watch_issues : AppConfig → List Str
  watch_issues app =
      if app.watch.enabled
      then (if is_empty app.watch.dirs
          then (app.name ++ codes ": watch.enabled is true but watch.dirs is empty") ∷ []
          else [])
        ++ watch_dir_issues app app.watch.dirs
      else []

  -- The body of the loop over the apps.
  unfoldable pub app_issues : AppConfig → List Str
  app_issues app = cwd_issues app ++ log_issues app ++ watch_issues app

  abbrev pub all_issues : List AppConfig → List Str
  all_issues [] = []
  all_issues (app ∷ apps) = app_issues app ++ all_issues apps

  -- `validateConfigPaths`
  unfoldable pub validate_config_paths : GopmConfig → List Str
  validate_config_paths cfg = all_issues cfg.apps

-- `cmdValidate`
module _ {S : Type 0} (w : World S) (stat : Str → Stat) where
  abbrev pub report : Str → ℕ → List Str → Cmd S (Unit {0})
  report cfg_path n [] =
      print_line (cfg_path ++ codes " is valid (" ++ decimal n ++ codes " app(s))")
  report cfg_path n (i ∷ issues) = do
    print_line (
        cfg_path
        ++ codes " parsed, but has "
        ++ decimal (length (i ∷ issues))
        ++ codes " issue(s):")
    print_lines (map (λ (t : Str). codes "  - " ++ t) (i ∷ issues))
    exited 1 []

  abbrev pub validate_loaded : Str → LoadResult → Cmd S (Unit {0})
  validate_loaded cfg_path (loaded cfg) =
      report cfg_path (length cfg.apps)
        (validate_config_paths w.is_abs w.join w.dir stat w.quoted cfg_path cfg)
  validate_loaded cfg_path r = die (w.load_error r)

  abbrev pub validate_at : Option Str → Cmd S (Unit {0})
  validate_at none = die w.abs_error
  validate_at (some cfg_path) = validate_loaded cfg_path (w.load_config cfg_path)

  unfoldable pub validate_command : List Str → Cmd S (Unit {0})
  validate_command [] = die (codes "validate: missing path to gopm.yaml")
  validate_command (path ∷ args) = validate_at (w.abs path)

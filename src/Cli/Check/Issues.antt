-- ===== src/Cli/Check/Issues.antt =====
-- When `gopm validate` has nothing to say.
use gopm.Base.{
  ◌≡◌, refl, ◌≢◌, ◌↔◌, ◌⊎◌, inl, inr, Bool, true, false, List, [], ◌∷◌, ◌++◌, if◌then◌else◌,
  Bool-cases, is_empty, Str, codes, is_blank,
}
use gopm.Config.{AppConfig, GopmConfig, resolve_path}
use gopm.Cli.Check.{
  Stat, stat_error, is_dir, is_other, dir_issue, cwd_issues, log_issue, log_issues, watch_dir,
  watch_dir_issues, watch_issues, app_issues, all_issues, validate_config_paths,
}

module _ (is_abs : Str → Bool) (join : Str → Str → Str) (dir : Str → Str) (stat : Str → Stat)
    (quoted : Str → Str) (config_path : Str) where
  -- Every directory that an app watches is there.
  abbrev pub AllDirs : (Str → Str) → List Str → Type 0
  AllDirs place [] = Unit
  AllDirs place (d ∷ ds) = (stat (place d) ≡ is_dir) × AllDirs place ds

  abbrev pub path_at : Str → Str
  path_at = resolve_path is_abs join dir config_path

  -- Where the directories that an app watches start from.
  abbrev pub base_of : AppConfig → Str
  base_of app = if is_blank (path_at app.cwd) then dir config_path else path_at app.cwd

  -- The working directory is a directory, what holds the log file is no file, and directories to
  -- watch are given and are directories, as far as the app has these.
  abbrev pub Usable : AppConfig → Type 0
  Usable app =
      ((is_blank app.cwd ≡ true) ⊎ (stat (path_at app.cwd) ≡ is_dir))
      × ((is_blank app.log_file ≡ true) ⊎ (stat (dir (path_at app.log_file)) ≢ is_other))
      × ((app.watch.enabled ≡ false)
          ⊎ ((is_empty app.watch.dirs ≡ false)
              × AllDirs (λ d. if is_abs d then d else join (base_of app) d) app.watch.dirs))

  abbrev pub AllUsable : List AppConfig → Type 0
  AllUsable [] = Unit
  AllUsable (app ∷ apps) = Usable app × AllUsable apps

  append-nil_iff : (xs ys : List Str) → (xs ++ ys ≡ []) ↔ ((xs ≡ []) × (ys ≡ []))
  append-nil_iff [] ys = (λ h. (refl, h), λ h. h.1)
  append-nil_iff (x ∷ xs) ys = (λ h. absurd cc, λ h. absurd cc)

  dir_issue-nil_iff :
      (app : AppConfig) (kind path : Str) (s : Stat)
      → (dir_issue is_abs join dir stat quoted config_path app kind path s ≡ []) ↔ (s ≡ is_dir)
  dir_issue-nil_iff app kind path (stat_error err) = (λ h. absurd cc, λ h. absurd cc)
  dir_issue-nil_iff app kind path is_dir = (λ h. refl, λ h. refl)
  dir_issue-nil_iff app kind path is_other = (λ h. absurd cc, λ h. absurd cc)

  log_issue-nil_iff :
      (app : AppConfig) (path : Str) (s : Stat)
      → (log_issue is_abs join dir stat quoted config_path app path s ≡ []) ↔ (s ≢ is_other)
  log_issue-nil_iff app path (stat_error err) = (λ h z. cc, λ h. refl)
  log_issue-nil_iff app path is_dir = (λ h z. cc, λ h. refl)
  log_issue-nil_iff app path is_other = (λ h. absurd cc, λ h. absurd (h refl))

  watch_dir_issues-nil_iff :
      (app : AppConfig) (ds : List Str)
      → (watch_dir_issues is_abs join dir stat quoted config_path app ds ≡ [])
        ↔ AllDirs (λ d. if is_abs d then d else join (base_of app) d) ds
  watch_dir_issues-nil_iff app [] = (λ h. tt, λ h. refl)
  watch_dir_issues-nil_iff app (d ∷ ds) =
      let p = watch_dir is_abs join dir stat quoted config_path app d in
      let a =
        append-nil_iff
          (dir_issue is_abs join dir stat quoted config_path app (codes "watch dir") p (stat p))
          (watch_dir_issues is_abs join dir stat quoted config_path app ds) in
      let b = dir_issue-nil_iff app (codes "watch dir") p (stat p) in
      let c = watch_dir_issues-nil_iff app ds in
      (λ h. let (x, y) = a.0 h in (b.0 x, c.0 y), λ h. a.1 (b.1 h.0, c.1 h.1))

  if-nil_iff : (b : Bool) (xs : List Str) → ((if b then [] else xs) ≡ []) ↔ ((b ≡ true) ⊎ (xs ≡ []))
  if-nil_iff true xs = (λ h. inl refl, λ h. refl)
  if-nil_iff false xs = (λ h. inr h, λ h. elim h [ inl z ↦ absurd cc | inr z ↦ z ])

  -- The one issue of an empty list, and those of its elements.
  missing-nil_iff :
      (b : Bool) (x : Str) (xs : List Str)
      → ((if b then x ∷ [] else []) ++ xs ≡ []) ↔ ((b ≡ false) × (xs ≡ []))
  missing-nil_iff true x xs = (λ h. absurd cc, λ h. absurd cc)
  missing-nil_iff false x xs = (λ h. (refl, h), λ h. h.1)

  cwd_issues-nil_iff :
      (app : AppConfig)
      → (cwd_issues is_abs join dir stat quoted config_path app ≡ [])
        ↔ ((is_blank app.cwd ≡ true) ⊎ (stat (path_at app.cwd) ≡ is_dir))
  cwd_issues-nil_iff app =
      let xs =
        dir_issue is_abs join dir stat quoted config_path app (codes "cwd") (path_at app.cwd)
          (stat (path_at app.cwd)) in
      let a = if-nil_iff (is_blank app.cwd) xs in
      let b = dir_issue-nil_iff app (codes "cwd") (path_at app.cwd) (stat (path_at app.cwd)) in
      (
        λ h. elim (a.0 h) [ inl z ↦ inl z | inr z ↦ inr (b.0 z) ],
        λ h. a.1 (elim h [ inl z ↦ inl z | inr z ↦ inr (b.1 z) ]),
      )

  log_issues-nil_iff :
      (app : AppConfig)
      → (log_issues is_abs join dir stat quoted config_path app ≡ [])
        ↔ ((is_blank app.log_file ≡ true) ⊎ (stat (dir (path_at app.log_file)) ≢ is_other))
  log_issues-nil_iff app =
      let p = dir (path_at app.log_file) in
      let a =
        if-nil_iff (is_blank app.log_file)
          (log_issue is_abs join dir stat quoted config_path app p (stat p)) in
      let b = log_issue-nil_iff app p (stat p) in
      (
        λ h. elim (a.0 h) [ inl z ↦ inl z | inr z ↦ inr (b.0 z) ],
        λ h. a.1 (elim h [ inl z ↦ inl z | inr z ↦ inr (b.1 z) ]),
      )

  watch_issues-nil_iff :
      (app : AppConfig)
      → (watch_issues is_abs join dir stat quoted config_path app ≡ []) ↔ (
          (app.watch.enabled ≡ false)
          ⊎ ((is_empty app.watch.dirs ≡ false)
              × AllDirs (λ d. if is_abs d then d else join (base_of app) d) app.watch.dirs))
  watch_issues-nil_iff app =
      let m =
        missing-nil_iff (is_empty app.watch.dirs)
          (app.name ++ codes ": watch.enabled is true but watch.dirs is empty")
          (watch_dir_issues is_abs join dir stat quoted config_path app app.watch.dirs) in
      let d = watch_dir_issues-nil_iff app app.watch.dirs in
      elim (Bool-cases app.watch.enabled) [
        | inl e ↦ rw e (
          λ h. let (x, y) = m.0 h in inr (x, d.0 y),
          λ h. elim h [ inl z ↦ absurd cc | inr (x, y) ↦ m.1 (x, d.1 y) ],
        )
        | inr e ↦ rw e (λ h. inl refl, λ h. refl)
      ]

  app_issues-nil_iff :
      (app : AppConfig) → (app_issues is_abs join dir stat quoted config_path app ≡ []) ↔ Usable app
  unfolding app_issues
  app_issues-nil_iff app =
      let cs = cwd_issues is_abs join dir stat quoted config_path app in
      let ls = log_issues is_abs join dir stat quoted config_path app in
      let ws = watch_issues is_abs join dir stat quoted config_path app in
      let a = append-nil_iff (cs ++ ls) ws in
      let b = append-nil_iff cs ls in
      let c = cwd_issues-nil_iff app in
      let l = log_issues-nil_iff app in
      let w = watch_issues-nil_iff app in
      (
        λ h. let (x, y) = a.0 h in let (u, v) = b.0 x in (c.0 u, l.0 v, w.0 y),
        λ (u, v, y). a.1 (b.1 (c.1 u, l.1 v), w.1 y),
      )

  all_issues-nil_iff :
      (apps : List AppConfig)
      → (all_issues is_abs join dir stat quoted config_path apps ≡ []) ↔ AllUsable apps
  all_issues-nil_iff [] = (λ h. tt, λ h. refl)
  all_issues-nil_iff (app ∷ apps) =
      let a =
        append-nil_iff (app_issues is_abs join dir stat quoted config_path app)
          (all_issues is_abs join dir stat quoted config_path apps) in
      let b = app_issues-nil_iff app in
      let c = all_issues-nil_iff apps in
      (λ h. let (x, y) = a.0 h in (b.0 x, c.0 y), λ h. a.1 (b.1 h.0, c.1 h.1))

  -- `gopm validate` finds no issue with the paths of a configuration exactly if each app is usable:
  -- its working directory is a directory, what holds its log file is no file, and where it watches
  -- files, directories are given, and they are directories.
  pub validate_config_paths-eq-nil_iff :
      (cfg : GopmConfig)
      → (validate_config_paths is_abs join dir stat quoted config_path cfg ≡ [])
        ↔ AllUsable cfg.apps
  unfolding validate_config_paths
  validate_config_paths-eq-nil_iff cfg = all_issues-nil_iff cfg.apps

-- ===== src/Watcher/Under.antt =====
-- `absUnder` of internal/watcher/watcher.go, over the functions of path/filepath: `is_abs`, `join`
-- and `clean` by their names, and `abs_of` for filepath.Abs, which fails with `none`. `getwd` is the
-- answer of os.Getwd.
use gopm.Base.{Bool, Option, none, some, [], if◌then◌else◌, Str, is_blank}

abbrev known_dir : Option Str → Str
known_dir none = []
known_dir (some cwd) = cwd

module _ (is_abs : Str → Bool) (join : Str → Str → Str) (clean : Str → Str)
    (abs_of : Str → Option Str) (getwd : Option Str) where
  -- The directory that a relative path is taken from.
  abbrev base_dir : Str → Str
  base_dir root = if is_blank root then known_dir getwd else root

  abbrev rooted : Str → Str → Str
  rooted root p = if is_abs p then p else join (base_dir root) p

  unfoldable abs_under : Str → Str → Str
  abs_under root p = elim (abs_of (rooted root p)) [ none ↦ clean (rooted root p) | some a ↦ a ]

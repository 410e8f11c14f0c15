-- ===== src/Watcher.antt =====
-- internal/watcher/watcher.go: which changes of files fire a rebuild, and the numbers in the log
-- lines. `Tree` adds the directories to watch, and `Loop` is the goroutine with its debounce timer.
-- `separator` is the byte of filepath.Separator.
pub mod Filter
pub mod Itoa
pub mod Tree
pub mod Loop
pub mod Under
use gopm.Base.{
  ℕ, zero, suc, ◌+◌, ◌-◌, ◌*◌, ◌/◌, ◌%◌, ◌^◌, ◌≤◌, ◌<◌, min, ◌≡◌, refl, sym, ap, ◌∙◌, ◌≢◌, ◌↔◌, ◌⊎◌,
  inl, inr, Bool, true, false, not, ◌&&◌, ◌||◌, Option, none, some, List, [], ◌∷◌, ◌++◌, map,
  append-nil, append_assoc, arith, ltb, leb, ◌==◌, if◌then◌else◌, ltb→lt, lt→ltb, leb→le, ==_iff,
  Bool-cases, Option-cases, length, get_or, set, take, drop, replicate, snoc, select, any, every,
  is_empty, last_n, length-append, length-set, get_or-set_self, get_or-set_ne, length-replicate,
  length-drop, drop_all, drop-append_left, drop-drop, drop-zero_eq, Str, codes, str_eq, is_blank,
  has_prefix, contains, str_eq_refl, eq_of_str_eq, str_eq_iff, has_prefix-append, has_prefix_iff,
}
use gopm.Base.Int.{ℤ}
use gopm.Base.Decimal.{digits}
use gopm.Config.{WatchConfig}

abbrev pub separator : ℕ
separator = b'/'

-- The fields that the filters read; a Go map to `struct{}` is the list of its keys.
pub record Watcher : Type 0 where
  pub ext_set : List Str
  pub ignore_abs : List Str

-- An event, with the bits of its `Op`.
pub record FsEvent : Type 0 where
  pub name : Str
  pub op_create : Bool
  pub op_write : Bool
  pub op_remove : Bool
  pub op_rename : Bool
  pub op_chmod : Bool

-- The body of the loop of `isIgnored`.
unfoldable pub is_under : Str → Str → Bool
is_under path ig = str_eq path ig || has_prefix path (ig ++ (separator ∷ []))

-- `clean_abs` stands for filepath.Clean after filepath.Abs, `ext` for filepath.Ext, `lower` for
-- strings.ToLower, and `abs_under` for the function `absUnder`, which `Under` defines.
module _ (clean_abs : Str → Str) (ext : Str → Str) (lower : Str → Str)
    (abs_under : Str → Str → Str) where
  -- The loop of `New` over the extensions.
  unfoldable pub ext_keys : List Str → List Str
  ext_keys [] = []
  ext_keys (e ∷ es) =
      let rest = ext_keys es in
      if is_blank e
      then rest
      else lower (if has_prefix e (codes ".") then e else codes "." ++ e) ∷ rest

  -- `New`, which fails if the watching is not enabled.
  unfoldable pub new : WatchConfig → Str → Option Watcher
  new cfg root =
      if not cfg.enabled
      then none
      else some (record {
        ext_set = ext_keys cfg.extensions;
        ignore_abs = map (abs_under root) cfg.ignore;
      })

  unfoldable pub is_ignored : Watcher → Str → Bool
  is_ignored w path = any (is_under (clean_abs path)) w.ignore_abs

  unfoldable pub should_fire : Watcher → FsEvent → Bool
  should_fire w ev =
      if not (ev.op_write || ev.op_create || ev.op_remove || ev.op_rename)
      then false
      else if is_ignored w ev.name
      then false
      else if is_empty w.ext_set
      then true
      else any (str_eq (lower (ext ev.name))) w.ext_set

-- `itoa`, with room for 20 bytes; an int64 is negated with wrap-around, so the least one stays.
unfoldable pub itoa : ℤ → Str
itoa (ℤ.pos n) = if n == 0 then codes "0" else digits 20 n []
itoa (ℤ.negsuc n) = codes "-" ++ (if suc n == 2 ^ 63 then [] else digits 20 (suc n) [])

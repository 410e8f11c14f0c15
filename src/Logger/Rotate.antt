-- ===== src/Logger/Rotate.antt =====
-- The log file of one process in internal/logger/logger.go: `rotate`.
pub mod Shift
pub mod Rotated
pub mod Refused
use gopm.Base.{
  ℕ, zero, suc, ◌+◌, ◌-◌, ◌*◌, ◌/◌, ◌%◌, ◌^◌, ◌≤◌, ◌<◌, min, ◌≡◌, refl, sym, ap, ◌∙◌, ◌≢◌, ◌↔◌, ◌⊎◌,
  inl, inr, Bool, true, false, not, ◌&&◌, ◌||◌, Option, none, some, List, [], ◌∷◌, ◌++◌, map,
  append-nil, append_assoc, arith, ltb, leb, ◌==◌, if◌then◌else◌, ltb→lt, lt→ltb, leb→le, ==_iff,
  Bool-cases, Option-cases, length, get_or, set, take, drop, replicate, snoc, select, any, every,
  is_empty, last_n, length-append, length-set, get_or-set_self, get_or-set_ne, length-replicate,
  length-drop, drop_all, drop-append_left, drop-drop, drop-zero_eq, Str, codes, str_eq, is_blank,
  has_prefix, contains, str_eq_refl, eq_of_str_eq, str_eq_iff, has_prefix-append, has_prefix_iff,
}
use gopm.Base.Int.{ℤ, is_nonpos, to_ℕ}
use gopm.Base.Decimal.{decimal}
use gopm.Base.Disk.{Disk, try_rename, remove_file, create, append_to}

-- `fmt.Sprintf("%s.%d", path, i)`
unfoldable pub backup : Str → ℕ → Str
backup path i = path ++ (b'.' ∷ decimal i)

-- `for i := k; i >= 1; i--`, each backup moved to the next number; errors are not
-- looked at.
unfoldable pub shift : Str → ℕ → Disk → Disk
shift path zero d = d
shift path (suc k) d = shift path k (try_rename (backup path (suc k)) (backup path (suc (suc k))) d)

-- The file part of a `procLog`; `file` tells whether the handle is open.
pub record LogFile : Type 0 where
  pub file : Bool
  pub log_path : Str
  pub log_size : ℕ
  pub log_max_bytes : ℤ
  pub log_max_backup : ℤ

unfoldable pub make_way : LogFile → Disk → Disk
make_way f d =
    if is_nonpos f.log_max_backup
    then remove_file f.log_path d
    else try_rename f.log_path (backup f.log_path 1)
        (shift f.log_path (to_ℕ f.log_max_backup - 1) d)

unfoldable pub rotate : LogFile → Disk → LogFile × Disk
rotate f d =
    if not f.file || is_blank f.log_path
    then (f, d)
    else (let d' = make_way f d in
        if d'.can_open f.log_path
        then (record f { file = true; log_size = 0 }, create f.log_path d')
        else (record f { file = false }, d'))

-- The file part of `append`: the stamped line, then a rotation if the limit is reached. Writes to
-- an open file succeed.
unfoldable pub append_line : Str → LogFile → Disk → LogFile × Disk
append_line text f d =
    if not f.file
    then (f, d)
    else (let d' = append_to f.log_path text d in
        let size = f.log_size + length text in
        if is_empty text || is_nonpos f.log_max_bytes
        then (f, d')
        else if leb (to_ℕ f.log_max_bytes) size
        then rotate (record f { log_size = size }) d'
        else (record f { log_size = size }, d'))

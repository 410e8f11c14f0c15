-- ===== src/Logger/Rotate/Refused.antt =====
-- What a rotation leaves where the renames are refused.
use gopm.Base.{
  ℕ, zero, suc, ◌-◌, ◌≡◌, refl, ap, ◌∙◌, ◌≢◌, true, false, some, [], arith, Str, is_blank,
  str_eq_iff,
}
use gopm.Base.Int.{is_nonpos, to_ℕ}
use gopm.Base.Dict.{lookup-insert, lookup-insert_self}
use gopm.Base.Disk.{Disk, read, try_rename, create}
use gopm.Logger.Rotate.{backup, shift, LogFile, make_way, rotate}

try_rename-refused :
    (from to : Str) (d : Disk) → d.can_rename from to ≡ false → try_rename from to d ≡ d
unfolding try_rename
try_rename-refused from to d r = rw r refl

shift-refused :
    (path : Str) (k : ℕ) (d : Disk) → ((p q : Str) → d.can_rename p q ≡ false) → shift path k d ≡ d
unfolding shift
shift-refused path zero d r = refl
shift-refused path (suc k) d r =
    ap (shift path k)
      (try_rename-refused (backup path (suc k)) (backup path (suc (suc k))) d (r _ _))
    ∙ shift-refused path k d r

module _ (f : LogFile) (d : Disk) (h : f.file ≡ true) (b : is_blank f.log_path ≡ false)
    (n : is_nonpos f.log_max_backup ≡ false) (c : d.can_open f.log_path ≡ true)
    (r : (p q : Str) → d.can_rename p q ≡ false) where
  make_way-refused : make_way f d ≡ d
  unfolding make_way
  make_way-refused = rw n (
      ap (try_rename f.log_path (backup f.log_path 1))
        (shift-refused f.log_path (to_ℕ f.log_max_backup - 1) d r)
      ∙ try_rename-refused f.log_path (backup f.log_path 1) d (r _ _))

  rotate-refused : (rotate f d).1 ≡ create f.log_path d
  unfolding rotate make_way create
  rotate-refused = rw (h, b, make_way-refused, c) refl

  -- A rotation of an open log file that keeps backups, whose path is not blank and can be opened, on a
  -- disk that refuses every rename: the file is emptied and no other file is changed, so that what was
  -- logged is kept nowhere.
  pub rotate_loses :
      (read f.log_path (rotate f d).1 ≡ some [])
      × ((q : Str) → f.log_path ≢ q → read q (rotate f d).1 ≡ read q d)
  unfolding create
  rotate_loses = (
    ap (read f.log_path) rotate-refused ∙ lookup-insert_self f.log_path [] d.files,
    λ q ne.
        ap (read q) rotate-refused
        ∙ lookup-insert f.log_path q [] d.files
        ∙ ground (arith, str_eq_iff f.log_path q),
  )

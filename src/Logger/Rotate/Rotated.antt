-- ===== src/Logger/Rotate/Rotated.antt =====
-- What a rotation leaves on the disk.
use gopm.Base.{
  ℕ, zero, suc, ◌-◌, ◌<◌, ◌≡◌, refl, sym, ap, ◌∙◌, ◌≢◌, Bool, true, false, some, [], arith, Str,
  is_blank, str_eq_iff,
}
use gopm.Base.Int.{ℤ}
use gopm.Base.Dict.{lookup-insert, lookup-insert_self}
use gopm.Base.Disk.{Disk, read, rename, try_rename, create}
use gopm.Logger.Rotate.{backup, shift, LogFile, make_way, rotate}
use gopm.Logger.Rotate.Shift.{
  Renames, clear_shift, try_rename-eq, shift-eq, Renames-clear_shift, or_else, backup-ne,
  backup-ne-backup, read-rename_other, read-rename_to, shift_other, shift_top, shift_between,
  can_open-rename, can_open-clear_shift,
}

-- The state of the files after a rotation with `suc m` backups.
pub record Rotated (f : LogFile) (m : ℕ) (log : Str) (d : Disk) (o : LogFile × Disk) : Type 0 where
  pub reopened : o.0 ≡ record f { log_size = 0 }
  pub emptied : read f.log_path o.1 ≡ some []
  pub saved : read (backup f.log_path 1) o.1 ≡ some log
  pub moved_up :
      (j : ℕ) → 0 < j → j < m → read (backup f.log_path (suc j)) o.1 ≡ read (backup f.log_path j) d
  pub topped :
      0 < m
      → read (backup f.log_path (suc m)) o.1
        ≡ or_else (read (backup f.log_path m) d) (read (backup f.log_path (suc m)) d)

module _ (f : LogFile) (m : ℕ) (log : Str) (d : Disk) (h : f.file ≡ true)
    (b : is_blank f.log_path ≡ false) (n : f.log_max_backup ≡ ℤ.pos (suc m))
    (l : read f.log_path d ≡ some log) (c : d.can_open f.log_path ≡ true) (r : Renames d) where
  shifted : Disk
  shifted = clear_shift f.log_path m d

  cleared : Disk
  cleared = rename f.log_path (backup f.log_path 1) shifted

  make_way-eq : make_way f d ≡ cleared
  unfolding make_way cleared shifted
  make_way-eq =
      let e : suc m - 1 ≡ m = omega arith in
      rw n (
        ap (λ (k : ℕ). try_rename f.log_path (backup f.log_path 1) (shift f.log_path k d)) e
        ∙ ap (try_rename f.log_path (backup f.log_path 1)) (shift-eq f.log_path m d r)
        ∙ try_rename-eq f.log_path (backup f.log_path 1) (clear_shift f.log_path m d)
            (Renames-clear_shift f.log_path m d r))

  opens : cleared.can_open f.log_path ≡ true
  unfolding cleared shifted
  opens =
      rw
        (
          can_open-rename f.log_path f.log_path (backup f.log_path 1) (clear_shift f.log_path m d),
          can_open-clear_shift f.log_path m d,
        )
        c

  rotate-eq : rotate f d ≡ (record f { file = true; log_size = 0 }, create f.log_path cleared)
  unfolding rotate make_way create
  rotate-eq = rw (h, b, make_way-eq, opens)

  path-ne : (i : ℕ) → f.log_path ≢ backup f.log_path i
  path-ne i = backup-ne f.log_path i

  -- What is read after the rotation, but for the log itself.
  read_after : (p : Str) → f.log_path ≢ p → read p (create f.log_path cleared) ≡ read p cleared
  unfolding create
  read_after p ne =
      lookup-insert f.log_path p [] cleared.files ∙ ground (arith, str_eq_iff f.log_path p)

  read-backup :
      (j : ℕ)
      → 0 < j
      → read (backup f.log_path (suc j)) (create f.log_path cleared)
        ≡ read (backup f.log_path (suc j)) shifted
  unfolding cleared
  read-backup j k =
      read_after (backup f.log_path (suc j)) (path-ne (suc j))
      ∙ read-rename_other f.log_path (backup f.log_path 1) (backup f.log_path (suc j)) shifted
          (path-ne 1) (λ e. path-ne (suc j) (sym e))
          (backup-ne-backup f.log_path (suc j) 1 (omega arith))

  saved_log : read (backup f.log_path 1) (create f.log_path cleared) ≡ some log
  unfolding cleared shifted
  saved_log =
      read_after (backup f.log_path 1) (path-ne 1)
      ∙ read-rename_to f.log_path (backup f.log_path 1) (clear_shift f.log_path m d) (path-ne 1)
      ∙ rw (shift_other f.log_path m f.log_path d (λ i le. path-ne i), l)

  top_of :
      (k : ℕ)
      → k ≡ m
      → 0 < k
      → read (backup f.log_path (suc k)) (clear_shift f.log_path k d)
        ≡ or_else (read (backup f.log_path k) d) (read (backup f.log_path (suc k)) d)
  top_of zero e p = absurd (omega arith)
  top_of (suc k) e p = shift_top f.log_path k d

  -- A rotation of an open log file with one backup or more, whose path is not blank and can be
  -- opened, on a disk that refuses no rename, empties the file and keeps its contents as backup 1; the contents of each backup below
  -- the last go to the next number, and the last one is replaced if the one before it is there.
  pub rotate-Rotated : Rotated f m log d (rotate f d)
  unfolding create shifted
  rotate-Rotated = rw rotate-eq (record {
    reopened = ap (λ (o : Bool). record f { file = o; log_size = 0 }) (sym h);
    emptied = lookup-insert_self f.log_path [] cleared.files;
    saved = saved_log;
    moved_up = λ j p q. read-backup j p ∙ shift_between f.log_path m j d p q;
    topped = λ p. read-backup m p ∙ top_of m refl p;
  })

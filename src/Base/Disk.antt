-- ===== src/Base/Disk.antt =====
-- What the program uses of the package `os` on files, as `rename`, `remove` and `open_file` document
-- it. A disk is the contents of its files, the paths at which an open or a mkdir is refused, and
-- the renames that are refused.
use mathlib.Core.Bool.{Bool}
use mathlib.Core.Option.{Option, none, some}
use mathlib.Core.List.{List, [], ◌++◌}
use gopm.Base.Tests.{if◌then◌else◌}
use gopm.Base.Text.{Str}
use gopm.Base.Dict.{lookup, insert, remove}

pub record Disk : Type 0 where
  pub files : List (Str × Str)
  pub can_open : Str → Bool
  pub can_mkdir : Str → Bool
  pub can_rename : Str → Str → Bool

-- The contents of a file, `none` where there is no such file.
abbrev pub read : Str → Disk → Option Str
read p d = lookup p d.files

abbrev pub or_empty : Option Str → Str
or_empty none = []
or_empty (some b) = b

-- `os.Rename` where it is not refused: it replaces the target, and fails with no effect where the
-- source is missing.
abbrev pub moved : Str → Str → Disk → Option Str → Disk
moved from to d none = d
moved from to d (some b) = record d { files = insert to b (remove from d.files) }

unfoldable pub rename : Str → Str → Disk → Disk
rename from to d = moved from to d (read from d)

-- `os.Rename` where its error is not looked at.
unfoldable pub try_rename : Str → Str → Disk → Disk
try_rename from to d = if d.can_rename from to then rename from to d else d

-- `os.Remove`
unfoldable pub remove_file : Str → Disk → Disk
remove_file p d = record d { files = remove p d.files }

-- `os.OpenFile` with O_CREATE|O_TRUNC, where it succeeds.
unfoldable pub create : Str → Disk → Disk
create p d = record d { files = insert p [] d.files }

-- Bytes added at the end of a file, which is created if it is missing.
unfoldable pub append_to : Str → Str → Disk → Disk
append_to p b d = record d { files = insert p (or_empty (read p d) ++ b) d.files }

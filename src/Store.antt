-- ===== src/Store.antt =====
-- internal/state/store.go: the file that the daemon resumes from. The JSON codec is a third party's;
-- the name of the temporary file is what os.CreateTemp picks.
pub mod Atomic
use gopm.Base.{
  ℕ, zero, suc, ◌+◌, ◌-◌, ◌*◌, ◌/◌, ◌%◌, ◌^◌, ◌≤◌, ◌<◌, min, ◌≡◌, refl, sym, ap, ◌∙◌, ◌≢◌, ◌↔◌, ◌⊎◌,
  inl, inr, Bool, true, false, not, ◌&&◌, ◌||◌, Option, none, some, List, [], ◌∷◌, ◌++◌, map,
  append-nil, append_assoc, arith, ltb, leb, ◌==◌, if◌then◌else◌, ltb→lt, lt→ltb, leb→le, ==_iff,
  Bool-cases, Option-cases, length, get_or, set, take, drop, replicate, snoc, select, any, every,
  is_empty, last_n, length-append, length-set, get_or-set_self, get_or-set_ne, length-replicate,
  length-drop, drop_all, drop-append_left, drop-drop, drop-zero_eq, Str, codes, str_eq, is_blank,
  has_prefix, contains, str_eq_refl, eq_of_str_eq, str_eq_iff, has_prefix-append, has_prefix_iff,
}
use gopm.Base.Disk.{Disk, read, create, append_to, rename, remove_file}
use gopm.Supervisor.Registry.{PersistedApp}

-- The field `apps` of the record `State`.
abbrev pub State : Type 0
State = List PersistedApp

-- How far the calls of the operating system get: the one that fails, with the bytes that are
-- written before a write fails.
pub data Attempt : Type 0 where
  mkdir_fails create_fails sync_fails close_fails rename_fails succeeds : Attempt
  write_fails : ℕ → Attempt

pub data SaveError : Type 0 where
  mkdir_state_dir marshal_state create_tmp write_tmp fsync_tmp close_tmp rename_tmp : SaveError

-- The temporary file with its contents.
abbrev pub written : Str → Str → Disk → Disk
written tmp body d = append_to tmp body (create tmp d)

-- `Save` after the encoding; the deferred function removes the temporary file if it is there.
unfoldable pub save_body : Attempt → Str → Str → Str → Disk → Disk × Option SaveError
save_body mkdir_fails tmp path body d = (d, some mkdir_state_dir)
save_body create_fails tmp path body d = (d, some create_tmp)
save_body (write_fails k) tmp path body d =
    (remove_file tmp (written tmp (take k body) d), some write_tmp)
save_body sync_fails tmp path body d = (remove_file tmp (written tmp body d), some fsync_tmp)
save_body close_fails tmp path body d = (remove_file tmp (written tmp body d), some close_tmp)
save_body rename_fails tmp path body d = (remove_file tmp (written tmp body d), some rename_tmp)
save_body succeeds tmp path body d = (remove_file tmp (rename tmp path (written tmp body d)), none)

abbrev pub is_mkdir_fails : Attempt → Bool
is_mkdir_fails mkdir_fails = true
is_mkdir_fails _ = false

abbrev pub encoded : Attempt → Str → Str → Disk → Option Str → Disk × Option SaveError
encoded a tmp path d none = (d, some marshal_state)
encoded a tmp path d (some body) = save_body a tmp path body d

-- `Save`; an empty path turns persistence off.
unfoldable pub save :
    (State → Option Str) → Attempt → Str → Str → State → Disk → Disk × Option SaveError
save encode a tmp path st d =
    if is_blank path
    then (d, none)
    else if is_mkdir_fails a
    then (d, some mkdir_state_dir)
    else encoded a tmp path d (encode st)

pub data LoadOutcome : Type 0 where
  resumed : State → LoadOutcome
  read_state parse_state : LoadOutcome

abbrev pub decoded : Option State → LoadOutcome
decoded none = parse_state
decoded (some st) = resumed st

abbrev pub opened : (Str → Option State) → Bool → Option Str → LoadOutcome
opened decode readable none = resumed []
opened decode readable (some body) = if readable then decoded (decode body) else read_state

-- `Load`: a missing file is the empty state.
unfoldable pub load : (Str → Option State) → Str → Disk → LoadOutcome
load decode path d =
    if is_blank path then resumed [] else opened decode (d.can_open path) (read path d)

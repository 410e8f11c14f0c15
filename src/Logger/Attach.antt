-- ===== src/Logger/Attach.antt =====
-- `Attach` of internal/logger/logger.go: the two goroutines that read the output of a child. A reader
-- is the lines that the scanner finds in it, each with the time at which it is found; the goroutines
-- take turns in any order, and other goroutines write to the logs of other processes in between.
pub mod Merge
use gopm.Base.{
  ℕ, zero, suc, ◌+◌, ◌-◌, ◌*◌, ◌/◌, ◌%◌, ◌^◌, ◌≤◌, ◌<◌, min, ◌≡◌, refl, sym, ap, ◌∙◌, ◌≢◌, ◌↔◌, ◌⊎◌,
  inl, inr, Bool, true, false, not, ◌&&◌, ◌||◌, Option, none, some, List, [], ◌∷◌, ◌++◌, map,
  append-nil, append_assoc, arith, ltb, leb, ◌==◌, if◌then◌else◌, ltb→lt, lt→ltb, leb→le, ==_iff,
  Bool-cases, Option-cases, length, get_or, set, take, drop, replicate, snoc, select, any, every,
  is_empty, last_n, length-append, length-set, get_or-set_self, get_or-set_ne, length-replicate,
  length-drop, drop_all, drop-append_left, drop-drop, drop-zero_eq, Str, codes, str_eq, is_blank,
  has_prefix, contains, str_eq_refl, eq_of_str_eq, str_eq_iff, has_prefix-append, has_prefix_iff,
}
use gopm.Base.Disk.{Disk}
use gopm.Logger.Registry.{Logger, ensure, keep, write}
use gopm.Logger.Registry.Isolation.{Written}

pub record Attached : Type 0 where
  pub out : List (ℕ × Str)
  pub err : List (ℕ × Str)
  pub logger : Logger
  pub disk : Disk

abbrev pub lines_in : Option (List (ℕ × Str)) → List (ℕ × Str)
lines_in none = []
lines_in (some lines) = lines

-- `Attach`: where a reader is nil, no goroutine is started for it.
unfoldable pub attach :
    Logger → Disk → Str → Option (List (ℕ × Str)) → Option (List (ℕ × Str)) → Attached
attach l d name stdout stderr = record {
  out = lines_in stdout;
  err = lines_in stderr;
  logger = keep l name (ensure l name);
  disk = d;
}

abbrev pub err_prefix : Str
err_prefix = codes "[stderr] "

-- The line that `scan` appends.
abbrev pub prefixed : Str → Str → Str
prefixed prefix line = if is_blank prefix then line else prefix ++ line

-- Who comes next: a goroutine, with a round of its loop, or a writer to another log.
pub data Turn : Type 0 where
  on_out on_err : Turn
  elsewhere : Written → Turn

module _ (stamp : ℕ → Str) (name : Str) where
  -- A round of `scan`.
  abbrev pub scan_round : Str → ℕ × Str → Attached → Attached
  scan_round prefix (now, line) s =
      let (l, d) = write stamp now name (prefixed prefix line) s.logger s.disk in
      record s { logger = l; disk = d }

  abbrev pub out_turn : List (ℕ × Str) → Attached → Option Attached
  out_turn [] s = none
  out_turn (x ∷ xs) s = some (scan_round [] x (record s { out = xs }))

  abbrev pub err_turn : List (ℕ × Str) → Attached → Option Attached
  err_turn [] s = none
  err_turn (x ∷ xs) s = some (scan_round err_prefix x (record s { err = xs }))

  abbrev pub turn : Attached → Turn → Option Attached
  turn s on_out = out_turn s.out s
  turn s on_err = err_turn s.err s
  turn s (elsewhere w) =
      let (l, d) = write stamp w.now w.name w.line s.logger s.disk in
      some (record s { logger = l; disk = d })

  unfoldable pub turns : Attached → List Turn → Option Attached
  turns s [] = some s
  turns s (t ∷ ts) = elim (turn s t) [ none ↦ none | some u ↦ turns u ts ]

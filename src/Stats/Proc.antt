-- ===== src/Stats/Proc.antt =====
-- internal/stats/stats_linux.go: `memoryRSS` and `cpuTimes`, on the contents of the files in /proc.
-- `parse_uint` is strconv.ParseUint in base 10 for 64 bits, `trim` strings.TrimSpace, `ns_per_tick`
-- the quotient of 1e9 by the clock ticks.
pub mod Stat
-- The white space of ASCII.
use gopm.Base.{
  ℕ, zero, suc, ◌+◌, ◌-◌, ◌*◌, ◌/◌, ◌%◌, ◌^◌, ◌≤◌, ◌<◌, min, ◌≡◌, refl, sym, ap, ◌∙◌, ◌≢◌, ◌↔◌, ◌⊎◌,
  inl, inr, Bool, true, false, not, ◌&&◌, ◌||◌, Option, none, some, List, [], ◌∷◌, ◌++◌, map,
  append-nil, append_assoc, arith, ltb, leb, ◌==◌, if◌then◌else◌, ltb→lt, lt→ltb, leb→le, ==_iff,
  Bool-cases, Option-cases, length, get_or, set, take, drop, replicate, snoc, select, any, every,
  is_empty, last_n, length-append, length-set, get_or-set_self, get_or-set_ne, length-replicate,
  length-drop, drop_all, drop-append_left, drop-drop, drop-zero_eq, Str, codes, str_eq, is_blank,
  has_prefix, contains, str_eq_refl, eq_of_str_eq, str_eq_iff, has_prefix-append, has_prefix_iff,
}

abbrev pub is_space : ℕ → Bool
is_space c = c == 32 || leb 9 c && leb c 13

abbrev pub flush : Str × List Str → List Str
flush ([], ws) = ws
flush (c ∷ w, ws) = (c ∷ w) ∷ ws

abbrev pub word_with : ℕ → Str × List Str → Str × List Str
word_with c (w, ws) = if is_space c then ([], flush (w, ws)) else (c ∷ w, ws)

-- The text up to the first white space, and the words after it.
unfoldable pub words : Str → Str × List Str
words [] = ([], [])
words (c ∷ s) = word_with c (words s)

-- `strings.Fields`
abbrev pub fields : Str → List Str
fields s = flush (words s)

-- The text after the last `)`, which is at `strings.LastIndex(s, ")")`.
abbrev pub or_here : ℕ → Str → Option Str → Option Str
or_here c s (some t) = some t
or_here c s none = if c == b')' then some s else none

unfoldable pub after_close : Str → Option Str
after_close [] = none
after_close (c ∷ s) = or_here c s (after_close s)

module _ (parse_uint : Str → Option ℕ) (trim : Str → Str) where
  -- `kb * 1024` wraps.
  abbrev pub kilobytes : Option ℕ → ℕ
  kilobytes none = 0
  kilobytes (some kb) = kb * 1024 % 2 ^ 64

  abbrev pub rss_of : List Str → ℕ
  rss_of (label ∷ kb ∷ rest) = kilobytes (parse_uint kb)
  rss_of _ = 0

  -- The loop of `memoryRSS` over the lines of the file.
  unfoldable pub scan_status : List Str → ℕ
  scan_status [] = 0
  scan_status (line ∷ lines) =
      let later = scan_status lines in
      if not (has_prefix line (codes "VmRSS:")) then later else rss_of (fields line)

  -- `memoryRSS`; a process id is not negative here, and `none` is a file that cannot be opened.
  abbrev pub status_rss : Option (List Str) → ℕ
  status_rss none = 0
  status_rss (some lines) = scan_status lines

  unfoldable pub memory_rss : ℕ → Option (List Str) → ℕ
  memory_rss pid file = if pid == 0 then 0 else status_rss file

  module _ (ns_per_tick : ℕ) where
    abbrev pub in_ns : ℕ → ℕ
    in_ns ticks = ticks * ns_per_tick % 2 ^ 64

    abbrev pub both : Option ℕ → Option ℕ → Option (ℕ × ℕ)
    both (some utime) (some stime) = some (in_ns stime, in_ns utime)
    both _ _ = none

    abbrev pub times_of : List Str → Option (ℕ × ℕ)
    times_of fs =
        if ltb (length fs) 13
        then none
        else both (parse_uint (get_or fs 11 [])) (parse_uint (get_or fs 12 []))

    abbrev pub times_after : Option Str → Option (ℕ × ℕ)
    times_after none = none
    times_after (some text) = times_of (fields (trim text))

    abbrev pub stat_times : Option Str → Option (ℕ × ℕ)
    stat_times none = none
    stat_times (some text) = times_after (after_close text)

    -- `cpuTimes`: the kernel's and the user's time; `none` where `ok` is false.
    unfoldable pub cpu_times : ℕ → Option Str → Option (ℕ × ℕ)
    cpu_times pid file = if pid == 0 then none else stat_times file

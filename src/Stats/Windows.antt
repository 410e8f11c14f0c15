-- ===== src/Stats/Windows.antt =====
-- internal/stats/stats_windows.go: `memoryRSS` and `cpuTimes` over the Windows API. The answers of the
-- API are parameters; the handles that the process holds are a list, in which `OpenProcess` puts one
-- and `CloseHandle` takes one out.
pub mod Handles
use gopm.Base.{
  ℕ, zero, suc, ◌+◌, ◌-◌, ◌*◌, ◌/◌, ◌%◌, ◌^◌, ◌≤◌, ◌<◌, min, ◌≡◌, refl, sym, ap, ◌∙◌, ◌≢◌, ◌↔◌, ◌⊎◌,
  inl, inr, Bool, true, false, not, ◌&&◌, ◌||◌, Option, none, some, List, [], ◌∷◌, ◌++◌, map,
  append-nil, append_assoc, arith, ltb, leb, ◌==◌, if◌then◌else◌, ltb→lt, lt→ltb, leb→le, ==_iff,
  Bool-cases, Option-cases, length, get_or, set, take, drop, replicate, snoc, select, any, every,
  is_empty, last_n, length-append, length-set, get_or-set_self, get_or-set_ne, length-replicate,
  length-drop, drop_all, drop-append_left, drop-drop, drop-zero_eq, Str, codes, str_eq, is_blank,
  has_prefix, contains, str_eq_refl, eq_of_str_eq, str_eq_iff, has_prefix-append, has_prefix_iff,
}
use gopm.Base.Int.{ℤ, is_nonpos, to_ℕ}

-- `processQueryLimitedInfo`, `processQueryInfo` and `processVmRead`
abbrev pub query_limited_info : ℕ
query_limited_info = 4096

abbrev pub query_info : ℕ
query_info = 1024

abbrev pub vm_read : ℕ
vm_read = 16

-- `fileTime`
pub record FileTime : Type 0 where
  pub low : ℕ
  pub high : ℕ

-- `toNs`, in uint64; the halves are uint32, so that `|` adds them.
abbrev pub to_ns : FileTime → ℕ
to_ns ft = (ft.high * 2 ^ 32 + ft.low) % 2 ^ 64 * 100 % 2 ^ 64

-- `open_process` is the handle for an access right and a process, 0 where it is refused; the two
-- queries of memory give the working set, and `process_times` the times in the kernel and in user
-- mode, `none` where the call fails.
pub record Kernel : Type 0 where
  pub open_process : ℕ → ℤ → ℕ
  pub k32_memory_info : ℕ → Option ℕ
  pub memory_info : ℕ → Option ℕ
  pub process_times : ℕ → Option (FileTime × FileTime)

-- `procCloseHandle.Call(h)`
abbrev pub close_handle : ℕ → List ℕ → List ℕ
close_handle h [] = []
close_handle h (k ∷ ks) = let rest = close_handle h ks in if k == h then ks else k ∷ rest

module _ (k : Kernel) where
  -- `procOpenProcess.Call`
  abbrev pub open_handle : ℕ → ℤ → List ℕ → List ℕ × ℕ
  open_handle access pid hs =
      let h = k.open_process access pid in (if h == 0 then hs else h ∷ hs, h)

  -- The right that comes first, then the other one.
  abbrev pub open_either : ℕ → ℤ → List ℕ → List ℕ × ℕ
  open_either other pid hs =
      let (hs', h) = open_handle query_limited_info pid hs in
      if h == 0 then open_handle other pid hs' else (hs', h)

  abbrev pub or_psapi : ℕ → Option ℕ → ℕ
  or_psapi h (some size) = size
  or_psapi h none = elim (k.memory_info h) [ none ↦ 0 | some size ↦ size ]

  -- `memoryRSS`, with the handles afterwards.
  unfoldable pub windows_rss : ℤ → List ℕ → List ℕ × ℕ
  windows_rss pid hs =
      if is_nonpos pid
      then (hs, 0)
      else (let (hs', h) = open_either (query_info + vm_read) pid hs in
          if h == 0 then (hs', 0) else (close_handle h hs', or_psapi h (k.k32_memory_info h)))

  abbrev pub ns_of : Option (FileTime × FileTime) → Option (ℕ × ℕ)
  ns_of none = none
  ns_of (some (kernel, user)) = some (to_ns kernel, to_ns user)

  -- `cpuTimes`, likewise.
  unfoldable pub windows_times : ℤ → List ℕ → List ℕ × Option (ℕ × ℕ)
  windows_times pid hs =
      if is_nonpos pid
      then (hs, none)
      else (let (hs', h) = open_either query_info pid hs in
          if h == 0 then (hs', none) else (close_handle h hs', ns_of (k.process_times h)))

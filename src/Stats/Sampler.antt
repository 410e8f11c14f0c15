-- ===== src/Stats/Sampler.antt =====
-- internal/stats/stats.go: the processor shares. A share is kept as the quotient that the code computes
-- as a float, in percent: the processor time of a stretch of time, and that stretch. The lock makes
-- each operation one step; a round of the sampler is a list of the processes that are still to be
-- read, and other operations come between two of them.
pub mod Shares
use gopm.Base.{
  ℕ, zero, suc, ◌+◌, ◌-◌, ◌*◌, ◌/◌, ◌%◌, ◌^◌, ◌≤◌, ◌<◌, min, ◌≡◌, refl, sym, ap, ◌∙◌, ◌≢◌, ◌↔◌, ◌⊎◌,
  inl, inr, Bool, true, false, not, ◌&&◌, ◌||◌, Option, none, some, List, [], ◌∷◌, ◌++◌, map,
  append-nil, append_assoc, arith, ltb, leb, ◌==◌, if◌then◌else◌, ltb→lt, lt→ltb, leb→le, ==_iff,
  Bool-cases, Option-cases, length, get_or, set, take, drop, replicate, snoc, select, any, every,
  is_empty, last_n, length-append, length-set, get_or-set_self, get_or-set_ne, length-replicate,
  length-drop, drop_all, drop-append_left, drop-drop, drop-zero_eq, Str, codes, str_eq, is_blank,
  has_prefix, contains, str_eq_refl, eq_of_str_eq, str_eq_iff, has_prefix-append, has_prefix_iff,
}

pub record CpuSample : Type 0 where
  pub kernel_ns : ℕ
  pub user_ns : ℕ
  pub wall_ns : ℕ

pub data Share : Type 0 where
  no_share : Share
  quotient : ℕ → ℕ → Share

-- The maps by process id, the keys of `tracked`, and the round of `sampleAll`: the process ids that
-- are left of it, and its time.
pub record Sampler : Type 0 where
  pub tracked : List ℕ
  pub cpu_samples : ℕ → Option CpuSample
  pub cpu_percent : ℕ → Option Share
  pub round : List ℕ
  pub now : ℕ

unfoldable pub new : Sampler
new = record { tracked = []; cpu_samples = λ p. none; cpu_percent = λ p. none; round = []; now = 0 }

-- A map with another value at one key.
abbrev pub update : {A : Type 0} → ℕ → Option A → (ℕ → Option A) → ℕ → Option A
update pid v f p = if p == pid then v else f p

-- `TrackPID`
unfoldable pub track_pid : ℕ → Sampler → Sampler
track_pid pid s = record s {
  tracked = if any (λ p. p == pid) s.tracked then s.tracked else snoc s.tracked pid;
}

-- `UntrackPID`
unfoldable pub untrack_pid : ℕ → Sampler → Sampler
untrack_pid pid s = record s {
  tracked = select (λ p. not (p == pid)) s.tracked;
  cpu_samples = update pid none s.cpu_samples;
  cpu_percent = update pid none s.cpu_percent;
}

abbrev pub share_of : Option Share → Share
share_of none = no_share
share_of (some q) = q

-- `CPUPercent`
abbrev pub cpu_share : ℕ → Sampler → Share
cpu_share pid s = share_of (s.cpu_percent pid)

-- The beginning of `sampleAll`.
unfoldable pub begin_round : ℕ → Sampler → Sampler
begin_round now s = record s { round = s.tracked; now = now }

-- What becomes of the share; the sum wraps.
abbrev pub next_share : CpuSample → Option CpuSample → Option Share → Option Share
next_share e none old = old
next_share e (some prev) old =
    if ltb prev.wall_ns e.wall_ns
    then (if leb prev.kernel_ns e.kernel_ns && leb prev.user_ns e.user_ns
        then some (
            quotient ((e.kernel_ns - prev.kernel_ns + (e.user_ns - prev.user_ns)) % 2 ^ 64)
              (e.wall_ns - prev.wall_ns))
        else some no_share)
    else old

-- One process of the round, with the times that were read; `none` where they were not.
unfoldable pub read_pid : ℕ → Option (ℕ × ℕ) → Sampler → Sampler
read_pid pid none s = s
read_pid pid (some (k, u)) s =
    let e : CpuSample = record { kernel_ns = k; user_ns = u; wall_ns = s.now } in
    record s {
      cpu_samples = update pid (some e) s.cpu_samples;
      cpu_percent = update pid (next_share e (s.cpu_samples pid) (s.cpu_percent pid)) s.cpu_percent;
    }

-- The body of the loop of `sampleAll`, which takes the next process.
abbrev pub sample_next : List ℕ → Option (ℕ × ℕ) → Sampler → Sampler
sample_next [] times s = s
sample_next (pid ∷ pids) times s = record (read_pid pid times s) { round = pids }

-- ===== src/Supervisor/Backoff.antt =====
-- The restart limit and the delay between restarts of internal/supervisor/supervisor.go. A
-- `time.Duration` is an int64 number of nanoseconds, so the product wraps.
use gopm.Base.{
  ℕ, zero, suc, ◌*◌, ◌^◌, ◌≤◌, ◌<◌, min, ◌≡◌, refl, Bool, false, arith, ltb, leb, if◌then◌else◌,
}
use gopm.Base.Int.{to_int64, ℤ, pos, is_nonpos, to_ℕ}
use gopm.Supervisor.Process.{ManagedProcess}

abbrev pub second : ℕ
second = 1_000_000_000

unfoldable pub backoff : ℕ → ℤ
backoff restarts =
    let d = to_int64 (restarts * 500_000_000) in
    if ltb (15 * second) (to_ℕ d) then pos (15 * second) else d

unfoldable pub exhausted_restarts : ManagedProcess → Bool
exhausted_restarts mp =
    if is_nonpos mp.config.max_restarts
    then false
    else leb (to_ℕ mp.config.max_restarts) mp.restarts

-- Below 2 ^ 34 restarts no product wraps: the delay is half a second for each restart, and at most
-- fifteen seconds.
pub backoff_lem :
    (restarts : ℕ)
    → restarts < 2 ^ 34
    → backoff restarts ≡ pos (min (restarts * 500_000_000) 15_000_000_000)
unfolding backoff
backoff_lem restarts h = ground arith

is_nonpos-pos : (k : ℕ) → 0 < k → is_nonpos (pos k) ≡ false
is_nonpos-pos zero h = absurd (omega arith)
is_nonpos-pos (suc k) h = refl

-- Below 2 ^ 34 restarts, more restarts make the delay no shorter, and after the first one the loop
-- always waits.
pub backoff_mono :
    (m n : ℕ)
    → m ≤ n
    → n < 2 ^ 34
    → (to_ℕ (backoff m) ≤ to_ℕ (backoff n)) × (0 < m → is_nonpos (backoff m) ≡ false)
backoff_mono m n h b =
    rw (backoff_lem m (omega arith), backoff_lem n b)
      (
        omega arith,
        λ (p : 0 < m). is_nonpos-pos (min (m * 500_000_000) 15_000_000_000) (omega arith),
      )

-- ===== src/Logger/Ring.antt =====
-- The ring buffer of internal/logger/logger.go, and the queries on it. A time is the number of
-- nanoseconds since Go's zero time, so `IsZero` is the test against 0.
pub mod Window
pub mod Refine
pub mod Filter
use gopm.Base.{
  ℕ, zero, suc, ◌+◌, ◌-◌, ◌%◌, Bool, true, false, not, ◌&&◌, ◌||◌, List, [], ◌∷◌, map,
  if◌then◌else◌, ltb, ◌==◌, length, get_or, set, drop, replicate, select, Str, is_blank, contains,
}
use gopm.Base.Int.{ℤ, is_nonpos, to_ℕ}

pub record LogEntry : Type 0 where
  pub line : Str
  pub ts : ℕ

abbrev pub zero_entry : LogEntry
zero_entry = record { line = []; ts = 0 }

-- The field `data` is `buf` here.
pub record RingBuffer : Type 0 where
  pub buf : List LogEntry
  pub head : ℕ
  pub size : ℕ
  pub cap : ℕ

unfoldable pub new_ring_buffer : ℕ → RingBuffer
new_ring_buffer capacity = record {
  buf = replicate capacity zero_entry;
  head = 0;
  size = 0;
  cap = capacity;
}

unfoldable pub add : RingBuffer → LogEntry → RingBuffer
add r e = record r {
  buf = set r.buf r.head e;
  head = (r.head + 1) % r.cap;
  size = if ltb r.size r.cap then r.size + 1 else r.size;
}

-- `for i := 0; i < n; i++ { out = append(out, r.data[(start+i)%r.cap]) }`, with `k` rounds left.
-- An index out of range would panic; it reads the zero entry here, and `IsValid` rules it out.
pub collect : List LogEntry → ℕ → ℕ → ℕ → ℕ → List LogEntry
collect buf cap start i zero = []
collect buf cap start i (suc k) =
    get_or buf ((start + i) % cap) zero_entry ∷ collect buf cap start (i + 1) k

-- `n` after the test `n <= 0 || n > r.size`.
abbrev pub tail_count : ℤ → ℕ → ℕ
tail_count n size = if is_nonpos n || ltb size (to_ℕ n) then size else to_ℕ n

-- `(r.head - k + r.cap) % r.cap`, with the subtraction last, since `k` is at most `r.cap`.
abbrev pub back : RingBuffer → ℕ → ℕ
back r k = (r.head + r.cap - k) % r.cap

unfoldable pub tail : RingBuffer → ℤ → List LogEntry
unfolding collect
tail r n =
    if r.size == 0
    then []
    else (let k = tail_count n r.size in
        collect r.buf r.cap (if ltb k r.size then back r k else back r r.size) 0 k)

-- The tests of the loop of `tailFiltered`: an entry is kept unless it is older than a `since` that
-- is set, or a `grep` that is set does not occur in its line.
abbrev pub is_kept : ℕ → Str → LogEntry → Bool
is_kept since grep e =
    not (not (since == 0) && ltb e.ts since)
    && not (not (is_blank grep) && not (contains e.line grep))

-- `if n > 0 && len(filtered) > n { filtered = filtered[len(filtered)-n:] }`
abbrev pub limit_last {ℓ} : {A : Type ℓ} → ℤ → List A → List A
limit_last n xs =
    if not (is_nonpos n) && ltb (to_ℕ n) (length xs) then drop (length xs - to_ℕ n) xs else xs

unfoldable pub tail_filtered : RingBuffer → ℤ → ℕ → Str → List Str
tail_filtered r n since grep =
    map (λ (e : LogEntry). e.line) (limit_last n (select (is_kept since grep) (tail r (ℤ.pos 0))))

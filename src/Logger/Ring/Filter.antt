-- ===== src/Logger/Ring/Filter.antt =====
-- What `tailFiltered` returns.
use gopm.Base.{
  ℕ, zero, suc, ◌≤◌, ◌<◌, ◌≡◌, refl, sym, ap, ◌↔◌, ◌⊎◌, inl, inr, true, List, map, arith, ltb,
  if◌then◌else◌, Bool-cases, length, select, last_n, drop-zero_eq, Str, is_blank, contains,
}
use gopm.Base.Int.{ℤ, pos, negsuc, is_nonpos, to_ℕ}
use gopm.Logger.Ring.{LogEntry, new_ring_buffer, is_kept, limit_last, tail_filtered}
use gopm.Logger.Ring.Refine.{add_all, tail_of_history}

limit_last_lem {ℓ} :
    {A : Type ℓ} (n : ℤ) (xs : List A)
    → limit_last n xs ≡ (if is_nonpos n then xs else last_n (to_ℕ n) xs)
limit_last_lem (negsuc n) xs = refl
limit_last_lem (pos zero) xs = refl
limit_last_lem (pos (suc n)) xs = elim (Bool-cases (ltb (suc n) (length xs))) [
  | inl p ↦ rw p
  | inr p ↦ rw p (sym (drop-zero_eq _ xs (ground arith)))
]

-- After any history of writes to a ring of `c` entries, `c` not 0, `tail_filtered` looks at the
-- last `c` of them, keeps those that are not older than `since` (unless `since` is the zero time)
-- and whose line contains `grep` (unless `grep` is empty), and returns the lines of the last `n`
-- that it kept, oldest first; of all that it kept, for `n` not positive.
pub tail_filtered_of_history :
    (c : ℕ) (es : List LogEntry) (n : ℤ) (since : ℕ) (grep : Str)
    → 0 < c
    → let kept = select (is_kept since grep) (last_n c es) in
      tail_filtered (add_all (new_ring_buffer c) es) n since grep
      ≡ map (λ (e : LogEntry). e.line) (if is_nonpos n then kept else last_n (to_ℕ n) kept)
unfolding tail_filtered
tail_filtered_of_history c es n since grep h = rw (tail_of_history c es (pos 0) h) (
    ap (map (λ (e : LogEntry). e.line))
      (limit_last_lem n (select (is_kept since grep) (last_n c es))))

-- `is_kept` written out by cases.
pub is_kept_iff :
    (since : ℕ) (grep : Str) (e : LogEntry)
    → (is_kept since grep e ≡ true)
      ↔ (((since ≡ 0) ⊎ (since ≤ e.ts)) × ((is_blank grep ≡ true) ⊎ (contains e.line grep ≡ true)))
is_kept_iff since grep e = ground arith

-- ===== src/Logger/Ring/Refine.antt =====
-- A ring buffer holds the last `cap` lines of its history.
use gopm.Base.{
  ℕ, suc, ◌+◌, ◌-◌, ◌%◌, ◌≤◌, ◌<◌, min, ◌≡◌, refl, sym, ap, ◌∙◌, inl, inr, List, [], ◌∷◌, ◌++◌,
  append-nil, append_assoc, arith, ltb, ◌==◌, if◌then◌else◌, ltb→lt, Bool-cases, length, set, drop,
  snoc, last_n, length-append, length-set, length-replicate, length-drop, drop_all,
  drop-append_left, drop-drop, drop-zero_eq,
}
use mathlib.Core.Path.{subst}
use mathlib.Core.Path.{ap₂}
use gopm.Base.Int.{ℤ, is_nonpos, to_ℕ}
use native.Mathlib.Nat.{mod-lt}
use gopm.Logger.Ring.{
  LogEntry, RingBuffer, zero_entry, new_ring_buffer, add, collect, tail_count, back, tail,
}
use gopm.Logger.Ring.Window.{
  mod-wrap, around, length-around, collect-eq-around, drop-around, set-around,
}

pub record IsValid (r : RingBuffer) : Type 0 where
  pub positive : 0 < r.cap
  pub storage : length r.buf ≡ r.cap
  pub head_in : r.head < r.cap
  pub size_in : r.size ≤ r.cap

-- The entries held, oldest first.
abbrev pub contents : RingBuffer → List LogEntry
contents r = around r.buf r.cap (back r r.size) r.size

pub new_ring_buffer-IsValid : (n : ℕ) → 0 < n → IsValid (new_ring_buffer n)
unfolding new_ring_buffer
new_ring_buffer-IsValid n h = ground (arith, length-replicate n zero_entry)

pub add-IsValid : (r : RingBuffer) (e : LogEntry) → IsValid r → IsValid (add r e)
unfolding add
add-IsValid r e v = ground (arith, length-set r.buf r.head e, mod-lt (r.head + 1) {m = r.cap})

-- `back` undoes the steps from the start to the head.
back-lt : (r : RingBuffer) (k : ℕ) → IsValid r → back r k < r.cap
back-lt r k v = mod-lt (r.head + r.cap - k) v.positive

back-add : (r : RingBuffer) (k : ℕ) → IsValid r → k ≤ r.cap → (back r k + k) % r.cap ≡ r.head
back-add r k v h = elim (mod-wrap (r.head + r.cap - k) r.cap (omega arith)) [
  | inl (p, e) ↦ ground (arith, mod-wrap (back r k + k) r.cap)
  | inr (p, e) ↦ ground (arith, mod-wrap (back r k + k) r.cap)
]

-- The entry that is written at the head comes after the entries that end there.
set_head-around :
    (r : RingBuffer) (e : LogEntry) (k start : ℕ)
    → IsValid r
    → start < r.cap
    → k < r.cap
    → (start + k) % r.cap ≡ r.head
    → around (set r.buf r.head e) r.cap start (suc k) ≡ around r.buf r.cap start k ++ (e ∷ [])
set_head-around r e k start v below short p =
    subst
      (λ (i : ℕ).
        around (set r.buf i e) r.cap start (suc k) ≡ around r.buf r.cap start k ++ (e ∷ []))
      p (set-around r.buf r.cap e k start below short (omega arith))

add_room :
    (r : RingBuffer) (e : LogEntry)
    → IsValid r
    → r.size < r.cap
    → around
        (set r.buf r.head e)
        r.cap
        (((r.head + 1) % r.cap + r.cap - (r.size + 1)) % r.cap)
        (r.size + 1)
      ≡ last_n r.cap (snoc (contents r) e)
add_room r e v p =
    ap₂ (around (set r.buf r.head e) r.cap) start grown
    ∙ set_head-around r e r.size (back r r.size) v (back-lt r r.size v) p
        (back-add r r.size v v.size_in)
    ∙ sym (drop-zero_eq _ _ fits)
  where
    grown : r.size + 1 ≡ suc r.size
    grown = omega arith

    start : ((r.head + 1) % r.cap + r.cap - (r.size + 1)) % r.cap ≡ back r r.size
    start = ground (
      arith,
      mod-wrap (r.head + 1) r.cap,
      mod-wrap ((r.head + 1) % r.cap + r.cap - (r.size + 1)) r.cap,
      mod-wrap (r.head + r.cap - r.size) r.cap,
    )

    fits : length (snoc (contents r) e) - r.cap ≡ 0
    fits = omega (
      arith,
      length-append (contents r) (e ∷ []),
      length-around r.buf r.cap (back r r.size) r.size,
    )

add_full :
    (r : RingBuffer) (e : LogEntry)
    → IsValid r
    → r.size ≡ r.cap
    → around (set r.buf r.head e) r.cap (((r.head + 1) % r.cap + r.cap - r.size) % r.cap) r.size
      ≡ last_n r.cap (snoc (contents r) e)
add_full r e v p =
    ap₂ (around (set r.buf r.head e) r.cap) start counted
    ∙ set_head-around r e (r.size - 1) next v (mod-lt (r.head + 1) v.positive) (omega arith)
        (ground (arith, mod-wrap (r.head + 1) r.cap, mod-wrap (next + (r.size - 1)) r.cap))
    ∙ ap (λ (xs : List LogEntry). snoc xs e) (sym oldest)
    ∙ sym (drop-append_left 1 (contents r) (e ∷ []) (omega (arith, len)))
    ∙ ap (λ (k : ℕ). drop k (snoc (contents r) e)) one
  where
    counted : r.size ≡ suc (r.size - 1)
    counted = omega arith

    next : ℕ
    next = (r.head + 1) % r.cap

    start : ((r.head + 1) % r.cap + r.cap - r.size) % r.cap ≡ next
    start =
        ground (
          arith,
          mod-wrap (r.head + 1) r.cap,
          mod-wrap ((r.head + 1) % r.cap + r.cap - r.size) r.cap,
        )

    len : length (contents r) ≡ r.size
    len = length-around r.buf r.cap (back r r.size) r.size

    one : 1 ≡ length (snoc (contents r) e) - r.cap
    one = omega (arith, length-append (contents r) (e ∷ []), len)

    oldest : drop 1 (contents r) ≡ around r.buf r.cap next (r.size - 1)
    oldest =
        drop-around r.buf r.cap 1 r.size (back r r.size) (back-lt r r.size v) (omega arith)
        ∙ ap (λ (h : ℕ). around r.buf r.cap h (r.size - 1))
            (ground (
              arith,
              mod-wrap (r.head + 1) r.cap,
              mod-wrap (r.head + r.cap - r.size) r.cap,
              mod-wrap (back r r.size + 1) r.cap,
            ))

-- An entry goes behind the entries held; the oldest goes when the ring is full.
pub contents-add :
    (r : RingBuffer) (e : LogEntry)
    → IsValid r
    → contents (add r e) ≡ last_n r.cap (snoc (contents r) e)
unfolding add
contents-add r e v = elim (Bool-cases (ltb r.size r.cap)) [
  | inl p ↦ rw p (add_room r e v (ltb→lt r.size r.cap p))
  | inr p ↦ rw p (add_full r e v (ground arith))
]

collect-eq-last_n :
    (r : RingBuffer) (k : ℕ)
    → IsValid r
    → k ≤ r.size
    → collect r.buf r.cap (back r k) 0 k ≡ last_n k (contents r)
collect-eq-last_n r k v h =
    collect-eq-around r.buf r.cap (back r k) 0 k
    ∙ ap₂ (around r.buf r.cap) place left
    ∙ sym (
        drop-around r.buf r.cap (r.size - k) r.size (back r r.size) (back-lt r r.size v)
          (omega arith))
    ∙ ap (λ (m : ℕ). drop m (contents r)) count
  where
    place : (back r k + 0) % r.cap ≡ (back r r.size + (r.size - k)) % r.cap
    place = ground (
      arith,
      mod-wrap (r.head + r.cap - k) r.cap,
      mod-wrap (r.head + r.cap - r.size) r.cap,
      mod-wrap (back r k + 0) r.cap,
      mod-wrap (back r r.size + (r.size - k)) r.cap,
    )

    left : k ≡ r.size - (r.size - k)
    left = omega arith

    count : r.size - k ≡ length (contents r) - k
    count = omega (arith, length-around r.buf r.cap (back r r.size) r.size)

pub tail_count-le : (n : ℤ) (size : ℕ) → tail_count n size ≤ size
tail_count-le n size = ground arith

-- What `tail` returns of a valid ring: the last entries, oldest first.
pub tail-eq-last_n :
    (r : RingBuffer) (n : ℤ) → IsValid r → tail r n ≡ last_n (tail_count n r.size) (contents r)
unfolding tail
tail-eq-last_n r n v = elim (Bool-cases (r.size == 0)) [
  | inl p ↦ rw p (sym (drop_all _ (contents r) (none_held (ground arith))))
  | inr p ↦ rw p (ap (λ (h : ℕ). collect r.buf r.cap h 0 k) start ∙ collect-eq-last_n r k v within)
]
  where
    k : ℕ
    k = tail_count n r.size

    within : k ≤ r.size
    within = tail_count-le n r.size

    start : (if ltb k r.size then back r k else back r r.size) ≡ back r k
    start = elim (Bool-cases (ltb k r.size)) [
      | inl q ↦ rw q
      | inr q ↦ rw q (let e : r.size ≡ k = ground (arith, within) in ap (back r) e)
    ]

    none_held : r.size ≡ 0 → length (contents r) ≤ length (contents r) - k
    none_held e = omega (arith, length-around r.buf r.cap (back r r.size) r.size)

-- The entries written, one after the other.
abbrev pub add_all : RingBuffer → List LogEntry → RingBuffer
add_all r [] = r
add_all r (e ∷ es) = add_all (add r e) es

last_n_again : (c : ℕ) (xs ys : List LogEntry) → last_n c (last_n c xs ++ ys) ≡ last_n c (xs ++ ys)
last_n_again c xs ys =
    ap (drop (length (last_n c xs ++ ys) - c)) (sym (drop-append_left skip xs ys (omega arith)))
    ∙ drop-drop (length (last_n c xs ++ ys) - c) skip (xs ++ ys)
    ∙ ap (λ (m : ℕ). drop m (xs ++ ys)) total
  where
    skip : ℕ
    skip = length xs - c

    total : skip + (length (last_n c xs ++ ys) - c) ≡ length (xs ++ ys) - c
    total = omega (arith, length-append (last_n c xs) ys, length-append xs ys, length-drop skip xs)

pub add_all-IsValid : (r : RingBuffer) (es : List LogEntry) → IsValid r → IsValid (add_all r es)
add_all-IsValid r [] v = v
add_all-IsValid r (e ∷ es) v = add_all-IsValid (add r e) es (add-IsValid r e v)

cap-add : (r : RingBuffer) (e : LogEntry) → (add r e).cap ≡ r.cap
unfolding add
cap-add r e = refl

contents-add_all :
    (r : RingBuffer) (es : List LogEntry)
    → IsValid r
    → contents (add_all r es) ≡ last_n r.cap (contents r ++ es)
unfolding add
contents-add_all r [] v =
    sym (append-nil (contents r)) ∙ sym (drop-zero_eq _ (contents r ++ []) fits)
  where
    fits : length (contents r ++ []) - r.cap ≡ 0
    fits =
        omega
          (arith, length-append (contents r) [], length-around r.buf r.cap (back r r.size) r.size)
contents-add_all r (e ∷ es) v =
    contents-add_all (add r e) es (add-IsValid r e v)
    ∙ rw (cap-add r e, contents-add r e v)
        (last_n_again r.cap (snoc (contents r) e) es
          ∙ ap (last_n r.cap) (append_assoc (contents r) (e ∷ []) es))

-- After any history of writes a ring of `c` entries, `c` not 0, holds the last `c` of them.
pub contents_of_history :
    (c : ℕ) (es : List LogEntry) → 0 < c → contents (add_all (new_ring_buffer c) es) ≡ last_n c es
contents_of_history c es h =
    contents-add_all (new_ring_buffer c) es (new_ring_buffer-IsValid c h) ∙ fresh
  where
    fresh : last_n (new_ring_buffer c).cap (contents (new_ring_buffer c) ++ es) ≡ last_n c es
    fresh = unfold new_ring_buffer in refl

size_of_history :
    (c : ℕ) (es : List LogEntry) → 0 < c → (add_all (new_ring_buffer c) es).size ≡ min c (length es)
size_of_history c es h =
    let r = add_all (new_ring_buffer c) es in
    omega (
      arith,
      length-around r.buf r.cap (back r r.size) r.size,
      ap length (contents_of_history c es h),
      length-drop (length es - c) es,
    )

last_n-last_n :
    (m c : ℕ) (n : ℤ) (es : List LogEntry)
    → m ≡ tail_count n (min c (length es))
    → last_n m (last_n c es) ≡ last_n (if is_nonpos n then c else min (to_ℕ n) c) es
last_n-last_n m c n es e =
    drop-drop (length (last_n c es) - m) (length es - c) es ∙ ap (λ (k : ℕ). drop k es) total
  where
    total :
        length es - c + (length (last_n c es) - m)
        ≡ length es - (if is_nonpos n then c else min (to_ℕ n) c)
    total = ground (arith, length-drop (length es - c) es)

-- After any history of writes to a ring of `c` entries, `c` not 0, `tail n` returns the last `n`
-- of them, oldest first, at most `c`; for `n` not positive it returns the last `c`.
pub tail_of_history :
    (c : ℕ) (es : List LogEntry) (n : ℤ)
    → 0 < c
    → tail (add_all (new_ring_buffer c) es) n
      ≡ last_n (if is_nonpos n then c else min (to_ℕ n) c) es
tail_of_history c es n h =
    let r = add_all (new_ring_buffer c) es in
    tail-eq-last_n r n (add_all-IsValid _ es (new_ring_buffer-IsValid c h))
    ∙ ap (last_n (tail_count n r.size)) (contents_of_history c es h)
    ∙ last_n-last_n (tail_count n r.size) c n es (ap (tail_count n) (size_of_history c es h))

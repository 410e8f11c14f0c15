-- ===== src/Logger/Registry/Isolation.antt =====
-- What `gopm logs` reads back: for each process its own lines.
use gopm.Base.{
  ℕ, zero, suc, ◌-◌, ◌<◌, min, ◌≡◌, refl, sym, ap, ◌∙◌, inl, inr, Option, none, some, List, [], ◌∷◌,
  ◌++◌, map, append-nil, append_assoc, if◌then◌else◌, Bool-cases, snoc, last_n, drop_all, Str,
  str_eq, str_eq_iff,
}
use native.Mathlib.Omega.{arith}
use gopm.Base.Int.{ℤ, is_nonpos, to_ℕ}
use gopm.Base.Dict.{lookup, insert, lookup-insert}
use gopm.Base.Disk.{Disk}
use gopm.Logger.Ring.{LogEntry, RingBuffer, new_ring_buffer, add}
use gopm.Logger.Ring.Refine.{add_all, tail_of_history}
use gopm.Logger.Registry.{
  Logger, ProcLog, new, ensure, keep, append, write, lines_of, tail_lines, or_fresh,
}

-- A line that was written to the log of a process.
pub record Written : Type 0 where
  pub now : ℕ
  pub name : Str
  pub line : Str

abbrev pub entry : Written → LogEntry
entry w = record { line = w.line; ts = w.now }

-- The lines of one process.
abbrev pub entries_of : Str → List Written → List LogEntry
entries_of name [] = []
entries_of name (w ∷ ws) =
    let rest = entries_of name ws in if str_eq w.name name then entry w ∷ rest else rest

unfoldable pub write_all : (ℕ → Str) → List Written → Logger × Disk → Logger × Disk
write_all stamp [] s = s
write_all stamp (w ∷ ws) s = write_all stamp ws (write stamp w.now w.name w.line s.0 s.1)

add_all-snoc :
    (r : RingBuffer) (es : List LogEntry) (e : LogEntry)
    → add_all r (snoc es e) ≡ add (add_all r es) e
add_all-snoc r [] e = refl
add_all-snoc r (x ∷ es) e = add_all-snoc (add r x) es e

-- A log whose ring has taken these entries.
abbrev pub Records : ℕ → Str → List LogEntry → Option ProcLog → Type 0
Records c name es none = es ≡ []
Records c name es (some pl) = (pl.name ≡ name) × (pl.buf ≡ add_all (new_ring_buffer c) es)

pub record Holds (c : ℕ) (h : Str → List LogEntry) (l : Logger) : Type 0 where
  pub room : l.capacity ≡ c
  pub logs : (name : Str) → Records c name (h name) (lookup name l.procs)

-- `ensure` gives the log of these entries.
ensure_of :
    (c : ℕ) (name : Str) (es : List LogEntry) (o : Option ProcLog)
    → Records c name es o
    → Records c name es (some (or_fresh c name o))
ensure_of c name es none h = (refl, rw h)
ensure_of c name es (some pl) h = h

-- The logs after one of them has taken an entry.
updated :
    (c : ℕ) (name k : Str) (h : Str → List LogEntry) (e : LogEntry) (pl : ProcLog)
    (m : List (Str × ProcLog))
    → pl.name ≡ name
    → pl.buf ≡ add_all (new_ring_buffer c) (snoc (h name) e)
    → ((j : Str) → Records c j (h j) (lookup j m))
    → Records c k (h k ++ (if str_eq name k then e ∷ [] else [])) (lookup k (insert name pl m))
updated c name k h e pl m a b logs =
    rw (lookup-insert name k pl m) (elim (Bool-cases (str_eq name k)) [
      | inl p ↦ let q : name ≡ k = (str_eq_iff name k).0 p in rw (p, ← q) (a, b)
      | inr p ↦ rw (p, append-nil (h k)) (logs k)
    ])

write-Holds :
    (stamp : ℕ → Str) (w : Written) (c : ℕ) (h : Str → List LogEntry) (l : Logger) (d : Disk)
    → Holds c h l
    → Holds c (λ k. h k ++ entries_of k (w ∷ [])) (write stamp w.now w.name w.line l d).0
unfolding write append keep
write-Holds stamp w c h l d v = record {
  room = v.room;
  logs = λ k. rw (ensured.0) (
      updated c w.name k h (entry w) _ l.procs refl
        (rw (ensured.1) (sym (add_all-snoc (new_ring_buffer c) (h w.name) (entry w)))) v.logs);
}
  where
    ensured : Records c w.name (h w.name) (some (ensure l w.name))
    ensured =
        unfold ensure in
        (rw v.room (ensure_of c w.name (h w.name) (lookup w.name l.procs) (v.logs w.name)))

pub Holds-ext :
    (c : ℕ) (h k : Str → List LogEntry) (l : Logger)
    → ((name : Str) → h name ≡ k name)
    → Holds c h l
    → Holds c k l
Holds-ext c h k l e v = record { room = v.room; logs = λ name. rw (← e name) (v.logs name) }

entries_of-cons :
    (name : Str) (w : Written) (ws : List Written)
    → entries_of name (w ∷ []) ++ entries_of name ws ≡ entries_of name (w ∷ ws)
entries_of-cons name w ws = ground arith

pub write_all-Holds :
    (stamp : ℕ → Str) (ws : List Written) (c : ℕ) (h : Str → List LogEntry) (s : Logger × Disk)
    → Holds c h s.0
    → Holds c (λ k. h k ++ entries_of k ws) (write_all stamp ws s).0
unfolding write_all
write_all-Holds stamp [] c h s v =
    Holds-ext c h (λ k. h k ++ []) s.0 (λ name. sym (append-nil (h name))) v
write_all-Holds stamp (w ∷ ws) c h s v =
    Holds-ext c (λ k. (h k ++ entries_of k (w ∷ [])) ++ entries_of k ws)
      (λ k. h k ++ entries_of k (w ∷ ws)) _
      (λ name.
        append_assoc (h name) (entries_of name (w ∷ [])) (entries_of name ws)
        ∙ ap (◌++◌ (h name)) (entries_of-cons name w ws))
      (write_all-Holds stamp ws c (λ k. h k ++ entries_of k (w ∷ []))
        (write stamp w.now w.name w.line s.0 s.1) (write-Holds stamp w c h s.0 s.1 v))

abbrev no_entries : List LogEntry
no_entries = []

lines_of-Records :
    (c : ℕ) (name : Str) (es : List LogEntry) (o : Option ProcLog) (n : ℤ)
    → 0 < c
    → Records c name es o
    → lines_of o n
      ≡ map (λ (e : LogEntry). e.line) (last_n (if is_nonpos n then c else min (to_ℕ n) c) es)
lines_of-Records c name es none n p h =
    rw (h, drop_all (0 - (if is_nonpos n then c else min (to_ℕ n) c)) no_entries (omega arith))
lines_of-Records c name es (some pl) n p h = rw (h.1, tail_of_history c es n p)

-- The capacity that is asked for, or the default one.
abbrev pub room_of : ℤ → ℕ
room_of capacity = if is_nonpos capacity then 1000 else to_ℕ capacity

room_of_pos : (z : ℤ) → 0 < room_of z
room_of_pos (ℤ.pos zero) = omega arith
room_of_pos (ℤ.pos (suc k)) = omega arith
room_of_pos (ℤ.negsuc k) = omega arith

-- The logs after some writes.
pub writes-Holds :
    (stamp : ℕ → Str) (capacity : ℤ) (ws : List Written) (d : Disk)
    → Holds (room_of capacity) (λ k. entries_of k ws) (write_all stamp ws (new capacity, d)).0
writes-Holds stamp capacity ws d =
    write_all-Holds stamp ws (room_of capacity) (λ k. []) (new capacity, d)
      (unfold new lookup in record { room = refl; logs = λ k. refl })

-- A log that is made where it is missing holds what it held.
pub ensure-Holds :
    (c : ℕ) (h : Str → List LogEntry) (l : Logger) (name : Str)
    → Holds c h l
    → Holds c h (keep l name (ensure l name))
unfolding keep ensure
ensure-Holds c h l name v = record {
  room = v.room;
  logs = λ k.
      rw (lookup-insert name k (or_fresh l.capacity name (lookup name l.procs)) l.procs)
        (elim (Bool-cases (str_eq name k)) [
          | inl p ↦
              rw (p, ← (str_eq_iff name k).0 p, v.room)
                (ensure_of c name (h name) (lookup name l.procs) (v.logs name))
          | inr p ↦ rw p (v.logs k)
        ]);
}

pub tail_lines-Holds :
    (capacity : ℤ) (h : Str → List LogEntry) (l : Logger) (name : Str) (n : ℤ)
    → Holds (room_of capacity) h l
    → tail_lines l name n
      ≡ map
          (λ (e : LogEntry). e.line)
          (last_n
            (if is_nonpos n then room_of capacity else min (to_ℕ n) (room_of capacity))
            (h name))
unfolding tail_lines
tail_lines-Holds capacity h l name n v =
    lines_of-Records (room_of capacity) name (h name) (lookup name l.procs) n (room_of_pos capacity)
      (v.logs name)

-- After any writes to the logs of any processes, `tail_lines` returns for each process the last
-- `n` lines written to its own log, oldest first and at most as many as the capacity; all that the
-- capacity allows for `n` not positive. The capacity is the one asked for, or 1000 where that is
-- not positive.
pub tail_of_writes :
    (stamp : ℕ → Str) (capacity : ℤ) (ws : List Written) (d : Disk) (name : Str) (n : ℤ)
    → let c = if is_nonpos capacity then 1000 else to_ℕ capacity in
      tail_lines (write_all stamp ws (new capacity, d)).0 name n
      ≡ map
          (λ (e : LogEntry). e.line)
          (last_n (if is_nonpos n then c else min (to_ℕ n) c) (entries_of name ws))
tail_of_writes stamp capacity ws d name n =
    tail_lines-Holds capacity (λ k. entries_of k ws) (write_all stamp ws (new capacity, d)).0 name n
      (writes-Holds stamp capacity ws d)

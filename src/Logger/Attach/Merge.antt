-- ===== src/Logger/Attach/Merge.antt =====
-- What the log of a process holds of the two outputs of its child.
use gopm.Base.{
  ℕ, min, ◌≡◌, refl, sym, false, Option, none, some, List, [], ◌∷◌, ◌++◌, map, if◌then◌else◌,
  last_n, Str, str_eq, str_eq_refl,
}
use mathlib.Core.Path.{subst}
use gopm.Base.Int.{ℤ, is_nonpos, to_ℕ}
use gopm.Base.Disk.{Disk}
use gopm.Logger.Ring.{LogEntry}
use gopm.Logger.Registry.{Logger, new, write, tail_lines}
use gopm.Logger.Registry.Isolation.{
  Written, entry, entries_of, write_all, Holds, write_all-Holds, writes-Holds, ensure-Holds,
  tail_lines-Holds, room_of,
}
use gopm.Logger.Attach.{
  Attached, attach, lines_in, err_prefix, prefixed, Turn, on_out, on_err, elsewhere, scan_round,
  out_turn, err_turn, turns,
}

-- The entries of both lists in some order that keeps the order of each.
pub data Merge {A : Type 0} : List A → List A → List A → Type 0 where
  done : Merge [] [] []
  left : {x : A} {xs ys zs : List A} → Merge xs ys zs → Merge (x ∷ xs) ys (x ∷ zs)
  right : {y : A} {xs ys zs : List A} → Merge xs ys zs → Merge xs (y ∷ ys) (y ∷ zs)

abbrev pub entry_of : Str → ℕ × Str → LogEntry
entry_of prefix (now, line) = record { line = prefixed prefix line; ts = now }

-- The entries of a reader's lines.
abbrev pub entries : Str → List (ℕ × Str) → List LogEntry
entries prefix xs = map (entry_of prefix) xs

-- The other writers write to other logs.
abbrev pub Apart : Str → List Turn → Type 0
Apart name [] = Unit
Apart name (on_out ∷ ts) = Apart name ts
Apart name (on_err ∷ ts) = Apart name ts
Apart name (elsewhere w ∷ ts) = (str_eq w.name name ≡ false) × Apart name ts

module _ (stamp : ℕ → Str) (name : Str) where
  -- The writes of a run to its end: the logger is what they make, and those to this log are a merge.
  abbrev Merged : Attached → Option Attached → Type 0
  Merged s none = Unit
  Merged s (some t) =
      t.out ≡ []
      → t.err ≡ []
      → (ws : List Written) × (write_all stamp ws (s.logger, s.disk) ≡ (t.logger, t.disk))
        × Merge (entries [] s.out) (entries err_prefix s.err) (entries_of name ws)

  own-first :
      (w : Written) (ws : List Written)
      → w.name ≡ name
      → entry w ∷ entries_of name ws ≡ entries_of name (w ∷ ws)
  own-first w ws e = rw (e, str_eq_refl name) refl

  out-Merged :
      (s : Attached) (xs : List (ℕ × Str)) (ts : List Turn)
      → s.out ≡ xs
      → ((u : Attached) → Merged u (turns stamp name u ts))
      → Merged s (elim (out_turn stamp name xs s) [ none ↦ none | some u ↦ turns stamp name u ts ])
  unfolding write_all
  out-Merged s [] ts e rest = tt
  out-Merged s ((now, line) ∷ xs) ts e rest =
      later (turns stamp name _ ts)
        (rest (scan_round stamp name [] (now, line) (record s { out = xs })))
    where
      w : Written
      w = record { now = now; name = name; line = line }

      later :
          (o : Option Attached)
          → Merged (scan_round stamp name [] (now, line) (record s { out = xs })) o
          → Merged s o
      later none m = tt
      later (some t) m = λ a b.
          let (ws, made, merge) = m a b in
          (
            w ∷ ws,
            made,
            subst
                (λ ys. Merge (entries [] ys) (entries err_prefix s.err) (entries_of name (w ∷ ws)))
                (sym e)
                (subst (Merge (entries [] ((now, line) ∷ xs)) (entries err_prefix s.err))
                  (own-first w ws refl) (left merge)),
          )

  err-Merged :
      (s : Attached) (xs : List (ℕ × Str)) (ts : List Turn)
      → s.err ≡ xs
      → ((u : Attached) → Merged u (turns stamp name u ts))
      → Merged s (elim (err_turn stamp name xs s) [ none ↦ none | some u ↦ turns stamp name u ts ])
  unfolding write_all
  err-Merged s [] ts e rest = tt
  err-Merged s ((now, line) ∷ xs) ts e rest =
      later (turns stamp name _ ts)
        (rest (scan_round stamp name err_prefix (now, line) (record s { err = xs })))
    where
      w : Written
      w = record { now = now; name = name; line = prefixed err_prefix line }

      later :
          (o : Option Attached)
          → Merged (scan_round stamp name err_prefix (now, line) (record s { err = xs })) o
          → Merged s o
      later none m = tt
      later (some t) m = λ a b.
          let (ws, made, merge) = m a b in
          (
            w ∷ ws,
            made,
            subst
                (λ ys. Merge (entries [] s.out) (entries err_prefix ys) (entries_of name (w ∷ ws)))
                (sym e)
                (subst (Merge (entries [] s.out) (entries err_prefix ((now, line) ∷ xs)))
                  (own-first w ws refl) (right merge)),
          )

  elsewhere-Merged :
      (s : Attached) (w : Written) (o : Option Attached)
      → str_eq w.name name ≡ false
      → (let (l, d) = write stamp w.now w.name w.line s.logger s.disk in
          Merged (record s { logger = l; disk = d }) o)
      → Merged s o
  unfolding write_all
  elsewhere-Merged s w none p m = tt
  elsewhere-Merged s w (some t) p m = λ a b.
      let (ws, made, merge) = m a b in
      (w ∷ ws, made, subst (Merge (entries [] s.out) (entries err_prefix s.err)) (rw p refl) merge)

  turns-Merged : (ts : List Turn) (s : Attached) → Apart name ts → Merged s (turns stamp name s ts)
  unfolding turns write_all
  turns-Merged [] s h = λ a b. ([], refl, rw (a, b) done)
  turns-Merged (on_out ∷ ts) s h = out-Merged s s.out ts refl (λ u. turns-Merged ts u h)
  turns-Merged (on_err ∷ ts) s h = err-Merged s s.err ts refl (λ u. turns-Merged ts u h)
  turns-Merged (elsewhere w ∷ ts) s (p, h) = elsewhere-Merged s w _ p (turns-Merged ts _ h)

  -- The output of a child whose two readers are read to their ends, by turns in any order and mixed
  -- with writes to the logs of other processes, after any writes to any logs. `tail_lines` then returns
  -- the last `n` entries of what the log held before, and after it the lines of stdout and those of
  -- stderr, each of the latter with its prefix: every one once, and in the order of its own reader.
  pub tail_of_attach :
      (capacity : ℤ) (before : List Written) (d : Disk) (stdout stderr : Option (List (ℕ × Str)))
      (ts : List Turn) (t : Attached) (n : ℤ)
      → Apart name ts
      → (let (l, e) = write_all stamp before (new capacity, d) in
          turns stamp name (attach l e name stdout stderr) ts ≡ some t)
      → t.out ≡ []
      → t.err ≡ []
      → (es : List LogEntry) × Merge
          (entries [] (lines_in stdout))
          (entries err_prefix (lines_in stderr))
          es
        × (tail_lines t.logger name n
            ≡ map
                (λ (e : LogEntry). e.line)
                (last_n
                  (if is_nonpos n then room_of capacity else min (to_ℕ n) (room_of capacity))
                  (entries_of name before ++ es)))
  unfolding attach
  tail_of_attach capacity before d stdout stderr ts t n apart e a b =
      let held =
        ensure-Holds (room_of capacity) (λ k. entries_of k before)
          (write_all stamp before (new capacity, d)).0 name
          (writes-Holds stamp capacity before d) in
      let (ws, made, merge) = subst (Merged _) e (turns-Merged ts _ apart) a b in
      let after = write_all-Holds stamp ws (room_of capacity) (λ k. entries_of k before) _ held in
      (
        entries_of name ws,
        merge,
        tail_lines-Holds capacity (λ k. entries_of k before ++ entries_of k ws) t.logger name n
            (subst
              (λ (p : Logger × Disk).
                Holds (room_of capacity) (λ k. entries_of k before ++ entries_of k ws) p.0)
              made after),
      )

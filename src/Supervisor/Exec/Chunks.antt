-- ===== src/Supervisor/Exec/Chunks.antt =====
-- The lines that are sent do not depend on the pieces in which the output arrives.
use gopm.Base.{
  ℕ, zero, suc, ◌<◌, ◌≡◌, refl, sym, ap, ◌∙◌, inl, inr, true, false, Option, none, some, List, [],
  ◌∷◌, ◌++◌, map, append-nil, append_assoc, arith, ◌==◌, if◌then◌else◌, Bool-cases, length, take,
  drop, snoc, is_empty, Str,
}
use mathlib.Core.List.{map-append}
use gopm.Supervisor.Exec.{one_more, index_byte, drain, sent, on_read, read_all, stream}

abbrev pub push : ℕ → List Str × Str → List Str × Str
push c ([], rest) = ([], c ∷ rest)
push c (line ∷ lines, rest) = ((c ∷ line) ∷ lines, rest)

-- A text cut at its newlines: the complete lines, and the rest.
unfoldable pub cut : Str → List Str × Str
cut [] = ([], [])
cut (c ∷ s) = let r = cut s in if c == 10 then ([] ∷ r.0, r.1) else push c r

-- The lines of a text, with the rest as a last line unless it is empty.
abbrev pub with_rest : List Str × Str → List Str
with_rest (lines, rest) = if is_empty rest then lines else snoc lines rest

abbrev pub concat : List Str → Str
concat [] = []
concat (s ∷ ss) = s ++ concat ss

abbrev after : List Str × Str → Str → List Str × Str
after (lines, rest) b = (lines ++ (cut (rest ++ b)).0, (cut (rest ++ b)).1)

push-after :
    (c : ℕ) (r : List Str × Str) (b : Str)
    → (c == 10) ≡ false
    → push c (after r b) ≡ after (push c r) b
unfolding cut
push-after c ([], rest) b e = rw e refl
push-after c (line ∷ lines, rest) b e = refl

cut-append : (a b : Str) → cut (a ++ b) ≡ after (cut a) b
unfolding cut
cut-append [] b = refl
cut-append (c ∷ s) b = elim (Bool-cases (c == 10)) [
  | inl e ↦ rw e (ap (λ (r : List Str × Str). ([] ∷ r.0, r.1)) (cut-append s b))
  | inr e ↦ rw e (ap (push c) (cut-append s b) ∙ push-after c (cut s) b e)
]

-- What `drain` does at the first newline.
abbrev Found : Str → Option ℕ → Type 0
Found bytes none = cut bytes ≡ ([], bytes)
Found bytes (some i) =
    cut bytes ≡ (take i bytes ∷ (cut (drop (suc i) bytes)).0, (cut (drop (suc i) bytes)).1)
    × (length (drop (suc i) bytes) < length bytes)

cut-at_newline : (c : ℕ) (s : Str) → (c == 10) ≡ true → cut (c ∷ s) ≡ ([] ∷ (cut s).0, (cut s).1)
unfolding cut
cut-at_newline c s e = rw e refl

cut-at_other : (c : ℕ) (s : Str) → (c == 10) ≡ false → cut (c ∷ s) ≡ push c (cut s)
unfolding cut
cut-at_other c s e = rw e refl

Found-suc :
    (c : ℕ) (s : Str) (o : Option ℕ) → (c == 10) ≡ false → Found s o → Found (c ∷ s) (one_more o)
Found-suc c s none e h = cut-at_other c s e ∙ ap (push c) h
Found-suc c s (some i) e h = (cut-at_other c s e ∙ ap (push c) h.0, omega (arith, h.1))

index_byte-Found : (bytes : Str) → Found bytes (index_byte bytes 10)
unfolding index_byte
index_byte-Found [] = unfold cut in refl
index_byte-Found (c ∷ s) = elim (Bool-cases (c == 10)) [
  | inl e ↦ rw (e, index_byte) (cut-at_newline c s e, omega arith)
  | inr e ↦ rw (e, index_byte) (Found-suc c s (index_byte s 10) e (index_byte-Found s))
]

-- One round of `drain`, if the rounds after it cut what they get.
drain_round :
    (f : ℕ) (bytes : Str) (o : Option ℕ)
    → ((s : Str) → length s < f → drain f s ≡ cut s)
    → length bytes < suc f
    → Found bytes o
    → elim o [
      | none ↦ ([], bytes)
      | some i ↦ let r = drain f (drop (suc i) bytes) in (take i bytes ∷ r.0, r.1)
    ]
      ≡ cut bytes
drain_round f bytes none k h e = sym e
drain_round f bytes (some i) k h e =
    ap (λ (r : List Str × Str). (take i bytes ∷ r.0, r.1))
      (k (drop (suc i) bytes) (omega (arith, e.1)))
    ∙ sym e.0

drain-eq-cut : (f : ℕ) (bytes : Str) → length bytes < f → drain f bytes ≡ cut bytes
unfolding drain
drain-eq-cut zero bytes h = absurd (omega arith)
drain-eq-cut (suc f) bytes h =
    drain_round f bytes (index_byte bytes 10) (drain-eq-cut f) h (index_byte-Found bytes)

-- The state after the reads of a text.
abbrev Sent : Str → Str → List Str × Str → Type 0
Sent prefix text s = s ≡ (map (sent prefix) (cut text).0, (cut text).1)

on_read-Sent :
    (prefix text chunk : Str) (s : List Str × Str)
    → Sent prefix text s
    → Sent prefix (text ++ chunk) (on_read prefix s chunk)
unfolding on_read
on_read-Sent prefix text [] s h = rw (append-nil text) h
on_read-Sent prefix text (c ∷ cs) s h =
    let rest = (cut text).1 ++ (c ∷ cs) in
    rw (h, cut-append text (c ∷ cs), drain-eq-cut (suc (length rest)) rest (omega arith))
      (ap (λ (lines : List Str). (lines, (cut rest).1))
        (sym (map-append (sent prefix) (cut text).0 (cut rest).0)))

flush :
    (prefix : Str) (r : List Str × Str)
    → (if is_empty r.1
        then map (sent prefix) r.0
        else snoc (map (sent prefix) r.0) (sent prefix r.1))
      ≡ map (sent prefix) (with_rest r)
flush prefix (lines, []) = refl
flush prefix (lines, c ∷ rest) = sym (map-append (sent prefix) lines ((c ∷ rest) ∷ []))

read_all-of_text :
    (prefix text : Str) (chunks : List Str) (s : List Str × Str)
    → Sent prefix text s
    → read_all prefix s chunks ≡ map (sent prefix) (with_rest (cut (text ++ concat chunks)))
unfolding read_all
read_all-of_text prefix text [] s h = rw (h, append-nil text) (flush prefix (cut text))
read_all-of_text prefix text (chunk ∷ chunks) s h =
    read_all-of_text prefix (text ++ chunk) chunks (on_read prefix s chunk)
      (on_read-Sent prefix text chunk s h)
    ∙ ap (λ (t : Str). map (sent prefix) (with_rest (cut t)))
        (append_assoc text chunk (concat chunks))

-- However the output of a command is cut into pieces, the lines sent are those of the whole output,
-- with a rest that no newline ends as the last one, each with the prefix before it and without the
-- carriage returns at its end.
pub stream_of_text :
    (prefix : Str) (chunks : List Str)
    → stream prefix chunks ≡ map (sent prefix) (with_rest (cut (concat chunks)))
stream_of_text prefix chunks = read_all-of_text prefix [] chunks ([], []) (unfold cut in refl)

-- ===== src/Ipc/Lines.antt =====
-- The lines of internal/ipc: what bufio.Reader.ReadBytes('\n') reads of the bytes that arrive.

use gopm.Base.{
  ℕ, ◌≡◌, refl, false, Option, none, some, [], ◌∷◌, ◌++◌, ◌==◌, if◌then◌else◌, snoc, Str,
}

abbrev pub longer : ℕ → Option (Str × Str) → Option (Str × Str)
longer c none = none
longer c (some (line, rest)) = some (c ∷ line, rest)

-- The first line with its newline, and the bytes after it; `none` where the bytes end before one.
unfoldable pub read_line : Str → Option (Str × Str)
read_line [] = none
read_line (c ∷ s) = let more = longer c (read_line s) in if c == 10 then some (10 ∷ [], s) else more

-- A text with a newline after it.
abbrev pub ended : Str → Str
ended body = snoc body 10

-- No newline is in the text.
abbrev pub OneLine : Str → Type 0
OneLine [] = Unit
OneLine (c ∷ s) = ((c == 10) ≡ false) × OneLine s

pub read_line-ended :
    (body rest : Str) → OneLine body → read_line (ended body ++ rest) ≡ some (ended body, rest)
unfolding read_line
read_line-ended [] rest h = refl
read_line-ended (c ∷ s) rest h = rw (h.0, read_line-ended s rest h.1) refl

pub read_line-unended : (s : Str) → OneLine s → read_line s ≡ none
unfolding read_line
read_line-unended [] h = refl
read_line-unended (c ∷ s) h = rw (h.0, read_line-unended s h.1) refl

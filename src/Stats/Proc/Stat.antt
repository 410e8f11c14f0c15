-- ===== src/Stats/Proc/Stat.antt =====
-- /proc/pid/stat, whose second field is the name of a command in parentheses.
use gopm.Base.{
  ℕ, suc, ◌*◌, ◌%◌, ◌^◌, ◌≤◌, ◌≡◌, refl, false, ◌||◌, Option, none, some, List, [], ◌∷◌, ◌++◌,
  arith, ltb, ◌==◌, length, get_or, Str, codes, is_blank,
}
use gopm.Stats.Proc.{is_space, flush, words, fields, after_close, cpu_times}

-- A field: some text without white space and without `)`.
abbrev pub Inside : Str → Type 0
Inside [] = Unit
Inside (c ∷ s) = ((is_space c || c == b')') ≡ false) × Inside s

abbrev pub Fields : List Str → Type 0
Fields [] = Unit
Fields (f ∷ fs) = (is_blank f ≡ false) × Inside f × Fields fs

-- Each field after a space, and a newline at the end.
abbrev pub spaced : List Str → Str
spaced [] = 10 ∷ []
spaced (f ∷ fs) = 32 ∷ f ++ spaced fs

-- The line of a process: its id, the name of its command, and the fields.
abbrev pub stat_line : Str → Str → List Str → Str
stat_line pid comm fs = pid ++ codes " (" ++ comm ++ (b')' ∷ spaced fs)

-- No `)` is in the text.
abbrev Open : Str → Type 0
Open [] = Unit
Open (c ∷ s) = ((c == b')') ≡ false) × Open s

Open-append : (s t : Str) → Inside s → Open t → Open (s ++ t)
Open-append [] t h o = o
Open-append (c ∷ s) t h o = (ground arith, Open-append s t h.1 o)

Open-spaced : (fs : List Str) → Fields fs → Open (spaced fs)
Open-spaced [] h = (refl, tt)
Open-spaced (f ∷ fs) (b, i, h) = (refl, Open-append f (spaced fs) i (Open-spaced fs h))

after_close-Open : (t : Str) → Open t → after_close t ≡ none
unfolding after_close
after_close-Open [] h = refl
after_close-Open (c ∷ t) h = rw (after_close-Open t h.1, h.0) refl

after_close-append : (s t : Str) → Open t → after_close (s ++ (b')' ∷ t)) ≡ some t
unfolding after_close
after_close-append [] t o = rw (after_close-Open t o) refl
after_close-append (c ∷ s) t o = rw (after_close-append s t o) refl

words-append :
    (f r : Str) (ws : List Str) → Inside f → words r ≡ ([], ws) → words (f ++ r) ≡ (f, ws)
unfolding words
words-append [] r ws h e = e
words-append (c ∷ f) r ws h e =
    let n : is_space c ≡ false = ground arith in rw (words-append f r ws h.1 e, n) refl

flush-word : (f : Str) (ws : List Str) → is_blank f ≡ false → flush (f, ws) ≡ f ∷ ws
flush-word [] ws h = absurd cc
flush-word (c ∷ f) ws h = refl

words-spaced : (fs : List Str) → Fields fs → words (spaced fs) ≡ ([], fs)
unfolding words
words-spaced [] h = refl
words-spaced (f ∷ fs) (b, i, h) =
    rw (words-append f (spaced fs) fs i (words-spaced fs h), flush-word f fs b) refl

-- The times of a process are the two fields that stand for them, in nanoseconds, whatever the name
-- of its command, with spaces and parentheses in it or not.
pub cpu_times_of_stat :
    (parse_uint : Str → Option ℕ) (trim : Str → Str) (ns_per_tick p : ℕ) (pid comm : Str)
    (fs : List Str) (utime stime : ℕ)
    → ((s : Str) → fields (trim s) ≡ fields s)
    → Fields fs
    → 13 ≤ length fs
    → parse_uint (get_or fs 11 []) ≡ some utime
    → parse_uint (get_or fs 12 []) ≡ some stime
    → cpu_times parse_uint trim ns_per_tick (suc p) (some (stat_line pid comm fs))
      ≡ some (stime * ns_per_tick % 2 ^ 64, utime * ns_per_tick % 2 ^ 64)
unfolding cpu_times
cpu_times_of_stat parse_uint trim ns_per_tick p pid comm fs utime stime t h n u s =
    let z : (suc p == 0) ≡ false = ground arith in
    let c = after_close-append (pid ++ codes " (" ++ comm) (spaced fs) (Open-spaced fs h) in
    let l : ltb (length fs) 13 ≡ false = ground arith in
    rw (z, c, t (spaced fs), words-spaced fs h, l, u, s) refl

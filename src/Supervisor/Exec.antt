-- ===== src/Supervisor/Exec.antt =====
-- `handleExec` of internal/supervisor/rpc.go: how the output of a command, which arrives in pieces
-- of any size, becomes the lines that are sent. `Launch` makes the command that is run.
pub mod Chunks
pub mod Launch
use gopm.Base.{
  ℕ, zero, suc, ◌+◌, ◌-◌, ◌*◌, ◌/◌, ◌%◌, ◌^◌, ◌≤◌, ◌<◌, min, ◌≡◌, refl, sym, ap, ◌∙◌, ◌≢◌, ◌↔◌, ◌⊎◌,
  inl, inr, Bool, true, false, not, ◌&&◌, ◌||◌, Option, none, some, List, [], ◌∷◌, ◌++◌, map,
  append-nil, append_assoc, arith, ltb, leb, ◌==◌, if◌then◌else◌, ltb→lt, lt→ltb, leb→le, ==_iff,
  Bool-cases, Option-cases, length, get_or, set, take, drop, replicate, snoc, select, any, every,
  is_empty, last_n, length-append, length-set, get_or-set_self, get_or-set_ne, length-replicate,
  length-drop, drop_all, drop-append_left, drop-drop, drop-zero_eq, Str, codes, str_eq, is_blank,
  has_prefix, contains, str_eq_refl, eq_of_str_eq, str_eq_iff, has_prefix-append, has_prefix_iff,
}

abbrev pub one_more : Option ℕ → Option ℕ
one_more none = none
one_more (some i) = some (suc i)

-- `indexByte`, `none` for -1.
unfoldable pub index_byte : Str → ℕ → Option ℕ
index_byte [] c = none
index_byte (v ∷ b) c = let rest = index_byte b c in if v == c then some 0 else one_more rest

-- `strings.TrimRight(line, "\r")`
unfoldable pub trim_cr : Str → Str
trim_cr [] = []
trim_cr (c ∷ s) = let t = trim_cr s in if c == 13 && is_blank t then [] else c ∷ t

-- The inner loop on `data`: the lines it finds, and what is left over. Each round takes at least
-- one byte, so the rounds are as many as there are bytes, and one more.
unfoldable pub drain : ℕ → Str → List Str × Str
drain zero bytes = ([], bytes)
drain (suc f) bytes = elim (index_byte bytes 10) [
  | none ↦ ([], bytes)
  | some i ↦ let r = drain f (drop (suc i) bytes) in (take i bytes ∷ r.0, r.1)
]

-- The line as it is sent.
abbrev pub sent : Str → Str → Str
sent prefix line = prefix ++ trim_cr line

-- One `Read`: the lines sent so far and the bytes left over.
unfoldable pub on_read : Str → List Str × Str → Str → List Str × Str
on_read prefix (out, leftover) chunk =
    if is_empty chunk
    then (out, leftover)
    else (let bytes = leftover ++ chunk in
        let r = drain (suc (length bytes)) bytes in (out ++ map (sent prefix) r.0, r.1))

-- All reads, and the flush after the last one.
unfoldable pub read_all : Str → List Str × Str → List Str → List Str
read_all prefix (out, leftover) [] =
    if is_empty leftover then out else snoc out (sent prefix leftover)
read_all prefix s (chunk ∷ chunks) = read_all prefix (on_read prefix s chunk) chunks

abbrev pub stream : Str → List Str → List Str
stream prefix chunks = read_all prefix ([], []) chunks

-- ===== src/Cli/Table.antt =====
-- cmd/gopm/main.go: the table of `gopm list`. A string here is the list of its runes. What Sprintf
-- writes of a float is a parameter: `cpu` is the text of the CPU share, `scaled` that of a quotient.
pub mod Fit
pub mod Width
use gopm.Base.{
  ℕ, zero, suc, ◌+◌, ◌-◌, ◌*◌, ◌/◌, ◌%◌, ◌^◌, ◌≤◌, ◌<◌, min, ◌≡◌, refl, sym, ap, ◌∙◌, ◌≢◌, ◌↔◌, ◌⊎◌,
  inl, inr, Bool, true, false, not, ◌&&◌, ◌||◌, Option, none, some, List, [], ◌∷◌, ◌++◌, map,
  append-nil, append_assoc, arith, ltb, leb, ◌==◌, if◌then◌else◌, ltb→lt, lt→ltb, leb→le, ==_iff,
  Bool-cases, Option-cases, length, get_or, set, take, drop, replicate, snoc, select, any, every,
  is_empty, last_n, length-append, length-set, get_or-set_self, get_or-set_ne, length-replicate,
  length-drop, drop_all, drop-append_left, drop-drop, drop-zero_eq, Str, codes, str_eq, is_blank,
  has_prefix, contains, str_eq_refl, eq_of_str_eq, str_eq_iff, has_prefix-append, has_prefix_iff,
}
use gopm.Base.Decimal.{decimal}
use gopm.Ipc.{ProcessInfo}
use gopm.Supervisor.Process.{
  Status, starting, online, stopped, errored, building, build_failed, ready, unhealthy,
}

abbrev pub status_text : Status → Str
status_text starting = codes "starting"
status_text online = codes "online"
status_text stopped = codes "stopped"
status_text errored = codes "errored"
status_text building = codes "building"
status_text build_failed = codes "build_failed"
status_text ready = codes "ready"
status_text unhealthy = codes "unhealthy"

unfoldable pub format_memory : (ℕ → ℕ → Str) → ℕ → Str
format_memory scaled bytes =
    if bytes == 0
    then codes "-"
    else if leb (2 ^ 30) bytes
    then scaled bytes (2 ^ 30) ++ codes "G"
    else if leb (2 ^ 20) bytes
    then scaled bytes (2 ^ 20) ++ codes "M"
    else if leb (2 ^ 10) bytes
    then scaled bytes (2 ^ 10) ++ codes "K"
    else decimal bytes ++ codes "B"

abbrev pub headers : List Str
headers =
    codes "id"
    ∷ codes "name"
    ∷ codes "status"
    ∷ codes "pid"
    ∷ codes "restarts"
    ∷ codes "uptime"
    ∷ codes "memory"
    ∷ codes "cpu%"
    ∷ codes "watching"
    ∷ []

abbrev pub status_col : ℕ
status_col = 2

unfoldable pub row_of : (ProcessInfo → Str) → (ℕ → ℕ → Str) → ProcessInfo → List Str
row_of cpu scaled p =
    decimal p.id
    ∷ p.name
    ∷ status_text p.status
    ∷ (if p.pid == 0 then codes "-" else decimal p.pid)
    ∷ decimal p.restarts
    ∷ p.uptime
    ∷ format_memory scaled p.memory
    ∷ cpu p
    ∷ (if p.watching then 10003 ∷ [] else 10007 ∷ [])
    ∷ []

-- The widths of the columns, made as wide as the cells of a row, then of all rows.
abbrev pub widened : List ℕ → List Str → List ℕ
widened (w ∷ ws) (cell ∷ cells) =
    (if ltb w (length cell) then length cell else w) ∷ widened ws cells
widened ws _ = ws

abbrev pub widened_all : List ℕ → List (List Str) → List ℕ
widened_all ws [] = ws
widened_all ws (row ∷ rows) = widened_all (widened ws row) rows

abbrev pub header_widths : List ℕ
header_widths = map (length {A = ℕ}) headers

abbrev pub spaces : ℕ → Str
spaces n = replicate n 32

unfoldable pub pad_right : Str → ℕ → Str
pad_right s width = if leb width (length s) then s else s ++ spaces (width - length s)

abbrev pub color_code : Str → Str
color_code s =
    if str_eq s (codes "online") || str_eq s (codes "ready")
    then codes "32"
    else if str_eq s (codes "starting") || str_eq s (codes "building")
    then codes "33"
    else if str_eq s (codes "errored")
        || str_eq s (codes "build_failed")
        || str_eq s (codes "unhealthy")
    then codes "31"
    else if str_eq s (codes "stopped")
    then codes "90"
    else codes "0"

-- 27 is the escape character; the difference stops at 0, as `pad` does.
unfoldable pub colorize : Str → ℕ → Str
colorize s width =
    27 ∷ codes "["
    ++ color_code s
    ++ codes "m"
    ++ s
    ++ (27 ∷ codes "[0m")
    ++ spaces (width - length s)

-- The closure `border`, after its left end.
abbrev pub rules : Str → Str → List ℕ → Str
rules mid right [] = right
rules mid right (w ∷ []) = replicate (w + 2) 9472 ++ right
rules mid right (w ∷ v ∷ ws) = replicate (w + 2) 9472 ++ mid ++ rules mid right (v ∷ ws)

abbrev pub border : ℕ → ℕ → ℕ → List ℕ → Str
border left mid right ws = left ∷ rules (mid ∷ []) (right ∷ []) ws

-- The closure `row`, from the column `i` on; `colored` is `!isHeader && color`.
abbrev pub padded : Bool → ℕ → Str → ℕ → Str
padded colored i cell w = if colored && i == status_col then colorize cell w else pad_right cell w

abbrev pub cells_from : Bool → ℕ → List Str → List ℕ → Str
cells_from colored i (cell ∷ cells) (w ∷ ws) =
    32 ∷ padded colored i cell w ++ (32 ∷ 9474 ∷ []) ++ cells_from colored (suc i) cells ws
cells_from colored i _ _ = []

abbrev pub line : Bool → List ℕ → List Str → Str
line colored ws cells = 9474 ∷ cells_from colored 0 cells ws

abbrev pub table_lines : Bool → List (List Str) → List ℕ → List Str
table_lines color rows ws =
    border 9484 9516 9488 ws
      ∷ line false ws headers
      ∷ border 9500 9532 9508 ws
      ∷ map (line color ws) rows
    ++ (border 9492 9524 9496 ws ∷ [])

-- `renderList`; `color` is whether stdout is a terminal.
unfoldable pub render_list :
    (ProcessInfo → Str) → (ℕ → ℕ → Str) → Bool → List ProcessInfo → List Str
render_list cpu scaled color [] = codes "no processes" ∷ []
render_list cpu scaled color (p ∷ infos) =
    let rows = map (row_of cpu scaled) (p ∷ infos) in
    table_lines color rows (widened_all header_widths rows)

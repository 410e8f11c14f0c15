-- ===== src/Supervisor/Env.antt =====
-- The environment of a child in internal/supervisor/supervisor.go: `parseEnvFile`, `isAbsPath`, and
-- the merge in `buildCmd`. A Go map is an association list in the order of its iteration; `trim`
-- stands for strings.TrimSpace.
pub mod Merge
pub mod Parse
use gopm.Base.{
  ℕ, zero, suc, ◌+◌, ◌-◌, ◌*◌, ◌/◌, ◌%◌, ◌^◌, ◌≤◌, ◌<◌, min, ◌≡◌, refl, sym, ap, ◌∙◌, ◌≢◌, ◌↔◌, ◌⊎◌,
  inl, inr, Bool, true, false, not, ◌&&◌, ◌||◌, Option, none, some, List, [], ◌∷◌, ◌++◌, map,
  append-nil, append_assoc, arith, ltb, leb, ◌==◌, if◌then◌else◌, ltb→lt, lt→ltb, leb→le, ==_iff,
  Bool-cases, Option-cases, length, get_or, set, take, drop, replicate, snoc, select, any, every,
  is_empty, last_n, length-append, length-set, get_or-set_self, get_or-set_ne, length-replicate,
  length-drop, drop_all, drop-append_left, drop-drop, drop-zero_eq, Str, codes, str_eq, is_blank,
  has_prefix, contains, str_eq_refl, eq_of_str_eq, str_eq_iff, has_prefix-append, has_prefix_iff,
}
use gopm.Base.Dict.{lookup, insert}
use gopm.Supervisor.Exec.{index_byte}

unfoldable pub is_abs_path : Str → Bool
is_abs_path p =
    if length p == 0
    then false
    else if get_or p 0 0 == b'/'
    then true
    else if leb 3 (length p) && get_or p 1 0 == b':'
    then true
    else leb 2 (length p) && get_or p 0 0 == 92 && get_or p 1 0 == 92

-- The path of the environment file; `sep` is os.PathSeparator.
unfoldable pub env_file_path : Str → Str → Str → Str
env_file_path sep cwd file =
    if not (is_abs_path file) && not (is_blank cwd) then cwd ++ sep ++ file else file

abbrev pub quoted_by : ℕ → Str → Bool
quoted_by q v = get_or v 0 0 == q && get_or v (length v - 1) 0 == q

-- The surrounding quotes taken off.
unfoldable pub unquote : Str → Str
unquote v =
    if leb 2 (length v) && (quoted_by 34 v || quoted_by 39 v)
    then take (length v - 2) (drop 1 v)
    else v

module _ (trim : Str → Str) where
  abbrev pub put_at : Str → List (Str × Str) → Option ℕ → List (Str × Str)
  put_at line m none = m
  put_at line m (some i) = insert (trim (take i line)) (unquote (trim (drop (suc i) line))) m

  -- The body of the loop of `parseEnvFile`.
  unfoldable pub parse_line : Str → List (Str × Str) → List (Str × Str)
  parse_line text m =
      let line = trim text in
      if is_blank line || has_prefix line (b'#' ∷ [])
      then m
      else put_at line m (index_byte line b'=')

  unfoldable pub parse_lines : List Str → List (Str × Str) → List (Str × Str)
  parse_lines [] m = m
  parse_lines (text ∷ texts) m = parse_lines texts (parse_line text m)

  -- `parseEnvFile`, on the lines of the file; `none` where the file cannot be read.
  abbrev pub parse_env_file : Option (List Str) → Option (List (Str × Str))
  parse_env_file none = none
  parse_env_file (some texts) = some (parse_lines texts [])

abbrev pub is_none : Option Str → Bool
is_none none = true
is_none (some v) = false

abbrev pub env_entry : Str → Str → Str
env_entry k v = k ++ (b'=' ∷ v)

unfoldable pub entries : List (Str × Str) → List Str
entries [] = []
entries ((k, v) ∷ m) = env_entry k v ∷ entries m

-- The variables of the file that the inline ones do not override.
unfoldable pub not_overridden : List (Str × Str) → List (Str × Str) → List (Str × Str)
not_overridden inline [] = []
not_overridden inline ((k, v) ∷ m) =
    let rest = not_overridden inline m in if is_none (lookup k inline) then (k, v) ∷ rest else rest

abbrev pub file_entries : List (Str × Str) → Option (List (Str × Str)) → List Str
file_entries inline none = []
file_entries inline (some m) = entries (not_overridden inline m)

-- The field `Env` that `buildCmd` sets: without extra variables it stays nil, which is `none`.
unfoldable pub child_env :
    List Str → Option (List (Str × Str)) → List (Str × Str) → Option (List Str)
child_env base file inline =
    let extra = file_entries inline file ++ entries inline in
    if is_empty extra then none else some (base ++ extra)

-- The environment of a child by its directory and the field `Env`. `inherit` stands for what package
-- os/exec gives a child in a directory whose `Env` is nil.
abbrev pub given_env : (Str → List Str) → Str → Option (List Str) → List Str
given_env inherit dir none = inherit dir
given_env inherit dir (some env) = env

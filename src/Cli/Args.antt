-- ===== src/Cli/Args.antt =====
-- cmd/gopm/main.go: `parseLogsArgs`, the arguments of `gopm logs`. `atoi` stands for strconv.Atoi.
pub mod Written
use gopm.Base.{
  ℕ, zero, suc, ◌+◌, ◌-◌, ◌*◌, ◌/◌, ◌%◌, ◌^◌, ◌≤◌, ◌<◌, min, ◌≡◌, refl, sym, ap, ◌∙◌, ◌≢◌, ◌↔◌, ◌⊎◌,
  inl, inr, Bool, true, false, not, ◌&&◌, ◌||◌, Option, none, some, List, [], ◌∷◌, ◌++◌, map,
  append-nil, append_assoc, arith, ltb, leb, ◌==◌, if◌then◌else◌, ltb→lt, lt→ltb, leb→le, ==_iff,
  Bool-cases, Option-cases, length, get_or, set, take, drop, replicate, snoc, select, any, every,
  is_empty, last_n, length-append, length-set, get_or-set_self, get_or-set_ne, length-replicate,
  length-drop, drop_all, drop-append_left, drop-drop, drop-zero_eq, Str, codes, str_eq, is_blank,
  has_prefix, contains, str_eq_refl, eq_of_str_eq, str_eq_iff, has_prefix-append, has_prefix_iff,
}
use gopm.Base.Int.{ℤ, is_nonpos}

pub record LogsArgs : Type 0 where
  pub name : Str
  pub lines : ℤ
  pub json_out : Bool
  pub follow : Bool
  pub all : Bool
  pub since : Str
  pub grep : Str

-- The values before the loop.
abbrev pub defaults : LogsArgs
defaults = record {
  name = [];
  lines = ℤ.pos 50;
  json_out = false;
  follow = false;
  all = false;
  since = [];
  grep = [];
}

-- What is parsed, or the message of `die`.
pub data Parsed : Type 0 where
  parsed : LogsArgs → Parsed
  died : Str → Parsed

-- What the `switch` does with an argument: it is used up, it needs a value, for which there is a
-- message where none follows, or it is refused.
pub data Reading : Type 0 where
  used : LogsArgs → Reading
  needs : Str → (Str → Parsed) → Reading
  refused : Str → Reading

abbrev pub reading_of : Parsed → Reading
reading_of (parsed a) = used a
reading_of (died msg) = refused msg

-- `strings.TrimPrefix`, after the test that the prefix is there.
abbrev pub trim_prefix : Str → Str → Str
trim_prefix s p = drop (length p) s

module _ (atoi : Str → Option ℤ) where
  -- `parsePositiveInt`, with what is done with the number.
  abbrev pub positive : Str → (ℤ → LogsArgs) → Option ℤ → Parsed
  positive label set_to none = died (label ++ codes " must be a positive integer")
  positive label set_to (some n) =
      if is_nonpos n then died (label ++ codes " must be a positive integer") else parsed (set_to n)

  abbrev pub parse_positive_int : Str → Str → (ℤ → LogsArgs) → Parsed
  parse_positive_int label value set_to = positive label set_to (atoi value)

  -- The `switch` of the loop.
  unfoldable pub reading : Str → LogsArgs → Reading
  reading arg a =
      let with_lines = λ (n : ℤ). record a { lines = n } in
      if str_eq arg (codes "--json")
      then used (record a { json_out = true })
      else if str_eq arg (codes "-f") || str_eq arg (codes "--follow")
      then used (record a { follow = true })
      else if str_eq arg (codes "--all") || str_eq arg (codes "-a")
      then used (record a { all = true })
      else if str_eq arg (codes "-n") || str_eq arg (codes "--lines")
      then needs (codes "logs: " ++ arg ++ codes " requires a value")
          (λ v. parse_positive_int (codes "logs: " ++ arg) v with_lines)
      else if has_prefix arg (codes "-n=")
      then reading_of
          (parse_positive_int (codes "logs: -n") (trim_prefix arg (codes "-n=")) with_lines)
      else if has_prefix arg (codes "--lines=")
      then reading_of (
          parse_positive_int (codes "logs: --lines") (trim_prefix arg (codes "--lines="))
            with_lines)
      else if str_eq arg (codes "--since")
      then needs (codes "logs: --since requires a value") (λ v. parsed (record a { since = v }))
      else if has_prefix arg (codes "--since=")
      then used (record a { since = trim_prefix arg (codes "--since=") })
      else if str_eq arg (codes "--grep")
      then needs (codes "logs: --grep requires a value") (λ v. parsed (record a { grep = v }))
      else if has_prefix arg (codes "--grep=")
      then used (record a { grep = trim_prefix arg (codes "--grep=") })
      else if has_prefix arg (codes "-")
      then refused (codes "logs: unknown flag " ++ arg)
      else if is_blank a.name
      then used (record a { name = arg })
      else refused (codes "logs: unexpected argument " ++ arg)

  -- The loop of `parseLogsArgs`; `on_value` goes on with the argument after one that needs a value.
  unfoldable mutual
    pub read_args : List Str → LogsArgs → Parsed
    read_args [] a = parsed a
    read_args (arg ∷ args) a = elim (reading arg a) [
      | used b ↦ read_args args b
      | needs missing set_to ↦ on_value args missing set_to
      | refused msg ↦ died msg
    ]

    pub on_value : List Str → Str → (Str → Parsed) → Parsed
    on_value [] missing set_to = died missing
    on_value (v ∷ args) missing set_to = elim (set_to v) [
      | parsed b ↦ read_args args b
      | died msg ↦ died msg
    ]

  abbrev pub parse_logs_args : List Str → Parsed
  parse_logs_args args = read_args args defaults

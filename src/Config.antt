-- ===== src/Config.antt =====
-- pkg/config/config.go: the configuration of the managed apps and its validation. The YAML parser
-- is a third party's: `load` takes it, and the file's bytes, as arguments.
pub mod Validate
use gopm.Base.{
  ℕ, zero, suc, ◌+◌, ◌-◌, ◌*◌, ◌/◌, ◌%◌, ◌≤◌, ◌<◌, min, ◌≡◌, refl, sym, ap, ◌∙◌, ◌≢◌, ◌↔◌, ◌⊎◌, inl,
  inr, Bool, true, false, not, ◌&&◌, ◌||◌, Option, none, some, List, [], ◌∷◌, ◌++◌, map, append-nil,
  append_assoc, arith, ltb, leb, ◌==◌, if◌then◌else◌, ltb→lt, lt→ltb, leb→le, ==_iff, Bool-cases,
  Option-cases, length, get_or, set, take, drop, replicate, snoc, select, any, every, is_empty,
  last_n, length-append, length-set, get_or-set_self, get_or-set_ne, length-replicate, length-drop,
  drop_all, drop-append_left, drop-drop, drop-zero_eq, Str, codes, str_eq, is_blank, has_prefix,
  contains, str_eq_refl, eq_of_str_eq, str_eq_iff, has_prefix-append, has_prefix_iff,
}
use gopm.Base.Int.{ℤ}

pub record WatchConfig : Type 0 where
  pub enabled : Bool
  pub dirs : List Str
  pub extensions : List Str
  pub ignore : List Str
  pub build_cmd : Str
  pub debounce_ms : ℤ

pub record HealthCheckConfig : Type 0 where
  pub url : Str
  pub interval : Str
  pub timeout : Str
  pub retries : ℤ

pub record OnCrashConfig : Type 0 where
  pub webhook : Str

pub record AppConfig : Type 0 where
  pub name : Str
  pub command : Str
  pub args : List Str
  pub cwd : Str
  pub env : List (Str × Str)
  pub env_file : Str
  pub auto_restart : Bool
  pub max_restarts : ℤ
  pub log_file : Str
  pub watch : WatchConfig
  pub pre_start : Str
  pub depends_on : List Str
  pub health_check : HealthCheckConfig
  pub on_crash : OnCrashConfig
  pub groups : List Str
  pub port : ℤ
  pub log_max_size_mb : ℤ
  pub log_max_backups : ℤ

pub record GopmConfig : Type 0 where
  pub apps : List AppConfig

-- The errors of `Validate`, with the values that their texts show.
pub data ConfigError : Type 0 where
  no_apps : ConfigError
  name_required : ℕ → ConfigError
  duplicate_name : Str → ConfigError
  command_required : Str → ConfigError

-- The loop of `Validate`; `seen` holds the keys of the map, `i` is the index.
unfoldable pub validate_from : List Str → ℕ → List AppConfig → Option ConfigError
validate_from seen i [] = none
validate_from seen i (a ∷ apps) =
    let rest = validate_from (a.name ∷ seen) (i + 1) apps in
    if is_blank a.name
    then some (name_required i)
    else if any (str_eq a.name) seen
    then some (duplicate_name a.name)
    else if is_blank a.command
    then some (command_required a.name)
    else rest

unfoldable pub validate : GopmConfig → Option ConfigError
unfolding validate_from
validate c = if is_empty c.apps then some no_apps else validate_from [] 0 c.apps

pub data LoadResult : Type 0 where
  loaded : GopmConfig → LoadResult
  read_failed parse_failed : LoadResult
  invalid : ConfigError → LoadResult

-- The result of validation decides what `Load` returns of a parsed file.
abbrev pub checked : GopmConfig → Option ConfigError → LoadResult
checked c none = loaded c
checked c (some e) = invalid e

abbrev pub parsed : Option GopmConfig → LoadResult
parsed none = parse_failed
parsed (some c) = checked c (validate c)

-- `Load`: `unmarshal` is `yaml.Unmarshal`, `body` what `os.ReadFile` returned.
unfoldable pub load : (Str → Option GopmConfig) → Option Str → LoadResult
load unmarshal none = read_failed
load unmarshal (some body) = parsed (unmarshal body)

-- `ResolvePath`: `is_abs`, `join` and `dir` are those of `path/filepath`.
module _ (is_abs : Str → Bool) (join : Str → Str → Str) (dir : Str → Str) where
  unfoldable pub resolve_path : Str → Str → Str
  resolve_path config_path p = if is_blank p || is_abs p then p else join (dir config_path) p

-- ===== src/Healthcheck.antt =====
-- internal/healthcheck/healthcheck.go: the loop that polls a URL. The answer of the HTTP request is
-- the argument of each round; a duration is an int64 number of nanoseconds.
pub mod Verdict
pub mod Checking
use gopm.Base.{
  ℕ, zero, suc, ◌+◌, ◌-◌, ◌*◌, ◌/◌, ◌%◌, ◌^◌, ◌≤◌, ◌<◌, min, ◌≡◌, refl, sym, ap, ◌∙◌, ◌≢◌, ◌↔◌, ◌⊎◌,
  inl, inr, Bool, true, false, not, ◌&&◌, ◌||◌, Option, none, some, List, [], ◌∷◌, ◌++◌, map,
  append-nil, append_assoc, arith, ltb, leb, ◌==◌, if◌then◌else◌, ltb→lt, lt→ltb, leb→le, ==_iff,
  Bool-cases, Option-cases, length, get_or, set, take, drop, replicate, snoc, select, any, every,
  is_empty, last_n, length-append, length-set, get_or-set_self, get_or-set_ne, length-replicate,
  length-drop, drop_all, drop-append_left, drop-drop, drop-zero_eq, Str, codes, str_eq, is_blank,
  has_prefix, contains, str_eq_refl, eq_of_str_eq, str_eq_iff, has_prefix-append, has_prefix_iff,
}
use gopm.Base.Int.{ℤ, is_nonpos, to_ℕ}

-- `StatusUnknown`, `StatusReady` and `StatusUnhealthy`.
pub data Health : Type 0 where
  unknown healthy sick : Health

pub record Checker : Type 0 where
  pub url : Str
  pub interval : ℤ
  pub timeout : ℤ
  pub retries : ℕ

unfoldable pub new : Str → ℤ → ℤ → ℤ → Checker
new url interval timeout retries = record {
  url = url;
  interval = if is_nonpos interval then ℤ.pos 5_000_000_000 else interval;
  timeout = if is_nonpos timeout then ℤ.pos 2_000_000_000 else timeout;
  retries = if is_nonpos retries then 3 else to_ℕ retries;
}

-- `check`: the status code of the response, `none` where there is none.
unfoldable pub check : Option ℕ → Bool
check none = false
check (some code) = leb 200 code && ltb code 400

-- The variables of `run`, and the events that wait in the channel, whose capacity is 4.
pub record Round : Type 0 where
  pub failures : ℕ
  pub current : Health
  pub status_ch : List Health

abbrev pub first_round : Round
first_round = record { failures = 0; current = unknown; status_ch = [] }

abbrev pub same_health : Health → Health → Bool
same_health unknown unknown = true
same_health healthy healthy = true
same_health sick sick = true
same_health _ _ = false

abbrev pub announce : Health → Round → Round
announce next r = if same_health next r.current then r else record r {
  current = next;
  status_ch = if ltb (length r.status_ch) 4 then snoc r.status_ch next else r.status_ch;
}

-- One tick of the loop.
unfoldable pub tick : Checker → Bool → Round → Round
tick c ok r =
    if ok
    then announce healthy (record r { failures = 0 })
    else announce (if leb c.retries (r.failures + 1) then sick else r.current)
        (record r { failures = r.failures + 1 })

-- ===== src/Healthcheck/Checking.antt =====
-- `Start`, `Stop` and `run` of internal/healthcheck/healthcheck.go: the goroutine of a checker with
-- its two channels, and the supervisor at the other end of one.
pub mod Reports
use gopm.Base.{
  ℕ, zero, suc, ◌+◌, ◌-◌, ◌*◌, ◌/◌, ◌%◌, ◌^◌, ◌≤◌, ◌<◌, min, ◌≡◌, refl, sym, ap, ◌∙◌, ◌≢◌, ◌↔◌, ◌⊎◌,
  inl, inr, Bool, true, false, not, ◌&&◌, ◌||◌, Option, none, some, List, [], ◌∷◌, ◌++◌, map,
  append-nil, append_assoc, arith, ltb, leb, ◌==◌, if◌then◌else◌, ltb→lt, lt→ltb, leb→le, ==_iff,
  Bool-cases, Option-cases, length, get_or, set, take, drop, replicate, snoc, select, any, every,
  is_empty, last_n, length-append, length-set, get_or-set_self, get_or-set_ne, length-replicate,
  length-drop, drop_all, drop-append_left, drop-drop, drop-zero_eq, Str, codes, str_eq, is_blank,
  has_prefix, contains, str_eq_refl, eq_of_str_eq, str_eq_iff, has_prefix-append, has_prefix_iff,
}
use gopm.Healthcheck.{Health, Checker, Round, first_round, tick}

-- `stopped` is whether `stopCh` is closed, `cancelled` whether the context has ended, `closed`
-- whether `run` has returned and has closed the channel of reports. `received` are the reports that
-- the receiver has taken, the oldest first.
pub record Checking : Type 0 where
  pub round : Round
  pub stopped : Bool
  pub cancelled : Bool
  pub closed : Bool
  pub received : List Health

-- `Start`
abbrev pub started : Checking
started = record {
  round = first_round;
  stopped = false;
  cancelled = false;
  closed = false;
  received = [];
}

-- A tick, with the answer of `check`; the return of `run` by the arm of `stopCh` or of the context;
-- calls of `Stop`, the end of the context, and the receipt of a report.
pub data Event : Type 0 where
  ticks : Bool → Event
  returns : Event
  stops : Event
  cancels : Event
  receives : Event

-- `Stop`, which may be called again.
abbrev pub stop : Checking → Checking
stop s = if s.stopped then s else record s { stopped = true }

abbrev pub receive : List Health → Checking → Option Checking
receive [] s = none
receive (h ∷ hs) s =
    some (record s { round = record s.round { status_ch = hs }; received = snoc s.received h })

module _ (c : Checker) where
  -- Where `stopCh` is closed, the `select` may still take a tick that is due.
  abbrev pub step : Checking → Event → Option Checking
  step s (ticks ok) = if s.closed then none else some (record s { round = tick c ok s.round })
  step s returns =
      if s.closed
      then none
      else if s.stopped || s.cancelled
      then some (record s { closed = true })
      else none
  step s stops = some (stop s)
  step s cancels = some (record s { cancelled = true })
  step s receives = receive s.round.status_ch s

  unfoldable pub run : Checking → List Event → Option Checking
  run s [] = some s
  run s (e ∷ es) = elim (step s e) [ none ↦ none | some t ↦ run t es ]

-- ===== src/Scenarios/Dashboard.antt =====
-- The dashboard, the statistics, and the check of a configuration's paths.
use gopm.Base.{
  ℕ, ◌≡◌, refl, ◌↔◌, true, Option, some, List, [], ◌∷◌, map, arith, replicate, Str, codes,
}
use gopm.Config.{GopmConfig}
use gopm.Ipc.{LogEvent}
use gopm.Web.Stream.{one_line, frames}
use gopm.Web.Stream.Frames.{received, received-frames}
use gopm.Cli.Check.{Stat, stat_error, validate_config_paths}
use gopm.Cli.Check.Issues.{AllUsable, validate_config_paths-eq-nil_iff}
use gopm.Stats.Proc.{cpu_times}
use gopm.Stats.Proc.Stat.{stat_line, cpu_times_of_stat}
use gopm.Stats.Sampler.{
  CpuSample, Sampler, new, track_pid, untrack_pid, begin_round, sample_next, read_pid,
}
use gopm.Scenarios.{web, db, app}
use gopm.Scenarios.Services.{same}

abbrev logged : List LogEvent
logged = record { name = web; line = b'a' ∷ 10 ∷ b'b' ∷ [] } ∷ record { name = web; line = [] } ∷ []

received-frames_example :
    received (frames logged) ≡ map (λ (ev : LogEvent). one_line ev.line) logged
received-frames_example = received-frames logged ((refl, (refl, (refl, tt))), (tt, tt))

-- A configuration with a working directory that is not there.
abbrev homeless : GopmConfig
homeless = record { apps = record (app web) { cwd = db } ∷ [] }

abbrev nothing : Str → Stat
nothing path = stat_error []

validate_config_paths-eq-nil_iff_example :
    (validate_config_paths (λ p. true) (λ d p. p) same nothing same web homeless ≡ [])
    ↔ AllUsable (λ p. true) (λ d p. p) same nothing same web homeless.apps
validate_config_paths-eq-nil_iff_example =
    validate_config_paths-eq-nil_iff (λ p. true) (λ d p. p) same nothing same web homeless

-- The fields of a process after its name; the command is called `a) b`.
abbrev field : Str
field = b'7' ∷ []

abbrev stat_fields : List Str
stat_fields = replicate 13 field

abbrev seven : Str → Option ℕ
seven text = some 7

cpu_times_of_stat_example :
    cpu_times seven same 10000000 40
      (some (stat_line (b'4' ∷ b'1' ∷ []) (codes "a) b") stat_fields))
    ≡ some (70000000, 70000000)
cpu_times_of_stat_example =
    cpu_times_of_stat seven same 10000000 39 (b'4' ∷ b'1' ∷ []) (codes "a) b") stat_fields 7 7
      (λ s. refl) (ground arith) (omega arith) refl refl

-- A process that is read twice.
abbrev twice : Sampler
twice =
    sample_next (5 ∷ []) (some (30, 40))
      (begin_round 200 (sample_next (5 ∷ []) (some (10, 20)) (begin_round 100 (track_pid 5 new))))

abbrev readings : List (ℕ × CpuSample)
readings =
    (5, record { kernel_ns = 30; user_ns = 40; wall_ns = 200 })
    ∷ (5, record { kernel_ns = 10; user_ns = 20; wall_ns = 100 })
    ∷ []

-- A process that is untracked while a round is on its way is read once more, and its sample stays.
read_after_untrack :
    (sample_next
        (5 ∷ [])
        (some (10, 20))
        (untrack_pid 5 (begin_round 100 (track_pid 5 new)))).cpu_samples
      5
    ≡ some (record { kernel_ns = 10; user_ns = 20; wall_ns = 100 })
unfolding new track_pid begin_round read_pid untrack_pid
read_after_untrack = refl

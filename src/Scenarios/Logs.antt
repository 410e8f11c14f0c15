-- ===== src/Scenarios/Logs.antt =====
-- Concrete logs, configurations and answers of health checks.
use gopm.Base.{
  ℕ, min, ◌≡◌, refl, ◌≢◌, ◌↔◌, true, false, none, some, List, [], ◌∷◌, map, last_n, Str, str_eq,
}
use gopm.Base.Int.{ℤ}
use gopm.Base.Decimal.{decimal}
use gopm.Base.Disk.{Disk, read}
use gopm.Base.Dict.{lookup}
use gopm.Config.{GopmConfig, validate}
use gopm.Config.Validate.{Complete, Distinct, names, validate-eq-none_iff}
use gopm.Logger.Registry
use gopm.Logger.Rotate.Refused.{rotate_loses}
use gopm.Logger.Ring.{LogEntry}
use gopm.Logger.Rotate.{LogFile, backup, rotate}
use gopm.Logger.Rotate.Rotated.{Rotated, rotate-Rotated}
use gopm.Logger.Registry.{tail_lines}
use gopm.Logger.Registry.Isolation.{Written, write_all, entries_of, tail_of_writes}
use gopm.Scenarios.{web, db, app, disk}

abbrev entry : ℕ → LogEntry
entry n = record { line = decimal n; ts = n }

abbrev writes : List Written
writes =
    record { now = 1; name = web; line = db }
    ∷ record { now = 2; name = db; line = web }
    ∷ record { now = 3; name = web; line = web }
    ∷ []

tail_of_writes_example :
    tail_lines (write_all (λ n. []) writes (Registry.new (ℤ.negsuc 0), disk)).0 web (ℤ.pos 1)
    ≡ map (λ (e : LogEntry). e.line) (last_n (min 1 1000) (entries_of web writes))
tail_of_writes_example = tail_of_writes (λ n. []) (ℤ.negsuc 0) writes disk web (ℤ.pos 1)

abbrev log_file : LogFile
log_file = record {
  file = true;
  log_path = web;
  log_size = 2;
  log_max_bytes = ℤ.pos 2;
  log_max_backup = ℤ.pos 3;
}

abbrev full_disk : Disk
full_disk = record disk { files = (web, db) ∷ (backup web 1, web) ∷ [] }

rotate-Rotated_example : Rotated log_file 2 db full_disk (rotate log_file full_disk)
unfolding lookup str_eq
rotate-Rotated_example = rotate-Rotated log_file 2 db full_disk refl refl refl refl refl λ p q. refl

-- The same disk, where every rename is refused.
abbrev stuck_disk : Disk
stuck_disk = record full_disk { can_rename = λ p q. false }

rotate_loses_example :
    (read web (rotate log_file stuck_disk).1 ≡ some [])
    × ((q : Str) → web ≢ q → read q (rotate log_file stuck_disk).1 ≡ read q stuck_disk)
rotate_loses_example = rotate_loses log_file stuck_disk refl refl refl refl λ p q. refl

abbrev two_apps : GopmConfig
two_apps = record { apps = app web ∷ app db ∷ [] }

validate-eq-none_iff_example :
    (validate two_apps ≡ none)
    ↔ ((two_apps.apps ≢ []) × Complete two_apps.apps × Distinct (names two_apps.apps))
validate-eq-none_iff_example = validate-eq-none_iff two_apps

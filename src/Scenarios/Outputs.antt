-- ===== src/Scenarios/Outputs.antt =====
-- The output of a child in its log, and the reports of a checker.
use gopm.Base.{
  ℕ, ◌≡◌, refl, ◌⊎◌, true, false, ◌||◌, some, List, [], ◌∷◌, ◌++◌, map, arith, last_n, Str, codes,
  str_eq,
}
use gopm.Base.Int.{ℤ}
use gopm.Logger.Ring.{LogEntry}
use gopm.Logger.Registry as Registry
use gopm.Logger.Registry.{tail_lines}
use gopm.Logger.Registry.Isolation.{Written, entries_of, write_all}
use gopm.Logger.Attach.{Attached, on_out, on_err, elsewhere, Turn, attach, turns, err_prefix}
use gopm.Logger.Attach.Merge.{Merge, entries, tail_of_attach}
use gopm.Healthcheck.{Checker, healthy, sick, tick}
use gopm.Healthcheck.Checking.{Checking, Event, ticks, stops, returns, receives, run}
use gopm.Healthcheck.Checking.Reports.{answers, changes, reports_of_run}
use gopm.Base.Disk.{Disk}
use gopm.Scenarios.{web, db, disk}

abbrev out_lines : List (ℕ × Str)
out_lines = (2, web) ∷ (5, db) ∷ []

abbrev err_lines : List (ℕ × Str)
err_lines = (3, web) ∷ []

abbrev turn_list : List Turn
turn_list = on_out ∷ on_err ∷ elsewhere (record { now = 4; name = db; line = web }) ∷ on_out ∷ []

abbrev before : List Written
before = record { now = 1; name = web; line = db } ∷ []

abbrev stamp : ℕ → Str
stamp n = []

abbrev begun : Registry.Logger × Disk
begun = write_all stamp before (Registry.new (ℤ.pos 9), disk)

abbrev written : Registry.Logger × Disk
written =
    write_all stamp
      (record { now = 2; name = web; line = web }
        ∷ record { now = 3; name = web; line = err_prefix ++ web }
        ∷ record { now = 4; name = db; line = web }
        ∷ record { now = 5; name = web; line = db }
        ∷ [])
      ((attach begun.0 begun.1 web (some out_lines) (some err_lines)).logger, begun.1)

-- The log after both readers have ended.
abbrev after : Attached
after = record { out = []; err = []; logger = written.0; disk = written.1 }

db-ne-web : str_eq db web ≡ false
unfolding str_eq
db-ne-web = refl

tail_of_attach_example :
    (es : List LogEntry) × Merge (entries [] out_lines) (entries err_prefix err_lines) es
    × (tail_lines after.logger web (ℤ.pos 3)
        ≡ map (λ (e : LogEntry). e.line) (last_n 3 (entries_of web before ++ es)))
unfolding turns attach write_all codes
tail_of_attach_example =
    tail_of_attach stamp web (ℤ.pos 9) before disk (some out_lines) (some err_lines) turn_list after
      (ℤ.pos 3) (db-ne-web, tt) refl refl refl

abbrev checker : Checker
checker = record { url = web; interval = ℤ.pos 1; timeout = ℤ.pos 1; retries = 1 }

abbrev happenings : List Event
happenings = ticks true ∷ ticks true ∷ receives ∷ ticks false ∷ stops ∷ returns ∷ []

abbrev checked : Checking
checked = record {
  round = record { failures = 1; current = sick; status_ch = sick ∷ [] };
  stopped = true;
  cancelled = false;
  closed = true;
  received = healthy ∷ [];
}

reports_of_run_example :
    (checked.received ++ checked.round.status_ch ≡ changes 1 (answers happenings []))
    × ((true ≡ false) ⊎ ((true || false) ≡ true))
unfolding run tick
reports_of_run_example =
    reports_of_run checker happenings checked (omega arith)
      (omega arith, (omega arith, (omega arith, (omega arith, (omega arith, (omega arith, tt))))))
      refl

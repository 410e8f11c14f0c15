-- ===== src/Scenarios/Services.antt =====
-- Concrete requests, outputs, changes of files and environments.
use gopm.Base.{
  ◌≡◌, refl, ◌≢◌, ◌↔◌, ◌⊎◌, true, false, Option, none, some, List, [], ◌∷◌, map, Str, str_eq,
}
use gopm.Base.Int.{ℤ}
use gopm.Base.Dict.{lookup}
use gopm.Supervisor.Loop.{stop_seen, killed}
use gopm.Ipc.{Request, cmd_stop}
use gopm.Supervisor.Rpc.{World, handler}
use gopm.Supervisor.Rpc.Promise.{Promised, is_query, handler_lem}
use gopm.Supervisor.Exec.{stream, sent}
use gopm.Supervisor.Exec.Chunks.{cut, with_rest, concat, stream_of_text}
use gopm.Base.Disk.{Disk}
use gopm.Store.{State, save, write_fails}
use gopm.Store.Atomic.{Left, save-Left}
use gopm.Watcher.{Watcher, FsEvent, should_fire}
use gopm.Watcher.Filter.{OutsideAll, Among, should_fire_iff}
use gopm.Scenarios.{app, web, db, host, one}

abbrev stop_request : Request
stop_request = record {
  command = cmd_stop;
  app_name = web;
  apps = [];
  config = none;
  lines = ℤ.pos 0;
  follow = false;
  all = false;
  group = [];
  exec_args = [];
  since = [];
  grep = [];
}

abbrev pub world : World
world = record {
  host = host;
  memory_rss = λ p. 0;
  parse_duration = λ t. none;
  parse_time = λ t. none;
}

handler_lem_example :
    ((handler world (stop_seen ∷ killed true ∷ []) one stop_request).1.ok ≡ true
      → Promised cmd_stop web (handler world (stop_seen ∷ killed true ∷ []) one stop_request).0)
    × (is_query cmd_stop ≡ true
        → (handler world (stop_seen ∷ killed true ∷ []) one stop_request).0 ≡ one)
handler_lem_example = handler_lem world (stop_seen ∷ killed true ∷ []) one stop_request

abbrev pieces : List Str
pieces = (b'o' ∷ []) ∷ (b'k' ∷ 13 ∷ 10 ∷ b'e' ∷ []) ∷ (b'n' ∷ []) ∷ (b'd' ∷ []) ∷ []

stream_of_text_example : stream db pieces ≡ map (sent db) (with_rest (cut (concat pieces)))
stream_of_text_example = stream_of_text db pieces

abbrev pub same : Str → Str
same s = s

abbrev pub watch : Watcher
watch = record { ext_set = db ∷ []; ignore_abs = web ∷ [] }

abbrev pub change : FsEvent
change = record {
  name = db;
  op_create = false;
  op_write = true;
  op_remove = false;
  op_rename = false;
  op_chmod = false;
}

should_fire_iff_example :
    (should_fire same same same (λ r p. p) watch change ≡ true)
    ↔ ((true ≡ true) × OutsideAll db (web ∷ []) × ((watch.ext_set ≡ []) ⊎ Among db (db ∷ [])))
should_fire_iff_example = should_fire_iff same same same (λ r p. p) watch change

abbrev inline_env : List (Str × Str)
inline_env = (web, db) ∷ []

abbrev env_file : Option (List (Str × Str))
env_file = some ((db, db) ∷ (web, web) ∷ [])

-- A state file with old contents.
abbrev old_disk : Disk
old_disk = record {
  files = (db, db) ∷ [];
  can_open = λ p. true;
  can_mkdir = λ p. true;
  can_rename = λ p q. true;
}

-- A codec of one state.
abbrev kept : State
kept = record { config = app web; restarts = 0 } ∷ []

abbrev encode : State → Option Str
encode st = some web

web-ne-db : web ≢ db
web-ne-db e = cc

save-Left_example :
    Left web db old_disk (some web) (save encode (write_fails 1) web db kept old_disk)
unfolding lookup str_eq
save-Left_example = save-Left web db old_disk web-ne-db refl encode (write_fails 1) kept refl

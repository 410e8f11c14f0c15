-- ===== src/Scenarios/Shells.antt =====
-- The command line and the file watcher.
use gopm.Base.{
  ℕ, ◌+◌, ◌≤◌, ◌≡◌, refl, ◌≢◌, ◌↔◌, ◌⊎◌, Bool, true, false, Option, none, some, List, [], ◌∷◌, Str,
  codes, str_eq, has_prefix,
}
use gopm.Base.Int.{ℤ}
use gopm.Config.{AppConfig, loaded, WatchConfig}
use gopm.Ipc.{Request}
use gopm.Ipc.Client.{answered}
use gopm.Cli.Args.{parsed, parse_logs_args, defaults}
use gopm.Cli.Args.Written.{
  Wish, json, lines_short, since_eq, name, written_all, granted_all, parse_logs_args-written,
}
use gopm.Cli.Shell.{World, Shell}
use gopm.Cli.Commands.Kept.{Sound}
use gopm.Watcher.{should_fire, is_ignored, is_under}
use gopm.Watcher.Filter.{Among}
use gopm.Watcher.Tree.{Entry, file, dir, no_more, entry, child, add_recursive, Reached}
use gopm.Watcher.Tree.Watched.{Among-add_recursive_iff}
use gopm.Watcher.Loop.{Event, Loop, changed, fires, take, debounce, start, step}
use gopm.Watcher.Loop.Debounce.{LastChange, fires-LastChange_iff}
use gopm.Scenarios.{web, db, app}
use gopm.Scenarios.Services.{watch, change, same}

-- `gopm logs --json -n 5 web --since=db`
abbrev wishes : List Wish
wishes = json ∷ lines_short (b'5' ∷ []) ∷ name web ∷ since_eq db ∷ []

abbrev five : Str → Option ℤ
five text = some (ℤ.pos 5)

parse_logs_args-written_example :
    parse_logs_args five (written_all wishes) ≡ parsed (granted_all five wishes defaults)
unfolding codes has_prefix
parse_logs_args-written_example =
    parse_logs_args-written five wishes (tt, ((ℤ.pos 5, refl, refl), ((refl, refl), (tt, tt))))

-- A daemon that keeps the requests it gets; one app is in the group, and has a relative path.
abbrev grouped : AppConfig
grouped = record (app web) { groups = db ∷ []; cwd = db }

abbrev keeping : World (List Request)
keeping = record {
  ping = λ n. true;
  send = λ n req. (
    req ∷ n,
    answered (record { ok = true; error = []; processes = []; logs = []; message = [] }),
  );
  stream = λ n req. [];
  send_error = λ e. [];
  load_config = λ path. loaded (record { apps = grouped ∷ app db ∷ [] });
  load_error = λ r. [];
  abs = λ path. some path;
  abs_error = [];
  is_abs = λ path. has_prefix path (b'/' ∷ []);
  join = λ d p. b'/' ∷ p;
  dir = λ p. p;
  start_flags = λ args. some (db, args);
  list_flags = λ args. some (false, false);
  env = λ v. [];
  executable = none;
  exists = λ path. false;
  look_path = λ v. none;
  daemon_exe_name = web;
  spawn = λ n bin. (n, none);
  wait = λ n. n;
  rounds = 40;
  quoted = λ text. text;
  infos_json = λ infos. [];
  logs_json = λ v logs. [];
  table = λ infos. [];
  atoi = λ text. none;
}

abbrev AllSound : List Request → Type 0
AllSound [] = Unit
AllSound (req ∷ reqs) = Sound keeping req × AllSound reqs

abbrev before : Shell (List Request)
before = record { state = []; out = [] }

-- A directory with a file, and a directory that is ignored.
abbrev tree : Entry
tree = dir none (entry web file (entry db (dir none no_more) no_more))

abbrev is_db : Str → Bool
is_db path = str_eq path (child web db)

abbrev pub accepted : Str → Option Str
accepted path = none

Among-add_recursive_iff_example :
    Among web
      (add_recursive is_db accepted
        (some tree)
        web
        (record { added = 0; watched = []; log = [] })).watched
    ↔ (Among web [] ⊎ (Reached is_db tree web web × (accepted web ≡ none)))
Among-add_recursive_iff_example =
    Among-add_recursive_iff is_db accepted tree web web
      (record { added = 0; watched = []; log = [] })

-- Two changes, the signal after the first taken before the second.
abbrev changes : List (ℕ × Event)
changes =
    (5, changed change none)
    ∷ (300000005, fires)
    ∷ (300000006, take)
    ∷ (300000007, changed change none)
    ∷ []

abbrev pub watch_config : WatchConfig
watch_config = record {
  enabled = true;
  dirs = [];
  extensions = [];
  ignore = [];
  build_cmd = [];
  debounce_ms = ℤ.pos 0;
}

abbrev pub begun : Loop
begun = start same same same (λ r p. p) (λ p. none) accepted watch watch_config web

-- What is left after these steps.
abbrev seen : Loop
seen = record begun { due = some 600000007 }

fires-LastChange_iff_example :
    (step same same same (λ r p. p) (λ p. none) accepted watch watch_config web seen 600000008 fires
      ≢ none)
    ↔ ((t : ℕ) × LastChange same same same
          (λ r p. p)
          (λ p. none)
          accepted
          watch
          watch_config
          web
          changes
          t
        × (t + debounce watch_config ≤ 600000008))
unfolding should_fire is_ignored is_under str_eq has_prefix
fires-LastChange_iff_example =
    fires-LastChange_iff same same same (λ r p. p) (λ p. none) accepted watch watch_config web
      changes seen 600000008 refl refl

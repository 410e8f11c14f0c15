-- ===== src/Cli/Extras.antt =====
-- cmd/gopm/main.go: the commands beside those that manage processes: `web`, `ui`, `completion` and
-- `generate-service`, which `main` is given.
pub mod Live
use gopm.Base.{
  ℕ, zero, suc, ◌+◌, ◌-◌, ◌*◌, ◌/◌, ◌%◌, ◌^◌, ◌≤◌, ◌<◌, min, ◌≡◌, refl, sym, ap, ◌∙◌, ◌≢◌, ◌↔◌, ◌⊎◌,
  inl, inr, Bool, true, false, not, ◌&&◌, ◌||◌, Option, none, some, List, [], ◌∷◌, ◌++◌, map,
  append-nil, append_assoc, arith, ltb, leb, ◌==◌, if◌then◌else◌, ltb→lt, lt→ltb, leb→le, ==_iff,
  Bool-cases, Option-cases, length, get_or, set, take, drop, replicate, snoc, select, any, every,
  is_empty, last_n, length-append, length-set, get_or-set_self, get_or-set_ne, length-replicate,
  length-drop, drop_all, drop-append_left, drop-drop, drop-zero_eq, Str, codes, str_eq, is_blank,
  has_prefix, contains, str_eq_refl, eq_of_str_eq, str_eq_iff, has_prefix-append, has_prefix_iff,
}
use gopm.Base.Disk.{or_empty}
use gopm.Base.Int.{ℤ}
use gopm.Ipc.{cmd_list}
use gopm.Ipc.Client.{SendResult, answered, failed}
use gopm.Cli.Shell.{
  World, Shell, Run, exited, Cmd, ◌>>=◌, ◌>>◌, pure, print_line, print_lines, die, ping_daemon,
}
use gopm.Cli.Commands.{bare}
use gopm.Cli.Main.{Others}
use gopm.Cli.Texts.{bash_script, zsh_script, powershell_script, systemd_unit, windows_service}

-- `daemonExeName`, given whether the program runs on Windows.
abbrev pub exe_name : Bool → Str
exe_name windows = if windows then codes "gopmd.exe" else codes "gopmd"

module _ {S : Type 0} (w : World S) where
  -- `clearScreen`; what is printed without a newline stands as a line of its own.
  abbrev pub clear_screen : Cmd S (Unit {0})
  clear_screen = print_line ((27 ∷ []) ++ codes "[2J" ++ (27 ∷ []) ++ codes "[H")

  abbrev pub shown : SendResult → Cmd S (Unit {0})
  shown (failed e) = print_line (codes "error: " ++ w.send_error e)
  shown (answered resp) = print_lines (w.table resp.processes)

  abbrev pub send_list : Cmd S (Unit {0})
  send_list h = let (s, r) = w.send h.state (bare cmd_list) in shown r (record h { state = s })

  -- The rest of a tick, given whether the daemon is reachable.
  abbrev pub refreshed : Bool → Cmd S (Unit {0})
  refreshed false =
      print_lines (codes "daemon not running" ∷ [] ∷ codes "Press Ctrl+C to exit" ∷ [])
  refreshed true = do
    send_list
    print_lines
        ([] ∷ codes "Press Ctrl+C to exit  |  gopm restart <name>  |  gopm stop <name>" ∷ [])

  abbrev pub live_tick : Cmd S (Unit {0})
  live_tick = do clear_screen; up ← ping_daemon w; refreshed up

  -- `cmdUI`, over the ticks before the signal.
  unfoldable pub ui_command : ℕ → Cmd S (Unit {0})
  ui_command zero = clear_screen
  ui_command (suc ticks) = do live_tick; ui_command ticks

  -- `currentUser`
  abbrev pub current_user : Str
  current_user =
      let u = w.env (codes "USER") in
      let name = w.env (codes "USERNAME") in
      if not (is_blank u) then u else if not (is_blank name) then name else codes "nobody"

  -- `cmdCompletion`; `lower` is strings.ToLower.
  unfoldable pub completion_command : (Str → Str) → List Str → Cmd S (Unit {0})
  completion_command lower [] = die (codes "completion: specify bash, zsh, or powershell")
  completion_command lower (shell ∷ args) =
      if str_eq (lower shell) (codes "bash")
      then print_line bash_script
      else if str_eq (lower shell) (codes "zsh")
      then print_line zsh_script
      else if str_eq (lower shell) (codes "powershell")
      then print_line powershell_script
      else die
          (codes "completion: unknown shell " ++ shell ++ codes " (use bash, zsh, or powershell)")

  -- The directory of the program, the empty one where it has no path, and the daemon in it.
  abbrev pub program_dir : Str
  program_dir = w.dir (or_empty w.executable)

  abbrev pub service_binary : Bool → Str
  service_binary windows =
      let bin = w.join program_dir (codes "gopmd") in if windows then bin ++ codes ".exe" else bin

  abbrev pub service_type : Bool → Str → Str
  service_type windows kind =
      if is_blank kind then (if windows then codes "windows" else codes "systemd") else kind

  abbrev pub print_service : Bool → Str → Cmd S (Unit {0})
  print_service windows kind =
      if str_eq kind (codes "systemd")
      then print_line (systemd_unit (service_binary windows) current_user program_dir)
      else if str_eq kind (codes "windows")
      then print_line (windows_service (service_binary windows))
      else die
          (codes "generate-service: unknown type " ++ kind ++ codes " (use systemd or windows)")

  -- `cmdGenerateService`, whose note on stderr is left out. `flags` is the value of `--type`, `none`
  -- where package flag exits.
  unfoldable pub generate_service : (List Str → Option Str) → Bool → List Str → Cmd S (Unit {0})
  generate_service flags windows args = elim (flags args) [
    | none ↦ exited 2 []
    | some kind ↦ print_service windows (service_type windows kind)
  ]

  abbrev pub served : Option Str → Cmd S (Unit {0})
  served none = pure tt
  served (some err) = die err

  abbrev pub served_if : Bool → (Str → S → S × Option Str) → Str → Cmd S (Unit {0})
  served_if true serve addr h = let (s, r) = serve addr h.state in served r (record h { state = s })
  served_if false serve addr h = die (codes "daemon not running") h

  abbrev pub web_on : (Str → S → S × Option Str) → Str → Cmd S (Unit {0})
  web_on serve addr = do up ← ping_daemon w; served_if up serve addr

  -- `cmdWeb`: `flags` is the text of the port, and `serve` runs the dashboard until it ends, with the
  -- error of `Serve`.
  unfoldable pub web_command :
      (List Str → Option Str) → (Str → S → S × Option Str) → List Str → Cmd S (Unit {0})
  web_command flags serve args = elim (flags args) [
    | none ↦ exited 2 []
    | some port ↦ web_on serve (codes "127.0.0.1:" ++ port)
  ]

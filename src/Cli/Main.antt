-- ===== src/Cli/Main.antt =====
-- cmd/gopm/main.go: `main`. The commands that do not talk to the daemon, or only print text, are
-- given to it.
use gopm.Base.{Bool, true, false, ◌||◌, List, [], ◌∷◌, ◌++◌, if◌then◌else◌, Str, codes, str_eq}
use gopm.Cli.Shell.{World, Cmd, exited, ◌>>◌, pure, print_line}
use gopm.Cli.Check.{Stat, validate_command}
use gopm.Cli.Launch.{ensure_daemon_running}
use gopm.Cli.Commands.{
  cmd_list_lines, stop_command, restart_command, delete_command, start_command, logs_command,
  exec_command, shutdown_command,
}

-- `web`, `ui`, `completion` and `generate-service`.
pub record Others (S : Type 0) : Type 0 where
  pub web : Str → List Str → Cmd S (Unit {0})
  pub ui : Cmd S (Unit {0})
  pub completion : List Str → Cmd S (Unit {0})
  pub generate_service : List Str → Cmd S (Unit {0})

module _ {S : Type 0} (w : World S) (stat : Str → Stat) (others : Others S) (usage : Str) where
  abbrev pub unknown : Str → Cmd S (Unit {0})
  unknown cmd h = exited 2 (codes "unknown command: " ++ cmd ++ (10 ∷ []) ++ usage) h

  -- The `switch` of `main`.
  unfoldable pub dispatch : Bool → Str → Str → List Str → Cmd S (Unit {0})
  dispatch custom_host addr cmd rest =
      let is = λ (text : Str). str_eq cmd text in
      if is (codes "start")
      then start_command w custom_host addr rest
      else if is (codes "stop")
      then stop_command w rest
      else if is (codes "restart")
      then restart_command w rest
      else if is (codes "delete")
      then delete_command w rest
      else if is (codes "list") || is (codes "ls")
      then cmd_list_lines w rest
      else if is (codes "logs")
      then logs_command w rest
      else if is (codes "exec")
      then exec_command w rest
      else if is (codes "validate")
      then validate_command w stat rest
      else if is (codes "web")
      then others.web addr rest
      else if is (codes "ui")
      then others.ui
      else if is (codes "completion")
      then others.completion rest
      else if is (codes "generate-service")
      then others.generate_service rest
      else if is (codes "daemon")
      then (do
        if custom_host then pure tt else ensure_daemon_running w addr
        print_line (codes "gopmd is running on " ++ addr))
      else if is (codes "shutdown")
      then shutdown_command w
      else if is (codes "-h") || is (codes "--help") || is (codes "help")
      then print_line usage
      else unknown cmd

  abbrev pub run_command : Bool → Str → List Str → Cmd S (Unit {0})
  run_command custom_host addr [] = exited 2 usage
  run_command custom_host addr (cmd ∷ rest) = dispatch custom_host addr cmd rest

  -- `main`, with the address by default: `-host` comes before the command.
  unfoldable pub main : Str → List Str → Cmd S (Unit {0})
  main addr [] = run_command false addr []
  main addr (flag ∷ []) = run_command false addr (flag ∷ [])
  main addr (flag ∷ host ∷ args) =
      if str_eq flag (codes "-host")
      then run_command true host args
      else run_command false addr (flag ∷ host ∷ args)

-- ===== src/Cli/Texts.antt =====
-- cmd/gopm/main.go: the texts that `gopm` prints: its usage, the completion scripts, and the service
-- files. A text is the lines that it consists of, each ended by a newline.
use gopm.Base.{List, [], ◌∷◌, ◌++◌, Str, codes}

abbrev pub unlines : List Str → Str
unlines [] = []
unlines (line ∷ lines) = (line ++ (10 ∷ [])) ++ unlines lines

-- `usage`
abbrev pub usage : Str
usage = unlines (
    (codes "gopm " ++ (226 ∷ 128 ∷ 148 ∷ []) ++ codes " process manager")
    ∷ []
    ∷ codes "Usage:"
    ∷ codes "  gopm [-host addr] <command> [flags]"
    ∷ []
    ∷ codes "Commands:"
    ∷ codes "  start <gopm.yaml> [--group <name>]   Load config and start all (or group) apps"
    ∷ codes "  stop <name>                          Stop a process"
    ∷ codes "  restart <name>                       Restart a process"
    ∷ codes "  delete <name>                        Stop and remove a process"
    ∷ codes "  list [--json] [--names]              Show all managed processes"
    ∷ codes "  logs <name|--all> [-n N] [-f]        Tail or follow process logs"
    ∷ codes "       [--since <duration|RFC3339>]    Filter logs by time"
    ∷ codes "       [--grep <pattern>]              Filter logs by substring"
    ∷ codes "  exec <name> -- <cmd> [args...]       Run a command in a process's environment"
    ∷ codes "  validate <gopm.yaml>                 Validate a config file"
    ∷ codes "  web [--port 6120]                    Start web dashboard"
    ∷ codes "  ui                                   Live-refreshing process table (Ctrl+C to quit)"
    ∷ codes "  completion <bash|zsh|powershell>     Print shell completion script"
    ∷ codes "  generate-service [--type systemd|windows]  Generate service installer"
    ∷ codes "  daemon                               Explicitly launch the daemon"
    ∷ codes "  shutdown                             Gracefully stop the daemon"
    ∷ []
    ∷ codes "Global flags:"
    ∷ codes "  -host <addr>    Daemon address (default 127.0.0.1:6119)"
    ∷ [])

-- The scripts of `cmdCompletion`.
abbrev pub bash_script : Str
bash_script = unlines (
    codes "# gopm bash completion"
    ∷ codes "# Add to ~/.bashrc:  source <(gopm completion bash)"
    ∷ codes "_gopm_completion() {"
    ∷ codes "  local cur=\"${COMP_WORDS[COMP_CWORD]}\""
    ∷ codes "  local prev=\"${COMP_WORDS[COMP_CWORD-1]}\""
    ∷ codes
        "  local cmds=\"start stop restart delete list ls logs exec validate web ui completion generate-service daemon shutdown\""
    ∷ codes "  case \"$prev\" in"
    ∷ codes "    stop|restart|delete|logs|exec)"
    ∷ codes "      COMPREPLY=($(compgen -W \"$(gopm list --names 2>/dev/null)\" -- \"$cur\"))"
    ∷ codes "      return ;;"
    ∷ codes "    gopm)"
    ∷ codes "      COMPREPLY=($(compgen -W \"$cmds\" -- \"$cur\"))"
    ∷ codes "      return ;;"
    ∷ codes "  esac"
    ∷ codes "  COMPREPLY=($(compgen -W \"$cmds\" -- \"$cur\"))"
    ∷ codes "}"
    ∷ codes "complete -F _gopm_completion gopm"
    ∷ [])

abbrev pub zsh_script : Str
zsh_script = unlines (
    codes "# gopm zsh completion"
    ∷ codes "# Add to ~/.zshrc:  source <(gopm completion zsh)"
    ∷ codes "_gopm() {"
    ∷ codes "  local -a cmds"
    ∷ codes "  cmds=("
    ∷ codes "    'start:Load config and start apps'"
    ∷ codes "    'stop:Stop a process'"
    ∷ codes "    'restart:Restart a process'"
    ∷ codes "    'delete:Stop and remove a process'"
    ∷ codes "    'list:Show all managed processes'"
    ∷ codes "    'logs:Tail process logs'"
    ∷ codes "    'exec:Run a command in a process env'"
    ∷ codes "    'validate:Validate config file'"
    ∷ codes "    'web:Start web dashboard'"
    ∷ codes "    'ui:Live process table'"
    ∷ codes "    'completion:Shell completion'"
    ∷ codes "    'generate-service:Generate service installer'"
    ∷ codes "    'daemon:Launch daemon'"
    ∷ codes "    'shutdown:Stop daemon'"
    ∷ codes "  )"
    ∷ codes "  if (( CURRENT == 2 )); then"
    ∷ codes "    _describe 'command' cmds"
    ∷ codes "  elif (( CURRENT > 2 )); then"
    ∷ codes "    case \"${words[2]}\" in"
    ∷ codes "      stop|restart|delete|logs|exec)"
    ∷ codes "        local -a names"
    ∷ codes "        names=(${(f)\"$(gopm list --names 2>/dev/null)\"})"
    ∷ codes "        _describe 'process' names ;;"
    ∷ codes "    esac"
    ∷ codes "  fi"
    ∷ codes "}"
    ∷ codes "compdef _gopm gopm"
    ∷ [])

abbrev pub powershell_script : Str
powershell_script = unlines (
    codes "# gopm PowerShell completion"
    ∷ codes "# Add to $PROFILE:  . <(gopm completion powershell)"
    ∷ codes "Register-ArgumentCompleter -Native -CommandName gopm -ScriptBlock {"
    ∷ codes "  param($wordToComplete, $commandAst, $cursorPosition)"
    ∷ codes
        "  $cmds = @('start','stop','restart','delete','list','ls','logs','exec','validate','web','ui','completion','generate-service','daemon','shutdown')"
    ∷ codes "  $words = $commandAst.CommandElements"
    ∷ codes "  if ($words.Count -ge 3) {"
    ∷ codes "    switch ($words[1]) {"
    ∷ codes "      { $_ -in 'stop','restart','delete','logs','exec' } {"
    ∷ codes "        gopm list --names 2>$null | Where-Object { $_ -like \"$wordToComplete*\" } |"
    ∷ codes
        "          ForEach-Object { [System.Management.Automation.CompletionResult]::new($_, $_, 'ParameterValue', $_) }"
    ∷ codes "        return"
    ∷ codes "      }"
    ∷ codes "    }"
    ∷ codes "  }"
    ∷ codes "  $cmds | Where-Object { $_ -like \"$wordToComplete*\" } |"
    ∷ codes
        "    ForEach-Object { [System.Management.Automation.CompletionResult]::new($_, $_, 'ParameterValue', $_) }"
    ∷ codes "}"
    ∷ [])

-- The unit file, of the daemon's binary, the user and the directory.
abbrev pub systemd_unit : Str → Str → Str → Str
systemd_unit daemon_bin user dir = unlines (
    codes "[Unit]"
    ∷ codes "Description=gopm daemon"
    ∷ codes "After=network.target"
    ∷ []
    ∷ codes "[Service]"
    ∷ (codes "ExecStart=" ++ daemon_bin)
    ∷ codes "Restart=always"
    ∷ codes "RestartSec=5"
    ∷ (codes "User=" ++ user)
    ∷ (codes "WorkingDirectory=" ++ dir)
    ∷ []
    ∷ codes "[Install]"
    ∷ codes "WantedBy=multi-user.target"
    ∷ [])

abbrev pub windows_service : Str → Str
windows_service daemon_bin = unlines (
    codes "# Install gopmd as a Windows Service using sc.exe:"
    ∷ codes "# (Run these commands as Administrator)"
    ∷ []
    ∷ (codes "sc create gopmd binPath= \"" ++ daemon_bin ++ codes "\" start= auto")
    ∷ codes "sc description gopmd \"gopm process manager daemon\""
    ∷ codes "sc start gopmd"
    ∷ []
    ∷ codes "# To stop and remove:"
    ∷ codes "#   sc stop gopmd"
    ∷ codes "#   sc delete gopmd"
    ∷ [])

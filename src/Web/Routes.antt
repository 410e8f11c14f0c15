-- ===== src/Web/Routes.antt =====
-- Which requests to the dashboard command the daemon.
use gopm.Base.{◌≡◌, false, [], ◌∷◌, ◌++◌, ◌==◌, Str, codes}
use gopm.Ipc.{CommandType, cmd_restart, cmd_stop}

-- No `/` is in the name.
abbrev pub Flat : Str → Type 0
Flat [] = Unit
Flat (c ∷ s) = ((c == b'/') ≡ false) × Flat s

-- The last part of the path of a command.
pub data Action : CommandType → Str → Type 0 where
  restarts : Action cmd_restart (codes "restart")
  stops : Action cmd_stop (codes "stop")

-- The path of a command.
abbrev pub path_of : Str → Str → Str
path_of name word = codes "/api/" ++ (name ++ (b'/' ∷ word))

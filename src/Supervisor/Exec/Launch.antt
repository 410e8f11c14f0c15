-- ===== src/Supervisor/Exec/Launch.antt =====
-- internal/supervisor: the command that `buildCmd` makes of a configuration, and the one that
-- `handleExec` makes of a request. `read_env` is parseEnvFile at a path, `base` os.Environ, `sep`
-- os.PathSeparator; a blank directory is the daemon's own, and an `Env` of `none` is nil.
use gopm.Base.{Option, none, some, List, [], ◌∷◌, ◌++◌, if◌then◌else◌, Str, codes, is_blank}
use gopm.Base.Dict.{lookup}
use gopm.Config.{AppConfig}
use gopm.Ipc.{Request, LogEvent}
use gopm.Supervisor.Env.{child_env, env_file_path, file_entries, entries}
use gopm.Supervisor.Loop.{Task}
use gopm.Supervisor.Registry.{Supervisor}

pub record ChildCmd : Type 0 where
  pub program : Str
  pub args : List Str
  pub dir : Str
  pub env : Option (List Str)

-- What `handleExec` begins with: an event that says why not, or a command.
pub data ExecPlan : Type 0 where
  refuses : LogEvent → ExecPlan
  runs : ChildCmd → ExecPlan

module _ (read_env : Str → Option (List (Str × Str))) (base : List Str) (sep : Str) where
  abbrev pub env_of_file : AppConfig → Option (List (Str × Str))
  env_of_file cfg =
      if is_blank cfg.env_file then none else read_env (env_file_path sep cfg.cwd cfg.env_file)

  unfoldable pub build_cmd : AppConfig → ChildCmd
  build_cmd cfg = record {
    program = cfg.command;
    args = cfg.args;
    dir = cfg.cwd;
    env = child_env base (env_of_file cfg) cfg.env;
  }

  abbrev pub exec_cmd : AppConfig → Str → List Str → ChildCmd
  exec_cmd cfg program args = record {
    program = program;
    args = args;
    dir = cfg.cwd;
    env = some (base ++ file_entries cfg.env (env_of_file cfg) ++ entries cfg.env);
  }

  abbrev pub exec_refusal : Str → ExecPlan
  exec_refusal text = refuses (record { name = codes "gopm"; line = codes "[error] " ++ text })

  abbrev pub exec_found : Request → List Str → Option Task → ExecPlan
  exec_found req [] o = exec_refusal (codes "exec: app name and args required")
  exec_found req (c ∷ args) none = exec_refusal (codes "no such process: " ++ req.app_name)
  exec_found req (c ∷ args) (some t) = runs (exec_cmd t.mp.config c args)

  unfoldable pub plan_exec : Supervisor → Request → ExecPlan
  plan_exec s req =
      if is_blank req.app_name
      then exec_refusal (codes "exec: app name and args required")
      else exec_found req req.exec_args (lookup req.app_name s.procs)

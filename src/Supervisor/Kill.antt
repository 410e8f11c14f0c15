-- ===== src/Supervisor/Kill.antt =====
-- internal/process/proc_unix.go and internal/process/proc_windows.go, and the small helpers of
-- internal/supervisor/supervisor.go that start a shell command, name the event of the crash webhook
-- and read a duration.
use gopm.Base.{
  ℕ, ◌≡◌, ◌↔◌, Bool, true, false, Option, none, some, List, [], ◌∷◌, ◌++◌, arith, ◌==◌,
  if◌then◌else◌, Str, codes, is_blank,
}
use gopm.Base.Int.{ℤ}
use gopm.Base.Decimal.{decimal}

-- The attributes of a child that the two builds set.
pub record SysProcAttr : Type 0 where
  pub setpgid : Bool
  pub creation_flags : ℕ

-- `SetSysProcAttr` on Linux and macOS.
abbrev unix_attr : SysProcAttr
unix_attr = record { setpgid = true; creation_flags = 0 }

-- `SetSysProcAttr` on Windows, with `CREATE_NEW_PROCESS_GROUP`.
abbrev windows_attr : SysProcAttr
windows_attr = record { setpgid = false; creation_flags = 512 }

pub data Signal : Type 0 where
  sigterm sigkill : Signal

-- The call whose error `Kill` returns: a signal to the group of an id, a signal to the process
-- alone, or taskkill with its arguments. `ignored` is the return without a call.
pub data KillCall : Type 0 where
  ignored : KillCall
  to_group to_process : ℕ → Signal → KillCall
  taskkill : List Str → KillCall

abbrev signal_of : Bool → Signal
signal_of force = if force then sigkill else sigterm

-- `Kill` on Linux and macOS. The process id is `none` where the command or its process is nil, and
-- `getpgid` fails with `none`.
unfoldable unix_kill : (ℕ → Option ℕ) → Option ℕ → Bool → KillCall
unix_kill getpgid none force = ignored
unix_kill getpgid (some pid) force = elim (getpgid pid) [
  | none ↦ to_process pid (signal_of force)
  | some pgid ↦ to_group pgid (signal_of force)
]

-- `Kill` on Windows.
unfoldable windows_kill : Option ℕ → Bool → KillCall
windows_kill none force = ignored
windows_kill (some pid) force = taskkill (
    (codes "/T" ∷ [])
    ++ (if force then codes "/F" ∷ [] else [])
    ++ (codes "/PID" ∷ decimal pid ∷ []))

-- The processes that a call signals, among those of the system: `group` is the group of a process.
abbrev signalled : (ℕ → Option ℕ) → KillCall → ℕ → Bool
signalled group ignored p = false
signalled group (to_group pgid s) p = elim (group p) [ none ↦ false | some g ↦ g == pgid ]
signalled group (to_process pid s) p = p == pid
signalled group (taskkill args) p = false

-- A child whose group can be read gets the signal of `Kill`, and with it exactly the processes of
-- the same group, whatever `force` is.
unix_kill-group :
    (group : ℕ → Option ℕ) (pid g p : ℕ) (force : Bool)
    → group pid ≡ some g
    → (signalled group (unix_kill group (some pid) force) p ≡ true) ↔ (group p ≡ some g)
unfolding unix_kill
unix_kill-group group pid g p force h = rw (unix_kill, h) (of_group (group p))
  where
    of_group : (o : Option ℕ) → (elim o [ none ↦ false | some k ↦ k == g ] ≡ true) ↔ (o ≡ some g)
    of_group none = grind arith
    of_group (some k) = grind arith

-- The shell that runs a command, by the operating system, and its directory if one is given.
pub record ShellCmd : Type 0 where
  pub program : Str
  pub args : List Str
  pub dir : Str

unfoldable shell_cmd : Bool → Str → Str → ShellCmd
shell_cmd windows cwd cmd =
    if windows
    then record { program = codes "cmd"; args = codes "/C" ∷ cmd ∷ []; dir = cwd }
    else record { program = codes "sh"; args = codes "-c" ∷ cmd ∷ []; dir = cwd }

-- `runCommand` on the errors of its start and of its wait: the lines that it writes to the log of
-- the process, and its result.
unfoldable run_shell : Option Str → Option Str → Str → List Str × Bool
run_shell (some e) wait cmd =
    ((codes "[gopm] running: " ++ cmd) ∷ (codes "[gopm] command start failed: " ++ e) ∷ [], false)
run_shell none (some e) cmd =
    ((codes "[gopm] running: " ++ cmd) ∷ (codes "[gopm] command failed: " ++ e) ∷ [], false)
run_shell none none cmd = ((codes "[gopm] running: " ++ cmd) ∷ [], true)

-- The body that `sendCrashWebhook` posts.
unfoldable crash_payload : Str → Str → Str
crash_payload name time =
    codes "{\"event\":\"crash\",\"app\":\"" ++ name ++ codes "\",\"time\":\"" ++ time ++ codes "\"}"

-- `parseDurationDefault`, where `parse` stands for time.ParseDuration.
unfoldable duration_or : (Str → Option ℤ) → Str → ℤ → ℤ
duration_or parse s default =
    if is_blank s then default else elim (parse s) [ none ↦ default | some d ↦ d ]

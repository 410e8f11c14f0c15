-- ===== src/Cli/Shell.antt =====
-- What a command of cmd/gopm/main.go runs in: the world it reads, its output, and its exit. `S` is
-- the state of everything beyond the command line, the daemon with it.
use gopm.Base.{ℕ, Bool, Option, List, ◌++◌, if◌then◌else◌, snoc, Str, codes}
use gopm.Config.{LoadResult}
use gopm.Base.Int.{ℤ}
use gopm.Ipc.{Request, Response, ProcessInfo, LogEvent}
use gopm.Ipc.Client.{SendError, SendResult, answered, failed}

-- `ping` and `send` are ipc.Ping and the `Send` of a client at the daemon's address, `stream` the
-- events of its `Stream`; `wait` is a sleep of 75 ms, `rounds` how many of them end before the
-- deadline of `ensureDaemonRunning`. The flags are what package flag makes of the arguments, and
-- `none` where it exits.
pub record World (S : Type 0) : Type 0 where
  pub ping : S → Bool
  pub send : S → Request → S × SendResult
  pub stream : S → Request → List LogEvent
  pub send_error : SendError → Str
  pub load_config : Str → LoadResult
  pub load_error : LoadResult → Str
  pub abs : Str → Option Str
  pub abs_error : Str
  pub is_abs : Str → Bool
  pub join : Str → Str → Str
  pub dir : Str → Str
  pub start_flags : List Str → Option (Str × List Str)
  pub list_flags : List Str → Option (Bool × Bool)
  pub env : Str → Str
  pub executable : Option Str
  pub exists : Str → Bool
  pub look_path : Str → Option Str
  pub daemon_exe_name : Str
  pub spawn : S → Str → S × Option Str
  pub wait : S → S
  pub rounds : ℕ
  pub quoted : Str → Str
  pub infos_json : List ProcessInfo → Str
  pub logs_json : Str → List Str → Str
  pub table : List ProcessInfo → List Str
  pub atoi : Str → Option ℤ

-- The state, and the lines on stdout so far.
pub record Shell (S : Type 0) : Type 0 where
  pub state : S
  pub out : List Str

-- A command goes on, or the process exits with a code and what it wrote to stderr.
pub data Run (S A : Type 0) : Type 0 where
  returned : A → Shell S → Run S A
  exited : ℕ → Str → Shell S → Run S A

abbrev pub Cmd : Type 0 → Type 0 → Type 0
Cmd S A = Shell S → Run S A

module _ {S A B : Type 0} where
  abbrev pub and_then : Run S A → (A → Cmd S B) → Run S B
  and_then (returned a h) k = k a h
  and_then (exited code text h) k = exited code text h

  infixl 5 ◌>>=◌ ◌>>◌
  abbrev pub ◌>>=◌ : Cmd S A → (A → Cmd S B) → Cmd S B
  m >>= k = λ h. and_then (m h) k

  abbrev pub ◌>>◌ : Cmd S A → Cmd S B → Cmd S B
  m >> n = m >>= λ _. n

module _ {S : Type 0} where
  abbrev pub pure : {A : Type 0} → A → Cmd S A
  pure a h = returned a h

  abbrev pub print_line : Str → Cmd S (Unit {0})
  print_line text h = returned tt (record h { out = snoc h.out text })

  abbrev pub print_lines : List Str → Cmd S (Unit {0})
  print_lines texts h = returned tt (record h { out = h.out ++ texts })

  -- `die`
  abbrev pub die : {A : Type 0} → Str → Cmd S A
  die msg h = exited 1 (codes "gopm: " ++ msg) h

  abbrev pub get : Cmd S S
  get h = returned h.state h

  abbrev pub put : S → Cmd S (Unit {0})
  put s h = returned tt (record h { state = s })

module _ {S : Type 0} (w : World S) where
  -- `checkResp`
  abbrev pub checked : SendResult → Cmd S Response
  checked (failed e) = die (w.send_error e)
  checked (answered resp) = if resp.ok then pure resp else die resp.error

  -- `client().Send`, and `checkResp` on what it returns.
  abbrev pub request : Request → Cmd S Response
  request req h = let (s, r) = w.send h.state req in checked r (record h { state = s })

  abbrev pub ping_daemon : Cmd S Bool
  ping_daemon h = returned (w.ping h.state) h

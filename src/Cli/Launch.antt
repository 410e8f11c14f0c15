-- ===== src/Cli/Launch.antt =====
-- cmd/gopm/main.go: `findDaemonBinary` and `ensureDaemonRunning`.
use gopm.Base.{ℕ, zero, suc, Option, none, some, ◌++◌, if◌then◌else◌, Str, codes, is_blank}
use gopm.Cli.Shell.{World, Cmd, ◌>>=◌, ◌>>◌, pure, die, get, put, ping_daemon}

module _ {S : Type 0} (w : World S) where
  abbrev pub on_path : Option Str
  on_path = w.look_path w.daemon_exe_name

  abbrev pub beside : Option Str → Option Str
  beside none = on_path
  beside (some exe) =
      let candidate = w.join (w.dir exe) w.daemon_exe_name in
      if w.exists candidate then some candidate else on_path

  -- `findDaemonBinary`; there is one error.
  unfoldable pub find_daemon_binary : Option Str
  find_daemon_binary =
      let p = w.env (codes "GOPMD") in if is_blank p then beside w.executable else some p

  -- The loop that waits for the daemon.
  unfoldable pub await : ℕ → Str → Cmd S (Unit {0})
  await zero addr = die (codes "daemon did not become reachable on " ++ addr)
  await (suc n) addr = do
    up ← ping_daemon w
    if up then pure tt else (do s ← get; put (w.wait s); await n addr)

  abbrev pub spawned : S × Option Str → Str → Cmd S (Unit {0})
  spawned (s, some err) addr = do put s; die (codes "failed to launch gopmd: " ++ err)
  spawned (s, none) addr = do put s; await w.rounds addr

  abbrev pub launch : Option Str → Str → Cmd S (Unit {0})
  launch none addr = die (
      codes
        "could not locate gopmd binary: gopmd not found (set $GOPMD, place it next to gopm, or add to PATH)")
  launch (some bin) addr = do s ← get; spawned (w.spawn s bin) addr

  -- `ensureDaemonRunning`
  unfoldable pub ensure_daemon_running : Str → Cmd S (Unit {0})
  ensure_daemon_running addr = do
    up ← ping_daemon w
    if up then pure tt else launch find_daemon_binary addr

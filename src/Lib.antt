-- ===== src/Lib.antt =====
-- gopm is a process manager: the daemon gopmd keeps the apps of a YAML file running, and the command
-- line gopm sends it requests. This library models the daemon, the requests and the commands, and
-- proves what they promise.
--
-- The parts and how they interact. A configuration (pkg/config/config.go) names the apps. The
-- supervisor (internal/supervisor/supervisor.go) keeps one managed process for each
-- (internal/supervisor/process.go) and runs a goroutine for it, `supervise`, which waits for the
-- dependencies, launches the child, and answers its exit, a stop, a signal of the file watcher
-- (internal/watcher/watcher.go) or a report of the health checker
-- (internal/healthcheck/healthcheck.go). The child's output goes to the logger
-- (internal/logger/logger.go): a ring in memory, a rotated file, subscribers. Requests
-- (internal/ipc/messages.go) reach the supervisor through a handler (internal/supervisor/rpc.go): the
-- command line (cmd/gopm/main.go) sends them with a client (internal/ipc/client.go), and the daemon
-- (cmd/gopmd/main.go) receives them with a server (internal/ipc/server.go). At its start the daemon
-- restores the apps of the state file (internal/state/store.go). The dashboard
-- (internal/web/server.go) is another client; the figures of the processes come from the operating
-- system (internal/stats).
--
-- Files and code:
--   Base        lists, byte strings, Go's int, association lists for maps, a disk for package os,
--               decimal digits
--   Config      pkg/config/config.go: Load, Validate, ResolvePath
--   Ipc         internal/ipc: messages.go; Server is handle and writeResp of server.go, Accept is
--               NewServer, SetStreamHandler, Listen, Serve and Close; Client is client.go, Exchange is
--               the two ends together
--   Logger      internal/logger/logger.go: Ring is ringBuffer (add, tail, tailFiltered), Rotate is
--               rotate and the file part of append, Registry is Logger with its operations, Attach is
--               Attach with the goroutines that run scan
--   Healthcheck internal/healthcheck/healthcheck.go: New, check and a round of the loop run; Checking is
--               Start, Stop and run with its channels
--   Store       internal/state/store.go: Save and Load of the state file
--   Watcher     internal/watcher/watcher.go: New, shouldFire, isIgnored, itoa; Tree is addRecursive,
--               Loop is Start and Close, Under is absUnder
--   Supervisor  internal/supervisor: Process is process.go; Backoff is backoff and exhaustedRestarts;
--               Loop is supervise with waitForDeps, waitEvent, buildCycle, runBuild,
--               waitRebuildOrStop and sleep; Registry is Supervisor with StartApp, Stop, Restart,
--               Delete, List, Shutdown and persist; Rpc is Handler and listInfos; Exec is
--               handleExec, with buildCmd in Launch; Follow is handleLogStream; Env is parseEnvFile,
--               isAbsPath and the environment of buildCmd; Watching is supervise beside its watcher; Kill is
--               internal/process, runCommand, the payload of sendCrashWebhook and
--               parseDurationDefault
--   Daemon      cmd/gopmd/main.go: what main restores and serves; Spawn is internal/daemon, and the log
--               file of main
--   Cli         cmd/gopm/main.go: Main is main; Commands is cmdStart, cmdStop, cmdRestart, cmdDelete,
--               cmdList, cmdLogs, cmdExec and cmdShutdown; Start is the part of cmdStart on paths and
--               groups; Launch is ensureDaemonRunning and findDaemonBinary; Args is parseLogsArgs;
--               Table is renderList; Check is validateConfigPaths and cmdValidate; Extras is cmdWeb,
--               cmdUI, cmdCompletion and cmdGenerateService, and Texts what they print; Shell is what
--               the commands run in
--   Web         internal/web/server.go: the routes, handleAction, handleProcesses and handleMetrics;
--               Stream is handleLogStream, Listening is New and the wait of Serve
--   Stats       internal/stats: Sampler is stats.go, Proc is memoryRSS and cpuTimes of stats_linux.go,
--               Windows is stats_windows.go
--   Scenarios   the theorems at concrete inputs: processes; Logs; Services, Clients, Shells, Dashboard,
--               Streams, Servers, Outputs and Changes
--
-- How the code became definitions. `supervise` is a machine: a `Phase` is a place where the goroutine
-- waits, an `Event` an arm of the `select` there or the outcome of a call, and `step` does all that
-- the code does up to the next wait; an event that cannot happen has no result. Other goroutines
-- only set its channels: a closed channel is a Boolean, and so is a buffered signal. A command that
-- waits for a goroutine takes the list of the steps that it makes in the meantime; its time limit is
-- over when the list is. Each other operation is one step, as its locks make it. The watcher's loop
-- is a machine too, whose steps have times. A connection is the bytes written at one end and those
-- that come back. The server is a machine as well, which knows when the goroutine of a connection
-- begins and ends and what it has written, in any order; what it does to the daemon is the definition
-- of one connection, and connections that change the daemon at the same time are not modelled. A Go
-- map is a list of its entries; what the code makes by ranging over one holds up to their order. A
-- command of the command line reads a world and a state, the daemon's among it, and either goes on or
-- exits with a code. A directory is a tree of its entries.
--
-- Numbers. An `int` that the code tests against 0 is a ℤ, a counter a native ℕ. The delay before a
-- restart wraps like the int64 that it is, and its theorems are for fewer than 2 ^ 34 restarts. A
-- time is a number of nanoseconds. The rotation's backup numbers and `itoa` share the digits of
-- Base/Decimal; `itoa` has room for 20 bytes, and an int64 has at most 19 digits and a sign. The
-- loop on the output of a command has one round more than there are bytes, which is enough since
-- each round takes a byte, and so has the loop on the lines of a stream; this is part of the proofs.
-- The wait for a daemon that was launched has as many rounds as end before its deadline.
--
-- From outside come, as parameters: the YAML and JSON codecs, the functions of path/filepath, the
-- parsers of package time, strings.TrimSpace, the environment that package os/exec gives by default, the answers of HTTP requests and of the operating
-- system, the calls of the Windows API, the events of fsnotify, the flags of package flag, and the
-- text of a float. A processor share is the quotient that the code computes as a float. Not modelled:
-- the processes themselves, the signals that the two programs receive, TCP and HTTP, the readers of
-- statistics for systems other than Linux and Windows, which return nothing, and examples/heartbeat,
-- a program to try the manager with.
pub mod Base
pub mod Logger
pub mod Config
pub mod Ipc
pub mod Supervisor
pub mod Healthcheck
pub mod Watcher
pub mod Web
pub mod Stats
pub mod Store
pub mod Cli
pub mod Daemon
pub mod Scenarios

-- ===== src/Scenarios/Streams.antt =====
-- A client that follows a log, and one that runs a command beside a process.
use gopm.Base.{◌≡◌, refl, true, some, List, [], ◌∷◌}
use gopm.Base.Int.{ℤ}
use gopm.Base.Dict.{lookup}
use gopm.Ipc.{cmd_log_stream, Request}
use gopm.Cli.Commands.{about}
use gopm.Logger.Registry as Loggers
use gopm.Logger.Registry.{Logger, ensure}
use gopm.Supervisor.Follow.{Source, Op, writes, sends, open_stream, stream_all}
use gopm.Supervisor.Follow.Ids.{ids, log_ids}
use gopm.Supervisor.Follow.Closed.{stream_all-close_stream}
use gopm.Logger.Registry.{subscribe_all}
use gopm.Supervisor.Follow.{of_all, close_stream}
use gopm.Supervisor.Follow.Feed.{queue_all, stream_all-queue}
use gopm.Scenarios.{web, db, disk}

abbrev logger : Logger
logger = Loggers.new (ℤ.pos 0)

-- Lines of two processes, and one event sent between them.
abbrev ops : List Op
ops = writes 1 web db ∷ writes 2 db db ∷ sends ∷ writes 3 web web ∷ sends ∷ []

stream_all-queue_example :
    (u : Logger) × (src : Source) × (open_stream logger (about cmd_log_stream web) ≡ some (u, src))
    × ((stream_all (λ t. []) src (record { logger = u; disk = disk; sent = [] }) ops).sent
        ≡ (queue_all web (record { delivered = []; waiting = [] }) ops).delivered)
unfolding Loggers.new lookup ensure
stream_all-queue_example =
    stream_all-queue (λ t. []) logger disk (about cmd_log_stream web) ops refl refl (λ k. tt) refl

abbrev all_request : Request
all_request = record (about cmd_log_stream []) { all = true }

stream_all-close_stream_example :
    let u = (subscribe_all logger).0 in
    let t =
      close_stream
        (stream_all (λ t. []) (of_all 0) (record { logger = u; disk = disk; sent = [] }) ops).logger
        (of_all 0) in
    (ids t.all_subs ≡ []) × (log_ids (lookup web t.procs) ≡ log_ids (lookup web logger.procs))
unfolding Loggers.new lookup open_stream subscribe_all
stream_all-close_stream_example =
    stream_all-close_stream (λ t. []) logger disk ops web (λ k. tt) all_request
      (subscribe_all logger).0 (of_all 0) refl refl refl

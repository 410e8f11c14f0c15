-- ===== src/Supervisor.antt =====
-- internal/supervisor
pub mod Process
pub mod Backoff
pub mod Loop
pub mod Registry
pub mod Rpc
pub mod Follow
pub mod Watching
pub mod Exec
pub mod Env
pub mod Kill

-- ===== src/Stats.antt =====
-- internal/stats: what the daemon reads of the memory and the processor time of a child.
pub mod Proc
pub mod Sampler
pub mod Windows
